-- ===== src/Payouts/Safety.antt =====
-- The invariant under each method of modules/payouts/services/payouts.service.ts.
use mathlib.Core.List.{Memᴰ}
use trackora.Base.{
  ◌∙◌, ◌+◌, ℕ, ◌≡◌, ◌≢◌, refl, sym, ap, subst, Bool, true, false, some, List, ◌==◌, Ensures, All,
  arith, ==_iff, Ensures-mono, All-mono,
}
use trackora.Base.Int.{ℤ, pos, ◌+ℤ◌, ◌-ℤ◌, abs, ◌≤ℤ◌, ltb_ℤ, int_laws, pos_part, neg_part}
use trackora.Prisma.{Prisma, change}
use trackora.Prisma.Rows.{
  IsUnique, Unchanged, find_first-All, change-All, change-IsUnique, sum_by-change, All-of_mem,
  mem_eq,
}
use trackora.Numbers.{Numbers}
use trackora.Model.{Db, Wallet, Payout}
use trackora.Model.Enums.{payout_status_enum}
use trackora.Payouts.Defs.{
  of_merchant, by_id, debit, credit, request_payout, approve, complete, reject, CreatePayoutDto,
  is_open, approved, completed, rejected,
}
use trackora.Payouts.Invariant.{
  IsValid, IsBalanced, holds_money, claim, balance_of, total, wallet_id, payout_id, change-OneOpen,
}
use trackora.Payouts.Writes.{
  Requested, Updated, Rejected, request_payout_lem, approve_lem, complete_lem, reject_lem,
}

-- A call that returns keeps the invariant and the total.
abbrev pub Kept : {A : Type 0} → Db → A → Db → Type 0
Kept db x db' = IsValid db' × (total db' ≡ total db)

abs_nonneg : (a : ℤ) → pos 0 ≤ℤ abs a
abs_nonneg a = ground arith

not-ltb_ℤ : (a b : ℤ) → ltb_ℤ a b ≡ false → b ≤ℤ a
not-ltb_ℤ a b h = ground arith

same_id : (w x : Wallet) → (x.id == w.id) ≡ true → x.id ≡ w.id
same_id w x h = (==_iff x.id w.id).0 h

-- A debit of whole cents.
abbrev debited : Wallet → ℤ → Wallet → Wallet
debited read a = λ w. record w {
  balance = read.balance -ℤ a;
  total_debited = read.total_debited +ℤ a;
  version = w.version + 1;
}

debit-whole :
    (n : Numbers) (w : Wallet) (c : ℤ) → debit n w (n.magnitude (n.of_cents c)) ≡ debited w (abs c)
debit-whole n w c =
    rw
      (
        debit,
        n.magnitude-of_cents c,
        n.to_cents-minus w.balance (abs c),
        n.to_cents-plus w.total_debited (abs c),
      )
      refl

debited-IsBalanced :
    (w : Wallet) (a : ℤ) → IsBalanced w → pos 0 ≤ℤ a → a ≤ℤ w.balance → IsBalanced (debited w a w)
debited-IsBalanced w a b p c = (omega (int_laws, ap pos_part b.0, ap neg_part b.0), omega int_laws)

credit-IsBalanced : (w : Wallet) (a : ℤ) → IsBalanced w → pos 0 ≤ℤ a → IsBalanced (credit w a w)
credit-IsBalanced w a b p = (omega (int_laws, ap pos_part b.0, ap neg_part b.0), omega int_laws)

-- A change by id of a wallet that was read keeps all wallets balanced, if it does so with that one.
wallets-IsBalanced :
    (w : Wallet) (f : Wallet → Wallet) (t : List Wallet)
    → IsUnique wallet_id t
    → Memᴰ w t
    → IsBalanced (f w)
    → All IsBalanced t
    → All IsBalanced (change (λ (y : Wallet). y.id == w.id) f t)
wallets-IsBalanced w f t u m h =
    change-All IsBalanced (λ (y : Wallet). y.id == w.id) f t
      λ y n e _.
        subst (λ (z : Wallet). IsBalanced (f z))
          (sym (mem_eq wallet_id w y t u m n (same_id w y e))) h

-- Where no payout of the merchant is open, a new one has no rival.
not_open-no_rival :
    (merchant tenant : ℕ) (y : Payout)
    → is_open merchant tenant y ≡ false
    → holds_money y ≡ true
    → y.merchant_id ≡ merchant
    → y.tenant_id ≡ some tenant
    → ⊥
not_open-no_rival merchant tenant y h o m t = ground arith

-- An open payout claims its amount.
claim_open : (x : Payout) → holds_money x ≡ true → claim x ≡ x.amount
claim_open x h = ground arith

by_id-id :
    (id tenant : ℕ) (x y : Payout)
    → by_id id tenant x ≡ true
    → by_id id tenant y ≡ true
    → y.id ≡ x.id
by_id-id id tenant x y hx hy = ground arith

module _ (p : Prisma) where
  Requested-Kept :
      (n : Numbers) (fresh user : ℕ) (dto : CreatePayoutDto n) (tenant : ℕ) (c : ℤ) (db : Db)
      (x : Payout) (db' : Db)
      → dto.amount ≡ n.of_cents c
      → IsValid db
      → All (λ (y : Payout). y.id ≢ fresh) db.payouts
      → Requested p n fresh user dto tenant db x db'
      → Kept db x db'
  Requested-Kept n fresh user dto tenant c db x db' cents v new r =
      let w : Wallet = r.wallet in
      let a : ℤ = abs c in
      let paid : debit n w (n.magnitude dto.amount) ≡ debited w a = rw cents (debit-whole n w c) in
      let stored : n.to_cents (n.magnitude dto.amount) ≡ a =
        rw (cents, n.magnitude-of_cents c) (n.to_cents-of_cents a) in
      let covered : ltb_ℤ w.balance a ≡ false =
        sym (n.less-of_cents w.balance a)
        ∙ subst (λ m. n.less (n.of_cents w.balance) m ≡ false)
            (ap n.magnitude cents ∙ n.magnitude-of_cents c) r.covered in
      let found =
        find_first-All p IsBalanced (of_merchant r.linked.id tenant) db.wallets w v.balanced
          r.found in
      let mem = (p.find_first-some _ _ _ r.found).0 in
      let moved =
        sum_by-change wallet_id (λ (y : Wallet). y.id == w.id) (debited w a) balance_of w db.wallets
          ((==_iff w.id w.id).1 refl) (same_id w) v.wallet_ids mem in
      subst (λ d. Kept db x d) (sym r.reached)
        (rw paid (
          record {
            wallet_ids =
                change-IsUnique wallet_id (λ (y : Wallet). y.id == w.id) (debited w a) db.wallets
                  (λ _. refl) v.wallet_ids;
            payout_ids = (new, v.payout_ids);
            balanced =
                wallets-IsBalanced w (debited w a) db.wallets v.wallet_ids mem
                  (debited-IsBalanced w a found.0 (abs_nonneg c) (not-ltb_ℤ w.balance a covered))
                  v.balanced;
            amounts = (rw stored (abs_nonneg c), v.amounts);
            one_open = (
              (λ _.
                  All-mono (λ y. is_open r.linked.id tenant y ≡ false) _ db.payouts
                    (not_open-no_rival r.linked.id tenant) (p.find_first-none _ _ r.none_open)),
              v.one_open,
            );
          },
          rw (moved, stored) (omega int_laws),
        ))

  -- A request of whole cents keeps the invariant and the total of the money, or changes nothing.
  pub request_payout-Kept :
      (n : Numbers) (fresh user : ℕ) (dto : CreatePayoutDto n) (tenant : ℕ) (c : ℤ) (db : Db)
      → dto.amount ≡ n.of_cents c
      → IsValid db
      → All (λ (y : Payout). y.id ≢ fresh) db.payouts
      → Ensures (Kept db) (Unchanged db) (request_payout p n fresh user dto tenant db)
  request_payout-Kept n fresh user dto tenant c db cents v new =
      Ensures-mono _ (Kept db) (Unchanged db) (request_payout p n fresh user dto tenant db)
        (λ x s. Requested-Kept n fresh user dto tenant c db x s cents v new)
        (request_payout_lem p n fresh user dto tenant db v.wallet_ids)

  -- A change of one payout's status from an open one to one that is not rejected.
  Updated-Kept :
      (id tenant : ℕ) (test : Payout → Bool) (f : Payout → Payout → Payout) (db : Db) (x : Payout)
      (db' : Db)
      → ((r y : Payout)
          → ((f r y).id ≡ y.id)
            × ((f r y).merchant_id ≡ y.merchant_id)
            × ((f r y).tenant_id ≡ y.tenant_id)
            × ((f r y).amount ≡ y.amount))
      → ((r y : Payout) → claim (f r y) ≡ y.amount)
      → ((y : Payout) → test y ≡ true → holds_money y ≡ true)
      → IsValid db
      → Updated p id tenant test f db x db'
      → Kept db x db'
  Updated-Kept id tenant test f db x db' keeps claims opened v r =
      let mem = p.find_first-some (by_id id tenant) db.payouts r.old r.found in
      let only =
        λ (y : Payout) (h : by_id id tenant y ≡ true). by_id-id id tenant r.old y mem.1 h in
      let moved =
        sum_by-change payout_id (by_id id tenant) (f r.old) claim r.old db.payouts mem.1 only
          v.payout_ids mem.0 in
      let opens =
        All-of_mem
          (λ (y : Payout).
            by_id id tenant y ≡ true → holds_money (f r.old y) ≡ true → holds_money y ≡ true)
          db.payouts
          (λ y m h _.
            subst (λ (z : Payout). holds_money z ≡ true)
              (sym (mem_eq payout_id r.old y db.payouts v.payout_ids mem.0 m (only y h)))
              (opened r.old r.allowed)) in
      subst (λ d. Kept db x d) (sym r.reached)
        (
          record {
            wallet_ids = v.wallet_ids;
            payout_ids =
                change-IsUnique payout_id _ _ db.payouts (λ y. (keeps r.old y).0) v.payout_ids;
            balanced = v.balanced;
            amounts =
                change-All (λ (y : Payout). pos 0 ≤ℤ y.amount) (by_id id tenant) (f r.old)
                  db.payouts (λ y _ _ h. rw (keeps r.old y).3 h) v.amounts;
            one_open =
                change-OneOpen _ _ (λ y. (keeps r.old y).1) (λ y. (keeps r.old y).2) db.payouts
                  opens v.one_open;
          },
          rw moved (
              omega (
                int_laws,
                ap pos_part (claims r.old r.old),
                ap neg_part (claims r.old r.old),
                ap pos_part (claim_open r.old (opened r.old r.allowed)),
                ap neg_part (claim_open r.old (opened r.old r.allowed)),
              )),
        )

  pub approve-Kept :
      (id admin tenant : ℕ) (db : Db)
      → IsValid db
      → Ensures (Kept db) (Unchanged db) (approve p id admin tenant db)
  approve-Kept id admin tenant db v =
      Ensures-mono _ (Kept db) (Unchanged db) (approve p id admin tenant db)
        (λ x s.
          Updated-Kept id tenant _ (λ _. approved admin) db x s (λ _ _. (refl, refl, refl, refl))
            (λ _ _. refl) (λ y h. ground arith) v)
        (approve_lem p id admin tenant db)

  pub complete-Kept :
      (now id reference tenant : ℕ) (db : Db)
      → IsValid db
      → Ensures (Kept db) (Unchanged db) (complete p now id reference tenant db)
  complete-Kept now id reference tenant db v =
      Ensures-mono _ (Kept db) (Unchanged db) (complete p now id reference tenant db)
        (λ x s.
          Updated-Kept id tenant _ (completed now reference) db x s
            (λ _ _. (refl, refl, refl, refl)) (λ _ _. refl) (λ y h. ground arith) v)
        (complete_lem p now id reference tenant db)

  Rejected-Kept :
      (id tenant : ℕ) (db : Db) (x : Payout) (db' : Db)
      → IsValid db
      → Rejected p id tenant db x db'
      → Kept db x db'
  Rejected-Kept id tenant db x db' v r =
      let w : Wallet = r.wallet in
      let a : ℤ = r.old.amount in
      let owned =
        find_first-All p IsBalanced (of_merchant r.old.merchant_id tenant) db.wallets w v.balanced
          r.owned in
      let mem = (p.find_first-some _ _ _ r.owned).0 in
      let amount =
        find_first-All p (λ (y : Payout). pos 0 ≤ℤ y.amount) (by_id id tenant) db.payouts r.old
          v.amounts r.found in
      let moved =
        sum_by-change wallet_id (λ (y : Wallet). y.id == w.id) (credit w a) balance_of w db.wallets
          ((==_iff w.id w.id).1 refl) (same_id w) v.wallet_ids mem in
      let old = p.find_first-some (by_id id tenant) db.payouts r.old r.found in
      let released =
        sum_by-change payout_id (by_id id tenant) rejected claim r.old db.payouts old.1
          (λ y. by_id-id id tenant r.old y old.1) v.payout_ids old.0 in
      let claimed = claim_open r.old r.allowed in
      subst (λ d. Kept db x d) (sym r.reached)
        (
          record {
            wallet_ids =
                change-IsUnique wallet_id (λ (y : Wallet). y.id == w.id) (credit w a) db.wallets
                  (λ _. refl) v.wallet_ids;
            payout_ids =
                change-IsUnique payout_id (by_id id tenant) rejected db.payouts (λ _. refl)
                  v.payout_ids;
            balanced =
                wallets-IsBalanced w (credit w a) db.wallets v.wallet_ids mem
                  (credit-IsBalanced w a owned.0 amount.0) v.balanced;
            amounts =
                change-All (λ (y : Payout). pos 0 ≤ℤ y.amount) (by_id id tenant) rejected db.payouts
                  (λ y _ _ h. h) v.amounts;
            one_open =
                change-OneOpen (by_id id tenant) rejected (λ _. refl) (λ _. refl) db.payouts
                  (All-of_mem _ db.payouts (λ y _ _ h. cc)) v.one_open;
          },
          rw (moved, released) (omega (int_laws, ap pos_part claimed, ap neg_part claimed)),
        )

  pub reject-Kept :
      (id tenant : ℕ) (db : Db)
      → IsValid db
      → Ensures (Kept db) (Unchanged db) (reject p id tenant db)
  reject-Kept id tenant db v =
      Ensures-mono _ (Kept db) (Unchanged db) (reject p id tenant db)
        (λ x s. Rejected-Kept id tenant db x s v) (reject_lem p id tenant db v.wallet_ids)
