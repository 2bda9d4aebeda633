-- ===== src/Payouts/Writes.antt =====
-- The methods of modules/payouts/services/payouts.service.ts as changes of the tables.
use mathlib.Core.List.{Memᴰ}
use trackora.Base.{
  ℕ, ◌≡◌, refl, Bool, true, false, none, some, ◌∷◌, ok, ◌==◌, not, throw_if, ◌>>=◌, ◌>>◌, Ensures,
  is_some, Ensures-or_throw, Ensures-throw_if, Ensures-step, Ensures-lookup,
}
use trackora.Base.Int.{◌+ℤ◌}
use trackora.Prisma.{Prisma, change}
use trackora.Prisma.Rows.{
  IsUnique, find_first_unique, Unchanged, transaction-Ensures, is_some-false, not-false,
}
use trackora.Numbers.{Numbers}
use trackora.Model.{Db, Merchant, Wallet, Payout}
use trackora.Model.Enums.{TransactionType, PayoutStatus, includes, payout_status_enum, ◌===◌}
use trackora.Payouts.Defs.{
  Error, update_wallet, of_merchant, of_user, by_id, debit, credit, request_body, request_payout,
  approve, complete, reject_body, reject, new_payout, CreatePayoutDto, is_open, min_payout_amount,
  completable_statuses, rejectable_statuses, find_payout, update_payout, approved, completed,
  rejected,
}
use trackora.Payouts.Invariant.{wallet_id}

module _ (p : Prisma) where
  update_wallet_lem :
      (w : Wallet) (f : Wallet → Wallet) (db : Db)
      → IsUnique wallet_id db.wallets
      → Memᴰ w db.wallets
      → update_wallet p w.id f db
        ≡ ok tt (record db { wallets = change (λ (x : Wallet). x.id == w.id) f db.wallets })
  unfolding update_wallet
  update_wallet_lem w f db u m =
      rw (p.update-some _ f db.wallets w (find_first_unique p wallet_id w db.wallets u m))

  update_payout_lem :
      (id tenant : ℕ) (f : Payout → Payout) (x : Payout) (db : Db)
      → p.find_first (by_id id tenant) db.payouts ≡ some x
      → update_payout p id tenant f db
        ≡ ok (f x) (record db { payouts = change (by_id id tenant) f db.payouts })
  unfolding update_payout
  update_payout_lem id tenant f x db found =
      rw (p.update-some (by_id id tenant) f db.payouts x found)

  module _ (n : Numbers) where
    -- The database after a request of which the checks have passed.
    abbrev pub requested : ℕ → ℕ → ℕ → CreatePayoutDto n → Wallet → Db → Db
    requested fresh merchant tenant dto w db = record db {
      payouts = new_payout n fresh merchant tenant dto ∷ db.payouts;
      wallets =
          change (λ (x : Wallet). x.id == w.id) (debit n w (n.magnitude dto.amount)) db.wallets;
      transactions =
          record {
            wallet_id = w.id;
            shipment_id = none;
            type = TransactionType.payout_debit;
            amount = n.to_cents (n.negated (n.magnitude dto.amount));
            running_balance = n.to_cents (n.minus (n.of_cents w.balance) (n.magnitude dto.amount));
          }
          ∷ db.transactions;
    }

    -- What the checks of a request have found.
    pub record Requested (fresh user : ℕ) (dto : CreatePayoutDto n) (tenant : ℕ) (db : Db)
        (x : Payout) (db' : Db) : Type 0 where
      pub linked : Merchant
      pub wallet : Wallet
      pub is_linked : p.find_first (of_user user tenant) db.merchants ≡ some linked
      pub found : p.find_first (of_merchant linked.id tenant) db.wallets ≡ some wallet
      pub enough : n.less dto.amount (n.of_cents min_payout_amount) ≡ false
      pub covered : n.less (n.of_cents wallet.balance) (n.magnitude dto.amount) ≡ false
      pub none_open : p.find_first (is_open linked.id tenant) db.payouts ≡ none
      pub returned : x ≡ new_payout n fresh linked.id tenant dto
      pub reached : db' ≡ requested fresh linked.id tenant dto wallet db

    request_body_lem :
        (fresh user : ℕ) (m : Merchant) (dto : CreatePayoutDto n) (tenant : ℕ) (db : Db)
        → IsUnique wallet_id db.wallets
        → p.find_first (of_user user tenant) db.merchants ≡ some m
        → n.less dto.amount (n.of_cents min_payout_amount) ≡ false
        → Ensures
            (Requested fresh user dto tenant db)
            (λ _ _. Unit {0})
            (request_body p n fresh m.id tenant dto db)
    unfolding request_body
    request_body_lem fresh user m dto tenant db u linked enough =
        Ensures-or_throw _ _ (p.find_first (of_merchant m.id tenant) db.wallets) _ db _ (λ _. tt)
          λ w found.
            Ensures-throw_if _ _ (n.less (n.of_cents w.balance) (n.magnitude dto.amount)) _ db _
              (λ _. tt)
              λ covered.
                Ensures-throw_if _ _ (is_some (p.find_first (is_open m.id tenant) db.payouts)) _ db
                  _ (λ _. tt)
                  λ closed. rw p.create-eq (
                    Ensures-step _ _ (update_wallet p w.id (debit n w (n.magnitude dto.amount))) _ _
                      tt _ (update_wallet_lem w _ _ u (p.find_first-some _ _ _ found).0)
                      (rw p.create-eq (record {
                        linked = m;
                        is_linked = linked;
                        wallet = w;
                        found = found;
                        enough = enough;
                        covered = covered;
                        none_open = is_some-false _ closed;
                        returned = refl;
                        reached = refl;
                      })))

    pub request_payout_lem :
        (fresh user : ℕ) (dto : CreatePayoutDto n) (tenant : ℕ) (db : Db)
        → IsUnique wallet_id db.wallets
        → Ensures
            (Requested fresh user dto tenant db)
            (Unchanged db)
            (request_payout p n fresh user dto tenant db)
    unfolding request_payout
    request_payout_lem fresh user dto tenant db u =
        Ensures-lookup _ _ (p.find_first (of_user user tenant) db.merchants) _ (λ m. m.id) db _
          (λ _. refl)
          λ m linked.
            Ensures-throw_if _ _ (n.less dto.amount (n.of_cents min_payout_amount)) _ db _
              (λ _. refl)
              λ enough.
                transaction-Ensures p _ _ db
                  (request_body_lem fresh user m dto tenant db u linked enough)

  -- A payout that was found by its id and tenant has been changed, and nothing else.
  pub record Updated (id tenant : ℕ) (test : Payout → Bool) (f : Payout → Payout → Payout) (db : Db)
      (x : Payout) (db' : Db) : Type 0 where
    pub old : Payout
    pub found : p.find_first (by_id id tenant) db.payouts ≡ some old
    pub allowed : test old ≡ true
    pub returned : x ≡ f old old
    pub reached : db' ≡ record db { payouts = change (by_id id tenant) (f old) db.payouts }

  -- The update by id that follows on a lookup by the same id meets the row that was found.
  update-Ensures :
      (id tenant : ℕ) (test : Payout → Bool) (e : Error) (f : Payout → Payout → Payout) (db : Db)
      → Ensures (Updated id tenant test f db) (Unchanged db) (
          (find_payout p id tenant >>= λ payout.
          throw_if (not (test payout)) e >> update_payout p id tenant (f payout))
            db)
  unfolding find_payout update_payout
  update-Ensures id tenant test e f db =
      Ensures-or_throw _ _ (p.find_first (by_id id tenant) db.payouts) _ db _ (λ _. refl)
        λ x found.
          Ensures-throw_if _ _ (not (test x)) _ db _ (λ _. refl)
            λ allowed. rw (p.update-some (by_id id tenant) (f x) db.payouts x found) (record {
              old = x;
              found = found;
              allowed = not-false _ allowed;
              returned = refl;
              reached = refl;
            })

  pub approve_lem :
      (id admin tenant : ℕ) (db : Db)
      → Ensures
          (Updated id tenant (λ x. x.status === PayoutStatus.pending) (λ _. approved admin) db)
          (Unchanged db)
          (approve p id admin tenant db)
  unfolding approve
  approve_lem id admin tenant db = update-Ensures id tenant _ _ _ db

  pub complete_lem :
      (now id reference tenant : ℕ) (db : Db)
      → Ensures
          (Updated id tenant
            (λ x. includes completable_statuses x.status)
            (completed now reference)
            db)
          (Unchanged db)
          (complete p now id reference tenant db)
  unfolding complete
  complete_lem now id reference tenant db = update-Ensures id tenant _ _ _ db

  -- The database after a rejection: the payout is closed, and its amount is back in the wallet.
  abbrev pub refunded : ℕ → ℕ → Payout → Wallet → Db → Db
  refunded id tenant x w db = record db {
    payouts = change (by_id id tenant) rejected db.payouts;
    wallets = change (λ (y : Wallet). y.id == w.id) (credit w x.amount) db.wallets;
    transactions =
        record {
          wallet_id = w.id;
          shipment_id = none;
          type = TransactionType.adjustment_credit;
          amount = x.amount;
          running_balance = w.balance +ℤ x.amount;
        }
        ∷ db.transactions;
  }

  pub record Rejected (id tenant : ℕ) (db : Db) (x : Payout) (db' : Db) : Type 0 where
    pub old : Payout
    pub wallet : Wallet
    pub found : p.find_first (by_id id tenant) db.payouts ≡ some old
    pub owned : p.find_first (of_merchant old.merchant_id tenant) db.wallets ≡ some wallet
    pub allowed : includes rejectable_statuses old.status ≡ true
    pub returned : x ≡ rejected old
    pub reached : db' ≡ refunded id tenant old wallet db

  reject_body_lem :
      (x : Payout) (id tenant : ℕ) (db : Db)
      → IsUnique wallet_id db.wallets
      → p.find_first (by_id id tenant) db.payouts ≡ some x
      → includes rejectable_statuses x.status ≡ true
      → Ensures (Rejected id tenant db) (λ _ _. Unit {0}) (reject_body p x id tenant db)
  unfolding reject_body
  reject_body_lem x id tenant db u found allowed =
      Ensures-or_throw _ _ (p.find_first (of_merchant x.merchant_id tenant) db.wallets) _ db _
        (λ _. tt)
        λ w owned.
          Ensures-step _ _ (update_payout p id tenant rejected) _ db _ _
            (update_payout_lem id tenant rejected x db found)
            (Ensures-step _ _ (update_wallet p w.id (credit w x.amount)) _ _ tt _
              (update_wallet_lem w _ _ u (p.find_first-some _ _ _ owned).0)
              (rw p.create-eq (record {
                old = x;
                wallet = w;
                found = found;
                owned = owned;
                allowed = allowed;
                returned = refl;
                reached = refl;
              })))

  pub reject_lem :
      (id tenant : ℕ) (db : Db)
      → IsUnique wallet_id db.wallets
      → Ensures (Rejected id tenant db) (Unchanged db) (reject p id tenant db)
  unfolding reject
  reject_lem id tenant db u =
      Ensures-or_throw _ _ (p.find_first (by_id id tenant) db.payouts) _ db _ (λ _. refl)
        λ x found.
          Ensures-throw_if _ _ (not (includes rejectable_statuses x.status)) _ db _ (λ _. refl)
            λ allowed.
              transaction-Ensures p _ _ db
                (reject_body_lem x id tenant db u found (not-false _ allowed))
