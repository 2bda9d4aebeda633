-- ===== src/Wallets/Ledger.antt =====
-- What modules/wallets/listeners/shipment-delivered.listener.ts writes, in the wallet and in the
-- ledger.
use mathlib.Core.List.{Memᴰ}
use trackora.Base.{
  ℕ, ◌≡◌, ◌↔◌, ◌⊎◌, refl, subst, ap, true, false, none, some, List, [], ◌∷◌, Ensures,
  Ensures-or_throw, Ensures-throw_if, Ensures-bind, Ensures-map, is_some, ◌==◌, inl, inr, arith,
  Bool-cases, Option-cases,
}
use trackora.Base.Int.{ℤ, pos, negsuc, max0, ltb_ℤ, pos_part, neg_part, ◌+ℤ◌, ◌-ℤ◌, int_laws}
use trackora.Prisma.{Prisma, change}
use trackora.Prisma.Rows.{transaction-Ensures, Unchanged}
use trackora.Model.{Db, Wallet, Transaction, Merchant}
use trackora.Wallets.Fees.{FeeBreakdown, calculate_net_credit}
use trackora.Wallets.Versions.{
  Versioned, IsKeyed, Later, Failed, retry_lem, Swapped, update_versioned_lem, counted,
  at_version-parts,
}
use trackora.Wallets.Locking.{at_version, update_versioned, max_retries}
use trackora.Wallets.Credit.{
  ShipmentDeliveredEvent, credited, commission_entries, fee_entries, ledger_entries, credit_body,
  credit_attempt, open_wallet, new_wallet, by_id, of_merchant, process_cod_credit_atomic,
}

-- The running balance that the last row of the ledger carries.
abbrev pub last_balance : List Transaction → ℤ
last_balance [] = pos 0
last_balance (x ∷ t) = x.running_balance

ledger_gap : (a g c f n : ℤ) → (a +ℤ g -ℤ c -ℤ f ≡ a +ℤ n) ↔ (n +ℤ c +ℤ f ≡ g)
ledger_gap a g c f n = (
  (λ h. omega (int_laws, ap pos_part h, ap neg_part h)),
  λ h. omega (int_laws, ap pos_part h, ap neg_part h),
)

-- An amount is debited only if it is positive.
max0_ltb : (a : ℤ) → ltb_ℤ (pos 0) a ≡ true → max0 a ≡ a
max0_ltb (pos n) h = refl
max0_ltb (negsuc n) h = absurd (ground (arith, h))

max0_not : (a : ℤ) → ltb_ℤ (pos 0) a ≡ false → max0 a ≡ pos 0
max0_not (pos n) h = ground (arith, h)
max0_not (negsuc n) h = refl

module _ (p : Prisma) (b : FeeBreakdown) (wallet : Wallet) (shipment : ℕ)
    (t : List Transaction) where
  last_balance-ledger_entries :
      last_balance (ledger_entries p b wallet shipment t)
      ≡ wallet.balance +ℤ b.gross_cod -ℤ max0 b.commission -ℤ max0 b.fee
  unfolding ledger_entries commission_entries fee_entries
  last_balance-ledger_entries = elim (Bool-cases (ltb_ℤ (pos 0) b.commission)) [
    | inl c ↦ elim (Bool-cases (ltb_ℤ (pos 0) b.fee)) [
      | inl f ↦ rw (f, c, p.create-eq, last_balance, max0_ltb b.commission c, max0_ltb b.fee f) refl
      | inr f ↦
          rw (f, c, p.create-eq, last_balance, max0_ltb b.commission c, max0_not b.fee f)
            (omega int_laws)
    ]
    | inr c ↦ elim (Bool-cases (ltb_ℤ (pos 0) b.fee)) [
      | inl f ↦
          rw (f, c, p.create-eq, last_balance, max0_not b.commission c, max0_ltb b.fee f)
            (omega int_laws)
      | inr f ↦
          rw (f, c, p.create-eq, last_balance, max0_not b.commission c, max0_not b.fee f)
            (omega int_laws)
    ]
  ]

  -- The balance that the ledger ends with is the new balance of the wallet, exactly when the net
  -- credit, the commission and the fee, each of the two as far as it is positive, make up the gross
  -- amount.
  pub ledger_agrees_iff :
      (last_balance (ledger_entries p b wallet shipment t) ≡ (credited b wallet wallet).balance)
      ↔ (b.net_credit +ℤ max0 b.commission +ℤ max0 b.fee ≡ b.gross_cod)
  ledger_agrees_iff =
      rw last_balance-ledger_entries
        (ledger_gap wallet.balance b.gross_cod (max0 b.commission) (max0 b.fee) b.net_credit)

module _ (p : Prisma) (to_fixed : ℤ → ℤ) (fresh : ℕ) (event : ShipmentDeliveredEvent) where
  abbrev pub breakdown : Merchant → FeeBreakdown
  breakdown merchant = calculate_net_credit to_fixed event.cod_amount (record {
    commission_rate = merchant.commission_rate;
    fee_per_shipment = merchant.fee_per_shipment;
  })

  -- The wallet of the merchant as it stands, or a new one.
  abbrev Opened : List Wallet → Wallet → List Wallet → Type 0
  Opened t wallet rows =
      (Memᴰ wallet t × (of_merchant event.merchant_id event.tenant_id wallet ≡ true) × (rows ≡ t))
      ⊎ ((wallet ≡ new_wallet fresh event) × (rows ≡ new_wallet fresh event ∷ t))

  -- The credit is written on it, with the rows of the ledger, in the state `s`.
  pub record Credited (s : Db) (done : Unit {0}) (s' : Db) : Type 0 where
    pub merchant : Merchant
    pub is_known : by_id event.merchant_id event.tenant_id merchant ≡ true
    pub wallet : Wallet
    pub rows : List Wallet
    pub opened : Opened s.wallets wallet rows
    pub reached : s' ≡ record s {
      wallets =
          change (at_version wallet.id wallet.version) (credited (breakdown merchant) wallet) rows;
      transactions = ledger_entries p (breakdown merchant) wallet event.shipment_id s.transactions;
    }

  credit_body-some :
      (m : Merchant) (w : Wallet) (s : Db)
      → by_id event.merchant_id event.tenant_id m ≡ true
      → of_merchant event.merchant_id event.tenant_id w ≡ true
      → ((v : Wallet) → Memᴰ v s.wallets → v.id ≡ w.id → v.version ≡ w.version → v ≡ w)
      → Ensures (Credited s) (λ _ _. Unit {0}) (credit_body p fresh event (breakdown m) (some w) s)
  unfolding credit_body open_wallet
  credit_body-some m w s known of same =
      Ensures-bind _ _ (Swapped p w.id w.version (credited (breakdown m) w) s)
        (update_versioned p w.id w.version (credited (breakdown m) w)) _ s
        (update_versioned_lem p w.id w.version (credited (breakdown m) w) s)
        λ _ s' h.
          let (v, n, at) = counted (at_version w.id w.version) s.wallets h.0 in
          let (a, b) = at_version-parts w.id w.version v at in
          record {
            merchant = m;
            is_known = known;
            wallet = w;
            rows = s.wallets;
            opened = inl (subst (λ x. Memᴰ x s.wallets) (same v n a b) n, of, refl);
            reached = rw h.1 refl;
          }

  credit_body-none :
      (m : Merchant) (s : Db)
      → by_id event.merchant_id event.tenant_id m ≡ true
      → Ensures (Credited s) (λ _ _. Unit {0}) (credit_body p fresh event (breakdown m) none s)
  unfolding credit_body open_wallet
  credit_body-none m s known =
      let w = new_wallet fresh event in
      let s1 : Db = record s { wallets = p.create w s.wallets } in
      Ensures-bind _ _ (λ v s'. (v ≡ w) × (s' ≡ s1)) (open_wallet p fresh event none) _ s
        (Ensures-throw_if _ _
          (is_some (p.find_first (λ (v : Wallet). v.merchant_id == event.merchant_id) s.wallets)) _
          s _ (λ _. tt) (λ _. (refl, refl)))
        λ _ _ (same, reached).
          rw (same, reached)
            (Ensures-bind _ _ (Swapped p w.id w.version (credited (breakdown m) w) s1)
              (update_versioned p w.id w.version (credited (breakdown m) w)) _ s1
              (update_versioned_lem p w.id w.version (credited (breakdown m) w) s1)
              λ _ s' h. record {
                merchant = m;
                is_known = known;
                wallet = w;
                rows = w ∷ s.wallets;
                opened = inr (refl, refl);
                reached = rw h.1 (rw (p.create-eq w s.wallets) refl);
              })

module _ (p : Prisma) (to_fixed : ℤ → ℤ) (fresh : ℕ) (event : ShipmentDeliveredEvent)
    (others : ℕ → Db → Db) (versioned : Versioned others) where
  credit_attempt_lem :
      (i : ℕ) (s : Db)
      → IsKeyed s
      → Ensures
          (Credited p to_fixed fresh event (others i s))
          (Failed others i s)
          (credit_attempt p to_fixed fresh (others i) event s)
  unfolding credit_attempt
  credit_attempt_lem i s k =
      Ensures-or_throw _ _ (p.find_first (by_id event.merchant_id event.tenant_id) s.merchants) _ s
        _ (λ _. inl (refl, refl))
        λ m found.
          Ensures-map _ _ (Unchanged (others i s)) _
            (p.transaction
              (credit_body p fresh event (breakdown p to_fixed fresh event m)
                (p.find_first (of_merchant event.merchant_id event.tenant_id) s.wallets))
              (others i s))
            (λ _ _ h. h) (λ _ _ h. inr h)
            (transaction-Ensures p _ _ (others i s)
              (elim (Option-cases
                (p.find_first (of_merchant event.merchant_id event.tenant_id) s.wallets)) [
                  | inl e ↦ rw e (
                      credit_body-none p to_fixed fresh event m (others i s)
                        (p.find_first-some _ _ _ found).1)
                  | inr (w, e) ↦
                      let (n, of) = p.find_first-some _ _ _ e in
                      rw e (
                        credit_body-some p to_fixed fresh event m w (others i s)
                          (p.find_first-some _ _ _ found).1 of (λ v j. (versioned i s k).1 w v n j))
                ]))

  -- The credit of a delivered COD shipment happens as a whole or not at all, whatever other
  -- sessions commit between its reads and its writes, as long as the ids of wallets stay unique and
  -- each write of a wallet gives it a new version. When it returns, the breakdown of the shipment's amount is written on
  -- the merchant's wallet as it stood at the moment of the write, or on a new wallet, with the rows
  -- of the ledger; when it throws, what is left is what the others committed.
  pub process_cod_credit_isolated :
      (s : Db)
      → IsKeyed s
      → Ensures
          (λ d s'. (u : Db) × Later others 0 s u × Credited p to_fixed fresh event u d s')
          (λ _ s'. Later others 0 s s')
          (process_cod_credit_atomic p to_fixed fresh others event s)
  unfolding process_cod_credit_atomic
  process_cod_credit_isolated s k =
      retry_lem others (Credited p to_fixed fresh event)
        (λ i. credit_attempt p to_fixed fresh (others i) event) versioned credit_attempt_lem
        max_retries 0 s k
