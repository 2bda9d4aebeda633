-- ===== src/Wallets/Versions.antt =====
-- Transactions of modules/wallets/services/transactions.service.ts among other sessions.
use mathlib.Core.List.{Memᴰ}
use trackora.Base.{
  ℕ, zero, suc, ◌≡◌, ◌⊎◌, refl, sym, subst, ◌∙◌, ap, Bool, true, false, List, [], ◌∷◌, Outcome,
  Action, ok, err, Ensures, Ensures-or_throw, Ensures-throw_if, Ensures-throw_if_last, Ensures-bind,
  Ensures-map, count_if, ◌==◌, ==_iff, Bool-cases, inl, inr, arith, not,
}
use trackora.Base.Int.{ℤ, pos, ◌≤ℤ◌, ltb_ℤ, abs}
use trackora.Prisma.{Prisma, change}
use trackora.Prisma.Rows.{IsUnique, transaction-Ensures, Unchanged}
use trackora.Model.{Db, Wallet, Transaction}
use trackora.Wallets.Locking.{
  Error, Direction, CreateTransactionInput, is_conflict, max_retries, new_balance, overdrawn, moved,
  at_version, ledger_row, shipment_known, update_versioned, write_body, attempt, retry,
  create_transaction,
}

abbrev pub wallet_id : Wallet → ℕ
wallet_id w = w.id

pub counted :
    {Row : Type 0} (q : Row → Bool) (t : List Row)
    → (count_if q t == 0) ≡ false
    → (r : Row) × Memᴰ r t × (q r ≡ true)
counted q [] h = cc
counted q (r ∷ t) h = elim (Bool-cases (q r)) [
  | inl e ↦ (r, Memᴰ.head refl, e)
  | inr e ↦ let (x, m, c) = counted q t (rw e at h) in (x, Memᴰ.tail m, c)
]

pub at_version-parts :
    (id version : ℕ) (w : Wallet)
    → at_version id version w ≡ true
    → (w.id ≡ id) × (w.version ≡ version)
at_version-parts id version w h = ground arith

overdrawn-false : (b : ℤ) → ltb_ℤ b (pos 0) ≡ false → pos 0 ≤ℤ b
overdrawn-false b h = ground arith

-- The states that the other sessions have left when attempt `i` begins, with the attempts from `i`.
pub data Later (others : ℕ → Db → Db) : ℕ → Db → Db → Type 0 where
  now : {i : ℕ} {s : Db} → Later others i s s
  commits : {i : ℕ} {s t : Db} → Later others (suc i) (others i s) t → Later others i s t

-- The ids of the wallets are unique.
abbrev pub IsKeyed : Db → Type 0
IsKeyed s = IsUnique wallet_id s.wallets

-- The other sessions keep the ids of wallets unique, and write a wallet only with a new version: a
-- row that still has the id and the version of a row from before is that row.
abbrev pub Versioned : (ℕ → Db → Db) → Type 0
Versioned others =
    (i : ℕ) (s : Db)
    → IsKeyed s
    → IsKeyed (others i s)
      × ((w v : Wallet)
          → Memᴰ w s.wallets
          → Memᴰ v (others i s).wallets
          → v.id ≡ w.id
          → v.version ≡ w.version
          → v ≡ w)

-- Attempts that fail leave what the others have committed, and a failure that is not a conflict
-- may come before the others commit.
abbrev pub Failed : (ℕ → Db → Db) → ℕ → Db → Error → Db → Type 0
Failed others i s e s' = ((is_conflict e ≡ false) × (s' ≡ s)) ⊎ (s' ≡ others i s)

-- If each attempt does `Q` on what the others have left, or fails, so does the loop.
module _ {A : Type 0} (others : ℕ → Db → Db) (Q : Db → A → Db → Type 0)
    (step : ℕ → Action Db Error A) (versioned : Versioned others)
    (each : (i : ℕ) (s : Db)
      → IsKeyed s
      → Ensures (Q (others i s)) (Failed others i s) (step i s)) where
  pub retry_lem :
      (left i : ℕ) (s : Db)
      → IsKeyed s
      → Ensures
          (λ a s'. (u : Db) × Later others i s u × Q u a s')
          (λ _ s'. Later others i s s')
          (retry left i step s)
  unfolding retry
  retry_lem zero i s k = now
  retry_lem (suc left) i s k =
      settled (step i s) (each i s k) (retry_lem left (suc i) (others i s) (versioned i s k).0)
    where
      settled :
          (o : Outcome Db Error A)
          → Ensures (Q (others i s)) (Failed others i s) o
          → Ensures
              (λ a s'. (u : Db) × Later others (suc i) (others i s) u × Q u a s')
              (λ _ s'. Later others (suc i) (others i s) s')
              (retry left (suc i) step (others i s))
          → Ensures
              (λ a s'. (u : Db) × Later others i s u × Q u a s')
              (λ _ s'. Later others i s s')
              (elim o [
                | ok a s' ↦ ok a s'
                | err e s' ↦ elim (is_conflict e) [
                  | true ↦ retry left (suc i) step s'
                  | false ↦ err e s'
                ]
              ])
      settled (ok a s') h next = (others i s, commits now, h)
      settled (err e s') (inl (other, kept)) next = rw (other, kept) now
      settled (err e s') (inr conflict) next = elim (Bool-cases (is_conflict e)) [
        | inl again ↦
            rw (again, conflict)
              (Ensures-map _ _ _ _ (retry left (suc i) step (others i s))
                (λ _ _ (u, l, w). (u, commits l, w)) (λ _ _ l. commits l) next)
        | inr other ↦ rw (other, conflict) (commits now)
      ]

module _ (p : Prisma) where
  -- The transaction is written on the wallet as it stands at that moment, in the state `s`.
  pub record Written (input : CreateTransactionInput) (direction : Direction) (s : Db)
      (t : Transaction) (s' : Db) : Type 0 where
    pub wallet : Wallet
    pub stands : Memᴰ wallet s.wallets
    pub is_the : wallet.id ≡ input.wallet_id
    pub covered : overdrawn direction (new_balance direction (abs input.amount) wallet) ≡ false
    pub returned : t ≡ ledger_row input direction wallet
    pub reached : s' ≡ record s {
      wallets =
          change
            (at_version input.wallet_id wallet.version)
            (moved direction (abs input.amount) wallet)
            s.wallets;
      transactions = t ∷ s.transactions;
    }

  -- A row of that version was there, and it has been changed.
  abbrev pub Swapped : ℕ → ℕ → (Wallet → Wallet) → Db → Unit {0} → Db → Type 0
  Swapped id version f s _ s' =
      ((count_if (at_version id version) s.wallets == 0) ≡ false)
      × (s' ≡ record s { wallets = change (at_version id version) f s.wallets })

  pub update_versioned_lem :
      (id version : ℕ) (f : Wallet → Wallet) (s : Db)
      → Ensures (Swapped id version f s) (λ _ _. Unit {0}) (update_versioned p id version f s)
  unfolding update_versioned
  update_versioned_lem id version f s =
      Ensures-throw_if_last _ _ (p.count (at_version id version) s.wallets == 0) _ _ (λ _. tt)
        λ left. (
          rw (p.count-eq (at_version id version) s.wallets) at left,
          ap (λ t. record s { wallets = t }) (p.update_many-eq (at_version id version) f s.wallets),
        )

  write_body_lem :
      (input : CreateTransactionInput) (direction : Direction) (w : Wallet) (s : Db)
      → ((v : Wallet) → Memᴰ v s.wallets → v.id ≡ w.id → v.version ≡ w.version → v ≡ w)
      → w.id ≡ input.wallet_id
      → overdrawn direction (new_balance direction (abs input.amount) w) ≡ false
      → Ensures (Written input direction s) (λ _ _. Unit {0}) (write_body p input direction w s)
  unfolding write_body
  write_body_lem input direction w s same e covered =
      Ensures-bind _ _ (Swapped input.wallet_id w.version (moved direction (abs input.amount) w) s)
        (update_versioned p input.wallet_id w.version (moved direction (abs input.amount) w)) _ s
        (update_versioned_lem input.wallet_id w.version (moved direction (abs input.amount) w) s)
        λ _ s' h.
          let (v, m, at) = counted (at_version input.wallet_id w.version) s.wallets h.0 in
          let (a, b) = at_version-parts input.wallet_id w.version v at in
          rw (p.create-eq (ledger_row input direction w) s'.transactions) (record {
            wallet = w;
            stands = subst (λ x. Memᴰ x s.wallets) (same v m (a ∙ sym e) b) m;
            is_the = e;
            covered = covered;
            returned = refl;
            reached = rw h.1 refl;
          })

module _ (p : Prisma) (others : ℕ → Db → Db) (versioned : Versioned others) where
  attempt_lem :
      (i : ℕ) (input : CreateTransactionInput) (direction : Direction) (s : Db)
      → IsKeyed s
      → Ensures
          (Written p input direction (others i s))
          (Failed others i s)
          (attempt p (others i) input direction s)
  unfolding attempt
  attempt_lem i input direction s k =
      Ensures-or_throw _ _ (p.find_first (λ (w : Wallet). w.id == input.wallet_id) s.wallets) _ s _
        (λ _. inl (refl, refl))
        λ w found.
          let (m, at) =
            p.find_first-some (λ (w : Wallet). w.id == input.wallet_id) s.wallets w found in
          let e = (==_iff w.id input.wallet_id).0 at in
          Ensures-throw_if _ _ (not (shipment_known p input.shipment_id w s)) _ s _
            (λ _. inl (refl, refl))
            λ _.
              Ensures-throw_if _ _
                (overdrawn direction (new_balance direction (abs input.amount) w)) _ s _
                (λ _. inl (refl, refl))
                λ covered.
                  Ensures-map _ _ (Unchanged (others i s)) _
                    (p.transaction (write_body p input direction w) (others i s)) (λ _ _ h. h)
                    (λ _ _ h. inr h)
                    (transaction-Ensures p _ (write_body p input direction w) (others i s) (
                      write_body_lem p input direction w (others i s)
                        (λ v n. (versioned i s k).1 w v m n) e covered))

  -- No update of a wallet is lost. Other sessions may commit anything between the read of a
  -- transaction and its write, as long as the ids of wallets stay unique and each write of a wallet
  -- gives it a new version. A transaction that returns was written on the wallet as it stood at the moment of the write: the
  -- balance moved by the amount from that wallet's balance, and the ledger row carries it. One that
  -- throws has written nothing: what is left is what the others committed.
  pub create_transaction_isolated :
      (input : CreateTransactionInput) (direction : Direction) (s : Db)
      → IsKeyed s
      → Ensures
          (λ t s'. (u : Db) × Later others 0 s u × Written p input direction u t s')
          (λ _ s'. Later others 0 s s')
          (create_transaction p others input direction s)
  unfolding create_transaction
  create_transaction_isolated input direction s k =
      retry_lem others (Written p input direction) (λ i. attempt p (others i) input direction)
        versioned (λ i u. attempt_lem i input direction u) max_retries 0 s k
