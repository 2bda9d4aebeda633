-- ===== src/Payouts/Invariant.antt =====
-- What holds of the wallets and payouts between two calls of the payout service, and the rows'
-- share of the money that the platform owes to its merchants.
use trackora.Base.{
  ℕ, ◌≡◌, refl, sym, ◌∙◌, Bool, true, List, [], ◌∷◌, All, if◌then◌else◌, Bool-cases, inl, inr,
}
use trackora.Base.Int.{ℤ, pos, ◌+ℤ◌, ◌≤ℤ◌, sum_by}
use trackora.Prisma.{change}
use trackora.Prisma.Rows.{IsUnique}
use trackora.Model.{Db, Wallet, Payout}
use trackora.Model.Enums.{PayoutStatus, ◌===◌, includes, payout_status_enum}
use trackora.Payouts.Defs.{open_payout_statuses}

abbrev pub wallet_id : Wallet → ℕ
wallet_id w = w.id

abbrev pub payout_id : Payout → ℕ
payout_id x = x.id

-- A wallet holds what was credited and not debited, and is not overdrawn.
abbrev pub IsBalanced : Wallet → Type 0
IsBalanced w = (w.balance +ℤ w.total_debited ≡ w.total_credited) × (pos 0 ≤ℤ w.balance)

abbrev pub holds_money : Payout → Bool
holds_money x = includes open_payout_statuses x.status

-- No other payout of the same merchant is open beside an open one.
abbrev pub NoRival : Payout → List Payout → Type 0
NoRival x xs =
    holds_money x ≡ true
    → All
        (λ (y : Payout).
          holds_money y ≡ true → y.merchant_id ≡ x.merchant_id → y.tenant_id ≡ x.tenant_id → ⊥)
        xs

-- Every merchant has at most one open payout.
abbrev pub OneOpen : List Payout → Type 0
OneOpen [] = Unit
OneOpen (x ∷ xs) = NoRival x xs × OneOpen xs

pub record IsValid (db : Db) : Type 0 where
  pub wallet_ids : IsUnique wallet_id db.wallets
  pub payout_ids : IsUnique payout_id db.payouts
  pub balanced : All IsBalanced db.wallets
  pub amounts : All (λ (x : Payout). pos 0 ≤ℤ x.amount) db.payouts
  pub one_open : OneOpen db.payouts

-- What a payout takes out of the wallets: nothing once it is rejected.
abbrev pub claim : Payout → ℤ
claim x = if x.status === PayoutStatus.rejected then pos 0 else x.amount

abbrev pub balance_of : Wallet → ℤ
balance_of w = w.balance

-- The money in the wallets, together with that taken out by payouts.
abbrev pub total : Db → ℤ
total db = sum_by balance_of db.wallets +ℤ sum_by claim db.payouts

-- A change of status which opens no payout keeps the rule of one open payout.
module _ (q : Payout → Bool) (f : Payout → Payout)
    (merchant_kept : (x : Payout) → (f x).merchant_id ≡ x.merchant_id)
    (tenant_kept : (x : Payout) → (f x).tenant_id ≡ x.tenant_id) where
  abbrev changed : Payout → Payout
  changed x = if q x then f x else x

  abbrev OpensNone : Payout → Type 0
  OpensNone x = q x ≡ true → holds_money (f x) ≡ true → holds_money x ≡ true

  changed-OpensNone :
      (x : Payout) → OpensNone x → holds_money (changed x) ≡ true → holds_money x ≡ true
  changed-OpensNone x n o = elim (Bool-cases (q x)) [ inl e ↦ n e (rw e at o) | inr e ↦ rw e at o ]

  changed_keeps :
      (x : Payout)
      → ((changed x).merchant_id ≡ x.merchant_id) × ((changed x).tenant_id ≡ x.tenant_id)
  changed_keeps x = elim (Bool-cases (q x)) [
    | inl e ↦ rw e (merchant_kept x, tenant_kept x)
    | inr e ↦ rw e (refl, refl)
  ]

  change-NoRival :
      (x : Payout) (xs : List Payout)
      → OpensNone x
      → All OpensNone xs
      → NoRival x xs
      → NoRival (changed x) (change q f xs)
  change-NoRival x [] n ns h o = tt
  change-NoRival x (y ∷ xs) n ns h o = (
    λ oy m t.
        (h (changed-OpensNone x n o)).0 (changed-OpensNone y ns.0 oy)
          (sym (changed_keeps y).0 ∙ m ∙ (changed_keeps x).0)
          (sym (changed_keeps y).1 ∙ t ∙ (changed_keeps x).1),
    change-NoRival x xs n ns.1 (λ o'. (h o').1) o,
  )

  pub change-OneOpen : (xs : List Payout) → All OpensNone xs → OneOpen xs → OneOpen (change q f xs)
  change-OneOpen [] ns h = tt
  change-OneOpen (x ∷ xs) ns h = (change-NoRival x xs ns.0 ns.1 h.0, change-OneOpen xs ns.1 h.1)
