-- ===== src/Prisma.antt =====
-- The Prisma client (a third-party package) as an interface: the calls that the services make,
-- and the documented behaviour on which they rely. Rows are kept in lists; the order of the
-- rows of a table carries no meaning, and which of several matching rows `findFirst` picks is open.
pub mod Rows
pub mod Memory
pub mod Rivals
pub mod Keys
pub mod Lookup
use mathlib.Core.List.{Memᴰ}
use trackora.Base.{
  ℕ, ◌≡◌, Bool, true, false, Option, none, some, List, [], ◌∷◌, All, count_if, filter, not, ◌++◌,
  Action, Outcome, ok, err, if◌then◌else◌,
}

-- The rows that match are changed, the others are kept.
abbrev pub change : {Row : Type 0} → (Row → Bool) → (Row → Row) → List Row → List Row
change q f [] = []
change q f (r ∷ t) = (if q r then f r else r) ∷ change q f t

-- What a transaction leaves behind: nothing, if its body has thrown.
abbrev pub settle : {S E A : Type 0} → S → Outcome S E A → Outcome S E A
settle s (ok a s') = ok a s'
settle s (err e s') = err e s

pub record Prisma : Type 1 where
  -- `findFirst` and `findUnique`
  pub find_first : {Row : Type 0} → (Row → Bool) → List Row → Option Row
  pub count : {Row : Type 0} → (Row → Bool) → List Row → ℕ
  pub update_many : {Row : Type 0} → (Row → Bool) → (Row → Row) → List Row → List Row
  -- `update` by a unique key: `none` is the error that no record was found
  pub update : {Row : Type 0} → (Row → Bool) → (Row → Row) → List Row → Option (Row × List Row)
  pub create : {Row : Type 0} → Row → List Row → List Row
  pub create_many : {Row : Type 0} → List Row → List Row → List Row
  -- `upsert`: the query, the row to create, the change of the row that is there
  pub upsert : {Row : Type 0} → (Row → Bool) → Row → (Row → Row) → List Row → List Row
  -- `delete` by a unique key: `none` is the error that no record was found
  pub delete : {Row : Type 0} → (Row → Bool) → List Row → Option (List Row)
  pub delete_many : {Row : Type 0} → (Row → Bool) → List Row → List Row
  -- `$transaction(async (tx) => …)`
  pub transaction : {S E A : Type 0} → Action S E A → Action S E A
  pub find_first-some :
      {Row : Type 0} (q : Row → Bool) (t : List Row) (r : Row)
      → find_first q t ≡ some r
      → Memᴰ r t × (q r ≡ true)
  pub find_first-none :
      {Row : Type 0} (q : Row → Bool) (t : List Row)
      → find_first q t ≡ none
      → All (λ r. q r ≡ false) t
  pub count-eq : {Row : Type 0} (q : Row → Bool) (t : List Row) → count q t ≡ count_if q t
  pub update_many-eq :
      {Row : Type 0} (q : Row → Bool) (f : Row → Row) (t : List Row)
      → update_many q f t ≡ change q f t
  pub update-some :
      {Row : Type 0} (q : Row → Bool) (f : Row → Row) (t : List Row) (r : Row)
      → find_first q t ≡ some r
      → update q f t ≡ some (f r, change q f t)
  pub update-none :
      {Row : Type 0} (q : Row → Bool) (f : Row → Row) (t : List Row)
      → find_first q t ≡ none
      → update q f t ≡ none
  pub create-eq : {Row : Type 0} (r : Row) (t : List Row) → create r t ≡ r ∷ t
  pub create_many-eq : {Row : Type 0} (rows t : List Row) → create_many rows t ≡ rows ++ t
  pub upsert-some :
      {Row : Type 0} (q : Row → Bool) (new : Row) (f : Row → Row) (t : List Row) (r : Row)
      → find_first q t ≡ some r
      → upsert q new f t ≡ change q f t
  pub upsert-none :
      {Row : Type 0} (q : Row → Bool) (new : Row) (f : Row → Row) (t : List Row)
      → find_first q t ≡ none
      → upsert q new f t ≡ new ∷ t
  pub delete-some :
      {Row : Type 0} (q : Row → Bool) (t : List Row) (r : Row)
      → find_first q t ≡ some r
      → delete q t ≡ some (filter (λ x. not (q x)) t)
  pub delete-none :
      {Row : Type 0} (q : Row → Bool) (t : List Row) → find_first q t ≡ none → delete q t ≡ none
  pub delete_many-eq :
      {Row : Type 0} (q : Row → Bool) (t : List Row) → delete_many q t ≡ filter (λ x. not (q x)) t
  pub transaction-eq :
      {S E A : Type 0} (m : Action S E A) (s : S) → transaction m s ≡ settle s (m s)
