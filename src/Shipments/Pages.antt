-- ===== src/Shipments/Pages.antt =====
-- `findAllCursor` of modules/shipments/services/shipments.service.ts with `findWithCursor` of the
-- repository: pages of shipments, each from the last id of the page before.
pub mod Cover
pub mod Tests
use mathlib.Core.List.{Memᴰ}
use trackora.Base.{
  ℕ, zero, suc, ◌+◌, ◌-◌, ◌≤◌, ◌<◌, ◌≡◌, ◌≢◌, refl, sym, ap, ◌∙◌, Bool, true, false, Option, none,
  some, List, [], ◌∷◌, ◌++◌, All, length, length-append, take, Option-cases, Bool-cases, inl, inr,
  ◌⊎◌, ◌==◌, ==_iff, ◌&&◌, is_just, ltb, arith, if◌then◌else◌,
}
use trackora.Prisma.{Prisma}
use trackora.Prisma.Rows.{IsUnique, All-mem}
use trackora.Model.{Shipment}

abbrev pub shipment_id : Shipment → ℕ
shipment_id s = s.id

-- The rows behind the row with an id.
abbrev pub behind : ℕ → List Shipment → List Shipment
behind id [] = []
behind id (x ∷ xs) = let rest = behind id xs in if x.id == id then xs else rest

abbrev pub creation_time : Shipment → ℕ
creation_time s = s.created_at

-- `findMany` with `orderBy: { createdAt: 'desc' }`, a cursor and a number of rows to take. Where no
-- two rows were created at one time, the rows that match stand in one order, and a query from a
-- cursor with `skip: 1` gives the rows behind it. Among rows of one time the order is open.
pub record FindMany : Type 1 where
  pub ordered : (Shipment → Bool) → List Shipment → List Shipment
  pub find_many : (Shipment → Bool) → Option ℕ → ℕ → List Shipment → List Shipment
  pub ordered-Mem :
      (q : Shipment → Bool) (t : List Shipment) (x : Shipment)
      → Memᴰ x (ordered q t)
      → Memᴰ x t × (q x ≡ true)
  pub Mem-ordered :
      (q : Shipment → Bool) (t : List Shipment) (x : Shipment)
      → Memᴰ x t
      → q x ≡ true
      → Memᴰ x (ordered q t)
  pub ordered-IsUnique :
      (q : Shipment → Bool) (t : List Shipment)
      → IsUnique shipment_id t
      → IsUnique shipment_id (ordered q t)
  pub find_many-none :
      (q : Shipment → Bool) (n : ℕ) (t : List Shipment)
      → IsUnique creation_time t
      → find_many q none n t ≡ take n (ordered q t)
  pub find_many-some :
      (q : Shipment → Bool) (id n : ℕ) (t : List Shipment)
      → IsUnique creation_time t
      → find_many q (some id) n t ≡ take n (behind id (ordered q t))

pub record Page : Type 0 where
  pub data_of : List Shipment
  pub next_cursor : Option ℕ
  pub limit : ℕ

abbrev pub last_id : List Shipment → Option ℕ
last_id [] = none
last_id (x ∷ []) = some x.id
last_id (x ∷ y ∷ t) = last_id (y ∷ t)

-- `where` is the query that `buildWhere` makes: the tenant, and the filters.
abbrev pub where_of : ℕ → (Shipment → Bool) → Shipment → Bool
where_of tenant filters s = is_just tenant s.tenant_id && filters s

abbrev pub page_of : ℕ → List Shipment → Page
page_of limit rows =
    if ltb limit (length rows)
    then (record {
      data_of = take limit rows;
      next_cursor = last_id (take limit rows);
      limit = limit;
    })
    else (record { data_of = rows; next_cursor = none; limit = limit })

-- A page and, if it names a next one, the pages from there on.
abbrev pub then_pages : Page → (ℕ → Option (List Shipment)) → Option (List Shipment)
then_pages page pages_from = elim page.next_cursor [
  | none ↦ some page.data_of
  | some next ↦ elim (pages_from next) [ none ↦ none | some rest ↦ some (page.data_of ++ rest) ]
]

module _ (p : Prisma) (many : FindMany) where
  unfoldable pub find_with_cursor :
      ℕ → (Shipment → Bool) → Option ℕ → ℕ → List Shipment → List Shipment
  find_with_cursor tenant filters none n t = many.find_many (where_of tenant filters) none n t
  find_with_cursor tenant filters (some id) n t =
      elim (p.find_first (λ s. (s.id == id) && is_just tenant s.tenant_id) t) [
        | none ↦ []
        | some s ↦ many.find_many (where_of tenant filters) (some id) n t
      ]

  unfoldable pub find_all_cursor : ℕ → (Shipment → Bool) → Option ℕ → ℕ → List Shipment → Page
  find_all_cursor tenant filters cursor limit t =
      page_of limit (find_with_cursor tenant filters cursor (limit + 1) t)

  -- A client that asks for pages until there is no next one, on fuel.
  unfoldable pub all_pages :
      ℕ → ℕ → (Shipment → Bool) → Option ℕ → ℕ → List Shipment → Option (List Shipment)
  all_pages zero tenant filters cursor limit t = none
  all_pages (suc fuel) tenant filters cursor limit t =
      then_pages (find_all_cursor tenant filters cursor limit t)
        (λ next. all_pages fuel tenant filters (some next) limit t)
