-- ===== src/Shipments/Pages/Tests.antt =====
-- Pages of two rows over three shipments.
use mathlib.Core.List.{Memᴰ}
use trackora.Base.{
  ℕ, ◌≡◌, ◌≢◌, refl, Bool, true, ◌↔◌, none, some, List, [], ◌∷◌, All, filter, take, Bool-cases, inl,
  inr, arith, ap, sym, ◌∙◌,
}
use trackora.Base.Int.{pos}
use trackora.Prisma.Memory.{memory}
use trackora.Prisma.Rows.{IsUnique}
use trackora.Model.{Shipment}
use trackora.Model.Enums.{ShipmentStatus, ShipmentType}
use trackora.Shipments.Pages.{shipment_id, behind, where_of, FindMany, all_pages}
use trackora.Shipments.Pages.Cover.{all_pages-ordered}

filter-Mem :
    (q : Shipment → Bool) (t : List Shipment) (x : Shipment)
    → Memᴰ x (filter q t)
    → Memᴰ x t × (q x ≡ true)
filter-Mem q [] x m = elim m [ ]
filter-Mem q (y ∷ t) x m = elim (Bool-cases (q y)) [
  | inl e ↦ first e (λ n. filter-Mem q t x n) (rw e at m)
  | inr e ↦ let (n, c) = filter-Mem q t x (rw e at m) in (Memᴰ.tail n, c)
]
  where
    first :
        q y ≡ true
        → (Memᴰ x (filter q t) → Memᴰ x t × (q x ≡ true))
        → Memᴰ x (y ∷ filter q t)
        → Memᴰ x (y ∷ t) × (q x ≡ true)
    first e ih (Memᴰ.head h) = (Memᴰ.head h, ap q h ∙ e)
    first e ih (Memᴰ.tail n) = let (l, c) = ih n in (Memᴰ.tail l, c)

Mem-filter :
    (q : Shipment → Bool) (t : List Shipment) (x : Shipment)
    → Memᴰ x t
    → q x ≡ true
    → Memᴰ x (filter q t)
Mem-filter q [] x m c = elim m [ ]
Mem-filter q (y ∷ t) x (Memᴰ.head e) c = rw (sym e, c) (Memᴰ.head refl)
Mem-filter q (y ∷ t) x (Memᴰ.tail m) c = elim (Bool-cases (q y)) [
  | inl e ↦ rw e (Memᴰ.tail (Mem-filter q t x m c))
  | inr e ↦ rw e (Mem-filter q t x m c)
]

filter-All :
    (P : Shipment → Type 0) (q : Shipment → Bool) (t : List Shipment) → All P t → All P (filter q t)
filter-All P q [] a = tt
filter-All P q (y ∷ t) a = elim (Bool-cases (q y)) [
  | inl e ↦ rw e (a.0, filter-All P q t a.1)
  | inr e ↦ rw e (filter-All P q t a.1)
]

filter-IsUnique :
    (q : Shipment → Bool) (t : List Shipment)
    → IsUnique shipment_id t
    → IsUnique shipment_id (filter q t)
filter-IsUnique q [] u = tt
filter-IsUnique q (y ∷ t) u = elim (Bool-cases (q y)) [
  | inl e ↦ rw e (filter-All (λ z. z.id ≢ y.id) q t u.0, filter-IsUnique q t u.1)
  | inr e ↦ rw e (filter-IsUnique q t u.1)
]

abbrev in_order : FindMany
in_order = record {
  ordered = λ q t. filter q t;
  find_many = λ q cursor n t. elim cursor [
    | none ↦ take n (filter q t)
    | some id ↦ take n (behind id (filter q t))
  ];
  ordered-Mem = λ q t x m. filter-Mem q t x m;
  Mem-ordered = λ q t x m c. Mem-filter q t x m c;
  ordered-IsUnique = λ q t u. filter-IsUnique q t u;
  find_many-none = λ q n t h. refl;
  find_many-some = λ q id n t h. refl;
}

abbrev numbered : ℕ → Shipment
numbered id = record {
  id = id;
  tenant_id = some 5;
  tracking_number = id;
  merchant_id = 1;
  status = ShipmentStatus.pending;
  type = ShipmentType.prepaid;
  cod_amount = pos 0;
  delivery_attempts = 0;
  assigned_courier_id = none;
  collected_cash = none;
  customer_otp = none;
  delivered_at = none;
  returned_at = none;
  cancelled_at = none;
  risk_score = 0;
  created_at = id;
}

abbrev three : List Shipment
three = numbered 1 ∷ numbered 2 ∷ numbered 3 ∷ []

three-IsUnique : IsUnique shipment_id three
three-IsUnique =
    (((λ e. ground arith), ((λ e. ground arith), tt)), (((λ e. ground arith), tt), (tt, tt)))

all_pages-ordered_example :
    (all_pages memory in_order 4 5 (λ s. true) none 2 three ≡ some three)
    × ((x : Shipment) → Memᴰ x three ↔ (Memᴰ x three × (where_of 5 (λ s. true) x ≡ true)))
    × IsUnique shipment_id three
all_pages-ordered_example =
    all_pages-ordered memory in_order 5 (λ s. true) 1 three three-IsUnique three-IsUnique
