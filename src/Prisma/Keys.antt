-- ===== src/Prisma/Keys.antt =====
-- Unique columns of a table: what a change of one row and a deletion do to them.
use mathlib.Core.List.{Memᴰ}
use trackora.Base.{
  ℕ, ◌≡◌, ◌≢◌, refl, sym, Bool, true, false, List, [], ◌∷◌, All, any, filter, not, count_if,
  Bool-cases, inl, inr, if◌then◌else◌, ◌==◌, ==_iff, arith,
}
use trackora.Prisma.{change}
use trackora.Prisma.Rows.{All-mem, IsUnique}
use trackora.Prisma.Rivals.{All-change}

module _ {Row : Type 0} where
  pub count_if-zero : (q : Row → Bool) (t : List Row) → count_if q t ≡ 0 → All (λ x. q x ≡ false) t
  count_if-zero q [] h = tt
  count_if-zero q (x ∷ t) h = elim (Bool-cases (q x)) [
    | inl e ↦ absurd (ground (arith, e, h))
    | inr e ↦ (e, count_if-zero q t (rw e at h))
  ]

  pub filter-All : (P : Row → Type 0) (q : Row → Bool) (t : List Row) → All P t → All P (filter q t)
  filter-All P q [] a = tt
  filter-All P q (x ∷ t) a = elim (Bool-cases (q x)) [
    | inl e ↦ rw e (a.0, filter-All P q t a.1)
    | inr e ↦ rw e (filter-All P q t a.1)
  ]

  pub filter-IsUnique :
      (key : Row → ℕ) (q : Row → Bool) (t : List Row) → IsUnique key t → IsUnique key (filter q t)
  filter-IsUnique key q [] u = tt
  filter-IsUnique key q (x ∷ t) u = elim (Bool-cases (q x)) [
    | inl e ↦ rw e (filter-All (λ y. key y ≢ key x) q t u.0, filter-IsUnique key q t u.1)
    | inr e ↦ rw e (filter-IsUnique key q t u.1)
  ]

module _ {Row : Type 0} (key : Row → ℕ) where
  -- Some row has the key.
  abbrev pub Has : ℕ → List Row → Type 0
  Has k t = any (λ x. key x == k) t ≡ true

  pub Has-cons : (k : ℕ) (r : Row) (t : List Row) → Has k t → Has k (r ∷ t)
  Has-cons k r t h = elim (Bool-cases (key r == k)) [ inl e ↦ rw e refl | inr e ↦ rw e h ]

  pub Has-change :
      (k : ℕ) (q : Row → Bool) (f : Row → Row) (t : List Row)
      → ((x : Row) → key (f x) ≡ key x)
      → Has k t
      → Has k (change q f t)
  Has-change k q f [] kept h = h
  Has-change k q f (x ∷ t) kept h =
      let same : key (if q x then f x else x) ≡ key x = elim (Bool-cases (q x)) [
        | inl e ↦ rw e (kept x)
        | inr e ↦ rw e refl
      ] in
      elim (Bool-cases (key x == k)) [
        | inl e ↦ rw (same, e) refl
        | inr e ↦ rw (same, e) (Has-change k q f t kept (rw e at h))
      ]

  -- A row whose key differs from that of the deleted ones stays.
  pub Has-filter :
      (k id : ℕ) (t : List Row) → k ≢ id → Has k t → Has k (filter (λ x. not (key x == id)) t)
  Has-filter k id [] ne h = h
  Has-filter k id (x ∷ t) ne h = elim (Bool-cases (key x == id)) [
    | inl e ↦ rw e (Has-filter k id t ne (ground (arith, e, ne, h)))
    | inr e ↦ rw e (elim (Bool-cases (key x == k)) [
      | inl d ↦ rw d refl
      | inr d ↦ rw d (Has-filter k id t ne (rw d at h))
    ])
  ]

  -- A change of the one row of an id keeps another column unique, if it gives the row no value that
  -- another row has.
  pub change-IsUnique_one :
      (column : Row → ℕ) (id : ℕ) (f : Row → Row) (t : List Row)
      → IsUnique key t
      → IsUnique column t
      → ((x y : Row) → Memᴰ x t → Memᴰ y t → key x ≢ id → key y ≡ id → column (f y) ≢ column x)
      → IsUnique column (change (λ x. key x == id) f t)
  change-IsUnique_one column id f [] u v h = tt
  change-IsUnique_one column id f (r ∷ t) u v h = (
    All-change (λ x. key x == id) f (λ z. column z ≢ column (if key r == id then f r else r)) t
        (λ y m. apart y m),
    change-IsUnique_one column id f t u.1 v.1 (λ x y m n. h x y (Memᴰ.tail m) (Memᴰ.tail n)),
  )
    where
      other : (y : Row) → Memᴰ y t → key y ≢ key r
      other y m = All-mem (λ z. key z ≢ key r) t u.0 m

      apart :
          (y : Row)
          → Memᴰ y t
          → column (if key y == id then f y else y) ≢ column (if key r == id then f r else r)
      apart y m = elim (Bool-cases (key r == id)) [
        | inl d ↦ elim (Bool-cases (key y == id)) [
          | inl e ↦ absurd (other y m (cc ((==_iff (key r) id).0 d, (==_iff (key y) id).0 e)))
          | inr e ↦
              rw (d, e)
                (λ same.
                  h y r (Memᴰ.tail m) (Memᴰ.head refl) (λ k. cc ((==_iff (key y) id).1 k, e))
                    ((==_iff (key r) id).0 d) (sym same))
        ]
        | inr d ↦ elim (Bool-cases (key y == id)) [
          | inl e ↦
              rw (d, e)
                (h r y (Memᴰ.head refl) (Memᴰ.tail m) (λ k. cc ((==_iff (key r) id).1 k, d))
                  ((==_iff (key y) id).0 e))
          | inr e ↦ rw (d, e) (All-mem (λ z. column z ≢ column r) t v.0 m)
        ]
      ]
