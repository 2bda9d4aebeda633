-- ===== src/Prisma/Lookup.antt =====
-- What a query finds in a table that has been changed elsewhere.
use mathlib.Core.List.{Memᴰ}
use trackora.Base.{
  All, ◌≡◌, refl, sym, ap, ◌∙◌, Bool, true, false, List, [], ◌∷◌, filter, not, Option-cases,
  Bool-cases, inl, inr,
}
use trackora.Prisma.{Prisma, change}
use trackora.Prisma.Rows.{All-mem, find_first-only}

module _ {Row : Type 0} (q : Row → Bool) where
  -- At most one row matches.
  abbrev pub Single : List Row → Type 0
  Single t = (x y : Row) → Memᴰ x t → Memᴰ y t → q x ≡ true → q y ≡ true → x ≡ y

  -- The tables have the same matching rows.
  abbrev pub Agree : List Row → List Row → Type 0
  Agree t t' = (x : Row) → q x ≡ true → (Memᴰ x t → Memᴰ x t') × (Memᴰ x t' → Memᴰ x t)

  pub find_first-Agree :
      (p : Prisma) (t t' : List Row) → Single t → Agree t t' → p.find_first q t' ≡ p.find_first q t
  find_first-Agree p t t' single agree = elim (Option-cases (p.find_first q t)) [
    | inl e ↦ elim (Option-cases (p.find_first q t')) [
      | inl d ↦ d ∙ sym e
      | inr (x, d) ↦
          let (m, c) = p.find_first-some q t' x d in
          absurd (cc (All-mem (λ x. q x ≡ false) t (p.find_first-none q t e) ((agree x c).1 m), c))
    ]
    | inr (r, e) ↦
        let (m, c) = p.find_first-some q t r e in
        find_first-only p q r t' ((agree r c).0 m) c (λ x n d. single x r ((agree x d).1 n) m d c)
        ∙ sym e
  ]

  module _ (g : Row → Bool) (apart : (x : Row) → q x ≡ true → g x ≡ false) where
    pub change-Agree :
        (f : Row → Row) (t : List Row)
        → ((x : Row) → g x ≡ true → q (f x) ≡ false)
        → Agree t (change g f t)
    change-Agree f t out x c = (stays t, back t)
      where
        stays : (t : List Row) → Memᴰ x t → Memᴰ x (change g f t)
        stays [] m = elim m [ ]
        stays (y ∷ t) (Memᴰ.head e) = Memᴰ.head (rw (sym e, apart x c) refl)
        stays (y ∷ t) (Memᴰ.tail m) = Memᴰ.tail (stays t m)

        back : (t : List Row) → Memᴰ x (change g f t) → Memᴰ x t
        back [] m = elim m [ ]
        back (y ∷ t) (Memᴰ.head e) = elim (Bool-cases (g y)) [
          | inl d ↦ let same : x ≡ f y = rw d at e in absurd (cc (c, out y d, same))
          | inr d ↦ Memᴰ.head (rw d at e)
        ]
        back (y ∷ t) (Memᴰ.tail m) = Memᴰ.tail (back t m)

    pub filter-Agree : (t : List Row) → Agree t (filter (λ x. not (g x)) t)
    filter-Agree t x c = (stays t, back t)
      where
        stays : (t : List Row) → Memᴰ x t → Memᴰ x (filter (λ x. not (g x)) t)
        stays [] m = elim m [ ]
        stays (y ∷ t) (Memᴰ.head e) = rw (sym e, apart x c) (Memᴰ.head refl)
        stays (y ∷ t) (Memᴰ.tail m) = elim (Bool-cases (g y)) [
          | inl d ↦ rw d (stays t m)
          | inr d ↦ rw d (Memᴰ.tail (stays t m))
        ]

        back : (t : List Row) → Memᴰ x (filter (λ x. not (g x)) t) → Memᴰ x t
        back [] m = elim m [ ]
        back (y ∷ t) m = elim (Bool-cases (g y)) [
          | inl d ↦ Memᴰ.tail (back t (rw d at m))
          | inr d ↦ elim (rw d at m) [
            | Memᴰ.head e ↦ Memᴰ.head e
            | Memᴰ.tail n ↦ Memᴰ.tail (back t n)
          ]
        ]

  pub cons-Agree : (new : Row) (t : List Row) → q new ≡ false → Agree t (new ∷ t)
  cons-Agree new t off x c = (
    λ m. Memᴰ.tail m,
    λ m. elim m [ Memᴰ.head e ↦ absurd (cc (ap q e, c, off)) | Memᴰ.tail n ↦ n ],
  )

-- What a deletion and a change leave.
pub filter-none :
    {Row : Type 0} (q : Row → Bool) (t : List Row)
    → All (λ x. q x ≡ false) (filter (λ x. not (q x)) t)
filter-none q [] = tt
filter-none q (x ∷ t) = elim (Bool-cases (q x)) [
  | inl e ↦ rw e (filter-none q t)
  | inr e ↦ rw e (e, filter-none q t)
]

pub change-Mem :
    {Row : Type 0} (q : Row → Bool) (f : Row → Row) (r : Row) (t : List Row)
    → Memᴰ r t
    → q r ≡ true
    → Memᴰ (f r) (change q f t)
change-Mem q f r [] m c = elim m [ ]
change-Mem q f r (x ∷ t) (Memᴰ.head e) c = Memᴰ.head (rw (sym e, c) refl)
change-Mem q f r (x ∷ t) (Memᴰ.tail m) c = Memᴰ.tail (change-Mem q f r t m c)

pub change_id : {Row : Type 0} (q : Row → Bool) (t : List Row) → change q (λ x. x) t ≡ t
change_id q [] = refl
change_id q (x ∷ t) = elim (Bool-cases (q x)) [
  | inl e ↦ rw (e, change_id q t) refl
  | inr e ↦ rw (e, change_id q t) refl
]
