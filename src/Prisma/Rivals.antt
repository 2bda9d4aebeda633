-- ===== src/Prisma/Rivals.antt =====
-- Tables in which at most one row of each key is live.
use mathlib.Core.List.{Memᴰ}
use trackora.Base.{
  ℕ, ◌≡◌, ◌≢◌, refl, sym, ap, ◌∙◌, Bool, true, List, [], ◌∷◌, All, Bool-cases, inl, inr,
  if◌then◌else◌,
}
use trackora.Prisma.{change}
use trackora.Prisma.Rows.{All-mem}

module _ {Row : Type 0} (q : Row → Bool) (f : Row → Row) where
  -- A predicate holds after a change if it holds of each row, changed where it matches.
  pub All-change :
      (P : Row → Type 0) (t : List Row)
      → ((r : Row) → Memᴰ r t → P (if q r then f r else r))
      → All P (change q f t)
  All-change P [] h = tt
  All-change P (r ∷ t) h = (h r (Memᴰ.head refl), All-change P t (λ x m. h x (Memᴰ.tail m)))

module _ {Row : Type 0} (live : Row → Bool) (key : Row → ℕ) where
  abbrev pub NoRival : Row → List Row → Type 0
  NoRival x t = live x ≡ true → All (λ y. live y ≡ true → key y ≢ key x) t

  abbrev pub AtMostOne : List Row → Type 0
  AtMostOne [] = Unit
  AtMostOne (x ∷ t) = NoRival x t × AtMostOne t

  -- Two live rows of one key are one row.
  pub live_eq :
      (x y : Row) (t : List Row)
      → AtMostOne t
      → Memᴰ x t
      → Memᴰ y t
      → live x ≡ true
      → live y ≡ true
      → key y ≡ key x
      → y ≡ x
  live_eq x y [] u m n lx ly e = elim m [ ]
  live_eq x y (z ∷ t) u (Memᴰ.head a) (Memᴰ.head b) lx ly e = b ∙ sym a
  live_eq x y (z ∷ t) u (Memᴰ.head a) (Memᴰ.tail n) lx ly e = absurd (
      All-mem (λ r. live r ≡ true → key r ≢ key z) t (u.0 (ap live (sym a) ∙ lx)) n ly
        (e ∙ ap key a))
  live_eq x y (z ∷ t) u (Memᴰ.tail m) (Memᴰ.head b) lx ly e = absurd (
      All-mem (λ r. live r ≡ true → key r ≢ key z) t (u.0 (ap live (sym b) ∙ ly)) m lx
        (sym e ∙ ap key b))
  live_eq x y (z ∷ t) u (Memᴰ.tail m) (Memᴰ.tail n) lx ly e = live_eq x y t u.1 m n lx ly e

  -- A change that brings no row to life keeps the rule.
  module _ (q : Row → Bool) (f : Row → Row) (key_kept : (x : Row) → key (f x) ≡ key x)
      (revives_none : (x : Row) → live (f x) ≡ true → live x ≡ true) where
    abbrev changed : Row → Row
    changed x = if q x then f x else x

    changed_lem : (x : Row) → (live (changed x) ≡ true → live x ≡ true) × (key (changed x) ≡ key x)
    changed_lem x = elim (Bool-cases (q x)) [
      | inl e ↦ rw e (revives_none x, key_kept x)
      | inr e ↦ rw e (λ o. o, refl)
    ]

    change-NoRival : (x : Row) (t : List Row) → NoRival x t → NoRival (changed x) (change q f t)
    change-NoRival x [] h o = tt
    change-NoRival x (y ∷ t) h o = (
      λ oy k.
          (h ((changed_lem x).0 o)).0 ((changed_lem y).0 oy)
            (sym (changed_lem y).1 ∙ k ∙ (changed_lem x).1),
      change-NoRival x t (λ o'. (h o').1) o,
    )

    pub change-AtMostOne : (t : List Row) → AtMostOne t → AtMostOne (change q f t)
    change-AtMostOne [] h = tt
    change-AtMostOne (x ∷ t) h = (change-NoRival x t h.0, change-AtMostOne t h.1)
