-- ===== src/Prisma/Memory.antt =====
-- An implementation of the interface over lists, which shows that the laws can hold, and on which
-- the services run in tests.
use mathlib.Core.List.{Memᴰ}
use trackora.Base.{
  ◌≡◌, refl, Bool, true, false, Option, none, some, List, [], ◌∷◌, All, count_if, arith,
  if◌then◌else◌, Bool-cases, inl, inr, filter, not, ◌++◌,
}
use trackora.Prisma.{change, settle, Prisma}

module _ {Row : Type 0} where
  abbrev pub first : (Row → Bool) → List Row → Option Row
  first q [] = none
  first q (r ∷ t) = let rest = first q t in if q r then some r else rest

  abbrev pub replace : (Row → Bool) → (Row → Row) → List Row → Option (Row × List Row)
  replace q f t = elim (first q t) [ none ↦ none | some r ↦ some (f r, change q f t) ]

  abbrev pub put : (Row → Bool) → Row → (Row → Row) → List Row → List Row
  put q new f t = elim (first q t) [ none ↦ new ∷ t | some r ↦ change q f t ]

  abbrev pub strike : (Row → Bool) → List Row → Option (List Row)
  strike q t = elim (first q t) [ none ↦ none | some r ↦ some (filter (λ x. not (q x)) t) ]

  pub first-some :
      (q : Row → Bool) (t : List Row) (r : Row) → first q t ≡ some r → Memᴰ r t × (q r ≡ true)
  first-some q [] r h = cc
  first-some q (x ∷ t) r h = elim (Bool-cases (q x)) [
    | inl e ↦ (Memᴰ.head (ground arith), ground arith)
    | inr e ↦ let (m, c) = first-some q t r (ground arith) in (Memᴰ.tail m, c)
  ]

  pub first-none : (q : Row → Bool) (t : List Row) → first q t ≡ none → All (λ r. q r ≡ false) t
  first-none q [] h = tt
  first-none q (x ∷ t) h = (ground arith, first-none q t (ground arith))

  pub replace-some :
      (q : Row → Bool) (f : Row → Row) (t : List Row) (r : Row)
      → first q t ≡ some r
      → replace q f t ≡ some (f r, change q f t)
  replace-some q f t r h = rw (h, replace)

  pub replace-none :
      (q : Row → Bool) (f : Row → Row) (t : List Row) → first q t ≡ none → replace q f t ≡ none
  replace-none q f t h = rw (h, replace)

abbrev pub memory : Prisma
memory = record {
  find_first = λ q t. first q t;
  count = λ q t. count_if q t;
  update_many = λ q f t. change q f t;
  update = λ q f t. replace q f t;
  create = λ r t. r ∷ t;
  create_many = λ rows t. rows ++ t;
  upsert = λ q new f t. put q new f t;
  delete = λ q t. strike q t;
  delete_many = λ q t. filter (λ x. not (q x)) t;
  transaction = λ m s. settle s (m s);
  find_first-some = λ q t r h. first-some q t r h;
  find_first-none = λ q t h. first-none q t h;
  count-eq = λ q t. refl;
  update_many-eq = λ q f t. refl;
  update-some = λ q f t r h. replace-some q f t r h;
  update-none = λ q f t h. replace-none q f t h;
  create-eq = λ r t. refl;
  create_many-eq = λ rows t. refl;
  upsert-some = λ q new f t r h. rw (h, put);
  upsert-none = λ q new f t h. rw (h, put);
  delete-some = λ q t r h. rw (h, strike);
  delete-none = λ q t h. rw (h, strike);
  delete_many-eq = λ q t. refl;
  transaction-eq = λ m s. refl;
}
