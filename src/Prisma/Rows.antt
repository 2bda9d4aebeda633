-- ===== src/Prisma/Rows.antt =====
-- What the queries and writes of the client do to predicates and sums over a table.
use mathlib.Core.List.{Memᴰ}
use mathlib.Core.Path.{subst, sym}
use trackora.Base.{
  ℕ, ◌≡◌, ◌≢◌, refl, Bool, true, false, some, List, [], ◌∷◌, All, arith, if◌then◌else◌, ◌==◌,
  ==_iff, Bool-cases, inl, inr, ap, ◌∙◌, Option-cases, All-mono, Option, none, Outcome, ok, err,
  Action, Ensures, is_some, not,
}
use trackora.Base.Int.{ℤ, ◌+ℤ◌, ◌-ℤ◌, sum_by, int_laws}
use trackora.Prisma.{change, settle, Prisma}

pub All-mem : {Row : Type 0} (P : Row → Type 0) {r : Row} (t : List Row) → All P t → Memᴰ r t → P r
All-mem P [] a m = elim m [ ]
All-mem P (x ∷ t) a (Memᴰ.head e) = subst P (sym e) a.0
All-mem P (x ∷ t) a (Memᴰ.tail m) = All-mem P t a.1 m

pub All-of_mem :
    {Row : Type 0} (P : Row → Type 0) (t : List Row) → ((r : Row) → Memᴰ r t → P r) → All P t
All-of_mem P [] h = tt
All-of_mem P (x ∷ t) h = (h x (Memᴰ.head refl), All-of_mem P t (λ r m. h r (Memᴰ.tail m)))

-- No two rows have the same id.
abbrev pub IsUnique : {Row : Type 0} → (Row → ℕ) → List Row → Type 0
IsUnique key [] = Unit
IsUnique key (r ∷ t) = All (λ x. key x ≢ key r) t × IsUnique key t

module _ {Row : Type 0} where
  -- A predicate of all rows holds of the row that a query finds, and the row matches the query.
  pub find_first-All :
      (p : Prisma) (P : Row → Type 0) (q : Row → Bool) (t : List Row) (r : Row)
      → All P t
      → p.find_first q t ≡ some r
      → P r × (q r ≡ true)
  find_first-All p P q t r a h = let (m, c) = p.find_first-some q t r h in (All-mem P t a m, c)

  -- A change of the matching rows keeps what it keeps of each of them.
  pub change-All :
      (P : Row → Type 0) (q : Row → Bool) (f : Row → Row) (t : List Row)
      → ((r : Row) → Memᴰ r t → q r ≡ true → P r → P (f r))
      → All P t
      → All P (change q f t)
  change-All P q f [] h a = tt
  change-All P q f (r ∷ t) h a = (
    elim (Bool-cases (q r)) [ inl e ↦ rw e (h r (Memᴰ.head refl) e a.0) | inr e ↦ rw e a.0 ],
    change-All P q f t (λ x m. h x (Memᴰ.tail m)) a.1,
  )

  key_kept :
      (key : Row → ℕ) (q : Row → Bool) (f : Row → Row) (r : Row)
      → ((r : Row) → key (f r) ≡ key r)
      → key (if q r then f r else r) ≡ key r
  key_kept key q f r h = ground (arith, h r)

  change-ne :
      (key : Row → ℕ) (q : Row → Bool) (f : Row → Row) (j k : ℕ) (t : List Row)
      → ((r : Row) → key (f r) ≡ key r)
      → j ≡ k
      → All (λ x. key x ≢ k) t
      → All (λ x. key x ≢ j) (change q f t)
  change-ne key q f j k [] h e a = tt
  change-ne key q f j k (r ∷ t) h e a =
      (ground (arith, key_kept key q f r h, e, a.0), change-ne key q f j k t h e a.1)

  pub change-IsUnique :
      (key : Row → ℕ) (q : Row → Bool) (f : Row → Row) (t : List Row)
      → ((r : Row) → key (f r) ≡ key r)
      → IsUnique key t
      → IsUnique key (change q f t)
  change-IsUnique key q f [] h u = tt
  change-IsUnique key q f (r ∷ t) h u = (
    change-ne key q f (key (if q r then f r else r)) (key r) t h (key_kept key q f r h) u.0,
    change-IsUnique key q f t h u.1,
  )

  change_none :
      (q : Row → Bool) (f : Row → Row) (g : Row → ℤ) (t : List Row)
      → All (λ x. q x ≡ false) t
      → sum_by g (change q f t) ≡ sum_by g t
  change_none q f g [] a = refl
  change_none q f g (x ∷ t) a = ground (arith, change_none q f g t a.1)

  -- Where ids are unique, a change that meets one row moves a sum by what it does to that row.
  pub sum_by-change :
      (key : Row → ℕ) (q : Row → Bool) (f : Row → Row) (g : Row → ℤ) (r : Row) (t : List Row)
      → q r ≡ true
      → ((x : Row) → q x ≡ true → key x ≡ key r)
      → IsUnique key t
      → Memᴰ r t
      → sum_by g (change q f t) ≡ sum_by g t +ℤ (g (f r) -ℤ g r)
  sum_by-change key q f g r [] c k u m = elim m [ ]
  sum_by-change key q f g r (x ∷ t) c k u (Memᴰ.head e) =
      let others : All (λ y. q y ≡ false) t =
        All-mono (λ y. key y ≢ key x) (λ y. q y ≡ false) t
          (λ y ne. elim (Bool-cases (q y)) [ inl h ↦ absurd (ne (k y h ∙ ap key e)) | inr h ↦ h ])
          u.0 in
      rw (rw e at c, change_none q f g t others) (rw e (omega int_laws))
  sum_by-change key q f g r (x ∷ t) c k u (Memᴰ.tail m) = elim (Bool-cases (q x)) [
    | inl same ↦ absurd (All-mem (λ y. key y ≢ key x) t u.0 m (sym (k x same)))
    | inr other ↦ rw (other, sum_by-change key q f g r t c k u.1 m) (omega int_laws)
  ]

  -- Where ids are unique, a query by the id of a row of the table finds that row.
  pub mem_eq :
      (key : Row → ℕ) (r x : Row) (t : List Row)
      → IsUnique key t
      → Memᴰ r t
      → Memᴰ x t
      → key x ≡ key r
      → x ≡ r
  mem_eq key r x [] u m n e = elim m [ ]
  mem_eq key r x (y ∷ t) u (Memᴰ.head a) (Memᴰ.head b) e = b ∙ sym a
  mem_eq key r x (y ∷ t) u (Memᴰ.head a) (Memᴰ.tail n) e =
      absurd (All-mem (λ z. key z ≢ key y) t u.0 n (e ∙ ap key a))
  mem_eq key r x (y ∷ t) u (Memᴰ.tail m) (Memᴰ.head b) e =
      absurd (All-mem (λ z. key z ≢ key y) t u.0 m (sym e ∙ ap key b))
  mem_eq key r x (y ∷ t) u (Memᴰ.tail m) (Memᴰ.tail n) e = mem_eq key r x t u.1 m n e

  -- The only row that matches is the one that is found.
  pub find_first-only :
      (p : Prisma) (q : Row → Bool) (r : Row) (t : List Row)
      → Memᴰ r t
      → q r ≡ true
      → ((x : Row) → Memᴰ x t → q x ≡ true → x ≡ r)
      → p.find_first q t ≡ some r
  find_first-only p q r t m c only = elim (Option-cases (p.find_first q t)) [
    | inl e ↦ absurd (cc (All-mem (λ x. q x ≡ false) t (p.find_first-none q t e) m, c))
    | inr (x, e) ↦ let (n, d) = p.find_first-some q t x e in e ∙ ap some (only x n d)
  ]

  pub find_first_unique :
      (p : Prisma) (key : Row → ℕ) (r : Row) (t : List Row)
      → IsUnique key t
      → Memᴰ r t
      → p.find_first (λ x. key x == key r) t ≡ some r
  find_first_unique p key r t u m =
      find_first-only p (λ x. key x == key r) r t m ((==_iff (key r) (key r)).1 refl)
        λ x n c. mem_eq key r x t u m n ((==_iff (key x) (key r)).0 c)

-- A failed call leaves the state as it was.
abbrev pub Unchanged : {S E : Type 0} → S → E → S → Type 0
Unchanged s e s' = s' ≡ s

settle-Ensures :
    {S E A : Type 0} (Q : A → S → Type 0) (s : S) (o : Outcome S E A)
    → Ensures Q (λ _ _. Unit {0}) o
    → Ensures Q (Unchanged s) (settle s o)
settle-Ensures Q s (ok a s') h = h
settle-Ensures Q s (err e s') h = refl

-- What the body of a transaction ensures when it returns, the transaction ensures; and one that
-- throws has changed nothing.
pub transaction-Ensures :
    {S E A : Type 0} (p : Prisma) (Q : A → S → Type 0) (m : Action S E A) (s : S)
    → Ensures Q (λ _ _. Unit {0}) (m s)
    → Ensures Q (Unchanged s) (p.transaction m s)
transaction-Ensures p Q m s h = rw (p.transaction-eq m s) (settle-Ensures Q s (m s) h)

pub is_some-false {ℓ} : {A : Type ℓ} (a : Option A) → is_some a ≡ false → a ≡ none
is_some-false none h = refl
is_some-false (some a) h = cc

pub not-false : (b : Bool) → not b ≡ false → b ≡ true
not-false true h = refl
not-false false h = cc
