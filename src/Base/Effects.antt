-- ===== src/Base/Effects.antt =====
-- Exceptions as values, and actions: functions of a state that return or throw, and give the
-- state reached in both cases, since what was written before a throw stays written.
use mathlib.Core.Path.{◌≡◌, refl, subst}
use mathlib.Core.Bool.{Bool, true, false}
use mathlib.Core.Option.{Option, none, some}

pub data Outcome (S E A : Type 0) : Type 0 where
  ok : A → S → Outcome S E A
  err : E → S → Outcome S E A

abbrev pub Action : Type 0 → Type 0 → Type 0 → Type 0
Action S E A = S → Outcome S E A

module _ {S E A : Type 0} where
  abbrev pub pure : A → Action S E A
  pure a s = ok a s

  -- `throw e`
  abbrev pub throw : E → Action S E A
  throw e s = err e s

  abbrev pub gets : (S → A) → Action S E A
  gets f s = ok (f s) s

  -- `if (!x) throw e`, for a nullable `x` that is used afterwards
  abbrev pub or_throw : Option A → E → Action S E A
  or_throw none e s = err e s
  or_throw (some a) e s = ok a s

module _ {S E : Type 0} where
  abbrev pub modify : (S → S) → Action S E (Unit {0})
  modify f s = ok tt (f s)

  -- `if (c) throw e`
  abbrev pub throw_if : Bool → E → Action S E (Unit {0})
  throw_if true e s = err e s
  throw_if false e s = ok tt s

  -- `if (c) { m }`
  abbrev pub when : Bool → Action S E (Unit {0}) → Action S E (Unit {0})
  when true m s = m s
  when false m s = ok tt s

infixl 5 ◌>>=◌ ◌>>◌
abbrev pub ◌>>=◌ : {S E A B : Type 0} → Action S E A → (A → Action S E B) → Action S E B
◌>>=◌ m f s = elim (m s) [ ok a s' ↦ f a s' | err e s' ↦ err e s' ]

abbrev pub ◌>>◌ : {S E A B : Type 0} → Action S E A → Action S E B → Action S E B
m >> k = m >>= λ _. k

-- A postcondition: `Q` of what is returned, `X` of what is thrown, and of the state reached.
abbrev pub Ensures : {S E A : Type 0} → (A → S → Type 0) → (E → S → Type 0) → Outcome S E A → Type 0
Ensures Q X (ok a s) = Q a s
Ensures Q X (err e s) = X e s

module _ {S E A B : Type 0} (Q : B → S → Type 0) (X : E → S → Type 0) where
  -- To prove a postcondition of a block that begins with a check, prove it on both branches.
  pub Ensures-or_throw :
      (o : Option A) (e : E) (s : S) (f : A → Action S E B)
      → (o ≡ none → X e s)
      → ((a : A) → o ≡ some a → Ensures Q X (f a s))
      → Ensures Q X ((or_throw o e >>= f) s)
  Ensures-or_throw none e s f h k = h refl
  Ensures-or_throw (some a) e s f h k = k a refl

  -- A step of which a postcondition is known.
  pub Ensures-bind :
      (P : A → S → Type 0) (m : Action S E A) (f : A → Action S E B) (s : S)
      → Ensures P X (m s)
      → ((a : A) (s' : S) → P a s' → Ensures Q X (f a s'))
      → Ensures Q X ((m >>= f) s)
  Ensures-bind P m f s h k = after (m s) h
    where
      after :
          (o : Outcome S E A)
          → Ensures P X o
          → Ensures Q X (elim o [ ok a s' ↦ f a s' | err e s' ↦ err e s' ])
      after (ok a s') p = k a s' p
      after (err e s') x = x

  -- A step whose outcome is known.
  pub Ensures-step :
      (m : Action S E A) (f : A → Action S E B) (s : S) (a : A) (s' : S)
      → m s ≡ ok a s'
      → Ensures Q X (f a s')
      → Ensures Q X ((m >>= f) s)
  Ensures-step m f s a s' h k = rw (h, ◌>>=◌) k

module _ {S E B : Type 0} (Q : B → S → Type 0) (X : E → S → Type 0) where
  pub Ensures-throw_if :
      (c : Bool) (e : E) (s : S) (f : Unit {0} → Action S E B)
      → (c ≡ true → X e s)
      → (c ≡ false → Ensures Q X (f tt s))
      → Ensures Q X ((throw_if c e >>= f) s)
  Ensures-throw_if true e s f h k = h refl
  Ensures-throw_if false e s f h k = k refl

module _ {S E : Type 0} (Q : Unit {0} → S → Type 0) (X : E → S → Type 0) where
  pub Ensures-throw_if_last :
      (c : Bool) (e : E) (s : S)
      → (c ≡ true → X e s)
      → (c ≡ false → Q tt s)
      → Ensures Q X (throw_if c e s)
  Ensures-throw_if_last true e s h k = h refl
  Ensures-throw_if_last false e s h k = k refl

  pub Ensures-when :
      (c : Bool) (m : Action S E (Unit {0})) (s : S)
      → (c ≡ true → Ensures Q X (m s))
      → (c ≡ false → Q tt s)
      → Ensures Q X (when c m s)
  Ensures-when true m s h k = h refl
  Ensures-when false m s h k = k refl

-- The same for a method that looks a row up, and returns a part of it.
module _ {S E A B C : Type 0} (Q : C → S → Type 0) (X : E → S → Type 0) where
  pub Ensures-lookup :
      (o : Option A) (e : E) (g : A → B) (s : S) (f : B → Action S E C)
      → (o ≡ none → X e s)
      → ((a : A) → o ≡ some a → Ensures Q X (f (g a) s))
      → Ensures Q X (((or_throw o e >>= λ a. pure (g a)) >>= f) s)
  Ensures-lookup none e g s f h k = h refl
  Ensures-lookup (some a) e g s f h k = k a refl

pub Ensures-mono :
    {S E A : Type 0} (P Q : A → S → Type 0) (X : E → S → Type 0) (o : Outcome S E A)
    → ((a : A) (s : S) → P a s → Q a s)
    → Ensures P X o
    → Ensures Q X o
Ensures-mono P Q X (ok a s) h e = h a s e
Ensures-mono P Q X (err e s) h x = x

pub Ensures-map :
    {S E A : Type 0} (P Q : A → S → Type 0) (X Y : E → S → Type 0) (o : Outcome S E A)
    → ((a : A) (s : S) → P a s → Q a s)
    → ((e : E) (s : S) → X e s → Y e s)
    → Ensures P X o
    → Ensures Q Y o
Ensures-map P Q X Y (ok a s) h k e = h a s e
Ensures-map P Q X Y (err e s) h k x = k e s x

-- What a postcondition says of a call that has returned.
pub Ensures-ok :
    {S E A : Type 0} (Q : A → S → Type 0) (X : E → S → Type 0) (o : Outcome S E A) {a : A} {s : S}
    → o ≡ ok a s
    → Ensures Q X o
    → Q a s
Ensures-ok Q X o h e = subst (Ensures Q X) h e

-- The state that a call reaches, whether it returns or throws.
abbrev pub reached : {S E A : Type 0} → Outcome S E A → S
reached (ok a s) = s
reached (err e s) = s

-- A predicate of the state, which is ensured in both cases.
abbrev pub Leaves : {S E A : Type 0} → (S → Type 0) → Outcome S E A → Type 0
Leaves P o = Ensures (λ _ s. P s) (λ _ s. P s) o

pub Leaves-reached :
    {S E A : Type 0} (P : S → Type 0) (o : Outcome S E A) → Leaves P o → P (reached o)
Leaves-reached P (ok a s) h = h
Leaves-reached P (err e s) h = h
