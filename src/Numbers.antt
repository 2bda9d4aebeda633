-- ===== src/Numbers.antt =====
-- The numbers of JavaScript that a request brings, beside the whole cents of the columns
-- Decimal(10, 2): `of_cents` is `Number(x)` of a column, and `to_cents` the rounding of the database
-- when a number is written. What a number below a cent does is left open. The laws are stated of all
-- whole cents; the binary numbers of JavaScript keep them as far as the columns reach, and what is
-- too large for a column is not modelled.
use trackora.Base.{
  ℕ, ◌+◌, ◌-◌, ◌≡◌, refl, Bool, true, false, if◌then◌else◌, ltb, ◌==◌, ◌&&◌, ◌||◌, not, arith,
}
use trackora.Base.Int.{ℤ, pos, negsuc, ◌+ℤ◌, ◌-ℤ◌, neg, abs, ltb_ℤ, int_laws}

pub record Numbers : Type 1 where
  pub Number : Type 0
  pub of_cents : ℤ → Number
  pub to_cents : Number → ℤ
  pub plus : Number → Number → Number
  pub minus : Number → Number → Number
  -- `Math.abs(a)`, `-a` and `a < b`
  pub magnitude : Number → Number
  pub negated : Number → Number
  pub less : Number → Number → Bool
  -- a column after `{ decrement: a }`
  pub decremented : ℤ → Number → ℤ
  pub to_cents-of_cents : (a : ℤ) → to_cents (of_cents a) ≡ a
  pub to_cents-plus : (a b : ℤ) → to_cents (plus (of_cents a) (of_cents b)) ≡ a +ℤ b
  pub to_cents-minus : (a b : ℤ) → to_cents (minus (of_cents a) (of_cents b)) ≡ a -ℤ b
  pub magnitude-of_cents : (a : ℤ) → magnitude (of_cents a) ≡ of_cents (abs a)
  pub to_cents-negated : (a : ℤ) → to_cents (negated (of_cents a)) ≡ neg a
  pub less-of_cents : (a b : ℤ) → less (of_cents a) (of_cents b) ≡ ltb_ℤ a b
  pub decremented-of_cents : (a b : ℤ) → decremented a (of_cents b) ≡ a -ℤ b

-- Numbers with one more place, for tests: cents and tenths of a cent.
pub record Tenths : Type 0 where
  pub cents : ℤ
  pub tenths : ℕ

abbrev rounded : Tenths → ℤ
rounded a = if ltb a.tenths 5 then a.cents else a.cents +ℤ pos 1

abbrev difference : Tenths → Tenths → Tenths
difference a b =
    if ltb a.tenths b.tenths
    then (record { cents = a.cents -ℤ b.cents -ℤ pos 1; tenths = a.tenths + 10 - b.tenths })
    else (record { cents = a.cents -ℤ b.cents; tenths = a.tenths - b.tenths })

abbrev is_negative : ℤ → Bool
is_negative (pos n) = false
is_negative (negsuc n) = true

abbrev whole : ℤ → Tenths
whole a = record { cents = a; tenths = 0 }

abbrev size_of : Tenths → Tenths
size_of a =
    if a.tenths == 0
    then whole (abs a.cents)
    else (if is_negative a.cents then difference (whole (pos 0)) a else a)

pub less_lem : (a b : ℤ) → (ltb_ℤ a b || (not (ltb_ℤ b a) && ltb 0 0)) ≡ ltb_ℤ a b
less_lem a b = ground arith

abbrev pub with_tenths : Numbers
with_tenths = record {
  Number = Tenths;
  of_cents = λ a. whole a;
  to_cents = λ a. rounded a;
  plus = λ a b. difference a (difference (whole (pos 0)) b);
  minus = λ a b. difference a b;
  magnitude = λ a. size_of a;
  negated = λ a. difference (whole (pos 0)) a;
  less = λ a b. ltb_ℤ a.cents b.cents || (not (ltb_ℤ b.cents a.cents) && ltb a.tenths b.tenths);
  decremented = λ a b. rounded (difference (whole a) b);
  to_cents-of_cents = λ a. refl;
  to_cents-plus = λ a b. omega int_laws;
  to_cents-minus = λ a b. refl;
  magnitude-of_cents = λ a. refl;
  to_cents-negated = λ a. refl;
  less-of_cents = λ a b. less_lem a b;
  decremented-of_cents = λ a b. refl;
}
