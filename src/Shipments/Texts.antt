-- ===== src/Shipments/Texts.antt =====
-- The phone numbers and addresses that modules/shipments/services/fraud-detection.service.ts tests.
use mathlib.Core.List.{Memᴰ}
use trackora.Base.{
  ℕ, ◌≡◌, ◌⊎◌, inl, inr, refl, sym, ap, Bool, true, List, [], ◌∷◌, ◌++◌, All, any, ==_iff, length,
  arith, ◌≤◌, Bool-cases,
}
use trackora.Shipments.Risk.{
  Text, all_digits, is_valid_egyptian_phone, to_lower_case, starts_with, contains,
  landmark_keywords, has_landmark,
}

-- A mobile number: 01, one of 0, 1, 2 and 5, and eight digits.
pub record IsMobile (phone : Text) : Type 0 where
  pub network : ℕ
  pub rest : Text
  pub shape : phone ≡ 48 ∷ 49 ∷ network ∷ rest
  pub known : ((48 ≤ network) × (network ≤ 50)) ⊎ (network ≡ 53)
  pub eight : length rest ≡ 8
  pub digits : All (λ c. (48 ≤ c) × (c ≤ 57)) rest

-- The address has one of the keywords, in small letters or in capitals.
pub record HasLandmark (address : Text) : Type 0 where
  pub keyword : Text
  pub listed : Memᴰ keyword landmark_keywords
  pub before : Text
  pub after : Text
  pub stands : to_lower_case address ≡ before ++ (keyword ++ after)

digits-All : (t : Text) → all_digits t ≡ true → All (λ c. (48 ≤ c) × (c ≤ 57)) t
digits-All [] h = tt
digits-All (c ∷ t) h = ((ground (arith, h), ground (arith, h)), digits-All t (ground (arith, h)))

all_digits-true : (t : Text) → All (λ c. (48 ≤ c) × (c ≤ 57)) t → all_digits t ≡ true
all_digits-true [] h = refl
all_digits-true (c ∷ t) h = ground (arith, h.0, all_digits-true t h.1)

pub phone-IsMobile : (t : Text) → is_valid_egyptian_phone t ≡ true → IsMobile t
phone-IsMobile [] h = cc
phone-IsMobile (a ∷ []) h = cc
phone-IsMobile (a ∷ b ∷ []) h = cc
phone-IsMobile (a ∷ b ∷ c ∷ rest) h =
    let ea : a ≡ 48 = ground (arith, h) in
    let eb : b ≡ 49 = ground (arith, h) in
    record {
      network = c;
      rest = rest;
      shape = rw (ea, eb) refl;
      known = ground (arith, h);
      eight = ground (arith, h);
      digits = digits-All rest (ground (arith, h));
    }

shape_valid :
    (c : ℕ) (rest : Text)
    → ((48 ≤ c) × (c ≤ 50)) ⊎ (c ≡ 53)
    → length rest ≡ 8
    → all_digits rest ≡ true
    → is_valid_egyptian_phone (48 ∷ 49 ∷ c ∷ rest) ≡ true
shape_valid c rest k e d = ground (arith, k, e, d)

pub IsMobile-phone : (t : Text) → IsMobile t → is_valid_egyptian_phone t ≡ true
IsMobile-phone t m =
    rw m.shape (shape_valid m.network m.rest m.known m.eight (all_digits-true m.rest m.digits))

starts_with-append : (k t : Text) → starts_with k (k ++ t) ≡ true
starts_with-append [] t = refl
starts_with-append (c ∷ k) t = rw ((==_iff c c).1 refl) (starts_with-append k t)

starts_with-true : (k t : Text) → starts_with k t ≡ true → (after : Text) × (t ≡ k ++ after)
starts_with-true [] t h = (t, refl)
starts_with-true (c ∷ k) [] h = cc
starts_with-true (c ∷ k) (d ∷ t) h =
    let (after, e) = starts_with-true k t (ground (arith, h)) in
    let same : c ≡ d = ground (arith, h) in (after, rw (same, e) refl)

contains-append : (before k after : Text) → contains k (before ++ (k ++ after)) ≡ true
contains-append [] [] [] = refl
contains-append [] [] (a ∷ after) = refl
contains-append [] (c ∷ k) after = rw (starts_with-append (c ∷ k) after) refl
contains-append (b ∷ before) k after =
    rw (contains-append before k after)
      (elim (Bool-cases (starts_with k (b ∷ (before ++ (k ++ after))))) [
        | inl e ↦ rw e refl
        | inr e ↦ rw e refl
      ])

contains-true :
    (k t : Text) → contains k t ≡ true → (before after : Text) × (t ≡ before ++ (k ++ after))
contains-true k [] h = let (after, e) = starts_with-true k [] h in ([], after, e)
contains-true k (c ∷ t) h = elim (Bool-cases (starts_with k (c ∷ t))) [
  | inl e ↦ let (after, d) = starts_with-true k (c ∷ t) e in ([], after, d)
  | inr e ↦
      let (before, after, d) = contains-true k t (ground (arith, h, e)) in
      (c ∷ before, after, ap (λ x. c ∷ x) d)
]

any-Mem :
    (q : Text → Bool) (ks : List Text) → any q ks ≡ true → (k : Text) × Memᴰ k ks × (q k ≡ true)
any-Mem q [] h = cc
any-Mem q (k ∷ ks) h = elim (Bool-cases (q k)) [
  | inl e ↦ (k, Memᴰ.head refl, e)
  | inr e ↦ let (j, m, c) = any-Mem q ks (rw e at h) in (j, Memᴰ.tail m, c)
]

Mem-any : (q : Text → Bool) (ks : List Text) (k : Text) → Memᴰ k ks → q k ≡ true → any q ks ≡ true
Mem-any q [] k m c = elim m [ ]
Mem-any q (j ∷ ks) k (Memᴰ.head e) c = rw (sym e, c) refl
Mem-any q (j ∷ ks) k (Memᴰ.tail m) c =
    rw (Mem-any q ks k m c) (elim (Bool-cases (q j)) [ inl e ↦ rw e refl | inr e ↦ rw e refl ])

pub landmark-true : (t : Text) → has_landmark (to_lower_case t) ≡ true → HasLandmark t
landmark-true t h =
    let (k, m, c) = any-Mem (λ k. contains k (to_lower_case t)) landmark_keywords h in
    let (before, after, e) = contains-true k (to_lower_case t) c in
    record { keyword = k; listed = m; before = before; after = after; stands = e }

pub HasLandmark-true : (t : Text) → HasLandmark t → has_landmark (to_lower_case t) ≡ true
HasLandmark-true t l =
    Mem-any (λ k. contains k (to_lower_case t)) landmark_keywords l.keyword l.listed
      (rw l.stands (contains-append l.before l.keyword l.after))
