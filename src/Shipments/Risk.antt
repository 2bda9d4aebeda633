-- ===== src/Shipments/Risk.antt =====
-- modules/shipments/services/fraud-detection.service.ts. A text is the list of its UTF-16 code
-- units; amounts are in cents. `toLowerCase` is that of the letters A to Z, which is the same for
-- the search of the keywords: no other character has one of their letters as its small letter, but
-- for the dotted capital i, which keeps its dot.
use trackora.Base.{
  ℕ, ◌+◌, Bool, true, false, Option, List, [], ◌∷◌, any, map, ◌==◌, ◌&&◌, ◌||◌, ltb, leb, length,
  or_else, if◌then◌else◌,
}
use Prim.Native.Nat.{min}
use trackora.Base.Int.{ℤ, pos, pos_part}

abbrev pub Text : Type 0
Text = List ℕ

pub record ShipmentLike : Type 0 where
  pub customer_phone : Option Text
  pub address_text : Option Text
  pub cod_amount : Option ℤ
  pub customer_name : Option Text

pub record RiskSignals : Type 0 where
  pub phone_format_valid : Bool
  pub address_has_landmark : Bool
  pub cod_amount_high : Bool
  pub customer_name_short : Bool

abbrev pub is_digit : ℕ → Bool
is_digit c = leb 48 c && leb c 57

abbrev pub all_digits : Text → Bool
all_digits [] = true
all_digits (c ∷ cs) = is_digit c && all_digits cs

-- `/^01[0-25]\d{8}$/`
abbrev pub is_valid_egyptian_phone : Text → Bool
is_valid_egyptian_phone [] = false
is_valid_egyptian_phone (a ∷ []) = false
is_valid_egyptian_phone (a ∷ b ∷ []) = false
is_valid_egyptian_phone (a ∷ b ∷ c ∷ rest) =
    (a == 48)
    && (b == 49)
    && ((leb 48 c && leb c 50) || (c == 53))
    && (length rest == 8)
    && all_digits rest

abbrev pub to_lower_case : Text → Text
to_lower_case = map (λ c. if leb 65 c && leb c 90 then c + 32 else c)

abbrev pub starts_with : Text → Text → Bool
starts_with [] t = true
starts_with (c ∷ cs) [] = false
starts_with (c ∷ cs) (d ∷ ds) = (c == d) && starts_with cs ds

-- `text.includes(keyword)`
abbrev pub contains : Text → Text → Bool
contains keyword [] = starts_with keyword []
contains keyword (c ∷ cs) = starts_with keyword (c ∷ cs) || contains keyword cs

abbrev pub landmark_keywords : List Text
landmark_keywords =
    (110 ∷ 101 ∷ 97 ∷ 114 ∷ [])
    ∷ (98 ∷ 101 ∷ 115 ∷ 105 ∷ 100 ∷ 101 ∷ [])
    ∷ (110 ∷ 101 ∷ 120 ∷ 116 ∷ 32 ∷ 116 ∷ 111 ∷ [])
    ∷ (105 ∷ 110 ∷ 32 ∷ 102 ∷ 114 ∷ 111 ∷ 110 ∷ 116 ∷ 32 ∷ 111 ∷ 102 ∷ [])
    ∷ (98 ∷ 101 ∷ 104 ∷ 105 ∷ 110 ∷ 100 ∷ [])
    ∷ (1593 ∷ 1605 ∷ 1575 ∷ 1585 ∷ 1577 ∷ [])
    ∷ (1588 ∷ 1602 ∷ 1577 ∷ [])
    ∷ (1583 ∷ 1608 ∷ 1585 ∷ [])
    ∷ (1576 ∷ 1580 ∷ 1608 ∷ 1575 ∷ 1585 ∷ [])
    ∷ (1571 ∷ 1605 ∷ 1575 ∷ 1605 ∷ [])
    ∷ (1582 ∷ 1604 ∷ 1601 ∷ [])
    ∷ (1576 ∷ 1580 ∷ 1575 ∷ 1606 ∷ 1576 ∷ [])
    ∷ []

abbrev pub has_landmark : Text → Bool
has_landmark address = any (λ keyword. contains keyword address) landmark_keywords

abbrev pub evaluate_signals : ShipmentLike → RiskSignals
evaluate_signals shipment = record {
  phone_format_valid = is_valid_egyptian_phone (or_else shipment.customer_phone []);
  address_has_landmark = has_landmark (to_lower_case (or_else shipment.address_text []));
  cod_amount_high = ltb 500000 (pos_part (or_else shipment.cod_amount (pos 0)));
  customer_name_short = ltb (length (or_else shipment.customer_name [])) 3;
}

-- The sum of the scores of the signals.
abbrev pub score_of : RiskSignals → ℕ
score_of signals =
    min
      ((if signals.phone_format_valid then 0 else 30)
        + (if signals.address_has_landmark then 0 else 20)
        + (if signals.cod_amount_high then 25 else 0)
        + (if signals.customer_name_short then 15 else 0))
      100

unfoldable pub calculate_risk_score : ShipmentLike → ℕ
calculate_risk_score shipment = score_of (evaluate_signals shipment)

abbrev pub is_high_risk : ℕ → Bool
is_high_risk score = ltb 50 score
