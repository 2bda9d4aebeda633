-- ===== src/Shipments/Fraud.antt =====
-- What a high risk score of modules/shipments/services/fraud-detection.service.ts means, by conditions
-- on the fields of a shipment.
use trackora.Base.{ℕ, ◌≡◌, ◌↔◌, ◌⊎◌, Bool, true, [], ltb, length, or_else, arith, ◌<◌}
use trackora.Base.Int.{pos, pos_part}
use trackora.Shipments.Risk.{
  ShipmentLike, is_valid_egyptian_phone, to_lower_case, has_landmark, score_of,
  calculate_risk_score, is_high_risk,
}
use trackora.Shipments.Texts.{
  IsMobile, HasLandmark, phone-IsMobile, IsMobile-phone, landmark-true, HasLandmark-true,
}

-- The signals of a score of high risk.
high_risk_signals :
    (valid landmark high short : Bool)
    → (is_high_risk (
          score_of (record {
            phone_format_valid = valid;
            address_has_landmark = landmark;
            cod_amount_high = high;
            customer_name_short = short;
          }))
        ≡ true)
      ↔ (((¬ (valid ≡ true)) × ((high ≡ true) ⊎ ((¬ (landmark ≡ true)) × (short ≡ true))))
          ⊎ ((¬ (landmark ≡ true)) × (high ≡ true) × (short ≡ true)))
high_risk_signals valid landmark high short = ground arith

-- A condition made of the signals follows what each of them stands for.
judged_by :
    {V L H N W M G S : Type 0}
    → V ↔ W
    → L ↔ M
    → H ↔ G
    → N ↔ S
    → (((¬ V) × (H ⊎ ((¬ L) × N))) ⊎ ((¬ L) × H × N))
      ↔ (((¬ W) × (G ⊎ ((¬ M) × S))) ⊎ ((¬ M) × G × S))
judged_by iv il ih ins = ground (arith, iv, il, ih, ins)

-- The conditions on the fields; a field that is not given counts as empty, an amount as 0.
abbrev pub IsHighRisk : ShipmentLike → Type 0
IsHighRisk s =
    let high = 500000 < pos_part (or_else s.cod_amount (pos 0)) in
    let short = length (or_else s.customer_name []) < 3 in
    ((¬ (IsMobile (or_else s.customer_phone [])))
      × (high ⊎ ((¬ (HasLandmark (or_else s.address_text []))) × short)))
    ⊎ ((¬ (HasLandmark (or_else s.address_text []))) × high × short)

ltb_iff : (a b : ℕ) → (ltb a b ≡ true) ↔ (a < b)
ltb_iff a b = ground arith

-- The score of a shipment is one of high risk exactly if the phone number is not a mobile number of
-- Egypt, and the amount is above 5000 or the address has none of the keywords of a landmark and the
-- name has less than three characters; or if the address has no landmark, the amount is above 5000
-- and the name has less than three characters.
pub is_high_risk-calculate_risk_score :
    (shipment : ShipmentLike)
    → (is_high_risk (calculate_risk_score shipment) ≡ true) ↔ IsHighRisk shipment
unfolding calculate_risk_score
is_high_risk-calculate_risk_score s =
    let signals =
      high_risk_signals (is_valid_egyptian_phone (or_else s.customer_phone []))
        (has_landmark (to_lower_case (or_else s.address_text [])))
        (ltb 500000 (pos_part (or_else s.cod_amount (pos 0))))
        (ltb (length (or_else s.customer_name [])) 3) in
    let meaning =
      judged_by
        (phone-IsMobile (or_else s.customer_phone []), IsMobile-phone (or_else s.customer_phone []))
        (landmark-true (or_else s.address_text []), HasLandmark-true (or_else s.address_text []))
        (ltb_iff 500000 (pos_part (or_else s.cod_amount (pos 0))))
        (ltb_iff (length (or_else s.customer_name [])) 3) in
    (λ h. meaning.0 (signals.0 h), λ r. signals.1 (meaning.1 r))
