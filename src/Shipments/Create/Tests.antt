-- ===== src/Shipments/Create/Tests.antt =====
-- A shipment that a merchant hands in, and its risk score.
use trackora.Base.{◌↔◌, ◌≡◌, refl, true, false, none, some, [], ◌∷◌, Ensures}
use trackora.Base.Int.{pos}
use trackora.Prisma.Memory.{memory}
use trackora.Model.{Merchant}
use trackora.Model.Enums.{ShipmentType, UserRole}
use trackora.Shipments.Risk.{ShipmentLike, is_high_risk, calculate_risk_score}
use trackora.Shipments.Fraud.{IsHighRisk, is_high_risk-calculate_risk_score}
use trackora.Shipments.Create.{CreateShipmentDto, World, create}
use trackora.Shipments.Create.Writes.{IsCreated, Abandoned, create-IsCreated}

-- The phone number 01012345678, the address "near 9" and the name "Al".
abbrev handed_in : CreateShipmentDto
handed_in = record {
  merchant_id = none;
  customer_name = 65 ∷ 108 ∷ [];
  customer_phone = 48 ∷ 49 ∷ 48 ∷ 49 ∷ 50 ∷ 51 ∷ 52 ∷ 53 ∷ 54 ∷ 55 ∷ 56 ∷ [];
  address_text = 78 ∷ 101 ∷ 97 ∷ 114 ∷ 32 ∷ 57 ∷ [];
  type = ShipmentType.cod;
  cod_amount = some (pos 600000);
}

abbrev shop : Merchant
shop = record {
  id = 3;
  tenant_id = some 5;
  user_id = 8;
  commission_rate = pos 100;
  fee_per_shipment = pos 20;
  is_active = true;
}

abbrev world : World
world = record {
  db = record {
    merchants = shop ∷ [];
    couriers = [];
    shipments = [];
    status_logs = [];
    assignments = [];
    wallets = [];
    transactions = [];
    payouts = [];
  };
  events = [];
}

-- The write of the log fails.
create-IsCreated_example :
    Ensures
      (IsCreated memory 900 11 handed_in 5 8 UserRole.merchant world)
      (Abandoned memory true world)
      (create memory false true 900 260101 (λ i. 1000) 11 handed_in 5 8 UserRole.merchant world)
create-IsCreated_example =
    create-IsCreated memory false true 900 260101 (λ i. 1000) 11 handed_in 5 8 UserRole.merchant
      world

abbrev scored : ShipmentLike
scored = record {
  customer_phone = some handed_in.customer_phone;
  address_text = some handed_in.address_text;
  cod_amount = handed_in.cod_amount;
  customer_name = some handed_in.customer_name;
}

-- A short name and a high amount.
score : calculate_risk_score scored ≡ 40
unfolding calculate_risk_score
score = refl

is_high_risk-calculate_risk_score_example :
    (is_high_risk (calculate_risk_score scored) ≡ true) ↔ IsHighRisk scored
is_high_risk-calculate_risk_score_example = is_high_risk-calculate_risk_score scored
