-- ===== src/Assignments/Tests.antt =====
-- Assignments on a small database: a courier with room for four shipments, and two shipments.
use trackora.Base.{◌+◌, ◌≡◌, refl, true, none, some, [], ◌∷◌, ok, arith, Ensures}
use trackora.Base.Int.{pos}
use trackora.Prisma.Memory.{memory}
use trackora.Prisma.Rows.{Unchanged}
use trackora.Model.{Db, Courier, Shipment, Assignment}
use trackora.Model.Enums.{ShipmentStatus, ShipmentType, AssignmentType}
use trackora.Assignments.Defs.{
  CreateAssignmentDto, assigned, failed, new_assignment, assigned_to, create_manual_assignments,
  find_courier, validate_courier_availability, count_active, assign_all, assign_shipment,
  assign_body, create_assignment, set_courier, shipment_not_found,
}
use trackora.Assignments.Active.{IsValid}
use trackora.Assignments.Capacity.{WithinCapacity, create_manual_assignments-WithinCapacity}
use trackora.Assignments.Runs.{here, next, assignment, Reach-one_active}

abbrev courier_row : Courier
courier_row = record {
  id = 3;
  tenant_id = some 5;
  user_id = 30;
  zone_codes = [];
  max_daily_capacity = 5;
  cash_held = pos 0;
  is_active = true;
  is_available = true;
  total_delivered = 0;
  total_failed = 0;
  total_returned = 0;
}

abbrev shipment_row : Shipment
shipment_row = record {
  id = 20;
  tenant_id = some 5;
  tracking_number = 111;
  merchant_id = 1;
  status = ShipmentStatus.pending;
  type = ShipmentType.prepaid;
  cod_amount = pos 0;
  delivery_attempts = 0;
  assigned_courier_id = none;
  collected_cash = none;
  customer_otp = none;
  delivered_at = none;
  returned_at = none;
  cancelled_at = none;
  risk_score = 0;
  created_at = 800;
}

abbrev start : Db
start = record {
  merchants = [];
  couriers = courier_row ∷ [];
  shipments = shipment_row ∷ [];
  status_logs = [];
  assignments = [];
  wallets = [];
  transactions = [];
  payouts = [];
}

-- The second shipment is not on record.
abbrev asked : CreateAssignmentDto
asked = record { shipment_ids = 20 ∷ 21 ∷ []; courier_id = 3; type = AssignmentType.manual }

abbrev made : Assignment
made = new_assignment 100 20 3 none AssignmentType.manual

abbrev after : Db
after = record start { shipments = assigned_to (some 3) shipment_row ∷ []; assignments = made ∷ [] }

assigns :
    create_manual_assignments memory (λ i. i + 100) asked 5 none start
    ≡ ok (assigned made ∷ failed 21 shipment_not_found ∷ []) after
unfolding create_manual_assignments find_courier validate_courier_availability count_active
    assign_all assign_shipment assign_body create_assignment set_courier
assigns = refl

start-IsValid : IsValid start
start-IsValid = record { ids = tt; one_active = tt }

Reach-one_active_example : IsValid after
Reach-one_active_example = Reach-one_active memory start-IsValid (
    next here (
      assignment (λ i. i + 100) asked 5 none (assigned made ∷ failed 21 shipment_not_found ∷ [])
        (λ i j h. omega (arith, h)) (λ j le. tt) assigns))

create_manual_assignments-WithinCapacity_example :
    Ensures
      (WithinCapacity memory asked 5 start)
      (Unchanged start)
      (create_manual_assignments memory (λ i. i + 100) asked 5 none start)
create_manual_assignments-WithinCapacity_example =
    create_manual_assignments-WithinCapacity memory (λ i. i + 100) asked 5 none start
