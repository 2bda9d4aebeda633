-- ===== src/Shipments/Tests.antt =====
-- Status updates on a small database: a COD shipment on its way with its courier, and a prepaid one
-- that is delivered already.
use trackora.Base.{
  ℕ, ◌≡◌, refl, ◌↔◌, true, false, none, some, [], ◌∷◌, ok, any, take, ◌-◌, if◌then◌else◌, ◌==◌, ◌*◌,
  ◌≤◌, ◌<◌,
}
use Prim.Native.Nat.{max}
use trackora.Base.Int.{ℤ, pos, pos_part, abs, max0, ◌+ℤ◌, ◌-ℤ◌}
use trackora.Prisma.Memory.{memory}
use trackora.External.{memory_cache, memory_counters, plain_bcrypt}
use trackora.Model.{Courier, Shipment}
use trackora.Model.Enums.{ShipmentStatus, ShipmentType}
use trackora.Shipments.StateMachine.{is_terminal_status, validate_transition}
use trackora.Shipments.Transitions.{
  Walk, Visits, here, step, is_terminal_status_iff, Walk-order, Walk-leaves, Walk-ends,
}
use trackora.Shipments.Status.{
  World, UpdateShipmentStatusDto, update_status, update_body, update_shipment, update_courier,
  log_status, announce, check_delivery, updated, courier_updated, status_changed, delivered,
  otp_max_attempts,
}
use trackora.Shipments.Delivery.{
  accepts_one, accepts_one_limit, cod_delivery_checked, redelivery, Redelivered, attempts_of,
}

abbrev courier_row : Courier
courier_row = record {
  id = 3;
  tenant_id = some 5;
  user_id = 30;
  zone_codes = [];
  max_daily_capacity = 25;
  cash_held = pos 0;
  is_active = true;
  is_available = true;
  total_delivered = 1;
  total_failed = 0;
  total_returned = 0;
}

abbrev cod_row : Shipment
cod_row = record {
  id = 20;
  tenant_id = some 5;
  tracking_number = 111;
  merchant_id = 1;
  status = ShipmentStatus.out_for_delivery;
  type = ShipmentType.cod;
  cod_amount = pos 50000;
  delivery_attempts = 0;
  assigned_courier_id = some 3;
  collected_cash = none;
  customer_otp = some 4321;
  delivered_at = none;
  returned_at = none;
  cancelled_at = none;
  risk_score = 0;
  created_at = 800;
}

abbrev prepaid_row : Shipment
prepaid_row = record cod_row {
  id = 21;
  status = ShipmentStatus.delivered;
  type = ShipmentType.prepaid;
  delivered_at = some 900;
}

abbrev start : World memory (memory_cache ℕ) memory_counters plain_bcrypt
start = record {
  db = record {
    merchants = [];
    couriers = courier_row ∷ [];
    shipments = cod_row ∷ prepaid_row ∷ [];
    status_logs = [];
    assignments = [];
    wallets = [];
    transactions = [];
    payouts = [];
  };
  plain_otps = λ k. none;
  otp_attempts = λ k. none;
  events = [];
}

abbrev deliver_cod : UpdateShipmentStatusDto
deliver_cod = record {
  new_status = ShipmentStatus.delivered;
  otp = some 4321;
  collected_cash = some (pos 50100);
  cash_is_null = false;
}

abbrev deliver : UpdateShipmentStatusDto
deliver = record {
  new_status = ShipmentStatus.delivered;
  otp = none;
  collected_cash = none;
  cash_is_null = false;
}

-- The world after the delivery of the COD shipment.
abbrev delivered_world : World memory (memory_cache ℕ) memory_counters plain_bcrypt
delivered_world = record {
  db = record start.db {
    shipments = updated 1000 deliver_cod none cod_row ∷ prepaid_row ∷ [];
    couriers = courier_updated cod_row deliver_cod courier_row ∷ [];
    status_logs =
        record {
          shipment_id = 20;
          previous_status = some ShipmentStatus.out_for_delivery;
          new_status = ShipmentStatus.delivered;
          changed_by_user_id = none;
          changed_by_role = none;
        }
        ∷ [];
  };
  plain_otps = λ k. none;
  otp_attempts = λ k. if 20 == k then some 1 else none;
  events =
      status_changed 20 5 ShipmentStatus.out_for_delivery ShipmentStatus.delivered
      ∷ delivered (record {
        shipment_id = 20;
        tenant_id = 5;
        merchant_id = 1;
        courier_id = some 3;
        cod_amount = pos 50000;
        collected_cash = pos 50100;
        type = ShipmentType.cod;
      })
      ∷ [];
}

delivers :
    update_status memory
      (memory_cache ℕ)
      memory_counters
      plain_bcrypt
      1000
      0
      0
      20
      5
      deliver_cod
      none
      none
      false
      start
    ≡ ok (updated 1000 deliver_cod none cod_row) delivered_world
unfolding update_status update_body update_shipment update_courier log_status announce
    check_delivery validate_transition ◌-ℤ◌ ◌+ℤ◌
delivers = refl

cod_delivery_checked_example :
    (cash : ℤ) × (hashed provided : ℕ) × (deliver_cod.collected_cash ≡ some cash)
    × (20 * pos_part (abs (cash -ℤ pos 50000)) ≤ max (pos_part (max0 (pos 50000))) 2000)
    × (some 4321 ≡ some hashed)
    × (deliver_cod.otp ≡ some provided)
    × (plain_bcrypt.compare provided hashed ≡ true)
    × (attempts_of memory (memory_cache ℕ) memory_counters plain_bcrypt 20 start < otp_max_attempts)
    × ((updated 1000 deliver_cod none cod_row).status ≡ ShipmentStatus.delivered)
cod_delivery_checked_example =
    cod_delivery_checked memory (memory_cache ℕ) memory_counters plain_bcrypt 1000 0 0 20 5
      deliver_cod none none false start delivered_world cod_row
      (updated 1000 deliver_cod none cod_row) refl refl refl delivers

redelivery_example :
    (x : Shipment) × (w : World memory (memory_cache ℕ) memory_counters plain_bcrypt)
    × (update_status memory
          (memory_cache ℕ)
          memory_counters
          plain_bcrypt
          1000
          0
          0
          21
          5
          deliver
          none
          none
          false
          start
        ≡ ok x w)
    × Redelivered memory
        (memory_cache ℕ)
        memory_counters
        plain_bcrypt
        21
        5
        deliver
        prepaid_row
        start
        w
redelivery_example =
    redelivery memory (memory_cache ℕ) memory_counters plain_bcrypt 1000 0 0 21 5 deliver none none
      start prepaid_row refl refl refl (λ h. cc) (courier_row, refl)

is_terminal_status_iff_example :
    (is_terminal_status ShipmentStatus.failed ≡ true)
    ↔ ((t : ShipmentStatus) → Walk ShipmentStatus.failed t → t ≡ ShipmentStatus.failed)
is_terminal_status_iff_example = is_terminal_status_iff ShipmentStatus.failed

abbrev picked_up_delivered : Walk ShipmentStatus.picked_up ShipmentStatus.delivered
unfolding validate_transition
picked_up_delivered =
    step ShipmentStatus.delivered (step ShipmentStatus.out_for_delivery here refl) refl

Walk-order_example : Visits ShipmentStatus.out_for_delivery picked_up_delivered
Walk-order_example = Walk-order ShipmentStatus.picked_up (λ h. cc) picked_up_delivered

Walk-leaves_example : ¬ (Walk ShipmentStatus.picked_up ShipmentStatus.pending)
Walk-leaves_example = Walk-leaves ShipmentStatus.picked_up (λ h. cc)

Walk-ends_example :
    (t : ShipmentStatus) × (is_terminal_status t ≡ true) × Walk ShipmentStatus.failed t
Walk-ends_example = Walk-ends ShipmentStatus.failed

accepts_one_limit_example :
    accepts_one memory
      (memory_cache ℕ)
      memory_counters
      plain_bcrypt
      20
      4321
      (1 ∷ 2 ∷ 3 ∷ 4321 ∷ [])
      start
    ≡ any
        (λ g. plain_bcrypt.compare g 4321)
        (take
          (3 - attempts_of memory (memory_cache ℕ) memory_counters plain_bcrypt 20 start)
          (1 ∷ 2 ∷ 3 ∷ 4321 ∷ []))
accepts_one_limit_example =
    accepts_one_limit memory (memory_cache ℕ) memory_counters plain_bcrypt 20 4321
      (1 ∷ 2 ∷ 3 ∷ 4321 ∷ []) start
