-- ===== src/Couriers/Tests.antt =====
-- The courier app on small tables: a courier with 100 pounds in cash and a shipment that is on its
-- way.
use trackora.Base.{
  reached, ℕ, ◌+◌, ◌≡◌, refl, true, false, none, some, [], ◌∷◌, ok, Ensures, length, List, arith,
}
use trackora.Base.Int.{pos}
use trackora.Prisma.Memory.{memory}
use trackora.Prisma.Rows.{Unchanged}
use trackora.Numbers.{with_tenths}
use trackora.External.{memory_cache, memory_counters, plain_bcrypt}
use trackora.Model.{Courier, Shipment, Assignment}
use trackora.Model.Enums.{ShipmentStatus, ShipmentType, AssignmentStatus, AssignmentType}
use trackora.Couriers.App.{
  AppState, CourierDepositDto, UpdateTaskStatusDto, SyncUpdate, SyncResult, log_deposit,
  update_task_status, sync_updates,
}
use trackora.Couriers.Roster.{CreateCourierDto, Staff, create, remove}
use trackora.Couriers.Staffing.{IsStaffed, here, next, creation, removal, Reach-IsStaffed}
use trackora.Couriers.Deposits.{Deposited, log_deposit-Deposited}
use trackora.Couriers.Tasks.{Ended, update_task_status-Ended}
use trackora.Couriers.Sync.{sync_updates_counts}

abbrev rider : Courier
rider = record {
  id = 3;
  tenant_id = some 5;
  user_id = 30;
  zone_codes = [];
  max_daily_capacity = 5;
  cash_held = pos 10000;
  is_active = true;
  is_available = true;
  total_delivered = 0;
  total_failed = 0;
  total_returned = 0;
}

abbrev parcel : Shipment
parcel = record {
  id = 20;
  tenant_id = some 5;
  tracking_number = 111;
  merchant_id = 1;
  status = ShipmentStatus.out_for_delivery;
  type = ShipmentType.prepaid;
  cod_amount = pos 0;
  delivery_attempts = 0;
  assigned_courier_id = some 3;
  collected_cash = none;
  customer_otp = none;
  delivered_at = none;
  returned_at = none;
  cancelled_at = none;
  risk_score = 0;
  created_at = 800;
}

abbrev task : Assignment
task = record {
  id = 40;
  shipment_id = 20;
  courier_id = 3;
  assigned_by_user_id = none;
  assignment_type = AssignmentType.manual;
  status = AssignmentStatus.active;
  completed_at = none;
  cancelled_at = none;
}

abbrev app : AppState memory (memory_cache ℕ) memory_counters plain_bcrypt
app = record {
  world = record {
    db = record {
      merchants = [];
      couriers = rider ∷ [];
      shipments = parcel ∷ [];
      status_logs = [];
      assignments = task ∷ [];
      wallets = [];
      transactions = [];
      payouts = [];
    };
    plain_otps = λ k. none;
    otp_attempts = λ k. none;
    events = [];
  };
  users = [];
  deposits = [];
}

abbrev half : CourierDepositDto with_tenths
half = record { amount = with_tenths.of_cents (pos 5000); deposited_to = none }

log_deposit-Deposited_example :
    Ensures
      (Deposited memory
        (memory_cache ℕ)
        memory_counters
        plain_bcrypt
        with_tenths
        30
        half
        5
        (pos 5000)
        app)
      (Unchanged app)
      (log_deposit memory (memory_cache ℕ) memory_counters plain_bcrypt with_tenths 30 half 5 app)
log_deposit-Deposited_example =
    log_deposit-Deposited memory (memory_cache ℕ) memory_counters plain_bcrypt with_tenths 30 half 5
      (pos 5000) app refl (record { ids = (tt, tt); covered = (omega arith, tt) })

abbrev delivered : UpdateTaskStatusDto
delivered = record {
  status = ShipmentStatus.delivered;
  otp = none;
  collected_cash = none;
  cash_is_null = false;
}

update_task_status-Ended_example :
    Ensures
      (Ended memory (memory_cache ℕ) memory_counters plain_bcrypt 9 1 1234 30 20 5 delivered app)
      (λ _ _. Unit {0})
      (update_task_status memory
        (memory_cache ℕ)
        memory_counters
        plain_bcrypt
        9
        1
        1234
        30
        20
        delivered
        5
        app)
update_task_status-Ended_example =
    update_task_status-Ended memory (memory_cache ℕ) memory_counters plain_bcrypt 9 1 1234 30 20 5
      delivered app (record { ids = (tt, tt); one_active = (λ _. tt, tt) }) refl

abbrev offline : List SyncUpdate
offline =
    record { id = 1; shipment_id = 20; payload = delivered }
    ∷ record { id = 2; shipment_id = 21; payload = delivered }
    ∷ []

sync_updates_counts_example :
    (r : SyncResult) × (s : AppState memory (memory_cache ℕ) memory_counters plain_bcrypt)
    × (sync_updates memory
          (memory_cache ℕ)
          memory_counters
          plain_bcrypt
          9
          (λ i. 1)
          (λ i. 1234)
          30
          offline
          5
          app
        ≡ ok r s)
    × (r.processed + r.failed + length r.conflicts ≡ length offline)
sync_updates_counts_example =
    sync_updates_counts memory (memory_cache ℕ) memory_counters plain_bcrypt 9 (λ i. 1) (λ i. 1234)
      30 offline 5 app rider refl

abbrev hired : CreateCourierDto
hired = record {
  phone = 100;
  email = none;
  zone_codes = 8 ∷ [];
  max_daily_capacity = none;
  is_active = none;
  is_available = none;
}

abbrev staff : Staff
staff = record { users = []; couriers = []; zones = record { code = 8; is_active = true } ∷ [] }

Reach-IsStaffed_example :
    IsStaffed (reached (remove memory 3 5 (reached (create memory 30 3 hired 5 staff))))
Reach-IsStaffed_example =
    Reach-IsStaffed memory {s = staff} (record { phones = tt; couriers = tt; ids = tt })
      (next (next here (creation 30 3 hired 5 tt tt)) (removal 3 5))
