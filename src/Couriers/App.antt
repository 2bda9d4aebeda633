-- ===== src/Couriers/App.antt =====
-- modules/couriers/services/courier-app.service.ts: what a courier does from the app. The shipments
-- and assignments are changed by the services of their modules.
use trackora.Base.{
  ℕ, suc, Bool, true, false, Option, none, some, List, [], ◌∷◌, ◌++◌, Outcome, ok, err, Action,
  pure, gets, or_throw, modify, throw_if, ◌>>=◌, ◌>>◌, ◌==◌, ◌&&◌, ◌||◌, not, is_some, is_just, ltb,
  if◌then◌else◌,
}
use trackora.Base.Int.{ℤ}
use trackora.Prisma.{Prisma}
use trackora.Numbers.{Numbers}
use trackora.External.{Cache, Counters, Bcrypt}
use trackora.Model.{Db, Courier, Shipment}
use trackora.Model.Enums.{ShipmentStatus, shipment_status_enum, UserRole, ◌===◌}
use trackora.Access.Session.{User}
use trackora.Shipments.Status.{World, UpdateShipmentStatusDto, update_status}
use trackora.Assignments.Defs.{active_of, complete_assignment}

pub record CourierCashDeposit : Type 0 where
  pub courier_id : ℕ
  pub amount : ℤ
  pub verified_by_user_id : Option ℕ

pub record CourierDepositDto (n : Numbers) : Type 0 where
  pub amount : n.Number
  pub deposited_to : Option ℕ

pub record UpdateTaskStatusDto : Type 0 where
  pub status : ShipmentStatus
  pub otp : Option ℕ
  pub collected_cash : Option ℤ
  -- The body holds `collectedCash: null`, where the amount is `none`.
  pub cash_is_null : Bool

-- An update that the app has kept while it was offline; the only action is STATUS_UPDATE.
pub record SyncUpdate : Type 0 where
  pub id : ℕ
  pub shipment_id : ℕ
  pub payload : UpdateTaskStatusDto

pub record Conflict : Type 0 where
  pub update_id : ℕ
  pub shipment_id : ℕ
  pub server_status : Option ShipmentStatus  -- none is 'NOT_FOUND'
  pub local_status : ShipmentStatus

pub record SyncResult : Type 0 where
  pub processed : ℕ
  pub failed : ℕ
  pub conflicts : List Conflict

pub data Error : Type 0 where
  courier_not_found not_assigned recipient_not_found exceeds_cash_held record_not_found : Error
  of_shipments : trackora.Shipments.Status.Error → Error
  of_assignments : trackora.Assignments.Defs.Error → Error

abbrev pub courier_of_user : ℕ → ℕ → Courier → Bool
courier_of_user user tenant c = (c.user_id == user) && (is_just tenant c.tenant_id && c.is_active)

-- `{ id, assignedCourierId, tenantId }`
abbrev pub task_of : ℕ → ℕ → ℕ → Shipment → Bool
task_of id courier tenant s =
    (s.id == id) && (is_just courier s.assigned_courier_id && is_just tenant s.tenant_id)

abbrev pub courier_by_id : ℕ → ℕ → Courier → Bool
courier_by_id id tenant c = (c.id == id) && is_just tenant c.tenant_id

abbrev pub recipient : ℕ → ℕ → User → Bool
recipient id tenant u = (u.id == id) && (is_just tenant u.tenant_id && u.is_active)

abbrev pub to_status_dto : UpdateTaskStatusDto → UpdateShipmentStatusDto
to_status_dto dto = record {
  new_status = dto.status;
  otp = dto.otp;
  collected_cash = dto.collected_cash;
  cash_is_null = dto.cash_is_null;
}

abbrev pub closes : ShipmentStatus → Bool
closes status =
    (status === ShipmentStatus.delivered)
    || ((status === ShipmentStatus.returned) || (status === ShipmentStatus.cancelled))

abbrev pub paid_in : (n : Numbers) → n.Number → Courier → Courier
paid_in n amount c = record c { cash_held = n.decremented c.cash_held amount }

-- `statusOrder.indexOf(a) > statusOrder.indexOf(b)`: the order of the enumeration.
abbrev pub is_ahead : ShipmentStatus → ShipmentStatus → Bool
is_ahead a b = ltb (shipment_status_enum.index b) (shipment_status_enum.index a)

-- The update is refused, with what the server knows of the shipment.
abbrev pub in_conflict : SyncUpdate → Option ShipmentStatus → SyncResult → SyncResult
in_conflict update server result = record result {
  conflicts =
      result.conflicts
      ++ (record {
        update_id = update.id;
        shipment_id = update.shipment_id;
        server_status = server;
        local_status = update.payload.status;
      }
          ∷ []);
}

module _ (p : Prisma) (otps : Cache ℕ) (counters : Counters) (bcrypt : Bcrypt) where
  pub record AppState : Type 0 where
    pub world : World p otps counters bcrypt
    pub users : List User
    pub deposits : List CourierCashDeposit

  -- The calls of the other services.
  abbrev pub in_shipments :
      {A : Type 0}
      → Action (World p otps counters bcrypt) trackora.Shipments.Status.Error A
      → Action AppState Error A
  in_shipments m s = elim (m s.world) [
    | ok a w ↦ ok a (record s { world = w })
    | err e w ↦ err (of_shipments e) (record s { world = w })
  ]

  abbrev pub in_assignments :
      {A : Type 0} → Action Db trackora.Assignments.Defs.Error A → Action AppState Error A
  in_assignments m s = elim (m s.world.db) [
    | ok a db ↦ ok a (record s { world = record s.world { db = db } })
    | err e db ↦ err (of_assignments e) (record s { world = record s.world { db = db } })
  ]

  unfoldable pub get_courier_for_user : ℕ → ℕ → Action AppState Error Courier
  get_courier_for_user user tenant = do
    found ← gets (λ s. p.find_first (courier_of_user user tenant) s.world.db.couriers)
    or_throw found courier_not_found

  -- After a terminal status, the active assignment of the shipment is completed, if there is one.
  unfoldable pub complete_task : ℕ → ℕ → ℕ → Bool → Action AppState Error (Unit {0})
  complete_task now shipment tenant false s = ok tt s
  complete_task now shipment tenant true s =
      elim (p.find_first (active_of shipment) s.world.db.assignments) [
        | none ↦ ok tt s
        | some a ↦ (in_assignments (complete_assignment p now a.id tenant) >> pure tt) s
      ]

  unfoldable pub update_task_status :
      ℕ → ℕ → ℕ → ℕ → ℕ → UpdateTaskStatusDto → ℕ → Action AppState Error Shipment
  unfolding get_courier_for_user
  update_task_status now salt drawn user shipment dto tenant = do
    courier ← get_courier_for_user user tenant
    found ← gets (λ s. p.find_first (task_of shipment courier.id tenant) s.world.db.shipments)
    task ← or_throw found not_assigned
    updated ← in_shipments (
        update_status p otps counters bcrypt now salt drawn shipment tenant (to_status_dto dto)
          (some user) (some UserRole.courier) false)
    complete_task now shipment tenant (closes dto.status)
    pure updated

  -- The check of the recipient, where one is given.
  unfoldable pub check_recipient : Option ℕ → ℕ → Action AppState Error (Unit {0})
  check_recipient none tenant = pure tt
  check_recipient (some id) tenant = do
    found ← gets (λ s. p.find_first (recipient id tenant) s.users)
    throw_if (not (is_some found)) recipient_not_found

  module _ (n : Numbers) where
    unfoldable pub deposit_body :
        Courier → CourierDepositDto n → ℕ → Action AppState Error CourierCashDeposit
    deposit_body courier dto tenant = do
      let deposit : CourierCashDeposit = record {
        courier_id = courier.id;
        amount = n.to_cents dto.amount;
        verified_by_user_id = dto.deposited_to;
      }
      modify (λ s. record s { deposits = p.create deposit s.deposits })
      found ← gets (λ s.
          p.update (courier_by_id courier.id tenant) (paid_in n dto.amount) s.world.db.couriers)
      written ← or_throw found record_not_found
      modify (λ s. record s {
        world = record s.world { db = record s.world.db { couriers = written.1 } };
      })
      pure deposit

    unfoldable pub log_deposit :
        ℕ → CourierDepositDto n → ℕ → Action AppState Error CourierCashDeposit
    unfolding get_courier_for_user check_recipient
    log_deposit user dto tenant = do
      courier ← get_courier_for_user user tenant
      check_recipient dto.deposited_to tenant
      throw_if (n.less (n.of_cents courier.cash_held) dto.amount) exceeds_cash_held
      p.transaction (deposit_body courier dto tenant)

  -- The count of an update that was tried: what it throws is caught.
  abbrev pub counted : SyncResult → Outcome AppState Error Shipment → SyncResult × AppState
  counted result (ok x s) = (record result { processed = suc result.processed }, s)
  counted result (err e s) = (record result { failed = suc result.failed }, s)

  -- One update of a synchronisation, with the times and passwords drawn for it.
  unfoldable pub sync_one :
      ℕ → ℕ → ℕ → ℕ → ℕ → ℕ → SyncUpdate → SyncResult → AppState → SyncResult × AppState
  sync_one now salt drawn user courier tenant update result s =
      elim (p.find_first (task_of update.shipment_id courier tenant) s.world.db.shipments) [
        | none ↦ (in_conflict update none result, s)
        | some task ↦
            if is_ahead task.status update.payload.status
            then (in_conflict update (some task.status) result, s)
            else counted result
                (update_task_status now salt drawn user update.shipment_id update.payload tenant s)
      ]

  unfoldable pub sync_all :
      ℕ
      → (ℕ → ℕ)
      → (ℕ → ℕ)
      → ℕ
      → ℕ
      → ℕ
      → ℕ
      → List SyncUpdate
      → SyncResult
      → AppState
      → SyncResult × AppState
  sync_all now salt drawn i user courier tenant [] result s = (result, s)
  sync_all now salt drawn i user courier tenant (update ∷ rest) result s =
      let (result', s') = sync_one now (salt i) (drawn i) user courier tenant update result s in
      sync_all now salt drawn (suc i) user courier tenant rest result' s'

  unfoldable pub sync_updates :
      ℕ → (ℕ → ℕ) → (ℕ → ℕ) → ℕ → List SyncUpdate → ℕ → Action AppState Error SyncResult
  unfolding get_courier_for_user
  sync_updates now salt drawn user updates tenant = do
    courier ← get_courier_for_user user tenant
    let start : SyncResult = record { processed = 0; failed = 0; conflicts = [] }
    outcome ← gets (sync_all now salt drawn 0 user courier.id tenant updates start)
    modify (λ _. outcome.1)
    pure outcome.0
