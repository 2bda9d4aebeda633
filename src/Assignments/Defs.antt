-- ===== src/Assignments/Defs.antt =====
-- modules/assignments/services/assignments.service.ts, with the methods of its repository that it
-- calls. `fresh` is the id that the database gives to a new row (`fresh i` for the shipment at
-- position i of a request), and `now` the time of `new Date()`. The events that are emitted and the
-- reasons for a cancellation are left out.
use trackora.Base.{
  ℕ, suc, Bool, Option, none, some, List, [], ◌∷◌, ok, err, Action, pure, gets, or_throw, modify,
  throw_if, ◌>>=◌, ◌>>◌, ◌==◌, ◌&&◌, ◌*◌, ◌/◌, ◌-◌, not, is_some, is_just, leb, ltb, length,
}
use trackora.Prisma.{Prisma}
use trackora.Model.{Db, Courier, Shipment, Assignment}
use trackora.Model.Enums.{
  ShipmentStatus, AssignmentStatus, AssignmentType, shipment_status_enum, assignment_status_enum,
  ◌===◌,
}

pub data Error : Type 0 where
  courier_not_found courier_not_active courier_unavailable at_capacity too_many : Error
  shipment_not_found not_pending already_assigned assignment_not_found not_active : Error
  record_not_found : Error

pub record CreateAssignmentDto : Type 0 where
  pub shipment_ids : List ℕ
  pub courier_id : ℕ
  pub type : AssignmentType

-- `Math.floor(courier.maxDailyCapacity * 0.9)`
abbrev pub effective_capacity : Courier → ℕ
effective_capacity courier = courier.max_daily_capacity * 9 / 10

abbrev pub courier_of : ℕ → ℕ → Courier → Bool
courier_of id tenant x = x.id == id && is_just tenant x.tenant_id && x.is_active

abbrev pub shipment_of : ℕ → ℕ → Shipment → Bool
shipment_of id tenant x = x.id == id && is_just tenant x.tenant_id

abbrev pub is_active : Assignment → Bool
is_active a = a.status === AssignmentStatus.active

-- `{ shipmentId, status: ACTIVE }`
abbrev pub active_of : ℕ → Assignment → Bool
active_of shipment a = a.shipment_id == shipment && is_active a

abbrev pub assigned_to : Option ℕ → Shipment → Shipment
assigned_to courier x = record x { assigned_courier_id = courier }

abbrev pub new_assignment : ℕ → ℕ → ℕ → Option ℕ → AssignmentType → Assignment
new_assignment fresh shipment courier user type = record {
  id = fresh;
  shipment_id = shipment;
  courier_id = courier;
  assigned_by_user_id = user;
  assignment_type = type;
  status = AssignmentStatus.active;
  completed_at = none;
  cancelled_at = none;
}

abbrev pub cancelled : ℕ → Assignment → Assignment
cancelled now a = record a { status = AssignmentStatus.cancelled; cancelled_at = some now }

abbrev pub completed : ℕ → Assignment → Assignment
completed now a = record a { status = AssignmentStatus.completed; completed_at = some now }

-- The outcome of the request for one of the shipments.
pub data Entry : Type 0 where
  assigned : Assignment → Entry
  failed : ℕ → Error → Entry

module _ (p : Prisma) where
  -- `shipment: { tenantId }`: the shipment of the assignment is of the tenant.
  abbrev pub in_tenant : ℕ → Db → Assignment → Bool
  in_tenant tenant db a = is_some (p.find_first (shipment_of a.shipment_id tenant) db.shipments)

  abbrev pub assignment_of : ℕ → ℕ → Db → Assignment → Bool
  assignment_of id tenant db a = a.id == id && in_tenant tenant db a

  unfoldable pub count_active : ℕ → ℕ → Db → ℕ
  count_active courier tenant db =
      p.count (λ (a : Assignment). a.courier_id == courier && is_active a && in_tenant tenant db a)
        db.assignments

  unfoldable pub find_courier : ℕ → ℕ → Action Db Error Courier
  find_courier id tenant = do
    found ← gets (λ db. p.find_first (courier_of id tenant) db.couriers)
    or_throw found courier_not_found

  unfoldable pub validate_courier_availability : Courier → Action Db Error (Unit {0})
  validate_courier_availability courier = do
    throw_if (not courier.is_active) courier_not_active
    throw_if (not courier.is_available) courier_unavailable

  unfoldable pub set_courier : ℕ → ℕ → Option ℕ → Action Db Error (Unit {0})
  set_courier shipment tenant courier = do
    found ← gets (λ db. p.update (shipment_of shipment tenant) (assigned_to courier) db.shipments)
    written ← or_throw found record_not_found
    modify (λ db. record db { shipments = written.1 })

  unfoldable pub create_assignment : Assignment → Action Db Error (Unit {0})
  create_assignment a = modify (λ db. record db { assignments = p.create a db.assignments })

  -- `assignment.update`, by its id, and by its id and tenant
  unfoldable pub update_assignment :
      (Db → Assignment → Bool) → (Assignment → Assignment) → Action Db Error Assignment
  update_assignment q f = do
    found ← gets (λ db. p.update (q db) f db.assignments)
    written ← or_throw found record_not_found
    modify (λ db. record db { assignments = written.1 })
    pure written.0

  unfoldable pub assign_body :
      ℕ → ℕ → ℕ → AssignmentType → ℕ → Option ℕ → Action Db Error Assignment
  unfolding create_assignment set_courier
  assign_body fresh shipment_id courier type tenant user = do
    found ← gets (λ db. p.find_first (shipment_of shipment_id tenant) db.shipments)
    shipment ← or_throw found shipment_not_found
    throw_if (not (shipment.status === ShipmentStatus.pending)) not_pending
    existing ← gets (λ db. p.find_first (active_of shipment_id) db.assignments)
    throw_if (is_some existing) already_assigned
    create_assignment (new_assignment fresh shipment_id courier user type)
    set_courier shipment_id tenant (some courier)
    pure (new_assignment fresh shipment_id courier user type)

  unfoldable pub assign_shipment :
      ℕ → ℕ → ℕ → AssignmentType → ℕ → Option ℕ → Action Db Error Assignment
  assign_shipment fresh shipment courier type tenant user =
      p.transaction (assign_body fresh shipment courier type tenant user)

  -- The loop over the shipments, in which an exception is caught and noted.
  unfoldable pub assign_all :
      (ℕ → ℕ) → ℕ → List ℕ → ℕ → AssignmentType → ℕ → Option ℕ → Db → List Entry × Db
  unfolding assign_shipment
  assign_all fresh i [] courier type tenant user db = ([], db)
  assign_all fresh i (shipment ∷ rest) courier type tenant user db =
      elim (assign_shipment (fresh i) shipment courier type tenant user db) [
        | ok a db' ↦
            let (entries, end) = assign_all fresh (suc i) rest courier type tenant user db' in
            (assigned a ∷ entries, end)
        | err e db' ↦
            let (entries, end) = assign_all fresh (suc i) rest courier type tenant user db' in
            (failed shipment e ∷ entries, end)
      ]

  unfoldable pub create_manual_assignments :
      (ℕ → ℕ) → CreateAssignmentDto → ℕ → Option ℕ → Action Db Error (List Entry)
  unfolding find_courier validate_courier_availability count_active assign_all
  create_manual_assignments fresh dto tenant user = do
    courier ← find_courier dto.courier_id tenant
    validate_courier_availability courier
    active_count ← gets (count_active dto.courier_id tenant)
    throw_if (leb (effective_capacity courier) active_count) at_capacity
    throw_if (ltb (effective_capacity courier - active_count) (length dto.shipment_ids)) too_many
    outcome ← gets (assign_all fresh 0 dto.shipment_ids dto.courier_id dto.type tenant user)
    modify (λ _. outcome.1)
    pure outcome.0

  unfoldable pub find_active : ℕ → ℕ → Action Db Error Assignment
  find_active id tenant = do
    found ← gets (λ db. p.find_first (assignment_of id tenant db) db.assignments)
    assignment ← or_throw found assignment_not_found
    throw_if (not (is_active assignment)) not_active
    pure assignment

  unfoldable pub reassign_body : ℕ → ℕ → Assignment → ℕ → ℕ → Option ℕ → Action Db Error Assignment
  unfolding update_assignment create_assignment set_courier
  reassign_body fresh now current courier tenant user = do
    update_assignment (λ _ a. a.id == current.id) (cancelled now)
    create_assignment (new_assignment fresh current.shipment_id courier user AssignmentType.manual)
    set_courier current.shipment_id tenant (some courier)
    pure (new_assignment fresh current.shipment_id courier user AssignmentType.manual)

  unfoldable pub reassign : ℕ → ℕ → ℕ → ℕ → ℕ → Option ℕ → Action Db Error Assignment
  unfolding find_active find_courier validate_courier_availability count_active
  reassign fresh now id new_courier_id tenant user = do
    current ← find_active id tenant
    courier ← find_courier new_courier_id tenant
    validate_courier_availability courier
    active_count ← gets (count_active new_courier_id tenant)
    throw_if (leb (effective_capacity courier) active_count) at_capacity
    p.transaction (reassign_body fresh now current new_courier_id tenant user)

  unfoldable pub cancel_body : ℕ → Assignment → ℕ → Action Db Error Assignment
  unfolding update_assignment set_courier
  cancel_body now current tenant = do
    updated ← update_assignment (assignment_of current.id tenant) (cancelled now)
    set_courier current.shipment_id tenant none
    pure updated

  unfoldable pub cancel : ℕ → ℕ → ℕ → Action Db Error Assignment
  unfolding find_active
  cancel now id tenant = do
    current ← find_active id tenant
    p.transaction (cancel_body now current tenant)

  unfoldable pub complete_assignment : ℕ → ℕ → ℕ → Action Db Error Assignment
  unfolding find_active update_assignment
  complete_assignment now id tenant = do
    current ← find_active id tenant
    update_assignment (assignment_of id tenant) (completed now)
