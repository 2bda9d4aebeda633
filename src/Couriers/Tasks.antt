-- ===== src/Couriers/Tasks.antt =====
-- `updateTaskStatus` of modules/couriers/services/courier-app.service.ts: a shipment's status and its
-- assignment.
use trackora.Base.{
  ℕ, ◌≡◌, refl, ap, subst, true, false, some, All, Outcome, ok, err, Action, Ensures,
  Ensures-or_throw, Ensures-bind, Ensures-map, Bool-cases, Option-cases, inl, inr, arith, ◌>>◌,
  pure,
}
use trackora.Prisma.{Prisma, change}
use trackora.Prisma.Rows.{mem_eq}
use trackora.Prisma.Rivals.{live_eq, All-change}
use trackora.External.{Cache, Counters, Bcrypt}
use trackora.Model.{Db, Courier, Shipment, Assignment}
use trackora.Model.Enums.{UserRole}
use trackora.Shipments.Status.{World, update_status}
use trackora.Shipments.Status.Effects.{Done, update_status-Ensures}
use trackora.Assignments.Defs.{is_active, active_of, assignment_of, completed, complete_assignment}
use trackora.Assignments.Active.{assignment_id, shipment_key, IsValid}
use trackora.Assignments.Runs.{complete_assignment_lem}
use trackora.Couriers.App.{
  AppState, UpdateTaskStatusDto, Error, courier_of_user, task_of, to_status_dto, closes,
  in_shipments, in_assignments, get_courier_for_user, complete_task, update_task_status,
}

module _ (p : Prisma) where
  -- Once its active assignment is completed, a shipment has none.
  completed-active_of :
      (now shipment tenant : ℕ) (a x : Assignment) (db : Db)
      → IsValid db
      → p.find_first (active_of shipment) db.assignments ≡ some a
      → p.find_first (assignment_of p a.id tenant db) db.assignments ≡ some x
      → All
          (λ y. active_of shipment y ≡ false)
          (change (assignment_of p a.id tenant db) (completed now) db.assignments)
  completed-active_of now shipment tenant a x db v found known =
      let t = db.assignments in
      let q = assignment_of p a.id tenant db in
      let (m, c) = p.find_first-some (active_of shipment) t a found in
      let (n, d) = p.find_first-some q t x known in
      let same : x ≡ a = mem_eq assignment_id a x t v.ids m n (ground (arith, d)) in
      let hit : q a ≡ true = subst (λ z. q z ≡ true) same d in
      All-change q (completed now) (λ y. active_of shipment y ≡ false) t
        λ y l. elim (Bool-cases (q y)) [
          | inl e ↦ rw e (ground arith)
          | inr e ↦ rw e (elim (Bool-cases (active_of shipment y)) [
            | inl on ↦
                let one =
                  live_eq is_active shipment_key a y t v.one_active m l (ground (arith, c))
                    (ground (arith, on)) (ground (arith, c, on)) in
                absurd (cc (e, ap q one, hit))
            | inr off ↦ off
          ])
        ]

module _ (p : Prisma) (otps : Cache ℕ) (counters : Counters) (bcrypt : Bcrypt) where
  abbrev State : Type 0
  State = AppState p otps counters bcrypt

  abbrev Dropped : {A : Type 0} → A → State → Type 0
  Dropped e s = Unit {0}

  in_shipments-Ensures :
      {A : Type 0} (Q : A → World p otps counters bcrypt → Type 0)
      (X : trackora.Shipments.Status.Error → World p otps counters bcrypt → Type 0)
      (m : Action (World p otps counters bcrypt) trackora.Shipments.Status.Error A) (s : State)
      → Ensures Q X (m s.world)
      → Ensures
          (λ a s'. Q a s'.world × (s' ≡ record s { world = s'.world }))
          Dropped
          (in_shipments p otps counters bcrypt m s)
  in_shipments-Ensures {A = A} Q X m s h = after (m s.world) h
    where
      after :
          (o : Outcome (World p otps counters bcrypt) trackora.Shipments.Status.Error A)
          → Ensures Q X o
          → Ensures
              (λ a s'. Q a s'.world × (s' ≡ record s { world = s'.world }))
              Dropped
              (elim o [
                | ok a w ↦ ok a (record s { world = w })
                | err e w ↦ err (trackora.Couriers.App.of_shipments e) (record s { world = w })
              ])
      after (ok a w) q = (q, refl)
      after (err e w) x = tt

  in_assignments-Ensures :
      {A : Type 0} (P : A → Db → Type 0) (m : Action Db trackora.Assignments.Defs.Error A)
      (s : State)
      → Ensures P (λ _ _. Unit {0}) (m s.world.db)
      → Ensures (λ a s'. P a s'.world.db) Dropped (in_assignments p otps counters bcrypt m s)
  in_assignments-Ensures {A = A} P m s h = after (m s.world.db) h
    where
      after :
          (o : Outcome Db trackora.Assignments.Defs.Error A)
          → Ensures P (λ _ _. Unit {0}) o
          → Ensures {E = Error}
              (λ a s'. P a s'.world.db)
              Dropped
              (elim o [
                | ok a db ↦ ok a (record s { world = record s.world { db = db } })
                | err e db ↦
                    err
                      (trackora.Couriers.App.of_assignments e)
                      (record s { world = record s.world { db = db } })
              ])
      after (ok a db) q = q
      after (err e db) x = tt

  -- The shipment has no active assignment, and is as it was before the completion.
  abbrev Freed : ℕ → State → Unit {0} → State → Type 0
  Freed shipment s _ s' =
      All (λ y. active_of shipment y ≡ false) s'.world.db.assignments
      × (s'.world.db.shipments ≡ s.world.db.shipments)

  completion :
      (now shipment tenant : ℕ) (a : Assignment) (s : State)
      → IsValid s.world.db
      → p.find_first (active_of shipment) s.world.db.assignments ≡ some a
      → Ensures (Freed shipment s) Dropped (
          (in_assignments p otps counters bcrypt (complete_assignment p now a.id tenant) >> pure tt)
            s)
  completion now shipment tenant a s v found =
      Ensures-bind _ _ (λ _ s'. Freed shipment s tt s')
        (in_assignments p otps counters bcrypt (complete_assignment p now a.id tenant)) _ s
        (in_assignments-Ensures
          (λ _ t.
            All (λ y. active_of shipment y ≡ false) t.assignments
            × (t.shipments ≡ s.world.db.shipments))
          (complete_assignment p now a.id tenant) s
          (Ensures-map _ _ _ _ (complete_assignment p now a.id tenant s.world.db)
            (λ _ t (x, known, e).
              rw e (completed-active_of p now shipment tenant a x s.world.db v found known, refl))
            (λ _ _ _. tt) (complete_assignment_lem p now a.id tenant s.world.db)))
        (λ _ s' h. h)

  complete_task-Freed :
      (now shipment tenant : ℕ) (s : State)
      → IsValid s.world.db
      → Ensures
          (Freed shipment s)
          Dropped
          (complete_task p otps counters bcrypt now shipment tenant true s)
  unfolding complete_task
  complete_task-Freed now shipment tenant s v =
      elim (Option-cases (p.find_first (active_of shipment) s.world.db.assignments)) [
        | inl e ↦
            rw (e, complete_task)
              (p.find_first-none (active_of shipment) s.world.db.assignments e, refl)
        | inr (a, e) ↦ rw (e, complete_task) (completion now shipment tenant a s v e)
      ]

  -- What an update of a task that ends it has found and done.
  pub record Ended (now salt drawn user shipment tenant : ℕ) (dto : UpdateTaskStatusDto) (s : State)
      (x : Shipment) (s' : State) : Type 0 where
    pub courier : Courier
    pub task : Shipment
    pub found : p.find_first (courier_of_user user tenant) s.world.db.couriers ≡ some courier
    pub assigned :
        p.find_first (task_of shipment courier.id tenant) s.world.db.shipments ≡ some task
    pub world : World p otps counters bcrypt
    pub done :
        Done p otps counters bcrypt now salt drawn shipment tenant
          (to_status_dto dto)
          false
          s.world
          x
          world
    pub kept : s'.world.db.shipments ≡ world.db.shipments
    pub none_active : All (λ y. active_of shipment y ≡ false) s'.world.db.assignments

  -- Where ids of assignments are unique and no shipment has two active ones: an update of a task to
  -- DELIVERED, RETURNED or CANCELLED that returns was made by the active courier to whom the shipment
  -- is assigned, with all that updateStatus asks for and does without override, and leaves the
  -- shipment without an active assignment.
  pub update_task_status-Ended :
      (now salt drawn user shipment tenant : ℕ) (dto : UpdateTaskStatusDto) (s : State)
      → IsValid s.world.db
      → closes dto.status ≡ true
      → Ensures
          (Ended now salt drawn user shipment tenant dto s)
          Dropped
          (update_task_status p otps counters bcrypt now salt drawn user shipment dto tenant s)
  unfolding update_task_status get_courier_for_user
  update_task_status-Ended now salt drawn user shipment tenant dto s v last =
      Ensures-or_throw _ _ (p.find_first (courier_of_user user tenant) s.world.db.couriers) _ s _
        (λ _. tt)
        λ c found.
          Ensures-or_throw _ _ (p.find_first (task_of shipment c.id tenant) s.world.db.shipments) _
            s _ (λ _. tt)
            λ task assigned.
              Ensures-bind _ _ _
                (in_shipments p otps counters bcrypt (
                  update_status p otps counters bcrypt now salt drawn shipment tenant
                    (to_status_dto dto) (some user) (some UserRole.courier) false))
                _ s
                (in_shipments-Ensures _ _
                  (update_status p otps counters bcrypt now salt drawn shipment tenant
                    (to_status_dto dto) (some user) (some UserRole.courier) false)
                  s
                  (update_status-Ensures p otps counters bcrypt now salt drawn shipment tenant
                    (to_status_dto dto) (some user) (some UserRole.courier) false s.world))
                λ x s1 (done, _). rw last (
                  Ensures-bind _ _ (Freed shipment s1)
                    (complete_task p otps counters bcrypt now shipment tenant true) _ s1
                    (complete_task-Freed now shipment tenant s1 (record {
                      ids = rw done.others.1 v.ids;
                      one_active = rw done.others.1 v.one_active;
                    }))
                    λ _ s' h. record {
                      courier = c;
                      task = task;
                      found = found;
                      assigned = assigned;
                      world = s1.world;
                      done = done;
                      kept = h.1;
                      none_active = h.0;
                    })
