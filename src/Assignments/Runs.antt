-- ===== src/Assignments/Runs.antt =====
-- Runs of modules/assignments/services/assignments.service.ts.
use mathlib.Core.List.{Memᴰ}
use trackora.Base.{
  ℕ, suc, ◌≤◌, ◌≡◌, ◌≢◌, refl, sym, ap, ◌∙◌, Bool, true, Option, none, some, List, [], ◌∷◌, All,
  Outcome, ok, err, Ensures, Ensures-or_throw, Ensures-throw_if, Ensures-throw_if_last,
  Ensures-bind, Ensures-ok, Ensures-mono, Ensures-map, Option-cases, Bool-cases, arith, ◌==◌, not,
  leb, ltb, ◌-◌, length, inl, inr,
}
use trackora.Prisma.{Prisma, change}
use trackora.Prisma.Rows.{All-mem, Unchanged, transaction-Ensures, not-false}
use trackora.Prisma.Rivals.{All-change}
use trackora.Model.{Db, Courier, Assignment}
use trackora.Model.Enums.{AssignmentType}
use trackora.Assignments.Defs.{
  Error, CreateAssignmentDto, Entry, assigned, failed, effective_capacity, courier_of, is_active,
  new_assignment, cancelled, completed, assignment_of, count_active, find_courier,
  validate_courier_availability, update_assignment, create_assignment, set_courier, assign_shipment,
  assign_all, create_manual_assignments, find_active, reassign_body, reassign, cancel_body, cancel,
  complete_assignment,
}
use trackora.Assignments.Active.{
  IsValid, Kept, Dropped, IsValid-same, IsValid-new, Assigned, set_courier_lem, assign_shipment_lem,
  ended-IsValid, freed,
}

-- The ids for new rows, from position `i` on, are not in use, and each is used once.
abbrev pub IsFresh : (ℕ → ℕ) → ℕ → Db → Type 0
IsFresh fresh i db = (j : ℕ) → i ≤ j → All (λ (y : Assignment). y.id ≢ fresh j) db.assignments

abbrev pub IsInjective : (ℕ → ℕ) → Type 0
IsInjective fresh = (i j : ℕ) → fresh i ≡ fresh j → i ≡ j

module _ (p : Prisma) where
  assign_all-IsValid :
      (fresh : ℕ → ℕ)
      → IsInjective fresh
      → (i : ℕ) (ids : List ℕ) (courier : ℕ) (type : AssignmentType) (tenant : ℕ) (user : Option ℕ)
        (db : Db)
      → IsFresh fresh i db
      → IsValid db
      → IsValid (assign_all p fresh i ids courier type tenant user db).1
  unfolding assign_all
  assign_all-IsValid fresh inj i [] courier type tenant user db new v = v
  assign_all-IsValid fresh inj i (id ∷ ids) courier type tenant user db new v =
      one (assign_shipment p (fresh i) id courier type tenant user db)
        (assign_shipment_lem p (fresh i) id courier type tenant user db)
        (λ db'. assign_all-IsValid fresh inj (suc i) ids courier type tenant user db')
    where
      one :
          (o : Outcome Db Error Assignment)
          → Ensures (Assigned p (fresh i) id courier type user db) (Unchanged db) o
          → ((db' : Db)
              → IsFresh fresh (suc i) db'
              → IsValid db'
              → IsValid (assign_all p fresh (suc i) ids courier type tenant user db').1)
          → IsValid
              (elim o as (λ _. List Entry × Db) [
                | ok a db' ↦
                    let (entries, end) =
                      assign_all p fresh (suc i) ids courier type tenant user db' in
                    (assigned a ∷ entries, end)
                | err e db' ↦
                    let (entries, end) =
                      assign_all p fresh (suc i) ids courier type tenant user db' in
                    (failed id e ∷ entries, end)
              ]).1
      one (ok a db') (ea, e, free) rest =
          rest db' (λ j le. rw e ((λ h. omega (arith, inj i j h, le)), new j (omega (arith, le))))
            (IsValid-new (new_assignment (fresh i) id courier user type) db db' e
              (new i (omega arith)) free v)
      one (err x db') e rest = rest db' (λ j le. rw e (new j (omega (arith, le)))) (rw e v)

  -- The courier that a request names can take more, and nothing has changed.
  available_lem :
      (courier : Courier) (db : Db)
      → Ensures (λ _ db'. db' ≡ db) (Unchanged db) (validate_courier_availability p courier db)
  unfolding validate_courier_availability
  available_lem courier db =
      Ensures-throw_if _ _ (not courier.is_active) _ db _ (λ _. refl)
        λ _. Ensures-throw_if_last _ _ (not courier.is_available) _ db (λ _. refl) (λ _. refl)

  create_manual_assignments-Kept :
      (fresh : ℕ → ℕ)
      → IsInjective fresh
      → (dto : CreateAssignmentDto) (tenant : ℕ) (user : Option ℕ) (db : Db) → IsFresh fresh 0 db
      → IsValid db
      → Ensures Kept (Unchanged db) (create_manual_assignments p fresh dto tenant user db)
  unfolding create_manual_assignments find_courier
  create_manual_assignments-Kept fresh inj dto tenant user db new v =
      Ensures-or_throw _ _ (p.find_first (courier_of dto.courier_id tenant) db.couriers) _ db _
        (λ _. refl)
        λ c _.
          Ensures-bind _ _ (λ _ db'. db' ≡ db) (validate_courier_availability p c) _ db
            (available_lem c db)
            λ _ db' e. rw e (
              Ensures-throw_if _ _
                (leb (effective_capacity c) (count_active p dto.courier_id tenant db)) _ db _
                (λ _. refl)
                λ _.
                  Ensures-throw_if _ _
                    (ltb (effective_capacity c - count_active p dto.courier_id tenant db)
                      (length dto.shipment_ids))
                    _ db _ (λ _. refl)
                    λ _.
                      assign_all-IsValid fresh inj 0 dto.shipment_ids dto.courier_id dto.type tenant
                        user db new v)

  -- The active assignment that a request names.
  abbrev Found : ℕ → ℕ → Db → Assignment → Db → Type 0
  Found id tenant db a db' =
      (p.find_first (assignment_of p id tenant db) db.assignments ≡ some a)
      × (is_active a ≡ true)
      × (db' ≡ db)

  find_active_lem :
      (id tenant : ℕ) (db : Db)
      → Ensures (Found id tenant db) (Unchanged db) (find_active p id tenant db)
  unfolding find_active
  find_active_lem id tenant db =
      Ensures-or_throw _ _ (p.find_first (assignment_of p id tenant db) db.assignments) _ db _
        (λ _. refl)
        λ a found.
          Ensures-throw_if _ _ (not (is_active a)) _ db _ (λ _. refl)
            λ on. (found, not-false _ on, refl)

  -- An update that finds its row writes it, and one that does not throws.
  abbrev Updated : (Assignment → Bool) → (Assignment → Assignment) → Db → Assignment → Db → Type 0
  Updated q f db a db' = db' ≡ record db { assignments = change q f db.assignments }

  update_assignment_lem :
      (q : Db → Assignment → Bool) (f : Assignment → Assignment) (db : Db)
      → Ensures (Updated (q db) f db) (Unchanged db) (update_assignment p q f db)
  unfolding update_assignment
  update_assignment_lem q f db =
      Ensures-or_throw _ _ (p.update (q db) f db.assignments) _ db _ (λ _. refl)
        λ written e. elim (Option-cases (p.find_first (q db) db.assignments)) [
          | inl missed ↦ absurd (cc (p.update-none (q db) f db.assignments missed, e))
          | inr (x, found) ↦
              ap (λ t. record db { assignments = t })
                (rows written _ (sym e ∙ p.update-some (q db) f db.assignments x found))
        ]
    where
      rows : (a b : Assignment × List Assignment) → some a ≡ some b → a.1 ≡ b.1
      rows a b h = cc

  -- A completion that returns has found an assignment by its id and tenant, and completed it.
  pub complete_assignment_lem :
      (now id tenant : ℕ) (db : Db)
      → Ensures
          (λ _ t.
            (x : Assignment) × (p.find_first (assignment_of p id tenant db) db.assignments ≡ some x)
            × (t ≡ record db {
              assignments = change (assignment_of p id tenant db) (completed now) db.assignments;
            }))
          (Unchanged db)
          (complete_assignment p now id tenant db)
  unfolding complete_assignment
  complete_assignment_lem now id tenant db =
      Ensures-bind _ _ (Found id tenant db) (find_active p id tenant) _ db
        (find_active_lem id tenant db)
        λ a db' (f, on, e). rw e (
          Ensures-mono _ _ (Unchanged db)
            (update_assignment p (assignment_of p id tenant) (completed now) db)
            (λ _ t h. (a, f, h))
            (update_assignment_lem (assignment_of p id tenant) (completed now) db))

  complete_assignment-Kept :
      (now id tenant : ℕ) (db : Db)
      → IsValid db
      → Ensures Kept (Unchanged db) (complete_assignment p now id tenant db)
  complete_assignment-Kept now id tenant db v =
      Ensures-mono _ Kept (Unchanged db) (complete_assignment p now id tenant db)
        (λ _ t (x, f, h). rw h (
          ended-IsValid p (assignment_of p id tenant db) (completed now) (λ _. refl) (λ _. refl)
            (λ _ h'. cc h') db v))
        (complete_assignment_lem now id tenant db)

  cancel_body-Kept :
      (now : ℕ) (a : Assignment) (tenant : ℕ) (db : Db)
      → IsValid db
      → Ensures Kept Dropped (cancel_body p now a tenant db)
  unfolding cancel_body
  cancel_body-Kept now a tenant db v =
      Ensures-bind _ _ (Updated (assignment_of p a.id tenant db) (cancelled now) db)
        (update_assignment p (assignment_of p a.id tenant) (cancelled now)) _ db
        (Ensures-map (Updated (assignment_of p a.id tenant db) (cancelled now) db) _ (Unchanged db)
          Dropped (update_assignment p (assignment_of p a.id tenant) (cancelled now) db)
          (λ _ _ h. h) (λ _ _ _. tt)
          (update_assignment_lem (assignment_of p a.id tenant) (cancelled now) db))
        λ _ db' e. rw e (
          Ensures-bind _ _
            (λ _ t.
              t.assignments
              ≡ change (assignment_of p a.id tenant db) (cancelled now) db.assignments)
            (set_courier p a.shipment_id tenant none) _ _
            (set_courier_lem p a.shipment_id tenant none _)
            (λ _ t k. IsValid-same _ t k (
              ended-IsValid p (assignment_of p a.id tenant db) (cancelled now) (λ _. refl)
                (λ _. refl) (λ _ h'. cc h') db v)))

  cancel-Kept :
      (now id tenant : ℕ) (db : Db)
      → IsValid db
      → Ensures Kept (Unchanged db) (cancel p now id tenant db)
  unfolding cancel
  cancel-Kept now id tenant db v =
      Ensures-bind _ _ (Found id tenant db) (find_active p id tenant) _ db
        (find_active_lem id tenant db)
        λ a db' (f, on, e). rw e (
          transaction-Ensures p Kept (cancel_body p now a tenant) db
            (cancel_body-Kept now a tenant db v))

  kept_new :
      (fresh now : ℕ) (q : Assignment → Bool) (t : List Assignment)
      → All (λ (y : Assignment). y.id ≢ fresh) t
      → All (λ (y : Assignment). y.id ≢ fresh) (change q (cancelled now) t)
  kept_new fresh now q t new =
      All-change q (cancelled now) (λ (y : Assignment). y.id ≢ fresh) t
        λ y m. elim (Bool-cases (q y)) [
          | inl e ↦ rw e (All-mem (λ (z : Assignment). z.id ≢ fresh) t new m)
          | inr e ↦ rw e (All-mem (λ (z : Assignment). z.id ≢ fresh) t new m)
        ]

  reassign_body-Kept :
      (fresh now : ℕ) (a : Assignment) (courier tenant : ℕ) (user : Option ℕ) (db : Db)
      → IsValid db
      → All (λ (y : Assignment). y.id ≢ fresh) db.assignments
      → Memᴰ a db.assignments
      → is_active a ≡ true
      → Ensures Kept Dropped (reassign_body p fresh now a courier tenant user db)
  unfolding reassign_body create_assignment
  reassign_body-Kept fresh now a courier tenant user db v new m on =
      let q : Assignment → Bool = λ x. x.id == a.id in
      let n = new_assignment fresh a.shipment_id courier user AssignmentType.manual in
      let db1 : Db = record db { assignments = change q (cancelled now) db.assignments } in
      let db2 : Db = record db1 { assignments = p.create n db1.assignments } in
      Ensures-bind _ _ (Updated q (cancelled now) db) (update_assignment p (λ _. q) (cancelled now))
        _ db
        (Ensures-map (Updated q (cancelled now) db) _ (Unchanged db) Dropped
          (update_assignment p (λ _. q) (cancelled now) db) (λ _ _ h. h) (λ _ _ _. tt)
          (update_assignment_lem (λ _. q) (cancelled now) db))
        λ _ db' e. rw e (
          Ensures-bind _ _ (λ _ t. t.assignments ≡ db2.assignments)
            (set_courier p a.shipment_id tenant (some courier)) _ _
            (set_courier_lem p a.shipment_id tenant (some courier) db2)
            (λ _ t k.
              IsValid-new n db1 t (k ∙ p.create-eq n db1.assignments)
                (kept_new fresh now q db.assignments new)
                (freed p now a db.assignments v.one_active m on)
                (ended-IsValid p q (cancelled now) (λ _. refl) (λ _. refl) (λ _ h'. cc h') db v)))

  reassign-Kept :
      (fresh now id courier tenant : ℕ) (user : Option ℕ) (db : Db)
      → IsValid db
      → All (λ (y : Assignment). y.id ≢ fresh) db.assignments
      → Ensures Kept (Unchanged db) (reassign p fresh now id courier tenant user db)
  unfolding reassign find_courier
  reassign-Kept fresh now id courier tenant user db v new =
      Ensures-bind _ _ (Found id tenant db) (find_active p id tenant) _ db
        (find_active_lem id tenant db)
        λ a db' (f, on, e). rw e (
          Ensures-or_throw _ _ (p.find_first (courier_of courier tenant) db.couriers) _ db _
            (λ _. refl)
            λ c _.
              Ensures-bind _ _ (λ _ db'. db' ≡ db) (validate_courier_availability p c) _ db
                (available_lem c db)
                λ _ db'' e'. rw e' (
                  Ensures-throw_if _ _
                    (leb (effective_capacity c) (count_active p courier tenant db)) _ db _
                    (λ _. refl)
                    λ _.
                      transaction-Ensures p Kept (reassign_body p fresh now a courier tenant user)
                        db
                        (reassign_body-Kept fresh now a courier tenant user db v new
                          (p.find_first-some _ _ _ f).0 on)))

  -- One call that returns. The database gives new rows ids that are not in use.
  pub data Step (s t : Db) : Type 0 where
    assignment :
        (fresh : ℕ → ℕ) (dto : CreateAssignmentDto) (tenant : ℕ) (user : Option ℕ) (x : List Entry)
        → IsInjective fresh
        → IsFresh fresh 0 s
        → create_manual_assignments p fresh dto tenant user s ≡ ok x t
        → Step s t
    reassignment :
        (fresh now id courier tenant : ℕ) (user : Option ℕ) (x : Assignment)
        → All (λ (y : Assignment). y.id ≢ fresh) s.assignments
        → reassign p fresh now id courier tenant user s ≡ ok x t
        → Step s t
    cancellation :
        (now id tenant : ℕ) (x : Assignment) → cancel p now id tenant s ≡ ok x t → Step s t
    completion :
        (now id tenant : ℕ) (x : Assignment)
        → complete_assignment p now id tenant s ≡ ok x t
        → Step s t

  pub data Reach (s : Db) : Db → Type 0 where
    here : Reach s s
    next : {t u : Db} → Reach s t → Step t u → Reach s u

  Step-Kept : (s t : Db) → IsValid s → Step s t → IsValid t
  Step-Kept s t v (assignment fresh dto tenant user x inj new h) =
      Ensures-ok Kept (Unchanged s) _ h
        (create_manual_assignments-Kept fresh inj dto tenant user s new v)
  Step-Kept s t v (reassignment fresh now id courier tenant user x new h) =
      Ensures-ok Kept (Unchanged s) _ h (reassign-Kept fresh now id courier tenant user s v new)
  Step-Kept s t v (cancellation now id tenant x h) =
      Ensures-ok Kept (Unchanged s) _ h (cancel-Kept now id tenant s v)
  Step-Kept s t v (completion now id tenant x h) =
      Ensures-ok Kept (Unchanged s) _ h (complete_assignment-Kept now id tenant s v)

  -- From tables in which the ids of assignments are unique and no shipment has two active
  -- assignments, after any number of requests for assignments, reassignments, cancellations and
  -- completions, that still holds.
  pub Reach-one_active : {s t : Db} → IsValid s → Reach s t → IsValid t
  Reach-one_active v here = v
  Reach-one_active v (next r st) = Step-Kept _ _ (Reach-one_active v r) st
