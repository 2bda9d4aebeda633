-- ===== src/Assignments/Capacity.antt =====
-- The capacity of couriers in `createManualAssignments` of
-- modules/assignments/services/assignments.service.ts.
use trackora.Base.{
  ℕ, suc, ◌+◌, ◌-◌, ◌≤◌, ◌≡◌, refl, Bool, true, false, Option, some, List, [], ◌∷◌, Outcome, ok,
  err, Ensures, Ensures-or_throw, Ensures-throw_if, Ensures-bind, Ensures-throw_if_last, count_if,
  length, leb, ltb, not, arith,
}
use trackora.Prisma.{Prisma}
use trackora.Prisma.Rows.{Unchanged, not-false}
use trackora.Model.{Db, Courier, Assignment}
use trackora.Model.Enums.{AssignmentType}
use trackora.Assignments.Defs.{
  Error, CreateAssignmentDto, Entry, assigned, failed, effective_capacity, courier_of, count_active,
  find_courier, validate_courier_availability, assign_shipment, assign_all,
  create_manual_assignments,
}

abbrev pub is_assigned : Entry → Bool
is_assigned (assigned a) = true
is_assigned (failed id e) = false

room :
    (active size capacity made : ℕ)
    → leb capacity active ≡ false
    → ltb (capacity - active) size ≡ false
    → made ≤ size
    → active + made ≤ capacity
room active size capacity made h k le = ground (arith, h, k, le)

module _ (p : Prisma) where
  assigned_at_most :
      (fresh : ℕ → ℕ) (i : ℕ) (ids : List ℕ) (courier : ℕ) (type : AssignmentType) (tenant : ℕ)
      (user : Option ℕ) (db : Db)
      → count_if is_assigned (assign_all p fresh i ids courier type tenant user db).0 ≤ length ids
  unfolding assign_all
  assigned_at_most fresh i [] courier type tenant user db = omega arith
  assigned_at_most fresh i (id ∷ ids) courier type tenant user db =
      one (assign_shipment p (fresh i) id courier type tenant user db)
        (λ db'. assigned_at_most fresh (suc i) ids courier type tenant user db')
    where
      one :
          (o : Outcome Db Error Assignment)
          → ((db' : Db)
              → count_if is_assigned (assign_all p fresh (suc i) ids courier type tenant user db').0
                ≤ length ids)
          → count_if is_assigned
              (elim o as (λ _. List Entry × Db) [
                | ok a db' ↦
                    let (entries, end) =
                      assign_all p fresh (suc i) ids courier type tenant user db' in
                    (assigned a ∷ entries, end)
                | err e db' ↦
                    let (entries, end) =
                      assign_all p fresh (suc i) ids courier type tenant user db' in
                    (failed id e ∷ entries, end)
              ]).0
            ≤ suc (length ids)
      one (ok a db') h = omega (arith, h db')
      one (err x db') h = omega (arith, h db')

  -- What a request that returns has made of the capacity of its courier.
  abbrev pub WithinCapacity : CreateAssignmentDto → ℕ → Db → List Entry → Db → Type 0
  WithinCapacity dto tenant db entries db' =
      (c : Courier) × (p.find_first (courier_of dto.courier_id tenant) db.couriers ≡ some c)
      × (c.is_available ≡ true)
      × (count_active p dto.courier_id tenant db + count_if is_assigned entries
          ≤ effective_capacity c)

  -- A request for assignments that returns is for a courier on record who is available, and the
  -- shipments that it assigns, together with those that the courier had, are within nine tenths of
  -- his daily capacity. A request that throws has changed nothing.
  pub create_manual_assignments-WithinCapacity :
      (fresh : ℕ → ℕ) (dto : CreateAssignmentDto) (tenant : ℕ) (user : Option ℕ) (db : Db)
      → Ensures
          (WithinCapacity dto tenant db)
          (Unchanged db)
          (create_manual_assignments p fresh dto tenant user db)
  unfolding create_manual_assignments find_courier validate_courier_availability
  create_manual_assignments-WithinCapacity fresh dto tenant user db =
      Ensures-or_throw _ _ (p.find_first (courier_of dto.courier_id tenant) db.couriers) _ db _
        (λ _. refl)
        λ c found.
          Ensures-bind _ _ (λ _ db'. (db' ≡ db) × (not c.is_available ≡ false))
            (validate_courier_availability p c) _ db
            (Ensures-throw_if _ _ (not c.is_active) _ db _ (λ _. refl)
              λ _. Ensures-throw_if_last _ _ (not c.is_available) _ db (λ _. refl) (λ h. (refl, h)))
            λ _ db' (e, on). rw e (
              Ensures-throw_if _ _
                (leb (effective_capacity c) (count_active p dto.courier_id tenant db)) _ db _
                (λ _. refl)
                λ free.
                  Ensures-throw_if _ _
                    (ltb (effective_capacity c - count_active p dto.courier_id tenant db)
                      (length dto.shipment_ids))
                    _ db _ (λ _. refl)
                    λ fits. (
                      c,
                      found,
                      not-false _ on,
                      room (count_active p dto.courier_id tenant db) (length dto.shipment_ids)
                          (effective_capacity c) _ free fits
                          (assigned_at_most fresh 0 dto.shipment_ids dto.courier_id dto.type tenant
                            user db),
                    ))
