-- ===== src/Assignments/Active.antt =====
-- The active assignments of shipments, under the writes of
-- modules/assignments/services/assignments.service.ts.
use mathlib.Core.List.{Memᴰ}
use trackora.Base.{
  ℕ, ◌≡◌, ◌≢◌, refl, ap, ◌∙◌, Bool, true, false, some, Option, List, [], ◌∷◌, All, Ensures,
  Ensures-or_throw, Ensures-throw_if, Ensures-bind, arith, ==_iff, ◌==◌, not, is_some, Bool-cases,
  inl, inr,
}
use trackora.Prisma.{Prisma, change}
use trackora.Prisma.Rows.{IsUnique, change-IsUnique, transaction-Ensures, Unchanged, is_some-false}
use trackora.Prisma.Rivals.{AtMostOne, NoRival, live_eq, change-AtMostOne, All-change}
use trackora.Model.{Db, Assignment}
use trackora.Model.Enums.{ShipmentStatus, AssignmentType, shipment_status_enum, ◌===◌}
use trackora.Assignments.Defs.{
  Error, is_active, active_of, shipment_of, new_assignment, cancelled, assigned_to, set_courier,
  create_assignment, assign_body, assign_shipment,
}

abbrev pub assignment_id : Assignment → ℕ
assignment_id a = a.id

abbrev pub shipment_key : Assignment → ℕ
shipment_key a = a.shipment_id

-- Ids of assignments are unique, and no shipment has two active ones.
pub record IsValid (db : Db) : Type 0 where
  pub ids : IsUnique assignment_id db.assignments
  pub one_active : AtMostOne is_active shipment_key db.assignments

abbrev pub Kept : {A : Type 0} → A → Db → Type 0
Kept a db = IsValid db

-- What a body of a transaction leaves when it throws is dropped.
abbrev pub Dropped : Error → Db → Type 0
Dropped e db = Unit

none_active :
    (shipment : ℕ) (x : Assignment) (t : List Assignment)
    → x.shipment_id ≡ shipment
    → All (λ y. active_of shipment y ≡ false) t
    → NoRival is_active shipment_key x t
none_active shipment x [] e a o = tt
none_active shipment x (y ∷ t) e a o =
    (λ oy k. ground (arith, a.0, k, e, oy), none_active shipment x t e a.1 o)

-- Validity is a matter of the assignments alone.
pub IsValid-same : (db db' : Db) → db'.assignments ≡ db.assignments → IsValid db → IsValid db'
IsValid-same db db' e v = record { ids = rw e v.ids; one_active = rw e v.one_active }

-- A new assignment of a shipment that has no active one.
pub IsValid-new :
    (a : Assignment) (db db' : Db)
    → db'.assignments ≡ a ∷ db.assignments
    → All (λ (y : Assignment). y.id ≢ a.id) db.assignments
    → All (λ y. active_of a.shipment_id y ≡ false) db.assignments
    → IsValid db
    → IsValid db'
IsValid-new a db db' e new free v = record {
  ids = rw e (new, v.ids);
  one_active = rw e (none_active a.shipment_id a db.assignments refl free, v.one_active);
}

module _ (p : Prisma) where
  pub set_courier_lem :
      (shipment tenant : ℕ) (c : Option ℕ) (db : Db)
      → Ensures
          (λ _ db'. db'.assignments ≡ db.assignments)
          Dropped
          (set_courier p shipment tenant c db)
  unfolding set_courier
  set_courier_lem shipment tenant c db =
      Ensures-or_throw _ _ (p.update (shipment_of shipment tenant) (assigned_to c) db.shipments) _
        db _ (λ _. tt) λ written _. refl

  -- What an assignment of a shipment has found and written.
  abbrev pub Assigned : ℕ → ℕ → ℕ → AssignmentType → Option ℕ → Db → Assignment → Db → Type 0
  Assigned fresh shipment courier type user db a db' =
      (a ≡ new_assignment fresh shipment courier user type)
      × (db'.assignments ≡ new_assignment fresh shipment courier user type ∷ db.assignments)
      × All (λ y. active_of shipment y ≡ false) db.assignments

  assign_body_lem :
      (fresh shipment courier : ℕ) (type : AssignmentType) (tenant : ℕ) (user : Option ℕ) (db : Db)
      → Ensures
          (Assigned fresh shipment courier type user db)
          Dropped
          (assign_body p fresh shipment courier type tenant user db)
  unfolding assign_body create_assignment
  assign_body_lem fresh shipment courier type tenant user db =
      let a = new_assignment fresh shipment courier user type in
      let created : Db = record db { assignments = p.create a db.assignments } in
      Ensures-or_throw _ _ (p.find_first (shipment_of shipment tenant) db.shipments) _ db _
        (λ _. tt)
        λ s found.
          Ensures-throw_if _ _ (not (s.status === ShipmentStatus.pending)) _ db _ (λ _. tt)
            λ _.
              Ensures-throw_if _ _ (is_some (p.find_first (active_of shipment) db.assignments)) _ db
                _ (λ _. tt)
                λ free.
                  Ensures-bind _ _ (λ _ db'. db'.assignments ≡ created.assignments)
                    (set_courier p shipment tenant (some courier)) _ _
                    (set_courier_lem shipment tenant (some courier) created)
                    (λ _ _ k. (
                      refl,
                      k ∙ p.create-eq a db.assignments,
                      p.find_first-none (active_of shipment) db.assignments (is_some-false _ free),
                    ))

  pub assign_shipment_lem :
      (fresh shipment courier : ℕ) (type : AssignmentType) (tenant : ℕ) (user : Option ℕ) (db : Db)
      → Ensures
          (Assigned fresh shipment courier type user db)
          (Unchanged db)
          (assign_shipment p fresh shipment courier type tenant user db)
  unfolding assign_shipment
  assign_shipment_lem fresh shipment courier type tenant user db =
      transaction-Ensures p _ (assign_body p fresh shipment courier type tenant user) db
        (assign_body_lem fresh shipment courier type tenant user db)

  -- The change of an assignment to a status that is not active.
  pub ended-IsValid :
      (q : Assignment → Bool) (f : Assignment → Assignment)
      → ((y : Assignment) → (f y).id ≡ y.id)
      → ((y : Assignment) → (f y).shipment_id ≡ y.shipment_id)
      → ((y : Assignment) → is_active (f y) ≡ true → is_active y ≡ true)
      → (db : Db) → IsValid db
      → IsValid (record db { assignments = change q f db.assignments })
  ended-IsValid q f ids ships dead db v = record {
    ids = change-IsUnique assignment_id q f db.assignments ids v.ids;
    one_active = change-AtMostOne is_active shipment_key q f ships dead db.assignments v.one_active;
  }

  -- Once the active assignment of a shipment is cancelled, the shipment has none.
  pub freed :
      (now : ℕ) (x : Assignment) (t : List Assignment)
      → AtMostOne is_active shipment_key t
      → Memᴰ x t
      → is_active x ≡ true
      → All
          (λ y. active_of x.shipment_id y ≡ false)
          (change (λ (a : Assignment). a.id == x.id) (cancelled now) t)
  freed now x t u m on =
      All-change (λ (a : Assignment). a.id == x.id) (cancelled now)
        (λ y. active_of x.shipment_id y ≡ false) t
        λ y n. elim (Bool-cases (y.id == x.id)) [
          | inl e ↦ rw e (ground arith)
          | inr e ↦ rw e (elim (Bool-cases (active_of x.shipment_id y)) [
            | inl l ↦
                let same =
                  live_eq is_active shipment_key x y t u m n on (ground (arith, l))
                    (ground (arith, l)) in
                absurd (cc (e, (==_iff y.id x.id).1 (ap assignment_id same)))
            | inr l ↦ l
          ])
        ]
