-- ===== src/Couriers/Sync.antt =====
-- `syncUpdates` of modules/couriers/services/courier-app.service.ts: what becomes of the updates.
use trackora.Base.{
  ◌>>=◌, or_throw, ℕ, suc, ◌+◌, ◌≡◌, refl, ◌∙◌, Option, none, some, List, [], ◌∷◌, Outcome, ok, err,
  length, length-append, arith, Bool-cases, inl, inr, Option-cases,
}
use trackora.Prisma.{Prisma}
use trackora.External.{Cache, Counters, Bcrypt}
use trackora.Model.{Courier, Shipment}
use trackora.Model.Enums.{ShipmentStatus}
use trackora.Couriers.App.{
  in_conflict, counted, AppState, SyncUpdate, SyncResult, Error, courier_of_user, task_of, is_ahead,
  get_courier_for_user, sync_one, sync_all, sync_updates,
}

abbrev pub total : SyncResult → ℕ
total r = r.processed + r.failed + length r.conflicts

total-in_conflict :
    (u : SyncUpdate) (server : Option ShipmentStatus) (r : SyncResult)
    → total (in_conflict u server r) ≡ suc (total r)
total-in_conflict u server r = omega (
  arith,
  length-append r.conflicts (
      record {
        update_id = u.id;
        shipment_id = u.shipment_id;
        server_status = server;
        local_status = u.payload.status;
      }
      ∷ []),
)

module _ (p : Prisma) (otps : Cache ℕ) (counters : Counters) (bcrypt : Bcrypt) where
  abbrev State : Type 0
  State = AppState p otps counters bcrypt

  total-counted :
      (r : SyncResult) (o : Outcome State Error Shipment)
      → total (counted p otps counters bcrypt r o).0 ≡ suc (total r)
  total-counted r (ok x s) = omega arith
  total-counted r (err e s) = omega arith

  one_counted :
      (now salt drawn user courier tenant : ℕ) (u : SyncUpdate) (r : SyncResult) (s : State)
      → total (sync_one p otps counters bcrypt now salt drawn user courier tenant u r s).0
        ≡ suc (total r)
  unfolding sync_one
  one_counted now salt drawn user courier tenant u r s =
      elim (Option-cases
        (p.find_first (task_of u.shipment_id courier tenant) s.world.db.shipments)) [
          | inl e ↦ rw (e, sync_one) (total-in_conflict u none r)
          | inr (task, e) ↦ elim (Bool-cases (is_ahead task.status u.payload.status)) [
            | inl late ↦ rw (e, sync_one, late) (total-in_conflict u (some task.status) r)
            | inr early ↦ rw (e, sync_one, early) (total-counted r _)
          ]
        ]

  updates_counted :
      (now : ℕ) (salt drawn : ℕ → ℕ) (i user courier tenant : ℕ) (us : List SyncUpdate)
      (r : SyncResult) (s : State)
      → total (sync_all p otps counters bcrypt now salt drawn i user courier tenant us r s).0
        ≡ total r + length us
  unfolding sync_all
  updates_counted now salt drawn i user courier tenant [] r s = omega arith
  updates_counted now salt drawn i user courier tenant (u ∷ us) r s =
      updates_counted now salt drawn (suc i) user courier tenant us _ _
      ∙ omega (arith, one_counted now (salt i) (drawn i) user courier tenant u r s)

  -- Where the courier of the user is found, a synchronisation returns, whatever becomes of its
  -- updates, and each of them is counted once: as processed, failed or in conflict.
  pub sync_updates_counts :
      (now : ℕ) (salt drawn : ℕ → ℕ) (user : ℕ) (us : List SyncUpdate) (tenant : ℕ) (s : State)
      (c : Courier)
      → p.find_first (courier_of_user user tenant) s.world.db.couriers ≡ some c
      → (r : SyncResult) × (s' : State) × (sync_updates p otps counters bcrypt now salt drawn user
            us tenant s
          ≡ ok r s')
        × (r.processed + r.failed + length r.conflicts ≡ length us)
  unfolding sync_updates get_courier_for_user
  sync_updates_counts now salt drawn user us tenant s c found =
      let end =
        sync_all p otps counters bcrypt now salt drawn 0 user c.id tenant us
          (record { processed = 0; failed = 0; conflicts = [] }) s in
      (
        end.0,
        end.1,
        rw (found, ◌>>=◌, or_throw) refl,
        updates_counted now salt drawn 0 user c.id tenant us
              (record { processed = 0; failed = 0; conflicts = [] }) s
            ∙ omega arith,
      )
