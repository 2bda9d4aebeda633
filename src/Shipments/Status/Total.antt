-- ===== src/Shipments/Status/Total.antt =====
-- The calls of `updateStatus` of modules/shipments/services/shipments.service.ts that return.
use trackora.Base.{
  ℕ, ◌≡◌, refl, sym, subst, ◌∙◌, Bool, true, false, Option, none, some, List, ok, err, Outcome,
  Action, Ensures, Ensures-or_throw, Ensures-throw_if, Ensures-throw_if_last, Ensures-when,
  Ensures-step, Ensures-bind, or_else, leb, not, ◌&&◌, if◌then◌else◌, pure, when, ap, or_throw,
  Ensures-map,
}
use trackora.Base.Int.{pos}
use trackora.Prisma.{Prisma, settle}
use trackora.External.{Cache, Counters, Bcrypt}
use trackora.Model.{Db, Shipment, Courier}
use trackora.Model.Enums.{UserRole}
use trackora.Shipments.StateMachine.{validate_transition}
use trackora.Shipments.Status.{
  Error, UpdateShipmentStatusDto, by_id, courier_by_id, is_cod, no_cash, out_of_tolerance, updated,
  courier_updated, touches_courier, World, in_db, update_status, update_body, update_shipment,
  update_courier, otp_max_attempts, check_delivery, issue_otp, log_status, announce, find_by_id,
}
use trackora.Shipments.Status.Effects.{
  update_shipment_lem, Checked, Done, is_delivery, draws_otp, announce_lem, update_status-Ensures,
  Untouched,
}

abbrev Any : {S A : Type 0} → A → S → Type 0
Any a s = Unit

abbrev Never : {S E : Type 0} → E → S → Type 0
Never e s = ⊥

true≢false : {b : Bool} → b ≡ true → b ≡ false → ⊥
true≢false h k = cc

none≢some : {A : Type 0} {o : Option A} {a : A} → o ≡ none → o ≡ some a → ⊥
none≢some h k = cc

not-true : {b : Bool} → not b ≡ true → b ≡ true → ⊥
not-true {b} h k = cc (ap not k)

-- The courier of a shipment is on record.
abbrev pub HasCourier : Prisma → Option ℕ → ℕ → List Courier → Type 0
HasCourier p none tenant t = Unit
HasCourier p (some c) tenant t = (x : Courier) × (p.find_first (courier_by_id c tenant) t ≡ some x)

module _ (p : Prisma) where
  update_courier_total :
      (courier : Option ℕ) (tenant : ℕ) (touched : Bool) (f : Courier → Courier) (db : Db)
      → HasCourier p courier tenant db.couriers
      → Ensures Any Never (update_courier p courier tenant touched f db)
  unfolding update_courier
  update_courier_total none tenant touched f db h = tt
  update_courier_total (some c) tenant false f db h = tt
  update_courier_total (some c) tenant true f db h =
      rw (p.update-some (courier_by_id c tenant) f db.couriers h.0 h.1) tt

  update_body_total :
      (now id tenant : ℕ) (s : Shipment) (dto : UpdateShipmentStatusDto) (h : Option ℕ) (db : Db)
      → p.find_first (by_id id tenant) db.shipments ≡ some s
      → HasCourier p s.assigned_courier_id tenant db.couriers
      → Ensures Any Never (update_body p now id tenant s dto h db)
  unfolding update_body update_shipment
  update_body_total now id tenant s dto h db found courier =
      Ensures-step _ _ (update_shipment p id tenant (updated now dto h)) _ db _ _
        (update_shipment_lem p id tenant (updated now dto h) s db found)
        (Ensures-bind _ _ Any
          (update_courier p s.assigned_courier_id tenant (touches_courier dto.new_status)
            (courier_updated s dto))
          _ _ (update_courier_total s.assigned_courier_id tenant _ _ _ courier) (λ _ _ _. tt))

module _ (p : Prisma) (otps : Cache ℕ) (counters : Counters) (bcrypt : Bcrypt) where
  check_delivery_total :
      (id : ℕ) (s : Shipment) (dto : UpdateShipmentStatusDto) (w : World p otps counters bcrypt)
      → Checked p otps counters bcrypt id s dto w
      → Ensures (λ _ u. u.db ≡ w.db) Never (check_delivery p otps counters bcrypt id s dto w)
  unfolding check_delivery
  check_delivery_total id s dto w c =
      Ensures-throw_if _ _ (no_cash dto.collected_cash) _ w _ (λ h. true≢false h c.paid)
        λ _.
          Ensures-throw_if _ _ (out_of_tolerance (or_else dto.collected_cash (pos 0)) s.cod_amount)
            _ w _ (λ h. true≢false h c.in_tolerance)
            λ _.
              Ensures-or_throw _ _ s.customer_otp _ w _ (λ h. none≢some h c.has_otp)
                λ hashed eh.
                  Ensures-or_throw _ _ dto.otp _ w _ (λ h. none≢some h c.has_provided)
                    λ provided ep.
                      Ensures-throw_if _ _
                        (leb otp_max_attempts (or_else (counters.get w.otp_attempts id) 0)) _ w _
                        (λ h. true≢false h c.attempts_left)
                        λ _.
                          Ensures-throw_if_last _ _ (not (bcrypt.compare provided hashed)) _ _
                            (λ h. not-true h (same eh ep)) λ _. refl
    where
      same :
          {hashed provided : ℕ}
          → s.customer_otp ≡ some hashed
          → dto.otp ≡ some provided
          → bcrypt.compare provided hashed ≡ true
      same a b = cc (c.accepted, c.has_otp, c.has_provided)

  otp_step_total :
      (c : Bool) (salt drawn id : ℕ) (w : World p otps counters bcrypt)
      → Ensures
          (λ _ u. (u.db ≡ w.db) × (u.otp_attempts ≡ w.otp_attempts))
          Never
          ((if c then issue_otp p otps counters bcrypt salt drawn id else pure none) w)
  unfolding issue_otp
  otp_step_total true salt drawn id w = (refl, refl)
  otp_step_total false salt drawn id w = (refl, refl)

  in_db_total :
      {A : Type 0} (m : Action Db Error A) (w : World p otps counters bcrypt)
      → Ensures Any Never (m w.db)
      → Ensures Any Never (in_db p otps counters bcrypt m w)
  in_db_total {A} m w h = after (m w.db) h
    where
      after :
          (o : Outcome Db Error A)
          → Ensures Any Never o
          → Ensures Any Never (elim o [
            | ok a db ↦ ok a (record w { db = db })
            | err e db ↦ err e (record w { db = db })
          ])
      after (ok a db) x = tt
      after (err e db) x = x

  settle_total :
      {A : Type 0} (db : Db) (o : Outcome Db Error A)
      → Ensures Any Never o
      → Ensures Any Never (settle db o)
  settle_total db (ok a s) h = h
  settle_total db (err e s) h = h

  -- The checks of a delivery depend on the counters alone.
  Checked-frame :
      (id : ℕ) (s : Shipment) (dto : UpdateShipmentStatusDto) (w u : World p otps counters bcrypt)
      → u.otp_attempts ≡ w.otp_attempts
      → Checked p otps counters bcrypt id s dto w
      → Checked p otps counters bcrypt id s dto u
  Checked-frame id s dto w u e c = record {
    paid = c.paid;
    in_tolerance = c.in_tolerance;
    hashed = c.hashed;
    provided = c.provided;
    has_otp = c.has_otp;
    has_provided = c.has_provided;
    attempts_left = rw e c.attempts_left;
    accepted = c.accepted;
  }

  find_by_id_lem :
      (id tenant : ℕ) (s : Shipment) (w : World p otps counters bcrypt)
      → p.find_first (by_id id tenant) w.db.shipments ≡ some s
      → find_by_id p otps counters bcrypt id tenant w ≡ ok s w
  unfolding find_by_id
  find_by_id_lem id tenant s w found = rw (found, or_throw)

  returns :
      (now salt drawn id tenant : ℕ) (dto : UpdateShipmentStatusDto) (user : Option ℕ)
      (role : Option UserRole) (override : Bool) (w : World p otps counters bcrypt) (s : Shipment)
      → p.find_first (by_id id tenant) w.db.shipments ≡ some s
      → validate_transition s.status dto.new_status override ≡ true
      → ((is_delivery dto && is_cod s) ≡ true → Checked p otps counters bcrypt id s dto w)
      → HasCourier p s.assigned_courier_id tenant w.db.couriers
      → Ensures Any Never
          (update_status p otps counters bcrypt now salt drawn id tenant dto user role override w)
  unfolding update_status log_status
  returns now salt drawn id tenant dto user role override w s found allowed checked courier =
      Ensures-step _ _ (find_by_id p otps counters bcrypt id tenant) _ w s w
        (find_by_id_lem id tenant s w found)
        (Ensures-throw_if _ _ (not (validate_transition s.status dto.new_status override)) _ w _
          (λ h. not-true h allowed)
          λ _.
            Ensures-bind _ _ _
              (if draws_otp s dto
                then issue_otp p otps counters bcrypt salt drawn id
                else pure none)
              _ w (otp_step_total (draws_otp s dto) salt drawn id w)
              λ h v a.
                Ensures-bind _ _ (λ _ u. u.db ≡ w.db)
                  (when (is_delivery dto && is_cod s)
                    (check_delivery p otps counters bcrypt id s dto))
                  _ v
                  (Ensures-when _ _ (is_delivery dto && is_cod s)
                    (check_delivery p otps counters bcrypt id s dto) v
                    (λ c.
                      Ensures-map _ _ _ _ (check_delivery p otps counters bcrypt id s dto v)
                        (λ _ u e. e ∙ a.0) (λ _ _ x. x)
                        (check_delivery_total id s dto v
                          (Checked-frame id s dto w v a.1 (checked c))))
                    (λ _. a.0))
                  λ _ u b.
                    Ensures-bind _ _ Any
                      (in_db p otps counters bcrypt
                        (p.transaction (update_body p now id tenant s dto h)))
                      _ u
                      (in_db_total (p.transaction (update_body p now id tenant s dto h)) u (
                        rw (p.transaction-eq (update_body p now id tenant s dto h) u.db) (
                          settle_total u.db _ (
                            update_body_total p now id tenant s dto h u.db
                              (subst
                                (λ (db : Db). p.find_first (by_id id tenant) db.shipments ≡ some s)
                                (sym b) found)
                              (subst
                                (λ (db : Db). HasCourier p s.assigned_courier_id tenant db.couriers)
                                (sym b) courier)))))
                      λ x u' _.
                        Ensures-step _ _ (announce p otps counters bcrypt id tenant s dto) _ _ tt _
                          (announce_lem p otps counters bcrypt id tenant s dto _) tt)

  pub update_status_total :
      (now salt drawn id tenant : ℕ) (dto : UpdateShipmentStatusDto) (user : Option ℕ)
      (role : Option UserRole) (override : Bool) (w : World p otps counters bcrypt) (s : Shipment)
      → p.find_first (by_id id tenant) w.db.shipments ≡ some s
      → validate_transition s.status dto.new_status override ≡ true
      → ((is_delivery dto && is_cod s) ≡ true → Checked p otps counters bcrypt id s dto w)
      → HasCourier p s.assigned_courier_id tenant w.db.couriers
      → (x : Shipment) × (w' : World p otps counters bcrypt) × (update_status p otps counters bcrypt
            now salt drawn id tenant dto user role override w
          ≡ ok x w')
        × Done p otps counters bcrypt now salt drawn id tenant dto override w x w'
  update_status_total now salt drawn id tenant dto user role override w s found allowed checked
        courier =
      both _
        (returns now salt drawn id tenant dto user role override w s found allowed checked courier)
        (update_status-Ensures p otps counters bcrypt now salt drawn id tenant dto user role
          override w)
    where
      both :
          (o : Outcome (World p otps counters bcrypt) Error Shipment)
          → Ensures Any Never o
          → Ensures
              (Done p otps counters bcrypt now salt drawn id tenant dto override w)
              (λ _ w'. Untouched p otps counters bcrypt w w')
              o
          → (x : Shipment) × (w' : World p otps counters bcrypt) × (o ≡ ok x w')
            × Done p otps counters bcrypt now salt drawn id tenant dto override w x w'
      both (ok x w') _ d = (x, w', refl, d)
      both (err e w') n _ = absurd n
