-- ===== src/Shipments/Status/Effects.antt =====
-- The effects of `updateStatus` of modules/shipments/services/shipments.service.ts.
use trackora.Base.{
  ℕ, ◌≡◌, refl, sym, subst, ◌∙◌, Bool, true, false, Option, none, some, List, ◌∷◌, ok, err, Outcome,
  Action, Ensures, Ensures-or_throw, Ensures-throw_if, Ensures-throw_if_last, Ensures-when,
  Ensures-step, Ensures-bind, Ensures-map, or_else, leb, not, ◌&&◌, Bool-cases, inl, inr,
  if◌then◌else◌, pure, when, ap, Option-cases, ◌>>=◌,
}
use trackora.Base.Int.{pos}
use trackora.Prisma.{Prisma, change}
use trackora.Prisma.Rows.{Unchanged, transaction-Ensures, not-false}
use trackora.External.{Cache, Counters, Bcrypt}
use trackora.Model.{Db, Shipment, Courier}
use trackora.Model.Enums.{ShipmentStatus, UserRole, ◌===◌, shipment_status_enum, shipment_type_enum}
use trackora.Shipments.StateMachine.{validate_transition}
use trackora.Shipments.Status.{
  Error, UpdateShipmentStatusDto, Event, delivered, status_changed, by_id, courier_by_id, is_cod,
  no_cash, out_of_tolerance, updated, courier_updated, touches_courier, World, in_db, update_status,
  update_body, update_shipment, update_courier, otp_max_attempts, check_delivery, issue_otp,
  log_status, announce,
}

module _ (p : Prisma) where
  -- The couriers after the update: the assigned one is changed, where the status concerns couriers.
  abbrev pub couriers_after :
      Option ℕ → ℕ → Bool → (Courier → Courier) → List Courier → List Courier
  couriers_after none tenant touched f couriers = couriers
  couriers_after (some courier) tenant touched f couriers =
      if touched then change (courier_by_id courier tenant) f couriers else couriers

  abbrev pub after_update : ℕ → ℕ → ℕ → Shipment → UpdateShipmentStatusDto → Option ℕ → Db → Db
  after_update now id tenant s dto otp_hash db = record db {
    shipments = change (by_id id tenant) (updated now dto otp_hash) db.shipments;
    couriers =
        couriers_after s.assigned_courier_id tenant (touches_courier dto.new_status)
          (courier_updated s dto) db.couriers;
  }

  pub update_shipment_lem :
      (id tenant : ℕ) (f : Shipment → Shipment) (s : Shipment) (db : Db)
      → p.find_first (by_id id tenant) db.shipments ≡ some s
      → update_shipment p id tenant f db
        ≡ ok (f s) (record db { shipments = change (by_id id tenant) f db.shipments })
  unfolding update_shipment
  update_shipment_lem id tenant f s db found =
      rw (p.update-some (by_id id tenant) f db.shipments s found)

  update_courier-Ensures :
      (courier : Option ℕ) (tenant : ℕ) (touched : Bool) (f : Courier → Courier) (db : Db)
      → Ensures
          (λ _ db'.
            db' ≡ record db { couriers = couriers_after courier tenant touched f db.couriers })
          (λ _ _. Unit {0})
          (update_courier p courier tenant touched f db)
  unfolding update_courier
  update_courier-Ensures none tenant touched f db = refl
  update_courier-Ensures (some c) tenant false f db = refl
  update_courier-Ensures (some c) tenant true f db =
      elim (Option-cases (p.find_first (courier_by_id c tenant) db.couriers)) [
        | inl e ↦ rw (p.update-none (courier_by_id c tenant) f db.couriers e) tt
        | inr (x, e) ↦ rw (p.update-some (courier_by_id c tenant) f db.couriers x e) refl
      ]

  update_body-Ensures :
      (now id tenant : ℕ) (s : Shipment) (dto : UpdateShipmentStatusDto) (otp_hash : Option ℕ)
      (db : Db)
      → p.find_first (by_id id tenant) db.shipments ≡ some s
      → Ensures
          (λ x db'.
            (x ≡ updated now dto otp_hash s) × (db' ≡ after_update now id tenant s dto otp_hash db))
          (λ _ _. Unit {0})
          (update_body p now id tenant s dto otp_hash db)
  unfolding update_body
  update_body-Ensures now id tenant s dto otp_hash db found =
      Ensures-step _ _ (update_shipment p id tenant (updated now dto otp_hash)) _ db _ _
        (update_shipment_lem id tenant (updated now dto otp_hash) s db found)
        (Ensures-bind _ _ _
          (update_courier p s.assigned_courier_id tenant (touches_courier dto.new_status)
            (courier_updated s dto))
          _ _ (update_courier-Ensures s.assigned_courier_id tenant _ _ _) (λ _ db' e. (refl, e)))

abbrev pub is_delivery : UpdateShipmentStatusDto → Bool
is_delivery dto = dto.new_status === ShipmentStatus.delivered

abbrev pub draws_otp : Shipment → UpdateShipmentStatusDto → Bool
draws_otp s dto = dto.new_status === ShipmentStatus.out_for_delivery && is_cod s

-- The events of a successful update, the last first.
abbrev pub announced : ℕ → ℕ → Shipment → UpdateShipmentStatusDto → List Event → List Event
announced id tenant s dto events =
    status_changed id tenant s.status dto.new_status
    ∷ (if is_delivery dto
        then delivered (record {
          shipment_id = id;
          tenant_id = tenant;
          merchant_id = s.merchant_id;
          courier_id = s.assigned_courier_id;
          cod_amount = s.cod_amount;
          collected_cash = or_else dto.collected_cash (pos 0);
          type = s.type;
        })
          ∷ events
        else events)

-- The tables and the events are as they were.
abbrev pub Untouched :
    (p : Prisma) (otps : Cache ℕ) (counters : Counters) (bcrypt : Bcrypt)
    → World p otps counters bcrypt
    → World p otps counters bcrypt
    → Type 0
Untouched p otps counters bcrypt w w' = (w'.db ≡ w.db) × (w'.events ≡ w.events)

module _ (p : Prisma) (otps : Cache ℕ) (counters : Counters) (bcrypt : Bcrypt) where
  -- What was checked before the delivery of a COD shipment.
  pub record Checked (id : ℕ) (s : Shipment) (dto : UpdateShipmentStatusDto)
      (w : World p otps counters bcrypt) : Type 0 where
    pub paid : no_cash dto.collected_cash ≡ false
    pub in_tolerance : out_of_tolerance (or_else dto.collected_cash (pos 0)) s.cod_amount ≡ false
    pub hashed : ℕ
    pub provided : ℕ
    pub has_otp : s.customer_otp ≡ some hashed
    pub has_provided : dto.otp ≡ some provided
    pub attempts_left : leb otp_max_attempts (or_else (counters.get w.otp_attempts id) 0) ≡ false
    pub accepted : bcrypt.compare provided hashed ≡ true

  check_delivery-Ensures :
      (id : ℕ) (s : Shipment) (dto : UpdateShipmentStatusDto) (w : World p otps counters bcrypt)
      → Ensures
          (λ _ w'. Untouched p otps counters bcrypt w w' × Checked id s dto w)
          (λ _ w'. Untouched p otps counters bcrypt w w')
          (check_delivery p otps counters bcrypt id s dto w)
  unfolding check_delivery
  check_delivery-Ensures id s dto w =
      Ensures-throw_if _ _ (no_cash dto.collected_cash) _ w _ (λ _. (refl, refl))
        λ paid.
          Ensures-throw_if _ _ (out_of_tolerance (or_else dto.collected_cash (pos 0)) s.cod_amount)
            _ w _ (λ _. (refl, refl))
            λ tol.
              Ensures-or_throw _ _ s.customer_otp _ w _ (λ _. (refl, refl))
                λ hashed eh.
                  Ensures-or_throw _ _ dto.otp _ w _ (λ _. (refl, refl))
                    λ provided ep.
                      Ensures-throw_if _ _
                        (leb otp_max_attempts (or_else (counters.get w.otp_attempts id) 0)) _ w _
                        (λ _. (refl, refl))
                        λ left.
                          Ensures-throw_if_last _ _ (not (bcrypt.compare provided hashed)) _ _
                            (λ _. (refl, refl))
                            λ same. (
                              (refl, refl),
                              record {
                                paid = paid;
                                in_tolerance = tol;
                                hashed = hashed;
                                provided = provided;
                                has_otp = eh;
                                has_provided = ep;
                                attempts_left = left;
                                accepted = not-false _ same;
                              },
                            )

  otp_step :
      (c : Bool) (salt drawn id : ℕ) (w : World p otps counters bcrypt)
      → Ensures
          (λ h w'.
            Untouched p otps counters bcrypt w w'
            × (w'.otp_attempts ≡ w.otp_attempts)
            × (h ≡ (if c then some (bcrypt.hash salt drawn) else none)))
          (λ _ w'. Untouched p otps counters bcrypt w w')
          ((if c then issue_otp p otps counters bcrypt salt drawn id else pure none) w)
  unfolding issue_otp
  otp_step true salt drawn id w = ((refl, refl), refl, refl)
  otp_step false salt drawn id w = ((refl, refl), refl, refl)

  in_db-Ensures :
      {A : Type 0} (P : A → Db → Type 0) (m : Action Db Error A) (w : World p otps counters bcrypt)
      → Ensures P (Unchanged w.db) (m w.db)
      → Ensures
          (λ a w'. P a w'.db × (w'.events ≡ w.events))
          (λ _ w'. Untouched p otps counters bcrypt w w')
          (in_db p otps counters bcrypt m w)
  in_db-Ensures {A} P m w h = after (m w.db) h
    where
      after :
          (o : Outcome Db Error A)
          → Ensures P (Unchanged w.db) o
          → Ensures
              (λ a (w' : World p otps counters bcrypt). P a w'.db × (w'.events ≡ w.events))
              (λ _ w'. Untouched p otps counters bcrypt w w')
              (elim o [
                | ok a db ↦ ok a (record w { db = db })
                | err e db ↦ err e (record w { db = db })
              ])
      after (ok a db) x = (x, refl)
      after (err e db) x = (x, refl)

  abbrev pub otp_hash_of : ℕ → ℕ → Shipment → UpdateShipmentStatusDto → Option ℕ
  otp_hash_of salt drawn s dto = if draws_otp s dto then some (bcrypt.hash salt drawn) else none

  pub record Done (now salt drawn id tenant : ℕ) (dto : UpdateShipmentStatusDto) (override : Bool)
      (w : World p otps counters bcrypt) (x : Shipment) (w' : World p otps counters bcrypt)
      : Type 0 where
    pub old : Shipment
    pub found : p.find_first (by_id id tenant) w.db.shipments ≡ some old
    pub allowed : validate_transition old.status dto.new_status override ≡ true
    pub otp_hash : Option ℕ
    pub otp_drawn : otp_hash ≡ otp_hash_of salt drawn old dto
    pub checked :
        (is_delivery dto && is_cod old) ≡ true
        → (v : World p otps counters bcrypt) × (v.otp_attempts ≡ w.otp_attempts)
          × Checked id old dto v
    pub returned : x ≡ updated now dto otp_hash old
    pub shipments :
        w'.db.shipments ≡ change (by_id id tenant) (updated now dto otp_hash) w.db.shipments
    pub couriers :
        w'.db.couriers
        ≡ couriers_after p old.assigned_courier_id tenant
            (touches_courier dto.new_status)
            (courier_updated old dto)
            w.db.couriers
    pub others : (w'.db.wallets ≡ w.db.wallets) × (w'.db.assignments ≡ w.db.assignments)
    pub sent : w'.events ≡ announced id tenant old dto w.events

  trans :
      (w v u : World p otps counters bcrypt)
      → Untouched p otps counters bcrypt w v
      → Untouched p otps counters bcrypt v u
      → Untouched p otps counters bcrypt w u
  trans w v u a b = (b.0 ∙ a.0, b.1 ∙ a.1)

  -- The checks of a delivery, as far as the status and the type ask for them.
  check_step :
      (c : Bool) (id : ℕ) (s : Shipment) (dto : UpdateShipmentStatusDto)
      (w v : World p otps counters bcrypt)
      → Untouched p otps counters bcrypt w v
      → Ensures
          (λ _ u. Untouched p otps counters bcrypt w u × (c ≡ true → Checked id s dto v))
          (λ _ u. Untouched p otps counters bcrypt w u)
          (when c (check_delivery p otps counters bcrypt id s dto) v)
  check_step c id s dto w v a =
      Ensures-when _ _ c (check_delivery p otps counters bcrypt id s dto) v
        (λ _.
          Ensures-map _ _ _ _ (check_delivery p otps counters bcrypt id s dto v)
            (λ _ u b. (trans w v u a b.0, λ _. b.1)) (λ _ u b. trans w v u a b)
            (check_delivery-Ensures id s dto v))
        (λ f. (a, λ t. cc))

  -- The transaction, from a state of which the tables are those of `w`.
  write_step :
      (now id tenant : ℕ) (s : Shipment) (dto : UpdateShipmentStatusDto) (h : Option ℕ)
      (w u : World p otps counters bcrypt)
      → p.find_first (by_id id tenant) w.db.shipments ≡ some s
      → Untouched p otps counters bcrypt w u
      → Ensures
          (λ x u'.
            (x ≡ updated now dto h s)
            × (u'.db ≡ after_update p now id tenant s dto h w.db)
            × (u'.events ≡ w.events))
          (λ _ u'. Untouched p otps counters bcrypt w u')
          (in_db p otps counters bcrypt (p.transaction (update_body p now id tenant s dto h)) u)
  write_step now id tenant s dto h w u found a =
      Ensures-map _ _ _ _
        (in_db p otps counters bcrypt (p.transaction (update_body p now id tenant s dto h)) u)
        (λ x u' b. (b.0.0, b.0.1, b.1 ∙ a.1)) (λ _ u' b. trans w u u' a b)
        (in_db-Ensures _ (p.transaction (update_body p now id tenant s dto h)) u (
          subst
            (λ db.
              Ensures
                (λ x db'.
                  (x ≡ updated now dto h s) × (db' ≡ after_update p now id tenant s dto h w.db))
                (Unchanged db) (p.transaction (update_body p now id tenant s dto h) db))
            (sym a.0)
            (transaction-Ensures p _ (update_body p now id tenant s dto h) w.db
              (update_body-Ensures p now id tenant s dto h w.db found))))

  pub announce_lem :
      (id tenant : ℕ) (s : Shipment) (dto : UpdateShipmentStatusDto)
      (w : World p otps counters bcrypt)
      → announce p otps counters bcrypt id tenant s dto w
        ≡ ok tt (record w { events = announced id tenant s dto w.events })
  unfolding announce
  announce_lem id tenant s dto w = elim (Bool-cases (is_delivery dto)) [
    | inl e ↦ rw (e, ◌>>=◌) refl
    | inr e ↦ rw (e, ◌>>=◌) refl
  ]

  pub update_status-Ensures :
      (now salt drawn id tenant : ℕ) (dto : UpdateShipmentStatusDto) (user : Option ℕ)
      (role : Option UserRole) (override : Bool) (w : World p otps counters bcrypt)
      → Ensures
          (Done now salt drawn id tenant dto override w)
          (λ _ w'. Untouched p otps counters bcrypt w w')
          (update_status p otps counters bcrypt now salt drawn id tenant dto user role override w)
  unfolding update_status log_status
  update_status-Ensures now salt drawn id tenant dto user role override w =
      Ensures-or_throw _ _ (p.find_first (by_id id tenant) w.db.shipments) _ w _ (λ _. (refl, refl))
        λ s found.
          Ensures-throw_if _ _ (not (validate_transition s.status dto.new_status override)) _ w _
            (λ _. (refl, refl))
            λ allowed.
              Ensures-bind _ _ _
                (if draws_otp s dto
                  then issue_otp p otps counters bcrypt salt drawn id
                  else pure none)
                _ w (otp_step (draws_otp s dto) salt drawn id w)
                λ h v a.
                  Ensures-bind _ _ _
                    (when (is_delivery dto && is_cod s)
                      (check_delivery p otps counters bcrypt id s dto))
                    _ v (check_step (is_delivery dto && is_cod s) id s dto w v a.0)
                    λ _ u b.
                      Ensures-bind _ _ _
                        (in_db p otps counters bcrypt
                          (p.transaction (update_body p now id tenant s dto h)))
                        _ u (write_step now id tenant s dto h w u found b.0)
                        λ x u' c.
                          Ensures-step _ _ (announce p otps counters bcrypt id tenant s dto) _ _ tt
                            _ (announce_lem id tenant s dto _)
                            (record {
                              old = s;
                              found = found;
                              allowed = not-false _ allowed;
                              otp_hash = h;
                              otp_drawn = a.2;
                              checked = λ e. (v, a.1, b.1 e);
                              returned = c.0;
                              shipments = ap (λ (db : Db). db.shipments) c.1;
                              couriers = ap (λ (db : Db). db.couriers) c.1;
                              others = (
                                ap (λ (db : Db). db.wallets) c.1,
                                ap (λ (db : Db). db.assignments) c.1,
                              );
                              sent = ap (announced id tenant s dto) c.2;
                            })
