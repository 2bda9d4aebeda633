-- ===== src/Shipments/Status.antt =====
-- `ShipmentsService.updateStatus` of modules/shipments/services/shipments.service.ts, with
-- `verifyDeliveryOtp` and `findById`. The database is that of `Model`; the one-time passwords and
-- their counters are in Redis, and the events that were emitted stand in a list, the last first.
-- Free text, photos and positions are not modelled.
pub mod Effects
pub mod Total
use trackora.Base.{
  ℕ, ◌*◌, Bool, true, Option, none, some, List, ◌∷◌, Action, ok, err, pure, gets, or_throw, modify,
  throw_if, when, ◌>>=◌, ◌>>◌, ◌==◌, ◌&&◌, ◌||◌, not, is_just, or_else, is_some, ltb, leb,
  if◌then◌else◌, ◌+◌,
}
use Prim.Native.Nat.{max}
use trackora.Base.Int.{ℤ, pos, ◌+ℤ◌, ◌-ℤ◌, pos_part, abs, max0}
use trackora.Prisma.{Prisma}
use trackora.External.{Cache, Counters, Bcrypt}
use trackora.Model.{Db, Shipment, Courier}
use trackora.Model.Enums.{
  ShipmentStatus, ShipmentType, UserRole, ◌===◌, shipment_status_enum, shipment_type_enum,
}
use trackora.Shipments.StateMachine.{validate_transition}

pub data Error : Type 0 where
  shipment_not_found invalid_transition : Error
  cash_not_collected cash_out_of_tolerance : Error
  no_otp_configured otp_required too_many_attempts invalid_otp : Error
  record_not_found : Error

pub record UpdateShipmentStatusDto : Type 0 where
  pub new_status : ShipmentStatus
  pub otp : Option ℕ
  pub collected_cash : Option ℤ
  -- The body holds `collectedCash: null`, where the amount is `none`.
  pub cash_is_null : Bool

pub record Delivered : Type 0 where
  pub shipment_id : ℕ
  pub tenant_id : ℕ
  pub merchant_id : ℕ
  pub courier_id : Option ℕ
  pub cod_amount : ℤ
  pub collected_cash : ℤ
  pub type : ShipmentType

pub data Event : Type 0 where
  -- 'shipment.delivered'
  delivered : Delivered → Event
  -- 'shipment.status_changed', with the shipment's id, the tenant, the old and the new status
  status_changed : ℕ → ℕ → ShipmentStatus → ShipmentStatus → Event

abbrev pub otp_max_attempts : ℕ
otp_max_attempts = 3

abbrev pub otp_attempt_ttl : ℕ
otp_attempt_ttl = 86400

-- `{ id, tenantId }`
abbrev pub by_id : ℕ → ℕ → Shipment → Bool
by_id id tenant s = s.id == id && is_just tenant s.tenant_id

abbrev pub courier_by_id : ℕ → ℕ → Courier → Bool
courier_by_id id tenant c = c.id == id && is_just tenant c.tenant_id

abbrev pub is_cod : Shipment → Bool
is_cod s = s.type === ShipmentType.cod

-- `!dto.collectedCash`: no amount, or the amount 0.
abbrev pub no_cash : Option ℤ → Bool
no_cash none = true
no_cash (some a) = pos_part (abs a) == 0

-- `Math.abs(collected - codAmount) > Math.max(codAmount * 0.05, 1)`, in cents and times 20.
abbrev pub out_of_tolerance : ℤ → ℤ → Bool
out_of_tolerance collected amount =
    ltb (max (pos_part (max0 amount)) 2000) (20 * pos_part (abs (collected -ℤ amount)))

-- The data of the shipment's update.
abbrev pub updated : ℕ → UpdateShipmentStatusDto → Option ℕ → Shipment → Shipment
updated now dto otp_hash s = record s {
  status = dto.new_status;
  -- `dto.collectedCash !== undefined`
  collected_cash =
      if is_some dto.collected_cash || dto.cash_is_null
      then dto.collected_cash
      else s.collected_cash;
  customer_otp = if is_some otp_hash then otp_hash else s.customer_otp;
  delivered_at = if dto.new_status === ShipmentStatus.delivered then some now else s.delivered_at;
  returned_at = if dto.new_status === ShipmentStatus.returned then some now else s.returned_at;
  cancelled_at = if dto.new_status === ShipmentStatus.cancelled then some now else s.cancelled_at;
  delivery_attempts =
      if dto.new_status === ShipmentStatus.failed
      then s.delivery_attempts + 1
      else s.delivery_attempts;
}

-- The data of the courier's update: the counter of the new status, and the cash of a delivery.
abbrev pub courier_updated : Shipment → UpdateShipmentStatusDto → Courier → Courier
courier_updated s dto c = record c {
  total_delivered =
      if dto.new_status === ShipmentStatus.delivered
      then c.total_delivered + 1
      else c.total_delivered;
  total_failed =
      if dto.new_status === ShipmentStatus.failed then c.total_failed + 1 else c.total_failed;
  total_returned =
      if dto.new_status === ShipmentStatus.returned then c.total_returned + 1 else c.total_returned;
  cash_held =
      if dto.new_status === ShipmentStatus.delivered && is_cod s && not (no_cash dto.collected_cash)
      then c.cash_held +ℤ or_else dto.collected_cash (pos 0)
      else c.cash_held;
}

abbrev pub touches_courier : ShipmentStatus → Bool
touches_courier status =
    status === ShipmentStatus.delivered
    || status === ShipmentStatus.failed
    || status === ShipmentStatus.returned

module _ (p : Prisma) where
  unfoldable pub update_shipment : ℕ → ℕ → (Shipment → Shipment) → Action Db Error Shipment
  update_shipment id tenant f = do
    found ← gets (λ db. p.update (by_id id tenant) f db.shipments)
    written ← or_throw found record_not_found
    modify (λ db. record db { shipments = written.1 })
    pure written.0

  unfoldable pub update_courier :
      Option ℕ → ℕ → Bool → (Courier → Courier) → Action Db Error (Unit {0})
  update_courier none tenant touched f = pure tt
  update_courier (some courier) tenant touched f = when touched (do
    found ← gets (λ db. p.update (courier_by_id courier tenant) f db.couriers)
    written ← or_throw found record_not_found
    modify (λ db. record db { couriers = written.1 }))

  -- The body of the transaction: the shipment, then its courier.
  unfoldable pub update_body :
      ℕ → ℕ → ℕ → Shipment → UpdateShipmentStatusDto → Option ℕ → Action Db Error Shipment
  update_body now id tenant s dto otp_hash = do
    written ← update_shipment id tenant (updated now dto otp_hash)
    update_courier s.assigned_courier_id tenant (touches_courier dto.new_status)
        (courier_updated s dto)
    pure written

module _ (p : Prisma) (otps : Cache ℕ) (counters : Counters) (bcrypt : Bcrypt) where
  pub record World : Type 0 where
    pub db : Db
    pub plain_otps : otps.Store
    pub otp_attempts : counters.Store
    pub events : List Event

  abbrev pub in_db : {A : Type 0} → Action Db Error A → Action World Error A
  in_db m w = elim (m w.db) [
    | ok a db ↦ ok a (record w { db = db })
    | err e db ↦ err e (record w { db = db })
  ]

  abbrev pub emit : Event → Action World Error (Unit {0})
  emit e = modify (λ w. record w { events = e ∷ w.events })

  unfoldable pub find_by_id : ℕ → ℕ → Action World Error Shipment
  find_by_id id tenant = do
    found ← gets (λ w. p.find_first (by_id id tenant) w.db.shipments)
    or_throw found shipment_not_found

  -- The branch for OUT_FOR_DELIVERY: draw a password, keep its hash, and put it into Redis.
  unfoldable pub issue_otp : ℕ → ℕ → ℕ → Action World Error (Option ℕ)
  issue_otp salt drawn id = do
    modify (λ w. record w { plain_otps = otps.set w.plain_otps id drawn otp_attempt_ttl })
    pure (some (bcrypt.hash salt drawn))

  unfoldable pub verify_delivery_otp : ℕ → Option ℕ → Option ℕ → Action World Error (Unit {0})
  verify_delivery_otp id hashed_otp provided_otp = do
    hashed ← or_throw hashed_otp no_otp_configured
    provided ← or_throw provided_otp otp_required
    attempts ← gets (λ w. or_else (counters.get w.otp_attempts id) 0)
    throw_if (leb otp_max_attempts attempts) too_many_attempts
    modify (λ w. record w {
      otp_attempts = counters.expire (counters.increment w.otp_attempts id) id otp_attempt_ttl;
    })
    throw_if (not (bcrypt.compare provided hashed)) invalid_otp

  -- The branch for DELIVERED, for a COD shipment.
  unfoldable pub check_delivery :
      ℕ → Shipment → UpdateShipmentStatusDto → Action World Error (Unit {0})
  unfolding verify_delivery_otp
  check_delivery id s dto = do
    throw_if (no_cash dto.collected_cash) cash_not_collected
    throw_if (out_of_tolerance (or_else dto.collected_cash (pos 0)) s.cod_amount)
        cash_out_of_tolerance
    verify_delivery_otp id s.customer_otp dto.otp

  -- The row of the status log, and the events after the transaction.
  unfoldable pub log_status :
      ℕ
      → Shipment
      → UpdateShipmentStatusDto
      → Option ℕ
      → Option UserRole
      → Action World Error (Unit {0})
  log_status id s dto user role = modify λ w. record w {
    db = record w.db {
      status_logs =
          p.create
            (record {
              shipment_id = id;
              previous_status = some s.status;
              new_status = dto.new_status;
              changed_by_user_id = user;
              changed_by_role = role;
            })
            w.db.status_logs;
    };
  }

  unfoldable pub announce :
      ℕ → ℕ → Shipment → UpdateShipmentStatusDto → Action World Error (Unit {0})
  announce id tenant s dto = do
    when (dto.new_status === ShipmentStatus.delivered) (
        emit (
          delivered (record {
            shipment_id = id;
            tenant_id = tenant;
            merchant_id = s.merchant_id;
            courier_id = s.assigned_courier_id;
            cod_amount = s.cod_amount;
            collected_cash = or_else dto.collected_cash (pos 0);
            type = s.type;
          })))
    emit (status_changed id tenant s.status dto.new_status)

  -- `now` is the time of `new Date()`, `drawn` the password of `generateOtp` and `salt` that of its
  -- hash; `user` and `role` are those of the caller.
  unfoldable pub update_status :
      ℕ
      → ℕ
      → ℕ
      → ℕ
      → ℕ
      → UpdateShipmentStatusDto
      → Option ℕ
      → Option UserRole
      → Bool
      → Action World Error Shipment
  unfolding find_by_id
  update_status now salt drawn id tenant dto user role allow_override = do
    s ← find_by_id id tenant
    throw_if (not (validate_transition s.status dto.new_status allow_override)) invalid_transition
    otp_hash ←
        (if dto.new_status === ShipmentStatus.out_for_delivery && is_cod s
          then issue_otp salt drawn id
          else pure none)
    when (dto.new_status === ShipmentStatus.delivered && is_cod s) (check_delivery id s dto)
    written ← in_db (p.transaction (update_body p now id tenant s dto otp_hash))
    log_status id s dto user role
    announce id tenant s dto
    pure written
