-- ===== src/Shipments/Create.antt =====
-- `create` of modules/shipments/services/shipments.service.ts, with `generateUnique` of
-- tracking-number.service.ts. A tracking number TRK-yymmdd-rrrr is the number yymmddrrrr; the random
-- numbers that are drawn are an argument.
pub mod Writes
pub mod Tests
use trackora.Base.{
  ℕ, zero, suc, ◌+◌, ◌*◌, ◌≡◌, ◌≢◌, refl, ◌∙◌, ap, Bool, true, false, Option, none, some, List, [],
  ◌∷◌, All, All-mono, Action, pure, gets, or_throw, modify, throw_if, ◌>>=◌, ◌>>◌, ◌==◌, ◌&&◌,
  is_just, or_else, if◌then◌else◌, Ensures, Ensures-or_throw, Ensures-bind, Option-cases,
  Bool-cases, inl, inr, ==_iff, is_just-true, arith, ◌⊎◌, Outcome, ok, err,
}
use trackora.Base.Int.{ℤ, pos}
use trackora.Prisma.{Prisma}
use trackora.Prisma.Rows.{Unchanged}
use trackora.Model.{Db, Merchant, Shipment, ShipmentStatusLog}
use trackora.Model.Enums.{
  ShipmentStatus, ShipmentType, UserRole, ◌===◌, shipment_type_enum, user_role_enum,
}
use trackora.Shipments.Risk.{Text, calculate_risk_score}

pub record CreateShipmentDto : Type 0 where
  pub merchant_id : Option ℕ
  pub customer_name : Text
  pub customer_phone : Text
  pub address_text : Text
  pub type : ShipmentType
  pub cod_amount : Option ℤ

-- The event 'shipment.created'.
pub record Created : Type 0 where
  pub shipment_id : ℕ
  pub tracking_number : ℕ
  pub merchant_id : ℕ
  pub tenant_id : ℕ
  pub status : ShipmentStatus
  pub cod_amount : ℤ
  pub type : ShipmentType

pub record World : Type 0 where
  pub db : Db
  pub events : List Created

pub data Error : Type 0 where
  merchant_not_found no_tracking_number : Error
  -- thrown by the client, where the database fails a write
  write_failed : Error

abbrev pub max_attempts : ℕ
max_attempts = 10

abbrev pub generate : ℕ → ℕ → ℕ
generate date random = date * 10000 + random

abbrev pub numbered : ℕ → Shipment → Bool
numbered number s = s.tracking_number == number

-- The merchant that a shipment is for, by the role of the actor.
abbrev pub merchant_for : Option ℕ → ℕ → ℕ → UserRole → Merchant → Bool
merchant_for requested tenant actor role m =
    let own = is_just tenant m.tenant_id && (m.user_id == actor) && m.is_active in
    if role === UserRole.merchant then own else (elim requested [
      | none ↦ own
      | some id ↦ (m.id == id) && is_just tenant m.tenant_id && m.is_active
    ])

abbrev pub risk_of : CreateShipmentDto → ℕ
risk_of dto = calculate_risk_score (record {
  customer_phone = some dto.customer_phone;
  address_text = some dto.address_text;
  cod_amount = if dto.type === ShipmentType.cod then dto.cod_amount else some (pos 0);
  customer_name = some dto.customer_name;
})

abbrev pub new_shipment : ℕ → ℕ → ℕ → ℕ → ℕ → CreateShipmentDto → Shipment
new_shipment now fresh number tenant merchant dto = record {
  id = fresh;
  tenant_id = some tenant;
  tracking_number = number;
  merchant_id = merchant;
  status = ShipmentStatus.pending;
  type = dto.type;
  cod_amount = or_else dto.cod_amount (pos 0);
  delivery_attempts = 0;
  assigned_courier_id = none;
  collected_cash = none;
  customer_otp = none;
  delivered_at = none;
  returned_at = none;
  cancelled_at = none;
  risk_score = risk_of dto;
  created_at = now;
}

abbrev pub creation_log : ℕ → ShipmentStatusLog
creation_log fresh = record {
  shipment_id = fresh;
  previous_status = none;
  new_status = ShipmentStatus.pending;
  changed_by_user_id = none;
  changed_by_role = none;
}

abbrev pub created_event : ℕ → Shipment → Created
created_event tenant s = record {
  shipment_id = s.id;
  tracking_number = s.tracking_number;
  merchant_id = s.merchant_id;
  tenant_id = tenant;
  status = ShipmentStatus.pending;
  cod_amount = s.cod_amount;
  type = s.type;
}

module _ (p : Prisma) where
  -- The loop with the attempts that are left, from draw number `i` on.
  unfoldable pub attempts_left : ℕ → (ℕ → ℕ) → ℕ → ℕ → Action World Error ℕ
  attempts_left date draw i zero w = err no_tracking_number w
  attempts_left date draw i (suc k) w =
      let rest = attempts_left date draw (suc i) k w in
      elim (p.find_first (numbered (generate date (draw i))) w.db.shipments) [
        | none ↦ ok (generate date (draw i)) w
        | some s ↦ rest
      ]

  unfoldable pub generate_unique : ℕ → (ℕ → ℕ) → Action World Error ℕ
  generate_unique date draw = attempts_left date draw 0 max_attempts

  -- The two inserts are in no transaction. `shipment_fails` and `log_fails` are what the database
  -- does with them.
  unfoldable pub create :
      Bool
      → Bool
      → ℕ
      → ℕ
      → (ℕ → ℕ)
      → ℕ
      → CreateShipmentDto
      → ℕ
      → ℕ
      → UserRole
      → Action World Error Shipment
  create shipment_fails log_fails now date draw fresh dto tenant actor role = do
    found ← gets (λ w. p.find_first (merchant_for dto.merchant_id tenant actor role) w.db.merchants)
    merchant ← or_throw found merchant_not_found
    number ← generate_unique date draw
    let shipment = new_shipment now fresh number tenant merchant.id dto
    throw_if shipment_fails write_failed
    modify (λ w. record w { db = record w.db { shipments = p.create shipment w.db.shipments } })
    throw_if log_fails write_failed
    modify (λ w. record w {
      db = record w.db { status_logs = p.create (creation_log fresh) w.db.status_logs };
    })
    modify (λ w. record w { events = created_event tenant shipment ∷ w.events })
    pure shipment
