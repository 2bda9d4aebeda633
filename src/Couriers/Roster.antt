-- ===== src/Couriers/Roster.antt =====
-- modules/couriers/services/couriers.service.ts: the creation, change and removal of couriers. Names,
-- vehicles and plates are left out.
use trackora.Base.{
  ℕ, Bool, true, Option, none, some, List, filter, length, Action, pure, gets, or_throw, modify,
  throw_if, ◌>>=◌, ◌>>◌, ◌==◌, ◌&&◌, not, is_some, is_just, or_else,
}
use trackora.Base.Int.{pos}
use trackora.Prisma.{Prisma}
use trackora.Model.{Courier}
use trackora.Model.Enums.{UserRole}
use trackora.Access.Session.{User}

pub record Zone : Type 0 where
  pub code : ℕ
  pub is_active : Bool

pub record Staff : Type 0 where
  pub users : List User
  pub couriers : List Courier
  pub zones : List Zone

pub record CreateCourierDto : Type 0 where
  pub phone : ℕ
  pub email : Option ℕ
  pub zone_codes : List ℕ
  pub max_daily_capacity : Option ℕ
  pub is_active : Option Bool
  pub is_available : Option Bool

pub data Error : Type 0 where
  phone_registered email_registered invalid_zone_code courier_not_found record_not_found : Error

abbrev pub by_phone : ℕ → User → Bool
by_phone phone u = u.phone == phone

abbrev pub by_id : ℕ → ℕ → Courier → Bool
by_id id tenant c = (c.id == id) && is_just tenant c.tenant_id

abbrev pub open_zone : ℕ → Zone → Bool
open_zone code z = (z.code == code) && z.is_active

abbrev pub new_user : ℕ → ℕ → CreateCourierDto → User
new_user fresh tenant dto = record {
  id = fresh;
  tenant_id = some tenant;
  role = UserRole.courier;
  is_active = or_else dto.is_active true;
  phone = dto.phone;
  email = dto.email;
  password_hash = none;
}

abbrev pub new_courier : ℕ → ℕ → ℕ → CreateCourierDto → Courier
new_courier fresh user tenant dto = record {
  id = fresh;
  tenant_id = some tenant;
  user_id = user;
  zone_codes = dto.zone_codes;
  max_daily_capacity = or_else dto.max_daily_capacity 25;
  cash_held = pos 0;
  is_active = or_else dto.is_active true;
  is_available = or_else dto.is_available true;
  total_delivered = 0;
  total_failed = 0;
  total_returned = 0;
}

module _ (p : Prisma) where
  unfoldable pub check_email : Option ℕ → Action Staff Error (Unit {0})
  check_email none = pure tt
  check_email (some email) = do
    existing ← gets (λ s. p.find_first (λ (u : User). is_just email u.email) s.users)
    throw_if (is_some existing) email_registered

  -- The codes of the request that no active zone has.
  abbrev pub invalid_zone_codes : List ℕ → Staff → List ℕ
  invalid_zone_codes codes s =
      filter (λ code. not (is_some (p.find_first (open_zone code) s.zones))) codes

  unfoldable pub create_body : ℕ → ℕ → CreateCourierDto → ℕ → Action Staff Error Courier
  create_body fresh_user fresh dto tenant = do
    existing ← gets (λ s. p.find_first (by_phone dto.phone) s.users)
    throw_if (is_some existing) phone_registered
    check_email dto.email
    invalid ← gets (invalid_zone_codes dto.zone_codes)
    throw_if (not (length invalid == 0)) invalid_zone_code
    modify (λ s. record s { users = p.create (new_user fresh_user tenant dto) s.users })
    modify
        (λ s. record s { couriers = p.create (new_courier fresh fresh_user tenant dto) s.couriers })
    pure (new_courier fresh fresh_user tenant dto)

  unfoldable pub create : ℕ → ℕ → CreateCourierDto → ℕ → Action Staff Error Courier
  create fresh_user fresh dto tenant = p.transaction (create_body fresh_user fresh dto tenant)

  -- `findById`, then `updateForTenant` or `softDeleteForTenant`
  unfoldable pub update_for_tenant : ℕ → ℕ → (Courier → Courier) → Action Staff Error Courier
  update_for_tenant id tenant f = do
    existing ← gets (λ s. p.find_first (by_id id tenant) s.couriers)
    courier ← or_throw existing courier_not_found
    found ← gets (λ s. p.update (by_id id tenant) f s.couriers)
    written ← or_throw found record_not_found
    modify (λ s. record s { couriers = written.1 })
    pure written.0

  unfoldable pub update_zones : ℕ → List ℕ → ℕ → Action Staff Error Courier
  update_zones id zone_codes tenant =
      update_for_tenant id tenant (λ c. record c { zone_codes = zone_codes })

  unfoldable pub update_availability : ℕ → Bool → ℕ → Action Staff Error Courier
  update_availability id is_available tenant =
      update_for_tenant id tenant (λ c. record c { is_available = is_available })

  unfoldable pub remove : ℕ → ℕ → Action Staff Error (Unit {0})
  remove id tenant = do
    update_for_tenant id tenant (λ c. record c { is_active = Bool.false })
    pure tt
