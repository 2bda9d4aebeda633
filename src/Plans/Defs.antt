-- ===== src/Plans/Defs.antt =====
-- modules/platform/plans/services/platform-plans.service.ts, with the methods of its repository
-- that it calls. Prices are in cents; the description and the names of feature flags are left out.
use trackora.Base.{
  ℕ, Bool, true, false, Option, none, some, List, Action, pure, gets, or_throw, modify, throw_if,
  ◌>>=◌, ◌>>◌, ◌==◌, ltb, ◌||◌, not, is_just, or_else, map, [], ◌∷◌, if◌then◌else◌,
}
use trackora.Base.Int.{ℤ}
use trackora.Prisma.{Prisma}
use trackora.Model.Enums.{FeatureFlagKey, feature_flag_key_enum, ◌===◌}
use trackora.Subscriptions.Defs.{Subscription, Tenant}
use trackora.Plans.Flags.{PlanFeatureFlagDto, normalize_feature_flags}

pub record Plan : Type 0 where
  pub id : ℕ
  pub name : ℕ
  pub slug : ℕ
  pub monthly_price : ℤ
  pub yearly_price : Option ℤ
  pub currency : ℕ
  pub monthly_shipment_limit : Option ℕ
  pub admin_user_limit : Option ℕ
  pub merchant_limit : Option ℕ
  pub courier_limit : Option ℕ
  pub is_public : Bool
  pub is_popular : Bool
  pub sort_order : ℕ
  pub is_active : Bool
  pub archived_at : Option ℕ

pub record PlanFeatureFlag : Type 0 where
  pub plan_id : ℕ
  pub feature_key : FeatureFlagKey
  pub enabled : Bool

pub data AuditAction : Type 0 where
  plan_created plan_updated plan_archived plan_deleted : AuditAction

pub record AuditLog : Type 0 where
  pub action : AuditAction
  pub resource_id : ℕ

pub record Catalogue : Type 0 where
  pub plans : List Plan
  pub plan_flags : List PlanFeatureFlag
  pub feature_flags : List FeatureFlagKey
  pub tenants : List Tenant
  pub subscriptions : List Subscription
  pub audit_logs : List AuditLog

pub record CreatePlanDto : Type 0 where
  pub name : ℕ
  pub slug : ℕ
  pub monthly_price : ℤ
  pub yearly_price : Option ℤ
  pub currency : Option ℕ
  pub monthly_shipment_limit : Option ℕ
  pub admin_user_limit : Option ℕ
  pub merchant_limit : Option ℕ
  pub courier_limit : Option ℕ
  pub is_public : Option Bool
  pub is_popular : Option Bool
  pub sort_order : Option ℕ
  pub feature_entitlements : Option (List PlanFeatureFlagDto)

-- An outer `none` is `undefined`, an inner one `null`.
pub record UpdatePlanDto : Type 0 where
  pub name : Option ℕ
  pub slug : Option ℕ
  pub monthly_price : Option ℤ
  pub yearly_price : Option (Option ℤ)
  pub currency : Option ℕ
  pub monthly_shipment_limit : Option (Option ℕ)
  pub admin_user_limit : Option (Option ℕ)
  pub merchant_limit : Option (Option ℕ)
  pub courier_limit : Option (Option ℕ)
  pub is_public : Option Bool
  pub is_popular : Option Bool
  pub sort_order : Option ℕ
  pub is_active : Option Bool
  pub feature_entitlements : Option (Option (List PlanFeatureFlagDto))

pub data Error : Type 0 where
  plan_not_found name_exists slug_exists record_not_found : Error

pub data Removed : Type 0 where
  archived : Plan → Removed
  deleted : Removed

abbrev pub by_id : ℕ → Plan → Bool
by_id id x = x.id == id

abbrev pub name_of : Plan → ℕ
name_of x = x.name

abbrev pub slug_of : Plan → ℕ
slug_of x = x.slug

-- `egp` is the code of 'EGP'.
abbrev pub new_plan : ℕ → ℕ → CreatePlanDto → Plan
new_plan egp fresh dto = record {
  id = fresh;
  name = dto.name;
  slug = dto.slug;
  monthly_price = dto.monthly_price;
  yearly_price = dto.yearly_price;
  currency = or_else dto.currency egp;
  monthly_shipment_limit = dto.monthly_shipment_limit;
  admin_user_limit = dto.admin_user_limit;
  merchant_limit = dto.merchant_limit;
  courier_limit = dto.courier_limit;
  is_public = or_else dto.is_public false;
  is_popular = or_else dto.is_popular false;
  sort_order = or_else dto.sort_order 0;
  is_active = true;
  archived_at = none;
}

-- A value that is `undefined` leaves the column as it is.
abbrev pub updated : UpdatePlanDto → Plan → Plan
updated dto x = record x {
  name = or_else dto.name x.name;
  slug = or_else dto.slug x.slug;
  monthly_price = or_else dto.monthly_price x.monthly_price;
  yearly_price = or_else dto.yearly_price x.yearly_price;
  currency = or_else dto.currency x.currency;
  monthly_shipment_limit = or_else dto.monthly_shipment_limit x.monthly_shipment_limit;
  admin_user_limit = or_else dto.admin_user_limit x.admin_user_limit;
  merchant_limit = or_else dto.merchant_limit x.merchant_limit;
  courier_limit = or_else dto.courier_limit x.courier_limit;
  is_public = or_else dto.is_public x.is_public;
  is_popular = or_else dto.is_popular x.is_popular;
  sort_order = or_else dto.sort_order x.sort_order;
  is_active = or_else dto.is_active x.is_active;
}

abbrev pub shelved : ℕ → Plan → Plan
shelved now x = record x { is_active = false; archived_at = some now }

-- The flags that an update is given, if any.
abbrev pub entitlements :
    Option (Option (List PlanFeatureFlagDto)) → Option (List PlanFeatureFlagDto)
entitlements none = none
entitlements (some flags) = some (normalize_feature_flags (or_else flags []))

abbrev pub flag_row : ℕ → PlanFeatureFlagDto → PlanFeatureFlag
flag_row plan flag = record { plan_id = plan; feature_key = flag.key; enabled = flag.enabled }

module _ (p : Prisma) where
  abbrev pub ensure_feature_flags :
      List PlanFeatureFlagDto → List FeatureFlagKey → List FeatureFlagKey
  ensure_feature_flags [] rows = rows
  ensure_feature_flags (flag ∷ flags) rows =
      ensure_feature_flags flags (p.upsert (λ k. k === flag.key) flag.key (λ k. k) rows)

  abbrev pub replace_plan_flags :
      ℕ → List PlanFeatureFlagDto → List PlanFeatureFlag → List PlanFeatureFlag
  replace_plan_flags plan flags rows =
      p.create_many (map (flag_row plan) flags) (p.delete_many (λ r. r.plan_id == plan) rows)

  -- `ensureFeatureFlags` and `replacePlanFlags`, where flags are given
  unfoldable pub write_flags :
      ℕ → Option (List PlanFeatureFlagDto) → Action Catalogue Error (Unit {0})
  write_flags plan none = pure tt
  write_flags plan (some flags) = modify (λ s. record s {
    feature_flags = ensure_feature_flags flags s.feature_flags;
    plan_flags = replace_plan_flags plan flags s.plan_flags;
  })

  unfoldable pub write_audit_log : AuditAction → ℕ → Action Catalogue Error (Unit {0})
  write_audit_log action resource = modify (λ s. record s {
    audit_logs = p.create (record { action = action; resource_id = resource }) s.audit_logs;
  })

  unfoldable pub get_plan_or_throw : ℕ → Action Catalogue Error Plan
  get_plan_or_throw id = do
    plan ← gets (λ s. p.find_first (by_id id) s.plans)
    or_throw plan plan_not_found

  -- The row that is found must be the plan itself.
  unfoldable pub assert_same : Option Plan → Option ℕ → Error → Action Catalogue Error (Unit {0})
  assert_same none current e = pure tt
  assert_same (some x) current e = throw_if (not (is_just x.id current)) e

  unfoldable pub assert_unique :
      (Plan → ℕ) → Option ℕ → Option ℕ → Error → Action Catalogue Error (Unit {0})
  assert_unique column none current e = pure tt
  assert_unique column (some value) current e = do
    existing ← gets (λ s. p.find_first (λ x. column x == value) s.plans)
    assert_same existing current e

  unfoldable pub assert_unique_plan :
      Option ℕ → Option ℕ → Option ℕ → Action Catalogue Error (Unit {0})
  assert_unique_plan name slug current = do
    assert_unique name_of name current name_exists
    assert_unique slug_of slug current slug_exists

  unfoldable pub create_body : Plan → List PlanFeatureFlagDto → Action Catalogue Error Plan
  create_body plan flags = do
    modify (λ s. record s { plans = p.create plan s.plans })
    write_flags plan.id (some flags)
    found ← gets (λ s. p.find_first (by_id plan.id) s.plans)
    or_throw found record_not_found

  unfoldable pub create : ℕ → ℕ → CreatePlanDto → Action Catalogue Error Plan
  create egp fresh dto = do
    assert_unique_plan (some dto.name) (some dto.slug) none
    plan ← p.transaction (
        create_body (new_plan egp fresh dto)
          (normalize_feature_flags (or_else dto.feature_entitlements [])))
    write_audit_log AuditAction.plan_created plan.id
    pure plan

  unfoldable pub update_body :
      ℕ → (Plan → Plan) → Option (List PlanFeatureFlagDto) → Action Catalogue Error Plan
  update_body id f flags = do
    found ← gets (λ s. p.update (by_id id) f s.plans)
    written ← or_throw found record_not_found
    modify (λ s. record s { plans = written.1 })
    write_flags id flags
    after ← gets (λ s. p.find_first (by_id id) s.plans)
    or_throw after record_not_found

  unfoldable pub update_with_flags :
      ℕ → (Plan → Plan) → Option (List PlanFeatureFlagDto) → Action Catalogue Error Plan
  update_with_flags id f flags = p.transaction (update_body id f flags)

  unfoldable pub update : ℕ → UpdatePlanDto → Action Catalogue Error Plan
  update id dto = do
    plan ← get_plan_or_throw id
    assert_unique_plan dto.name dto.slug (some id)
    after ← update_with_flags plan.id (updated dto) (entitlements dto.feature_entitlements)
    write_audit_log AuditAction.plan_updated id
    pure after

  abbrev pub subscriptions_of : ℕ → Catalogue → ℕ
  subscriptions_of id s = p.count (λ (x : Subscription). x.plan_id == id) s.subscriptions

  abbrev pub current_tenants_of : ℕ → Catalogue → ℕ
  current_tenants_of id s = p.count (λ (x : Tenant). is_just id x.current_plan_id) s.tenants

  unfoldable pub archive : ℕ → ℕ → Action Catalogue Error Removed
  archive now id = do
    plan ← update_with_flags id (shelved now) none
    write_audit_log AuditAction.plan_archived id
    pure (archived plan)

  -- The flags of the plan go with it (`onDelete: Cascade`).
  unfoldable pub delete : ℕ → Action Catalogue Error Removed
  delete id = do
    found ← gets (λ s. p.delete (by_id id) s.plans)
    rest ← or_throw found record_not_found
    modify (λ s. record s {
      plans = rest;
      plan_flags = p.delete_many (λ r. r.plan_id == id) s.plan_flags;
    })
    write_audit_log AuditAction.plan_deleted id
    pure deleted

  unfoldable pub remove : ℕ → ℕ → Action Catalogue Error Removed
  remove now id = do
    plan ← get_plan_or_throw id
    subscriptions ← gets (subscriptions_of id)
    tenants ← gets (current_tenants_of id)
    if ltb 0 subscriptions || ltb 0 tenants then archive now plan.id else delete plan.id
