-- ===== src/Features/Defs.antt =====
-- modules/platform/feature-flags/services/platform-feature-flags.service.ts with its repository. Names,
-- labels and reasons are left out.
use trackora.Base.{
  ℕ, Bool, false, Option, none, some, List, map, Action, gets, or_throw, modify, ◌>>=◌, ◌>>◌, ◌==◌,
  ◌&&◌,
}
use trackora.Prisma.{Prisma}
use trackora.Model.Enums.{FeatureFlagKey, feature_flag_key_enum, ◌===◌}
use trackora.Subscriptions.Defs.{Tenant}
use trackora.Plans.Flags.{plan_feature_keys}
use trackora.Plans.Defs.{PlanFeatureFlag}

pub record FeatureFlag : Type 0 where
  pub key : FeatureFlagKey
  pub default_enabled : Bool

pub record TenantFeatureFlag : Type 0 where
  pub tenant_id : ℕ
  pub feature_key : FeatureFlagKey
  pub enabled : Option Bool

pub data AuditAction : Type 0 where
  global_changed tenant_override_removed tenant_override_changed : AuditAction

pub record AuditLog : Type 0 where
  pub action : AuditAction
  pub tenant_id : Option ℕ
  pub key : FeatureFlagKey

pub record Flags : Type 0 where
  pub tenants : List Tenant
  pub plan_flags : List PlanFeatureFlag
  pub global_flags : List FeatureFlag
  pub overrides : List TenantFeatureFlag
  pub audit_logs : List AuditLog

pub data FeatureFlagSource : Type 0 where
  tenant_override plan global default_false : FeatureFlagSource

pub record Resolution : Type 0 where
  pub enabled : Bool
  pub source : FeatureFlagSource

pub data Error : Type 0 where
  tenant_not_found record_not_found : Error

-- What is resolved where no override is set.
abbrev pub inherited : Option PlanFeatureFlag → Option FeatureFlag → Resolution
inherited (some f) global_flag = record { enabled = f.enabled; source = FeatureFlagSource.plan }
inherited none (some g) = record { enabled = g.default_enabled; source = FeatureFlagSource.global }
inherited none none = record { enabled = false; source = FeatureFlagSource.default_false }

-- `tenantOverride?.enabled`
abbrev pub override_value : Option TenantFeatureFlag → Option Bool
override_value none = none
override_value (some o) = o.enabled

abbrev pub resolve_flag :
    Option TenantFeatureFlag → Option PlanFeatureFlag → Option FeatureFlag → Resolution
resolve_flag o plan_flag global_flag = elim (override_value o) [
  | some b ↦ record { enabled = b; source = FeatureFlagSource.tenant_override }
  | none ↦ inherited plan_flag global_flag
]

abbrev pub tenant_by_id : ℕ → Tenant → Bool
tenant_by_id id t = t.id == id

abbrev pub override_of : ℕ → FeatureFlagKey → TenantFeatureFlag → Bool
override_of tenant key o = (o.tenant_id == tenant) && (o.feature_key === key)

abbrev pub entitlement_of : ℕ → FeatureFlagKey → PlanFeatureFlag → Bool
entitlement_of id key f = (f.plan_id == id) && (f.feature_key === key)

abbrev pub flag_of : FeatureFlagKey → FeatureFlag → Bool
flag_of key f = f.key === key

abbrev pub new_flag : FeatureFlagKey → Bool → FeatureFlag
new_flag key enabled = record { key = key; default_enabled = enabled }

abbrev pub new_override : ℕ → FeatureFlagKey → Bool → TenantFeatureFlag
new_override tenant key enabled = record {
  tenant_id = tenant;
  feature_key = key;
  enabled = some enabled;
}

abbrev pub overridden : Bool → TenantFeatureFlag → TenantFeatureFlag
overridden enabled o = record o { enabled = some enabled }

module _ (p : Prisma) where
  abbrev pub plan_flag_of :
      Option ℕ → FeatureFlagKey → List PlanFeatureFlag → Option PlanFeatureFlag
  plan_flag_of none key flags = none
  plan_flag_of (some id) key flags = p.find_first (entitlement_of id key) flags

  -- One entry of `toTenantResponse`.
  abbrev pub resolution : Tenant → FeatureFlagKey → Flags → Resolution
  resolution tenant key s =
      resolve_flag (p.find_first (override_of tenant.id key) s.overrides)
        (plan_flag_of tenant.current_plan_id key s.plan_flags)
        (p.find_first (flag_of key) s.global_flags)

  abbrev pub to_tenant_response : Tenant → Flags → List Resolution
  to_tenant_response tenant s = map (λ key. resolution tenant key s) plan_feature_keys

  unfoldable pub ensure_feature_flag : FeatureFlagKey → Flags → Flags
  ensure_feature_flag key s = record s {
    global_flags = p.upsert (flag_of key) (new_flag key false) (λ f. f) s.global_flags;
  }

  unfoldable pub set_override : ℕ → FeatureFlagKey → Option Bool → Flags → Flags
  set_override tenant key none s = record s {
    overrides = p.delete_many (override_of tenant key) s.overrides;
  }
  set_override tenant key (some enabled) s = record s {
    overrides =
        p.upsert (override_of tenant key) (new_override tenant key enabled) (overridden enabled)
          s.overrides;
  }

  unfoldable pub override_body : ℕ → FeatureFlagKey → Option Bool → Action Flags Error Tenant
  override_body tenant key enabled = do
    found ← gets (λ s. p.find_first (tenant_by_id tenant) s.tenants)
    existing ← or_throw found record_not_found
    modify (ensure_feature_flag key)
    modify (set_override tenant key enabled)
    after ← gets (λ s. p.find_first (tenant_by_id tenant) s.tenants)
    or_throw after record_not_found

  abbrev pub override_action : Option Bool → AuditAction
  override_action none = AuditAction.tenant_override_removed
  override_action (some enabled) = AuditAction.tenant_override_changed

  unfoldable pub write_audit_log :
      AuditAction → Option ℕ → FeatureFlagKey → Action Flags Error (Unit {0})
  write_audit_log action tenant key = modify (λ s. record s {
    audit_logs = p.create (record { action = action; tenant_id = tenant; key = key }) s.audit_logs;
  })

  unfoldable pub update_tenant_flag :
      ℕ → FeatureFlagKey → Option Bool → Action Flags Error (List Resolution)
  update_tenant_flag tenant key enabled = do
    before ← gets (λ s. p.find_first (tenant_by_id tenant) s.tenants)
    existing ← or_throw before tenant_not_found
    updated ← p.transaction (override_body tenant key enabled)
    write_audit_log (override_action enabled) (some tenant) key
    gets (to_tenant_response updated)

  unfoldable pub update_global : FeatureFlagKey → Bool → Action Flags Error (Unit {0})
  update_global key enabled = do
    modify (λ s. record s {
      global_flags =
          p.upsert (flag_of key) (new_flag key enabled)
            (λ f. record f { default_enabled = enabled }) s.global_flags;
    })
    write_audit_log AuditAction.global_changed none key

  unfoldable pub find_tenant_flags : ℕ → Action Flags Error (List Resolution)
  find_tenant_flags tenant = do
    found ← gets (λ s. p.find_first (tenant_by_id tenant) s.tenants)
    existing ← or_throw found tenant_not_found
    gets (to_tenant_response existing)
