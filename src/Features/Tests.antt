-- ===== src/Features/Tests.antt =====
-- Feature flags of two tenants, one of which has a plan.
use mathlib.Core.List.{Memᴰ}
use trackora.Base.{◌≡◌, ◌∙◌, sym, true, false, none, some, [], ◌∷◌, Ensures}
use trackora.Prisma.Memory.{memory}
use trackora.Model.Enums.{FeatureFlagKey}
use trackora.Features.Defs.{Flags, update_tenant_flag, tenant_by_id}
use trackora.Features.Effect.{IsKeyed}
use trackora.Features.Tenants.{Effect, update_tenant_flag-Effect}

abbrev sample : Flags
sample = record {
  tenants =
      record { id = 5; is_cancelled = false; current_plan_id = some 1 }
      ∷ record { id = 6; is_cancelled = false; current_plan_id = none }
      ∷ [];
  plan_flags = record { plan_id = 1; feature_key = FeatureFlagKey.api_access; enabled = true } ∷ [];
  global_flags = record { key = FeatureFlagKey.api_access; default_enabled = false } ∷ [];
  overrides =
      record { tenant_id = 6; feature_key = FeatureFlagKey.api_access; enabled = some true } ∷ [];
  audit_logs = [];
}

one_row : {Row : Type 0} (r x y : Row) → Memᴰ x (r ∷ []) → Memᴰ y (r ∷ []) → x ≡ y
one_row r x y (Memᴰ.head a) (Memᴰ.head b) = a ∙ sym b
one_row r x y (Memᴰ.head a) (Memᴰ.tail n) = elim n [ ]
one_row r x y (Memᴰ.tail m) n = elim m [ ]

sample-IsKeyed : IsKeyed sample
sample-IsKeyed = record {
  overrides = λ tenant key x y m n _ _. one_row _ x y m n;
  globals = λ key x y m n _ _. one_row _ x y m n;
}

update_tenant_flag-Effect_example :
    Ensures
      (λ _ s'. Effect memory 5 FeatureFlagKey.api_access (some false) sample s')
      (λ _ s'. (s' ≡ sample) × (memory.find_first (tenant_by_id 5) sample.tenants ≡ none))
      (update_tenant_flag memory 5 FeatureFlagKey.api_access (some false) sample)
update_tenant_flag-Effect_example =
    update_tenant_flag-Effect memory 5 FeatureFlagKey.api_access (some false) sample sample-IsKeyed
