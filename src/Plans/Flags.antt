-- ===== src/Plans/Flags.antt =====
-- `normalizeFeatureFlags` of modules/platform/plans/services/platform-plans.service.ts, which fills a
-- map of all keys.
use trackora.Base.{◌≡◌, refl, ap, ◌∙◌, Bool, false, List, [], ◌∷◌, map, if◌then◌else◌}
use trackora.Model.Enums.{FeatureFlagKey, feature_flag_key_enum, ◌===◌}

pub record PlanFeatureFlagDto : Type 0 where
  pub key : FeatureFlagKey
  pub enabled : Bool

-- `Object.values(FeatureFlagKey)`
abbrev pub plan_feature_keys : List FeatureFlagKey
plan_feature_keys =
    FeatureFlagKey.smart_dispatch ∷ FeatureFlagKey.fraud_detection ∷ FeatureFlagKey.cod_wallet
    ∷ FeatureFlagKey.bulk_upload ∷ FeatureFlagKey.whatsapp_notifications ∷ FeatureFlagKey.api_access
    ∷ FeatureFlagKey.public_tracking ∷ FeatureFlagKey.advanced_reports ∷ []

-- `byKey.set`: the entry of a key keeps its place, and a new key comes last.
unfoldable pub set : PlanFeatureFlagDto → List PlanFeatureFlagDto → List PlanFeatureFlagDto
set flag [] = flag ∷ []
set flag (x ∷ xs) = let rest = set flag xs in if x.key === flag.key then flag ∷ xs else x ∷ rest

unfoldable pub set_each :
    List PlanFeatureFlagDto → List PlanFeatureFlagDto → List PlanFeatureFlagDto
set_each [] by_key = by_key
set_each (flag ∷ flags) by_key = set_each flags (set flag by_key)

abbrev pub cleared : FeatureFlagKey → PlanFeatureFlagDto
cleared k = record { key = k; enabled = false }

unfoldable pub normalize_feature_flags : List PlanFeatureFlagDto → List PlanFeatureFlagDto
normalize_feature_flags flags = set_each flags (map cleared plan_feature_keys)

-- What a list of flags says of a key: its last entry, or `b` where it has none.
abbrev pub enabled_in : List PlanFeatureFlagDto → FeatureFlagKey → Bool → Bool
enabled_in [] k b = b
enabled_in (x ∷ xs) k b = enabled_in xs k (if k === x.key then x.enabled else b)

abbrev table : (FeatureFlagKey → Bool) → List FeatureFlagKey → List PlanFeatureFlagDto
table g ks = map (λ k. record { key = k; enabled = g k }) ks

set-table :
    (k : FeatureFlagKey) (b : Bool) (g : FeatureFlagKey → Bool)
    → set (record { key = k; enabled = b }) (table g plan_feature_keys)
      ≡ table (λ j. if j === k then b else g j) plan_feature_keys
unfolding set
set-table FeatureFlagKey.smart_dispatch b g = refl
set-table FeatureFlagKey.fraud_detection b g = refl
set-table FeatureFlagKey.cod_wallet b g = refl
set-table FeatureFlagKey.bulk_upload b g = refl
set-table FeatureFlagKey.whatsapp_notifications b g = refl
set-table FeatureFlagKey.api_access b g = refl
set-table FeatureFlagKey.public_tracking b g = refl
set-table FeatureFlagKey.advanced_reports b g = refl

set_each-table :
    (flags : List PlanFeatureFlagDto) (g : FeatureFlagKey → Bool)
    → set_each flags (table g plan_feature_keys)
      ≡ table (λ k. enabled_in flags k (g k)) plan_feature_keys
unfolding set_each
set_each-table [] g = refl
set_each-table (f ∷ flags) g =
    ap (set_each flags) (set-table f.key f.enabled g)
    ∙ set_each-table flags (λ k. if k === f.key then f.enabled else g k)

-- The normalised flags are, for each key of the enumeration once and in its order, the key with its
-- last entry among the given flags, and with false where it has none.
pub normalize_feature_flags_lem :
    (flags : List PlanFeatureFlagDto)
    → normalize_feature_flags flags
      ≡ map (λ k. record { key = k; enabled = enabled_in flags k false }) plan_feature_keys
unfolding normalize_feature_flags
normalize_feature_flags_lem flags = set_each-table flags (λ _. false)
