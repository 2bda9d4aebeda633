-- ===== src/Plans/Tests.antt =====
-- The catalogue of plans on small tables: two plans, of which a tenant has one.
use trackora.Base.{ℕ, ◌≡◌, refl, true, false, none, some, [], ◌∷◌, List, map, reached}
use trackora.Base.Int.{pos}
use trackora.Prisma.Memory.{memory}
use trackora.Model.Enums.{FeatureFlagKey}
use trackora.Plans.Flags.{
  PlanFeatureFlagDto, plan_feature_keys, normalize_feature_flags, enabled_in,
  normalize_feature_flags_lem,
}
use trackora.Plans.Defs.{
  Plan, Catalogue, CreatePlanDto, UpdatePlanDto, create, update, remove, get_plan_or_throw, archive,
  delete, update_with_flags, update_body, write_flags, write_audit_log,
}
use trackora.Plans.Names.{IsSound}
use trackora.Plans.Runs.{here, next, creation, edit, removal, Reach-IsSound}

abbrev plan : ℕ → ℕ → Plan
plan id name = record {
  id = id;
  name = name;
  slug = name;
  monthly_price = pos 99900;
  yearly_price = none;
  currency = 1;
  monthly_shipment_limit = some 500;
  admin_user_limit = none;
  merchant_limit = none;
  courier_limit = none;
  is_public = true;
  is_popular = false;
  sort_order = 0;
  is_active = true;
  archived_at = none;
}

abbrev shop : Catalogue
shop = record {
  plans = plan 1 10 ∷ plan 2 20 ∷ [];
  plan_flags = [];
  feature_flags = [];
  tenants = record { id = 5; is_cancelled = false; current_plan_id = some 1 } ∷ [];
  subscriptions = [];
  audit_logs = [];
}

abbrev growth : CreatePlanDto
growth = record {
  name = 30;
  slug = 30;
  monthly_price = pos 199900;
  yearly_price = none;
  currency = none;
  monthly_shipment_limit = none;
  admin_user_limit = none;
  merchant_limit = none;
  courier_limit = none;
  is_public = none;
  is_popular = none;
  sort_order = none;
  feature_entitlements = none;
}

abbrev renaming : UpdatePlanDto
renaming = record {
  name = some 40;
  slug = none;
  monthly_price = none;
  yearly_price = none;
  currency = none;
  monthly_shipment_limit = some none;
  admin_user_limit = none;
  merchant_limit = none;
  courier_limit = none;
  is_public = none;
  is_popular = none;
  sort_order = none;
  is_active = none;
  feature_entitlements = none;
}

abbrev two_flags : List PlanFeatureFlagDto
two_flags =
    record { key = FeatureFlagKey.api_access; enabled = true }
    ∷ record { key = FeatureFlagKey.cod_wallet; enabled = true }
    ∷ []

shop-IsSound : IsSound shop
shop-IsSound = record {
  ids = ((λ h. cc h, tt), (tt, tt));
  names = ((λ h. cc h, tt), (tt, tt));
  slugs = ((λ h. cc h, tt), (tt, tt));
  subscribed = tt;
  chosen = (refl, tt);
}

abbrev after_creation : Catalogue
after_creation = reached (create memory 1 3 growth shop)

abbrev after_edit : Catalogue
after_edit = reached (update memory 2 renaming after_creation)

Reach-IsSound_example : IsSound (reached (remove memory 100 1 after_edit))
Reach-IsSound_example = Reach-IsSound memory shop-IsSound (
    next (next (next here (creation 1 3 growth (λ h. cc h, (λ h. cc h, tt)))) (edit 2 renaming))
      (removal 100 1))

normalize_feature_flags_example :
    normalize_feature_flags two_flags
    ≡ map (λ k. record { key = k; enabled = enabled_in two_flags k false }) plan_feature_keys
normalize_feature_flags_example = normalize_feature_flags_lem two_flags

-- The plan of the tenant is archived and the other is deleted.
removal_test :
    map
      (λ (x : Plan). x.archived_at)
      (reached (remove memory 100 2 (reached (remove memory 100 1 shop)))).plans
    ≡ some 100 ∷ []
unfolding remove get_plan_or_throw archive delete update_with_flags update_body write_flags
    write_audit_log
removal_test = refl
