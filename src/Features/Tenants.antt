-- ===== src/Features/Tenants.antt =====
-- The resolution of flags after `updateTenantFlag` of
-- modules/platform/feature-flags/services/platform-feature-flags.service.ts.
use trackora.Base.{
  ℕ, ◌≡◌, refl, Bool, Option, none, some, Option-cases, Bool-cases, inl, inr, if◌then◌else◌, ◌==◌,
  ◌&&◌, or_else, arith, Ensures, Ensures-or_throw, Ensures-step, ok,
}
use trackora.Prisma.{Prisma}
use trackora.Model.Enums.{FeatureFlagKey, feature_flag_key_enum, ◌===◌}
use trackora.Subscriptions.Defs.{Tenant}
use trackora.Plans.Defs.{PlanFeatureFlag}
use trackora.Features.Defs.{
  FeatureFlag, TenantFeatureFlag, Flags, inherited, override_value, resolve_flag, tenant_by_id,
  override_of, flag_of, plan_flag_of, resolution, ensure_feature_flag, set_override, override_body,
  write_audit_log, update_tenant_flag,
}
use trackora.Features.Effect.{IsKeyed, number, ensure-inherited, set-other, set-own}

resolve_own :
    (o : Option TenantFeatureFlag) (f : Option PlanFeatureFlag) (g g' : Option FeatureFlag)
    (e : Option Bool)
    → override_value o ≡ e
    → (inherited f g).enabled ≡ (inherited f g').enabled
    → (resolve_flag o f g).enabled ≡ or_else e (inherited f g').enabled
resolve_own o f g g' none h i = rw (h, resolve_flag) i
resolve_own o f g g' (some b) h i = rw (h, resolve_flag) refl

resolve_other :
    (o : Option TenantFeatureFlag) (f : Option PlanFeatureFlag) (g g' : Option FeatureFlag)
    → (inherited f g).enabled ≡ (inherited f g').enabled
    → (resolve_flag o f g).enabled ≡ (resolve_flag o f g').enabled
resolve_other o f g g' i = elim (Option-cases (override_value o)) [
  | inl e ↦ rw (e, resolve_flag) i
  | inr (b, e) ↦ rw (e, resolve_flag) refl
]

module _ (p : Prisma) where
  -- The flag is what is set, or else what is inherited, and the flags of other tenants and keys are
  -- what they were.
  abbrev pub Effect : ℕ → FeatureFlagKey → Option Bool → Flags → Flags → Type 0
  Effect tenant key enabled s s' =
      (t : Tenant) (k : FeatureFlagKey)
      → (resolution p t k s').enabled ≡ (
          if (t.id == tenant) && (k === key)
          then or_else enabled
              (inherited (plan_flag_of p t.current_plan_id k s.plan_flags)
                (p.find_first (flag_of k) s.global_flags)).enabled
          else (resolution p t k s).enabled)

  kept_columns :
      (tenant : ℕ) (key : FeatureFlagKey) (enabled : Option Bool) (s : Flags)
      → ((set_override p tenant key enabled s).plan_flags ≡ s.plan_flags)
        × ((set_override p tenant key enabled s).global_flags ≡ s.global_flags)
        × ((set_override p tenant key enabled s).tenants ≡ s.tenants)
  unfolding set_override
  kept_columns tenant key none s = (refl, refl, refl)
  kept_columns tenant key (some b) s = (refl, refl, refl)

  found_own :
      (tenant : ℕ) (key : FeatureFlagKey) (enabled : Option Bool) (s : Flags) (a n : ℕ)
      → a ≡ tenant
      → n ≡ number key
      → override_value (
          p.find_first
            (λ (o : TenantFeatureFlag). (o.tenant_id == a) && (number o.feature_key == n))
            (set_override p tenant key enabled s).overrides)
        ≡ enabled
  found_own tenant key enabled s a n h i = rw (h, i) (set-own p tenant key enabled s)

  writes-Effect :
      (tenant : ℕ) (key : FeatureFlagKey) (enabled : Option Bool) (s : Flags)
      → IsKeyed s
      → Effect tenant key enabled s
          (set_override p tenant key enabled (ensure_feature_flag p key s))
  unfolding ensure_feature_flag
  writes-Effect tenant key enabled s v t k =
      let (plans, globals, _) = kept_columns tenant key enabled (ensure_feature_flag p key s) in
      let same = ensure-inherited p key k (plan_flag_of p t.current_plan_id k s.plan_flags) s v in
      rw (plans, globals)
        (elim (Bool-cases ((t.id == tenant) && (k === key))) [
          | inl c ↦ rw c (
              resolve_own
                (p.find_first (override_of t.id k)
                  (set_override p tenant key enabled (ensure_feature_flag p key s)).overrides)
                (plan_flag_of p t.current_plan_id k s.plan_flags) _ _ enabled
                (found_own tenant key enabled (ensure_feature_flag p key s) t.id (number k)
                  (ground (arith, c)) (ground (arith, c)))
                same)
          | inr c ↦
              rw
                (
                  c,
                  set-other p tenant key enabled t.id k (ensure_feature_flag p key s) c
                      (v.overrides t.id k),
                )
                (resolve_other (p.find_first (override_of t.id k) s.overrides)
                  (plan_flag_of p t.current_plan_id k s.plan_flags) _ _ same)
        ])

  -- The body of the transaction does not throw for a tenant that exists.
  transaction-ok :
      (tenant : ℕ) (key : FeatureFlagKey) (enabled : Option Bool) (s : Flags) (t : Tenant)
      → p.find_first (tenant_by_id tenant) s.tenants ≡ some t
      → p.transaction (override_body p tenant key enabled) s
        ≡ ok t (set_override p tenant key enabled (ensure_feature_flag p key s))
  unfolding override_body ensure_feature_flag
  transaction-ok tenant key enabled s t found =
      let (_, _, kept) = kept_columns tenant key enabled (ensure_feature_flag p key s) in
      rw (p.transaction-eq (override_body p tenant key enabled) s)
        (rw found (rw kept (rw found refl)))

  -- Where a tenant has at most one override of a key and a key one flag, the call throws only where
  -- the tenant does not exist, and then changes nothing. Where it returns, each flag of each tenant is
  -- enabled as follows: that of the call as it says, or as the plan, the global flag or else false
  -- has it where the override is removed, and every other as it was.
  pub update_tenant_flag-Effect :
      (tenant : ℕ) (key : FeatureFlagKey) (enabled : Option Bool) (s : Flags)
      → IsKeyed s
      → Ensures
          (λ _ s'. Effect tenant key enabled s s')
          (λ _ s'. (s' ≡ s) × (p.find_first (tenant_by_id tenant) s.tenants ≡ none))
          (update_tenant_flag p tenant key enabled s)
  unfolding update_tenant_flag write_audit_log
  update_tenant_flag-Effect tenant key enabled s v =
      Ensures-or_throw _ _ (p.find_first (tenant_by_id tenant) s.tenants) _ s _ (λ e. (refl, e))
        λ t found.
          Ensures-step _ _ (p.transaction (override_body p tenant key enabled)) _ s t
            (set_override p tenant key enabled (ensure_feature_flag p key s))
            (transaction-ok tenant key enabled s t found) (writes-Effect tenant key enabled s v)
