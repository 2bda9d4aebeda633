-- ===== src/Features/Effect.antt =====
-- What `updateTenantFlag` of modules/platform/feature-flags/services/platform-feature-flags.service.ts
-- does to the flags of all tenants.
use mathlib.Core.List.{Memᴰ}
use trackora.Base.{
  ℕ, ◌≡◌, refl, Bool, true, false, Option, none, some, ◌∷◌, filter, not, Option-cases, Bool-cases,
  inl, inr, subst, ◌==◌, ==_iff, ◌&&◌, arith,
}
use trackora.Prisma.{Prisma, change}
use trackora.Prisma.Rows.{All-mem, find_first-only}
use trackora.Prisma.Rivals.{All-change}
use trackora.Prisma.Lookup.{
  filter-none, change-Mem, change_id, Single, find_first-Agree, change-Agree, filter-Agree,
  cons-Agree,
}
use trackora.Model.Enums.{FeatureFlagKey, feature_flag_key_enum, ◌===◌}
use trackora.Plans.Defs.{PlanFeatureFlag}
use trackora.Features.Defs.{
  FeatureFlag, Flags, inherited, override_value, new_override, overridden, new_flag, override_of,
  flag_of, ensure_feature_flag, set_override,
}

-- The unique columns of the two tables of flags.
pub record IsKeyed (s : Flags) : Type 0 where
  pub overrides : (tenant : ℕ) (key : FeatureFlagKey) → Single (override_of tenant key) s.overrides
  pub globals : (key : FeatureFlagKey) → Single (flag_of key) s.global_flags

abbrev pub number : FeatureFlagKey → ℕ
number k = feature_flag_key_enum.index k

-- Two pairs of numbers that differ are not both met.
disjoint :
    (a b m n x y : ℕ)
    → ((a == m) && (b == n)) ≡ false
    → ((x == a) && (y == b)) ≡ true
    → ((x == m) && (y == n)) ≡ false
disjoint a b m n x y h c = ground (arith, h, c)

flipped : (a b m n : ℕ) → ((a == m) && (b == n)) ≡ false → ((m == a) && (n == b)) ≡ false
flipped a b m n h = ground (arith, h)

both_met : (a b : ℕ) → ((a == a) && (b == b)) ≡ true
both_met a b = ground arith

module _ (p : Prisma) where
  -- A flag that is put on record is off by default, as one that is not on record.
  pub ensure-inherited :
      (key k : FeatureFlagKey) (f : Option PlanFeatureFlag) (s : Flags)
      → IsKeyed s
      → (inherited f (p.find_first (flag_of k) (ensure_feature_flag p key s).global_flags)).enabled
        ≡ (inherited f (p.find_first (flag_of k) s.global_flags)).enabled
  unfolding ensure_feature_flag
  ensure-inherited key k (some f) s v = refl
  ensure-inherited key k none s v =
      elim (Option-cases (p.find_first (flag_of key) s.global_flags)) [
        | inr (g, e) ↦
            rw (p.upsert-some (flag_of key) (new_flag key false) (λ f. f) _ g e)
              (rw (change_id (flag_of key) s.global_flags) refl)
        | inl e ↦
            rw (p.upsert-none (flag_of key) (new_flag key false) (λ f. f) _ e)
              (elim (Bool-cases (key === k)) [
                | inl c ↦ same e c
                | inr c ↦
                    rw
                      (find_first-Agree (flag_of k) p s.global_flags _ (v.globals k)
                        (cons-Agree (flag_of k) (new_flag key false) s.global_flags c))
                      refl
              ])
      ]
    where
      same :
          p.find_first (flag_of key) s.global_flags ≡ none
          → (key === k) ≡ true
          → (inherited none
              (p.find_first (flag_of k) (new_flag key false ∷ s.global_flags))).enabled
            ≡ (inherited none (p.find_first (flag_of k) s.global_flags)).enabled
      same e c = both (number k) ((==_iff (number key) (number k)).0 c) e
        where
          both :
              (n : ℕ)
              → number key ≡ n
              → p.find_first (flag_of key) s.global_flags ≡ none
              → (inherited none (
                  p.find_first
                    (λ f. number f.key == n)
                    (new_flag key false ∷ s.global_flags))).enabled
                ≡ (inherited none (p.find_first (λ f. number f.key == n) s.global_flags)).enabled
          both n h e =
              let d : p.find_first (λ f. number f.key == n) s.global_flags ≡ none =
                subst
                  (λ j. p.find_first (λ (f : FeatureFlag). number f.key == j) s.global_flags ≡ none)
                  h e in
              let first =
                find_first-only p (λ f. number f.key == n) (new_flag key false)
                  (new_flag key false ∷ s.global_flags) (Memᴰ.head refl)
                  ((==_iff (number key) n).1 h)
                  (λ x m c. elim m [
                    | Memᴰ.head same' ↦ same'
                    | Memᴰ.tail m' ↦ absurd (
                        cc (
                          All-mem (λ f. (number f.key == n) ≡ false) s.global_flags
                              (p.find_first-none _ s.global_flags d) m',
                          c,
                        ))
                  ]) in
              rw (first, d) refl

  -- The override of another tenant or of another key is what it was.
  pub set-other :
      (tenant : ℕ) (key : FeatureFlagKey) (enabled : Option Bool) (t : ℕ) (k : FeatureFlagKey)
      (s : Flags)
      → ((t == tenant) && (k === key)) ≡ false
      → Single (override_of t k) s.overrides
      → p.find_first (override_of t k) (set_override p tenant key enabled s).overrides
        ≡ p.find_first (override_of t k) s.overrides
  unfolding set_override
  set-other tenant key none t k s off v =
      rw (p.delete_many-eq (override_of tenant key) s.overrides) (
        find_first-Agree (override_of t k) p s.overrides _ v (
          filter-Agree (override_of t k) (override_of tenant key)
            (λ x c.
              (disjoint t (number k) tenant (number key) x.tenant_id (number x.feature_key) off c))
            s.overrides))
  set-other tenant key (some b) t k s off v =
      elim (Option-cases (p.find_first (override_of tenant key) s.overrides)) [
        | inr (g, e) ↦
            rw
              (p.upsert-some (override_of tenant key) (new_override tenant key b) (overridden b)
                s.overrides g e)
              (find_first-Agree (override_of t k) p s.overrides _ v (
                change-Agree (override_of t k) (override_of tenant key)
                  (λ x c.
                    disjoint t (number k) tenant (number key) x.tenant_id (number x.feature_key) off
                      c)
                  (overridden b) s.overrides
                  (λ x c.
                    disjoint tenant (number key) t (number k) x.tenant_id (number x.feature_key)
                      (flipped t (number k) tenant (number key) off) c)))
        | inl e ↦
            rw
              (p.upsert-none (override_of tenant key) (new_override tenant key b) (overridden b)
                s.overrides e)
              (find_first-Agree (override_of t k) p s.overrides _ v (
                cons-Agree (override_of t k) (new_override tenant key b) s.overrides
                  (flipped t (number k) tenant (number key) off)))
      ]

  -- The override that is set is found, and one that is removed is not.
  pub set-own :
      (tenant : ℕ) (key : FeatureFlagKey) (enabled : Option Bool) (s : Flags)
      → override_value
          (p.find_first (override_of tenant key) (set_override p tenant key enabled s).overrides)
        ≡ enabled
  unfolding set_override
  set-own tenant key none s =
      rw (p.delete_many-eq (override_of tenant key) s.overrides)
        (elim (Option-cases (
          p.find_first (override_of tenant key)
            (filter (λ x. not (override_of tenant key x)) s.overrides))) [
              | inl e ↦ rw e refl
              | inr (x, e) ↦
                  let (m, c) = p.find_first-some _ _ x e in
                  absurd (
                    cc (
                      All-mem (λ x. override_of tenant key x ≡ false) _
                          (filter-none (override_of tenant key) s.overrides) m,
                      c,
                    ))
            ])
  set-own tenant key (some b) s =
      elim (Option-cases (p.find_first (override_of tenant key) s.overrides)) [
        | inr (g, e) ↦
            rw
              (p.upsert-some (override_of tenant key) (new_override tenant key b) (overridden b)
                s.overrides g e)
              (elim (Option-cases (
                p.find_first (override_of tenant key)
                  (change (override_of tenant key) (overridden b) s.overrides))) [
                    | inl d ↦
                        let (m, c) = p.find_first-some _ s.overrides g e in
                        absurd (
                          cc (
                            All-mem (λ x. override_of tenant key x ≡ false) _
                                (p.find_first-none _ _ d)
                                (change-Mem (override_of tenant key) (overridden b) g s.overrides m
                                  c),
                            c,
                          ))
                    | inr (x, d) ↦
                        let (m, c) = p.find_first-some _ _ x d in
                        rw d (
                          All-mem (λ x. override_of tenant key x ≡ true → x.enabled ≡ some b) _
                            (All-change (override_of tenant key) (overridden b)
                              (λ x. override_of tenant key x ≡ true → x.enabled ≡ some b)
                              s.overrides
                              (λ y n. elim (Bool-cases (override_of tenant key y)) [
                                | inl h ↦ rw h (λ _. refl)
                                | inr h ↦ rw h (λ h'. cc)
                              ]))
                            m c)
                  ])
        | inl e ↦
            rw
              (p.upsert-none (override_of tenant key) (new_override tenant key b) (overridden b)
                s.overrides e)
              (rw
                (find_first-only p (override_of tenant key) (new_override tenant key b)
                  (new_override tenant key b ∷ s.overrides) (Memᴰ.head refl)
                  (both_met tenant (number key))
                  (λ x m c. elim m [
                    | Memᴰ.head same' ↦ same'
                    | Memᴰ.tail m' ↦ absurd (
                        cc (
                          All-mem (λ x. override_of tenant key x ≡ false) s.overrides
                              (p.find_first-none _ s.overrides e) m',
                          c,
                        ))
                  ]))
                refl)
      ]
