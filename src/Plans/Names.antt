-- ===== src/Plans/Names.antt =====
-- Names, slugs and references of plans under the calls of
-- modules/platform/plans/services/platform-plans.service.ts.
use mathlib.Core.List.{Memᴰ}
use trackora.Base.{
  ℕ, ◌≡◌, refl, sym, ap, ◌∙◌, true, false, Option, none, some, List, All, All-mono, Ensures,
  Ensures-throw_if_last, Ensures-bind, Ensures-map, ==_iff, ◌==◌, not, is_just, Option-cases, inl,
  inr,
}
use trackora.Prisma.{Prisma}
use trackora.Prisma.Rows.{IsUnique, All-mem, mem_eq, not-false}
use trackora.Prisma.Keys.{Has}
use trackora.Model.Enums.{FeatureFlagKey}
use trackora.Subscriptions.Defs.{Subscription, Tenant}
use trackora.Plans.Flags.{PlanFeatureFlagDto}
use trackora.Plans.Defs.{
  Plan, PlanFeatureFlag, AuditLog, Catalogue, Error, name_of, slug_of, write_flags, assert_same,
  assert_unique, assert_unique_plan,
}

abbrev pub key_of : Plan → ℕ
key_of x = x.id

abbrev pub HasPlan : List Plan → Option ℕ → Type 0
HasPlan plans none = Unit
HasPlan plans (some k) = Has key_of k plans

-- Ids, names and slugs of plans are unique, and the plan of each subscription and tenant exists.
pub record IsSound (s : Catalogue) : Type 0 where
  pub ids : IsUnique key_of s.plans
  pub names : IsUnique name_of s.plans
  pub slugs : IsUnique slug_of s.plans
  pub subscribed : All (λ (x : Subscription). HasPlan s.plans (some x.plan_id)) s.subscriptions
  pub chosen : All (λ (x : Tenant). HasPlan s.plans x.current_plan_id) s.tenants

-- No plan but the current one has the value.
abbrev pub Free : (Plan → ℕ) → Option ℕ → Option ℕ → List Plan → Type 0
Free column none current plans = Unit
Free column (some n) current plans =
    (x : Plan) → Memᴰ x plans → column x ≡ n → is_just x.id current ≡ true

HasPlan-mono :
    (a b : List Plan) (k : Option ℕ)
    → ((n : ℕ) → Has key_of n a → Has key_of n b)
    → HasPlan a k
    → HasPlan b k
HasPlan-mono a b none f h = tt
HasPlan-mono a b (some n) f h = f n h

-- Flags and logs are not read.
pub annotated :
    (s : Catalogue) (rows : List PlanFeatureFlag) (keys : List FeatureFlagKey)
    (logs : List AuditLog)
    → IsSound s
    → IsSound (record s { plan_flags = rows; feature_flags = keys; audit_logs = logs })
annotated s rows keys logs v = record {
  ids = v.ids;
  names = v.names;
  slugs = v.slugs;
  subscribed = v.subscribed;
  chosen = v.chosen;
}

-- Other plans with the same references and more.
pub refer :
    (s : Catalogue) (plans : List Plan)
    → ((n : ℕ) → Has key_of n s.plans → Has key_of n plans)
    → IsSound s
    → All (λ (x : Subscription). HasPlan plans (some x.plan_id)) s.subscriptions
      × All (λ (x : Tenant). HasPlan plans x.current_plan_id) s.tenants
refer s plans f v = (
  All-mono (λ (x : Subscription). HasPlan s.plans (some x.plan_id))
      (λ (x : Subscription). HasPlan plans (some x.plan_id)) s.subscriptions (λ x h. f x.plan_id h)
      v.subscribed,
  All-mono (λ (x : Tenant). HasPlan s.plans x.current_plan_id)
      (λ (x : Tenant). HasPlan plans x.current_plan_id) s.tenants
      (λ x h. HasPlan-mono s.plans plans x.current_plan_id f h) v.chosen,
)

module _ (p : Prisma) where
  assert_unique-Free :
      (column : Plan → ℕ) (value current : Option ℕ) (e : Error) (s : Catalogue)
      → IsUnique column s.plans
      → Ensures
          (λ _ s'. (s' ≡ s) × Free column value current s.plans)
          (λ _ s'. s' ≡ s)
          (assert_unique p column value current e s)
  unfolding assert_unique assert_same
  assert_unique-Free column none current e s u = (refl, tt)
  assert_unique-Free column (some n) current e s u =
      elim (Option-cases (p.find_first (λ x. column x == n) s.plans)) [
        | inl h ↦ rw h (
          refl,
          λ x m same. absurd (
              cc (
                All-mem (λ x. (column x == n) ≡ false) s.plans (p.find_first-none _ s.plans h) m,
                (==_iff (column x) n).1 same,
              )),
        )
        | inr (y, h) ↦ rw h (
            Ensures-throw_if_last _ _ (not (is_just y.id current)) e s (λ _. refl)
              (λ ok. (
                refl,
                λ x m same.
                    let (my, cy) = p.find_first-some _ s.plans y h in
                    ap (λ (z : Plan). is_just z.id current)
                      (mem_eq column y x s.plans u my m (same ∙ sym ((==_iff (column y) n).0 cy)))
                    ∙ not-false (is_just y.id current) ok,
              )))
      ]

  pub assert_unique_plan-Free :
      (name slug current : Option ℕ) (s : Catalogue)
      → IsSound s
      → Ensures
          (λ _ s'. (s' ≡ s) × Free name_of name current s.plans × Free slug_of slug current s.plans)
          (λ _ s'. s' ≡ s)
          (assert_unique_plan p name slug current s)
  unfolding assert_unique_plan
  assert_unique_plan-Free name slug current s v =
      Ensures-bind _ _ (λ _ s'. (s' ≡ s) × Free name_of name current s.plans)
        (assert_unique p name_of name current _) _ s
        (assert_unique-Free name_of name current _ s v.names)
        λ _ s' (same, free). rw same (
          Ensures-map _ _ _ _ (assert_unique p slug_of slug current _ s) (λ _ _ h. (h.0, free, h.1))
            (λ _ _ h. h) (assert_unique-Free slug_of slug current _ s v.slugs))

  pub write_flags-IsSound :
      (id : ℕ) (flags : Option (List PlanFeatureFlagDto)) (s : Catalogue)
      → IsSound s
      → Ensures (λ _ s'. IsSound s') (λ _ _. Unit {0}) (write_flags p id flags s)
  unfolding write_flags
  write_flags-IsSound id none s v = v
  write_flags-IsSound id (some flags) s v = annotated s _ _ _ v
