-- ===== src/Plans/Runs.antt =====
-- Runs of the calls of modules/platform/plans/services/platform-plans.service.ts.
use trackora.Base.{
  ℕ, ◌≡◌, ◌≢◌, refl, sym, ap, ◌∙◌, false, Option, none, some, List, All, Ensures-or_throw,
  Ensures-bind, Ensures-map, Leaves, Leaves-reached, filter, reached, ==_iff, ◌==◌, not, is_just,
  Bool-cases, Option-cases, inl, inr, ltb, ◌||◌, arith,
}
use trackora.Prisma.{Prisma}
use trackora.Prisma.Rows.{All-mem, All-of_mem, mem_eq}
use trackora.Prisma.Keys.{count_if-zero, filter-IsUnique, Has-filter}
use trackora.Subscriptions.Defs.{Subscription, Tenant}
use trackora.Plans.Defs.{
  Plan, Catalogue, CreatePlanDto, UpdatePlanDto, by_id, name_of, slug_of, updated, shelved,
  entitlements, write_audit_log, get_plan_or_throw, assert_unique_plan, create, update_with_flags,
  update, subscriptions_of, current_tenants_of, archive, delete, remove,
}
use trackora.Plans.Names.{key_of, HasPlan, IsSound, annotated, assert_unique_plan-Free}
use trackora.Plans.Calls.{create-IsSound, update_with_flags-IsSound, Free-some}

-- Nobody refers to a plan.
record Unused (id : ℕ) (s : Catalogue) : Type 0 where
  subscriptions : All (λ (x : Subscription). (x.plan_id == id) ≡ false) s.subscriptions
  tenants : All (λ (x : Tenant). is_just id x.current_plan_id ≡ false) s.tenants

stays :
    (id : ℕ) (plans : List Plan) (k : Option ℕ)
    → is_just id k ≡ false
    → HasPlan plans k
    → HasPlan (filter (λ x. not (by_id id x)) plans) k
stays id plans none off h = tt
stays id plans (some n) off h =
    Has-filter key_of n id plans (λ same. cc ((==_iff n id).1 same, off)) h

module _ (p : Prisma) where
  update-IsSound :
      (id : ℕ) (dto : UpdatePlanDto) (s : Catalogue)
      → IsSound s
      → Leaves IsSound (update p id dto s)
  unfolding update get_plan_or_throw write_audit_log
  update-IsSound id dto s v =
      Ensures-or_throw _ _ (p.find_first (by_id id) s.plans) _ s _ (λ _. v)
        λ x found.
          Ensures-bind _ _ _ (assert_unique_plan p dto.name dto.slug (some id)) _ s
            (Ensures-map _ _ (λ _ s'. s' ≡ s) _ (assert_unique_plan p dto.name dto.slug (some id) s)
              (λ _ _ h. h) (λ _ _ h. rw h v)
              (assert_unique_plan-Free p dto.name dto.slug (some id) s v))
            λ _ s' (same, name, slug). rw same (
              let same_id : x.id ≡ id =
                (==_iff x.id id).0 (p.find_first-some _ s.plans x found).1 in
              Ensures-bind _ _ (λ _ s''. IsSound s'')
                (update_with_flags p x.id (updated dto) (entitlements dto.feature_entitlements)) _ s
                (update_with_flags-IsSound p x.id (updated dto)
                  (entitlements dto.feature_entitlements) s (λ _. refl)
                  (λ a b m n ne e. (
                    Free-some name_of dto.name id s.plans v.names name a b m n
                        (λ k. ne (k ∙ sym same_id)) (e ∙ same_id),
                    Free-some slug_of dto.slug id s.plans v.slugs slug a b m n
                        (λ k. ne (k ∙ sym same_id)) (e ∙ same_id),
                  ))
                  v)
                λ _ s'' w. annotated s'' _ _ _ w)

  archive-IsSound : (now id : ℕ) (s : Catalogue) → IsSound s → Leaves IsSound (archive p now id s)
  unfolding archive write_audit_log
  archive-IsSound now id s v =
      Ensures-bind _ _ (λ _ s'. IsSound s') (update_with_flags p id (shelved now) none) _ s
        (update_with_flags-IsSound p id (shelved now) none s (λ _. refl)
          (λ a b m n ne e. (
            λ same. ne (ap key_of (mem_eq name_of b a s.plans v.names n m (sym same)) ∙ e),
            λ same. ne (ap key_of (mem_eq slug_of b a s.plans v.slugs n m (sym same)) ∙ e),
          ))
          v)
        λ _ s' w. annotated s' _ _ _ w

  delete-IsSound :
      (id : ℕ) (s : Catalogue) → Unused id s → IsSound s → Leaves IsSound (delete p id s)
  unfolding delete write_audit_log
  delete-IsSound id s free v = elim (Option-cases (p.find_first (by_id id) s.plans)) [
    | inl e ↦ rw (p.delete-none (by_id id) s.plans e) v
    | inr (x, e) ↦ rw (p.delete-some (by_id id) s.plans x e) (record {
      ids = filter-IsUnique key_of _ s.plans v.ids;
      names = filter-IsUnique name_of _ s.plans v.names;
      slugs = filter-IsUnique slug_of _ s.plans v.slugs;
      subscribed = All-of_mem _ s.subscriptions (λ y m.
          stays id s.plans (some y.plan_id)
            (All-mem (λ (z : Subscription). (z.plan_id == id) ≡ false) s.subscriptions
              free.subscriptions m)
            (All-mem (λ (z : Subscription). HasPlan s.plans (some z.plan_id)) s.subscriptions
              v.subscribed m));
      chosen = All-of_mem _ s.tenants (λ y m.
          stays id s.plans y.current_plan_id
            (All-mem (λ (z : Tenant). is_just id z.current_plan_id ≡ false) s.tenants free.tenants
              m)
            (All-mem (λ (z : Tenant). HasPlan s.plans z.current_plan_id) s.tenants v.chosen m));
    })
  ]

  remove-IsSound : (now id : ℕ) (s : Catalogue) → IsSound s → Leaves IsSound (remove p now id s)
  unfolding remove get_plan_or_throw
  remove-IsSound now id s v =
      Ensures-or_throw _ _ (p.find_first (by_id id) s.plans) _ s _ (λ _. v)
        λ x found.
          let same_id : x.id ≡ id = (==_iff x.id id).0 (p.find_first-some _ s.plans x found).1 in
          elim (Bool-cases (ltb 0 (subscriptions_of p id s) || ltb 0 (current_tenants_of p id s))) [
            | inl e ↦ rw e (archive-IsSound now x.id s v)
            | inr e ↦
                let none_of : (subscriptions_of p id s ≡ 0) × (current_tenants_of p id s ≡ 0) =
                  zero_counts e in
                rw (e, same_id)
                  (delete-IsSound id s
                    (record {
                      subscriptions =
                          count_if-zero _ s.subscriptions
                            (sym (p.count-eq _ s.subscriptions) ∙ none_of.0);
                      tenants =
                          count_if-zero _ s.tenants (sym (p.count-eq _ s.tenants) ∙ none_of.1);
                    })
                    v)
          ]
    where
      zero_counts : {a b : ℕ} → (ltb 0 a || ltb 0 b) ≡ false → (a ≡ 0) × (b ≡ 0)
      zero_counts {a} {b} h = (ground (arith, h), ground (arith, h))

  -- One call, whether it returns or throws. The database gives a new plan an id that is not in use.
  pub data Step (s : Catalogue) : Catalogue → Type 0 where
    creation :
        (egp fresh : ℕ) (dto : CreatePlanDto)
        → All (λ (y : Plan). y.id ≢ fresh) s.plans
        → Step s (reached (create p egp fresh dto s))
    edit : (id : ℕ) (dto : UpdatePlanDto) → Step s (reached (update p id dto s))
    removal : (now id : ℕ) → Step s (reached (remove p now id s))

  pub data Reach (s : Catalogue) : Catalogue → Type 0 where
    here : Reach s s
    next : {t u : Catalogue} → Reach s t → Step t u → Reach s u

  Step-IsSound : {s t : Catalogue} → IsSound s → Step s t → IsSound t
  Step-IsSound {s} v (creation egp fresh dto new) =
      Leaves-reached IsSound _ (create-IsSound p egp fresh dto s new v)
  Step-IsSound {s} v (edit id dto) = Leaves-reached IsSound _ (update-IsSound id dto s v)
  Step-IsSound {s} v (removal now id) = Leaves-reached IsSound _ (remove-IsSound now id s v)

  -- From a catalogue in which ids, names and slugs of plans are unique and the plan of each
  -- subscription and the current plan of each tenant exist, that holds after any creations, updates
  -- and removals of plans, whether they return or throw.
  pub Reach-IsSound : {s t : Catalogue} → IsSound s → Reach s t → IsSound t
  Reach-IsSound v here = v
  Reach-IsSound v (next r st) = Step-IsSound (Reach-IsSound v r) st
