-- ===== src/Plans/Calls.antt =====
-- The calls of modules/platform/plans/services/platform-plans.service.ts on sound catalogues.
use mathlib.Core.List.{Memᴰ}
use trackora.Base.{
  ℕ, ◌≡◌, ◌≢◌, sym, ap, ◌∙◌, Option, none, some, List, [], ◌∷◌, All, Action, Ensures, Ensures-bind,
  Ensures-map, Leaves, or_throw, ==_iff, or_else, Option-cases, inl, inr,
}
use trackora.Prisma.{Prisma, change}
use trackora.Prisma.Rows.{
  IsUnique, change-IsUnique, Unchanged, transaction-Ensures, All-of_mem, mem_eq,
}
use trackora.Prisma.Keys.{Has-cons, Has-change, change-IsUnique_one}
use trackora.Plans.Flags.{PlanFeatureFlagDto, normalize_feature_flags}
use trackora.Plans.Defs.{
  Plan, Catalogue, CreatePlanDto, Error, by_id, name_of, slug_of, new_plan, write_flags,
  write_audit_log, assert_unique_plan, create_body, create, update_body, update_with_flags,
}
use trackora.Plans.Names.{
  key_of, IsSound, Free, annotated, refer, assert_unique_plan-Free, write_flags-IsSound,
}

or_throw-IsSound :
    (o : Option Plan) (e : Error) (s : Catalogue)
    → IsSound s
    → Ensures (λ _ s'. IsSound s') (λ _ _. Unit {0}) (or_throw o e s)
or_throw-IsSound none e s v = tt
or_throw-IsSound (some x) e s v = v

-- What is free for a new plan, no plan has.
Free-none :
    (column : Plan → ℕ) (n : ℕ) (plans : List Plan)
    → Free column (some n) none plans
    → All (λ x. column x ≢ n) plans
Free-none column n plans h = All-of_mem (λ x. column x ≢ n) plans (λ x m same. cc (h x m same))

-- The value that an update gives to a column is new among the other plans.
pub Free-some :
    (column : Plan → ℕ) (value : Option ℕ) (id : ℕ) (plans : List Plan)
    → IsUnique column plans
    → Free column value (some id) plans
    → (x y : Plan) → Memᴰ x plans
    → Memᴰ y plans
    → x.id ≢ id
    → y.id ≡ id
    → or_else value (column y) ≢ column x
Free-some column none id plans u h x y m n ne e same =
    ne (ap key_of (mem_eq column y x plans u n m (sym same)) ∙ e)
Free-some column (some k) id plans u h x y m n ne e same =
    ne (sym ((==_iff id x.id).0 (h x m (sym same))))

module _ (p : Prisma) where
  create_body-IsSound :
      (x : Plan) (flags : List PlanFeatureFlagDto) (s : Catalogue)
      → All (λ (y : Plan). y.id ≢ x.id) s.plans
      → All (λ (y : Plan). name_of y ≢ x.name) s.plans
      → All (λ (y : Plan). slug_of y ≢ x.slug) s.plans
      → IsSound s
      → Ensures (λ _ s'. IsSound s') (λ _ _. Unit {0}) (create_body p x flags s)
  unfolding create_body
  create_body-IsSound x flags s id name slug v =
      Ensures-bind _ _ (λ _ s'. IsSound s') (write_flags p x.id (some flags)) _
        (record s { plans = p.create x s.plans })
        (write_flags-IsSound p x.id (some flags) (record s { plans = p.create x s.plans })
          (rw (p.create-eq x s.plans) (
            let (a, b) = refer s (x ∷ s.plans) (λ n h. Has-cons key_of n x s.plans h) v in
            record {
              ids = (id, v.ids);
              names = (name, v.names);
              slugs = (slug, v.slugs);
              subscribed = a;
              chosen = b;
            })))
        λ _ s' w. or_throw-IsSound (p.find_first (by_id x.id) s'.plans) _ s' w

  transaction-IsSound :
      (m : Action Catalogue Error Plan) (s : Catalogue)
      → Ensures (λ _ s'. IsSound s') (λ _ _. Unit {0}) (m s)
      → IsSound s
      → Leaves IsSound (p.transaction m s)
  transaction-IsSound m s h v =
      Ensures-map _ _ (Unchanged s) _ (p.transaction m s) (λ _ _ h. h) (λ _ _ h. rw h v)
        (transaction-Ensures p (λ _ s'. IsSound s') m s h)

  pub create-IsSound :
      (egp fresh : ℕ) (dto : CreatePlanDto) (s : Catalogue)
      → All (λ (y : Plan). y.id ≢ fresh) s.plans
      → IsSound s
      → Leaves IsSound (create p egp fresh dto s)
  unfolding create write_audit_log
  create-IsSound egp fresh dto s new v =
      Ensures-bind _ _ _ (assert_unique_plan p (some dto.name) (some dto.slug) none) _ s
        (Ensures-map _ _ (λ _ s'. s' ≡ s) _
          (assert_unique_plan p (some dto.name) (some dto.slug) none s) (λ _ _ h. h)
          (λ _ _ h. rw h v) (assert_unique_plan-Free p (some dto.name) (some dto.slug) none s v))
        λ _ s' (same, name, slug). rw same (
          let flags = normalize_feature_flags (or_else dto.feature_entitlements []) in
          Ensures-bind _ _ (λ _ s''. IsSound s'')
            (p.transaction (create_body p (new_plan egp fresh dto) flags)) _ s
            (transaction-IsSound (create_body p (new_plan egp fresh dto) flags) s
              (create_body-IsSound (new_plan egp fresh dto) flags s new
                (Free-none name_of dto.name s.plans name) (Free-none slug_of dto.slug s.plans slug)
                v)
              v)
            λ _ s'' w. annotated s'' _ _ _ w)

  -- A change of a plan that keeps its id, and whose new name and slug no other plan has.
  pub update_with_flags-IsSound :
      (id : ℕ) (f : Plan → Plan) (flags : Option (List PlanFeatureFlagDto)) (s : Catalogue)
      → ((x : Plan) → (f x).id ≡ x.id)
      → ((x y : Plan)
          → Memᴰ x s.plans
          → Memᴰ y s.plans
          → x.id ≢ id
          → y.id ≡ id
          → ((f y).name ≢ x.name) × ((f y).slug ≢ x.slug))
      → IsSound s
      → Leaves IsSound (update_with_flags p id f flags s)
  unfolding update_with_flags update_body
  update_with_flags-IsSound id f flags s kept apart v =
      transaction-IsSound (update_body p id f flags) s
        (elim (Option-cases (p.find_first (by_id id) s.plans)) [
          | inl e ↦ rw (p.update-none (by_id id) f s.plans e) tt
          | inr (x, e) ↦ rw (p.update-some (by_id id) f s.plans x e) (
              Ensures-bind _ _ (λ _ s'. IsSound s') (write_flags p id flags) _ _
                (write_flags-IsSound p id flags _ changed)
                λ _ s' w. or_throw-IsSound (p.find_first (by_id id) s'.plans) _ s' w)
        ])
        v
    where
      changed : IsSound (record s { plans = change (by_id id) f s.plans })
      changed =
          let (a, b) =
            refer s (change (by_id id) f s.plans)
              (λ n h. Has-change key_of n (by_id id) f s.plans kept h) v in
          record {
            ids = change-IsUnique key_of (by_id id) f s.plans kept v.ids;
            names =
                change-IsUnique_one key_of name_of id f s.plans v.ids v.names
                  (λ x y m n ne e. (apart x y m n ne e).0);
            slugs =
                change-IsUnique_one key_of slug_of id f s.plans v.ids v.slugs
                  (λ x y m n ne e. (apart x y m n ne e).1);
            subscribed = a;
            chosen = b;
          }
