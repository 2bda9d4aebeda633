-- ===== src/Subscriptions/Runs.antt =====
-- Runs of modules/platform/subscriptions/services/platform-subscriptions.service.ts.
use trackora.Base.{
  ℕ, ◌≡◌, ◌≢◌, refl, sym, subst, ◌∙◌, true, false, some, All, ok, Ensures, Ensures-or_throw,
  Ensures-throw_if, Ensures-throw_if_last, Ensures-step, Ensures-bind, Ensures-ok, ==_iff, ◌==◌,
  ◌||◌, not, is_some, or_else, or_throw, throw_if, ◌>>=◌, ◌>>◌,
}
use trackora.Prisma.{Prisma, change, settle}
use trackora.Prisma.Rows.{
  All-of_mem, change-IsUnique, mem_eq, Unchanged, transaction-Ensures, is_some-false, not-false,
}
use trackora.Model.Enums.{SubscriptionStatus}
use trackora.Subscriptions.Defs.{
  Subscription, Tenant, Plan, Tables, CreateSubscriptionDto, UpdateSubscriptionDto,
  ChangeSubscriptionPlanDto, CancelSubscriptionDto, RenewSubscriptionDto, by_id, is_live, live_of,
  can_change, bad_range, else_null, new_subscription, updated, plan_changed, cancelled_from,
  renewed, usable_plan, update_subscription, set_plan, create_body, change_plan_body, create,
  update, change_plan, cancel, renew,
}
use trackora.Subscriptions.Live.{
  IsValid, subscription_id, change-OneLive, RevivesNone, none_live, can_change_live,
  can_cancel_live, barred_dead,
}

-- What a call leaves: valid subscriptions, if it returns, and everything as it was, if it throws.
abbrev Kept : {A : Type 0} → A → Tables → Type 0
Kept a t = IsValid t

module _ (p : Prisma) where
  update_subscription_lem :
      (id : ℕ) (f : Subscription → Subscription) (x : Subscription) (s : Tables)
      → p.find_first (by_id id) s.subscriptions ≡ some x
      → update_subscription p id f s
        ≡ ok (f x) (record s { subscriptions = change (by_id id) f s.subscriptions })
  unfolding update_subscription
  update_subscription_lem id f x s found = rw (p.update-some (by_id id) f s.subscriptions x found)

  -- A row that is found by its id is changed, and the change does not bring it to life.
  change-IsValid :
      (id : ℕ) (f : Subscription → Subscription) (x : Subscription) (s : Tables)
      → ((y : Subscription) → (f y).id ≡ y.id)
      → ((y : Subscription) → (f y).tenant_id ≡ y.tenant_id)
      → (is_live (f x) ≡ true → is_live x ≡ true)
      → IsValid s
      → p.find_first (by_id id) s.subscriptions ≡ some x
      → IsValid (record s { subscriptions = change (by_id id) f s.subscriptions })
  change-IsValid id f x s ids tenants live v found =
      let (m, c) = p.find_first-some (by_id id) s.subscriptions x found in
      record {
        ids = change-IsUnique subscription_id (by_id id) f s.subscriptions ids v.ids;
        one_live =
            change-OneLive (by_id id) f tenants s.subscriptions
              (All-of_mem (RevivesNone (by_id id) f tenants) s.subscriptions λ y n e.
                subst (λ z. is_live (f z) ≡ true → is_live z ≡ true)
                  (sym (
                    mem_eq subscription_id x y s.subscriptions v.ids m n
                      ((==_iff y.id id).0 e ∙ sym ((==_iff x.id id).0 c))))
                  live)
              v.one_live;
      }

  set_plan-Kept :
      (tenant plan : ℕ) (s : Tables)
      → IsValid s
      → Ensures Kept (λ _ _. Unit {0}) (set_plan p tenant plan s)
  unfolding set_plan
  set_plan-Kept tenant plan s v =
      Ensures-or_throw _ _
        (p.update (λ (x : Tenant). x.id == tenant) (λ x. record x { current_plan_id = some plan })
          s.tenants)
        _ s _ (λ _. tt) λ written _. record { ids = v.ids; one_live = v.one_live }

  usable_plan-Ensures :
      (id : ℕ) (s : Tables) → Ensures (λ _ t. t ≡ s) (Unchanged s) (usable_plan p id s)
  unfolding usable_plan
  usable_plan-Ensures id s =
      Ensures-or_throw _ _ (p.find_first (λ (x : Plan). x.id == id) s.plans) _ s _ (λ _. refl)
        λ plan _.
          Ensures-throw_if_last _ _ (not plan.is_active || is_some plan.archived_at) _ s (λ _. refl)
            (λ _. refl)

  create_body-Kept :
      (fresh : ℕ) (dto : CreateSubscriptionDto) (s : Tables)
      → IsValid s
      → All (λ (y : Subscription). y.id ≢ fresh) s.subscriptions
      → All (λ y. live_of dto.tenant_id y ≡ false) s.subscriptions
      → Ensures Kept (λ _ _. Unit {0}) (create_body p (new_subscription fresh dto) s)
  unfolding create_body
  create_body-Kept fresh dto s v new none_of =
      Ensures-bind _ _ Kept (set_plan p dto.tenant_id dto.plan_id) _ _
        (set_plan-Kept dto.tenant_id dto.plan_id _ (
          rw (p.create-eq (new_subscription fresh dto) s.subscriptions) (record {
            ids = (new, v.ids);
            one_live = (
              none_live dto.tenant_id (new_subscription fresh dto) s.subscriptions refl none_of,
              v.one_live,
            );
          })))
        (λ _ _ k. k)

  create-Kept :
      (fresh : ℕ) (dto : CreateSubscriptionDto) (s : Tables)
      → IsValid s
      → All (λ (y : Subscription). y.id ≢ fresh) s.subscriptions
      → Ensures Kept (Unchanged s) (create p fresh dto s)
  unfolding create
  create-Kept fresh dto s v new =
      Ensures-or_throw _ _ (p.find_first (λ (x : Tenant). x.id == dto.tenant_id) s.tenants) _ s _
        (λ _. refl)
        λ tenant _.
          Ensures-throw_if _ _ tenant.is_cancelled _ s _ (λ _. refl)
            λ _.
              Ensures-bind _ _ (λ _ t. t ≡ s) (usable_plan p dto.plan_id) _ s
                (usable_plan-Ensures dto.plan_id s)
                λ _ t e. rw e (
                  Ensures-throw_if _ _
                    (is_some (p.find_first (live_of dto.tenant_id) s.subscriptions)) _ s _
                    (λ _. refl)
                    λ free.
                      Ensures-throw_if _ _ (bad_range dto.trial_starts_at dto.trial_ends_at) _ s _
                        (λ _. refl)
                        λ _.
                          Ensures-throw_if _ _
                            (bad_range dto.current_period_start dto.current_period_end) _ s _
                            (λ _. refl)
                            λ _.
                              transaction-Ensures p Kept
                                (create_body p (new_subscription fresh dto)) s
                                (create_body-Kept fresh dto s v new
                                  (p.find_first-none _ s.subscriptions (is_some-false _ free))))

  update-Kept :
      (now id : ℕ) (dto : UpdateSubscriptionDto) (s : Tables)
      → IsValid s
      → Ensures Kept (Unchanged s) (update p now id dto s)
  unfolding update
  update-Kept now id dto s v =
      Ensures-or_throw _ _ (p.find_first (by_id id) s.subscriptions) _ s _ (λ _. refl)
        λ x found.
          Ensures-throw_if _ _ (not (can_change x.status (or_else dto.status x.status))) _ s _
            (λ _. refl)
            λ allowed.
              Ensures-throw_if _ _
                (bad_range (else_null dto.trial_starts_at x.trial_starts_at)
                  (else_null dto.trial_ends_at x.trial_ends_at))
                _ s _ (λ _. refl)
                λ _.
                  Ensures-throw_if _ _
                    (bad_range (else_null dto.current_period_start x.current_period_start)
                      (else_null dto.current_period_end x.current_period_end))
                    _ s _ (λ _. refl)
                    λ _. transaction-Ensures p Kept (update_subscription p id (updated now dto)) s (
                      rw (update_subscription_lem id (updated now dto) x s found) (
                        change-IsValid id (updated now dto) x s (λ _. refl) (λ _. refl)
                          (can_change_live x.status (or_else dto.status x.status)
                            (not-false _ allowed))
                          v found))

  cancel-Kept :
      (now id : ℕ) (dto : CancelSubscriptionDto) (s : Tables)
      → IsValid s
      → Ensures Kept (Unchanged s) (cancel p now id dto s)
  unfolding cancel
  cancel-Kept now id dto s v =
      Ensures-or_throw _ _ (p.find_first (by_id id) s.subscriptions) _ s _ (λ _. refl)
        λ x found.
          Ensures-throw_if _ _ (not (can_change x.status SubscriptionStatus.cancelled)) _ s _
            (λ _. refl)
            λ _.
              transaction-Ensures p Kept (update_subscription p id (cancelled_from now dto x)) s (
                rw (update_subscription_lem id (cancelled_from now dto x) x s found) (
                  change-IsValid id (cancelled_from now dto x) x s (λ _. refl) (λ _. refl)
                    (can_cancel_live dto x.status) v found))

  change_plan_body-Kept :
      (now id : ℕ) (dto : ChangeSubscriptionPlanDto) (x : Subscription) (s : Tables)
      → IsValid s
      → p.find_first (by_id id) s.subscriptions ≡ some x
      → Ensures Kept (λ _ _. Unit {0}) (change_plan_body p id (plan_changed now dto) dto.plan_id s)
  unfolding change_plan_body
  change_plan_body-Kept now id dto x s v found =
      Ensures-step _ _ (update_subscription p id (plan_changed now dto)) _ s _ _
        (update_subscription_lem id (plan_changed now dto) x s found)
        (Ensures-bind _ _ Kept (set_plan p x.tenant_id dto.plan_id) _ _
          (set_plan-Kept x.tenant_id dto.plan_id _
            (change-IsValid id (plan_changed now dto) x s (λ _. refl) (λ _. refl) (λ h. h) v found))
          (λ _ _ k. k))

  change_plan-Kept :
      (now id : ℕ) (dto : ChangeSubscriptionPlanDto) (s : Tables)
      → IsValid s
      → Ensures Kept (Unchanged s) (change_plan p now id dto s)
  unfolding change_plan
  change_plan-Kept now id dto s v =
      Ensures-or_throw _ _ (p.find_first (by_id id) s.subscriptions) _ s _ (λ _. refl)
        λ x found.
          Ensures-bind _ _ (λ _ t. t ≡ s) (usable_plan p dto.plan_id) _ s
            (usable_plan-Ensures dto.plan_id s)
            λ _ t e. rw e (
              transaction-Ensures p Kept (change_plan_body p id (plan_changed now dto) dto.plan_id)
                s (change_plan_body-Kept now id dto x s v found))

  -- One call that returns, of the methods that go by the table of transitions. The database gives a
  -- new subscription an id that no subscription has.
  pub data Step (s t : Tables) : Type 0 where
    creation :
        (fresh : ℕ) (dto : CreateSubscriptionDto) (x : Subscription)
        → All (λ (y : Subscription). y.id ≢ fresh) s.subscriptions
        → create p fresh dto s ≡ ok x t
        → Step s t
    edit :
        (now id : ℕ) (dto : UpdateSubscriptionDto) (x : Subscription)
        → update p now id dto s ≡ ok x t
        → Step s t
    plan_change :
        (now id : ℕ) (dto : ChangeSubscriptionPlanDto) (x : Subscription)
        → change_plan p now id dto s ≡ ok x t
        → Step s t
    cancellation :
        (now id : ℕ) (dto : CancelSubscriptionDto) (x : Subscription)
        → cancel p now id dto s ≡ ok x t
        → Step s t

  pub data Reach (s : Tables) : Tables → Type 0 where
    here : Reach s s
    next : {t u : Tables} → Reach s t → Step t u → Reach s u

  Step-IsValid : (s t : Tables) → IsValid s → Step s t → IsValid t
  Step-IsValid s t v (creation fresh dto x new h) =
      Ensures-ok Kept (Unchanged s) _ h (create-Kept fresh dto s v new)
  Step-IsValid s t v (edit now id dto x h) =
      Ensures-ok Kept (Unchanged s) _ h (update-Kept now id dto s v)
  Step-IsValid s t v (plan_change now id dto x h) =
      Ensures-ok Kept (Unchanged s) _ h (change_plan-Kept now id dto s v)
  Step-IsValid s t v (cancellation now id dto x h) =
      Ensures-ok Kept (Unchanged s) _ h (cancel-Kept now id dto s v)

  -- From tables with unique ids in which no tenant has two live subscriptions, after any number of
  -- creations, updates, changes of plan and cancellations, no tenant has two live subscriptions.
  pub Reach-IsValid : {s t : Tables} → IsValid s → Reach s t → IsValid t
  Reach-IsValid v here = v
  Reach-IsValid v (next r st) = Step-IsValid _ _ (Reach-IsValid v r) st

  -- A renewal does not go by the table of transitions: a subscription that the table does not let
  -- become ACTIVE, such as a cancelled one, becomes ACTIVE by a renewal with a good range of dates.
  pub renew_revives :
      (now id : ℕ) (dto : RenewSubscriptionDto) (x : Subscription) (s : Tables)
      → p.find_first (by_id id) s.subscriptions ≡ some x
      → can_change x.status SubscriptionStatus.active ≡ false
      → bad_range
          (else_null dto.current_period_start x.current_period_start)
          (some dto.current_period_end)
        ≡ false
      → (y : Subscription) × (t : Tables) × (renew p now id dto s ≡ ok y t)
        × (is_live x ≡ false)
        × (is_live y ≡ true)
        × (y.tenant_id ≡ x.tenant_id)
  unfolding renew
  renew_revives now id dto x s found barred good = (
    renewed now dto x x,
    record s { subscriptions = change (by_id id) (renewed now dto x) s.subscriptions },
    rw (found, or_throw, ◌>>◌, ◌>>=◌, good, throw_if, p.transaction-eq)
        (rw (update_subscription_lem id (renewed now dto x) x s found, settle) refl),
    barred_dead x.status barred,
    refl,
    refl,
  )
