-- ===== src/Subscriptions/Defs.antt =====
-- modules/platform/subscriptions/services/platform-subscriptions.service.ts, with the methods of its
-- repository that it calls. `fresh` is the id that the database gives to a new row, and `now` the
-- time of `new Date()`. The free-form metadata and the audit log are left out: no method decides
-- by them.
use trackora.Base.{
  ℕ, Bool, false, Option, none, some, List, [], ◌∷◌, Action, pure, gets, or_throw, modify, throw_if,
  ◌>>=◌, ◌>>◌, ◌==◌, ◌&&◌, ◌||◌, not, is_some, or_else, leb, if◌then◌else◌,
}
use trackora.Prisma.{Prisma}
use trackora.Model.Enums.{
  SubscriptionStatus, PaymentStatus, subscription_status_enum, ◌===◌, includes,
}
use SubscriptionStatus.{trialing, active, past_due, paused, cancelled, expired}

pub record Tenant : Type 0 where
  pub id : ℕ
  pub is_cancelled : Bool  -- `status === TenantStatus.CANCELLED`
  pub current_plan_id : Option ℕ

pub record Plan : Type 0 where
  pub id : ℕ
  pub is_active : Bool
  pub archived_at : Option ℕ

pub record Subscription : Type 0 where
  pub id : ℕ
  pub tenant_id : ℕ
  pub plan_id : ℕ
  pub status : SubscriptionStatus
  pub payment_status : PaymentStatus
  pub trial_starts_at : Option ℕ
  pub trial_ends_at : Option ℕ
  pub current_period_start : Option ℕ
  pub current_period_end : Option ℕ
  pub renewed_at : Option ℕ
  pub cancelled_at : Option ℕ
  pub paused_at : Option ℕ

pub record Tables : Type 0 where
  pub tenants : List Tenant
  pub plans : List Plan
  pub subscriptions : List Subscription

pub data Error : Type 0 where
  tenant_not_found plan_not_found subscription_not_found tenant_cancelled plan_not_active : Error
  already_subscribed invalid_transition invalid_dates record_not_found : Error

abbrev pub active_statuses : List SubscriptionStatus
active_statuses = trialing ∷ active ∷ past_due ∷ paused ∷ []

unfoldable pub allowed_status_transitions : SubscriptionStatus → List SubscriptionStatus
allowed_status_transitions trialing = active ∷ cancelled ∷ expired ∷ []
allowed_status_transitions active = past_due ∷ paused ∷ cancelled ∷ expired ∷ []
allowed_status_transitions past_due = active ∷ paused ∷ cancelled ∷ expired ∷ []
allowed_status_transitions paused = active ∷ cancelled ∷ []
allowed_status_transitions cancelled = []
allowed_status_transitions expired = []

-- `assertStatusTransition` returns (`true`) or throws (`false`).
unfoldable pub can_change : SubscriptionStatus → SubscriptionStatus → Bool
unfolding allowed_status_transitions
can_change current next = current === next || includes (allowed_status_transitions current) next

-- `assertDateRange` throws (`true`) or returns (`false`).
abbrev pub bad_range : Option ℕ → Option ℕ → Bool
bad_range (some start) (some end) = leb end start
bad_range start end = false

-- `a ?? b`, for nullable `b`; also a column that an update leaves as it is where it gets `undefined`.
abbrev pub else_null : {A : Type 0} → Option A → Option A → Option A
else_null none b = b
else_null (some a) b = some a

pub record CreateSubscriptionDto : Type 0 where
  pub tenant_id : ℕ
  pub plan_id : ℕ
  pub status : Option SubscriptionStatus
  pub payment_status : Option PaymentStatus
  pub trial_starts_at : Option ℕ
  pub trial_ends_at : Option ℕ
  pub current_period_start : Option ℕ
  pub current_period_end : Option ℕ

pub record UpdateSubscriptionDto : Type 0 where
  pub status : Option SubscriptionStatus
  pub payment_status : Option PaymentStatus
  pub trial_starts_at : Option ℕ
  pub trial_ends_at : Option ℕ
  pub current_period_start : Option ℕ
  pub current_period_end : Option ℕ
  pub renewed_at : Option ℕ

pub record ChangeSubscriptionPlanDto : Type 0 where
  pub plan_id : ℕ
  pub effective_date : Option ℕ

pub record CancelSubscriptionDto : Type 0 where
  pub cancel_at_period_end : Option Bool

pub record RenewSubscriptionDto : Type 0 where
  pub current_period_start : Option ℕ
  pub current_period_end : ℕ
  pub renewal_date : Option ℕ
  pub payment_status : Option PaymentStatus

abbrev pub by_id : ℕ → Subscription → Bool
by_id id x = x.id == id

-- `{ tenantId, status: { in: ACTIVE_STATUSES } }`
abbrev pub is_live : Subscription → Bool
is_live x = includes active_statuses x.status

abbrev pub live_of : ℕ → Subscription → Bool
live_of tenant x = x.tenant_id == tenant && is_live x

abbrev pub new_subscription : ℕ → CreateSubscriptionDto → Subscription
new_subscription fresh dto = record {
  id = fresh;
  tenant_id = dto.tenant_id;
  plan_id = dto.plan_id;
  status = or_else dto.status trialing;
  payment_status = or_else dto.payment_status PaymentStatus.not_required;
  trial_starts_at = dto.trial_starts_at;
  trial_ends_at = dto.trial_ends_at;
  current_period_start = dto.current_period_start;
  current_period_end = dto.current_period_end;
  renewed_at = none;
  cancelled_at = none;
  paused_at = none;
}

-- The data of the updates.
abbrev pub is_set_to : SubscriptionStatus → Option SubscriptionStatus → Bool
is_set_to s none = false
is_set_to s (some t) = t === s

abbrev pub updated : ℕ → UpdateSubscriptionDto → Subscription → Subscription
updated now dto x = record x {
  status = or_else dto.status x.status;
  payment_status = or_else dto.payment_status x.payment_status;
  trial_starts_at = else_null dto.trial_starts_at x.trial_starts_at;
  trial_ends_at = else_null dto.trial_ends_at x.trial_ends_at;
  current_period_start = else_null dto.current_period_start x.current_period_start;
  current_period_end = else_null dto.current_period_end x.current_period_end;
  renewed_at = else_null dto.renewed_at x.renewed_at;
  cancelled_at = if is_set_to cancelled dto.status then some now else x.cancelled_at;
  paused_at = if is_set_to paused dto.status then some now else x.paused_at;
}

abbrev pub plan_changed : ℕ → ChangeSubscriptionPlanDto → Subscription → Subscription
plan_changed now dto x = record x {
  plan_id = dto.plan_id;
  renewed_at = some (or_else dto.effective_date now);
}

abbrev pub cancel_now : CancelSubscriptionDto → Bool
cancel_now dto = not (or_else dto.cancel_at_period_end false)

abbrev pub cancelled_from : ℕ → CancelSubscriptionDto → Subscription → Subscription → Subscription
cancelled_from now dto read x = record x {
  status = if cancel_now dto then cancelled else read.status;
  cancelled_at = if cancel_now dto then some now else x.cancelled_at;
}

abbrev pub renewed : ℕ → RenewSubscriptionDto → Subscription → Subscription → Subscription
renewed now dto read x = record x {
  status = active;
  payment_status = or_else dto.payment_status PaymentStatus.paid;
  current_period_start =
      some (or_else (else_null dto.current_period_start read.current_period_start) now);
  current_period_end = some dto.current_period_end;
  renewed_at = some (or_else dto.renewal_date now);
}

module _ (p : Prisma) where
  unfoldable pub get_subscription_or_throw : ℕ → Action Tables Error Subscription
  get_subscription_or_throw id = do
    found ← gets (λ db. p.find_first (by_id id) db.subscriptions)
    or_throw found subscription_not_found

  unfoldable pub usable_plan : ℕ → Action Tables Error (Unit {0})
  usable_plan id = do
    found ← gets (λ db. p.find_first (λ (x : Plan). x.id == id) db.plans)
    plan ← or_throw found plan_not_found
    throw_if (not plan.is_active || is_some plan.archived_at) plan_not_active

  -- The repository's `update`, and the update of the tenant's plan.
  unfoldable pub update_subscription :
      ℕ → (Subscription → Subscription) → Action Tables Error Subscription
  update_subscription id f = do
    found ← gets (λ db. p.update (by_id id) f db.subscriptions)
    written ← or_throw found record_not_found
    modify (λ db. record db { subscriptions = written.1 })
    pure written.0

  unfoldable pub set_plan : ℕ → ℕ → Action Tables Error (Unit {0})
  set_plan tenant plan = do
    found ← gets (λ db.
        p.update (λ (x : Tenant). x.id == tenant) (λ x. record x { current_plan_id = some plan })
          db.tenants)
    written ← or_throw found record_not_found
    modify (λ db. record db { tenants = written.1 })

  unfoldable pub create_body : Subscription → Action Tables Error Subscription
  unfolding set_plan
  create_body x = do
    modify (λ db. record db { subscriptions = p.create x db.subscriptions })
    set_plan x.tenant_id x.plan_id
    pure x

  unfoldable pub change_plan_body :
      ℕ → (Subscription → Subscription) → ℕ → Action Tables Error Subscription
  unfolding update_subscription set_plan
  change_plan_body id f plan = do x ← update_subscription id f; set_plan x.tenant_id plan; pure x

  unfoldable pub create : ℕ → CreateSubscriptionDto → Action Tables Error Subscription
  unfolding usable_plan
  create fresh dto = do
    found ← gets (λ db. p.find_first (λ (x : Tenant). x.id == dto.tenant_id) db.tenants)
    tenant ← or_throw found tenant_not_found
    throw_if tenant.is_cancelled tenant_cancelled
    usable_plan dto.plan_id
    existing ← gets (λ db. p.find_first (live_of dto.tenant_id) db.subscriptions)
    throw_if (is_some existing) already_subscribed
    throw_if (bad_range dto.trial_starts_at dto.trial_ends_at) invalid_dates
    throw_if (bad_range dto.current_period_start dto.current_period_end) invalid_dates
    p.transaction (create_body (new_subscription fresh dto))

  unfoldable pub update : ℕ → ℕ → UpdateSubscriptionDto → Action Tables Error Subscription
  unfolding get_subscription_or_throw
  update now id dto = do
    x ← get_subscription_or_throw id
    throw_if (not (can_change x.status (or_else dto.status x.status))) invalid_transition
    throw_if
        (bad_range (else_null dto.trial_starts_at x.trial_starts_at)
          (else_null dto.trial_ends_at x.trial_ends_at))
        invalid_dates
    throw_if
        (bad_range (else_null dto.current_period_start x.current_period_start)
          (else_null dto.current_period_end x.current_period_end))
        invalid_dates
    p.transaction (update_subscription id (updated now dto))

  unfoldable pub change_plan : ℕ → ℕ → ChangeSubscriptionPlanDto → Action Tables Error Subscription
  unfolding get_subscription_or_throw usable_plan
  change_plan now id dto = do
    x ← get_subscription_or_throw id
    usable_plan dto.plan_id
    p.transaction (change_plan_body id (plan_changed now dto) dto.plan_id)

  unfoldable pub cancel : ℕ → ℕ → CancelSubscriptionDto → Action Tables Error Subscription
  unfolding get_subscription_or_throw
  cancel now id dto = do
    x ← get_subscription_or_throw id
    throw_if (not (can_change x.status cancelled)) invalid_transition
    p.transaction (update_subscription id (cancelled_from now dto x))

  unfoldable pub renew : ℕ → ℕ → RenewSubscriptionDto → Action Tables Error Subscription
  unfolding get_subscription_or_throw
  renew now id dto = do
    x ← get_subscription_or_throw id
    throw_if
        (bad_range (else_null dto.current_period_start x.current_period_start)
          (some dto.current_period_end))
        invalid_dates
    p.transaction (update_subscription id (renewed now dto x))
