-- ===== src/Subscriptions/Tests.antt =====
-- Subscriptions on small tables: one tenant with a live subscription and a cancelled one.
use trackora.Base.{ℕ, ◌≡◌, refl, true, false, none, some, [], ◌∷◌, ok}
use trackora.Prisma.Memory.{memory}
use trackora.Model.Enums.{SubscriptionStatus, PaymentStatus}
use trackora.Subscriptions.Defs.{
  Subscription, Tables, CancelSubscriptionDto, RenewSubscriptionDto, is_live, renew, cancel,
  cancelled_from, can_change, update_subscription,
}
use trackora.Subscriptions.Live.{IsValid}
use trackora.Subscriptions.Runs.{here, next, cancellation, Reach-IsValid, renew_revives}

abbrev row : ℕ → SubscriptionStatus → Subscription
row id status = record {
  id = id;
  tenant_id = 5;
  plan_id = 1;
  status = status;
  payment_status = PaymentStatus.paid;
  trial_starts_at = none;
  trial_ends_at = none;
  current_period_start = some 10;
  current_period_end = some 20;
  renewed_at = none;
  cancelled_at = none;
  paused_at = none;
}

abbrev start : Tables
start = record {
  tenants = record { id = 5; is_cancelled = false; current_plan_id = some 1 } ∷ [];
  plans = record { id = 1; is_active = true; archived_at = none } ∷ [];
  subscriptions = row 1 SubscriptionStatus.active ∷ row 2 SubscriptionStatus.cancelled ∷ [];
}

abbrev at_once : CancelSubscriptionDto
at_once = record { cancel_at_period_end = none }

abbrev cancelled_row : Subscription
cancelled_row =
    cancelled_from 15 at_once (row 1 SubscriptionStatus.active) (row 1 SubscriptionStatus.active)

abbrev after_cancel : Tables
after_cancel = record start {
  subscriptions = cancelled_row ∷ row 2 SubscriptionStatus.cancelled ∷ [];
}

start-IsValid : IsValid start
start-IsValid = record {
  ids = (((λ h. cc), tt), (tt, tt));
  one_live = ((λ _. ((λ h. cc), tt)), ((λ h. tt), tt));
}

cancels : cancel memory 15 1 at_once start ≡ ok cancelled_row after_cancel
unfolding cancel update_subscription can_change
cancels = refl

abbrev until_40 : RenewSubscriptionDto
until_40 = record {
  current_period_start = some 30;
  current_period_end = 40;
  renewal_date = none;
  payment_status = none;
}

cancelled_is_final : can_change SubscriptionStatus.cancelled SubscriptionStatus.active ≡ false
unfolding can_change
cancelled_is_final = refl

Reach-IsValid_example : IsValid after_cancel
Reach-IsValid_example =
    Reach-IsValid memory start-IsValid (next here (cancellation 15 1 at_once cancelled_row cancels))

renew_revives_example :
    (y : Subscription) × (t : Tables) × (renew memory 30 2 until_40 start ≡ ok y t)
    × (is_live (row 2 SubscriptionStatus.cancelled) ≡ false)
    × (is_live y ≡ true)
    × (y.tenant_id ≡ 5)
renew_revives_example =
    renew_revives memory 30 2 until_40 (row 2 SubscriptionStatus.cancelled) start refl
      cancelled_is_final refl
