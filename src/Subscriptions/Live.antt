-- ===== src/Subscriptions/Live.antt =====
-- The subscriptions of a tenant that count as live (ACTIVE_STATUSES of
-- modules/platform/subscriptions/repositories/platform-subscriptions.repository.ts).
use trackora.Base.{
  ℕ, ◌≡◌, ◌≢◌, refl, sym, ◌∙◌, Bool, true, false, List, [], ◌∷◌, All, arith, Bool-cases, inl, inr,
  if◌then◌else◌,
}
use trackora.Prisma.{change}
use trackora.Prisma.Rows.{IsUnique}
use trackora.Model.Enums.{SubscriptionStatus, subscription_status_enum, includes}
use trackora.Subscriptions.Defs.{
  Subscription, Tables, active_statuses, is_live, live_of, can_change, cancel_now,
  CancelSubscriptionDto,
}

abbrev pub subscription_id : Subscription → ℕ
subscription_id x = x.id

-- No other live row is of the tenant of a live row.
abbrev pub NoRival : Subscription → List Subscription → Type 0
NoRival x xs =
    is_live x ≡ true → All (λ (y : Subscription). is_live y ≡ true → y.tenant_id ≢ x.tenant_id) xs

abbrev pub OneLive : List Subscription → Type 0
OneLive [] = Unit
OneLive (x ∷ xs) = NoRival x xs × OneLive xs

pub record IsValid (s : Tables) : Type 0 where
  pub ids : IsUnique subscription_id s.subscriptions
  pub one_live : OneLive s.subscriptions

-- A change that brings no row to life keeps the rule.
module _ (q : Subscription → Bool) (f : Subscription → Subscription)
    (tenant_kept : (x : Subscription) → (f x).tenant_id ≡ x.tenant_id) where
  abbrev changed : Subscription → Subscription
  changed x = if q x then f x else x

  abbrev pub RevivesNone : Subscription → Type 0
  RevivesNone x = q x ≡ true → is_live (f x) ≡ true → is_live x ≡ true

  changed_lem :
      (x : Subscription)
      → RevivesNone x
      → (is_live (changed x) ≡ true → is_live x ≡ true) × ((changed x).tenant_id ≡ x.tenant_id)
  changed_lem x n = elim (Bool-cases (q x)) [
    | inl e ↦ rw e (λ o. n e o, tenant_kept x)
    | inr e ↦ rw e (λ o. o, refl)
  ]

  change-NoRival :
      (x : Subscription) (xs : List Subscription)
      → RevivesNone x
      → All RevivesNone xs
      → NoRival x xs
      → NoRival (changed x) (change q f xs)
  change-NoRival x [] n ns h o = tt
  change-NoRival x (y ∷ xs) n ns h o = (
    λ oy t.
        (h ((changed_lem x n).0 o)).0 ((changed_lem y ns.0).0 oy)
          (sym (changed_lem y ns.0).1 ∙ t ∙ (changed_lem x n).1),
    change-NoRival x xs n ns.1 (λ o'. (h o').1) o,
  )

  pub change-OneLive :
      (xs : List Subscription) → All RevivesNone xs → OneLive xs → OneLive (change q f xs)
  change-OneLive [] ns h = tt
  change-OneLive (x ∷ xs) ns h = (change-NoRival x xs ns.0 ns.1 h.0, change-OneLive xs ns.1 h.1)

-- A query for a live row of the tenant that finds none: a new row of the tenant has no rival.
pub none_live :
    (tenant : ℕ) (x : Subscription) (xs : List Subscription)
    → x.tenant_id ≡ tenant
    → All (λ y. live_of tenant y ≡ false) xs
    → NoRival x xs
none_live tenant x [] e a o = tt
none_live tenant x (y ∷ xs) e a o =
    (λ oy t. ground (arith, a.0, t, e, oy), none_live tenant x xs e a.1 o)

-- The status that an update asks for, where the table of transitions accepts it.
pub can_change_live :
    (s t : SubscriptionStatus)
    → can_change s t ≡ true
    → includes active_statuses t ≡ true
    → includes active_statuses s ≡ true
unfolding can_change
can_change_live s t c h = ground arith

pub can_cancel_live :
    (dto : CancelSubscriptionDto) (s : SubscriptionStatus)
    → includes active_statuses (if cancel_now dto then SubscriptionStatus.cancelled else s) ≡ true
    → includes active_statuses s ≡ true
can_cancel_live dto s h = elim (Bool-cases (cancel_now dto)) [
  | inl e ↦ absurd (cc (rw e at h))
  | inr e ↦ rw e at h
]

pub barred_dead :
    (s : SubscriptionStatus)
    → can_change s SubscriptionStatus.active ≡ false
    → includes active_statuses s ≡ false
unfolding can_change
barred_dead s h = ground arith
