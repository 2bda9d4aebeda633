-- ===== src/Shipments/Transitions.antt =====
-- Walks along the transitions of modules/shipments/services/state-machine.service.ts.
use trackora.Base.{◌≡◌, ◌≢◌, ◌↔◌, true, false, ◌⊎◌, inl, inr, arith, refl, sym, ◌∙◌, subst}
use trackora.Model.Enums.{ShipmentStatus}
use trackora.Shipments.StateMachine.{validate_transition, is_terminal_status}
use ShipmentStatus.{
  pending, picked_up, in_warehouse, out_for_delivery, delivered, failed, postponed, returned,
  cancelled,
}

-- A walk of status updates without override, each of which is accepted.
pub data Walk (s : ShipmentStatus) : ShipmentStatus → Type 0 where
  here : Walk s s
  step :
      {t : ShipmentStatus} (u : ShipmentStatus)
      → Walk s t
      → validate_transition t u false ≡ true
      → Walk s u

terminal_stays :
    (s t : ShipmentStatus)
    → is_terminal_status s ≡ true
    → validate_transition s t false ≡ true
    → t ≡ s
unfolding is_terminal_status validate_transition
terminal_stays s t h v = ground arith

stuck_terminal :
    (s : ShipmentStatus)
    → ((t : ShipmentStatus) → validate_transition s t false ≡ true → t ≡ s)
    → is_terminal_status s ≡ true
unfolding is_terminal_status validate_transition
stuck_terminal s h = ground (arith, h picked_up, h in_warehouse, h out_for_delivery, h delivered)

Walk-terminal : {s t : ShipmentStatus} → is_terminal_status s ≡ true → Walk s t → t ≡ s
Walk-terminal h here = refl
Walk-terminal {s} h (step {t} u w v) =
    let e : t ≡ s = Walk-terminal h w in
    terminal_stays t u (subst (λ x. is_terminal_status x ≡ true) (sym e) h) v ∙ e

-- A status is terminal, in the sense of `isTerminalStatus`, exactly if no walk of accepted updates
-- leads from it to another status.
pub is_terminal_status_iff :
    (s : ShipmentStatus) → (is_terminal_status s ≡ true) ↔ ((t : ShipmentStatus) → Walk s t → t ≡ s)
is_terminal_status_iff s =
    (λ h t w. Walk-terminal h w, λ h. stuck_terminal s (λ t v. h t (step t here v)))

into_delivered :
    (s : ShipmentStatus)
    → validate_transition s delivered false ≡ true
    → (s ≡ delivered) ⊎ (s ≡ out_for_delivery)
unfolding validate_transition
into_delivered s v = ground arith

into_pending : (s : ShipmentStatus) → validate_transition s pending false ≡ true → s ≡ pending
unfolding validate_transition
into_pending s v = ground arith

Walk-pending : {s t : ShipmentStatus} → Walk s t → t ≡ pending → s ≡ pending
Walk-pending here e = e
Walk-pending (step {t} u w v) e =
    Walk-pending w (into_pending t (subst (λ x. validate_transition t x false ≡ true) e v))

-- In the course of the walk the shipment has the status `x`.
abbrev pub Visits : (x : ShipmentStatus) {s t : ShipmentStatus} → Walk s t → Type 0
Visits x {s} here = s ≡ x
Visits x (step u w v) = (u ≡ x) ⊎ Visits x w

Visits-end : (x : ShipmentStatus) {s t : ShipmentStatus} (w : Walk s t) → t ≡ x → Visits x w
Visits-end x here e = e
Visits-end x (step u w v) e = inl e

-- A walk that ends in DELIVERED has begun there, or has been OUT_FOR_DELIVERY.
Walk-delivered :
    {s t : ShipmentStatus} (w : Walk s t)
    → t ≡ delivered
    → (s ≡ delivered) ⊎ Visits out_for_delivery w
Walk-delivered here e = inl e
Walk-delivered (step {t} u w v) e =
    elim (into_delivered t (subst (λ x. validate_transition t x false ≡ true) e v)) [
      | inl same ↦ elim (Walk-delivered w same) [ inl h ↦ inl h | inr h ↦ inr (inr h) ]
      | inr out ↦ inr (inr (Visits-end out_for_delivery w out))
    ]

-- Every walk of accepted updates by which a shipment that was not DELIVERED becomes DELIVERED passes
-- through OUT_FOR_DELIVERY.
pub Walk-order :
    (s : ShipmentStatus) → s ≢ delivered → (w : Walk s delivered) → Visits out_for_delivery w
Walk-order s ne w = elim (Walk-delivered w refl) [ inl e ↦ absurd (ne e) | inr v ↦ v ]

-- By accepted updates without override, a shipment that has left PENDING never comes back to it.
pub Walk-leaves : (s : ShipmentStatus) → s ≢ pending → ¬ (Walk s pending)
Walk-leaves s ne w = ne (Walk-pending w refl)

-- From every status there is a walk to a terminal one.
pub Walk-ends :
    (s : ShipmentStatus) → (t : ShipmentStatus) × (is_terminal_status t ≡ true) × Walk s t
unfolding is_terminal_status validate_transition
Walk-ends pending = (cancelled, refl, step cancelled here refl)
Walk-ends picked_up = (cancelled, refl, step cancelled here refl)
Walk-ends in_warehouse = (delivered, refl, step delivered (step out_for_delivery here refl) refl)
Walk-ends out_for_delivery = (delivered, refl, step delivered here refl)
Walk-ends delivered = (delivered, refl, here)
Walk-ends failed = (returned, refl, step returned here refl)
Walk-ends postponed = (delivered, refl, step delivered (step out_for_delivery here refl) refl)
Walk-ends returned = (returned, refl, here)
Walk-ends cancelled = (cancelled, refl, here)
