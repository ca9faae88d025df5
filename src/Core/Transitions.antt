-- ===== src/Core/Transitions.antt =====
-- core/orderStateMachine.ts
use bianhao.Base.{
  ◌≡◌, refl, ◌↔◌, ◌⊎◌, inl, inr, Bool, false, List, [], ◌∷◌, length, ◌==◌, arith, if◌then◌else◌,
  ◌||◌,
}
use bianhao.Domain.{OrderStatus, status_eq, Error, Result, ok, err}

-- TRANSITIONS
unfoldable pub transitions : OrderStatus → List OrderStatus
transitions OrderStatus.pending =
    OrderStatus.paid ∷ OrderStatus.expired ∷ OrderStatus.cancelled ∷ OrderStatus.failed ∷ []
transitions OrderStatus.paid = OrderStatus.fulfilled ∷ OrderStatus.refunded ∷ []
transitions OrderStatus.fulfilled = OrderStatus.refunded ∷ []
transitions OrderStatus.expired = []
transitions OrderStatus.cancelled = []
transitions OrderStatus.refunded = []
transitions OrderStatus.failed = []

-- `Array.prototype.includes`
includes : List OrderStatus → OrderStatus → Bool
includes [] s = false
includes (x ∷ xs) s = status_eq x s || includes xs s

unfoldable pub can_transition : OrderStatus → OrderStatus → Bool
unfolding transitions includes
can_transition from to = includes (transitions from) to

unfoldable pub is_terminal : OrderStatus → Bool
unfolding transitions
is_terminal s = length (transitions s) == 0

unfoldable pub assert_transition : OrderStatus → OrderStatus → Result OrderStatus
unfolding can_transition
assert_transition from to =
    if status_eq from to
    then ok to
    else if can_transition from to
    then ok to
    else err Error.invalid_state

-- The transitions that the code allows, as a relation.
infix 40 ◌⟶◌ ◌⟶*◌
pub data ◌⟶◌ : OrderStatus → OrderStatus → Type 0 where
  pay : OrderStatus.pending ⟶ OrderStatus.paid
  expire : OrderStatus.pending ⟶ OrderStatus.expired
  cancel : OrderStatus.pending ⟶ OrderStatus.cancelled
  fail : OrderStatus.pending ⟶ OrderStatus.failed
  fulfil : OrderStatus.paid ⟶ OrderStatus.fulfilled
  refund_paid : OrderStatus.paid ⟶ OrderStatus.refunded
  refund_fulfilled : OrderStatus.fulfilled ⟶ OrderStatus.refunded

-- The arrows of the comment on OrderStatus, where none goes from FULFILLED to REFUNDED.
pub data Drawn : OrderStatus → OrderStatus → Type 0 where
  to_paid : Drawn OrderStatus.pending OrderStatus.paid
  to_fulfilled : Drawn OrderStatus.paid OrderStatus.fulfilled
  to_refunded : Drawn OrderStatus.paid OrderStatus.refunded
  to_expired : Drawn OrderStatus.pending OrderStatus.expired
  to_cancelled : Drawn OrderStatus.pending OrderStatus.cancelled
  to_failed : Drawn OrderStatus.pending OrderStatus.failed

-- Staying put, an arrow of the comment, or the one that it leaves out.
abbrev pub Allowed : OrderStatus → OrderStatus → Type 0
Allowed s t = (s ≡ t) ⊎ Drawn s t ⊎ ((s ≡ OrderStatus.fulfilled) × (t ≡ OrderStatus.refunded))

-- Any number of transitions.
pub data ◌⟶*◌ : OrderStatus → OrderStatus → Type 0 where
  here : {s : OrderStatus} → s ⟶* s
  onward : {s t u : OrderStatus} → s ⟶ t → t ⟶* u → s ⟶* u

pub ruleset arrows = (to_paid, to_fulfilled, to_refunded, to_expired, to_cancelled, to_failed)

Allowed-accepted : (s t : OrderStatus) → Allowed s t → assert_transition s t ≡ ok t
unfolding assert_transition
Allowed-accepted s t (inl e) = ground arith
Allowed-accepted s t (inr (inl to_paid)) = refl
Allowed-accepted s t (inr (inl to_fulfilled)) = refl
Allowed-accepted s t (inr (inl to_refunded)) = refl
Allowed-accepted s t (inr (inl to_expired)) = refl
Allowed-accepted s t (inr (inl to_cancelled)) = refl
Allowed-accepted s t (inr (inl to_failed)) = refl
Allowed-accepted s t (inr (inr (from, to))) = ground (arith, from, to)

accepted-Allowed : (s t : OrderStatus) → assert_transition s t ≡ ok t → Allowed s t
unfolding assert_transition
accepted-Allowed s t h = grind (arith, arrows)

refused :
    (s t : OrderStatus)
    → (assert_transition s t ≡ ok t) ⊎ (assert_transition s t ≡ err Error.invalid_state)
unfolding assert_transition
refused s t = ground arith

both : {r : Result OrderStatus} {t : OrderStatus} → r ≡ ok t → r ≡ err Error.invalid_state → ⊥
both p q = cc

-- `assertTransition` accepts staying put, the arrows of the comment on OrderStatus, and FULFILLED to
-- REFUNDED, which the comment does not draw; it answers an invalid state for every other move.
pub assert_transition_iff :
    (s t : OrderStatus)
    → ((assert_transition s t ≡ ok t) ↔ Allowed s t)
      × ((assert_transition s t ≡ err Error.invalid_state) ↔ (¬ Allowed s t))
assert_transition_iff s t = (
  (accepted-Allowed s t, Allowed-accepted s t),
  (
    (λ e allowed. both (Allowed-accepted s t allowed) e),
    (λ no. elim (refused s t) [ inl fine ↦ absurd (no (accepted-Allowed s t fine)) | inr e ↦ e ]),
  ),
)

pub ⟶*-trans : {s t u : OrderStatus} → s ⟶* t → t ⟶* u → s ⟶* u
⟶*-trans here k = k
⟶*-trans (onward e h) k = onward e (⟶*-trans h k)

pub ⟶*-step : {s t : OrderStatus} → s ⟶ t → s ⟶* t
⟶*-step e = onward e here
