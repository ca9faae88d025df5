-- ===== src/Payments/Service/Acceptance.antt =====
-- PaymentService.applyPayment as its callers see it (services/paymentService.ts): what a payment does
-- to a stored order, and that a second payment does nothing.
use bianhao.Base.{
  ◌≡◌, ◌⊎◌, inl, inr, String, none, some, ◌≤◌, arith, ap, ◌∙◌, subst, Option-cases, get,
  get-set_self,
}
use bianhao.Domain.{Order, OrderStatus, Plan, Error, ok, err, currency_eq_iff}
use bianhao.Core.Transitions.{is_terminal}
use bianhao.Storage.Orders as OrderStore
use bianhao.Storage.Orders.Lookup.{Keyed}
use bianhao.Effects.{World, Env}
use bianhao.Payments.Plans.{get_plan}
use bianhao.Payments.Service.{Payment, settle, accept_payment, apply_payment}
use bianhao.Payments.Service.Settlement.{
  settled, settle_succeeds, fulfilled_world, settle_unknown_plan,
}

-- The payment that an order is waiting for.
pub record IsDue (paid : Payment) (o : Order) : Type 0 where
  pub awaited : o.status ≡ OrderStatus.pending
  pub in_currency : paid.currency ≡ o.currency
  pub covered : o.amount ≤ paid.paid_amount

module _ (env : Env) where
  pub own :
      (id : String) (o : Order) (w : World)
      → Keyed w.orders
      → OrderStore.find_by_id id w.orders ≡ some o
      → OrderStore.find_by_id o.id w.orders ≡ some o
  own id o w k f = ap (λ i. OrderStore.find_by_id i w.orders) (k id o f) ∙ f

  accept_due :
      (paid : Payment) (o : Order) (w : World)
      → IsDue paid o
      → accept_payment env paid o w ≡ settle env paid o w
  unfolding accept_payment is_terminal
  accept_due paid o w d = ground (arith, currency_eq_iff paid.currency o.currency)

  pub apply_found :
      (id : String) (paid : Payment) (o : Order) (w : World)
      → OrderStore.find_by_id id w.orders ≡ some o
      → apply_payment env id paid w ≡ accept_payment env paid o w
  unfolding apply_payment
  apply_found id paid o w f = rw f

  pub apply_absent :
      (id : String) (paid : Payment) (w : World)
      → OrderStore.find_by_id id w.orders ≡ none
      → apply_payment env id paid w ≡ (err Error.not_found, w)
  unfolding apply_payment
  apply_absent id paid w f = rw f

  pub apply_due :
      (id : String) (paid : Payment) (o : Order) (w : World)
      → OrderStore.find_by_id id w.orders ≡ some o
      → IsDue paid o
      → apply_payment env id paid w ≡ settle env paid o w
  unfolding apply_payment
  apply_due id paid o w f d = rw f (accept_due paid o w d)

  stored_settled :
      (paid : Payment) (o : Order) (w : World) (plan : Plan)
      → o.status ≡ OrderStatus.pending
      → OrderStore.find_by_id o.id w.orders ≡ some o
      → get_plan o.plan_id env.plans ≡ some plan
      → OrderStore.find_by_id o.id (settle env paid o w).1.orders ≡ some (settled env paid o w)
  unfolding OrderStore.find_by_id
  stored_settled paid o w plan p f e =
      ap (λ (x : World). get o.id x.orders.by_id) (settle_succeeds env paid o o w plan p f e).1
      ∙ get-set_self o.id (settled env paid o w) (fulfilled_world env paid o w).orders.by_id

  -- A payment that is due on a stored order whose plan is on offer settles it: the caller gets the
  -- order as FULFILLED, with the transaction and the time of payment, and so it is stored.
  pub apply_payment_settles :
      (id : String) (paid : Payment) (o : Order) (w : World) (plan : Plan)
      → Keyed w.orders
      → OrderStore.find_by_id id w.orders ≡ some o
      → IsDue paid o
      → get_plan o.plan_id env.plans ≡ some plan
      → ((apply_payment env id paid w).0 ≡ ok (settled env paid o w))
        × (OrderStore.find_by_id id (apply_payment env id paid w).1.orders
            ≡ some (settled env paid o w))
  apply_payment_settles id paid o w plan k f d e = rw (apply_due id paid o w f d) (
    (settle_succeeds env paid o o w plan d.awaited (own id o w k f) e).0,
    subst
        (λ i. OrderStore.find_by_id i (settle env paid o w).1.orders ≡ some (settled env paid o w))
        (k id o f) (stored_settled paid o w plan d.awaited (own id o w k f) e),
  )

  -- The order is past payment.
  abbrev pub IsSettled : Order → Type 0
  IsSettled o = (o.status ≡ OrderStatus.paid) ⊎ (o.status ≡ OrderStatus.fulfilled)

  apply_settled :
      (id : String) (paid : Payment) (o : Order) (w : World)
      → OrderStore.find_by_id id w.orders ≡ some o
      → IsSettled o
      → apply_payment env id paid w ≡ (ok o, w)
  unfolding apply_payment accept_payment
  apply_settled id paid o w f s = ground arith

  accept_ok :
      (paid : Payment) (p o : Order) (w : World)
      → (accept_payment env paid p w).0 ≡ ok o
      → (IsSettled p × (accept_payment env paid p w ≡ (ok p, w))) ⊎ IsDue paid p
  unfolding accept_payment is_terminal
  accept_ok paid p o w h = ground (arith, currency_eq_iff paid.currency p.currency)

  -- A payment that went through leaves the order stored, as it was answered, and past payment.
  apply_payment_leaves :
      (id : String) (paid : Payment) (o : Order) (w : World)
      → Keyed w.orders
      → (apply_payment env id paid w).0 ≡ ok o
      → (OrderStore.find_by_id id (apply_payment env id paid w).1.orders ≡ some o) × IsSettled o
  apply_payment_leaves id paid o w k h = elim (Option-cases (OrderStore.find_by_id id w.orders)) [
    | inl absent ↦ ground (arith, apply_absent id paid w absent)
    | inr (p, found) ↦ elim (accept_ok paid p o w (rw (apply_found id paid p w found) at h)) [
      | inl (past, same) ↦ ground (arith, apply_found id paid p w found)
      | inr due ↦ elim (Option-cases (get_plan p.plan_id env.plans)) [
        | inl missing ↦ ground (
          arith,
          apply_due id paid p w found due,
          settle_unknown_plan env paid p p w due.awaited (own id p w k found) missing,
        )
        | inr (plan, offered) ↦
            ground (arith, apply_payment_settles id paid p w plan k found due offered)
      ]
    ]
  ]

  -- Once a payment has gone through, any further payment on the order is answered with the order as
  -- it stands, and changes nothing: not the stores, the trails, nor the clock.
  pub apply_payment_once :
      (id : String) (paid again : Payment) (o : Order) (w : World)
      → Keyed w.orders
      → (apply_payment env id paid w).0 ≡ ok o
      → apply_payment env id again (apply_payment env id paid w).1
        ≡ (ok o, (apply_payment env id paid w).1)
  apply_payment_once id paid again o w k h =
      let (found, past) = apply_payment_leaves id paid o w k h in
      apply_settled id again o (apply_payment env id paid w).1 found past
