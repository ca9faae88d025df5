-- ===== src/Payments/Service/Settlement.antt =====
-- PaymentService.applyPayment: when a payment is accepted, and what settling it does
-- (services/paymentService.ts).
use bianhao.Base.{
  suc, ◌≡◌, refl, ◌⊎◌, inl, inr, String, none, some, ◌≤◌, arith, Option-cases, set, get-set_self,
  ap, ◌++◌, [], ◌∷◌,
}
use bianhao.Domain.{Order, OrderStatus, Plan, Error, ok, err}
use bianhao.Core.Transitions.{assert_transition, is_terminal}
use bianhao.Storage.Orders as OrderStore
use bianhao.Storage.Orders.Lookup.{update_known, update_unknown}
use bianhao.Effects.{World, Env, AuditAction, OutboundEvent, ◌>>=◌}
use bianhao.Payments.Plans.{get_plan}
use bianhao.Payments.Fulfilment.Frame.{
  fulfill_order-OnlySubscriptions, fulfill_order_succeeds, fulfill_order_unknown_plan,
}
use bianhao.Payments.Fulfilment.{fulfill_order}
use bianhao.Payments.Service.{
  Payment, enqueue_sweep, settle, complete, accept_payment, apply_payment,
}

-- The worlds differ in their sweep jobs and in the readings taken from outside.
abbrev pub OnlySweeps : World → World → Type 0
OnlySweeps w w' = w' ≡ record w { sweeps = w'.sweeps; tick = w'.tick }

module _ (env : Env) where
  -- Enqueueing a sweep never fails the settlement, and touches sweep jobs alone.
  pub enqueue_sweep-OnlySweeps :
      (o : Order) (w : World)
      → ((enqueue_sweep env o w).0 ≡ ok tt) × OnlySweeps w (enqueue_sweep env o w).1
  unfolding enqueue_sweep
  enqueue_sweep-OnlySweeps o w = ground arith

  -- The order as `settle` leaves it.
  abbrev pub settled : Payment → Order → World → Order
  settled paid o w = record o {
    status = OrderStatus.fulfilled;
    provider_txn_id = some paid.provider_txn_id;
    paid_at = some (env.now w.tick);
    updated_at = env.now (suc w.tick);
  }

  -- The world as `complete` has it before the sweep is enqueued.
  abbrev pub published : Order → World → World
  published o w = record w {
    orders = record (w.orders) { by_id = set o.id o w.orders.by_id };
    audit = w.audit ++ record { action = AuditAction.order_fulfilled; subject = o.id } ∷ [];
    outbound = w.outbound ++ OutboundEvent.order_fulfilled o.id ∷ [];
  }

  -- A stored order is completed, whatever becomes of its sweep.
  pub complete_known :
      (o old : Order) (w : World)
      → OrderStore.find_by_id o.id w.orders ≡ some old
      → ((complete env o w).0 ≡ ok o) × OnlySweeps (published o w) (complete env o w).1
  unfolding complete
  complete_known o old w f =
      ground (arith, update_known o old w.orders f, enqueue_sweep-OnlySweeps o (published o w))

  pub complete_unknown :
      (o : Order) (w : World)
      → OrderStore.find_by_id o.id w.orders ≡ none
      → complete env o w ≡ (err Error.failure, w)
  unfolding complete
  complete_unknown o w f = ground (arith, update_unknown o w.orders f)

  -- The world as `settle` has it when it comes to the fulfilment.
  abbrev pub marked_paid : Order → World → World
  marked_paid o w = record w {
    orders = record (w.orders) { by_id = set o.id o w.orders.by_id };
    tick = suc w.tick;
  }

  abbrev pub paid_state : Payment → Order → World → Order
  paid_state paid o w = record o {
    status = OrderStatus.paid;
    provider_txn_id = some paid.provider_txn_id;
    paid_at = some (env.now w.tick);
    updated_at = env.now w.tick;
  }

  -- Settling a stored PENDING order is: mark it PAID, fulfil it, complete it.
  settle_steps :
      (paid : Payment) (o old : Order) (w : World)
      → o.status ≡ OrderStatus.pending
      → OrderStore.find_by_id o.id w.orders ≡ some old
      → settle env paid o w
        ≡ (fulfill_order env (paid_state paid o w) >>= λ g. complete env g.0)
            (marked_paid (paid_state paid o w) w)
  unfolding settle assert_transition
  settle_steps paid o old w p f = ground (arith, update_known (paid_state paid o w) old w.orders f)

  -- The world once the order is fulfilled, before it is completed.
  abbrev pub fulfilled_world : Payment → Order → World → World
  fulfilled_world paid o w =
      (fulfill_order env (paid_state paid o w) (marked_paid (paid_state paid o w) w)).1

  pub found_paid :
      (paid : Payment) (o : Order) (w : World)
      → OrderStore.find_by_id o.id (fulfilled_world paid o w).orders ≡ some (paid_state paid o w)
  unfolding OrderStore.find_by_id
  found_paid paid o w =
      rw
        (ap (λ (x : World). x.orders)
          (fulfill_order-OnlySubscriptions env (paid_state paid o w)
            (marked_paid (paid_state paid o w) w)))
        (get-set_self o.id (paid_state paid o w) w.orders.by_id)

  accept_payment_needs :
      (paid : Payment) (o : Order) (w : World)
      → ((accept_payment env paid o w).1 ≡ w)
        ⊎ ((o.status ≡ OrderStatus.pending)
            × (paid.currency ≡ o.currency)
            × (o.amount ≤ paid.paid_amount))
  unfolding accept_payment is_terminal
  accept_payment_needs paid o w = ground arith

  -- A payment changes nothing at all unless the order is stored and PENDING, the currency is the
  -- order's, and the amount covers what is due.
  pub apply_payment_needs :
      (id : String) (paid : Payment) (w : World)
      → ((apply_payment env id paid w).1 ≡ w)
        ⊎ ((o : Order) × (OrderStore.find_by_id id w.orders ≡ some o)
            × (o.status ≡ OrderStatus.pending)
            × (paid.currency ≡ o.currency)
            × (o.amount ≤ paid.paid_amount))
  unfolding apply_payment
  apply_payment_needs id paid w = elim (Option-cases (OrderStore.find_by_id id w.orders)) [
    | inl absent ↦ inl (rw absent refl)
    | inr (o, found) ↦ elim (accept_payment_needs paid o w) [
      | inl same ↦ inl (rw found same)
      | inr (p, c, a) ↦ inr (o, found, p, c, a)
    ]
  ]

  -- With its plan on offer, a PENDING order that is settled becomes FULFILLED, with the transaction
  -- and the time of payment on record.
  pub settle_succeeds :
      (paid : Payment) (o old : Order) (w : World) (plan : Plan)
      → o.status ≡ OrderStatus.pending
      → OrderStore.find_by_id o.id w.orders ≡ some old
      → get_plan o.plan_id env.plans ≡ some plan
      → ((settle env paid o w).0 ≡ ok (settled paid o w))
        × OnlySweeps
            (published (settled paid o w) (fulfilled_world paid o w))
            (settle env paid o w).1
  settle_succeeds paid o old w plan p f e = rw (settle_steps paid o old w p f) (
      ground (
        arith,
        fulfill_order_succeeds env (paid_state paid o w) (marked_paid (paid_state paid o w) w) plan,
        fulfill_order-OnlySubscriptions env (paid_state paid o w)
            (marked_paid (paid_state paid o w) w),
        complete_known (settled paid o w) (paid_state paid o w) (fulfilled_world paid o w)
            (found_paid paid o w),
      ))

  -- Without its plan, the order stays PAID and the error goes to the caller.
  pub settle_unknown_plan :
      (paid : Payment) (o old : Order) (w : World)
      → o.status ≡ OrderStatus.pending
      → OrderStore.find_by_id o.id w.orders ≡ some old
      → get_plan o.plan_id env.plans ≡ none
      → settle env paid o w ≡ (err Error.not_found, marked_paid (paid_state paid o w) w)
  settle_unknown_plan paid o old w p f e = rw (settle_steps paid o old w p f) (
      ground (
        arith,
        fulfill_order_unknown_plan env (paid_state paid o w) (marked_paid (paid_state paid o w) w),
      ))
