-- ===== src/Payments/Service/Progress.antt =====
-- Every method of PaymentService moves stored orders along the state machine, and changes none of
-- their terms (services/paymentService.ts).
use bianhao.Base.{◌≡◌, refl, sym, inl, inr, String, some, arith, ap, subst, Option-cases}
use bianhao.Domain.{Order, OrderStatus}
use bianhao.Core.Transitions.{◌⟶*◌, here, onward, pay, fulfil}
use bianhao.Storage.Orders as OrderStore
use bianhao.Storage.Orders.Lookup.{Keyed}
use bianhao.Storage.Orders.Evolution.{
  Pays, restamped-Pays, Pays-refl, Pays-trans, Advances, Advances-refl, Advances-trans,
  set-Advances,
}
use bianhao.Effects.{World, Env}
use bianhao.Payments.Plans.{get_plan}
use bianhao.Payments.Fulfilment.Frame.{fulfill_order-OnlySubscriptions}
use bianhao.Payments.Service.{Payment, settle, apply_payment}
use bianhao.Payments.Service.Settlement.{
  settled, settle_succeeds, published, fulfilled_world, marked_paid, paid_state,
  settle_unknown_plan, apply_payment_needs, found_paid,
}
use bianhao.Payments.Service.Acceptance.{apply_due, own}

-- The stores that settling a payment does not touch.
pub record Spares (w w' : World) : Type 0 where
  pub same_events : w'.events ≡ w.events
  pub same_refunds : w'.refunds ≡ w.refunds
  pub same_deposits : w'.deposits ≡ w.deposits

module _ (env : Env) where
  pay-Pays :
      (paid : Payment) (o : Order) (w : World)
      → o.status ≡ OrderStatus.pending
      → Pays o (paid_state env paid o w)
  pay-Pays paid o w p =
      restamped-Pays o _ _ _ _ o.metadata
        (subst (λ s. s ⟶* OrderStatus.paid) (sym p) (onward pay here))

  fulfil-Pays :
      (paid : Payment) (o : Order) (w : World)
      → Pays (paid_state env paid o w) (settled env paid o w)
  fulfil-Pays paid o w =
      restamped-Pays (paid_state env paid o w) _ _ _ _ o.metadata (onward fulfil here)

  mark_paid-Advances :
      (paid : Payment) (o : Order) (w : World)
      → Keyed w.orders
      → OrderStore.find_by_id o.id w.orders ≡ some o
      → o.status ≡ OrderStatus.pending
      → Advances Pays w.orders (marked_paid env (paid_state env paid o w) w).orders
  mark_paid-Advances paid o w k f p =
      set-Advances Pays (paid_state env paid o w) o w.orders Pays-refl k f (pay-Pays paid o w p)

  settle-Advances :
      (paid : Payment) (o : Order) (w : World)
      → Keyed w.orders
      → OrderStore.find_by_id o.id w.orders ≡ some o
      → o.status ≡ OrderStatus.pending
      → Advances Pays w.orders (settle env paid o w).1.orders
  settle-Advances paid o w k f p = elim (Option-cases (get_plan o.plan_id env.plans)) [
    | inl missing ↦
        rw (settle_unknown_plan env paid o o w p f missing) (mark_paid-Advances paid o w k f p)
    | inr (plan, offered) ↦
        let first = mark_paid-Advances paid o w k f p in
        let same =
          ap (λ (x : World). x.orders)
            (fulfill_order-OnlySubscriptions env (paid_state env paid o w)
              (marked_paid env (paid_state env paid o w) w)) in
        Advances-trans Pays (λ a b c. Pays-trans) first
          (subst (λ r. Advances Pays (marked_paid env (paid_state env paid o w) w).orders r)
            (sym (ap (λ (x : World). x.orders) (settle_succeeds env paid o o w plan p f offered).1))
            (subst
              (λ (r : OrderStore.OrderRepository).
                Advances Pays r
                  (published env (settled env paid o w) (fulfilled_world env paid o w)).orders)
              same
              (set-Advances Pays (settled env paid o w) (paid_state env paid o w)
                (fulfilled_world env paid o w).orders Pays-refl (subst Keyed (sym same) first.keyed)
                (found_paid env paid o w) (fulfil-Pays paid o w))))
  ]

  -- Applying a payment, whatever its outcome.
  pub apply_payment-Advances :
      (id : String) (paid : Payment) (w : World)
      → Keyed w.orders
      → Advances Pays w.orders (apply_payment env id paid w).1.orders
  apply_payment-Advances id paid w k = elim (apply_payment_needs env id paid w) [
    | inl same ↦ rw same (Advances-refl Pays Pays-refl k)
    | inr (o, f, p, c, a) ↦
        rw (apply_due env id paid o w f (record { awaited = p; in_currency = c; covered = a }))
          (settle-Advances paid o w k (own env id o w k f) p)
  ]

  settle-Spares :
      (paid : Payment) (o : Order) (w : World)
      → OrderStore.find_by_id o.id w.orders ≡ some o
      → o.status ≡ OrderStatus.pending
      → Spares w (settle env paid o w).1
  settle-Spares paid o w f p = elim (Option-cases (get_plan o.plan_id env.plans)) [
    | inl missing ↦
        rw (settle_unknown_plan env paid o o w p f missing)
          (record { same_events = refl; same_refunds = refl; same_deposits = refl })
    | inr (plan, offered) ↦ ground (
      arith,
      (settle_succeeds env paid o o w plan p f offered).1,
      fulfill_order-OnlySubscriptions env (paid_state env paid o w)
          (marked_paid env (paid_state env paid o w) w),
    )
  ]

  pub apply_payment-Spares :
      (id : String) (paid : Payment) (w : World)
      → Keyed w.orders
      → Spares w (apply_payment env id paid w).1
  apply_payment-Spares id paid w k = elim (apply_payment_needs env id paid w) [
    | inl same ↦ rw same (record { same_events = refl; same_refunds = refl; same_deposits = refl })
    | inr (o, f, p, c, a) ↦
        rw (apply_due env id paid o w f (record { awaited = p; in_currency = c; covered = a }))
          (settle-Spares paid o w (own env id o w k f) p)
  ]
