-- ===== src/Payments/Fulfilment/Frame.antt =====
-- What SubscriptionService.fulfillOrder leaves alone (services/subscriptionService.ts).
use bianhao.Base.{ℕ, ◌≡◌, Option, none, some, ltb, suc, String, if◌then◌else◌, arith}
use bianhao.Domain.{Order, OrderStatus, Plan, Subscription, Error, ok, err}
use bianhao.Core.Transitions.{assert_transition}
use bianhao.Storage.Subscriptions.{find_active_by_user}
use bianhao.Effects.{World, Env}
use bianhao.Payments.Plans.{get_plan}
use bianhao.Payments.Fulfilment.{grant_access, fulfill_order, started, extended}

-- The worlds differ in their subscriptions and in the readings taken from outside.
abbrev pub OnlySubscriptions : World → World → Type 0
OnlySubscriptions w w' = w' ≡ record w { subscriptions = w'.subscriptions; tick = w'.tick }

module _ (env : Env) where
  pub grant_access-OnlySubscriptions :
      (o : Order) (w : World) → OnlySubscriptions w (grant_access env o w).1
  unfolding grant_access
  grant_access-OnlySubscriptions o w = ground arith

  pub fulfill_order-OnlySubscriptions :
      (o : Order) (w : World) → OnlySubscriptions w (fulfill_order env o w).1
  unfolding fulfill_order
  fulfill_order-OnlySubscriptions o w = ground (arith, grant_access-OnlySubscriptions o w)

  -- An order that comes back from `fulfillOrder` at PAID is FULFILLED, and otherwise as it was.
  pub fulfill_order_paid :
      (o : Order) (w : World) (r : Order × Subscription)
      → o.status ≡ OrderStatus.paid
      → (fulfill_order env o w).0 ≡ ok r
      → r.0 ≡ record o { status = OrderStatus.fulfilled; updated_at = env.now w.tick }
  unfolding fulfill_order grant_access assert_transition
  fulfill_order_paid o w r p e = ground arith

  -- What a fulfilment is meant to grant: the plan's time, on top of what is left.
  abbrev pub granted : Plan → ℕ → Order → String → Option Subscription → Subscription
  granted plan now o id none = started plan now o id
  granted plan now o id (some s) =
      if ltb now s.expires_at then extended plan now o s else started plan now o id

  -- With its plan on offer, a PAID order is fulfilled, and its owner granted access.
  pub fulfill_order_succeeds :
      (o : Order) (w : World) (plan : Plan)
      → o.status ≡ OrderStatus.paid
      → get_plan o.plan_id env.plans ≡ some plan
      → (fulfill_order env o w).0
        ≡ ok (
          record o { status = OrderStatus.fulfilled; updated_at = env.now w.tick },
          granted plan
              (env.now w.tick)
              o
              (env.uuid (suc w.tick))
              (find_active_by_user o.user_id w.subscriptions),
        )
  unfolding fulfill_order grant_access assert_transition
  fulfill_order_succeeds o w plan p e = ground arith

  -- Without it, the fulfilment fails and changes nothing.
  pub fulfill_order_unknown_plan :
      (o : Order) (w : World)
      → o.status ≡ OrderStatus.paid
      → get_plan o.plan_id env.plans ≡ none
      → fulfill_order env o w ≡ (err Error.not_found, w)
  unfolding fulfill_order grant_access
  fulfill_order_unknown_plan o w p e = ground arith
