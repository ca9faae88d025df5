-- ===== src/Payments/Fulfilment.antt =====
-- services/subscriptionService.ts: a PAID order becomes VPN access.
pub mod Frame
use bianhao.Base.{
  ℕ, ◌+◌, ◌*◌, Bool, true, false, String, Option, none, some, List, [], ◌∷◌, ◌++◌, ltb,
  if◌then◌else◌,
}
use bianhao.Domain.{Order, OrderStatus, Plan, Subscription, Error, Result, ok, err, status_eq}
use bianhao.Core.Transitions.{assert_transition}
use bianhao.Storage.Subscriptions.{find_active_by_user}
use bianhao.Effects.{World, Env, Action, pure, gets, or_throw, lift, read, ◌>>=◌, ◌>>◌}
use bianhao.Effects.Stores.{insert_subscription, update_subscription}
use bianhao.Payments.Plans.{get_plan}

-- `plan.durationDays * 24 * 60 * 60 * 1000`
abbrev pub duration_ms : Plan → ℕ
duration_ms plan = plan.duration_days * 24 * 60 * 60 * 1000

-- The current subscription, prolonged from its own expiry.
abbrev pub extended : Plan → ℕ → Order → Subscription → Subscription
extended plan now order s = record s {
  plan_id = plan.id;
  expires_at = s.expires_at + duration_ms plan;
  traffic_gb = plan.traffic_gb;
  device_limit = plan.device_limit;
  order_ids = s.order_ids ++ order.id ∷ [];
  active = true;
  expiry_notified_at = none;
  updated_at = now;
}

abbrev pub started : Plan → ℕ → Order → String → Subscription
started plan now order id = record {
  id = id;
  user_id = order.user_id;
  plan_id = plan.id;
  starts_at = now;
  expires_at = now + duration_ms plan;
  traffic_gb = plan.traffic_gb;
  device_limit = plan.device_limit;
  active = true;
  order_ids = order.id ∷ [];
  expiry_notified_at = none;
  created_at = now;
  updated_at = now;
}

module _ (env : Env) where
  start_new : Plan → ℕ → Order → Action Subscription
  start_new plan now order = do id ← read env.uuid; insert_subscription (started plan now order id)

  extend_or_start : Plan → ℕ → Order → Option Subscription → Action Subscription
  unfolding start_new
  extend_or_start plan now order none = start_new plan now order
  extend_or_start plan now order (some s) =
      if ltb now s.expires_at
      then update_subscription (extended plan now order s)
      else start_new plan now order

  -- The part of `fulfillOrder` below its early return.
  unfoldable pub grant_access : Order → Action (Order × Subscription)
  unfolding extend_or_start
  grant_access order = do
    plan ← or_throw (get_plan order.plan_id env.plans) Error.not_found
    now ← read env.now
    existing ← gets (λ w. find_active_by_user order.user_id w.subscriptions)
    subscription ← extend_or_start plan now order existing
    status ← lift (assert_transition order.status OrderStatus.fulfilled)
    pure (record order { status = status; updated_at = now }, subscription)

  keep_or_grant : Order → Option Subscription → Action (Order × Subscription)
  unfolding grant_access
  keep_or_grant order none = grant_access order
  keep_or_grant order (some existing) = pure (order, existing)

  unfoldable pub fulfill_order : Order → Action (Order × Subscription)
  unfolding keep_or_grant
  fulfill_order order =
      if status_eq order.status OrderStatus.fulfilled
      then (gets (λ w. find_active_by_user order.user_id w.subscriptions) >>= keep_or_grant order)
      else grant_access order
