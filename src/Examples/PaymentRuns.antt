-- ===== src/Examples/PaymentRuns.antt =====
-- Payments on one order: runs of the code, and the theorems of Payments at that order.
use bianhao.Base.{◌≡◌, refl, ◌⊎◌, ◌≤◌, true, false, some, [], ◌∷◌, str_eq_iff, arith}
use bianhao.Domain.{Order, OrderStatus, PaymentMethod, ok}
use bianhao.Core.Transitions.{Allowed, assert_transition, assert_transition_iff}
use bianhao.Domain.{Error, err}
use bianhao.Base.{◌↔◌}
use bianhao.Storage.Orders as OrderStore
use bianhao.Storage.Orders.Lookup.{Keyed}
use bianhao.Payments.Amounts.{FirstFree, allocate_unique_amount, allocate_unique_amount-FirstFree}
use bianhao.Payments.Service.{expire_stale_orders, apply_payment, handle_verified}
use bianhao.Payments.Service.Settlement.{settled, apply_payment_needs}
use bianhao.Payments.Service.Acceptance.{apply_payment_settles, apply_payment_once}
use bianhao.Payments.Service.Replay.{handle_verified_replay, handle_verified_lost}
use bianhao.Storage.Orders.Evolution.{Pays, Advances}
use bianhao.Payments.Service.Traces.{Call, after_calls, after_calls-Advances}
use bianhao.Payments.Service.Overdue.{Overdue, expire_stale_orders-Overdue}
use bianhao.Effects.{World}
use bianhao.Examples.Fixtures.{
  waiting, shop_world, empty_world, shop, full_payment, monthly, agreeable, callback, payment_code,
}

pub shop-Keyed : Keyed shop_world.orders
unfolding payment_code
shop-Keyed i o h = ground (arith, str_eq_iff "o1" i)

empty-Keyed : Keyed empty_world.orders
unfolding payment_code
empty-Keyed i o h = cc

pay_waiting :
    (apply_payment shop "o1" full_payment shop_world).0
    ≡ ok (settled shop full_payment waiting shop_world)
unfolding payment_code
pay_waiting = refl

assert_transition_iff_example :
    ((assert_transition OrderStatus.expired OrderStatus.paid ≡ ok OrderStatus.paid)
      ↔ Allowed OrderStatus.expired OrderStatus.paid)
    × ((assert_transition OrderStatus.expired OrderStatus.paid ≡ err Error.invalid_state)
        ↔ (¬ Allowed OrderStatus.expired OrderStatus.paid))
assert_transition_iff_example = assert_transition_iff OrderStatus.expired OrderStatus.paid

-- 100 and 101 are taken.
allocate_unique_amount_example :
    FirstFree 4 100 (101 ∷ 100 ∷ []) (allocate_unique_amount 100 (101 ∷ 100 ∷ []) 3)
allocate_unique_amount_example = allocate_unique_amount-FirstFree 100 (101 ∷ 100 ∷ []) 3

apply_payment_needs_example :
    ((apply_payment shop "o1" full_payment shop_world).1 ≡ shop_world)
    ⊎ ((o : Order) × (OrderStore.find_by_id "o1" shop_world.orders ≡ some o)
        × (o.status ≡ OrderStatus.pending)
        × (full_payment.currency ≡ o.currency)
        × (o.amount ≤ full_payment.paid_amount))
apply_payment_needs_example = apply_payment_needs shop "o1" full_payment shop_world

apply_payment_settles_example :
    ((apply_payment shop "o1" full_payment shop_world).0
      ≡ ok (settled shop full_payment waiting shop_world))
    × (OrderStore.find_by_id "o1" (apply_payment shop "o1" full_payment shop_world).1.orders
        ≡ some (settled shop full_payment waiting shop_world))
unfolding payment_code
apply_payment_settles_example =
    apply_payment_settles shop "o1" full_payment waiting shop_world monthly shop-Keyed refl
      (record { awaited = refl; in_currency = refl; covered = omega arith }) refl

apply_payment_once_example :
    apply_payment shop "o1" full_payment (apply_payment shop "o1" full_payment shop_world).1 ≡ (
      ok (settled shop full_payment waiting shop_world),
      (apply_payment shop "o1" full_payment shop_world).1,
    )
apply_payment_once_example =
    apply_payment_once shop "o1" full_payment full_payment _ shop_world shop-Keyed pay_waiting

handle_verified_replay_example :
    let w' = (handle_verified shop PaymentMethod.wechat agreeable callback shop_world).1 in
    handle_verified shop PaymentMethod.wechat agreeable callback w'
    ≡ (ok (agreeable.callback_ack true), w')
handle_verified_replay_example =
    handle_verified_replay shop PaymentMethod.wechat agreeable callback callback shop_world
      shop-Keyed refl refl

-- The callback overtakes its order, which is stored by the time of the retry.
handle_verified_lost_example :
    let w' = (handle_verified shop PaymentMethod.wechat agreeable callback empty_world).1 in
    ((handle_verified shop PaymentMethod.wechat agreeable callback empty_world).0
      ≡ ok (agreeable.callback_ack false))
    × (handle_verified shop PaymentMethod.wechat agreeable callback
          (record w' { orders = shop_world.orders })
        ≡ (ok (agreeable.callback_ack true), record w' { orders = shop_world.orders }))
unfolding payment_code
handle_verified_lost_example =
    handle_verified_lost shop PaymentMethod.wechat agreeable callback empty_world shop_world.orders
      empty-Keyed refl refl refl

after_calls-Advances_example :
    Advances Pays shop_world.orders
      (after_calls shop
        (Call.expire_stale
          ∷ Call.callback PaymentMethod.wechat agreeable callback
          ∷ Call.sync "o1"
          ∷ [])
        shop_world).orders
after_calls-Advances_example =
    after_calls-Advances shop
      (Call.expire_stale
        ∷ Call.callback PaymentMethod.wechat agreeable callback
        ∷ Call.sync "o1"
        ∷ [])
      shop_world shop-Keyed

-- The order's deadline has passed.
abbrev late_world : World
late_world = record shop_world { tick = 900_000 }

expire_late :
    OrderStore.find_by_id "o1" (expire_stale_orders shop late_world).1.orders
    ≡ some (record waiting { status = OrderStatus.expired; updated_at = 901_001 })
unfolding payment_code expire_stale_orders OrderStore.all
expire_late = refl

expire_stale_orders-Overdue_example :
    Advances (Overdue 901_000) late_world.orders (expire_stale_orders shop late_world).1.orders
unfolding payment_code OrderStore.all
expire_stale_orders-Overdue_example =
    expire_stale_orders-Overdue shop late_world shop-Keyed (refl, tt)
