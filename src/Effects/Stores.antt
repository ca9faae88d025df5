-- ===== src/Effects/Stores.antt =====
-- The repositories' methods as actions on the world.
use bianhao.Base.{ℕ, suc, Bool, true, false, String, Option}
use bianhao.Domain.{Order, Refund, Subscription, DepositAddress, SweepJob, Result, ok, err}
use bianhao.Storage.Orders as OrderStore
use bianhao.Storage.Refunds as RefundStore
use bianhao.Storage.Subscriptions as SubscriptionStore
use bianhao.Storage.Events as EventStore
use bianhao.Storage.Deposits as DepositStore
use bianhao.Storage.Sweeps as SweepStore
use bianhao.Effects.Monad.{World, Env, Action}
use bianhao.Storage.Orders.{OrderRepository}
use bianhao.Storage.Refunds.{RefundRepository}
use bianhao.Storage.Events.{ProcessedEventStore}
use bianhao.Storage.Deposits.{DepositAddressRepository}
use bianhao.Storage.Sweeps.{SweepJobRepository}

-- What a method that may throw leaves, and its answer.
abbrev put_orders : {A : Type 0} → A → World → Result OrderRepository → Result A × World
put_orders a w (ok r) = (ok a, record w { orders = r })
put_orders a w (err e) = (err e, w)

abbrev put_refunds : {A : Type 0} → A → World → Result RefundRepository → Result A × World
put_refunds a w (ok r) = (ok a, record w { refunds = r })
put_refunds a w (err e) = (err e, w)

abbrev put_deposits : {A : Type 0} → A → World → Result DepositAddressRepository → Result A × World
put_deposits a w (ok r) = (ok a, record w { deposits = r })
put_deposits a w (err e) = (err e, w)

abbrev put_sweeps : {A : Type 0} → A → World → Result SweepJobRepository → Result A × World
put_sweeps a w (ok r) = (ok a, record w { sweeps = r })
put_sweeps a w (err e) = (err e, w)

abbrev pub insert_order : Order → Action Order
insert_order o w = put_orders o w (OrderStore.create o w.orders)

abbrev pub update_order : Order → Action Order
update_order o w = put_orders o w (OrderStore.update o w.orders)

abbrev pub find_order : String → Action (Option Order)
find_order id w = (ok (OrderStore.find_by_id id w.orders), w)

abbrev pub insert_refund : Refund → Action Refund
insert_refund f w = put_refunds f w (RefundStore.create f w.refunds)

abbrev pub update_refund : Refund → Action Refund
update_refund f w = (ok f, record w { refunds = RefundStore.update f w.refunds })

abbrev pub find_refund : String → Action (Option Refund)
find_refund refund_no w = (ok (RefundStore.find_by_out_refund_no refund_no w.refunds), w)

abbrev pub insert_subscription : Subscription → Action Subscription
insert_subscription s w =
    (ok s, record w { subscriptions = SubscriptionStore.create s w.subscriptions })

abbrev pub update_subscription : Subscription → Action Subscription
update_subscription s w =
    (ok s, record w { subscriptions = SubscriptionStore.update s w.subscriptions })

-- `markIfNew` reads the clock for a new event only.
abbrev pub noted : World → Bool × ProcessedEventStore → Result Bool × World
noted w (true, events) = (ok true, record w { events = events; tick = suc w.tick })
noted w (false, events) = (ok false, w)

abbrev pub mark_if_new : Env → String → Action Bool
mark_if_new env event_id w = noted w (EventStore.mark_if_new (env.now w.tick) event_id w.events)

abbrev pub next_index : Action ℕ
next_index w =
    let (index, deposits) = DepositStore.next_index w.deposits in
    (ok index, record w { deposits = deposits })

abbrev pub save_deposit : DepositAddress → Action DepositAddress
save_deposit d w = put_deposits d w (DepositStore.save d w.deposits)

abbrev pub insert_sweep : SweepJob → Action SweepJob
insert_sweep j w = put_sweeps j w (SweepStore.create j w.sweeps)

abbrev pub update_sweep : SweepJob → Action SweepJob
update_sweep j w = put_sweeps j w (SweepStore.update j w.sweeps)
