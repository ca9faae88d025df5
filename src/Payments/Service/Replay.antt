-- ===== src/Payments/Service/Replay.antt =====
-- PaymentService.handleCallback and replayed callbacks (services/paymentService.ts).
use bianhao.Base.{
  suc, ◌≡◌, refl, inl, inr, true, false, String, Option, none, some, arith, Bool-cases, has, set,
  get-set_self, subst,
}
use bianhao.Domain.{Order, PaymentMethod, CallbackResult, ok}
use bianhao.Storage.Orders as OrderStore
use bianhao.Storage.Orders.Lookup.{Keyed}
use bianhao.Storage.Events as EventStore
use bianhao.Effects.{World, Env, PaymentProvider}
use bianhao.Payments.Service.{callback_key, settle_callback, handle_verified, payment_of}
use bianhao.Payments.Service.Progress.{apply_payment-Spares}

same_key :
    (method : PaymentMethod) (r again : CallbackResult)
    → again.event_id ≡ r.event_id
    → callback_key method r ≡ callback_key method again
unfolding callback_key
same_key method r again e = cc

module _ (env : Env) (method : PaymentMethod) (p : PaymentProvider) where
  settle_callback-events :
      (r : CallbackResult) (found : Option Order) (w : World)
      → Keyed w.orders
      → (settle_callback env p r found w).1.events ≡ w.events
  unfolding settle_callback
  settle_callback-events r none w k = refl
  settle_callback-events r (some o) w k =
      ground (arith, apply_payment-Spares env o.id (payment_of env r) w k)

  -- The world with the callback's event on record.
  abbrev marked : PaymentMethod → CallbackResult → World → World
  marked m r w = record w {
    events = record { seen = set (callback_key m r) (env.now w.tick) w.events.seen };
    tick = suc w.tick;
  }

  handle_verified_new :
      (r : CallbackResult) (w : World)
      → r.paid ≡ true
      → has (callback_key method r) w.events.seen ≡ false
      → handle_verified env method p r w
        ≡ settle_callback env p r
            (OrderStore.find_by_out_trade_no r.out_trade_no w.orders)
            (marked method r w)
  unfolding handle_verified
  handle_verified_new r w paid new =
      ground
        (arith, EventStore.mark_if_new_new (env.now w.tick) (callback_key method r) w.events new)

  handle_verified_seen :
      (r : CallbackResult) (w : World)
      → has (callback_key method r) w.events.seen ≡ true
      → handle_verified env method p r w ≡ (ok (p.callback_ack true), w)
  unfolding handle_verified
  handle_verified_seen r w seen =
      ground
        (arith, EventStore.mark_if_new_old (env.now w.tick) (callback_key method r) w.events seen)

  handle_verified_marks :
      (r : CallbackResult) (w : World)
      → Keyed w.orders
      → r.paid ≡ true
      → has (callback_key method r) (handle_verified env method p r w).1.events.seen ≡ true
  handle_verified_marks r w k paid = elim (Bool-cases (has (callback_key method r) w.events.seen)) [
    | inl seen ↦ rw (handle_verified_seen r w seen) seen
    | inr new ↦ rw (handle_verified_new r w paid new) (
        ground (
          arith,
          settle_callback-events r (OrderStore.find_by_out_trade_no r.out_trade_no w.orders)
              (marked method r w) k,
          get-set_self (callback_key method r) (env.now w.tick) w.events.seen,
        ))
  ]

  -- A callback that reports a payment is acted on once: whatever its first delivery led to, a later
  -- delivery with the same event id is acknowledged and changes nothing.
  pub handle_verified_replay :
      (r again : CallbackResult) (w : World)
      → Keyed w.orders
      → r.paid ≡ true
      → again.event_id ≡ r.event_id
      → let w' = (handle_verified env method p r w).1 in
        handle_verified env method p again w' ≡ (ok (p.callback_ack true), w')
  handle_verified_replay r again w k paid same =
      handle_verified_seen again (handle_verified env method p r w).1 (
        subst (λ (e : String). has e (handle_verified env method p r w).1.events.seen ≡ true)
          (same_key method r again same) (handle_verified_marks r w k paid))

  -- The retry that the code asks for is lost: a paid callback that comes before its order is stored
  -- is refused, so that the provider delivers it again; but whatever the orders are by then, the
  -- second delivery is acknowledged without looking at them.
  pub handle_verified_lost :
      (r : CallbackResult) (w : World) (later : OrderStore.OrderRepository)
      → Keyed w.orders
      → r.paid ≡ true
      → has (callback_key method r) w.events.seen ≡ false
      → OrderStore.find_by_out_trade_no r.out_trade_no w.orders ≡ none
      → let w' = (handle_verified env method p r w).1 in
        ((handle_verified env method p r w).0 ≡ ok (p.callback_ack false))
        × (handle_verified env method p r (record w' { orders = later })
            ≡ (ok (p.callback_ack true), record w' { orders = later }))
  handle_verified_lost r w later k paid new absent = (
    rw (handle_verified_new r w paid new, absent) (unfold settle_callback in refl),
    handle_verified_seen r (record ((handle_verified env method p r w).1) { orders = later })
        (handle_verified_marks r w k paid),
  )
