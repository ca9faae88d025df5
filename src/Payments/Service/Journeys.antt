-- ===== src/Payments/Service/Journeys.antt =====
-- What handleCallback and syncOrder do to the stored orders
-- (services/paymentService.ts).
use bianhao.Base.{
  not, if◌then◌else◌, suc, ◌≡◌, refl, sym, ap, subst, ◌⊎◌, inl, inr, String, Option, none, some,
  arith, Bool-cases, has, truthy, set, get_or,
}
use bianhao.Domain.{
  Order, OrderStatus, PaymentMethod, CallbackResult, QueryResult, Error, status_eq,
}
use bianhao.Storage.Orders as OrderStore
use bianhao.Storage.Orders.Lookup.{Keyed}
use bianhao.Storage.Orders.Evolution.{Pays, Pays-refl, Advances, Advances-refl}
use bianhao.Storage.Events as EventStore
use bianhao.Effects.Rules.{lift_rule, or_throw_rule, mark_if_new_rule}
use bianhao.Effects.{World, Env, PaymentProvider, Action, pure, gets, ask, or_throw, ◌>>=◌}
use bianhao.Payments.Service.{
  transaction_key, provider, Payment, apply_payment, handle_verified, settle_callback, payment_of,
  callback_key, sync_order, apply_query,
}
use bianhao.Payments.Service.Progress.{apply_payment-Advances}

module _ (env : Env) where
  -- The orders are as they were, or as a payment on one of them leaves them.
  abbrev PaysOrRests : OrderStore.OrderRepository → OrderStore.OrderRepository → Type 0
  PaysOrRests r r' =
      (r' ≡ r)
      ⊎ ((id : String) × (paid : Payment) × (v : World) × (v.orders ≡ r)
          × (r' ≡ (apply_payment env id paid v).1.orders))

  PaysOrRests-Advances :
      (r r' : OrderStore.OrderRepository) → Keyed r → PaysOrRests r r' → Advances Pays r r'
  PaysOrRests-Advances r r' k (inl same) =
      subst (Advances Pays r) (sym same) (Advances-refl Pays Pays-refl k)
  PaysOrRests-Advances r r' k (inr (id, paid, v, same, then_paid)) =
      subst (Advances Pays r) (sym then_paid) (
        subst (λ x. Advances Pays x (apply_payment env id paid v).1.orders) same
          (apply_payment-Advances env id paid v (subst Keyed (sym same) k)))

  settle_callback-PaysOrRests :
      (p : PaymentProvider) (r : CallbackResult) (found : Option Order) (w v : World)
      → v.orders ≡ w.orders
      → PaysOrRests w.orders (settle_callback env p r found v).1.orders
  unfolding settle_callback
  settle_callback-PaysOrRests p r none w v e = inl e
  settle_callback-PaysOrRests p r (some o) w v e = inr (o.id, payment_of env r, v, e, ground arith)

  handle_verified_cases :
      (method : PaymentMethod) (p : PaymentProvider) (r : CallbackResult) (w : World)
      → ((handle_verified env method p r w).1 ≡ w)
        ⊎ ((v : World) × (v.orders ≡ w.orders)
            × (handle_verified env method p r w
                ≡ settle_callback env p r
                    (OrderStore.find_by_out_trade_no r.out_trade_no w.orders)
                    v))
  unfolding handle_verified
  handle_verified_cases method p r w =
      let key = callback_key method r in
      elim (Bool-cases r.paid) [
        | inr unpaid ↦ inl (ground (arith, unpaid))
        | inl paid ↦ elim (Bool-cases (has key w.events.seen)) [
          | inl seen ↦
              inl (
                ground (arith, paid, EventStore.mark_if_new_old (env.now w.tick) key w.events seen))
          | inr new ↦ inr (
            record w {
              events = record { seen = set key (env.now w.tick) w.events.seen };
              tick = suc w.tick;
            },
            refl,
            ground (arith, paid, EventStore.mark_if_new_new (env.now w.tick) key w.events new),
          )
        ]
      ]

  -- A verified callback, whatever it reports.
  pub handle_verified-Advances :
      (method : PaymentMethod) (p : PaymentProvider) (r : CallbackResult) (w : World)
      → Keyed w.orders
      → Advances Pays w.orders (handle_verified env method p r w).1.orders
  handle_verified-Advances method p r w k = elim (handle_verified_cases method p r w) [
    | inl same ↦ PaysOrRests-Advances w.orders _ k (inl (ap (λ (x : World). x.orders) same))
    | inr (v, e, same) ↦ PaysOrRests-Advances w.orders _ k (
        subst (λ x. PaysOrRests w.orders x.1.orders) (sym same)
          (settle_callback-PaysOrRests p r (OrderStore.find_by_out_trade_no r.out_trade_no w.orders)
            w v e))
  ]

  apply_query-PaysOrRests :
      (o : Order) (q : QueryResult) (txn : Option String) (w v : World)
      → v.orders ≡ w.orders
      → PaysOrRests w.orders (apply_query env o q txn v).1.orders
  unfolding apply_query
  apply_query-PaysOrRests o q none w v e = inl e
  apply_query-PaysOrRests o q (some txn) w v e =
      let paid : Payment = record {
        provider_txn_id = txn;
        paid_amount = get_or q.paid_amount o.amount;
        currency = o.currency;
      } in
      elim (Bool-cases q.paid) [
        | inl yes_paid ↦ rw yes_paid (
            mark_if_new_rule (λ x. PaysOrRests w.orders x.orders)
              (λ is_new.
                if is_new
                then apply_payment env o.id paid
                else gets (λ x. get_or (OrderStore.find_by_id o.id x.orders) o))
              env (transaction_key o.method txn) v (inl e)
              (λ events.
                inr (o.id, paid, record v { events = events; tick = suc v.tick }, e, refl)))
        | inr unpaid ↦ rw unpaid (inl e)
      ]

  -- Asking the provider, whatever it answers.
  pub sync_order-Advances :
      (id : String) (w : World)
      → Keyed w.orders
      → Advances Pays w.orders (sync_order env id w).1.orders
  unfolding sync_order provider
  sync_order-Advances id w k =
      let Kept : World → Type 0 = λ x. Advances Pays w.orders x.orders in
      let same = Advances-refl Pays Pays-refl k in
      let query : Order → PaymentProvider → Action Order = λ o p.
        ask (λ t. p.query_payment t o) >>= λ q. apply_query env o q (truthy q.provider_txn_id) in
      or_throw_rule Kept (OrderStore.find_by_id id w.orders) Error.not_found
        (λ o.
          if not (status_eq o.status OrderStatus.pending)
          then pure o
          else (or_throw (env.providers o.method) Error.validation >>= query o))
        w same
        λ o found. elim (Bool-cases (status_eq o.status OrderStatus.pending)) [
          | inr other ↦ rw other same
          | inl waiting ↦ rw waiting (
              or_throw_rule Kept (env.providers o.method) Error.validation (query o) w same
                λ p offered.
                  lift_rule Kept (p.query_payment w.tick o)
                    (λ q. apply_query env o q (truthy q.provider_txn_id))
                    (record w { tick = suc w.tick }) same
                    (λ q answered. PaysOrRests-Advances w.orders _ k (
                      apply_query-PaysOrRests o q (truthy q.provider_txn_id) w
                        (record w { tick = suc w.tick }) refl)))
        ]
