-- ===== src/Payments/Service/Traces.antt =====
-- Any sequence of calls that may move stored orders: callbacks, queries and expiries
-- (services/paymentService.ts).
use bianhao.Base.{String, List, [], ◌∷◌}
use bianhao.Domain.{PaymentMethod, CallbackResult}
use bianhao.Storage.Orders.Lookup.{Keyed}
use bianhao.Storage.Orders.Evolution.{
  Pays, Pays-refl, Pays-trans, Advances, Advances-refl, Advances-trans,
}
use bianhao.Effects.{World, Env, PaymentProvider}
use bianhao.Payments.Service.{handle_verified, sync_order, expire_stale_orders}
use bianhao.Payments.Service.Journeys.{handle_verified-Advances, sync_order-Advances}
use bianhao.Payments.Service.Expiring.{expire_stale_orders-Advances}

-- A call with its arguments; a callback is one that its provider has verified.
pub data Call : Type 0 where
  callback : PaymentMethod → PaymentProvider → CallbackResult → Call
  sync : String → Call
  expire_stale : Call

module _ (env : Env) where
  -- The world that the call leaves, answered or not.
  abbrev pub after_call : Call → World → World
  after_call (Call.callback method p r) w = (handle_verified env method p r w).1
  after_call (Call.sync id) w = (sync_order env id w).1
  after_call Call.expire_stale w = (expire_stale_orders env w).1

  abbrev pub after_calls : List Call → World → World
  after_calls [] w = w
  after_calls (c ∷ cs) w = after_calls cs (after_call c w)

  after_call-Advances :
      (c : Call) (w : World) → Keyed w.orders → Advances Pays w.orders (after_call c w).orders
  after_call-Advances (Call.callback method p r) w k = handle_verified-Advances env method p r w k
  after_call-Advances (Call.sync id) w k = sync_order-Advances env id w k
  after_call-Advances Call.expire_stale w k = expire_stale_orders-Advances env w k

  -- Over any sequence of verified callbacks, queries and expiries, whatever their outcomes, no order
  -- is lost or added, each moves only along the state machine, and its terms stay as they are.
  pub after_calls-Advances :
      (cs : List Call) (w : World)
      → Keyed w.orders
      → Advances Pays w.orders (after_calls cs w).orders
  after_calls-Advances [] w k = Advances-refl Pays Pays-refl k
  after_calls-Advances (c ∷ cs) w k =
      let first = after_call-Advances c w k in
      Advances-trans Pays (λ a b c. Pays-trans) first
        (after_calls-Advances cs (after_call c w) first.keyed)
