-- ===== src/Payments/Service/Expiring.antt =====
-- What expireStaleOrders does to the stored orders (services/paymentService.ts).
use bianhao.Base.{
  ◌+◌, ℕ, suc, ◌≡◌, refl, sym, ap, ◌∙◌, subst, inl, inr, String, Option, none, some, List, [], ◌∷◌,
  arith, Bool-cases, set,
}
use bianhao.Domain.{Order, OrderStatus, status_eq}
use bianhao.Core.Transitions.{◌⟶*◌, here, onward, expire, assert_transition}
use bianhao.Storage.Orders as OrderStore
use bianhao.Storage.Orders.Lookup.{Keyed, update_known}
use bianhao.Storage.Orders.Evolution.{
  Pays, restamped-Pays, Pays-refl, Pays-trans, Advances, Advances-refl, Advances-trans,
  set-Advances,
}
use bianhao.Effects.Rules.{lift_rule}
use bianhao.Effects.{World, Env, pure, ◌>>=◌}
use bianhao.Payments.Service.{expire_one, expire_each, expire_fresh, expire_stale_orders, is_stale}

module _ (env : Env) where
  -- The order as it is expired.
  abbrev pub expired_at : Order → World → Order
  expired_at o w = record o { status = OrderStatus.expired; updated_at = env.now w.tick }

  pub expire_fresh_pending :
      (o : Order) (w : World)
      → o.status ≡ OrderStatus.pending
      → OrderStore.find_by_id o.id w.orders ≡ some o
      → (expire_fresh env (some o) w).1.orders
        ≡ record (w.orders) { by_id = set o.id (expired_at o w) w.orders.by_id }
  unfolding expire_fresh assert_transition
  expire_fresh_pending o w waiting found =
      ground (arith, update_known (expired_at o w) o w.orders found)

  expired-Pays : (o : Order) (w : World) → o.status ≡ OrderStatus.pending → Pays o (expired_at o w)
  expired-Pays o w waiting =
      restamped-Pays o _ _ _ _ o.metadata
        (subst (λ s. s ⟶* OrderStatus.expired) (sym waiting) (onward expire here))

  expire_fresh-Advances :
      (found : Option Order) (id : String) (w : World)
      → Keyed w.orders
      → OrderStore.find_by_id id w.orders ≡ found
      → Advances Pays w.orders (expire_fresh env found w).1.orders
  unfolding expire_fresh
  expire_fresh-Advances none id w k e = Advances-refl Pays Pays-refl k
  expire_fresh-Advances (some o) id w k e =
      let found = ap (λ i. OrderStore.find_by_id i w.orders) (k id o e) ∙ e in
      elim (Bool-cases (status_eq o.status OrderStatus.pending)) [
        | inr other ↦ rw other (Advances-refl Pays Pays-refl k)
        | inl waiting ↦
            let pending : o.status ≡ OrderStatus.pending = ground (arith, waiting) in
            subst (Advances Pays w.orders) (sym (expire_fresh_pending o w pending found)) (
              set-Advances Pays (expired_at o w) o w.orders Pays-refl k found
                (expired-Pays o w pending))
      ]

  expire_one-Advances :
      (now : ℕ) (o : Order) (w : World)
      → Keyed w.orders
      → Advances Pays w.orders (expire_one env now o w).1.orders
  unfolding expire_one
  expire_one-Advances now o w k = elim (Bool-cases (is_stale env now o)) [
    | inl stale ↦
        rw stale (expire_fresh-Advances (OrderStore.find_by_id o.id w.orders) o.id w k refl)
    | inr fresh ↦ rw fresh (Advances-refl Pays Pays-refl k)
  ]

  expire_each-Advances :
      (now : ℕ) (os : List Order) (w : World)
      → Keyed w.orders
      → Advances Pays w.orders (expire_each env now os w).1.orders
  unfolding expire_each
  expire_each-Advances now [] w k = Advances-refl Pays Pays-refl k
  expire_each-Advances now (o ∷ os) w k =
      let Kept : World → Type 0 = λ x. Advances Pays w.orders x.orders in
      let w' = (expire_one env now o w).1 in
      let first = expire_one-Advances now o w k in
      let both =
        Advances-trans Pays (λ a b c. Pays-trans) first
          (expire_each-Advances now os w' first.keyed) in
      lift_rule Kept (expire_one env now o w).0
        (λ n. expire_each env now os >>= λ rest. pure (n + rest)) w' first
        (λ n done.
          lift_rule Kept (expire_each env now os w').0 (λ rest. pure (n + rest))
            (expire_each env now os w').1 both (λ rest all_done. both))

  -- Expiring what is overdue.
  pub expire_stale_orders-Advances :
      (w : World) → Keyed w.orders → Advances Pays w.orders (expire_stale_orders env w).1.orders
  unfolding expire_stale_orders
  expire_stale_orders-Advances w k =
      expire_each-Advances (env.now w.tick) (OrderStore.all w.orders)
        (record w { tick = suc w.tick }) k
