-- ===== src/Payments/Service/Overdue.antt =====
-- Which orders expireStaleOrders may expire (services/paymentService.ts).
use bianhao.Base.{
  ◌+◌, ℕ, suc, ◌≤◌, ◌≡◌, refl, sym, ap, ◌∙◌, subst, ◌⊎◌, inl, inr, true, some, List, [], ◌∷◌, All,
  arith, Bool-cases,
}
use bianhao.Domain.{Order, OrderStatus, status_eq}
use bianhao.Storage.Orders as OrderStore
use bianhao.Storage.Orders.Lookup.{Keyed}
use bianhao.Storage.Orders.Evolution.{Advances, Advances-refl, Advances-trans, set-Advances}
use bianhao.Effects.Rules.{lift_rule}
use bianhao.Effects.{World, Env, pure, ◌>>=◌}
use bianhao.Payments.Service.{expire_one, expire_each, expire_fresh, expire_stale_orders, is_stale}
use bianhao.Payments.Service.Expiring.{expired_at, expire_fresh_pending}

-- The order is as it was, or it was PENDING and past its deadline and is EXPIRED.
abbrev pub Overdue : ℕ → Order → Order → Type 0
Overdue now o o' =
    (o' ≡ o)
    ⊎ ((o.status ≡ OrderStatus.pending) × (o.expires_at ≤ now) × (o'.status ≡ OrderStatus.expired))

pub Overdue-trans : (now : ℕ) (a b c : Order) → Overdue now a b → Overdue now b c → Overdue now a c
Overdue-trans now a b c (inl same) next = subst (λ x. Overdue now x c) same next
Overdue-trans now a b c (inr (p, d, x)) (inl same) =
    inr (p, d, subst (λ y. y.status ≡ OrderStatus.expired) (sym same) x)
Overdue-trans now a b c (inr (p, d, x)) (inr (p', d', x')) = inr (p, d, x')

module _ (env : Env) (now : ℕ) where
  pub Overdue-refl : (o : Order) → Overdue now o o
  Overdue-refl o = inl refl

  -- A listed order is stored, as it was or expired since.
  abbrev pub Tracked : World → Order → Type 0
  Tracked w o =
      (current : Order) × (OrderStore.find_by_id o.id w.orders ≡ some current)
      × Overdue now o current

  deadline_passed :
      (o current : Order)
      → is_stale env now o ≡ true
      → current.status ≡ OrderStatus.pending
      → Overdue now o current
      → current.expires_at ≤ now
  deadline_passed o current stale pending (inl same) =
      subst (λ x. x.expires_at ≤ now) (sym same) (ground (arith, stale))
  deadline_passed o current stale pending (inr (p, d, x)) = ground (arith, x, pending)

  expire_fresh-Overdue :
      (o current : Order) (w : World)
      → Keyed w.orders
      → is_stale env now o ≡ true
      → OrderStore.find_by_id o.id w.orders ≡ some current
      → Overdue now o current
      → Advances (Overdue now) w.orders (expire_fresh env (some current) w).1.orders
  unfolding expire_fresh
  expire_fresh-Overdue o current w k stale e past =
      let found = ap (λ i. OrderStore.find_by_id i w.orders) (k o.id current e) ∙ e in
      elim (Bool-cases (status_eq current.status OrderStatus.pending)) [
        | inr other ↦ rw other (Advances-refl (Overdue now) Overdue-refl k)
        | inl waiting ↦
            let pending : current.status ≡ OrderStatus.pending = ground (arith, waiting) in
            subst (Advances (Overdue now) w.orders)
              (sym (expire_fresh_pending env current w pending found))
              (set-Advances (Overdue now) (expired_at env current w) current w.orders Overdue-refl k
                found (inr (pending, deadline_passed o current stale pending past, refl)))
      ]

  pub expire_one-Overdue :
      (o : Order) (w : World)
      → Keyed w.orders
      → Tracked w o
      → Advances (Overdue now) w.orders (expire_one env now o w).1.orders
  unfolding expire_one
  expire_one-Overdue o w k (current, found, past) = elim (Bool-cases (is_stale env now o)) [
    | inl stale ↦ rw (stale, found) (expire_fresh-Overdue o current w k stale found past)
    | inr fresh ↦ rw fresh (Advances-refl (Overdue now) Overdue-refl k)
  ]

  pub still-Tracked :
      (os : List Order) (w w' : World)
      → Advances (Overdue now) w.orders w'.orders
      → All (Tracked w) os
      → All (Tracked w') os
  still-Tracked [] w w' a h = tt
  still-Tracked (o ∷ os) w w' a ((current, found, past), h) =
      let (current', found', next) = a.kept o.id current found in
      (
        (current', found', Overdue-trans now o current current' past next),
        still-Tracked os w w' a h,
      )

  pub expire_each-Overdue :
      (os : List Order) (w : World)
      → Keyed w.orders
      → All (Tracked w) os
      → Advances (Overdue now) w.orders (expire_each env now os w).1.orders
  unfolding expire_each
  expire_each-Overdue [] w k h = Advances-refl (Overdue now) Overdue-refl k
  expire_each-Overdue (o ∷ os) w k h =
      let Kept : World → Type 0 = λ x. Advances (Overdue now) w.orders x.orders in
      let w' = (expire_one env now o w).1 in
      let first = expire_one-Overdue o w k h.0 in
      let both =
        Advances-trans (Overdue now) (Overdue-trans now) first
          (expire_each-Overdue os w' first.keyed (still-Tracked os w w' first h.1)) in
      lift_rule Kept (expire_one env now o w).0
        (λ n. expire_each env now os >>= λ rest. pure (n + rest)) w' first
        (λ n done.
          lift_rule Kept (expire_each env now os w').0 (λ rest. pure (n + rest))
            (expire_each env now os w').1 both (λ rest all_done. both))

pub All-Tracked :
    (env : Env) (now : ℕ) (os : List Order) (w : World)
    → All (λ (o : Order). OrderStore.find_by_id o.id w.orders ≡ some o) os
    → All (Tracked env now w) os
All-Tracked env now [] w h = tt
All-Tracked env now (o ∷ os) w h = ((o, h.0, inl refl), All-Tracked env now os w h.1)

-- Where listed orders are found under their ids, `expireStaleOrders` leaves every order as it was but
-- for PENDING ones past their deadline, which it may make EXPIRED; none is lost or added.
pub expire_stale_orders-Overdue :
    (env : Env) (w : World)
    → Keyed w.orders
    → All (λ (o : Order). OrderStore.find_by_id o.id w.orders ≡ some o) (OrderStore.all w.orders)
    → Advances (Overdue (env.now w.tick)) w.orders (expire_stale_orders env w).1.orders
unfolding expire_stale_orders
expire_stale_orders-Overdue env w k listed =
    expire_each-Overdue env (env.now w.tick) (OrderStore.all w.orders)
      (record w { tick = suc w.tick }) k
      (All-Tracked env (env.now w.tick) (OrderStore.all w.orders) (record w { tick = suc w.tick })
        listed)
