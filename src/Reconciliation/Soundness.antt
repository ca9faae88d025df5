-- ===== src/Reconciliation/Soundness.antt =====
-- The audit against the ledger that RefundService keeps (services/reconciliationService.ts).
use bianhao.Base.{
  ℕ, ◌+◌, ◌≡◌, ◌↔◌, refl, ◌≤◌, Bool, true, false, String, Option, some, List, [], ◌∷◌, ◌++◌, arith,
  get_or, get, set, values, get-set, str_eq, str_eq_iff, Map, Distinct, All, if◌then◌else◌,
  Bool-cases, inl, inr, subst, sym, ap, ◌∙◌, suc, str_eq_refl,
}
use bianhao.Domain.{ok, Order, Refund, RefundStatus}
use bianhao.Storage.Orders as OrderStore
use bianhao.Storage.Orders.Lookup.{Keyed}
use bianhao.Storage.Refunds as RefundStore
use bianhao.Storage.Refunds.{refund_status_eq}
use bianhao.Effects.{World, Env, Action}
use bianhao.Refunds.Service.{refunded_of}
use bianhao.Refunds.Ledger.{Books, reserved, weight}
use bianhao.Reconciliation.{
  Discrepancy, Finding, reserve_all, check_order, check_orders, report_on, ReconciliationReport,
  run,
}

-- The sums that the audit builds are the ledger's.
pub reserve_all-reserved :
    (i : String) (m : Map Refund) (sums : Map ℕ)
    → get_or (get i (reserve_all (values m) sums)) 0 ≡ get_or (get i sums) 0 + reserved i m
unfolding reserve_all reserved weight values
reserve_all-reserved i [] sums = omega arith
reserve_all-reserved i ((k, f) ∷ m) sums = ground (
  arith,
  reserve_all-reserved i m (
      if refund_status_eq f.status RefundStatus.failed
      then sums
      else set f.order_id (get_or (get f.order_id sums) 0 + f.amount) sums),
  get-set f.order_id i (get_or (get f.order_id sums) 0 + f.amount) sums,
  str_eq_iff f.order_id i,
)

reserve_all_start :
    (i : String) (m : Map Refund) → get_or (get i (reserve_all (values m) [])) 0 ≡ reserved i m
unfolding get
reserve_all_start i m = omega (arith, reserve_all-reserved i m [])

-- Is the finding about refunds?
unfoldable pub about_refunds : Finding → Bool
about_refunds (Finding.over_refunded refunded amount) = true
about_refunds (Finding.refund_ledger_mismatch refunded sum) = true
about_refunds _ = false

-- Nothing in the list is about refunds.
abbrev pub IsClean : List Discrepancy → Type 0
IsClean ds = All (λ d. about_refunds d.finding ≡ false) ds

-- No more is refunded than was paid, and as much as the refunds come to.
abbrev pub IsAccounted : Order → ℕ → Type 0
IsAccounted o sum = (refunded_of o ≤ o.amount) × (refunded_of o ≡ sum)

IsClean-split : (xs ys : List Discrepancy) → IsClean (xs ++ ys) ↔ (IsClean xs × IsClean ys)
IsClean-split [] ys = (λ h. (tt, h), λ h. h.1)
IsClean-split (x ∷ xs) ys = (
  λ h. let (left, right) = (IsClean-split xs ys).0 h.1 in ((h.0, left), right),
  λ h. (h.0.0, (IsClean-split xs ys).1 (h.0.1, h.1)),
)

check_order_iff : (o : Order) (sum now : ℕ) → IsClean (check_order o sum now) ↔ IsAccounted o sum
unfolding check_order about_refunds
check_order_iff o sum now = (λ h. ground arith, λ h. ground arith)

check_orders_iff :
    (m : Map Order) (sums : Map ℕ) (now : ℕ)
    → IsClean (check_orders (values m) sums now)
      ↔ All (λ (kv : String × Order). IsAccounted kv.1 (get_or (get kv.1.id sums) 0)) m
unfolding check_orders values
check_orders_iff [] sums now = (λ h. tt, λ h. tt)
check_orders_iff ((k, o) ∷ m) sums now =
    let split =
      IsClean-split (check_order o (get_or (get o.id sums) 0) now)
        (check_orders (values m) sums now) in
    let first = check_order_iff o (get_or (get o.id sums) 0) now in
    let others = check_orders_iff m sums now in
    (λ h. (first.0 (split.0 h).0, others.0 (split.0 h).1), λ h. split.1 (first.1 h.0, others.1 h.1))

-- Where no key comes twice, what holds of all entries holds of all that is found, and conversely.
All-found :
    {V : Type 0} (P : String × V → Type 0) (m : Map V)
    → Distinct m
    → All P m ↔ ((k : String) (v : V) → get k m ≡ some v → P (k, v))
unfolding get
All-found P [] d = (λ h k v e. ground arith, λ h. tt)
All-found P ((j, w) ∷ m) d = (
  λ h k v e. elim (Bool-cases (str_eq j k)) [
    | inl same ↦ subst P (ground (arith, str_eq_iff j k)) h.0
    | inr differ ↦ (All-found P m d.1).0 h.1 k v (ground arith)
  ],
  λ h. (
    h j w (ground (arith, str_eq_refl j)),
    (All-found P m d.1).1 (λ k v e. h k v (ground (arith, str_eq_iff j k))),
  ),
)

-- The report mentions no refund exactly when the ledger is balanced and covered.
pub report_on-IsClean_iff :
    (now healed : ℕ) (orders : OrderStore.OrderRepository) (refunds : RefundStore.RefundRepository)
    → Keyed orders
    → Distinct orders.by_id
    → IsClean (report_on now (OrderStore.all orders) (RefundStore.all refunds) healed).discrepancies
      ↔ ((i : String) (o : Order)
          → OrderStore.find_by_id i orders ≡ some o
          → IsAccounted o (reserved i refunds.by_id))
unfolding report_on OrderStore.all RefundStore.all OrderStore.find_by_id
report_on-IsClean_iff now healed orders refunds keyed d =
    let entries = check_orders_iff orders.by_id (reserve_all (values refunds.by_id) []) now in
    let found =
      All-found
        (λ kv. IsAccounted kv.1 (get_or (get kv.1.id (reserve_all (values refunds.by_id) [])) 0))
        orders.by_id d in
    (
      λ h i o e. rw (sym (same_sum i o e)) (found.0 (entries.0 h) i o e),
      λ h. entries.1 (found.1 (λ i o e. rw (same_sum i o e) (h i o e))),
    )
  where
    same_sum :
        (i : String) (o : Order)
        → get i orders.by_id ≡ some o
        → get_or (get o.id (reserve_all (values refunds.by_id) [])) 0 ≡ reserved i refunds.by_id
    same_sum i o e =
        ap (λ k. get_or (get k (reserve_all (values refunds.by_id) [])) 0) (keyed i o e)
        ∙ reserve_all_start i refunds.by_id

-- On books in order a run without healing changes nothing but the clock's reading, and reports no
-- discrepancy about refunds.
pub run-IsClean :
    (env : Env) (expire_stale : Option (Action ℕ)) (w : World)
    → Books w
    → Distinct w.orders.by_id
    → (report : ReconciliationReport) × (run env expire_stale false w
        ≡ (ok report, record w { tick = suc w.tick }))
      × IsClean report.discrepancies
unfolding run
run-IsClean env expire_stale w b d = (
  report_on (env.now w.tick) (OrderStore.all w.orders) (RefundStore.all w.refunds) 0,
  refl,
  (report_on-IsClean_iff (env.now w.tick) 0 w.orders w.refunds b.keyed d).1
      (λ i o e. (b.covered i o e, b.balanced i o e)),
)
