-- ===== src/Reconciliation.antt =====
-- services/reconciliationService.ts: the audit that compares orders with their refunds. The English
-- of a discrepancy's detail is left out; the numbers in it are kept.
use bianhao.Base.{
  ℕ, ◌+◌, ◌-◌, Bool, true, false, not, ◌&&◌, ◌||◌, String, Option, none, some, List, [], ◌∷◌, ◌++◌,
  ltb, leb, ◌==◌, if◌then◌else◌, is_some, get_or, length, Map, get, set,
}
use bianhao.Domain.{Order, OrderStatus, Refund, RefundStatus, status_eq, Result, ok}
use bianhao.Storage.Orders as OrderStore
use bianhao.Storage.Refunds as RefundStore
use bianhao.Storage.Refunds.{refund_status_eq}
use bianhao.Effects.{World, Env, Action, pure, gets, read, ◌>>=◌}
pub mod Soundness

-- The type of a discrepancy, with what its detail reports.
pub data Finding : Type 0 where
  paid_unfulfilled : Finding
  fulfilled_without_payment : OrderStatus → Finding
  stale_pending : ℕ → Finding
  over_refunded : ℕ → ℕ → Finding
  refund_ledger_mismatch : ℕ → ℕ → Finding

pub record Discrepancy : Type 0 where
  pub order_id : String
  pub finding : Finding

pub record ReconciliationReport : Type 0 where
  pub ran_at : ℕ
  pub checked_orders : ℕ
  pub checked_refunds : ℕ
  pub discrepancies : List Discrepancy
  pub healed_stale_orders : ℕ

-- The loop over the refunds: what is reserved of each order.
unfoldable pub reserve_all : List Refund → Map ℕ → Map ℕ
reserve_all [] sums = sums
reserve_all (f ∷ fs) sums =
    let sums' =
      if refund_status_eq f.status RefundStatus.failed
      then sums
      else set f.order_id (get_or (get f.order_id sums) 0 + f.amount) sums in
    reserve_all fs sums'

-- `if (test) out.push(...)`
abbrev pub push_if : Bool → Order → Finding → List Discrepancy
push_if test o finding = if test then record { order_id = o.id; finding = finding } ∷ [] else []

-- `checkOrder`: what it pushes.
unfoldable pub check_order : Order → ℕ → ℕ → List Discrepancy
check_order o reserved now =
    let refunded = get_or o.refunded_amount 0 in
    push_if (status_eq o.status OrderStatus.paid && is_some o.paid_at) o Finding.paid_unfulfilled
    ++ push_if
        ((status_eq o.status OrderStatus.fulfilled || status_eq o.status OrderStatus.refunded)
          && not (is_some o.paid_at))
        o (Finding.fulfilled_without_payment o.status)
    ++ push_if (status_eq o.status OrderStatus.pending && leb o.expires_at now) o
        (Finding.stale_pending (now - o.expires_at))
    ++ push_if (ltb o.amount refunded) o (Finding.over_refunded refunded o.amount)
    ++ push_if (not (refunded == reserved)) o (Finding.refund_ledger_mismatch refunded reserved)

-- The loop over the orders.
unfoldable pub check_orders : List Order → Map ℕ → ℕ → List Discrepancy
unfolding check_order
check_orders [] sums now = []
check_orders (o ∷ os) sums now =
    check_order o (get_or (get o.id sums) 0) now ++ check_orders os sums now

-- `opts.heal && this.expireStale`
healer : Bool → Option (Action ℕ) → Action ℕ
healer true (some expire_stale) = expire_stale
healer _ _ = pure 0

unfoldable pub report_on : ℕ → List Order → List Refund → ℕ → ReconciliationReport
unfolding check_orders reserve_all
report_on now orders refunds healed = record {
  ran_at = now;
  checked_orders = length orders;
  checked_refunds = length refunds;
  discrepancies = check_orders orders (reserve_all refunds []) now;
  healed_stale_orders = healed;
}

unfoldable pub run : Env → Option (Action ℕ) → Bool → Action ReconciliationReport
unfolding healer report_on
run env expire_stale heal = do
  now ← read env.now
  orders ← gets (λ w. OrderStore.all w.orders)
  refunds ← gets (λ w. RefundStore.all w.refunds)
  healed ← healer heal expire_stale
  pure (report_on now orders refunds healed)
