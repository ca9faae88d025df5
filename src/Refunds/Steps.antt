-- ===== src/Refunds/Steps.antt =====
-- What the parts of RefundService do to the world (services/refundService.ts).
use bianhao.Base.{
  ℕ, suc, ◌+◌, ◌≡◌, refl, ◌⊎◌, Bool, String, ◌≤◌, Option, none, some, leb, ◌&&◌, if◌then◌else◌,
  arith, set, has, ◌++◌, [], ◌∷◌,
}
use bianhao.Domain.{
  Order, OrderStatus, Refund, RefundStatus, RefundRequest, RefundResult, Error, Result, ok, err,
}
use bianhao.Core.Transitions.{assert_transition}
use bianhao.Storage.Orders as OrderStore
use bianhao.Storage.Orders.Lookup.{update_known}
use bianhao.Storage.Refunds as RefundStore
use bianhao.Storage.Refunds.{refund_status_eq}
use bianhao.Effects.Rules.{lift_rule}
use bianhao.Effects.{World, Env, AuditAction, OutboundEvent}
use bianhao.Refunds.Service.{
  book_result, new_refund, RefundInput, issue_refund, is_settled, refunded_of, reserve_refund,
  book_refund,
}

-- The readings taken from outside move on.
abbrev pub at_tick : ℕ → World → World
at_tick t w = record w { tick = t }

-- A refund is possible.
abbrev pub IsRefundable : Order → Type 0
IsRefundable o = (o.status ≡ OrderStatus.paid) ⊎ (o.status ≡ OrderStatus.fulfilled)

module _ (env : Env) where
  -- The order with a new refunded total.
  abbrev pub with_total : Order → ℕ → Bool → World → Order
  with_total o total settled w = record o {
    refunded_amount = some total;
    updated_at = env.now w.tick;
    status = if settled && leb o.amount total then OrderStatus.refunded else o.status;
  }

  abbrev pub put_order : Order → World → World
  put_order o w = record w {
    orders = record (w.orders) { by_id = set o.id o w.orders.by_id };
    tick = suc w.tick;
  }

  -- On a stored order that can be refunded, `reserveRefund` succeeds.
  pub reserve_refund_known :
      (o old : Order) (total : ℕ) (settled : Bool) (w : World)
      → (IsRefundable o ⊎ (o.status ≡ OrderStatus.refunded))
      → OrderStore.find_by_id o.id w.orders ≡ some old
      → reserve_refund env o total settled w
        ≡ (ok (with_total o total settled w), put_order (with_total o total settled w) w)
  unfolding reserve_refund assert_transition
  reserve_refund_known o old total settled w s f =
      ground (arith, update_known (with_total o total settled w) old w.orders f)

  abbrev pub with_refund : Refund → World → World
  with_refund f w = record w {
    refunds = record {
      by_id = set f.id f w.refunds.by_id;
      by_out_refund_no = set f.out_refund_no f.id w.refunds.by_out_refund_no;
    };
  }

  abbrev pub reported : Order → Refund → World → World
  reported o f w = record w {
    audit = w.audit ++ record { action = AuditAction.refund_issued; subject = o.id } ∷ [];
    outbound = w.outbound ++ OutboundEvent.refund_updated o.id f.id f.status ∷ [];
  }

  -- The world after a refund is booked: a hard failure leaves the order alone.
  abbrev pub booked : Order → Refund → World → World
  booked o f w = reported o f (
      if refund_status_eq f.status RefundStatus.failed
      then with_refund f w
      else put_order (with_total o (refunded_of o + f.amount) (is_settled f.status) w)
          (with_refund f w))

  -- Booking refuses a number that is in use, before anything is written; otherwise it succeeds.
  pub book_refund_known :
      (o old : Order) (f : Refund) (w : World)
      → IsRefundable o
      → OrderStore.find_by_id o.id w.orders ≡ some old
      → book_refund env o f w ≡ (
          if has f.out_refund_no w.refunds.by_out_refund_no
          then (err Error.failure, w)
          else (ok f, booked o f w))
  unfolding book_refund RefundStore.create is_settled
  book_refund_known o old f w s h = ground (
    arith,
    reserve_refund_known o old (refunded_of o + f.amount) (is_settled f.status) (with_refund f w),
  )

  -- To show something of the world after a refund was issued: show it of the world as it was, and of
  -- the world with the refund booked, for a refund of that order and amount under an id drawn anew.
  module _ (P : World → Type 0) (input : RefundInput) (o : Order) (amount : ℕ) where
    abbrev pub Bookable : World → Type 0
    Bookable w =
        (f : Refund) (t : ℕ)
        → f.order_id ≡ o.id
        → f.amount ≡ amount
        → ((u : ℕ) × (w.tick ≤ u) × (f.id ≡ env.uuid u))
        → P (book_refund env o f (at_tick t w)).1

    request : String → RefundRequest
    request refund_no = record {
      out_refund_no = refund_no;
      amount = amount;
      total_amount = o.amount;
      currency = o.currency;
      reason = input.reason;
    }

    book_result_rule :
        (w : World) (u : ℕ)
        → w.tick ≤ u
        → Bookable w
        → (refund_no : String) (now : ℕ) (result : RefundResult)
        → P (book_result env input o amount refund_no now result (at_tick u w)).1
    unfolding book_result new_refund
    book_result_rule w u later book refund_no now result = book _ _ refl refl (u, later, refl)

    pub issue_refund_rule :
        (channel : Option (ℕ → Order → RefundRequest → Result RefundResult))
        (chosen : Option String) (w : World)
        → ((t : ℕ) → P (at_tick t w))
        → Bookable w
        → P (issue_refund env input o amount channel chosen w).1
    unfolding issue_refund request
    issue_refund_rule none none w same book =
        book_result_rule w (suc (suc w.tick)) (omega arith) book _ _ _
    issue_refund_rule none (some c) w same book =
        book_result_rule w (suc w.tick) (omega arith) book _ _ _
    issue_refund_rule (some f) none w same book =
        lift_rule P (f (suc (suc w.tick)) o (request (env.out_trade_no "RF" w.tick)))
          (book_result env input o amount (env.out_trade_no "RF" w.tick) (env.now (suc w.tick)))
          (at_tick (suc (suc (suc w.tick))) w) (same _)
          (λ r _. book_result_rule w (suc (suc (suc w.tick))) (omega arith) book _ _ r)
    issue_refund_rule (some f) (some c) w same book =
        lift_rule P (f (suc w.tick) o (request c))
          (book_result env input o amount c (env.now w.tick)) (at_tick (suc (suc w.tick)) w)
          (same _) (λ r _. book_result_rule w (suc (suc w.tick)) (omega arith) book _ _ r)
