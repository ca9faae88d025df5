-- ===== src/Refunds/Service.antt =====
-- services/refundService.ts: RefundService, method by method.
use bianhao.Base.{
  ℕ, ◌+◌, ◌-◌, Bool, true, false, not, ◌&&◌, String, Option, none, some, ltb, leb, ◌==◌,
  if◌then◌else◌, truthy, get_or, concat, is_empty,
}
use bianhao.Domain.{
  Order, OrderStatus, PaymentMethod, Refund, RefundStatus, RefundRequest, RefundResult,
  RefundCallbackResult, Error, Result, ok, err, status_eq, method_text,
}
use bianhao.Core.Transitions.{assert_transition}
use bianhao.Storage.Refunds as RefundStore
use bianhao.Storage.Refunds.{refund_status_eq}
use bianhao.Effects.{
  World, Env, Action, PaymentProvider, RawCallback, Ack, AuditAction, OutboundEvent, pure, throw,
  lift, gets, or_throw, read, ask, ◌>>=◌, ◌>>◌, record_audit, emit,
}
use bianhao.Effects.Stores.{
  update_order, find_order, insert_refund, update_refund, find_refund, mark_if_new,
}

-- A JavaScript number as the amount checks see it; `negative n` is -(n + 1), and `fractional` any
-- number that is no integer.
pub data Number : Type 0 where
  whole : ℕ → Number
  negative : ℕ → Number
  fractional : Number

pub record RefundInput : Type 0 where
  pub amount : Option Number
  pub reason : Option String
  pub out_refund_no : Option String

-- `isSettled`
unfoldable pub is_settled : RefundStatus → Bool
is_settled RefundStatus.success = true
is_settled RefundStatus.manual = true
is_settled _ = false

-- `order.amount - alreadyRefunded`
unfoldable pub remaining : ℕ → ℕ → Number
remaining amount refunded =
    if leb refunded amount then whole (amount - refunded) else negative (refunded - amount - 1)

-- `n > bound`, for a whole `n`.
exceeds : ℕ → Number → Bool
exceeds n (whole m) = ltb m n
exceeds n (negative m) = true
exceeds n fractional = false

-- The two checks on the amount.
unfoldable pub check_amount : Number → Number → Result ℕ
unfolding exceeds
check_amount (whole n) left =
    if n == 0 then err Error.validation else if exceeds n left then err Error.validation else ok n
check_amount (negative n) left = err Error.validation
check_amount fractional left = err Error.validation

abbrev pub refunded_of : Order → ℕ
refunded_of o = get_or o.refunded_amount 0

module _ (env : Env) where
  -- `reserveRefund`: the status that goes with the new total.
  target_status : Order → ℕ → Bool → Result OrderStatus
  target_status o total settled =
      if settled && leb o.amount total && not (status_eq o.status OrderStatus.refunded)
      then assert_transition o.status OrderStatus.refunded
      else ok o.status

  unfoldable pub reserve_refund : Order → ℕ → Bool → Action Order
  unfolding target_status
  reserve_refund o total settled = do
    now ← read env.now
    status ← lift (target_status o total settled)
    update_order (record o { refunded_amount = some total; updated_at = now; status = status })

  -- The provider's refund, or a manual one where it has no channel.
  request_by :
      Option (ℕ → Order → RefundRequest → Result RefundResult)
      → Order
      → RefundRequest
      → Action RefundResult
  request_by none o req = pure (record {
    provider_refund_id = none;
    status = RefundStatus.manual;
    raw_status = "MANUAL_REQUIRED";
  })
  request_by (some refund) o req = ask (λ t. refund t o req)

  -- `input.outRefundNo ?? newOutTradeNo('RF')`
  choose_refund_no : Option String → Action String
  choose_refund_no none = read (env.out_trade_no "RF")
  choose_refund_no (some refund_no) = pure refund_no

  reserve_unless_failed : Order → Refund → Action Order
  unfolding reserve_refund is_settled
  reserve_unless_failed o f =
      if refund_status_eq f.status RefundStatus.failed
      then pure o
      else reserve_refund o (refunded_of o + f.amount) (is_settled f.status)

  -- From `refunds.create` to the end of `refundOrder`.
  unfoldable pub book_refund : Order → Refund → Action Refund
  unfolding reserve_unless_failed
  book_refund o f = do
    insert_refund f
    reserve_unless_failed o f
    record_audit AuditAction.refund_issued o.id
    emit (OutboundEvent.refund_updated o.id f.id f.status)
    pure f

  unfoldable pub new_refund : Order → ℕ → RefundInput → String → RefundResult → ℕ → String → Refund
  new_refund o amount input refund_no result now id = record {
    id = id;
    order_id = o.id;
    out_refund_no = refund_no;
    amount = amount;
    currency = o.currency;
    reason = input.reason;
    status = result.status;
    provider_refund_id = result.provider_refund_id;
    raw_status = result.raw_status;
    created_at = now;
    updated_at = now;
  }

  -- `refundOrder` once the provider has answered.
  unfoldable pub book_result : RefundInput → Order → ℕ → String → ℕ → RefundResult → Action Refund
  unfolding new_refund
  book_result input o amount refund_no now result = do
    id ← read env.uuid
    book_refund o (new_refund o amount input refund_no result now id)

  -- `refundOrder` from the choice of a number on.
  unfoldable pub issue_refund :
      RefundInput
      → Order
      → ℕ
      → Option (ℕ → Order → RefundRequest → Result RefundResult)
      → Option String
      → Action Refund
  unfolding request_by choose_refund_no book_result
  issue_refund input o amount channel chosen = do
    refund_no ← choose_refund_no chosen
    now ← read env.now
    result ← request_by channel o (record {
      out_refund_no = refund_no;
      amount = amount;
      total_amount = o.amount;
      currency = o.currency;
      reason = input.reason;
    })
    book_result input o amount refund_no now result

  -- `refundOrder` on an order that is PAID or FULFILLED.
  unfoldable pub refund_paid : RefundInput → Order → Action Refund
  unfolding issue_refund
  refund_paid input o = do
    let left = remaining o.amount (refunded_of o)
    amount ← lift (check_amount (get_or input.amount left) left)
    p ← or_throw (env.providers o.method) Error.validation
    issue_refund input o amount p.refund input.out_refund_no

  -- The locked part of `refundOrder` on the order as stored.
  unfoldable pub refund_stored : RefundInput → Order → Action Refund
  unfolding refund_paid
  refund_stored input o =
      if not (status_eq o.status OrderStatus.paid) && not (status_eq o.status OrderStatus.fulfilled)
      then throw Error.invalid_state
      else refund_paid input o

  unfoldable pub refund_locked : String → RefundInput → Action Refund
  unfolding refund_stored
  refund_locked order_id input = do
    found ← find_order order_id
    o ← or_throw found Error.not_found
    refund_stored input o

  unfoldable pub reuse_or_refund : String → RefundInput → Option Refund → Action Refund
  unfolding refund_locked
  reuse_or_refund order_id input none = refund_locked order_id input
  reuse_or_refund order_id input (some existing) = pure existing

  unfoldable pub find_issued : Option String → World → Option Refund
  find_issued none w = none
  find_issued (some refund_no) w = RefundStore.find_by_out_refund_no refund_no w.refunds

  unfoldable pub refund_order : String → RefundInput → Action Refund
  unfolding reuse_or_refund find_issued
  refund_order order_id input =
      gets (find_issued (truthy input.out_refund_no)) >>= reuse_or_refund order_id input

  -- `result.providerRefundId || fresh.providerRefundId`
  unfoldable pub updated_refund : Refund → RefundCallbackResult → ℕ → Refund
  updated_refund f r now = record f {
    status = if r.settled then RefundStatus.success else RefundStatus.failed;
    provider_refund_id =
        if is_empty r.provider_refund_id then f.provider_refund_id else some r.provider_refund_id;
    raw_status = r.raw_status;
    updated_at = now;
  }

  -- What the result means for the order: settled, or the reserved amount released.
  unfoldable pub settle_or_release : RefundCallbackResult → ℕ → ℕ → Option Order → Action (Unit {0})
  unfolding reserve_refund
  settle_or_release r now amount none = pure tt
  settle_or_release r now amount (some o) =
      if r.settled
      then (reserve_refund o (refunded_of o) true >>= λ _. pure tt)
      else (update_order
            (record o { refunded_amount = some (refunded_of o - amount); updated_at = now })
          >>= λ _. pure tt)

  -- The locked part of `handleRefundCallback`.
  unfoldable pub apply_result : RefundCallbackResult → Option Refund → Action (Unit {0})
  unfolding updated_refund settle_or_release
  apply_result r none = pure tt
  apply_result r (some f) =
      if not (refund_status_eq f.status RefundStatus.pending) then pure tt else do
        now ← read env.now
        update_refund (updated_refund f r now)
        found ← find_order f.order_id
        settle_or_release r now f.amount found

  unfoldable pub acknowledge : PaymentProvider → RefundCallbackResult → Option Refund → Action Ack
  unfolding apply_result
  acknowledge p r none = pure (p.callback_ack false)
  acknowledge p r (some f) = do
    fresh ← find_refund r.out_refund_no
    apply_result r fresh
    pure (p.callback_ack true)

  -- `handleRefundCallback` once the provider has vouched for the notification.
  unfoldable pub handle_refund_result :
      PaymentMethod → PaymentProvider → RefundCallbackResult → Action Ack
  unfolding acknowledge
  handle_refund_result method p r = do
    is_new ← mark_if_new env (concat "rfcb:" (concat (method_text method) (concat ":" r.event_id)))
    if is_new then (find_refund r.out_refund_no >>= acknowledge p r) else pure (p.callback_ack true)

  verify_and_handle :
      PaymentMethod
      → PaymentProvider
      → RawCallback
      → Option (ℕ → RawCallback → Result RefundCallbackResult)
      → Action Ack
  unfolding handle_refund_result
  verify_and_handle method p raw none = throw Error.validation
  verify_and_handle method p raw (some verify) =
      ask (λ t. verify t raw) >>= handle_refund_result method p

  unfoldable pub handle_refund_callback : PaymentMethod → RawCallback → Action Ack
  unfolding verify_and_handle
  handle_refund_callback method raw = do
    p ← or_throw (env.providers method) Error.validation
    verify_and_handle method p raw p.verify_refund_callback
