-- ===== src/Csv/Exports.antt =====
-- reporting/csv.ts: the columns and records of orders and refunds.
use bianhao.Base.{ℕ, String, Option, none, some, List, [], ◌∷◌, map, get_or, Map}
use bianhao.Domain.{Currency, Order, OrderStatus, Refund, RefundStatus, method_text}
use bianhao.Money.{Text}
use bianhao.Csv.{Value, to_csv}

unfoldable pub currency_text : Currency → String
currency_text Currency.cny = "CNY"
currency_text Currency.usdt = "USDT"

unfoldable pub order_status_text : OrderStatus → String
order_status_text OrderStatus.pending = "PENDING"
order_status_text OrderStatus.paid = "PAID"
order_status_text OrderStatus.fulfilled = "FULFILLED"
order_status_text OrderStatus.expired = "EXPIRED"
order_status_text OrderStatus.cancelled = "CANCELLED"
order_status_text OrderStatus.refunded = "REFUNDED"
order_status_text OrderStatus.failed = "FAILED"

unfoldable pub refund_status_text : RefundStatus → String
refund_status_text RefundStatus.pending = "PENDING"
refund_status_text RefundStatus.success = "SUCCESS"
refund_status_text RefundStatus.failed = "FAILED"
refund_status_text RefundStatus.manual = "MANUAL"

-- ORDER_COLUMNS
abbrev pub order_columns : List String
order_columns =
    "id" ∷ "outTradeNo" ∷ "userId" ∷ "planId" ∷ "method" ∷ "currency" ∷ "amount" ∷ "status"
    ∷ "refundedAmount" ∷ "providerTxnId" ∷ "createdAt" ∷ "paidAt" ∷ "expiresAt" ∷ []

-- REFUND_COLUMNS
abbrev pub refund_columns : List String
refund_columns =
    "id" ∷ "orderId" ∷ "outRefundNo" ∷ "amount" ∷ "currency" ∷ "status" ∷ "providerRefundId"
    ∷ "createdAt" ∷ []

unfoldable pub optional_number : Option ℕ → Value
optional_number none = Value.missing
optional_number (some n) = Value.number n

module _ (units : String → Text) where
  unfoldable pub optional_text : Option String → Value
  optional_text none = Value.missing
  optional_text (some s) = Value.text (units s)

  unfoldable pub order_record : Order → Map Value
  unfolding optional_text optional_number currency_text order_status_text
  order_record o =
      ("id", Value.text (units o.id))
      ∷ ("outTradeNo", Value.text (units o.out_trade_no))
      ∷ ("userId", Value.text (units o.user_id))
      ∷ ("planId", Value.text (units o.plan_id))
      ∷ ("method", Value.text (units (method_text o.method)))
      ∷ ("currency", Value.text (units (currency_text o.currency)))
      ∷ ("amount", Value.number o.amount)
      ∷ ("status", Value.text (units (order_status_text o.status)))
      ∷ ("refundedAmount", Value.number (get_or o.refunded_amount 0))
      ∷ ("providerTxnId", optional_text o.provider_txn_id)
      ∷ ("createdAt", Value.number o.created_at)
      ∷ ("paidAt", optional_number o.paid_at)
      ∷ ("expiresAt", Value.number o.expires_at)
      ∷ []

  unfoldable pub refund_record : Refund → Map Value
  unfolding optional_text currency_text refund_status_text
  refund_record r =
      ("id", Value.text (units r.id))
      ∷ ("orderId", Value.text (units r.order_id))
      ∷ ("outRefundNo", Value.text (units r.out_refund_no))
      ∷ ("amount", Value.number r.amount)
      ∷ ("currency", Value.text (units (currency_text r.currency)))
      ∷ ("status", Value.text (units (refund_status_text r.status)))
      ∷ ("providerRefundId", optional_text r.provider_refund_id)
      ∷ ("createdAt", Value.number r.created_at)
      ∷ []

  unfoldable pub orders_to_csv : List Order → Text
  unfolding to_csv order_record
  orders_to_csv orders = to_csv units (map order_record orders) order_columns

  unfoldable pub refunds_to_csv : List Refund → Text
  unfolding to_csv refund_record
  refunds_to_csv refunds = to_csv units (map refund_record refunds) refund_columns
