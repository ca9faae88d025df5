-- ===== src/Domain.antt =====
-- domain/*.ts: the types that the services share. Texts are native strings. An amount is a whole
-- number of minor units and a time a whole number of milliseconds; both stay below 2 ^ 53 in the
-- program, where JavaScript's numbers are exact, so they are natural numbers here.
mod Errors
mod Orders
mod Refunds
mod Deposits
pub use Errors.{Error, Result, ok, err, code, http_status, error_eq}
pub use Orders.{
  Currency, PaymentMethod, OrderStatus, Plan, RenderAs, CreatePaymentResult, Metadata, Order,
  Subscription, CallbackResult, QueryResult, currency_eq, method_eq, status_eq, currency_decimals,
  status_eq_iff, method_eq_iff, currency_eq_iff, method_text,
}
pub use Refunds.{Refund, RefundStatus, RefundRequest, RefundResult, RefundCallbackResult}
pub use Deposits.{DepositAddress, SweepStatus, SweepJob, is_sweep_terminal}
