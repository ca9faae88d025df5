-- ===== src/Domain/Orders.antt =====
-- domain/types.ts: orders, plans, subscriptions and what a provider answers.
use bianhao.Base.{ℕ, ◌≡◌, ◌↔◌, Bool, true, false, String, Option, List, Map, arith}

pub data Currency : Type 0 where
  cny usdt : Currency

pub data PaymentMethod : Type 0 where
  wechat alipay usdt : PaymentMethod

pub data OrderStatus : Type 0 where
  pending paid fulfilled expired cancelled refunded failed : OrderStatus

-- `===` on the three enumerations.
abbrev pub currency_eq : Currency → Currency → Bool
currency_eq Currency.cny Currency.cny = true
currency_eq Currency.usdt Currency.usdt = true
currency_eq _ _ = false

abbrev pub method_eq : PaymentMethod → PaymentMethod → Bool
method_eq PaymentMethod.wechat PaymentMethod.wechat = true
method_eq PaymentMethod.alipay PaymentMethod.alipay = true
method_eq PaymentMethod.usdt PaymentMethod.usdt = true
method_eq _ _ = false

abbrev pub status_eq : OrderStatus → OrderStatus → Bool
status_eq OrderStatus.pending OrderStatus.pending = true
status_eq OrderStatus.paid OrderStatus.paid = true
status_eq OrderStatus.fulfilled OrderStatus.fulfilled = true
status_eq OrderStatus.expired OrderStatus.expired = true
status_eq OrderStatus.cancelled OrderStatus.cancelled = true
status_eq OrderStatus.refunded OrderStatus.refunded = true
status_eq OrderStatus.failed OrderStatus.failed = true
status_eq _ _ = false

pub currency_eq_iff : (a b : Currency) → (currency_eq a b ≡ true) ↔ (a ≡ b)
currency_eq_iff a b = ground arith

pub method_eq_iff : (a b : PaymentMethod) → (method_eq a b ≡ true) ↔ (a ≡ b)
method_eq_iff a b = ground arith

pub status_eq_iff : (a b : OrderStatus) → (status_eq a b ≡ true) ↔ (a ≡ b)
status_eq_iff a b = ground arith

-- The text of a method, which the dedupe keys hold.
unfoldable pub method_text : PaymentMethod → String
method_text PaymentMethod.wechat = "wechat"
method_text PaymentMethod.alipay = "alipay"
method_text PaymentMethod.usdt = "usdt"

-- CURRENCY_DECIMALS
abbrev pub currency_decimals : Currency → ℕ
currency_decimals Currency.cny = 2
currency_decimals Currency.usdt = 6

pub record Plan : Type 0 where
  pub id : String
  pub name : String
  pub duration_days : ℕ
  pub traffic_gb : ℕ
  pub device_limit : ℕ
  pub price_cny_fen : ℕ
  pub price_usdt_micro : ℕ
  pub enabled : Bool

pub data RenderAs : Type 0 where
  qrcode address redirect : RenderAs

pub record CreatePaymentResult : Type 0 where
  pub method : PaymentMethod
  pub pay_target : String
  pub render_as : RenderAs
  pub extra : Map String

-- The keys of `Order.metadata` that the services use. The source stores the index as decimal text
-- and the payment intent as JSON; here they are the values.
pub record Metadata : Type 0 where
  pub deposit_address : Option String
  pub deposit_index : Option ℕ
  pub pay_info : Option CreatePaymentResult

pub record Order : Type 0 where
  pub id : String
  pub merchant_id : Option String
  pub out_trade_no : String
  pub user_id : String
  pub plan_id : String
  pub method : PaymentMethod
  pub currency : Currency
  pub amount : ℕ
  pub status : OrderStatus
  pub provider_txn_id : Option String
  pub idempotency_key : Option String
  pub created_at : ℕ
  pub updated_at : ℕ
  pub expires_at : ℕ
  pub paid_at : Option ℕ
  pub refunded_amount : Option ℕ
  pub metadata : Metadata

pub record Subscription : Type 0 where
  pub id : String
  pub user_id : String
  pub plan_id : String
  pub starts_at : ℕ
  pub expires_at : ℕ
  pub traffic_gb : ℕ
  pub device_limit : ℕ
  pub active : Bool
  pub order_ids : List String
  pub expiry_notified_at : Option ℕ
  pub created_at : ℕ
  pub updated_at : ℕ

pub record CallbackResult : Type 0 where
  pub out_trade_no : String
  pub provider_txn_id : String
  pub paid : Bool
  pub paid_amount : ℕ
  pub currency : Currency
  pub event_id : String
  pub raw_status : String

pub record QueryResult : Type 0 where
  pub paid : Bool
  pub provider_txn_id : Option String
  pub paid_amount : Option ℕ
  pub raw_status : String
