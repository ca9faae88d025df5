-- ===== src/Examples/Fixtures.antt =====
-- A shop with one plan, one pending order and a provider that agrees to everything.
use bianhao.Base.{
  ℕ, zero, suc, concat, str_eq, get, set, delete, values, ◌+◌, true, String, none, some, [], ◌∷◌,
}
use bianhao.Domain.{
  Order, OrderStatus, PaymentMethod, Currency, Plan, CallbackResult, CreatePaymentResult, RenderAs,
  ok,
}
use bianhao.Storage.Orders as OrderStore
use bianhao.Storage.Subscriptions as SubscriptionStore
use bianhao.Storage.Subscriptions.{find_active_by_user}
use bianhao.Storage.Events as EventStore
use bianhao.Core.Transitions.{assert_transition, is_terminal}
use bianhao.Payments.Plans.{get_plan}
use bianhao.Payments.Fulfilment.{fulfill_order}
use bianhao.Payments.Amounts.{allocate_unique_amount}
use bianhao.Effects.{World, Env, PaymentProvider, AddressMode}
use bianhao.Payments.Plans.{default_plans}
use bianhao.Payments.Service.{
  Payment, no_metadata, apply_payment, handle_verified, callback_key, create_order,
}

abbrev pub monthly : Plan
monthly = record {
  id = "monthly";
  name = "Monthly";
  duration_days = 30;
  traffic_gb = 200;
  device_limit = 3;
  price_cny_fen = 1500;
  price_usdt_micro = 2_000_000;
  enabled = true;
}

abbrev pub waiting : Order
waiting = record {
  id = "o1";
  merchant_id = some "default";
  out_trade_no = "VPN1";
  user_id = "u1";
  plan_id = "monthly";
  method = PaymentMethod.wechat;
  currency = Currency.cny;
  amount = 1500;
  status = OrderStatus.pending;
  provider_txn_id = none;
  idempotency_key = none;
  created_at = 100;
  updated_at = 100;
  expires_at = 900_100;
  paid_at = none;
  refunded_amount = none;
  metadata = no_metadata;
}

abbrev pub empty_world : World
empty_world = record {
  orders = record { by_id = []; by_out_trade_no = []; by_idem = [] };
  refunds = record { by_id = []; by_out_refund_no = [] };
  subscriptions = record { by_id = []; active_by_user = [] };
  events = record { seen = [] };
  deposits = record { counter = 0; by_order_id = []; by_address = [] };
  sweeps = record { by_id = []; by_order_id = [] };
  audit = [];
  outbound = [];
  tick = 0;
}

abbrev pub shop_world : World
shop_world = record empty_world {
  orders = record {
    by_id = ("o1", waiting) ∷ [];
    by_out_trade_no = ("VPN1", "o1") ∷ [];
    by_idem = [];
  };
}

abbrev pub pay_page : CreatePaymentResult
pay_page = record {
  method = PaymentMethod.wechat;
  pay_target = "weixin://pay";
  render_as = RenderAs.qrcode;
  extra = [];
}

abbrev pub callback : CallbackResult
callback = record {
  out_trade_no = "VPN1";
  provider_txn_id = "t1";
  paid = true;
  paid_amount = 1500;
  currency = Currency.cny;
  event_id = "e1";
  raw_status = "SUCCESS";
}

abbrev pub agreeable : PaymentProvider
agreeable = record {
  create_payment = λ t o. ok pay_page;
  verify_callback = λ t raw. ok callback;
  query_payment = λ t o. ok (record {
    paid = true;
    provider_txn_id = some "t1";
    paid_amount = some 1500;
    raw_status = "SUCCESS";
  });
  callback_ack = λ success. record { status = 200; content_type = "text/plain"; body = "ok" };
  refund = none;
  verify_refund_callback = none;
}

-- One text for each reading.
abbrev pub nth_id : ℕ → String
nth_id zero = ""
nth_id (suc n) = concat "i" (nth_id n)

abbrev pub shop : Env
shop = record {
  now = λ t. 1000 + t;
  uuid = nth_id;
  out_trade_no = λ prefix t. prefix;
  providers = λ m. some agreeable;
  plans = default_plans;
  order_ttl_minutes = 15;
  usdt_unique_delta_max = 100;
  usdt_address_mode = AddressMode.shared;
  hd_start_index = 0;
  derive_deposit_address = none;
  collection_address = "T1";
}

abbrev pub full_payment : Payment
full_payment = record { provider_txn_id = "t1"; paid_amount = 1500; currency = Currency.cny }

-- Names all that a payment's run computes with, for the `unfolding` lines of the tests.
unfoldable pub payment_code : Unit {0}
unfolding concat str_eq get set delete values OrderStore.create OrderStore.find_by_id
    OrderStore.update OrderStore.find_by_out_trade_no OrderStore.find_by_idempotency_key
    OrderStore.find_pending_by_method find_active_by_user SubscriptionStore.create
    SubscriptionStore.update EventStore.mark_if_new get_plan assert_transition is_terminal
    fulfill_order apply_payment handle_verified callback_key create_order allocate_unique_amount
payment_code = tt
