-- ===== src/Payments/Service.antt =====
-- services/paymentService.ts: PaymentService, method by method. A method that runs under the order's
-- lock is one step of the world: what else is awaited meanwhile concerns other orders.
pub mod Settlement
pub mod Acceptance
pub mod Replay
pub mod Progress
pub mod Journeys
pub mod Expiring
pub mod Overdue
pub mod Cleared
pub mod Traces
use bianhao.Base.{
  ℕ, suc, ◌+◌, ◌*◌, Bool, true, false, not, ◌&&◌, ◌||◌, String, Option, none, some, List, [], ◌∷◌,
  map, ltb, leb, if◌then◌else◌, truthy, get_or, is_some, concat,
}
use bianhao.Domain.{
  Order, OrderStatus, PaymentMethod, Currency, Plan, Metadata, CreatePaymentResult, CallbackResult,
  QueryResult, Subscription, DepositAddress, Error, Result, ok, err, error_eq, status_eq, method_eq,
  currency_eq, method_text,
}
use bianhao.Core.Transitions.{assert_transition, is_terminal}
use bianhao.Storage.Orders as OrderStore
use bianhao.Effects.{
  World, Env, Action, PaymentProvider, RawCallback, Ack, AddressMode, AuditAction, OutboundEvent,
  pure, throw, lift, gets, or_throw, read, ask, ◌>>=◌, ◌>>◌, catch, record_audit, emit,
}
use bianhao.Effects.Stores.{insert_order, update_order, find_order, mark_if_new}
use bianhao.Payments.Plans.{get_plan}
use bianhao.Payments.Amounts.{allocate_unique_amount}
use bianhao.Payments.Deposits.{allocate, on_usdt_settled}
use bianhao.Payments.Fulfilment.{fulfill_order}

pub record CreateOrderInput : Type 0 where
  pub user_id : String
  pub plan_id : String
  pub method : PaymentMethod
  pub idempotency_key : Option String
  pub merchant_id : Option String

pub record CreateOrderOutput : Type 0 where
  pub order : Order
  pub pay_info : CreatePaymentResult

-- What a provider says was paid.
pub record Payment : Type 0 where
  pub provider_txn_id : String
  pub paid_amount : ℕ
  pub currency : Currency

abbrev pub no_metadata : Metadata
no_metadata = record { deposit_address = none; deposit_index = none; pay_info = none }

abbrev pub currency_of : PaymentMethod → Currency
currency_of PaymentMethod.usdt = Currency.usdt
currency_of _ = Currency.cny

abbrev pub is_per_order : AddressMode → Bool
is_per_order AddressMode.per_order = true
is_per_order AddressMode.shared = false

-- The key by which a replayed callback is known.
unfoldable pub callback_key : PaymentMethod → CallbackResult → String
callback_key method r = concat "cb:" (concat (method_text method) (concat ":" r.event_id))

unfoldable pub transaction_key : PaymentMethod → String → String
transaction_key method txn_id = concat "txn:" (concat (method_text method) (concat ":" txn_id))

module _ (env : Env) where
  unfoldable pub provider : PaymentMethod → Action PaymentProvider
  provider method = or_throw (env.providers method) Error.validation

  -- `resolveAmount`
  unfoldable pub resolve_amount : PaymentMethod → Plan → Action ℕ
  resolve_amount method plan =
      if not (method_eq method PaymentMethod.usdt)
      then pure plan.price_cny_fen
      else if is_per_order env.usdt_address_mode
      then pure plan.price_usdt_micro
      else (λ w. (
        allocate_unique_amount plan.price_usdt_micro
            (map (λ (o : Order). o.amount)
              (OrderStore.find_pending_by_method PaymentMethod.usdt w.orders))
            env.usdt_unique_delta_max,
        w,
      ))

  -- The order literal of `createOrder`.
  unfoldable pub new_order : CreateOrderInput → Plan → ℕ → ℕ → String → String → Order
  new_order input plan amount now id trade_no = record {
    id = id;
    merchant_id = some (get_or input.merchant_id OrderStore.default_merchant_id);
    out_trade_no = trade_no;
    user_id = input.user_id;
    plan_id = plan.id;
    method = input.method;
    currency = currency_of input.method;
    amount = amount;
    status = OrderStatus.pending;
    provider_txn_id = none;
    idempotency_key = input.idempotency_key;
    created_at = now;
    updated_at = now;
    expires_at = now + env.order_ttl_minutes * 60_000;
    paid_at = none;
    refunded_amount = none;
    metadata = no_metadata;
  }

  with_deposit : Order → DepositAddress → Order
  with_deposit o d = record o {
    metadata = record {
      deposit_address = some d.address;
      deposit_index = some d.index;
      pay_info = none;
    };
  }

  allocate_for : Order → Option (ℕ → ℕ → Result String) → Action Order
  unfolding with_deposit
  allocate_for o none = throw Error.provider
  allocate_for o (some derive) = allocate env derive o.id >>= λ d. pure (with_deposit o d)

  -- A deposit address of its own, in per-order USDT mode.
  unfoldable pub assign_deposit : Order → Action Order
  unfolding allocate_for
  assign_deposit o =
      if method_eq o.method PaymentMethod.usdt && is_per_order env.usdt_address_mode
      then allocate_for o env.derive_deposit_address
      else pure o

  -- The `catch` of `createOrder`: the order is marked FAILED, and the error goes on.
  mark_failed : Order → Error → Action CreatePaymentResult
  mark_failed o e = do
    status ← lift (assert_transition o.status OrderStatus.failed)
    now ← read env.now
    update_order (record o { status = status; updated_at = now })
    throw e

  -- From `orders.create` to the end.
  unfoldable pub submit_order : PaymentProvider → Order → Action CreateOrderOutput
  unfolding mark_failed
  submit_order p o = do
    insert_order o
    pay_info ← catch (ask (λ t. p.create_payment t o)) (mark_failed o)
    now ← read env.now
    saved ←
        update_order (record o {
          metadata = record (o.metadata) { pay_info = some pay_info };
          updated_at = now;
        })
    record_audit AuditAction.order_created saved.id
    pure (record { order = saved; pay_info = pay_info })

  -- The part of `createOrder` below the idempotency check.
  unfoldable pub place_order : CreateOrderInput → Action CreateOrderOutput
  unfolding provider resolve_amount new_order assign_deposit submit_order
  place_order input = do
    plan ← or_throw (get_plan input.plan_id env.plans) Error.not_found
    p ← provider input.method
    amount ← resolve_amount input.method plan
    now ← read env.now
    id ← read env.uuid
    trade_no ← read (env.out_trade_no "VPN")
    o ← assign_deposit (new_order input plan amount now id trade_no)
    submit_order p o

  -- The payment intent of an order that is there already: the stored one, or one asked for anew.
  stored_or_asked : Order → Option CreatePaymentResult → Action CreatePaymentResult
  unfolding provider
  stored_or_asked o (some pay_info) = pure pay_info
  stored_or_asked o none = provider o.method >>= λ p. ask (λ t. p.create_payment t o)

  reuse_or_place : CreateOrderInput → Option Order → Action CreateOrderOutput
  unfolding place_order stored_or_asked
  reuse_or_place input none = place_order input
  reuse_or_place input (some o) = do
    pay_info ← stored_or_asked o o.metadata.pay_info
    pure (record { order = o; pay_info = pay_info })

  find_existing : Option String → World → Option Order
  find_existing none w = none
  find_existing (some key) w = OrderStore.find_by_idempotency_key key w.orders

  unfoldable pub create_order : CreateOrderInput → Action CreateOrderOutput
  unfolding reuse_or_place find_existing
  create_order input = gets (find_existing (truthy input.idempotency_key)) >>= reuse_or_place input

  -- Enqueues the sweep of a per-order deposit; a failure is logged and swallowed.
  unfoldable pub enqueue_sweep : Order → Action (Unit {0})
  unfolding on_usdt_settled
  enqueue_sweep o =
      if method_eq o.method PaymentMethod.usdt
        && is_per_order env.usdt_address_mode
        && is_some (truthy o.metadata.deposit_address)
      then catch (on_usdt_settled env o) (λ e. pure tt)
      else pure tt

  paid_order : Order → Payment → OrderStatus → ℕ → Order
  paid_order o paid status now = record o {
    status = status;
    provider_txn_id = some paid.provider_txn_id;
    paid_at = some now;
    updated_at = now;
  }

  -- `applyPayment` once the order is fulfilled: it is stored, and the news is passed on.
  unfoldable pub complete : Order → Action Order
  unfolding enqueue_sweep
  complete o = do
    final ← update_order o
    record_audit AuditAction.order_fulfilled final.id
    emit (OutboundEvent.order_fulfilled final.id)
    enqueue_sweep final
    pure final

  -- `applyPayment` from the checks on: the order becomes PAID and then FULFILLED.
  unfoldable pub settle : Payment → Order → Action Order
  unfolding paid_order complete
  settle paid o = do
    now ← read env.now
    status ← lift (assert_transition o.status OrderStatus.paid)
    let paid_o = paid_order o paid status now
    update_order paid_o
    granted ← fulfill_order env paid_o
    complete granted.0

  -- The checks of `applyPayment` on the order as stored.
  unfoldable pub accept_payment : Payment → Order → Action Order
  unfolding settle
  accept_payment paid o =
      if status_eq o.status OrderStatus.paid || status_eq o.status OrderStatus.fulfilled
      then pure o
      else if is_terminal o.status
      then throw Error.provider
      else if not (currency_eq paid.currency o.currency)
      then throw Error.amount_mismatch
      else if ltb paid.paid_amount o.amount
      then throw Error.amount_mismatch
      else settle paid o

  unfoldable pub apply_payment : String → Payment → Action Order
  unfolding accept_payment
  apply_payment order_id paid = do
    found ← find_order order_id
    o ← or_throw found Error.not_found
    accept_payment paid o

  -- The `catch` of `handleCallback`: a wrong amount is final, anything else asks for a retry.
  ack_failure : PaymentProvider → Error → Action Ack
  ack_failure p e = pure (p.callback_ack (error_eq e Error.amount_mismatch))

  payment_of : CallbackResult → Payment
  payment_of r = record {
    provider_txn_id = r.provider_txn_id;
    paid_amount = r.paid_amount;
    currency = r.currency;
  }

  settle_callback : PaymentProvider → CallbackResult → Option Order → Action Ack
  unfolding ack_failure payment_of
  settle_callback p r none = pure (p.callback_ack false)
  settle_callback p r (some o) =
      catch (apply_payment o.id (payment_of r) >>= λ _. pure (p.callback_ack true)) (ack_failure p)

  -- `handleCallback` once the provider has vouched for the callback.
  unfoldable pub handle_verified : PaymentMethod → PaymentProvider → CallbackResult → Action Ack
  unfolding settle_callback
  handle_verified method p r = if not r.paid then pure (p.callback_ack true) else do
    is_new ← mark_if_new env (callback_key method r)
    if is_new
        then (gets (λ w. OrderStore.find_by_out_trade_no r.out_trade_no w.orders)
            >>= settle_callback p r)
        else pure (p.callback_ack true)

  unfoldable pub handle_callback : PaymentMethod → RawCallback → Action Ack
  unfolding provider handle_verified
  handle_callback method raw = do
    p ← provider method
    r ← ask (λ t. p.verify_callback t raw)
    handle_verified method p r

  -- `syncOrder` with a transaction that the provider reports as paid.
  apply_query : Order → QueryResult → Option String → Action Order
  apply_query o q none = pure o
  apply_query o q (some txn_id) = if not q.paid then pure o else do
    is_new ← mark_if_new env (transaction_key o.method txn_id)
    if is_new
        then apply_payment o.id (record {
          provider_txn_id = txn_id;
          paid_amount = get_or q.paid_amount o.amount;
          currency = o.currency;
        })
        else gets (λ w. get_or (OrderStore.find_by_id o.id w.orders) o)

  unfoldable pub sync_order : String → Action Order
  unfolding provider apply_query
  sync_order order_id = do
    found ← find_order order_id
    o ← or_throw found Error.not_found
    if not (status_eq o.status OrderStatus.pending) then pure o else do
      p ← provider o.method
      q ← ask (λ t. p.query_payment t o)
      apply_query o q (truthy q.provider_txn_id)

  -- The locked part of `expireStaleOrders`: the order is read afresh. The answer is what it counts.
  unfoldable pub expire_fresh : Option Order → Action ℕ
  expire_fresh none = pure 0
  expire_fresh (some fresh) =
      if not (status_eq fresh.status OrderStatus.pending) then pure 0 else do
        status ← lift (assert_transition fresh.status OrderStatus.expired)
        now ← read env.now
        update_order (record fresh { status = status; updated_at = now })
        pure 1

  abbrev pub is_stale : ℕ → Order → Bool
  is_stale now o = status_eq o.status OrderStatus.pending && leb o.expires_at now

  unfoldable pub expire_one : ℕ → Order → Action ℕ
  unfolding expire_fresh
  expire_one now o = if is_stale now o then (find_order o.id >>= expire_fresh) else pure 0

  unfoldable pub expire_each : ℕ → List Order → Action ℕ
  unfolding expire_one
  expire_each now [] = pure 0
  expire_each now (o ∷ os) = do n ← expire_one now o; rest ← expire_each now os; pure (n + rest)

  unfoldable pub expire_stale_orders : Action ℕ
  unfolding expire_each
  expire_stale_orders = do
    now ← read env.now
    all ← gets (λ w. OrderStore.all w.orders)
    expire_each now all
