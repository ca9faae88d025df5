-- ===== src/Storage/Orders.antt =====
-- storage/memoryStore.ts: MemoryOrderRepository, and the filters of storage/repository.ts.
pub mod Lookup
pub mod Evolution
use bianhao.Base.{
  ℕ, suc, ◌+◌, ◌≡◌, refl, Bool, true, false, not, ◌&&◌, ◌||◌, String, Option, none, some, List, [],
  ◌∷◌, length, filter, take, drop, map, ltb, leb, if◌then◌else◌, str_eq, get_or, truthy, is_some,
  Map, get, set, has, values, sort_by,
}
use bianhao.Domain.{
  Order, OrderStatus, PaymentMethod, Currency, Error, Result, ok, err, status_eq, method_eq,
  currency_eq,
}

pub record OrderRepository : Type 0 where
  pub by_id : Map Order
  pub by_out_trade_no : Map String
  pub by_idem : Map String

pub record OrderQueryFilter : Type 0 where
  pub merchant_id : Option String
  pub status : Option OrderStatus
  pub method : Option PaymentMethod
  pub from : Option ℕ
  pub to : Option ℕ

-- DEFAULT_MERCHANT_ID and `orderMerchant`.
abbrev pub default_merchant_id : String
default_merchant_id = "default"

unfoldable pub order_merchant : Order → String
order_merchant o = get_or o.merchant_id default_merchant_id

index_idem : Option String → String → Map String → Map String
index_idem none id m = m
index_idem (some key) id m = set key id m

unfoldable pub create : Order → OrderRepository → Result OrderRepository
unfolding index_idem
create o r =
    if has o.out_trade_no r.by_out_trade_no
    then err Error.failure
    else ok (record {
      by_id = set o.id o r.by_id;
      by_out_trade_no = set o.out_trade_no o.id r.by_out_trade_no;
      by_idem = index_idem (truthy o.idempotency_key) o.id r.by_idem;
    })

unfoldable pub find_by_id : String → OrderRepository → Option Order
find_by_id id r = get id r.by_id

-- `id ? this.findById(id) : undefined`
find_at : Option String → OrderRepository → Option Order
unfolding find_by_id
find_at none r = none
find_at (some id) r = find_by_id id r

unfoldable pub find_by_out_trade_no : String → OrderRepository → Option Order
unfolding find_at
find_by_out_trade_no trade_no r = find_at (truthy (get trade_no r.by_out_trade_no)) r

unfoldable pub find_by_idempotency_key : String → OrderRepository → Option Order
unfolding find_at
find_by_idempotency_key key r = find_at (truthy (get key r.by_idem)) r

abbrev pub is_pending_by : PaymentMethod → Order → Bool
is_pending_by method o = method_eq o.method method && status_eq o.status OrderStatus.pending

unfoldable pub find_pending_by_method : PaymentMethod → OrderRepository → List Order
find_pending_by_method method r = filter (is_pending_by method) (values r.by_id)

unfoldable pub update : Order → OrderRepository → Result OrderRepository
update o r =
    if has o.id r.by_id then ok (record r { by_id = set o.id o r.by_id }) else err Error.failure

-- One test of a filter: an absent field lets everything pass.
abbrev pub admits {ℓ} : {A : Type ℓ} → (A → Bool) → Option A → Bool
admits p none = true
admits p (some a) = p a

unfoldable pub order_matches : OrderQueryFilter → Order → Bool
unfolding order_merchant
order_matches f o =
    admits (str_eq (order_merchant o)) (truthy f.merchant_id)
    && admits (status_eq o.status) f.status
    && admits (method_eq o.method) f.method
    && admits (λ from. leb from o.created_at) f.from
    && admits (λ to. ltb o.created_at to) f.to

abbrev pub newest_first : Order → Order → Bool
newest_first a b = leb b.created_at a.created_at

pub record Page {ℓ} (A : Type ℓ) : Type ℓ where
  pub total : ℕ
  pub items : List A

unfoldable pub query : OrderQueryFilter → ℕ → ℕ → OrderRepository → Page Order
query f limit offset r =
    let matched = sort_by newest_first (filter (order_matches f) (values r.by_id)) in
    record { total = length matched; items = take limit (drop offset matched) }

pub record PaidRow : Type 0 where
  pub method : PaymentMethod
  pub currency : Currency
  pub paid_count : ℕ
  pub gross_minor : ℕ

pub record OrderSummary : Type 0 where
  pub orders_total : ℕ
  pub by_status : OrderStatus → ℕ
  pub paid : List PaidRow

-- `paidStatuses`
abbrev pub is_paid_status : OrderStatus → Bool
is_paid_status OrderStatus.paid = true
is_paid_status OrderStatus.fulfilled = true
is_paid_status OrderStatus.refunded = true
is_paid_status _ = false

abbrev pub counts_as_paid : Order → Bool
counts_as_paid o = is_some o.paid_at && is_paid_status o.status

-- The row of the order's method and currency, with the order added.
unfoldable pub add_paid : Order → List PaidRow → List PaidRow
add_paid o [] =
    record { method = o.method; currency = o.currency; paid_count = 1; gross_minor = o.amount } ∷ []
add_paid o (row ∷ rows) =
    let rest = add_paid o rows in
    if method_eq row.method o.method && currency_eq row.currency o.currency
    then record row { paid_count = row.paid_count + 1; gross_minor = row.gross_minor + o.amount }
      ∷ rows
    else row ∷ rest

-- The loop of `summarize` over the matched orders.
unfoldable pub paid_rows : List Order → List PaidRow → List PaidRow
unfolding add_paid
paid_rows [] rows = rows
paid_rows (o ∷ os) rows = paid_rows os (if counts_as_paid o then add_paid o rows else rows)

unfoldable pub summarize : OrderQueryFilter → OrderRepository → OrderSummary
unfolding paid_rows
summarize f r =
    let matched = filter (order_matches f) (values r.by_id) in
    record {
      orders_total = length matched;
      by_status = λ s. length (filter (λ o. status_eq o.status s) matched);
      paid = paid_rows matched [];
    }

unfoldable pub all : OrderRepository → List Order
all r = values r.by_id
