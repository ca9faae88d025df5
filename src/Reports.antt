-- ===== src/Reports.antt =====
-- services/reportService.ts: totals over orders and refunds.
use bianhao.Base.{
  ℕ, suc, ◌+◌, ◌-◌, Bool, true, false, ◌&&◌, ◌||◌, String, Option, none, some, List, [], ◌∷◌, map,
  length, filter, is_some, ltb, leb, str_eq, if◌then◌else◌, values,
}
use bianhao.Domain.{
  Currency, Order, OrderStatus, PaymentMethod, Refund, RefundStatus, currency_eq, method_eq,
  status_eq,
}
use bianhao.Money.{Text, from_minor_units}
use bianhao.Storage.Orders.{
  OrderQueryFilter, OrderRepository, OrderSummary, Page, PaidRow, admits, counts_as_paid, summarize,
}
use bianhao.Storage.Orders as OrderStore
use bianhao.Storage.Refunds.{RefundQueryFilter, RefundRepository, refund_status_eq}
use bianhao.Storage.Refunds as RefundStore
pub mod Sums

pub record ReportFilter : Type 0 where
  pub from : Option ℕ
  pub to : Option ℕ
  pub method : Option PaymentMethod
  pub status : Option OrderStatus
  pub merchant_id : Option String

-- The limit and the offset of a listing
pub record PageRequest : Type 0 where
  pub limit : ℕ
  pub offset : ℕ

-- A total that may be below zero: `pos n`, or `negsuc n` for -(n + 1).
pub data ℤ : Type 0 where
  pos negsuc : ℕ → ℤ

unfoldable pub difference : ℕ → ℕ → ℤ
difference a b = if leb b a then ℤ.pos (a - b) else ℤ.negsuc (b - a - 1)

-- The numbers of CurrencyTotals while the loops run.
pub record Totals : Type 0 where
  pub currency : Currency
  pub paid_count : ℕ
  pub gross_minor : ℕ
  pub refunded_minor : ℕ

pub record CurrencyTotals : Type 0 where
  pub totals : Totals
  pub gross_display : Text
  pub refunded_display : Text
  pub net_minor : ℤ
  pub net_display : Text

pub record MethodTotals : Type 0 where
  pub method : PaymentMethod
  pub currency : Currency
  pub paid_count : ℕ
  pub gross_minor : ℕ

unfoldable pub refund_settled : Refund → Bool
refund_settled r =
    refund_status_eq r.status RefundStatus.success || refund_status_eq r.status RefundStatus.manual

-- `matches`: the filter's merchant is not looked at.
unfoldable pub matches_report : ReportFilter → Order → Bool
matches_report f o =
    admits (λ from. leb from o.created_at) (ReportFilter.from f)
    && admits (λ to. ltb o.created_at to) (ReportFilter.to f)
    && admits (method_eq o.method) (ReportFilter.method f)
    && admits (status_eq o.status) (ReportFilter.status f)

-- `cur(c)` and a change of its numbers: the row of the currency, or a new one at the end.
unfoldable pub touch : Currency → (Totals → Totals) → List Totals → List Totals
touch c change [] =
    change (record { currency = c; paid_count = 0; gross_minor = 0; refunded_minor = 0 }) ∷ []
touch c change (row ∷ rows) =
    let rest = touch c change rows in
    if currency_eq row.currency c then change row ∷ rows else row ∷ rest

abbrev pub with_order : Order → Totals → Totals
with_order o t = record t { paid_count = t.paid_count + 1; gross_minor = t.gross_minor + o.amount }

abbrev pub with_refund : Refund → Totals → Totals
with_refund r t = record t { refunded_minor = t.refunded_minor + r.amount }

unfoldable pub add_order : Order → List Totals → List Totals
unfolding touch
add_order o rows = if counts_as_paid o then touch o.currency (with_order o) rows else rows

unfoldable pub add_orders : List Order → List Totals → List Totals
unfolding add_order
add_orders [] rows = rows
add_orders (o ∷ os) rows = add_orders os (add_order o rows)

unfoldable pub add_refund : Refund → List Totals → List Totals
unfolding touch refund_settled
add_refund r rows = if refund_settled r then touch r.currency (with_refund r) rows else rows

unfoldable pub add_refunds : List Refund → List Totals → List Totals
unfolding add_refund
add_refunds [] rows = rows
add_refunds (r ∷ rs) rows = add_refunds rs (add_refund r rows)

-- `byMethod[o.method] ??= ...` and its numbers
unfoldable pub add_method : Order → List MethodTotals → List MethodTotals
add_method o [] =
    record { method = o.method; currency = o.currency; paid_count = 1; gross_minor = o.amount } ∷ []
add_method o (row ∷ rows) =
    let rest = add_method o rows in
    if method_eq row.method o.method
    then record row { paid_count = row.paid_count + 1; gross_minor = row.gross_minor + o.amount }
      ∷ rows
    else row ∷ rest

unfoldable pub add_methods : List Order → List MethodTotals → List MethodTotals
unfolding add_method
add_methods [] rows = rows
add_methods (o ∷ os) rows = add_methods os (if counts_as_paid o then add_method o rows else rows)

unfoldable pub finished : Totals → CurrencyTotals
unfolding from_minor_units difference
finished t = record {
  totals = t;
  gross_display = from_minor_units t.gross_minor t.currency;
  refunded_display = from_minor_units t.refunded_minor t.currency;
  net_minor = difference t.gross_minor t.refunded_minor;
  net_display = from_minor_units (t.gross_minor - t.refunded_minor) t.currency;
}

-- `orderIds.has(r.orderId)`
unfoldable pub belongs_to : List Order → Refund → Bool
belongs_to [] r = false
belongs_to (o ∷ os) r = str_eq o.id r.order_id || belongs_to os r

pub record Summary : Type 0 where
  pub orders_total : ℕ
  pub by_status : OrderStatus → ℕ
  pub currencies : List CurrencyTotals
  pub by_method : List (MethodTotals × Text)
  pub refunds_total : ℕ

unfoldable pub matched_orders : ReportFilter → OrderRepository → List Order
unfolding matches_report
matched_orders f orders = filter (matches_report f) (values (OrderRepository.by_id orders))

unfoldable pub matched_refunds : List Order → RefundRepository → List Refund
unfolding belongs_to
matched_refunds orders refunds =
    filter (belongs_to orders) (values (RefundRepository.by_id refunds))

unfoldable pub currency_rows : List Order → List Refund → List Totals
unfolding add_orders add_refunds
currency_rows orders refunds = add_refunds refunds (add_orders orders [])

unfoldable pub summary : ReportFilter → OrderRepository → RefundRepository → Summary
unfolding matched_orders matched_refunds currency_rows finished add_methods
summary f orders refunds =
    let matched = matched_orders f orders in
    let theirs = matched_refunds matched refunds in
    record {
      orders_total = length matched;
      by_status = λ s. length (filter (λ o. status_eq o.status s) matched);
      currencies = map finished (currency_rows matched theirs);
      by_method =
          map (λ m. (m, from_minor_units m.gross_minor m.currency)) (add_methods matched []);
      refunds_total = length theirs;
    }

unfoldable pub query_of : ReportFilter → OrderQueryFilter
query_of f = record {
  status = ReportFilter.status f;
  method = ReportFilter.method f;
  from = ReportFilter.from f;
  to = ReportFilter.to f;
  merchant_id = ReportFilter.merchant_id f;
}

unfoldable pub list_orders : ReportFilter → PageRequest → OrderRepository → Page Order
unfolding query_of
list_orders f page orders =
    OrderStore.query (query_of f) (PageRequest.limit page) (PageRequest.offset page) orders

unfoldable pub list_refunds : PageRequest → RefundQueryFilter → RefundRepository → Page Refund
list_refunds page f refunds =
    RefundStore.query f (PageRequest.limit page) (PageRequest.offset page) refunds

pub record CurrencyGross : Type 0 where
  pub currency : Currency
  pub paid_count : ℕ
  pub gross_minor : ℕ

-- The row of the currency with the store's row added, in place or at the end.
unfoldable pub add_paid_row : PaidRow → List CurrencyGross → List CurrencyGross
add_paid_row p [] =
    record { currency = p.currency; paid_count = p.paid_count; gross_minor = p.gross_minor } ∷ []
add_paid_row p (row ∷ rows) =
    let rest = add_paid_row p rows in
    if currency_eq row.currency p.currency
    then record row {
      paid_count = row.paid_count + p.paid_count;
      gross_minor = row.gross_minor + p.gross_minor;
    }
      ∷ rows
    else row ∷ rest

unfoldable pub gross_rows : List PaidRow → List CurrencyGross → List CurrencyGross
unfolding add_paid_row
gross_rows [] rows = rows
gross_rows (p ∷ ps) rows = gross_rows ps (add_paid_row p rows)

pub record OrderReport : Type 0 where
  pub orders_total : ℕ
  pub by_status : OrderStatus → ℕ
  pub currencies : List (CurrencyGross × Text)
  pub by_method : List (PaidRow × Text)

unfoldable pub order_summary : ReportFilter → OrderRepository → OrderReport
unfolding query_of gross_rows from_minor_units
order_summary f orders =
    let s = summarize (query_of f) orders in
    record {
      orders_total = OrderSummary.orders_total s;
      by_status = OrderSummary.by_status s;
      currencies =
          map (λ c. (c, from_minor_units c.gross_minor c.currency))
            (gross_rows (OrderSummary.paid s) []);
      by_method = map (λ p. (p, from_minor_units p.gross_minor p.currency)) (OrderSummary.paid s);
    }
