-- ===== src/Reports/Sums.antt =====
-- The totals of a summary against sums over the orders and refunds (services/reportService.ts).
use bianhao.Base.{
  subst, ◌==◌, ℕ, ◌+◌, ◌≤◌, ◌≡◌, refl, ap, ◌∙◌, sym, inl, inr, Bool, true, false, ◌&&◌, List, [],
  ◌∷◌, map, if◌then◌else◌, arith, Bool-cases,
}
use bianhao.Domain.{Currency, Order, Refund, currency_eq, currency_eq_iff}
use bianhao.Storage.Orders.{OrderRepository, counts_as_paid}
use bianhao.Storage.Refunds.{RefundRepository}
use bianhao.Reports.{
  ReportFilter, Summary, Totals, add_order, add_orders, add_refund, add_refunds, currency_rows,
  finished, matched_orders, matched_refunds, refund_settled, summary, touch, with_order,
  with_refund,
}

-- The sum of a measure over a list.
unfoldable pub sum_by : {A : Type 0} → (A → ℕ) → List A → ℕ
sum_by measure [] = 0
sum_by measure (a ∷ rest) = measure a + sum_by measure rest

-- What a row counts for, by its currency.
abbrev pub in_currency : Currency → (Totals → ℕ) → Totals → ℕ
in_currency c measure t = if currency_eq t.currency c then measure t else 0

abbrev pub rows_of : Currency → List Totals → ℕ
rows_of c rows = sum_by (in_currency c (λ t. 1)) rows

abbrev new_row : Currency → Totals
new_row c = record { currency = c; paid_count = 0; gross_minor = 0; refunded_minor = 0 }

abbrev at_least_one : ℕ → ℕ
at_least_one n = if n == 0 then 1 else n

abbrev pub paid_in : Currency → (Order → ℕ) → Order → ℕ
paid_in c measure o = if counts_as_paid o && currency_eq o.currency c then measure o else 0

abbrev pub refunded_in : Currency → Refund → ℕ
refunded_in c r = if refund_settled r && currency_eq r.currency c then r.amount else 0

-- A change of a row that adds to a measure, and leaves the currency.
module _ (c d : Currency) (measure : Totals → ℕ) (change : Totals → Totals) (more : ℕ)
    (adds : (t : Totals) → measure (change t) ≡ measure t + more)
    (stays : (t : Totals) → (change t).currency ≡ t.currency)
    (empty : measure (new_row d) ≡ 0) where
  in_row :
      (t : Totals) (n : ℕ)
      → t.currency ≡ d
      → measure t ≡ n
      → in_currency c measure t ≡ (if currency_eq d c then n else 0)
  in_row t n same value =
      ap (λ e. if currency_eq e c then measure t else 0) same
      ∙ ap (λ k. if currency_eq d c then k else 0) value

  first_value : measure (change (new_row d)) ≡ more
  first_value =
      let value = adds (new_row d) in let zero_here = empty in omega (arith, value, zero_here)

  touch_sum :
      (rows : List Totals)
      → sum_by (in_currency c measure) (touch d change rows)
        ≡ (if currency_eq d c then more else 0) + sum_by (in_currency c measure) rows
  unfolding touch sum_by
  touch_sum [] = ap (λ n. n + 0) (in_row (change (new_row d)) more (stays (new_row d)) first_value)
  touch_sum (row ∷ rows) =
      let rest = touch_sum rows in
      elim (Bool-cases (currency_eq row.currency d)) [
        | inl same ↦
            let here = (currency_eq_iff row.currency d).0 same in
            let before = in_row row (measure row) here refl in
            let after = in_row (change row) (measure row + more) (stays row ∙ here) (adds row) in
            rw (same, after, before)
              (split_sum (currency_eq d c) (measure row) (sum_by (in_currency c measure) rows))
        | inr other ↦ rw (other, rest) (omega arith)
      ]
    where
      split_sum :
          (b : Bool) (n rest : ℕ)
          → (if b then n + more else 0) + rest
            ≡ (if b then more else 0) + ((if b then n else 0) + rest)
      split_sum true n rest = omega arith
      split_sum false n rest = omega arith

  -- A currency that has rows keeps them, and one that has none gets one.
  touch_rows :
      (rows : List Totals)
      → rows_of c (touch d change rows)
        ≡ (if currency_eq d c then at_least_one (rows_of c rows) else rows_of c rows)
  unfolding touch sum_by
  touch_rows [] = rw (stays (new_row d)) (ground arith)
  touch_rows (row ∷ rows) =
      let rest = touch_rows rows in
      elim (Bool-cases (currency_eq row.currency d)) [
        | inl same ↦ rw (same, stays row, (currency_eq_iff row.currency d).0 same) (ground arith)
        | inr other ↦ rw (other, rest) (other_row row.currency (rows_of c rows) other)
      ]
    where
      other_row :
          (e : Currency) (n : ℕ)
          → currency_eq e d ≡ false
          → (if currency_eq e c then 1 else 0) + (if currency_eq d c then at_least_one n else n) ≡ (
              if currency_eq d c
              then at_least_one ((if currency_eq e c then 1 else 0) + n)
              else (if currency_eq e c then 1 else 0) + n)
      other_row e n other =
          ground (arith, other, currency_eq_iff e d, currency_eq_iff e c, currency_eq_iff d c)

-- One order, one refund.
module _ (c : Currency) where
  add_order_sum :
      (o : Order) (measure : Totals → ℕ) (more : ℕ) (rows : List Totals)
      → ((t : Totals) → measure (with_order o t) ≡ measure t + more)
      → measure (new_row o.currency) ≡ 0
      → sum_by (in_currency c measure) (add_order o rows)
        ≡ paid_in c (λ o. more) o + sum_by (in_currency c measure) rows
  unfolding add_order
  add_order_sum o measure more rows adds empty = elim (Bool-cases (counts_as_paid o)) [
    | inl paid ↦
        rw paid (touch_sum c o.currency measure (with_order o) more adds (λ t. refl) empty rows)
    | inr unpaid ↦ rw unpaid (omega arith)
  ]

  add_refund_sum :
      (r : Refund) (measure : Totals → ℕ) (more : ℕ) (rows : List Totals)
      → ((t : Totals) → measure (with_refund r t) ≡ measure t + more)
      → measure (new_row r.currency) ≡ 0
      → sum_by (in_currency c measure) (add_refund r rows)
        ≡ (if refund_settled r && currency_eq r.currency c then more else 0)
          + sum_by (in_currency c measure) rows
  unfolding add_refund
  add_refund_sum r measure more rows adds empty = elim (Bool-cases (refund_settled r)) [
    | inl settled ↦
        rw settled (touch_sum c r.currency measure (with_refund r) more adds (λ t. refl) empty rows)
    | inr open_one ↦ rw open_one (omega arith)
  ]

  add_orders_gross :
      (orders : List Order) (rows : List Totals)
      → sum_by (in_currency c (λ t. t.gross_minor)) (add_orders orders rows)
        ≡ sum_by (paid_in c (λ o. o.amount)) orders
          + sum_by (in_currency c (λ t. t.gross_minor)) rows
  unfolding add_orders sum_by
  add_orders_gross [] rows = omega arith
  add_orders_gross (o ∷ orders) rows =
      let rest = add_orders_gross orders (add_order o rows) in
      let here = add_order_sum o (λ t. t.gross_minor) o.amount rows (λ t. refl) refl in
      omega (arith, rest, here)

  add_orders_count :
      (orders : List Order) (rows : List Totals)
      → sum_by (in_currency c (λ t. t.paid_count)) (add_orders orders rows)
        ≡ sum_by (paid_in c (λ o. 1)) orders + sum_by (in_currency c (λ t. t.paid_count)) rows
  unfolding add_orders sum_by
  add_orders_count [] rows = omega arith
  add_orders_count (o ∷ orders) rows =
      let rest = add_orders_count orders (add_order o rows) in
      let here = add_order_sum o (λ t. t.paid_count) 1 rows (λ t. refl) refl in
      omega (arith, rest, here)

  add_refunds_sum :
      (measure : Totals → ℕ) (more : Refund → ℕ)
      → ((r : Refund) (t : Totals) → measure (with_refund r t) ≡ measure t + more r)
      → ((d : Currency) → measure (new_row d) ≡ 0)
      → (refunds : List Refund) (rows : List Totals)
      → sum_by (in_currency c measure) (add_refunds refunds rows)
        ≡ sum_by (λ r. if refund_settled r && currency_eq r.currency c then more r else 0) refunds
          + sum_by (in_currency c measure) rows
  unfolding add_refunds sum_by
  add_refunds_sum measure more adds empty [] rows = omega arith
  add_refunds_sum measure more adds empty (r ∷ refunds) rows =
      let rest = add_refunds_sum measure more adds empty refunds (add_refund r rows) in
      let here = add_refund_sum r measure (more r) rows (adds r) (empty r.currency) in
      omega (arith, rest, here)

-- At most one row for a currency, through both loops.
module _ (c : Currency) where
  touch_one :
      (d : Currency) (change : Totals → Totals) (rows : List Totals)
      → ((t : Totals) → (change t).currency ≡ t.currency)
      → rows_of c rows ≤ 1
      → rows_of c (touch d change rows) ≤ 1
  touch_one d change rows stays few =
      let now = touch_rows c d (λ t. 0) change 0 (λ t. refl) stays refl rows in
      ground (arith, now, few)

  add_orders_one :
      (orders : List Order) (rows : List Totals)
      → rows_of c rows ≤ 1
      → rows_of c (add_orders orders rows) ≤ 1
  unfolding add_orders add_order
  add_orders_one [] rows few = few
  add_orders_one (o ∷ orders) rows few = elim (Bool-cases (counts_as_paid o)) [
    | inl paid ↦ rw paid (
        add_orders_one orders (touch o.currency (with_order o) rows)
          (touch_one o.currency (with_order o) rows (λ t. refl) few))
    | inr unpaid ↦ rw unpaid (add_orders_one orders rows few)
  ]

  add_refunds_one :
      (refunds : List Refund) (rows : List Totals)
      → rows_of c rows ≤ 1
      → rows_of c (add_refunds refunds rows) ≤ 1
  unfolding add_refunds add_refund
  add_refunds_one [] rows few = few
  add_refunds_one (r ∷ refunds) rows few = elim (Bool-cases (refund_settled r)) [
    | inl settled ↦ rw settled (
        add_refunds_one refunds (touch r.currency (with_refund r) rows)
          (touch_one r.currency (with_refund r) rows (λ t. refl) few))
    | inr open_one ↦ rw open_one (add_refunds_one refunds rows few)
  ]

totals_back : (rows : List Totals) → map (λ t. t.totals) (map finished rows) ≡ rows
unfolding finished
totals_back [] = refl
totals_back (row ∷ rows) = ap (λ ts. row ∷ ts) (totals_back rows)

-- The rows of a summary.
abbrev pub rows_in : Summary → List Totals
rows_in s = map (λ t. t.totals) (Summary.currencies s)

summary_rows :
    (f : ReportFilter) (orders : OrderRepository) (refunds : RefundRepository)
    → rows_in (summary f orders refunds)
      ≡ currency_rows (matched_orders f orders) (matched_refunds (matched_orders f orders) refunds)
unfolding summary
summary_rows f orders refunds =
    totals_back
      (currency_rows (matched_orders f orders) (matched_refunds (matched_orders f orders) refunds))

-- The sums of a list of rows for a currency.
abbrev pub SumsTo : Currency → List Order → List Refund → List Totals → Type 0
SumsTo c orders refunds rows =
    (rows_of c rows ≤ 1)
    × (sum_by (in_currency c (λ t. t.paid_count)) rows ≡ sum_by (paid_in c (λ o. 1)) orders)
    × (sum_by (in_currency c (λ t. t.gross_minor)) rows ≡ sum_by (paid_in c (λ o. o.amount)) orders)
    × (sum_by (in_currency c (λ t. t.refunded_minor)) rows ≡ sum_by (refunded_in c) refunds)

add_orders_refunded :
    (c : Currency) (orders : List Order) (rows : List Totals)
    → sum_by (in_currency c (λ t. t.refunded_minor)) (add_orders orders rows)
      ≡ sum_by (in_currency c (λ t. t.refunded_minor)) rows
unfolding add_orders sum_by
add_orders_refunded c [] rows = refl
add_orders_refunded c (o ∷ orders) rows =
    let rest = add_orders_refunded c orders (add_order o rows) in
    let here = add_order_sum c o (λ t. t.refunded_minor) 0 rows (λ t. omega arith) refl in
    ground (arith, rest, here)

no_more :
    (c : Currency) (refunds : List Refund)
    → sum_by (λ r. if refund_settled r && currency_eq r.currency c then 0 else 0) refunds ≡ 0
unfolding sum_by
no_more c [] = refl
no_more c (r ∷ refunds) = let rest = no_more c refunds in ground (arith, rest)

currency_rows-SumsTo :
    (c : Currency) (orders : List Order) (refunds : List Refund)
    → SumsTo c orders refunds (currency_rows orders refunds)
unfolding currency_rows sum_by
currency_rows-SumsTo c orders refunds =
    let rows = add_orders orders [] in
    let counted =
      add_refunds_sum c (λ t. t.paid_count) (λ r. 0) (λ r t. omega arith) (λ d. refl) refunds
        rows in
    let gross =
      add_refunds_sum c (λ t. t.gross_minor) (λ r. 0) (λ r t. omega arith) (λ d. refl) refunds
        rows in
    let back =
      add_refunds_sum c (λ t. t.refunded_minor) (λ r. r.amount) (λ r t. refl) (λ d. refl) refunds
        rows in
    let none_here = no_more c refunds in
    let counts = add_orders_count c orders [] in
    let sums = add_orders_gross c orders [] in
    let unrefunded = add_orders_refunded c orders [] in
    (
      add_refunds_one c refunds rows (add_orders_one c orders [] (omega arith)),
      omega (arith, counted, none_here, counts),
      omega (arith, gross, none_here, sums),
      omega (arith, back, unrefunded),
    )

-- For every currency a summary has at most one row, and its numbers are the count and the sum of the
-- matched orders that count as paid, and the sum of their settled refunds, in that currency.
pub summary-SumsTo :
    (f : ReportFilter) (orders : OrderRepository) (refunds : RefundRepository) (c : Currency)
    → SumsTo c
        (matched_orders f orders)
        (matched_refunds (matched_orders f orders) refunds)
        (rows_in (summary f orders refunds))
summary-SumsTo f orders refunds c =
    let matched = matched_orders f orders in
    let theirs = matched_refunds matched refunds in
    subst (SumsTo c matched theirs) (sym (summary_rows f orders refunds))
      (currency_rows-SumsTo c matched theirs)
