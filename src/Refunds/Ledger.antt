-- ===== src/Refunds/Ledger.antt =====
-- The refund ledger: an order's refunded amount is the sum of its refunds that did not fail, the
-- invariant that services/reconciliationService.ts states and RefundService is to keep.
use bianhao.Base.{
  ℕ, ◌+◌, ◌≤◌, ◌≡◌, ◌∙◌, ap, ◌⊎◌, inl, inr, String, Option, none, some, [], ◌∷◌, if◌then◌else◌,
  arith, Option-cases, Bool-cases, Map, get, set, has, str_eq, str_eq_iff, truthy, get_or, get-set,
}
use bianhao.Domain.{
  Order, Refund, RefundStatus, RefundRequest, RefundResult, Error, Result, ok, err,
}
use bianhao.Storage.Orders as OrderStore
use bianhao.Storage.Orders.Lookup.{Keyed}
use bianhao.Storage.Refunds as RefundStore
use bianhao.Storage.Refunds.{refund_status_eq}
use bianhao.Effects.{World, Env, Action, PaymentProvider, or_throw, ◌>>=◌}
use bianhao.Effects.Rules.{lift_rule, or_throw_rule}
use bianhao.Refunds.Service.{
  Number, RefundInput, remaining, check_amount, is_settled, refunded_of, book_refund, issue_refund,
  refund_stored, refund_order, refund_paid, refund_locked, find_issued, reuse_or_refund,
}
use bianhao.Refunds.Steps.{
  IsRefundable, booked, with_total, at_tick, book_refund_known, issue_refund_rule,
}

-- What a refund counts for towards an order: nothing if it is another order's, or failed.
unfoldable pub weight : String → Refund → ℕ
weight order_id f =
    if str_eq f.order_id order_id
    then (if refund_status_eq f.status RefundStatus.failed then 0 else f.amount)
    else 0

unfoldable pub reserved : String → Map Refund → ℕ
reserved order_id [] = 0
reserved order_id ((id, f) ∷ m) = weight order_id f + reserved order_id m

pub reserved-set_new :
    (order_id k : String) (f : Refund) (m : Map Refund)
    → get k m ≡ none
    → reserved order_id (set k f m) ≡ reserved order_id m + weight order_id f
unfolding reserved get set
reserved-set_new order_id k f [] h = omega arith
reserved-set_new order_id k f ((j, g) ∷ m) h = ground (arith, reserved-set_new order_id k f m)

pub reserved-set_old :
    (order_id k : String) (f g : Refund) (m : Map Refund)
    → get k m ≡ some g
    → reserved order_id (set k f m) + weight order_id g ≡ reserved order_id m + weight order_id f
unfolding reserved get set
reserved-set_old order_id k f g [] h = cc
reserved-set_old order_id k f g ((j, x) ∷ m) h = ground (arith, reserved-set_old order_id k f g m)

-- A refund in the ledger counts at most for the whole.
pub weight-le-reserved :
    (order_id k : String) (g : Refund) (m : Map Refund)
    → get k m ≡ some g
    → weight order_id g ≤ reserved order_id m
unfolding reserved get
weight-le-reserved order_id k g [] h = cc
weight-le-reserved order_id k g ((j, x) ∷ m) h = ground (arith, weight-le-reserved order_id k g m)

-- The books are in order.
pub record Balanced (orders : OrderStore.OrderRepository) (refunds : RefundStore.RefundRepository)
    : Type 0 where
  pub keyed : Keyed orders
  pub refunds_keyed : (k : String) (f : Refund) → get k refunds.by_id ≡ some f → f.id ≡ k
  pub balanced :
      (i : String) (o : Order)
      → OrderStore.find_by_id i orders ≡ some o
      → refunded_of o ≡ reserved i refunds.by_id
  pub covered :
      (i : String) (o : Order) → OrderStore.find_by_id i orders ≡ some o → refunded_of o ≤ o.amount

abbrev pub Books : World → Type 0
Books w = Balanced w.orders w.refunds

-- A refund of an amount that is left keeps the books.
pub booked-Books :
    (env : Env) (o : Order) (f : Refund) (w : World)
    → Books w
    → OrderStore.find_by_id o.id w.orders ≡ some o
    → f.order_id ≡ o.id
    → get f.id w.refunds.by_id ≡ none
    → refunded_of o + f.amount ≤ o.amount
    → Books (booked env o f w)
unfolding OrderStore.find_by_id weight
booked-Books env o f w b found own fresh fits = record {
  keyed = keyed;
  refunds_keyed = refunds_keyed;
  balanced = balanced;
  covered = covered;
}
  where
    keyed : Keyed (booked env o f w).orders
    keyed i p e = ground (
      arith,
      get-set o.id i (with_total env o (refunded_of o + f.amount) (is_settled f.status) w)
          w.orders.by_id,
      str_eq_iff o.id i,
      b.keyed i p,
    )

    refunds_keyed :
        (k : String) (g : Refund) → get k (booked env o f w).refunds.by_id ≡ some g → g.id ≡ k
    refunds_keyed k g e =
        ground (arith, get-set f.id k f w.refunds.by_id, str_eq_iff f.id k, b.refunds_keyed k g)

    balanced :
        (i : String) (p : Order)
        → OrderStore.find_by_id i (booked env o f w).orders ≡ some p
        → refunded_of p ≡ reserved i (booked env o f w).refunds.by_id
    balanced i p e = ground (
      arith,
      get-set o.id i (with_total env o (refunded_of o + f.amount) (is_settled f.status) w)
          w.orders.by_id,
      str_eq_iff o.id i,
      b.balanced i p,
      b.balanced o.id o,
      reserved-set_new i f.id f w.refunds.by_id fresh,
    )

    covered :
        (i : String) (p : Order)
        → OrderStore.find_by_id i (booked env o f w).orders ≡ some p
        → refunded_of p ≤ p.amount
    covered i p e = ground (
      arith,
      get-set o.id i (with_total env o (refunded_of o + f.amount) (is_settled f.status) w)
          w.orders.by_id,
      str_eq_iff o.id i,
      b.covered i p,
    )

-- Ids drawn from now on are not in use.
abbrev pub FreshRefundIds : Env → World → Type 0
FreshRefundIds env w = (u : ℕ) → w.tick ≤ u → get (env.uuid u) w.refunds.by_id ≡ none

-- The amount that passes the checks is positive and no more than what is left.
pub check_amount_bounds :
    (requested : Number) (amount refunded n : ℕ)
    → check_amount requested (remaining amount refunded) ≡ ok n
    → (1 ≤ n) × (refunded + n ≤ amount)
unfolding check_amount remaining
check_amount_bounds requested amount refunded n h = ground arith

module _ (env : Env) where
  book_refund-Books :
      (o : Order) (f : Refund) (w : World)
      → Books w
      → IsRefundable o
      → OrderStore.find_by_id o.id w.orders ≡ some o
      → f.order_id ≡ o.id
      → get f.id w.refunds.by_id ≡ none
      → refunded_of o + f.amount ≤ o.amount
      → Books (book_refund env o f w).1
  book_refund-Books o f w b s found own fresh fits =
      rw (book_refund_known env o o f w s found)
        (elim (Bool-cases (has f.out_refund_no w.refunds.by_out_refund_no)) [
          | inl used ↦ rw used b
          | inr free ↦ rw free (booked-Books env o f w b found own fresh fits)
        ])

  issue_refund-Books :
      (input : RefundInput) (o : Order) (n : ℕ)
      (channel : Option (ℕ → Order → RefundRequest → Result RefundResult)) (w : World)
      → Books w
      → FreshRefundIds env w
      → IsRefundable o
      → OrderStore.find_by_id o.id w.orders ≡ some o
      → refunded_of o + n ≤ o.amount
      → Books (issue_refund env input o n channel input.out_refund_no w).1
  issue_refund-Books input o n channel w b fresh s found fits =
      issue_refund_rule env Books input o n channel input.out_refund_no w (λ t. b)
        (λ f t own amount (u, later, id).
          book_refund-Books o f (at_tick t w) b s found own
            (ap (λ i. get i w.refunds.by_id) id ∙ fresh u later) (rw amount fits))

  refund_paid-Books :
      (input : RefundInput) (o : Order) (w : World)
      → Books w
      → FreshRefundIds env w
      → IsRefundable o
      → OrderStore.find_by_id o.id w.orders ≡ some o
      → Books (refund_paid env input o w).1
  unfolding refund_paid
  refund_paid-Books input o w b fresh s found =
      let left = remaining o.amount (refunded_of o) in
      let issue : ℕ → PaymentProvider → Action Refund =
        λ n p. issue_refund env input o n p.refund input.out_refund_no in
      lift_rule Books (check_amount (get_or input.amount left) left)
        (λ n. or_throw (env.providers o.method) Error.validation >>= issue n) w b
        λ n passed.
          or_throw_rule Books (env.providers o.method) Error.validation (issue n) w b λ p _.
            issue_refund-Books input o n p.refund w b fresh s found
              (check_amount_bounds (get_or input.amount left) o.amount (refunded_of o) n passed).1

  refund_stored_cases :
      (input : RefundInput) (o : Order) (w : World)
      → (IsRefundable o × (refund_stored env input o w ≡ refund_paid env input o w))
        ⊎ (refund_stored env input o w ≡ (err Error.invalid_state, w))
  unfolding refund_stored
  refund_stored_cases input o w = ground arith

  refund_locked-Books :
      (order_id : String) (input : RefundInput) (w : World)
      → Books w
      → FreshRefundIds env w
      → Books (refund_locked env order_id input w).1
  unfolding refund_locked
  refund_locked-Books order_id input w b fresh =
      or_throw_rule Books (OrderStore.find_by_id order_id w.orders) Error.not_found
        (refund_stored env input) w b
        λ o found. elim (refund_stored_cases input o w) [
          | inl (s, same) ↦ rw same (
              refund_paid-Books input o w b fresh s
                (ap (λ i. OrderStore.find_by_id i w.orders) (b.keyed order_id o found) ∙ found))
          | inr stopped ↦ rw stopped b
        ]

  -- Refunding an order keeps the books in order, whatever the outcome, as long as the ids drawn for
  -- refunds are not in use.
  pub refund_order-Books :
      (order_id : String) (input : RefundInput) (w : World)
      → Books w
      → FreshRefundIds env w
      → Books (refund_order env order_id input w).1
  unfolding refund_order
  refund_order-Books order_id input w b fresh =
      elim (Option-cases (find_issued env (truthy input.out_refund_no) w)) [
        | inl new ↦ rw (new, reuse_or_refund) (refund_locked-Books order_id input w b fresh)
        | inr (f, old) ↦ rw (old, reuse_or_refund) b
      ]
