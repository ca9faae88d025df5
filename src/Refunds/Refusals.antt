-- ===== src/Refunds/Refusals.antt =====
-- The amounts that `refundOrder` refuses (services/refundService.ts).
use bianhao.Base.{◌+◌, ◌≤◌, ◌<◌, ◌≡◌, refl, ◌⊎◌, String, Option, none, some, arith, truthy, get_or}
use bianhao.Domain.{Order, Error, err}
use bianhao.Storage.Orders as OrderStore
use bianhao.Effects.{World, Env}
use bianhao.Refunds.Service.{
  Number, RefundInput, check_amount, find_issued, refund_order, refund_paid, refund_stored,
  refunded_of, remaining,
}
use bianhao.Refunds.Steps.{IsRefundable}

-- No refund can be made of the amount that is asked for, which is all that is left where none is given.
abbrev pub Refusable : Option Number → Order → Type 0
Refusable none o = o.amount ≤ refunded_of o
Refusable (some (Number.whole n)) o = (n ≡ 0) ⊎ (o.amount < refunded_of o + n)
Refusable (some (Number.negative n)) o = Unit
Refusable (some Number.fractional) o = Unit

check_refuses :
    (requested : Option Number) (o : Order)
    → Refusable requested o
    → check_amount
        (get_or requested (remaining o.amount (refunded_of o)))
        (remaining o.amount (refunded_of o))
      ≡ err Error.validation
unfolding check_amount remaining
check_refuses none o none_left = ground arith
check_refuses (some (Number.whole n)) o bad = ground arith
check_refuses (some (Number.negative n)) o bad = refl
check_refuses (some Number.fractional) o bad = refl

module _ (env : Env) (input : RefundInput) (o : Order) (w : World)
    (bad : Refusable input.amount o) where
  paid_refuses : refund_paid env input o w ≡ (err Error.validation, w)
  unfolding refund_paid
  paid_refuses = rw (check_refuses input.amount o bad) refl

  stored_refuses : IsRefundable o → refund_stored env input o w ≡ (err Error.validation, w)
  unfolding refund_stored
  stored_refuses refundable = ground (arith, paid_refuses)

-- For an order that is stored as PAID or FULFILLED, and no refund under the number that is given,
-- `refundOrder` refuses an amount that is 0, negative, fractional or more than what is left, and an
-- absent amount where nothing is left: it throws a validation error and changes nothing, nor does it
-- ask the provider.
pub refund_order_refuses :
    (env : Env) (order_id : String) (input : RefundInput) (o : Order) (w : World)
    → find_issued env (truthy input.out_refund_no) w ≡ none
    → OrderStore.find_by_id order_id w.orders ≡ some o
    → IsRefundable o
    → Refusable input.amount o
    → refund_order env order_id input w ≡ (err Error.validation, w)
unfolding refund_order
refund_order_refuses env order_id input o w unused found refundable bad =
    rw (unused, found) (stored_refuses env input o w bad refundable)
