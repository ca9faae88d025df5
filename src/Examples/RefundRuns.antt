-- ===== src/Examples/RefundRuns.antt =====
-- Refunds of one order: runs of the code, and the theorems of Refunds and Reconciliation at that
-- order.
use bianhao.Base.{
  inr, ◌≡◌, refl, ◌↔◌, false, String, some, none, [], ◌∷◌, str_eq_iff, arith, Distinct, concat,
  str_eq, get, set, values,
}
use bianhao.Domain.{
  Order, OrderStatus, PaymentMethod, Refund, RefundStatus, RefundCallbackResult, ok, err, Error,
}
use bianhao.Core.Transitions.{assert_transition}
use bianhao.Storage.Orders as OrderStore
use bianhao.Storage.Refunds as RefundStore
use bianhao.Storage.Events as EventStore
use bianhao.Effects.{World, Env}
use bianhao.Refunds.Service.{
  Number, RefundInput, refund_order, handle_refund_result, check_amount, find_issued, remaining,
  book_refund,
}
use bianhao.Refunds.Ledger.{Books, FreshRefundIds, refund_order-Books, reserved, weight}
use bianhao.Refunds.Refusals.{refund_order_refuses}
use bianhao.Refunds.Notifications.{handle_refund_result-Books}
use bianhao.Reconciliation.{ReconciliationReport, report_on, run}
use bianhao.Reconciliation.Soundness.{IsClean, IsAccounted, report_on-IsClean_iff, run-IsClean}
use bianhao.Examples.Fixtures.{waiting, shop, empty_world, agreeable}

abbrev delivered : Order
delivered = record waiting {
  status = OrderStatus.fulfilled;
  paid_at = some 200;
  refunded_amount = some 500;
}

abbrev in_flight : Refund
in_flight = record {
  id = "f1";
  order_id = "o1";
  out_refund_no = "RF1";
  amount = 500;
  currency = waiting.currency;
  reason = none;
  status = RefundStatus.pending;
  provider_refund_id = none;
  raw_status = "PROCESSING";
  created_at = 300;
  updated_at = 300;
}

-- The order is fulfilled, and a refund of 500 is under way.
abbrev refund_world : World
refund_world = record empty_world {
  orders = record {
    by_id = ("o1", delivered) ∷ [];
    by_out_trade_no = ("VPN1", "o1") ∷ [];
    by_idem = [];
  };
  refunds = record { by_id = ("f1", in_flight) ∷ []; by_out_refund_no = ("RF1", "f1") ∷ [] };
  tick = 3;
}

refund_world-Books : Books refund_world
unfolding get reserved weight OrderStore.find_by_id
refund_world-Books = record {
  keyed = λ i o h. ground (arith, str_eq_iff "o1" i);
  refunds_keyed = λ k f h. ground (arith, str_eq_iff "f1" k);
  balanced = λ i o h. ground (arith, str_eq_iff "o1" i);
  covered = λ i o h. ground (arith, str_eq_iff "o1" i);
}

abbrev part_refund : RefundInput
part_refund = record {
  amount = some (Number.whole 1000);
  reason = none;
  out_refund_no = some "RF2";
}

abbrev refused : RefundCallbackResult
refused = record {
  out_refund_no = "RF1";
  out_trade_no = "VPN1";
  provider_refund_id = "";
  settled = false;
  event_id = "e9";
  raw_status = "ABNORMAL";
}

-- One unit more than what is left of the order.
abbrev excessive : RefundInput
excessive = record { amount = some (Number.whole 1001); reason = none; out_refund_no = some "RF2" }

refund_order_refuses_example :
    refund_order shop "o1" excessive refund_world ≡ (err Error.validation, refund_world)
unfolding find_issued get str_eq RefundStore.find_by_out_refund_no OrderStore.find_by_id
refund_order_refuses_example =
    refund_order_refuses shop "o1" excessive delivered refund_world refl refl (inr refl)
      (inr (omega arith))

-- The next refund's id is "r1".
abbrev desk : Env
desk = record shop { uuid = λ t. "r1" }

no_ids : FreshRefundIds desk refund_world
unfolding get str_eq
no_ids u later = refl

refund_order-Books_example : Books (refund_order desk "o1" part_refund refund_world).1
refund_order-Books_example =
    refund_order-Books desk "o1" part_refund refund_world refund_world-Books no_ids

handle_refund_result-Books_example :
    Books (handle_refund_result shop PaymentMethod.wechat agreeable refused refund_world).1
handle_refund_result-Books_example =
    handle_refund_result-Books shop PaymentMethod.wechat agreeable refused refund_world
      refund_world-Books

refund_world-Distinct : Distinct refund_world.orders.by_id
unfolding get
refund_world-Distinct = (refl, tt)

run-IsClean_example :
    (report : ReconciliationReport) × (run shop none false refund_world
      ≡ (ok report, record refund_world { tick = 4 }))
    × IsClean report.discrepancies
run-IsClean_example = run-IsClean shop none refund_world refund_world-Books refund_world-Distinct

report_on-IsClean_iff_example :
    IsClean
      (report_on 5
        (OrderStore.all refund_world.orders)
        (RefundStore.all refund_world.refunds)
        0).discrepancies
    ↔ ((i : String) (o : Order)
        → OrderStore.find_by_id i refund_world.orders ≡ some o
        → IsAccounted o (reserved i refund_world.refunds.by_id))
report_on-IsClean_iff_example =
    report_on-IsClean_iff 5 0 refund_world.orders refund_world.refunds refund_world-Books.keyed
      refund_world-Distinct

-- A manual refund of the rest while one is under way makes the order REFUNDED; when the one under
-- way fails, 500 are left that cannot be refunded any more.
abbrev rest_refunded : World
rest_refunded = (refund_order desk "o1" part_refund refund_world).1

abbrev first_failed : World
first_failed = (handle_refund_result shop PaymentMethod.wechat agreeable refused rest_refunded).1

stuck_refund :
    (refund_order desk "o1"
      (record { amount = some (Number.whole 500); reason = none; out_refund_no = some "RF3" })
      first_failed).0
    ≡ err Error.invalid_state
unfolding refund_order handle_refund_result concat str_eq get set values assert_transition
    OrderStore.find_by_id OrderStore.update RefundStore.find_by_out_refund_no RefundStore.update
    RefundStore.create EventStore.mark_if_new check_amount remaining book_refund
stuck_refund = refl
