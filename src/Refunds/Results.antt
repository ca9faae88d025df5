-- ===== src/Refunds/Results.antt =====
-- What storing a refund's result does to the ledger (services/refundService.ts, handleRefundCallback).
use bianhao.Base.{
  ◌-◌, ◌≡◌, ◌∙◌, ap, inl, inr, true, false, String, none, some, arith, Option-cases, get, set,
  str_eq_iff, get-set, truthy,
}
use bianhao.Domain.{Order, Refund, RefundStatus, RefundCallbackResult}
use bianhao.Storage.Orders as OrderStore
use bianhao.Storage.Refunds as RefundStore
use bianhao.Effects.{World, Env}
use bianhao.Refunds.Service.{refunded_of, updated_refund}
use bianhao.Refunds.Ledger.{Books, Balanced, weight, reserved-set_old, weight-le-reserved}

-- A refund that is found by its number is stored, under its id.
pub found_stored :
    (refund_no : String) (f : Refund) (w : World)
    → Books w
    → RefundStore.find_by_out_refund_no refund_no w.refunds ≡ some f
    → get f.id w.refunds.by_id ≡ some f
unfolding RefundStore.find_by_out_refund_no
found_stored refund_no f w b h =
    elim (Option-cases (truthy (get refund_no w.refunds.by_out_refund_no))) [
      | inl missing ↦ ground arith
      | inr (k, there) ↦
          let e : get k w.refunds.by_id ≡ some f = ground arith in
          ap (λ i. get i w.refunds.by_id) (b.refunds_keyed k f e) ∙ e
    ]

module _ (env : Env) (r : RefundCallbackResult) (f : Refund) (w : World) where
  abbrev pub stored_result : RefundStore.RefundRepository
  stored_result = RefundStore.update (updated_refund env f r (env.now w.tick)) w.refunds

  -- A refund that is confirmed counts as before.
  pub settled-Balanced :
      Books w
      → get f.id w.refunds.by_id ≡ some f
      → f.status ≡ RefundStatus.pending
      → r.settled ≡ true
      → Balanced w.orders stored_result
  unfolding RefundStore.update updated_refund weight
  settled-Balanced b h p t = record {
    keyed = b.keyed;
    refunds_keyed = λ k g e. ground (
      arith,
      get-set f.id k (updated_refund env f r (env.now w.tick)) w.refunds.by_id,
      str_eq_iff f.id k,
      b.refunds_keyed k g,
    );
    balanced = λ i o e. ground (
      arith,
      b.balanced i o e,
      reserved-set_old i f.id (updated_refund env f r (env.now w.tick)) f w.refunds.by_id h,
    );
    covered = b.covered;
  }

  -- The order with the failed refund's amount released.
  abbrev pub released : Order → Order
  released o = record o {
    refunded_amount = some (refunded_of o - f.amount);
    updated_at = env.now w.tick;
  }

  pub released-Balanced :
      (o : Order)
      → Books w
      → get f.id w.refunds.by_id ≡ some f
      → f.status ≡ RefundStatus.pending
      → r.settled ≡ false
      → OrderStore.find_by_id f.order_id w.orders ≡ some o
      → Balanced (record (w.orders) { by_id = set o.id (released o) w.orders.by_id }) stored_result
  unfolding RefundStore.update updated_refund weight OrderStore.find_by_id
  released-Balanced o b h p t found = record {
    keyed = λ i q e.
        ground (arith, get-set o.id i (released o) w.orders.by_id, str_eq_iff o.id i, b.keyed i q);
    refunds_keyed = λ k g e. ground (
      arith,
      get-set f.id k (updated_refund env f r (env.now w.tick)) w.refunds.by_id,
      str_eq_iff f.id k,
      b.refunds_keyed k g,
    );
    balanced = λ i q e. ground (
      arith,
      get-set o.id i (released o) w.orders.by_id,
      str_eq_iff o.id i,
      str_eq_iff f.order_id i,
      b.keyed f.order_id o found,
      b.balanced i q,
      b.balanced i o,
      reserved-set_old i f.id (updated_refund env f r (env.now w.tick)) f w.refunds.by_id h,
      weight-le-reserved i f.id f w.refunds.by_id h,
    );
    covered = λ i q e. ground (
      arith,
      get-set o.id i (released o) w.orders.by_id,
      str_eq_iff o.id i,
      b.covered i q,
      b.covered f.order_id o found,
    );
  }

  pub orphan-Balanced :
      Books w
      → get f.id w.refunds.by_id ≡ some f
      → OrderStore.find_by_id f.order_id w.orders ≡ none
      → Balanced w.orders stored_result
  unfolding RefundStore.update updated_refund weight OrderStore.find_by_id
  orphan-Balanced b h none_there = record {
    keyed = b.keyed;
    refunds_keyed = λ k g e. ground (
      arith,
      get-set f.id k (updated_refund env f r (env.now w.tick)) w.refunds.by_id,
      str_eq_iff f.id k,
      b.refunds_keyed k g,
    );
    balanced = λ i o e. ground (
      arith,
      str_eq_iff f.order_id i,
      b.balanced i o e,
      reserved-set_old i f.id (updated_refund env f r (env.now w.tick)) f w.refunds.by_id h,
    );
    covered = b.covered;
  }
