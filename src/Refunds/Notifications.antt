-- ===== src/Refunds/Notifications.antt =====
-- Refund notifications keep the ledger (services/refundService.ts, handleRefundCallback).
use bianhao.Base.{
  ℕ, suc, ◌≡◌, refl, sym, ◌∙◌, ap, ◌⊎◌, inl, inr, Bool, true, false, String, Option, none, some,
  arith, Option-cases, Bool-cases, get, set, str_eq, str_eq_iff, get-set, subst, if◌then◌else◌,
  concat,
}
use bianhao.Domain.{
  Order, PaymentMethod, Refund, RefundStatus, RefundCallbackResult, ok, method_text,
}
use bianhao.Core.Transitions.{assert_transition}
use bianhao.Storage.Orders as OrderStore
use bianhao.Storage.Orders.Lookup.{update_known}
use bianhao.Storage.Refunds as RefundStore
use bianhao.Effects.{World, Env, PaymentProvider, pure, ◌>>=◌}
use bianhao.Effects.Rules.{mark_if_new_rule, then_pure}
use bianhao.Effects.Stores.{find_refund}
use bianhao.Refunds.Service.{
  refunded_of, reserve_refund, settle_or_release, apply_result, acknowledge, handle_refund_result,
}
use bianhao.Refunds.Steps.{with_total}
use bianhao.Refunds.Ledger.{Books, Balanced}
use bianhao.Refunds.Results.{
  found_stored, stored_result, released, settled-Balanced, released-Balanced, orphan-Balanced,
}

module _ (env : Env) where
  -- `reserveRefund` writes the order with the new total, or throws and writes nothing.
  reserve_refund_writes :
      (o old : Order) (total : ℕ) (settled : Bool) (w : World)
      → OrderStore.find_by_id o.id w.orders ≡ some old
      → ((reserve_refund env o total settled w).1.refunds ≡ w.refunds)
        × (((reserve_refund env o total settled w).1.orders ≡ w.orders)
            ⊎ ((reserve_refund env o total settled w).1.orders ≡ record (w.orders) {
              by_id = set o.id (with_total env o total settled w) w.orders.by_id;
            }))
  unfolding reserve_refund assert_transition
  reserve_refund_writes o old total settled w f =
      ground (arith, update_known (with_total env o total settled w) old w.orders f)

  -- Writing an order's own total anew keeps the balance.
  retotal-Balanced :
      (o : Order) (settled : Bool) (w : World) (refunds : RefundStore.RefundRepository)
      → Balanced w.orders refunds
      → OrderStore.find_by_id o.id w.orders ≡ some o
      → Balanced
          (record (w.orders) {
            by_id = set o.id (with_total env o (refunded_of o) settled w) w.orders.by_id;
          })
          refunds
  unfolding OrderStore.find_by_id
  retotal-Balanced o settled w refunds b found = record {
    keyed = λ i q e. ground (arith, again i, str_eq_iff o.id i, b.keyed i q);
    refunds_keyed = b.refunds_keyed;
    balanced = λ i q e. ground (arith, again i, str_eq_iff o.id i, b.balanced i q, b.balanced i o);
    covered = λ i q e. ground (arith, again i, str_eq_iff o.id i, b.covered i q, b.covered i o);
  }
    where
      again :
          (i : String)
          → get i (set o.id (with_total env o (refunded_of o) settled w) w.orders.by_id) ≡ (
              if str_eq o.id i
              then some (with_total env o (refunded_of o) settled w)
              else get i w.orders.by_id)
      again i = get-set o.id i (with_total env o (refunded_of o) settled w) w.orders.by_id

  reserve_own-Books :
      (o : Order) (w : World)
      → Books w
      → OrderStore.find_by_id o.id w.orders ≡ some o
      → Books (reserve_refund env o (refunded_of o) true w).1
  reserve_own-Books o w b found =
      let (refunds, orders) = reserve_refund_writes o o (refunded_of o) true w found in
      elim orders [
        | inl same ↦ rw (refunds, same) b
        | inr written ↦ rw (refunds, written) (retotal-Balanced o true w w.refunds b found)
      ]

  -- The world with the result stored at the refund.
  abbrev result_stored : RefundCallbackResult → Refund → World → World
  result_stored r f w = record w { refunds = stored_result env r f w; tick = suc w.tick }

  apply_result_steps :
      (r : RefundCallbackResult) (f : Refund) (w : World)
      → (apply_result env r (some f) w ≡ (ok tt, w))
        ⊎ ((f.status ≡ RefundStatus.pending)
            × (apply_result env r (some f) w
                ≡ settle_or_release env r
                    (env.now w.tick)
                    f.amount
                    (OrderStore.find_by_id f.order_id w.orders)
                    (result_stored r f w)))
  unfolding apply_result
  apply_result_steps r f w = ground arith

  -- What settling or releasing comes to, with the order as found.
  settle_or_release_settled :
      (r : RefundCallbackResult) (now amount : ℕ) (o : Order) (w : World)
      → r.settled ≡ true
      → (settle_or_release env r now amount (some o) w).1
        ≡ (reserve_refund env o (refunded_of o) true w).1
  unfolding settle_or_release
  settle_or_release_settled r now amount o w t = ground arith

  settle_or_release_failed :
      (r : RefundCallbackResult) (f : Refund) (o : Order) (w : World)
      → r.settled ≡ false
      → OrderStore.find_by_id o.id w.orders ≡ some o
      → (settle_or_release env r (env.now w.tick) f.amount (some o) (result_stored r f w)).1
        ≡ record (result_stored r f w) {
          orders = record (w.orders) { by_id = set o.id (released env r f w o) w.orders.by_id };
        }
  unfolding settle_or_release
  settle_or_release_failed r f o w t found =
      ground (arith, update_known (released env r f w o) o w.orders found)

  module _ (r : RefundCallbackResult) (f : Refund) (w : World) (b : Books w)
      (h : get f.id w.refunds.by_id ≡ some f) (p : f.status ≡ RefundStatus.pending) where
    -- An order is found under its own id too.
    own :
        (o : Order)
        → OrderStore.find_by_id f.order_id w.orders ≡ some o
        → OrderStore.find_by_id o.id w.orders ≡ some o
    own o e = ap (λ i. OrderStore.find_by_id i w.orders) (b.keyed f.order_id o e) ∙ e

    found-Books :
        (o : Order)
        → OrderStore.find_by_id f.order_id w.orders ≡ some o
        → Books (settle_or_release env r (env.now w.tick) f.amount (some o) (result_stored r f w)).1
    found-Books o e = elim (Bool-cases r.settled) [
      | inl t ↦
          rw (settle_or_release_settled r (env.now w.tick) f.amount o (result_stored r f w) t) (
            reserve_own-Books o (result_stored r f w) (settled-Balanced env r f w b h p t)
              (own o e))
      | inr t ↦
          rw (settle_or_release_failed r f o w t (own o e))
            (released-Balanced env r f w o b h p t e)
    ]

    settle_or_release-Books :
        Books
          (settle_or_release env r
            (env.now w.tick)
            f.amount
            (OrderStore.find_by_id f.order_id w.orders)
            (result_stored r f w)).1
    unfolding settle_or_release
    settle_or_release-Books = elim (Option-cases (OrderStore.find_by_id f.order_id w.orders)) [
      | inl missing ↦ rw missing (orphan-Balanced env r f w b h missing)
      | inr (o, e) ↦ rw e (found-Books o e)
    ]

  apply_result-Books :
      (r : RefundCallbackResult) (f : Refund) (w : World)
      → Books w
      → get f.id w.refunds.by_id ≡ some f
      → Books (apply_result env r (some f) w).1
  apply_result-Books r f w b h = elim (apply_result_steps r f w) [
    | inl same ↦ rw same b
    | inr (p, next) ↦ rw next (settle_or_release-Books r f w b h p)
  ]

  apply_found-Books :
      (r : RefundCallbackResult) (fresh : Option Refund) (w : World)
      → Books w
      → RefundStore.find_by_out_refund_no r.out_refund_no w.refunds ≡ fresh
      → Books (apply_result env r fresh w).1
  unfolding apply_result
  apply_found-Books r none w b e = b
  apply_found-Books r (some f) w b e =
      apply_result-Books r f w b (found_stored r.out_refund_no f w b e)

  acknowledge-Books :
      (p : PaymentProvider) (r : RefundCallbackResult) (known : Option Refund) (w : World)
      → Books w
      → Books (acknowledge env p r known w).1
  unfolding acknowledge
  acknowledge-Books p r none w b = b
  acknowledge-Books p r (some f) w b =
      subst Books
        (sym (
          then_pure
            (apply_result env r (RefundStore.find_by_out_refund_no r.out_refund_no w.refunds))
            (p.callback_ack true) w))
        (apply_found-Books r _ w b refl)

  -- A refund notification keeps the books in order, whatever its outcome and however often it comes.
  pub handle_refund_result-Books :
      (method : PaymentMethod) (p : PaymentProvider) (r : RefundCallbackResult) (w : World)
      → Books w
      → Books (handle_refund_result env method p r w).1
  unfolding handle_refund_result
  handle_refund_result-Books method p r w b =
      mark_if_new_rule Books
        (λ is_new.
          if is_new
          then (find_refund r.out_refund_no >>= acknowledge env p r)
          else pure (p.callback_ack true))
        env (concat "rfcb:" (concat (method_text method) (concat ":" r.event_id))) w b
        (λ events.
          acknowledge-Books p r (RefundStore.find_by_out_refund_no r.out_refund_no w.refunds)
            (record w { events = events; tick = suc w.tick }) b)
