-- ===== src/Sweeps/Pipeline.antt =====
-- services/sweepService.ts: SweepService, but for `enqueue`, which Payments/Deposits.antt has.
use bianhao.Base.{
  ℕ, ◌+◌, ◌*◌, Bool, true, false, String, Option, none, some, List, [], ◌∷◌, length, ltb, leb,
  if◌then◌else◌, truthy,
}
use bianhao.Domain.{SweepJob, SweepStatus, Error}
use bianhao.Storage.Sweeps as SweepStore
use bianhao.Effects.{AuditAction}
use bianhao.Sweeps.Monad.{
  SweepPolicy, TronTreasury, Transfer, Task, pure, gets, read, ask, send, ◌>>=◌, ◌>>◌, catch,
  assign, save, record_audit,
}

module _ (now : ℕ → ℕ) (policy : SweepPolicy) (treasury : TronTreasury) where
  -- `advance`; `patch` is what the caller adds.
  unfoldable pub advance : SweepStatus → (SweepJob → SweepJob) → Task (Unit {0})
  advance status patch = do
    at ← read now
    assign (λ j. record (patch j) {
      status = status;
      attempts = 0;
      last_error = none;
      updated_at = at;
      next_attempt_at = at + policy.backoff_ms;
    })
    save

  unfoldable pub defer : Task (Unit {0})
  defer = do
    at ← read now
    assign (λ j. record j { updated_at = at; next_attempt_at = at + policy.backoff_ms })
    save

  unfoldable pub finish : SweepStatus → (SweepJob → SweepJob) → Task (Unit {0})
  finish status patch = do
    at ← read now
    assign (λ j. record (patch j) { status = status; updated_at = at; next_attempt_at = at })
    save

  -- The transfer out of the deposit address.
  collect_from : SweepJob → ℕ → Task String
  collect_from j amount =
      send (Transfer.collect j.deposit_index j.deposit_address j.collection_address amount)
        (λ t. treasury.sweep_trc20 t j.deposit_index j.deposit_address j.collection_address amount)

  fuel : SweepJob → ℕ → Task (Unit {0})
  unfolding advance
  fuel j balance = do
    tx ←
        send (Transfer.gas j.deposit_address policy.gas_topup_sun)
          (λ t. treasury.fuel_gas t j.deposit_address policy.gas_topup_sun)
    advance SweepStatus.gas_fueling (λ k. record k { gas_tx_id = some tx; amount_micro = balance })

  collect_now : SweepJob → ℕ → Task (Unit {0})
  unfolding advance collect_from
  collect_now j balance = do
    tx ← collect_from j balance
    advance SweepStatus.sweeping (λ k. record k { sweep_tx_id = some tx; amount_micro = balance })

  fuel_or_collect : SweepJob → ℕ → Task (Unit {0})
  unfolding fuel collect_now
  fuel_or_collect j balance = do
    assign (λ k. record k { amount_micro = balance })
    trx ← ask (λ t. treasury.trx_balance_sun t j.deposit_address)
    if ltb trx policy.gas_min_sun then fuel j balance else collect_now j balance

  unfoldable pub step_pending : SweepJob → Task (Unit {0})
  unfolding finish fuel_or_collect
  step_pending j = do
    balance ← ask (λ t. treasury.trc20_balance_micro t j.deposit_address)
    if ltb balance policy.min_sweep_micro
        then finish SweepStatus.empty (λ k. record k { amount_micro = balance })
        else fuel_or_collect j balance

  -- `!txId || !(await isConfirmed(txId))`, negated.
  confirmed : Option String → Task Bool
  confirmed none = pure false
  confirmed (some tx) = ask (λ t. treasury.is_confirmed t tx)

  collect_fueled : SweepJob → Task (Unit {0})
  unfolding advance collect_from
  collect_fueled j = do
    tx ← collect_from j j.amount_micro
    advance SweepStatus.sweeping (λ k. record k { sweep_tx_id = some tx })

  unfoldable pub step_gas_fueling : SweepJob → Task (Unit {0})
  unfolding confirmed defer collect_fueled
  step_gas_fueling j = do
    there ← confirmed (truthy j.gas_tx_id)
    if there then collect_fueled j else defer

  close : SweepJob → Task (Unit {0})
  unfolding finish
  close j = do record_audit AuditAction.usdt_swept j.order_id; finish SweepStatus.swept (λ k. k)

  unfoldable pub step_sweeping : SweepJob → Task (Unit {0})
  unfolding confirmed defer close
  step_sweeping j = do there ← confirmed (truthy j.sweep_tx_id); if there then close j else defer

  by_status : SweepStatus → SweepJob → Task (Unit {0})
  unfolding step_pending step_gas_fueling step_sweeping
  by_status SweepStatus.pending j = step_pending j
  by_status SweepStatus.gas_fueling j = step_gas_fueling j
  by_status SweepStatus.sweeping j = step_sweeping j
  by_status _ j = pure tt

  -- `step` on the job in hand.
  unfoldable pub step : Task (Unit {0})
  unfolding by_status
  step s = by_status s.job.status s.job s

  -- The job after an error: FAILED where the attempts are used up, and otherwise due later.
  unfoldable pub failed_attempt : Error → ℕ → SweepJob → SweepJob
  failed_attempt e at j =
      let attempts = j.attempts + 1 in
      if leb policy.max_attempts attempts
      then record j {
        attempts = attempts;
        last_error = some e;
        updated_at = at;
        status = SweepStatus.failed;
        next_attempt_at = at;
      }
      else record j {
        attempts = attempts;
        last_error = some e;
        updated_at = at;
        next_attempt_at = at + policy.backoff_ms * attempts;
      }

  unfoldable pub on_error : Error → Task (Unit {0})
  unfolding failed_attempt
  on_error e = do at ← read now; assign (failed_attempt e at); save

  -- One round of the loop of `processDue`, and the loop.
  unfoldable pub process_job : SweepJob → Task (Unit {0})
  unfolding step on_error
  process_job j = assign (λ _. j) >> catch step on_error

  unfoldable pub process_jobs : List SweepJob → Task (Unit {0})
  unfolding process_job
  process_jobs [] = pure tt
  process_jobs (j ∷ js) = process_job j >> process_jobs js

  unfoldable pub process_due : ℕ → Task ℕ
  unfolding process_jobs
  process_due limit = do
    at ← read now
    due ← gets (λ s. SweepStore.due at limit s.jobs)
    process_jobs due
    pure (length due)

  requeue : SweepJob → Task Bool
  requeue j = do
    at ← read now
    assign (λ _. record j {
      status = SweepStatus.pending;
      attempts = 0;
      last_error = none;
      updated_at = at;
      next_attempt_at = at;
    })
    save
    pure true

  retry_found : Option SweepJob → Task Bool
  unfolding requeue
  retry_found none = pure false
  retry_found (some j) = elim j.status as (λ _. Task Bool) [
    | SweepStatus.failed ↦ requeue j
    | _ ↦ pure false
  ]

  -- `retry`: whether there was a FAILED job to requeue.
  unfoldable pub retry : String → Task Bool
  unfolding retry_found
  retry order_id = gets (λ s. SweepStore.find_by_order_id order_id s.jobs) >>= retry_found
