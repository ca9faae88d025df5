-- ===== src/Examples/SweepRuns.antt =====
-- One deposit's sweep.
use bianhao.Base.{
  All, length, ℕ, ◌+◌, ◌≡◌, ◌≢◌, refl, ◌⊎◌, true, false, String, some, none, [], ◌∷◌, ◌++◌, get,
  str_eq, arith, List, values, map,
}
use bianhao.Alerts.{AlertDeps, Balance, SweepAlertWatcher}
use bianhao.Alerts.Growing.{Guarded, counts_of, run_all, run_all-Guarded}
use bianhao.Storage.Sweeps.{SweepJobRepository}
use bianhao.Domain.{SweepJob, SweepStatus, ok}
use bianhao.Storage.Sweeps as SweepStore
use bianhao.Effects.{AuditAction}
use bianhao.Sweeps.Monad.{SweepPolicy, TronTreasury, Transfer, Sweeper}
use bianhao.Sweeps.Pipeline.{step, process_due}
use bianhao.Sweeps.Steps.{step_sends, step_sweeps}
use bianhao.Sweeps.Batch.{AllMove, process_due_moves}

abbrev queued : SweepJob
queued = record {
  id = "s1";
  order_id = "o1";
  deposit_index = 4;
  deposit_address = "D1";
  collection_address = "T1";
  amount_micro = 0;
  status = SweepStatus.pending;
  gas_tx_id = none;
  sweep_tx_id = none;
  attempts = 0;
  last_error = none;
  created_at = 0;
  updated_at = 0;
  next_attempt_at = 0;
}

abbrev sent_out : SweepJob
sent_out = record queued {
  status = SweepStatus.sweeping;
  amount_micro = 900;
  sweep_tx_id = some "x1";
}

abbrev policy : SweepPolicy
policy = record {
  collection_address = "T1";
  min_sweep_micro = 10;
  gas_topup_sun = 20;
  gas_min_sun = 5;
  max_attempts = 3;
  backoff_ms = 1000;
}

-- 900 lie at each address, with enough gas, and everything is confirmed.
abbrev funded : TronTreasury
funded = record {
  trc20_balance_micro = λ t a. ok 900;
  trx_balance_sun = λ t a. ok 50;
  fuel_gas = λ t a n. ok "g1";
  sweep_trc20 = λ t i a b n. ok "x1";
  is_confirmed = λ t x. ok true;
}

abbrev clock : ℕ → ℕ
clock t = 5000 + t

abbrev holding : SweepJob → Sweeper
holding j = record {
  job = j;
  jobs = record { by_id = ("s1", j) ∷ []; by_order_id = ("o1", "s1") ∷ [] };
  transfers = [];
  audit = [];
  tick = 0;
}

step_sends_example :
    let s' = (step clock policy funded (holding queued)).1 in
    (s'.transfers ≡ [])
    ⊎ ((queued.status ≡ SweepStatus.pending)
        × (s'.transfers ≡ [] ++ Transfer.gas "D1" 20 ∷ [])
        × ((step clock policy funded (holding queued)).0 ≡ ok tt
            → s'.job.status ≡ SweepStatus.gas_fueling))
    ⊎ (((queued.status ≡ SweepStatus.pending) ⊎ (queued.status ≡ SweepStatus.gas_fueling))
        × (s'.transfers ≡ [] ++ Transfer.collect 4 "D1" "T1" s'.job.amount_micro ∷ [])
        × ((step clock policy funded (holding queued)).0 ≡ ok tt
            → s'.job.status ≡ SweepStatus.sweeping))
step_sends_example = step_sends clock policy funded (holding queued)

step_sweeps_example :
    (sent_out.status ≡ SweepStatus.sweeping)
    × ((tx : String) × (sent_out.sweep_tx_id ≡ some tx) × (funded.is_confirmed 0 tx ≡ ok true))
    × ((step clock policy funded (holding sent_out)).1.audit
        ≡ [] ++ record { action = AuditAction.usdt_swept; subject = "o1" } ∷ [])
unfolding step str_eq get SweepStore.update
step_sweeps_example = step_sweeps clock policy funded (holding sent_out) (λ h. ground arith) refl

process_due_moves_example :
    let due = SweepStore.due 5000 10 (holding queued).jobs in
    let s' = (process_due clock policy funded 10 (holding queued)).1 in
    ((process_due clock policy funded 10 (holding queued)).0 ≡ ok (length due))
    × AllMove clock policy funded due s'.jobs
    × ((id : String)
        → All (λ (j : SweepJob). id ≢ j.id) due
        → SweepStore.find_by_id id s'.jobs ≡ SweepStore.find_by_id id (holding queued).jobs)
unfolding get
process_due_moves_example =
    process_due_moves clock policy funded 10 (holding queued) ((refl, tt), (refl, tt))

-- One stuck job, then the same and a second one.
abbrev stuck_jobs : List String → SweepJobRepository
stuck_jobs ids = record {
  by_id = map (λ id. (id, record queued { id = id; status = SweepStatus.failed })) ids;
  by_order_id = [];
}

abbrev alert_deps : AlertDeps
alert_deps = record {
  fee_threshold_sun = 100;
  fee_balance_sun = some (λ tick. Balance.sun 0);
  alert_sink = λ tick alert. true;
}

abbrev quiet : SweepAlertWatcher
quiet = record { last_alerted_failed_count = 0; fee_low_alerted = false; alerts = []; tick = 0 }

abbrev three_passes : List SweepJobRepository
three_passes = stuck_jobs ("a" ∷ []) ∷ stuck_jobs ("a" ∷ []) ∷ stuck_jobs ("a" ∷ "b" ∷ []) ∷ []

run_all-Guarded_example : Guarded (run_all alert_deps three_passes quiet)
unfolding values counts_of
run_all-Guarded_example =
    run_all-Guarded alert_deps three_passes quiet (omega arith, (omega arith, (omega arith, tt)))
      (omega arith)

-- The second pass says nothing new.
alerted_counts :
    counts_of (SweepAlertWatcher.alerts (run_all alert_deps three_passes quiet)) ≡ 1 ∷ 2 ∷ []
unfolding run_all values counts_of
alerted_counts = refl
