-- ===== src/Sweeps/Steps.antt =====
-- What a single step of a sweep may do: where its job moves, and what money it sends
-- (services/sweepService.ts).
use bianhao.Base.{
  ℕ, ◌+◌, ◌≤◌, ◌≡◌, refl, ◌≢◌, ◌⊎◌, inl, inr, true, false, String, some, [], ◌∷◌, ◌++◌, arith, set,
  get-set, get-set_self, str_eq_iff, ◌∙◌, subst, sym,
}
use bianhao.Domain.{SweepJob, SweepStatus, is_sweep_terminal, ok}
use bianhao.Storage.Sweeps as SweepStore
use bianhao.Effects.{AuditAction}
use bianhao.Sweeps.Monad.{SweepPolicy, TronTreasury, Transfer, Sweeper}
use bianhao.Sweeps.Pipeline.{step, process_job, on_error, failed_attempt}

-- The moves that a step can make: those that the comment on SweepStatus draws, without the ones to
-- FAILED, and PENDING to SWEEPING, which it does not draw, where the address has its gas.
infix 4 ◌↝◌
pub data ◌↝◌ : SweepStatus → SweepStatus → Type 0 where
  nothing_there : SweepStatus.pending ↝ SweepStatus.empty
  fuels : SweepStatus.pending ↝ SweepStatus.gas_fueling
  collects : SweepStatus.pending ↝ SweepStatus.sweeping
  fueled : SweepStatus.gas_fueling ↝ SweepStatus.sweeping
  collected : SweepStatus.sweeping ↝ SweepStatus.swept

along : {x y a b : SweepStatus} → x ≡ a → y ≡ b → a ↝ b → x ↝ y
along {x} {y} {a} {b} e f m = subst (λ v. v ↝ y) (sym e) (subst (λ v. a ↝ v) (sym f) m)

module _ (now : ℕ → ℕ) (policy : SweepPolicy) (treasury : TronTreasury) (s : Sweeper) where
  abbrev after : Sweeper
  after = (step now policy treasury s).1

  moved :
      (after.job.status ≡ s.job.status)
      ⊎ ((s.job.status ≡ SweepStatus.pending) × (after.job.status ≡ SweepStatus.empty))
      ⊎ ((s.job.status ≡ SweepStatus.pending) × (after.job.status ≡ SweepStatus.gas_fueling))
      ⊎ ((s.job.status ≡ SweepStatus.pending) × (after.job.status ≡ SweepStatus.sweeping))
      ⊎ ((s.job.status ≡ SweepStatus.gas_fueling) × (after.job.status ≡ SweepStatus.sweeping))
      ⊎ ((s.job.status ≡ SweepStatus.sweeping) × (after.job.status ≡ SweepStatus.swept))
  unfolding step
  moved = ground arith

  -- A step leaves its job's status as it is, or makes one move of the pipeline, whether or not it
  -- ends in an error.
  pub step_moves : (after.job.status ≡ s.job.status) ⊎ (s.job.status ↝ after.job.status)
  step_moves = elim moved [
    | inl same ↦ inl same
    | inr (inl (a, b)) ↦ inr (along a b nothing_there)
    | inr (inr (inl (a, b))) ↦ inr (along a b fuels)
    | inr (inr (inr (inl (a, b)))) ↦ inr (along a b collects)
    | inr (inr (inr (inr (inl (a, b))))) ↦ inr (along a b fueled)
    | inr (inr (inr (inr (inr (a, b))))) ↦ inr (along a b collected)
  ]

  abbrev deposit : ℕ → Transfer
  deposit amount =
      Transfer.collect s.job.deposit_index s.job.deposit_address s.job.collection_address amount

  abbrev Sent : Transfer → Type 0
  Sent t = after.transfers ≡ s.transfers ++ t ∷ []

  -- A step sends gas from PENDING alone, and a deposit from PENDING or GAS_FUELING alone, to the
  -- job's collection address and never both; where it sends a deposit and does not fail, the job is
  -- SWEEPING, from where no step sends anything.
  pub step_sends :
      (after.transfers ≡ s.transfers)
      ⊎ ((s.job.status ≡ SweepStatus.pending)
          × Sent (Transfer.gas s.job.deposit_address policy.gas_topup_sun)
          × ((step now policy treasury s).0 ≡ ok tt → after.job.status ≡ SweepStatus.gas_fueling))
      ⊎ (((s.job.status ≡ SweepStatus.pending) ⊎ (s.job.status ≡ SweepStatus.gas_fueling))
          × Sent (deposit after.job.amount_micro)
          × ((step now policy treasury s).0 ≡ ok tt → after.job.status ≡ SweepStatus.sweeping))
  unfolding step
  step_sends = ground arith

  -- A job becomes SWEPT only from SWEEPING, where its transfer is confirmed, and the audit log has it.
  pub step_sweeps :
      s.job.status ≢ SweepStatus.swept
      → after.job.status ≡ SweepStatus.swept
      → (s.job.status ≡ SweepStatus.sweeping)
        × ((tx : String) × (s.job.sweep_tx_id ≡ some tx)
            × (treasury.is_confirmed s.tick tx ≡ ok true))
        × (after.audit
            ≡ s.audit ++ record { action = AuditAction.usdt_swept; subject = s.job.order_id } ∷ [])
  unfolding step
  step_sweeps before swept = ground arith

module _ (now : ℕ → ℕ) (policy : SweepPolicy) (treasury : TronTreasury) (j : SweepJob) (s : Sweeper)
    (stored : SweepStore.find_by_id j.id s.jobs ≡ some j) where
  abbrev processed : Sweeper
  processed = (process_job now policy treasury j s).1

  abbrev tried : Sweeper
  tried = (step now policy treasury (record s { job = j })).1

  process_job_answers : (process_job now policy treasury j s).0 ≡ ok tt
  unfolding process_job step SweepStore.update SweepStore.find_by_id failed_attempt on_error
  process_job_answers = ground arith

  process_job_status :
      (processed.job.status ≡ tried.job.status)
      ⊎ ((processed.job.status ≡ SweepStatus.failed)
          × (policy.max_attempts ≤ j.attempts + 1)
          × (is_sweep_terminal j.status ≡ false))
  unfolding process_job step SweepStore.update SweepStore.find_by_id failed_attempt on_error
  process_job_status = ground arith

  process_job_stores :
      (processed.jobs ≡ s.jobs × processed.job ≡ j)
      ⊎ (processed.jobs ≡ record (s.jobs) { by_id = set j.id processed.job s.jobs.by_id })
  unfolding process_job step SweepStore.update SweepStore.find_by_id failed_attempt on_error
  process_job_stores = ground arith

  pub process_job_result :
      ((process_job now policy treasury j s).0 ≡ ok tt)
      × (SweepStore.find_by_id j.id processed.jobs ≡ some processed.job)
      × ((id : String)
          → id ≢ j.id
          → SweepStore.find_by_id id processed.jobs ≡ SweepStore.find_by_id id s.jobs)
      × ((processed.job.status ≡ j.status)
          ⊎ (j.status ↝ processed.job.status)
          ⊎ ((processed.job.status ≡ SweepStatus.failed)
              × (policy.max_attempts ≤ j.attempts + 1)
              × (is_sweep_terminal j.status ≡ false)))
  unfolding SweepStore.find_by_id
  process_job_result = (process_job_answers, found, others, status)
    where
      found : SweepStore.find_by_id j.id processed.jobs ≡ some processed.job
      found = ground (arith, process_job_stores, get-set_self j.id processed.job s.jobs.by_id)

      others :
          (id : String)
          → id ≢ j.id
          → SweepStore.find_by_id id processed.jobs ≡ SweepStore.find_by_id id s.jobs
      others id differ = ground (
        arith,
        process_job_stores,
        get-set j.id id processed.job s.jobs.by_id,
        str_eq_iff j.id id,
      )

      status :
          (processed.job.status ≡ j.status)
          ⊎ (j.status ↝ processed.job.status)
          ⊎ ((processed.job.status ≡ SweepStatus.failed)
              × (policy.max_attempts ≤ j.attempts + 1)
              × (is_sweep_terminal j.status ≡ false))
      status = elim process_job_status [
        | inl same ↦ elim (step_moves now policy treasury (record s { job = j })) [
          | inl still ↦ inl (same ∙ still)
          | inr move ↦ inr (inl (along refl same move))
        ]
        | inr gave_up ↦ inr (inr gave_up)
      ]
