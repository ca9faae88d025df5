-- ===== src/Sweeps/Batch.antt =====
-- A whole run of `processDue` (services/sweepService.ts).
use bianhao.Base.{
  All-take, All-filter, ℕ, suc, ◌+◌, ◌≤◌, ◌≡◌, ◌≢◌, refl, sym, ◌∙◌, subst, ◌⊎◌, Bool, false, String,
  some, List, [], ◌∷◌, length, take, filter, All, arith, get, values, sort_by, sort_by-All, leb,
}
use bianhao.Domain.{SweepJob, SweepStatus, is_sweep_terminal, Result, ok}
use bianhao.Storage.Sweeps as SweepStore
use bianhao.Storage.Sweeps.{is_due}
use bianhao.Sweeps.Monad.{Task, pure, ◌>>◌, SweepPolicy, TronTreasury, Sweeper}
use bianhao.Sweeps.Pipeline.{process_job, process_jobs, process_due}
use bianhao.Sweeps.Steps.{◌↝◌, process_job_result}
use bianhao.Sweeps.Apart.{
  Other, Apart, WellStored, Apart-take, Apart-filter, sort_by-Apart, values-Apart, values-Stored,
}

-- What one round may make of a job.
abbrev pub Moves : SweepPolicy → SweepJob → SweepJob → Type 0
Moves policy j j' =
    (j'.status ≡ j.status)
    ⊎ (j.status ↝ j'.status)
    ⊎ ((j'.status ≡ SweepStatus.failed)
        × (policy.max_attempts ≤ j.attempts + 1)
        × (is_sweep_terminal j.status ≡ false))

abbrev Stored : SweepStore.SweepJobRepository → List SweepJob → Type 0
Stored jobs js = All (λ j. SweepStore.find_by_id j.id jobs ≡ some j) js

module _ (now : ℕ → ℕ) (policy : SweepPolicy) (treasury : TronTreasury) where
  -- The jobs are there afterwards, each at most one move further.
  abbrev pub AllMove : List SweepJob → SweepStore.SweepJobRepository → Type 0
  AllMove js jobs =
      All (λ j. (j' : SweepJob) × (SweepStore.find_by_id j.id jobs ≡ some j') × Moves policy j j')
        js

  abbrev Outcome : List SweepJob → Sweeper → Result (Unit {0}) × Sweeper → Type 0
  Outcome js s (r, s') =
      (r ≡ ok tt)
      × AllMove js s'.jobs
      × ((id : String)
          → All (λ j. id ≢ j.id) js
          → SweepStore.find_by_id id s'.jobs ≡ SweepStore.find_by_id id s.jobs)

  still-Stored :
      (j : SweepJob) (js : List SweepJob) (s s' : Sweeper)
      → ((id : String)
          → id ≢ j.id
          → SweepStore.find_by_id id s'.jobs ≡ SweepStore.find_by_id id s.jobs)
      → All (Other j) js
      → Stored s.jobs js
      → Stored s'.jobs js
  still-Stored j [] s s' frame apart stored = tt
  still-Stored j (k ∷ js) s s' frame apart stored =
      (frame k.id apart.0 ∙ stored.0, still-Stored j js s s' frame apart.1 stored.1)

  flip : (j : SweepJob) (js : List SweepJob) → All (Other j) js → All (λ k. j.id ≢ k.id) js
  flip j [] h = tt
  flip j (k ∷ js) h = ((λ e. h.0 (sym e)), flip j js h.1)

  process_jobs_step :
      (j : SweepJob) (js : List SweepJob) (s : Sweeper)
      → (process_job now policy treasury j s).0 ≡ ok tt
      → process_jobs now policy treasury (j ∷ js) s
        ≡ process_jobs now policy treasury js (process_job now policy treasury j s).1
  unfolding process_jobs
  process_jobs_step j js s answered = ground (arith, answered)

  -- From the round on one job, and the rest of the run, to the run.
  first_and_rest :
      (j : SweepJob) (js : List SweepJob) (s s' : Sweeper) (r : Result (Unit {0}) × Sweeper)
      → ((j' : SweepJob) × (SweepStore.find_by_id j.id s'.jobs ≡ some j') × Moves policy j j')
      → ((id : String)
          → id ≢ j.id
          → SweepStore.find_by_id id s'.jobs ≡ SweepStore.find_by_id id s.jobs)
      → All (Other j) js
      → Outcome js s' r
      → Outcome (j ∷ js) s r
  first_and_rest j js s s' r (j', found, moves) frame apart (answered, rest, same) = (
    answered,
    ((j', same j.id (flip j js apart) ∙ found, moves), rest),
    λ id h. same id h.1 ∙ frame id h.0,
  )

  process_jobs-Outcome :
      (js : List SweepJob) (s : Sweeper)
      → Apart js
      → Stored s.jobs js
      → Outcome js s (process_jobs now policy treasury js s)
  process_jobs-Outcome [] s apart stored = unfold process_jobs in (refl, tt, λ id h. refl)
  process_jobs-Outcome (j ∷ js) s apart stored =
      let s' = (process_job now policy treasury j s).1 in
      let (answered, found, frame, moves) = process_job_result now policy treasury j s stored.0 in
      subst (Outcome (j ∷ js) s) (sym (process_jobs_step j js s answered)) (
        first_and_rest j js s s' (process_jobs now policy treasury js s') (s'.job, found, moves)
          frame apart.0
          (process_jobs-Outcome js s' apart.1 (still-Stored j js s s' frame apart.0 stored.1)))

then_pure :
    {B : Type 0} (m : Task (Unit {0})) (b : B) (s : Sweeper)
    → (m s).0 ≡ ok tt
    → (m >> pure b) s ≡ (ok b, (m s).1)
then_pure m b s h = ground arith

-- A run never fails and says how many jobs were due; each of them is still stored, at most one move
-- further, and every other job is as it was.
pub process_due_moves :
    (now : ℕ → ℕ) (policy : SweepPolicy) (treasury : TronTreasury) (limit : ℕ) (s : Sweeper)
    → WellStored s.jobs.by_id
    → let due = SweepStore.due (now s.tick) limit s.jobs in
      let s' = (process_due now policy treasury limit s).1 in
      ((process_due now policy treasury limit s).0 ≡ ok (length due))
      × AllMove now policy treasury due s'.jobs
      × ((id : String)
          → All (λ (j : SweepJob). id ≢ j.id) due
          → SweepStore.find_by_id id s'.jobs ≡ SweepStore.find_by_id id s.jobs)
unfolding process_due SweepStore.due SweepStore.find_by_id
process_due_moves now policy treasury limit s stored =
    let jobs = values s.jobs.by_id in
    let earlier : SweepJob → SweepJob → Bool = λ a b. leb a.created_at b.created_at in
    let waiting = filter (is_due (now s.tick)) jobs in
    let found = λ (j : SweepJob). get j.id s.jobs.by_id ≡ some j in
    let due = take limit (sort_by earlier waiting) in
    let s' = record s { tick = suc s.tick } in
    let (answered, moves, frame) =
      process_jobs-Outcome now policy treasury due s'
        (Apart-take limit (sort_by earlier waiting) (
          sort_by-Apart earlier waiting
            (Apart-filter (is_due (now s.tick)) jobs (values-Apart s.jobs.by_id stored))))
        (All-take found limit (sort_by earlier waiting) (
          sort_by-All found earlier waiting
            (All-filter found (is_due (now s.tick)) jobs (values-Stored s.jobs.by_id stored)))) in
    let run = process_jobs now policy treasury due in
    subst
      (λ (x : Result ℕ × Sweeper).
        (x.0 ≡ ok (length due))
        × AllMove now policy treasury due x.1.jobs
        × ((id : String)
            → All (λ (j : SweepJob). id ≢ j.id) due
            → SweepStore.find_by_id id x.1.jobs ≡ SweepStore.find_by_id id s.jobs))
      (sym (then_pure run (length due) s' answered)) (refl, moves, frame)
