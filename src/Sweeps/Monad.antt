-- ===== src/Sweeps/Monad.antt =====
-- The state of SweepService while it works on a job, and its dependencies (services/sweepService.ts,
-- providers/usdt/tronTreasury.ts).
use bianhao.Base.{ℕ, suc, Bool, String, List, [], ◌∷◌, ◌++◌}
use bianhao.Domain.{SweepJob, Error, Result, ok, err}
use bianhao.Storage.Sweeps as SweepStore
use bianhao.Storage.Sweeps.{SweepJobRepository}
use bianhao.Effects.{AuditEntry, AuditAction}

pub record SweepPolicy : Type 0 where
  pub collection_address : String
  pub min_sweep_micro : ℕ
  pub gas_topup_sun : ℕ
  pub gas_min_sun : ℕ
  pub max_attempts : ℕ
  pub backoff_ms : ℕ

-- The chain, as the interface TronTreasury shows it. The first argument is the tick at which it is
-- asked.
pub record TronTreasury : Type 0 where
  pub trc20_balance_micro : ℕ → String → Result ℕ
  pub trx_balance_sun : ℕ → String → Result ℕ
  pub fuel_gas : ℕ → String → ℕ → Result String
  pub sweep_trc20 : ℕ → ℕ → String → String → ℕ → Result String
  pub is_confirmed : ℕ → String → Result Bool

-- The calls that move money, with their arguments.
pub data Transfer : Type 0 where
  gas : String → ℕ → Transfer
  collect : ℕ → String → String → ℕ → Transfer

-- `job` is the object that the service holds and mutates; the store has clones.
pub record Sweeper : Type 0 where
  pub job : SweepJob
  pub jobs : SweepJobRepository
  pub transfers : List Transfer
  pub audit : List AuditEntry
  pub tick : ℕ

abbrev pub Task : Type 0 → Type 0
Task A = Sweeper → Result A × Sweeper

module _ {A : Type 0} where
  abbrev pub pure : A → Task A
  pure a s = (ok a, s)

  abbrev pub gets : (Sweeper → A) → Task A
  gets f s = (ok (f s), s)

  abbrev pub read : (ℕ → A) → Task A
  read f s = (ok (f s.tick), record s { tick = suc s.tick })

  -- A question to the chain.
  abbrev pub ask : (ℕ → Result A) → Task A
  ask f s = (f s.tick, record s { tick = suc s.tick })

  -- A call that moves money: it is sent, whatever the answer.
  abbrev pub send : Transfer → (ℕ → Result A) → Task A
  send t f s = (f s.tick, record s { tick = suc s.tick; transfers = s.transfers ++ t ∷ [] })

infixl 5 ◌>>=◌ ◌>>◌
abbrev pub ◌>>=◌ : {A B : Type 0} → Task A → (A → Task B) → Task B
◌>>=◌ m f s = let (r, s') = m s in elim r [ ok a ↦ f a s' | err e ↦ (err e, s') ]

abbrev pub ◌>>◌ : {A B : Type 0} → Task A → Task B → Task B
m >> k = m >>= λ _. k

-- `try { m } catch (e) { handler(e) }`
abbrev pub catch : {A : Type 0} → Task A → (Error → Task A) → Task A
catch m handler s = let (r, s') = m s in elim r [ ok a ↦ (ok a, s') | err e ↦ handler e s' ]

-- `Object.assign(job, ...)`
abbrev pub assign : (SweepJob → SweepJob) → Task (Unit {0})
assign f s = (ok tt, record s { job = f s.job })

abbrev put_jobs : Sweeper → Result SweepJobRepository → Result (Unit {0}) × Sweeper
put_jobs s (ok r) = (ok tt, record s { jobs = r })
put_jobs s (err e) = (err e, s)

-- `this.deps.jobs.update(job)`
abbrev pub save : Task (Unit {0})
save s = put_jobs s (SweepStore.update s.job s.jobs)

abbrev pub record_audit : AuditAction → String → Task (Unit {0})
record_audit action subject s =
    (ok tt, record s { audit = s.audit ++ record { action = action; subject = subject } ∷ [] })
