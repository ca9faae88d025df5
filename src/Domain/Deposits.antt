-- ===== src/Domain/Deposits.antt =====
-- domain/deposit.ts
use bianhao.Base.{ℕ, Bool, true, false, String, Option}
use bianhao.Domain.Errors.{Error}

pub record DepositAddress : Type 0 where
  pub index : ℕ
  pub address : String
  pub order_id : String
  pub created_at : ℕ

pub data SweepStatus : Type 0 where
  pending gas_fueling sweeping swept empty failed : SweepStatus

abbrev pub is_sweep_terminal : SweepStatus → Bool
is_sweep_terminal SweepStatus.swept = true
is_sweep_terminal SweepStatus.empty = true
is_sweep_terminal SweepStatus.failed = true
is_sweep_terminal _ = false

pub record SweepJob : Type 0 where
  pub id : String
  pub order_id : String
  pub deposit_index : ℕ
  pub deposit_address : String
  pub collection_address : String
  pub amount_micro : ℕ
  pub status : SweepStatus
  pub gas_tx_id : Option String
  pub sweep_tx_id : Option String
  pub attempts : ℕ
  pub last_error : Option Error
  pub created_at : ℕ
  pub updated_at : ℕ
  pub next_attempt_at : ℕ
