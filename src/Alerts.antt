-- ===== src/Alerts.antt =====
-- alerting/sweepAlerts.ts: alerts about failed sweeps and a low fee wallet. An alert keeps the numbers
-- that its text prints.
use bianhao.Base.{
  ℕ, suc, ◌+◌, ◌-◌, Bool, true, false, String, Option, none, some, List, [], ◌∷◌, ◌++◌, length, map,
  filter, take, ltb, leb, ◌==◌, if◌then◌else◌, get_or, values,
}
use bianhao.Domain.{Error, SweepJob, SweepStatus}
use bianhao.Storage.Sweeps.{SweepJobRepository}
pub mod Growing

pub data Severity : Type 0 where
  info warning critical : Severity

-- Of each job listed there are the order, the address and the error, if any; `more` is how many are
-- not.
pub data Alert : Type 0 where
  failed_sweeps :
      (count total_micro : ℕ) (listed : List (String × String × Option Error)) (more : ℕ) → Alert
  fee_wallet_low : Severity → (balance_sun threshold_sun : ℕ) → Alert

-- MAX_DETAIL_LINES
abbrev pub max_detail_lines : ℕ
max_detail_lines = 50

unfoldable pub total_micro : List SweepJob → ℕ
total_micro [] = 0
total_micro (job ∷ jobs) = job.amount_micro + total_micro jobs

unfoldable pub format_failed_sweeps_alert : List SweepJob → Option Alert
unfolding total_micro
format_failed_sweeps_alert [] = none
format_failed_sweeps_alert (job ∷ jobs) = some (
    Alert.failed_sweeps (length (job ∷ jobs)) (total_micro (job ∷ jobs))
      (map (λ j. (j.order_id, j.deposit_address, j.last_error))
        (take max_detail_lines (job ∷ jobs)))
      (length (job ∷ jobs) - max_detail_lines))

unfoldable pub format_fee_wallet_low_alert : ℕ → ℕ → Option Alert
format_fee_wallet_low_alert balance_sun threshold_sun =
    if leb threshold_sun balance_sun
    then none
    else some (
        Alert.fee_wallet_low (if balance_sun == 0 then Severity.critical else Severity.warning)
          balance_sun threshold_sun)

-- What the probe of the balance answers.
pub data Balance : Type 0 where
  rejected unknown : Balance
  sun : ℕ → Balance

-- The probe, where there is one, and the sink are asked at a tick; the sink answers false where it
-- throws.
pub record AlertDeps : Type 0 where
  pub fee_threshold_sun : ℕ
  pub fee_balance_sun : Option (ℕ → Balance)
  pub alert_sink : ℕ → Alert → Bool

-- The guard fields, the alerts that went out, and the count of questions to the outside.
pub record SweepAlertWatcher : Type 0 where
  pub last_alerted_failed_count : ℕ
  pub fee_low_alerted : Bool
  pub alerts : List Alert
  pub tick : ℕ

-- `alertSink(alert)`: whether it went out, and the watcher afterwards.
unfoldable pub sent : AlertDeps → Alert → SweepAlertWatcher → Bool × SweepAlertWatcher
sent deps alert w =
    let asked = record w { tick = suc (SweepAlertWatcher.tick w) } in
    if AlertDeps.alert_sink deps (SweepAlertWatcher.tick w) alert
    then (true, record asked { alerts = SweepAlertWatcher.alerts asked ++ alert ∷ [] })
    else (false, asked)

abbrev pub is_failed : SweepStatus → Bool
is_failed SweepStatus.failed = true
is_failed _ = false

unfoldable pub alert_if : AlertDeps → Option Alert → SweepAlertWatcher → Bool × SweepAlertWatcher
unfolding sent
alert_if deps none w = (true, w)
alert_if deps (some alert) w = sent deps alert w

-- The answer is false where the sink throws, which leaves the count alone.
unfoldable pub check_failed :
    AlertDeps → List SweepJob → SweepAlertWatcher → Bool × SweepAlertWatcher
unfolding alert_if format_failed_sweeps_alert
check_failed deps failed w =
    let (out, told) = alert_if deps (format_failed_sweeps_alert failed) w in
    if length failed == 0
    then (true, record w { last_alerted_failed_count = 0 })
    else if leb (length failed) (SweepAlertWatcher.last_alerted_failed_count w)
    then (true, w)
    else if out
    then (true, record told { last_alerted_failed_count = length failed })
    else (false, told)

unfoldable pub check_failed_sweeps :
    AlertDeps → SweepJobRepository → SweepAlertWatcher → Bool × SweepAlertWatcher
unfolding check_failed
check_failed_sweeps deps jobs w =
    check_failed deps (filter (λ j. is_failed j.status) (values (SweepJobRepository.by_id jobs))) w

-- From the alert about the balance on.
unfoldable pub tell_low : AlertDeps → Option Alert → SweepAlertWatcher → Bool × SweepAlertWatcher
unfolding sent
tell_low deps none w = (true, record w { fee_low_alerted = false })
tell_low deps (some alert) w =
    let (out, told) = sent deps alert w in
    if SweepAlertWatcher.fee_low_alerted w
    then (true, w)
    else if out
    then (true, record told { fee_low_alerted = true })
    else (false, told)

unfoldable pub check_balance : AlertDeps → Balance → SweepAlertWatcher → Bool × SweepAlertWatcher
unfolding tell_low format_fee_wallet_low_alert
check_balance deps Balance.rejected w = (true, w)
check_balance deps Balance.unknown w = (true, w)
check_balance deps (Balance.sun n) w =
    tell_low deps (format_fee_wallet_low_alert n (AlertDeps.fee_threshold_sun deps)) w

-- Without a probe there is nothing to check.
unfoldable pub check_probe :
    AlertDeps → Option (ℕ → Balance) → SweepAlertWatcher → Bool × SweepAlertWatcher
unfolding check_balance
check_probe deps none w = (true, w)
check_probe deps (some probe) w =
    check_balance deps (probe (SweepAlertWatcher.tick w))
      (record w { tick = suc (SweepAlertWatcher.tick w) })

unfoldable pub check_fee_wallet : AlertDeps → SweepAlertWatcher → Bool × SweepAlertWatcher
unfolding check_probe
check_fee_wallet deps w = check_probe deps (AlertDeps.fee_balance_sun deps) w

-- Where the first check throws, the second is left out; nothing is thrown on.
unfoldable pub run_once : AlertDeps → SweepJobRepository → SweepAlertWatcher → SweepAlertWatcher
unfolding check_failed_sweeps check_fee_wallet
run_once deps jobs w =
    let (out, checked) = check_failed_sweeps deps jobs w in
    let after = (check_fee_wallet deps checked).1 in if out then after else checked
