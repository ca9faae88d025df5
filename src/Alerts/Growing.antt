-- ===== src/Alerts/Growing.antt =====
-- The guards of the alerts (alerting/sweepAlerts.ts): an alert is repeated only when things got worse.
use bianhao.Base.{
  ℕ, suc, ◌≤◌, ◌<◌, ◌≡◌, refl, ap, sym, subst, inl, inr, Bool, true, false, Option, none, some,
  List, [], ◌∷◌, ◌++◌, All, length, filter, leb, ◌==◌, if◌then◌else◌, values, arith, Bool-cases,
}
use bianhao.Domain.{SweepJob}
use bianhao.Storage.Sweeps.{SweepJobRepository}
use bianhao.Alerts.{
  Alert, AlertDeps, Balance, SweepAlertWatcher, alert_if, check_balance, check_failed,
  check_failed_sweeps, check_probe, format_fee_wallet_low_alert, check_fee_wallet,
  format_failed_sweeps_alert, is_failed, run_once, sent, tell_low,
}

-- The counts of the alerts about failures.
abbrev pub count_first : Alert → List ℕ → List ℕ
count_first (Alert.failed_sweeps count total listed more) counts = count ∷ counts
count_first (Alert.fee_wallet_low severity balance threshold) counts = counts

unfoldable pub counts_of : List Alert → List ℕ
counts_of [] = []
counts_of (a ∷ as_) = count_first a (counts_of as_)

-- Each larger than the one before, and all at most `top`.
abbrev pub GrowingTo : ℕ → ℕ → List ℕ → Type 0
GrowingTo from top [] = from ≤ top
GrowingTo from top (n ∷ ns) = (from < n) × GrowingTo n top ns

abbrev pub Guarded : SweepAlertWatcher → Type 0
Guarded w =
    GrowingTo 0 (SweepAlertWatcher.last_alerted_failed_count w)
      (counts_of (SweepAlertWatcher.alerts w))

unfoldable pub run_all : AlertDeps → List SweepJobRepository → SweepAlertWatcher → SweepAlertWatcher
unfolding run_once
run_all deps [] w = w
run_all deps (jobs ∷ later) w = run_all deps later (run_once deps jobs w)

abbrev pub failures : SweepJobRepository → List SweepJob
failures jobs = filter (λ j. is_failed j.status) (values (SweepJobRepository.by_id jobs))

GrowingTo-append :
    (from top n : ℕ) (ns : List ℕ)
    → GrowingTo from top ns
    → top < n
    → GrowingTo from n (ns ++ n ∷ [])
GrowingTo-append from top n [] h k = (omega arith, omega arith)
GrowingTo-append from top n (x ∷ ns) h k = (h.0, GrowingTo-append x top n ns h.1 k)

counts_of_failures :
    (alerts : List Alert) (count total more : ℕ) (listed : _)
    → counts_of (alerts ++ Alert.failed_sweeps count total listed more ∷ [])
      ≡ counts_of alerts ++ count ∷ []
unfolding counts_of
counts_of_failures [] count total more listed = refl
counts_of_failures (Alert.failed_sweeps n t l m ∷ alerts) count total more listed =
    ap (λ ns. n ∷ ns) (counts_of_failures alerts count total more listed)
counts_of_failures (Alert.fee_wallet_low s b t ∷ alerts) count total more listed =
    counts_of_failures alerts count total more listed

counts_of_fee :
    (alerts : List Alert) (severity : _) (balance threshold : ℕ)
    → counts_of (alerts ++ Alert.fee_wallet_low severity balance threshold ∷ []) ≡ counts_of alerts
unfolding counts_of
counts_of_fee [] severity balance threshold = refl
counts_of_fee (Alert.failed_sweeps n t l m ∷ alerts) severity balance threshold =
    ap (λ ns. n ∷ ns) (counts_of_fee alerts severity balance threshold)
counts_of_fee (Alert.fee_wallet_low s b t ∷ alerts) severity balance threshold =
    counts_of_fee alerts severity balance threshold

-- The count is kept where the alert went out.
abbrev noted : ℕ → Bool × SweepAlertWatcher → Bool × SweepAlertWatcher
noted n (out, told) =
    if out then (true, record told { last_alerted_failed_count = n }) else (false, told)

module _ (deps : AlertDeps) where
  told-Guarded :
      (n total : ℕ) (listed : _) (more : ℕ) (w : SweepAlertWatcher)
      → SweepAlertWatcher.last_alerted_failed_count w < n
      → Guarded w
      → Guarded ((noted n (sent deps (Alert.failed_sweeps n total listed more) w)).1)
  unfolding sent
  told-Guarded n total listed more w grew g =
      let alert = Alert.failed_sweeps n total listed more in
      elim (Bool-cases (AlertDeps.alert_sink deps (SweepAlertWatcher.tick w) alert)) [
        | inl out ↦
            rw (out, counts_of_failures (SweepAlertWatcher.alerts w) n total more listed)
              (GrowingTo-append 0 (SweepAlertWatcher.last_alerted_failed_count w) n
                (counts_of (SweepAlertWatcher.alerts w)) g grew)
        | inr threw ↦ rw threw g
      ]

  check_failed-Guarded :
      (failed : List SweepJob) (w : SweepAlertWatcher)
      → 0 < length failed
      → Guarded w
      → Guarded ((check_failed deps failed w).1)
  unfolding check_failed format_failed_sweeps_alert alert_if sent
  check_failed-Guarded [] w some_failed g = absurd (omega arith)
  check_failed-Guarded (job ∷ jobs) w some_failed g =
      let last = SweepAlertWatcher.last_alerted_failed_count w in
      let n = length (job ∷ jobs) in
      let nonzero : (n == 0) ≡ false = ground arith in
      elim (Bool-cases (leb n last)) [
        | inl no_more ↦ rw (nonzero, no_more) g
        | inr more ↦ rw (nonzero, more) (told-Guarded n _ _ _ w (ground arith) g)
      ]

  -- The check of the wallet keeps the counts.
  abbrev Same : SweepAlertWatcher → SweepAlertWatcher → Type 0
  Same w after =
      (counts_of (SweepAlertWatcher.alerts after) ≡ counts_of (SweepAlertWatcher.alerts w))
      × (SweepAlertWatcher.last_alerted_failed_count after
          ≡ SweepAlertWatcher.last_alerted_failed_count w)

  fee-Same :
      (severity : _) (balance threshold : ℕ) (w : SweepAlertWatcher)
      → Same w ((tell_low deps (some (Alert.fee_wallet_low severity balance threshold)) w).1)
  unfolding tell_low sent
  fee-Same severity balance threshold w =
      let alert = Alert.fee_wallet_low severity balance threshold in
      elim (Bool-cases (SweepAlertWatcher.fee_low_alerted w)) [
        | inl told ↦ rw told (refl, refl)
        | inr untold ↦
            elim (Bool-cases (AlertDeps.alert_sink deps (SweepAlertWatcher.tick w) alert)) [
              | inl out ↦
                  rw (untold, out)
                    (counts_of_fee (SweepAlertWatcher.alerts w) severity balance threshold, refl)
              | inr threw ↦ rw (untold, threw) (refl, refl)
            ]
      ]

  balance-Same : (b : Balance) (w : SweepAlertWatcher) → Same w ((check_balance deps b w).1)
  unfolding check_balance format_fee_wallet_low_alert tell_low
  balance-Same Balance.rejected w = (refl, refl)
  balance-Same Balance.unknown w = (refl, refl)
  balance-Same (Balance.sun n) w = elim (Bool-cases (leb (AlertDeps.fee_threshold_sun deps) n)) [
    | inl enough ↦ rw enough (refl, refl)
    | inr low ↦ rw low (fee-Same _ n (AlertDeps.fee_threshold_sun deps) w)
  ]

  probe-Same :
      (probe : Option (ℕ → Balance)) (w : SweepAlertWatcher) → Same w ((check_probe deps probe w).1)
  unfolding check_probe
  probe-Same none w = (refl, refl)
  probe-Same (some probe) w =
      balance-Same (probe (SweepAlertWatcher.tick w))
        (record w { tick = suc (SweepAlertWatcher.tick w) })

  wallet-Same : (w : SweepAlertWatcher) → Same w ((check_fee_wallet deps w).1)
  unfolding check_fee_wallet
  wallet-Same w = probe-Same (AlertDeps.fee_balance_sun deps) w

  Same-Guarded : (w after : SweepAlertWatcher) → Same w after → Guarded w → Guarded after
  Same-Guarded w after (counts, last) g =
      subst (λ ns. GrowingTo 0 (SweepAlertWatcher.last_alerted_failed_count after) ns) (sym counts)
        (subst (λ n. GrowingTo 0 n (counts_of (SweepAlertWatcher.alerts w))) (sym last) g)

  run_once-Guarded :
      (jobs : SweepJobRepository) (w : SweepAlertWatcher)
      → 0 < length (failures jobs)
      → Guarded w
      → Guarded (run_once deps jobs w)
  unfolding run_once check_failed_sweeps
  run_once-Guarded jobs w some_failed g =
      let checked = check_failed deps (failures jobs) w in
      let kept = check_failed-Guarded (failures jobs) w some_failed g in
      elim (Bool-cases (checked.0)) [
        | inl out ↦ rw out (
            Same-Guarded checked.1 ((check_fee_wallet deps checked.1).1) (wallet-Same checked.1)
              kept)
        | inr threw ↦ rw threw kept
      ]

-- Over passes that all find failed jobs, whether or not the sink or the probe fails, the alerts about
-- failures report ever larger counts, none above the one that the watcher keeps, if they did at the
-- start.
pub run_all-Guarded :
    (deps : AlertDeps) (passes : List SweepJobRepository) (w : SweepAlertWatcher)
    → All (λ jobs. 0 < length (failures jobs)) passes
    → Guarded w
    → Guarded (run_all deps passes w)
unfolding run_all
run_all-Guarded deps [] w h g = g
run_all-Guarded deps (jobs ∷ passes) w h g =
    run_all-Guarded deps passes (run_once deps jobs w) h.1 (run_once-Guarded deps jobs w h.0 g)
