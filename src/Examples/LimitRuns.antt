-- ===== src/Examples/LimitRuns.antt =====
-- Three requests with a limit of two.
use bianhao.Base.{◌≡◌, refl, ◌∷◌, [], get, str_eq, arith, Map}
use bianhao.Limits.{Window, check, sweep}
use bianhao.Limits.Bounds.{decisions, count_allowed, decisions_allowed, check-sweep}

abbrev open_windows : Map Window
open_windows =
    ("a", record { count = 0; reset_at = 100 }) ∷ ("b", record { count = 5; reset_at = 50 }) ∷ []

decisions_allowed_example :
    count_allowed 2 60 (decisions 2 60 "a" (10 ∷ 20 ∷ 30 ∷ []) open_windows) ≡ 2
unfolding get str_eq
decisions_allowed_example =
    decisions_allowed 2 60 "a" (10 ∷ 20 ∷ 30 ∷ []) (record { count = 0; reset_at = 100 })
      open_windows refl (omega arith, (omega arith, (omega arith, tt)))

-- The window of "b" is over by then.
check-sweep_example :
    (check 2 60 80 "b" (sweep 70 open_windows)).0 ≡ (check 2 60 80 "b" open_windows).0
unfolding get str_eq
check-sweep_example = check-sweep 2 60 70 80 "b" open_windows (refl, (refl, tt)) (omega arith)
