-- ===== src/Limits/Bounds.antt =====
-- How many requests a key gets, and that dropping old windows changes no decision
-- (api/rateLimiter.ts).
use bianhao.Base.{
  ℕ, suc, ◌+◌, ◌-◌, ◌≤◌, ◌<◌, ◌≡◌, refl, ap, ◌∙◌, Bool, true, false, String, Option, none, some,
  List, [], ◌∷◌, leb, min, Map, get, set, Distinct, if◌then◌else◌, All, length, arith, get-set_self,
  str_eq_iff,
}
use bianhao.Limits.{Window, current_window, counted, decide, check, sweep}

module _ (limit window_ms : ℕ) where
  -- The decisions on a key's requests at the given times, one after the other.
  abbrev pub decisions : String → List ℕ → Map Window → List Bool
  decisions key [] windows = []
  decisions key (t ∷ ts) windows =
      let (d, windows') = check limit window_ms t key windows in
      d.allowed ∷ decisions key ts windows'

  abbrev pub count_allowed : List Bool → ℕ
  count_allowed [] = 0
  count_allowed (true ∷ ds) = suc (count_allowed ds)
  count_allowed (false ∷ ds) = count_allowed ds

  next_window :
      (key : String) (t : ℕ) (w : Window) (windows : Map Window)
      → get key windows ≡ some w
      → t < w.reset_at
      → counted limit window_ms t (get key windows) ≡ record w { count = w.count + 1 }
  unfolding counted current_window
  next_window key t w windows h within = ground arith

  count_allowed_first :
      (b : Bool) (ds : List Bool)
      → count_allowed (b ∷ ds) ≡ (if b then suc (count_allowed ds) else count_allowed ds)
  count_allowed_first true ds = refl
  count_allowed_first false ds = refl

  -- Of the requests of a key within its window, as many are allowed as are left of the limit, and
  -- no more.
  pub decisions_allowed :
      (key : String) (ts : List ℕ) (w : Window) (windows : Map Window)
      → get key windows ≡ some w
      → All (λ t. t < w.reset_at) ts
      → count_allowed (decisions key ts windows) ≡ min (length ts) (limit - w.count)
  unfolding check counted current_window decide
  decisions_allowed key [] w windows h within = omega arith
  decisions_allowed key (t ∷ ts) w windows h within =
      let w' = record w { count = w.count + 1 } in
      ap (λ v. count_allowed (leb v.count limit ∷ decisions key ts (set key v windows)))
        (next_window key t w windows h within.0)
      ∙ count_allowed_first (leb (w.count + 1) limit) (decisions key ts (set key w' windows))
      ∙ first_and_rest
          (decisions_allowed key ts w' (set key w' windows) (get-set_self key w' windows) within.1)
    where
      first_and_rest :
          {n : ℕ}
          → n ≡ min (length ts) (limit - (w.count + 1))
          → (if leb (w.count + 1) limit then suc n else n) ≡ min (suc (length ts)) (limit - w.count)
      first_and_rest h = ground (arith, h)

get-sweep :
    (t : ℕ) (key : String) (windows : Map Window)
    → Distinct windows
    → get key (sweep t windows) ≡ (elim (get key windows) [
      | none ↦ none
      | some w ↦ if leb w.reset_at t then none else some w
    ])
unfolding sweep get
get-sweep t key [] d = refl
get-sweep t key ((k, w) ∷ windows) d =
    ground (arith, get-sweep t key windows d.1, d.0, str_eq_iff k key)

-- Dropping the windows that are over changes no later decision.
pub check-sweep :
    (limit window_ms t later : ℕ) (key : String) (windows : Map Window)
    → Distinct windows
    → t ≤ later
    → (check limit window_ms later key (sweep t windows)).0
      ≡ (check limit window_ms later key windows).0
unfolding check counted current_window
check-sweep limit window_ms t later key windows d h =
    ap (λ w. decide limit later (record w { count = w.count + 1 }))
      (same_window (get key windows) (get-sweep t key windows d))
  where
    same_window :
        (o : Option Window)
        → get key (sweep t windows)
          ≡ (elim o [ none ↦ none | some w ↦ if leb w.reset_at t then none else some w ])
        → current_window window_ms later (get key (sweep t windows))
          ≡ current_window window_ms later o
    same_window none e = ground (arith, e)
    same_window (some w) e = ground (arith, e, h)
