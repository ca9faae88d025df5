-- ===== src/Limits.antt =====
-- api/rateLimiter.ts: RateLimiter, a fixed window per key. The clock's reading is an argument.
use bianhao.Base.{
  ℕ, ◌+◌, ◌-◌, ◌/◌, Bool, true, false, String, Option, none, some, List, [], ◌∷◌, leb, max, Map,
  get, set, if◌then◌else◌,
}
pub mod Bounds

pub record RateLimitDecision : Type 0 where
  pub allowed : Bool
  pub limit : ℕ
  pub remaining : ℕ
  pub reset_at : ℕ
  pub retry_after_sec : ℕ

pub record Window : Type 0 where
  pub count : ℕ
  pub reset_at : ℕ

-- The window that `check` counts in: the stored one, or a new one where it is over.
unfoldable pub current_window : ℕ → ℕ → Option Window → Window
current_window window_ms t none = record { count = 0; reset_at = t + window_ms }
current_window window_ms t (some w) =
    if leb w.reset_at t then record { count = 0; reset_at = t + window_ms } else w

-- `Math.ceil(ms / 1000)`
abbrev ceil_seconds : ℕ → ℕ
ceil_seconds ms = (ms + 999) / 1000

unfoldable pub decide : ℕ → ℕ → Window → RateLimitDecision
decide limit t w = record {
  allowed = leb w.count limit;
  limit = limit;
  remaining = limit - w.count;
  reset_at = w.reset_at;
  retry_after_sec = max 1 (ceil_seconds (w.reset_at - t));
}

module _ (limit window_ms : ℕ) where
  -- The window that `check` leaves.
  unfoldable pub counted : ℕ → Option Window → Window
  unfolding current_window
  counted t stored =
      let w = current_window window_ms t stored in
      record { count = w.count + 1; reset_at = w.reset_at }

  unfoldable pub check : ℕ → String → Map Window → RateLimitDecision × Map Window
  unfolding counted decide
  check t key windows = let w = counted t (get key windows) in (decide limit t w, set key w windows)

-- `sweep`: the windows that are over go.
unfoldable pub sweep : ℕ → Map Window → Map Window
sweep t [] = []
sweep t ((key, w) ∷ windows) =
    let rest = sweep t windows in if leb w.reset_at t then rest else (key, w) ∷ rest
