-- ===== src/Payments/Amounts.antt =====
-- providers/usdt/usdtTron.ts: allocateUniqueAmount.
use bianhao.Base.{
  ℕ, zero, suc, ◌+◌, ◌≤◌, ◌<◌, ◌≡◌, refl, inl, inr, Bool, true, false, ◌||◌, List, [], ◌∷◌, ◌==◌,
  if◌then◌else◌, arith, Bool-cases,
}
use bianhao.Domain.{Error, Result, ok, err}

-- `taken.has(candidate)`
unfoldable pub is_taken : ℕ → List ℕ → Bool
is_taken a [] = false
is_taken a (x ∷ xs) = x == a || is_taken a xs

-- The loop: `left` counts the deltas still to try, the next one giving `candidate`.
unfoldable pub first_free : ℕ → ℕ → List ℕ → Result ℕ
first_free zero candidate taken = err Error.provider
first_free (suc left) candidate taken =
    let rest = first_free left (candidate + 1) taken in
    if is_taken candidate taken then rest else ok candidate

unfoldable pub allocate_unique_amount : ℕ → List ℕ → ℕ → Result ℕ
unfolding first_free is_taken
allocate_unique_amount base taken max_delta = first_free (max_delta + 1) base taken

-- What the loop answers: the first free candidate, or an error when all are taken.
abbrev pub FirstFree : ℕ → ℕ → List ℕ → Result ℕ → Type 0
FirstFree left candidate taken (ok a) =
    (candidate ≤ a)
    × (a < candidate + left)
    × (is_taken a taken ≡ false)
    × ((b : ℕ) → candidate ≤ b → b < a → is_taken b taken ≡ true)
FirstFree left candidate taken (err e) =
    (e ≡ Error.provider)
    × ((b : ℕ) → candidate ≤ b → b < candidate + left → is_taken b taken ≡ true)

first_free-FirstFree :
    (left candidate : ℕ) (taken : List ℕ)
    → FirstFree left candidate taken (first_free left candidate taken)
unfolding first_free
first_free-FirstFree zero c taken = (refl, λ b lo hi. absurd (omega arith))
first_free-FirstFree (suc left) c taken = elim (Bool-cases (is_taken c taken)) [
  | inr free ↦ rw free (omega arith, omega arith, free, λ b lo hi. absurd (omega arith))
  | inl used ↦
      rw used
        (extend (first_free left (c + 1) taken) used (first_free-FirstFree left (c + 1) taken))
]
  where
    next :
        (t : Bool) (b : ℕ)
        → is_taken c taken ≡ true
        → c ≤ b
        → (c + 1 ≤ b → is_taken b taken ≡ true)
        → is_taken b taken ≡ true
    next t b used lo rest = ground arith

    extend :
        (r : Result ℕ)
        → is_taken c taken ≡ true
        → FirstFree left (c + 1) taken r
        → FirstFree (suc left) c taken r
    extend (ok a) used h =
        (omega arith, omega arith, h.2, λ b lo hi. next true b used lo (λ k. h.3 b k hi))
    extend (err e) used h = (h.0, λ b lo hi. next true b used lo (λ k. h.1 b k (omega arith)))

-- The amount is the lowest of base, base + 1, …, base + max_delta that no pending order has; only
-- where all of them are taken is the allocation refused.
pub allocate_unique_amount-FirstFree :
    (base : ℕ) (taken : List ℕ) (max_delta : ℕ)
    → FirstFree (max_delta + 1) base taken (allocate_unique_amount base taken max_delta)
unfolding allocate_unique_amount
allocate_unique_amount-FirstFree base taken max_delta =
    first_free-FirstFree (max_delta + 1) base taken
