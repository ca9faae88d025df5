-- ===== src/Qr/Penalty.antt =====
-- qr/qrEncoder.ts: `scorePenalty`, the four rules of the mask's penalty.
use bianhao.Base.{
  ℕ, zero, suc, ◌+◌, ◌-◌, ◌*◌, ◌/◌, Bool, true, false, not, ◌&&◌, ◌||◌, List, [], ◌∷◌, map, leb,
  ltb, if◌then◌else◌,
}
use bianhao.Qr.Grid.{Cell, Grid, at, product, range}

abbrev pub same_colour : Bool → Bool → Bool
same_colour true b = b
same_colour false b = not b

-- `while (i + run < size && line[i + run] === line[i]) run++`; `size` turns are enough.
unfoldable pub run_from : ℕ → (ℕ → Bool) → ℕ → ℕ → ℕ → ℕ
run_from zero line size i run = run
run_from (suc left) line size i run =
    let longer = run_from left line size i (suc run) in
    if ltb (i + run) size && same_colour (line (i + run)) (line i) then longer else run

-- Rule 1 on a line, from place i on; a run of 5 or more is skipped.
unfoldable pub runs_from : ℕ → (ℕ → Bool) → ℕ → ℕ → ℕ
unfolding run_from
runs_from zero line size i = 0
runs_from (suc left) line size i =
    let run = run_from size line size i 1 in
    let after_run = runs_from left line size (i + run) in
    let after_one = runs_from left line size (suc i) in
    if ltb i size then (if leb 5 run then 3 + (run - 5) + after_run else after_one) else 0

unfoldable pub sum : List ℕ → ℕ
sum [] = 0
sum (n ∷ ns) = n + sum ns

unfoldable pub row_line : Grid Bool → ℕ → ℕ → Bool
unfolding at
row_line grid r c = at false r c grid

unfoldable pub col_line : Grid Bool → ℕ → ℕ → Bool
unfolding at
col_line grid c r = at false r c grid

unfoldable pub rule_runs : (ℕ → ℕ → Bool) → ℕ → ℕ
unfolding runs_from sum range
rule_runs lines size = sum (map (λ i. runs_from size (lines i) size 0) (range 0 size))

-- Rule 2: a 2 by 2 block of one colour.
unfoldable pub block_penalty : Grid Bool → Cell → ℕ
unfolding at
block_penalty grid (r, c) =
    let v = at false r c grid in
    if same_colour (at false r (suc c) grid) v
      && same_colour (at false (suc r) c grid) v
      && same_colour (at false (suc r) (suc c) grid) v
    then 3
    else 0

unfoldable pub rule_blocks : Grid Bool → ℕ → ℕ
unfolding block_penalty sum product range
rule_blocks grid size =
    sum (map (block_penalty grid) (product (range 0 (size - 1)) (range 0 (size - 1))))

-- Rule 3: patterns like a finder's.
abbrev pub pat1 : List Bool
pat1 = true ∷ false ∷ true ∷ true ∷ true ∷ false ∷ true ∷ false ∷ false ∷ false ∷ false ∷ []

abbrev pub pat2 : List Bool
pat2 = false ∷ false ∷ false ∷ false ∷ true ∷ false ∷ true ∷ true ∷ true ∷ false ∷ true ∷ []

unfoldable pub matches : (ℕ → Bool) → ℕ → List Bool → Bool
matches line i [] = true
matches line i (p ∷ pat) = same_colour (line i) p && matches line (suc i) pat

unfoldable pub pattern_penalty : (ℕ → Bool) → ℕ → ℕ
unfolding matches
pattern_penalty line i = if matches line i pat1 || matches line i pat2 then 40 else 0

unfoldable pub rule_patterns : (ℕ → ℕ → Bool) → ℕ → ℕ
unfolding pattern_penalty sum range
rule_patterns lines size =
    sum (map (λ r. sum (map (pattern_penalty (lines r)) (range 0 (size - 10)))) (range 0 size))

-- Rule 4: the share of dark modules. `Math.floor(Math.abs(100 * dark / cells - 50) / 5) * 10`, computed
-- without the fraction.
unfoldable pub count_dark : List Bool → ℕ
count_dark [] = 0
count_dark (v ∷ row) = (if v then 1 else 0) + count_dark row

unfoldable pub rule_share : Grid Bool → ℕ → ℕ
unfolding count_dark sum
rule_share grid size =
    let dark = sum (map count_dark grid) in
    let cells = size * size in
    ((dark * 100 - cells * 50) + (cells * 50 - dark * 100)) / (cells * 5) * 10

unfoldable pub score_penalty : Grid Bool → ℕ → ℕ
unfolding rule_runs rule_blocks rule_patterns rule_share row_line col_line
score_penalty grid size =
    rule_runs (row_line grid) size
    + rule_runs (col_line grid) size
    + rule_blocks grid size
    + rule_patterns (row_line grid) size
    + rule_patterns (col_line grid) size
    + rule_share grid size
