-- ===== src/Qr/Cells.antt =====
-- The order in which modules are visited (qr/qrEncoder.ts): no cell is visited twice.
use bianhao.Base.{
  ℕ, zero, suc, ◌-◌, ◌≤◌, ◌<◌, ◌≡◌, ◌≢◌, inl, inr, Bool, true, false, not, ◌&&◌, List, [], ◌∷◌,
  ◌++◌, All, All-append, ◌==◌, if◌then◌else◌, arith, Bool-cases,
}
use bianhao.Qr.Grid.{Cell, range}
use bianhao.Qr.Matrix.{column_pair, downward, zigzag, zigzag_from}

abbrev pub apart : Cell → Cell → Bool
apart (r, c) (s, d) = not (r == s && c == d)

abbrev pub Absent : Cell → List Cell → Type 0
Absent cell cells = All (λ other. apart cell other ≡ true) cells

abbrev pub AllApart : List Cell → Type 0
AllApart [] = Unit
AllApart (cell ∷ cells) = Absent cell cells × AllApart cells

AllApart-append :
    (xs ys : List Cell)
    → AllApart xs
    → AllApart ys
    → All (λ x. Absent x ys) xs
    → AllApart (xs ++ ys)
AllApart-append [] ys h k m = k
AllApart-append (x ∷ xs) ys h k m =
    (All-append (λ other. apart x other ≡ true) xs ys h.0 m.0, AllApart-append xs ys h.1 k m.1)

-- Rows without repetition.
abbrev Missing : ℕ → List ℕ → Type 0
Missing row rows = All (λ other. row ≢ other) rows

abbrev Differ : List ℕ → Type 0
Differ [] = Unit
Differ (row ∷ rows) = Missing row rows × Differ rows

range-Missing : (row i n : ℕ) → row < i → Missing row (range i n)
unfolding range
range-Missing row i zero h = tt
range-Missing row i (suc n) h = (λ e. omega arith, range-Missing row (suc i) n (omega arith))

range-Differ : (i n : ℕ) → Differ (range i n)
unfolding range
range-Differ i zero = tt
range-Differ i (suc n) = (range-Missing i (suc i) n (omega arith), range-Differ (suc i) n)

downward-Missing : (row n : ℕ) → n ≤ row → Missing row (downward n)
unfolding downward
downward-Missing row zero h = tt
downward-Missing row (suc n) h = (λ e. omega arith, downward-Missing row n (omega arith))

downward-Differ : (n : ℕ) → Differ (downward n)
unfolding downward
downward-Differ zero = tt
downward-Differ (suc n) = (downward-Missing n n (omega arith), downward-Differ n)

rows-Differ : (upward : Bool) (size : ℕ) → Differ (if upward then downward size else range 0 size)
rows-Differ true size = downward-Differ size
rows-Differ false size = range-Differ 0 size

-- The cells of a pair of columns.
column_pair-Absent :
    (row d col : ℕ) (rows : List ℕ) → Missing row rows → Absent (row, d) (column_pair col rows)
unfolding column_pair
column_pair-Absent row d col [] h = tt
column_pair-Absent row d col (other ∷ rows) h =
    let ne = h.0 in (ground arith, (ground arith, column_pair-Absent row d col rows h.1))

column_pair-AllApart :
    (col : ℕ) (rows : List ℕ) → 0 < col → Differ rows → AllApart (column_pair col rows)
unfolding column_pair
column_pair-AllApart col [] pos h = tt
column_pair-AllApart col (row ∷ rows) pos h = (
  (ground arith, column_pair-Absent row col col rows h.0),
  (column_pair-Absent row (col - 1) col rows h.0, column_pair-AllApart col rows pos h.1),
)

-- Cells further to the left than a pair of columns.
abbrev Left : ℕ → List Cell → Type 0
Left col cells = All (λ cell. (cell.1 ≤ col) × (0 < col)) cells

Left-Absent : (r c d : ℕ) (cells : List Cell) → (0 < d → d < c) → Left d cells → Absent (r, c) cells
Left-Absent r c d [] h k = tt
Left-Absent r c d ((s, e) ∷ cells) h k =
    let (le, pos) = k.0 in let lt = h pos in (ground arith, Left-Absent r c d cells h k.1)

column_pair-Left : (col : ℕ) (rows : List ℕ) → 0 < col → Left col (column_pair col rows)
unfolding column_pair
column_pair-Left col [] pos = tt
column_pair-Left col (row ∷ rows) pos =
    ((omega arith, pos), ((omega arith, pos), column_pair-Left col rows pos))

Left-mono : (d c : ℕ) (cells : List Cell) → d ≤ c → Left d cells → Left c cells
Left-mono d c [] h k = tt
Left-mono d c (cell ∷ cells) h k =
    let (le, pos) = k.0 in ((omega arith, omega arith), Left-mono d c cells h k.1)

pairs-Absent :
    (col : ℕ) (rows : List ℕ) (cells : List Cell)
    → Left (col - 2) cells
    → All (λ x. Absent x cells) (column_pair col rows)
unfolding column_pair
pairs-Absent col [] cells h = tt
pairs-Absent col (row ∷ rows) cells h = (
  Left-Absent row col (col - 2) cells (λ pos. omega arith) h,
  (Left-Absent row (col - 1) (col - 2) cells (λ pos. omega arith) h, pairs-Absent col rows cells h),
)

-- The column at which a turn of the loop works.
abbrev turn : ℕ → ℕ
turn col = if col == 6 then 5 else col

zigzag_from-Good :
    (left size : ℕ) (upward : Bool) (col : ℕ)
    → AllApart (zigzag_from left size upward col) × Left col (zigzag_from left size upward col)
unfolding zigzag_from
zigzag_from-Good zero size upward col = (tt, tt)
zigzag_from-Good (suc left) size upward col = elim (Bool-cases (col == 0)) [
  | inl done ↦ rw done (tt, tt)
  | inr more ↦
      let rows = if upward then downward size else range 0 size in
      let later = zigzag_from left size (not upward) (turn col - 2) in
      let (distinct, further) = zigzag_from-Good left size (not upward) (turn col - 2) in
      let pos : 0 < turn col = ground arith in
      let le : turn col ≤ col = ground arith in
      rw more (
        AllApart-append (column_pair (turn col) rows) later
            (column_pair-AllApart (turn col) rows pos (rows-Differ upward size)) distinct
            (pairs-Absent (turn col) rows later further),
        All-append (λ cell. (cell.1 ≤ col) × (0 < col)) (column_pair (turn col) rows) later
            (Left-mono (turn col) col (column_pair (turn col) rows) le
              (column_pair-Left (turn col) rows pos))
            (Left-mono (turn col - 2) col later (omega arith) further),
      )
]

pub zigzag-AllApart : (size : ℕ) → AllApart (zigzag size)
unfolding zigzag
zigzag-AllApart size = (zigzag_from-Good size size true (size - 1)).0
