-- ===== src/Qr/Matrix.antt =====
-- qr/qrEncoder.ts: `encodeToMatrix`. The bits go into the free modules in zig-zag order; of the eight
-- masks the first with the lowest penalty is taken.
use bianhao.Base.{
  ℕ, zero, suc, ◌+◌, ◌-◌, ◌/◌, ◌%◌, ◌^◌, Bool, true, false, not, Option, none, some, List, [], ◌∷◌,
  ◌++◌, leb, ltb, ◌==◌, if◌then◌else◌,
}
use bianhao.Money.{Text}
use bianhao.Qr.Data.{choose_version, detect_mode}
use bianhao.Qr.Codewords.{build_codewords}
use bianhao.Qr.Decode.{bits_of_all}
use bianhao.Qr.Grid.{Cell, Grid, at, range, set_cell}
use bianhao.Qr.Layout.{Layout, bch_format, bch_version, function_layout, mask_fn}
use bianhao.Qr.Penalty.{score_penalty}

pub record QrMatrix : Type 0 where
  pub size : ℕ
  pub version : ℕ
  pub mask : ℕ
  pub modules : Grid Bool

-- `a !== b`
abbrev pub differs : Bool → Bool → Bool
differs true b = not b
differs false b = b

-- The cells of a pair of columns, row by row.
unfoldable pub column_pair : ℕ → List ℕ → List Cell
column_pair col [] = []
column_pair col (row ∷ rows) = (row, col) ∷ (row, col - 1) ∷ column_pair col rows

unfoldable pub downward : ℕ → List ℕ
downward zero = []
downward (suc n) = n ∷ downward n

-- The loop over the pairs of columns from `col` to the left, in the order in which cells are visited;
-- as `col` falls with every turn, `col` turns are enough.
unfoldable pub zigzag_from : ℕ → ℕ → Bool → ℕ → List Cell
unfolding column_pair downward range
zigzag_from zero size upward col = []
zigzag_from (suc left) size upward col =
    let c = if col == 6 then 5 else col in
    let rest = zigzag_from left size (not upward) (c - 2) in
    if col == 0 then [] else column_pair c (if upward then downward size else range 0 size) ++ rest

unfoldable pub zigzag : ℕ → List Cell
unfolding zigzag_from
zigzag size = zigzag_from size size true (size - 1)

unfoldable pub dark_of : List ℕ → Bool
dark_of [] = false
dark_of (b ∷ bits) = b == 1

unfoldable pub rest_of : List ℕ → List ℕ
rest_of [] = []
rest_of (b ∷ bits) = bits

-- The bits that are left go into the cells that are not reserved; then modules stay light.
unfoldable pub place : Grid Bool → List Cell → List ℕ → Grid (Option Bool) → Grid (Option Bool)
unfolding at set_cell dark_of rest_of
place reserved [] bits modules = modules
place reserved ((r, c) ∷ cells) bits modules =
    let skipped = place reserved cells bits modules in
    let placed = place reserved cells (rest_of bits) (set_cell r c (some (dark_of bits)) modules) in
    if at false r c reserved then skipped else placed

unfoldable pub is_dark : Option Bool → Bool
is_dark none = false
is_dark (some v) = v

-- One row under a mask, from column c on.
unfoldable pub mask_row : ℕ → ℕ → ℕ → List Bool → List (Option Bool) → List Bool
unfolding mask_fn is_dark
mask_row mask r c [] modules = []
mask_row mask r c (fixed ∷ reserved) [] = []
mask_row mask r c (fixed ∷ reserved) (v ∷ modules) =
    (if fixed then is_dark v else differs (is_dark v) (mask_fn mask r c))
    ∷ mask_row mask r (suc c) reserved modules

unfoldable pub mask_rows : ℕ → ℕ → Grid Bool → Grid (Option Bool) → Grid Bool
unfolding mask_row
mask_rows mask r [] modules = []
mask_rows mask r (fixed ∷ reserved) [] = []
mask_rows mask r (fixed ∷ reserved) (row ∷ modules) =
    mask_row mask r 0 fixed row ∷ mask_rows mask (suc r) reserved modules

-- A module to write: its cell and the number of the bit.
abbrev pub Write : Type 0
Write = Cell × ℕ

-- The writes of `writeFormat`, in its order.
unfoldable pub format_first : List ℕ → List Write
format_first [] = []
format_first (i ∷ is) = ((8, i), i) ∷ format_first is

unfoldable pub format_second : List ℕ → List Write
format_second [] = []
format_second (i ∷ is) = ((14 - i, 8), i) ∷ format_second is

unfoldable pub format_third : ℕ → List ℕ → List Write
format_third size [] = []
format_third size (i ∷ is) = ((size - 1 - i, 8), i) ∷ format_third size is

unfoldable pub format_fourth : ℕ → List ℕ → List Write
format_fourth size [] = []
format_fourth size (i ∷ is) = ((8, size - 15 + i), i) ∷ format_fourth size is

unfoldable pub format_writes : ℕ → List Write
unfolding format_first format_second format_third format_fourth range
format_writes size =
    format_first (range 0 6)
    ++ (((8, 7), 6) ∷ ((8, 8), 7) ∷ ((7, 8), 8) ∷ [])
    ++ format_second (range 9 6)
    ++ format_third size (range 0 8)
    ++ format_fourth size (range 8 7)

-- The writes of `writeVersion`.
unfoldable pub version_writes : ℕ → List ℕ → List Write
version_writes size [] = []
version_writes size (i ∷ is) =
    ((i / 3, size - 11 + i % 3), i) ∷ ((size - 11 + i % 3, i / 3), i) ∷ version_writes size is

unfoldable pub write_all : ℕ → List Write → Grid Bool → Grid Bool
unfolding set_cell
write_all info [] grid = grid
write_all info (((r, c), i) ∷ writes) grid =
    write_all info writes (set_cell r c (info / 2 ^ i % 2 == 1) grid)

unfoldable pub write_format : ℕ → ℕ → Grid Bool → Grid Bool
unfolding write_all format_writes bch_format
write_format mask size grid = write_all (bch_format mask) (format_writes size) grid

unfoldable pub write_version : ℕ → ℕ → Grid Bool → Grid Bool
unfolding write_all version_writes bch_version range
write_version version size grid =
    write_all (bch_version version) (version_writes size (range 0 18)) grid

-- The symbol under a mask.
unfoldable pub masked : ℕ → ℕ → Layout → Grid (Option Bool) → Grid Bool
unfolding mask_rows write_format write_version
masked version mask layout modules =
    let size = Layout.size layout in
    let formatted = write_format mask size (mask_rows mask 0 (Layout.reserved layout) modules) in
    if leb 7 version then write_version version size formatted else formatted

-- The loop over the masks from `mask` on; the best so far is a mask, its penalty and its grid. Before
-- the first turn the source has an infinite penalty, so mask 0 is taken then.
abbrev pub Scored : Type 0
Scored = ℕ × ℕ × Grid Bool

unfoldable pub scored : ℕ → Layout → Grid (Option Bool) → ℕ → Scored
unfolding masked score_penalty
scored version layout modules mask =
    let grid = masked version mask layout modules in
    (mask, score_penalty grid (Layout.size layout), grid)

unfoldable pub better : Scored → Scored → Scored
better (mask, penalty, grid) (next, score, other) =
    if ltb score penalty then (next, score, other) else (mask, penalty, grid)

unfoldable pub best_of : (ℕ → Scored) → ℕ → ℕ → Scored → Scored
unfolding better
best_of score zero mask best = best
best_of score (suc left) mask best = best_of score left (suc mask) (better best (score mask))

unfoldable pub modules_of : Layout → List ℕ → Grid (Option Bool)
unfolding place zigzag bits_of_all
modules_of layout codewords =
    place (Layout.reserved layout) (zigzag (Layout.size layout)) (bits_of_all codewords)
      (Layout.base layout)

unfoldable pub best_mask : ℕ → Layout → List ℕ → Scored
unfolding modules_of best_of scored
best_mask version layout codewords =
    let score = scored version layout (modules_of layout codewords) in best_of score 7 1 (score 0)

unfoldable pub symbol_of : ℕ → Layout → List ℕ → QrMatrix
unfolding best_mask
symbol_of version layout codewords =
    let (mask, penalty, grid) = best_mask version layout codewords in
    record { size = Layout.size layout; version = version; mask = mask; modules = grid }

-- The symbol of a text in a version; none where no version is large enough and the source throws.
unfoldable pub encode_with : Text → Option ℕ → Option QrMatrix
unfolding symbol_of function_layout build_codewords detect_mode
encode_with text none = none
encode_with text (some version) =
    some (
      symbol_of version (function_layout version) (build_codewords text (detect_mode text) version))

unfoldable pub encode_to_matrix : Text → Option QrMatrix
unfolding encode_with choose_version detect_mode
encode_to_matrix text = encode_with text (choose_version text (detect_mode text))
