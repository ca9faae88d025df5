-- ===== src/Csv/Reading.antt =====
-- What is written by reporting/csv.ts is read back by RFC 4180.
use mathlib.Core.List.{append-nil, append_assoc}
use bianhao.Base.{
  Option, some, ℕ, ◌≡◌, refl, ap, ◌∙◌, sym, inl, inr, false, String, List, [], ◌∷◌, ◌++◌, map, ◌==◌,
  arith, Bool-cases, Map, get,
}
use bianhao.Money.{Text}
use bianhao.Csv.{
  Value, cell_at, cells_of, comma, cr, double_quotes, escape_cell, escape_text, header_of,
  is_special, join_cells, lf, line_of, lines_of, needs_quotes, quote, stringify_cell, to_csv,
}
use bianhao.Csv.Parser.{Place, before_rows, parse, read_from}

append_cons : (xs : Text) (c : ℕ) (ys : Text) → (xs ++ c ∷ []) ++ ys ≡ xs ++ c ∷ ys
append_cons xs c ys = append_assoc xs (c ∷ []) ys

module _ (c : ℕ) (cs : Text) (h : needs_quotes (c ∷ cs) ≡ false) where
  plain_head :
      ((c == comma) ≡ false) × ((c == cr) ≡ false) × ((c == quote) ≡ false) × ((c == lf) ≡ false)
  unfolding needs_quotes is_special
  plain_head = (ground arith, ground arith, ground arith, ground arith)

  plain_tail : needs_quotes cs ≡ false
  unfolding needs_quotes is_special
  plain_tail = ground arith

plain_run :
    (s rest cell : Text) (row : List Text)
    → needs_quotes s ≡ false
    → read_from Place.plain cell row (s ++ rest) ≡ read_from Place.plain (cell ++ s) row rest
unfolding read_from
plain_run [] rest cell row h = ap (λ x. read_from Place.plain x row rest) (sym (append-nil cell))
plain_run (c ∷ cs) rest cell row h =
    let (comma_no, cr_no, quote_no, lf_no) = plain_head c cs h in
    rw (comma_no, cr_no, quote_no, lf_no)
      (plain_run cs rest (cell ++ c ∷ []) row (plain_tail c cs h)
        ∙ ap (λ x. read_from Place.plain x row rest) (append_cons cell c cs))

quoted_run :
    (s rest cell : Text) (row : List Text)
    → read_from Place.quoted cell row (double_quotes s ++ quote ∷ rest)
      ≡ read_from Place.closing (cell ++ s) row rest
unfolding read_from double_quotes
quoted_run [] rest cell row = ap (λ x. read_from Place.closing x row rest) (sym (append-nil cell))
quoted_run (c ∷ cs) rest cell row = elim (Bool-cases (c == quote)) [
  | inl quoted ↦
      let same : quote ≡ c = ground (arith, quoted) in
      rw quoted (
        quoted_run cs rest (cell ++ quote ∷ []) row
        ∙ ap (λ x. read_from Place.closing x row rest)
            (append_cons cell quote cs ∙ ap (λ d. cell ++ d ∷ cs) same))
  | inr other ↦ rw other (
      rw other (
        quoted_run cs rest (cell ++ c ∷ []) row
        ∙ ap (λ x. read_from Place.closing x row rest) (append_cons cell c cs)))
]

-- A cell is read whole, whatever ends it.
cell_run :
    (s rest : Text) (row : List Text) (rows : Option (List (List Text)))
    → read_from Place.plain s row rest ≡ rows
    → read_from Place.closing s row rest ≡ rows
    → read_from Place.plain [] row (escape_text s ++ rest) ≡ rows
unfolding escape_text read_from
cell_run s rest row rows h k = elim (Bool-cases (needs_quotes s)) [
  | inl special ↦ rw special (
      ap (read_from Place.quoted [] row) (append_assoc (double_quotes s) (quote ∷ []) rest)
      ∙ quoted_run s rest [] row
      ∙ k)
  | inr simple ↦ rw simple (plain_run s rest [] row simple ∙ h)
]

unfoldable pub texts_of : List Value → List Text
texts_of values = map stringify_cell values

-- A row of at least one cell is read back.
row_run :
    (v : Value) (vs : List Value) (rest : Text) (row : List Text)
    → read_from Place.plain [] row (line_of (v ∷ vs) ++ rest)
      ≡ before_rows (row ++ texts_of (v ∷ vs)) (read_from Place.plain [] [] rest)
unfolding read_from line_of join_cells escape_cell texts_of
row_run v [] rest row =
    ap (read_from Place.plain [] row) (append_assoc (escape_cell v) (cr ∷ lf ∷ []) rest)
    ∙ cell_run (stringify_cell v) (cr ∷ lf ∷ rest) row
        (before_rows (row ++ stringify_cell v ∷ []) (read_from Place.plain [] [] rest)) refl refl
row_run v (w ∷ vs) rest row =
    let later = join_cells (w ∷ vs) in
    ap (read_from Place.plain [] row) (
      ap (λ x. x ++ rest) (append_assoc (escape_cell v) (comma ∷ later) (cr ∷ lf ∷ []))
      ∙ append_assoc (escape_cell v) (comma ∷ later ++ cr ∷ lf ∷ []) rest)
    ∙ cell_run (stringify_cell v) (comma ∷ (later ++ cr ∷ lf ∷ []) ++ rest) row
        (read_from Place.plain [] (row ++ stringify_cell v ∷ []) ((later ++ cr ∷ lf ∷ []) ++ rest))
        refl refl
    ∙ row_run w vs rest (row ++ stringify_cell v ∷ [])
    ∙ ap (λ r. before_rows r (read_from Place.plain [] [] rest))
        (append_assoc row (stringify_cell v ∷ []) (texts_of (w ∷ vs)))

names_back :
    (units : String → Text) (columns : List String)
    → texts_of (header_of units columns) ≡ map units columns
unfolding header_of texts_of stringify_cell
names_back units [] = refl
names_back units (column ∷ columns) = ap (λ ns. units column ∷ ns) (names_back units columns)

rows_run :
    (column : String) (columns : List String) (rows : List (Map Value))
    → read_from Place.plain [] [] (lines_of (map (cells_of (column ∷ columns)) rows))
      ≡ some (map (λ row. texts_of (cells_of (column ∷ columns) row)) rows)
unfolding read_from lines_of cells_of
rows_run column columns [] = refl
rows_run column columns (row ∷ rows) =
    row_run (cell_at (get column row)) (cells_of columns row)
      (lines_of (map (cells_of (column ∷ columns)) rows)) []
    ∙ ap (before_rows (texts_of (cells_of (column ∷ columns) row))) (rows_run column columns rows)

-- The text of `toCsv` for at least one column is read back by the strict reader of RFC 4180: as the
-- columns' names and, row by row, the cells' texts, whatever characters they hold.
pub parse-to_csv :
    (units : String → Text) (column : String) (columns : List String) (rows : List (Map Value))
    → parse (to_csv units rows (column ∷ columns))
      ≡ some (
          map units (column ∷ columns)
          ∷ map (λ row. texts_of (cells_of (column ∷ columns) row)) rows)
unfolding parse to_csv header_of lines_of
parse-to_csv units column columns rows =
    row_run (Value.text (units column)) (header_of units columns)
      (lines_of (map (cells_of (column ∷ columns)) rows)) []
    ∙ ap
        (λ r.
          before_rows r
            (read_from Place.plain [] [] (lines_of (map (cells_of (column ∷ columns)) rows))))
        (names_back units (column ∷ columns))
    ∙ ap (before_rows (map units (column ∷ columns))) (rows_run column columns rows)
