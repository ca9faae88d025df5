-- ===== src/Csv/Parser.antt =====
-- A strict reader of RFC 4180, against which reporting/csv.ts is proved. A cell is plain, without quotes,
-- commas, CR or LF, or it is in quotes, where two quotes stand for one and every unit is allowed. A
-- comma ends a cell and CR LF ends a row; the last row may end with the text. Anything else is none.
use bianhao.Base.{Option, none, some, List, [], ◌∷◌, ◌++◌, ◌==◌, if◌then◌else◌}
use bianhao.Money.{Text}
use bianhao.Csv.{comma, cr, lf, quote}

-- Where the reader stands: in a plain cell, in a quoted one, after a quote in it, after CR.
pub data Place : Type 0 where
  plain quoted closing ending : Place

-- The rows of a text, before which one more is read.
abbrev pub before_rows : List Text → Option (List (List Text)) → Option (List (List Text))
before_rows row none = none
before_rows row (some rows) = some (row ∷ rows)

-- A quote opens a cell that is empty so far, and stands in no other plain cell.
abbrev pub quote_at : Text → Option (List (List Text)) → Option (List (List Text))
quote_at [] opened = opened
quote_at (c ∷ cs) opened = none

-- The end of the text in a plain cell: after the end of a row, or of the last row.
abbrev pub last_row : Text → List Text → Option (List (List Text))
last_row [] [] = some []
last_row [] (t ∷ ts) = some (((t ∷ ts) ++ [] ∷ []) ∷ [])
last_row (c ∷ cs) row = some ((row ++ (c ∷ cs) ∷ []) ∷ [])

-- The cell and the row so far, then the rest of the text.
unfoldable pub read_from : Place → Text → List Text → Text → Option (List (List Text))
read_from Place.plain cell row [] = last_row cell row
read_from Place.quoted cell row [] = none
read_from Place.closing cell row [] = some ((row ++ cell ∷ []) ∷ [])
read_from Place.ending cell row [] = none
read_from Place.plain cell row (c ∷ cs) =
    let comma_next = read_from Place.plain [] (row ++ cell ∷ []) cs in
    let cr_next = read_from Place.ending [] (row ++ cell ∷ []) cs in
    let quote_next = read_from Place.quoted [] row cs in
    let more = read_from Place.plain (cell ++ c ∷ []) row cs in
    if c == comma
    then comma_next
    else if c == cr
    then cr_next
    else if c == quote
    then quote_at cell quote_next
    else if c == lf
    then none
    else more
read_from Place.quoted cell row (c ∷ cs) =
    let closed = read_from Place.closing cell row cs in
    let more = read_from Place.quoted (cell ++ c ∷ []) row cs in if c == quote then closed else more
read_from Place.closing cell row (c ∷ cs) =
    let comma_next = read_from Place.plain [] (row ++ cell ∷ []) cs in
    let cr_next = read_from Place.ending [] (row ++ cell ∷ []) cs in
    let more = read_from Place.quoted (cell ++ c ∷ []) row cs in
    if c == comma
    then comma_next
    else if c == cr
    then cr_next
    else if c == quote
    then more
    else none
read_from Place.ending cell row (c ∷ cs) =
    let rows = read_from Place.plain [] [] cs in if c == lf then before_rows row rows else none

unfoldable pub parse : Text → Option (List (List Text))
unfolding read_from
parse text = read_from Place.plain [] [] text
