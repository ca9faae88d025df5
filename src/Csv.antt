-- ===== src/Csv.antt =====
-- reporting/csv.ts: CSV texts of orders and refunds. A text is the list of its units, as in Money;
-- `units` gives the units of a text of the domain.
use bianhao.Base.{
  ℕ, zero, suc, ◌+◌, Bool, true, false, ◌&&◌, ◌||◌, String, Option, none, some, List, [], ◌∷◌, ◌++◌,
  map, ◌==◌, if◌then◌else◌, get_or, Map, get,
}
use bianhao.Domain.{Currency, Order, OrderStatus, PaymentMethod, Refund, RefundStatus}
use bianhao.Money.{Text, show}
pub mod Parser
pub mod Reading
pub mod Exports

-- The values of a record that is written: nothing, a number, or a text.
pub data Value : Type 0 where
  missing : Value
  number : ℕ → Value
  text : Text → Value

unfoldable pub stringify_cell : Value → Text
unfolding show
stringify_cell Value.missing = []
stringify_cell (Value.number n) = show n
stringify_cell (Value.text s) = s

abbrev pub quote : ℕ
quote = 34

abbrev pub comma : ℕ
comma = 44

abbrev pub cr : ℕ
cr = 13

abbrev pub lf : ℕ
lf = 10

-- `/[",\r\n]/`
unfoldable pub is_special : ℕ → Bool
is_special c = c == quote || c == comma || c == cr || c == lf

unfoldable pub needs_quotes : Text → Bool
unfolding is_special
needs_quotes [] = false
needs_quotes (c ∷ cs) = is_special c || needs_quotes cs

-- `s.replace(/"/g, '""')`
unfoldable pub double_quotes : Text → Text
double_quotes [] = []
double_quotes (c ∷ cs) =
    let rest = double_quotes cs in if c == quote then quote ∷ quote ∷ rest else c ∷ rest

unfoldable pub escape_text : Text → Text
unfolding needs_quotes double_quotes
escape_text s = if needs_quotes s then quote ∷ double_quotes s ++ quote ∷ [] else s

unfoldable pub escape_cell : Value → Text
unfolding stringify_cell escape_text
escape_cell value = escape_text (stringify_cell value)

-- `.map(escapeCell).join(',')`
unfoldable pub join_cells : List Value → Text
unfolding escape_cell
join_cells [] = []
join_cells (v ∷ []) = escape_cell v
join_cells (v ∷ w ∷ vs) = escape_cell v ++ comma ∷ join_cells (w ∷ vs)

unfoldable pub line_of : List Value → Text
unfolding join_cells
line_of cells = join_cells cells ++ cr ∷ lf ∷ []

-- The rows as the columns name them.
unfoldable pub cell_at : Option Value → Value
cell_at none = Value.missing
cell_at (some v) = v

unfoldable pub cells_of : List String → Map Value → List Value
unfolding cell_at
cells_of [] row = []
cells_of (column ∷ columns) row = cell_at (get column row) ∷ cells_of columns row

unfoldable pub lines_of : List (List Value) → Text
unfolding line_of
lines_of [] = []
lines_of (cells ∷ rows) = line_of cells ++ lines_of rows

module _ (units : String → Text) where
  unfoldable pub header_of : List String → List Value
  header_of [] = []
  header_of (column ∷ columns) = Value.text (units column) ∷ header_of columns

  unfoldable pub to_csv : List (Map Value) → List String → Text
  unfolding lines_of cells_of header_of
  to_csv rows columns = lines_of (header_of columns ∷ map (cells_of columns) rows)
