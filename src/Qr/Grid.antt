-- ===== src/Qr/Grid.antt =====
-- The matrices of qr/qrEncoder.ts: lists of rows. A write outside of the matrix, which the source does
-- not make, changes nothing, and a read there gives the fallback.
use bianhao.Base.{ℕ, zero, suc, List, [], ◌∷◌, ◌++◌, get_elem?, get_or, replicate}

abbrev pub Grid {ℓ} : Type ℓ → Type ℓ
Grid A = List (List A)

-- A row and a column.
abbrev pub Cell : Type 0
Cell = ℕ × ℕ

module _ {ℓ} {A : Type ℓ} where
  unfoldable pub put_at : ℕ → A → List A → List A
  put_at i v [] = []
  put_at zero v (x ∷ xs) = v ∷ xs
  put_at (suc i) v (x ∷ xs) = x ∷ put_at i v xs

  unfoldable pub set_cell : ℕ → ℕ → A → Grid A → Grid A
  unfolding put_at
  set_cell r c v [] = []
  set_cell zero c v (row ∷ rows) = put_at c v row ∷ rows
  set_cell (suc r) c v (row ∷ rows) = row ∷ set_cell r c v rows

  unfoldable pub at : A → ℕ → ℕ → Grid A → A
  unfolding get_elem?
  at fallback r c grid = get_or (get_elem? c (get_or (get_elem? r grid) [])) fallback

  unfoldable pub square : ℕ → A → Grid A
  unfolding replicate
  square n v = replicate n (replicate n v)

-- The numbers from i on, n of them.
unfoldable pub range : ℕ → ℕ → List ℕ
range i zero = []
range i (suc n) = i ∷ range (suc i) n

-- Two nested loops.
unfoldable pub cells_of_row : ℕ → List ℕ → List Cell
cells_of_row r [] = []
cells_of_row r (c ∷ cs) = (r, c) ∷ cells_of_row r cs

unfoldable pub product : List ℕ → List ℕ → List Cell
unfolding cells_of_row
product [] cs = []
product (r ∷ rs) cs = cells_of_row r cs ++ product rs cs
