-- ===== src/Qr/GridLaws.antt =====
-- Reading a matrix after a write (qr/qrEncoder.ts).
use bianhao.Base.{
  ℕ, zero, suc, ◌≡◌, refl, ap, ◌∙◌, sym, inl, inr, true, false, Option, some, List, [], ◌∷◌, ◌==◌,
  get_elem?, get_or, arith, Bool-cases,
}
use bianhao.Qr.Grid.{Cell, Grid, at, put_at, set_cell}
use bianhao.Qr.Cells.{apart}

module _ {ℓ} {A : Type ℓ} where
  unfoldable pub lookup : ℕ → ℕ → Grid A → Option A
  unfolding get_elem?
  lookup r c grid = get_elem? c (get_or (get_elem? r grid) [])

  -- The matrix has the cell.
  abbrev pub Has : Cell → Grid A → Type ℓ
  Has (r, c) grid = (a : A) × (lookup r c grid ≡ some a)

  pub at-lookup :
      (f : A) (r c : ℕ) (a : A) (grid : Grid A) → lookup r c grid ≡ some a → at f r c grid ≡ a
  unfolding at lookup
  at-lookup f r c a grid h = ap (λ o. get_or o f) h

  put_at_there :
      (i : ℕ) (v a : A) (xs : List A)
      → get_elem? i xs ≡ some a
      → get_elem? i (put_at i v xs) ≡ some v
  unfolding put_at get_elem?
  put_at_there i v a [] h = cc
  put_at_there zero v a (x ∷ xs) h = refl
  put_at_there (suc i) v a (x ∷ xs) h = put_at_there i v a xs h

  put_at_other :
      (i j : ℕ) (v : A) (xs : List A)
      → (i == j) ≡ false
      → get_elem? j (put_at i v xs) ≡ get_elem? j xs
  unfolding put_at get_elem?
  put_at_other i j v [] h = refl
  put_at_other zero zero v (x ∷ xs) h = absurd (ground arith)
  put_at_other zero (suc j) v (x ∷ xs) h = refl
  put_at_other (suc i) zero v (x ∷ xs) h = refl
  put_at_other (suc i) (suc j) v (x ∷ xs) h = put_at_other i j v xs (ground arith)

  -- A write is read at its cell.
  pub lookup_set :
      (r c : ℕ) (v a : A) (grid : Grid A)
      → lookup r c grid ≡ some a
      → lookup r c (set_cell r c v grid) ≡ some v
  unfolding lookup set_cell get_elem?
  lookup_set r c v a [] h = cc
  lookup_set zero c v a (row ∷ rows) h = put_at_there c v a row h
  lookup_set (suc r) c v a (row ∷ rows) h = lookup_set r c v a rows h

  -- Every other cell reads as before.
  pub lookup_other :
      (r c s d : ℕ) (v : A) (grid : Grid A)
      → apart (s, d) (r, c) ≡ true
      → lookup s d (set_cell r c v grid) ≡ lookup s d grid
  unfolding lookup set_cell get_elem?
  lookup_other r c s d v [] h = refl
  lookup_other zero c zero d v (row ∷ rows) h = put_at_other c d v row (ground arith)
  lookup_other zero c (suc s) d v (row ∷ rows) h = refl
  lookup_other (suc r) c zero d v (row ∷ rows) h = refl
  lookup_other (suc r) c (suc s) d v (row ∷ rows) h = lookup_other r c s d v rows (ground arith)

  pub at_other :
      (f : A) (r c s d : ℕ) (v : A) (grid : Grid A)
      → apart (s, d) (r, c) ≡ true
      → at f s d (set_cell r c v grid) ≡ at f s d grid
  unfolding at lookup
  at_other f r c s d v grid h = ap (λ o. get_or o f) (lookup_other r c s d v grid h)

  pub set_cell-Has :
      (r c s d : ℕ) (v : A) (grid : Grid A) → Has (s, d) grid → Has (s, d) (set_cell r c v grid)
  set_cell-Has r c s d v grid (a, h) = elim (Bool-cases (apart (s, d) (r, c))) [
    | inl other ↦ (a, lookup_other r c s d v grid other ∙ h)
    | inr same ↦
        let rows : s ≡ r = ground arith in
        let cols : d ≡ c = ground arith in
        (
          v,
          ap (λ x. lookup x d (set_cell r c v grid)) rows
              ∙ ap (λ y. lookup r y (set_cell r c v grid)) cols
              ∙ lookup_set r c v a grid
                  (ap (λ x. lookup x c grid) (sym rows) ∙ ap (λ y. lookup s y grid) (sym cols) ∙ h),
        )
  ]
