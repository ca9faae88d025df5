-- ===== src/Qr/Masking.antt =====
-- A free module under a mask (qr/qrEncoder.ts): what it shows, and that the chosen symbol is the masked
-- one.
use bianhao.Base.{
  ℕ, zero, suc, ◌+◌, ◌≡◌, refl, ap, ◌∙◌, sym, inl, inr, Bool, true, false, Option, some, some_inj,
  List, [], ◌∷◌, get_elem?, leb, ltb, arith, Bool-cases,
}
use bianhao.Qr.Grid.{Grid, range}
use bianhao.Qr.GridLaws.{at-lookup, lookup}
use bianhao.Qr.Layout.{Layout, bch_format, bch_version, mask_fn}
use bianhao.Qr.Matrix.{
  Scored, best_of, better, differs, format_writes, is_dark, mask_row, mask_rows, masked, scored,
  version_writes, write_format, write_version,
}
use bianhao.Qr.Placement.{AllReserved, Shows, write_all_other}

plus_zero : (n : ℕ) → n ≡ n + 0
plus_zero n = omega arith

mask_row_at :
    (mask r c from : ℕ) (fixed : List Bool) (row : List (Option Bool)) (v : Option Bool)
    → get_elem? c fixed ≡ some false
    → get_elem? c row ≡ some v
    → get_elem? c (mask_row mask r from fixed row)
      ≡ some (differs (is_dark v) (mask_fn mask r (from + c)))
unfolding mask_row get_elem?
mask_row_at mask r c from [] row v f h = cc
mask_row_at mask r c from (x ∷ fixed) [] v f h = cc
mask_row_at mask r zero from (x ∷ fixed) (w ∷ row) v f h =
    let open_cell : x ≡ false = some_inj f in
    let same : w ≡ v = some_inj h in
    rw open_cell (
      ap (λ o. some (differs (is_dark o) (mask_fn mask r from))) same
      ∙ ap (λ k. some (differs (is_dark v) (mask_fn mask r k))) (plus_zero from))
mask_row_at mask r (suc c) from (x ∷ fixed) (w ∷ row) v f h =
    mask_row_at mask r c (suc from) fixed row v f h
    ∙ ap (λ k. some (differs (is_dark v) (mask_fn mask r k))) (omega arith)

zero_plus : (n : ℕ) → 0 + n ≡ n
zero_plus n = omega arith

mask_rows_at :
    (mask r c from : ℕ) (reserved : Grid Bool) (modules : Grid (Option Bool)) (v : Option Bool)
    → lookup r c reserved ≡ some false
    → lookup r c modules ≡ some v
    → lookup r c (mask_rows mask from reserved modules)
      ≡ some (differs (is_dark v) (mask_fn mask (from + r) c))
unfolding mask_rows lookup get_elem?
mask_rows_at mask r c from [] modules v f h = cc
mask_rows_at mask r c from (fixed ∷ reserved) [] v f h = cc
mask_rows_at mask zero c from (fixed ∷ reserved) (row ∷ modules) v f h =
    mask_row_at mask from c 0 fixed row v f h
    ∙ ap (λ k. some (differs (is_dark v) (mask_fn mask from k))) (zero_plus c)
    ∙ ap (λ k. some (differs (is_dark v) (mask_fn mask k c))) (plus_zero from)
mask_rows_at mask (suc r) c from (fixed ∷ reserved) (row ∷ modules) v f h =
    mask_rows_at mask r c (suc from) reserved modules v f h
    ∙ ap (λ k. some (differs (is_dark v) (mask_fn mask k c))) (omega arith)

-- Format and version information are written to reserved modules only.
abbrev pub InfoReserved : ℕ → Layout → Type 0
InfoReserved version layout =
    AllReserved (Layout.reserved layout) (format_writes (Layout.size layout))
    × (leb 7 version ≡ true
        → AllReserved (Layout.reserved layout) (version_writes (Layout.size layout) (range 0 18)))

pub masked-Shows :
    (version mask : ℕ) (layout : Layout) (placed : Grid (Option Bool)) (r c : ℕ)
    → InfoReserved version layout
    → (fixed : Bool) × (lookup r c (Layout.reserved layout) ≡ some fixed)
    → Shows mask (Layout.reserved layout) placed (masked version mask layout placed) (r, c)
unfolding masked write_format write_version
masked-Shows version mask layout placed r c info (fixed, there) free v h =
    let reserved = Layout.reserved layout in
    let size = Layout.size layout in
    let open_cell : lookup r c reserved ≡ some false =
      there ∙ ap some (sym (at-lookup false r c fixed reserved there) ∙ free) in
    let plain = mask_rows mask 0 reserved placed in
    let shown =
      at-lookup false r c (differs (is_dark v) (mask_fn mask (0 + r) c)) plain
        (mask_rows_at mask r c 0 reserved placed v open_cell h)
      ∙ ap (λ k. differs (is_dark v) (mask_fn mask k c)) (zero_plus r) in
    let formatted = write_format mask size plain in
    let past_format =
      write_all_other (bch_format mask) reserved r c (format_writes size) plain free info.0 in
    elim (Bool-cases (leb 7 version)) [
      | inl large ↦ rw large (
          write_all_other (bch_version version) reserved r c (version_writes size (range 0 18))
            formatted free (info.1 large)
          ∙ past_format
          ∙ shown)
      | inr small ↦ rw small (past_format ∙ shown)
    ]

-- The grid of the best mask so far is the symbol under that mask.
abbrev pub IsMasked : ℕ → Layout → Grid (Option Bool) → Scored → Type 0
IsMasked version layout modules (mask, penalty, grid) = grid ≡ masked version mask layout modules

better-IsMasked :
    (version : ℕ) (layout : Layout) (modules : Grid (Option Bool)) (a b : Scored)
    → IsMasked version layout modules a
    → IsMasked version layout modules b
    → IsMasked version layout modules (better a b)
unfolding better
better-IsMasked version layout modules (mask, penalty, grid) (next, score, other) h k =
    elim (Bool-cases (ltb score penalty)) [ inl lower ↦ rw lower k | inr higher ↦ rw higher h ]

pub best_of-IsMasked :
    (version : ℕ) (layout : Layout) (modules : Grid (Option Bool)) (left mask : ℕ) (best : Scored)
    → IsMasked version layout modules best
    → IsMasked version layout modules (best_of (scored version layout modules) left mask best)
unfolding best_of scored
best_of-IsMasked version layout modules zero mask best h = h
best_of-IsMasked version layout modules (suc left) mask best h =
    best_of-IsMasked version layout modules left (suc mask) _
      (better-IsMasked version layout modules best (scored version layout modules mask) h refl)

pub scored-IsMasked :
    (version : ℕ) (layout : Layout) (modules : Grid (Option Bool)) (mask : ℕ)
    → IsMasked version layout modules (scored version layout modules mask)
unfolding scored
scored-IsMasked version layout modules mask = refl
