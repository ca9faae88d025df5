-- ===== src/Qr/Soundness.antt =====
-- What the placement relies on, checked of each version's layout (qr/qrEncoder.ts) by evaluation.
use bianhao.Base.{
  leb→le, ℕ, ◌*◌, ◌≤◌, ◌<◌, ◌≡◌, refl, inl, inr, Bool, true, false, ◌&&◌, ◌||◌, is_some, List, [],
  ◌∷◌, leb, ltb, holds_below, holds_below_at, arith, Option-cases,
}
use bianhao.Qr.Data.{total_data_codewords}
use bianhao.Qr.Grid.{Cell, Grid, at, range}
use bianhao.Qr.GridLaws.{lookup}
use bianhao.Qr.Layout.{Layout, function_layout}
use bianhao.Qr.Masking.{InfoReserved}
use bianhao.Qr.Matrix.{Write, format_writes, version_writes, zigzag}
use bianhao.Qr.Placement.{AllHave, AllReserved, free_cells}

-- What is checked of a version's layout by evaluation: the matrices have the visited cells, format and
-- version information are reserved, and the free cells hold the data codewords.
unfoldable all_present {ℓ} : {A : Type ℓ} → Grid A → List Cell → Bool
unfolding lookup
all_present grid [] = true
all_present grid ((r, c) ∷ cells) = is_some (lookup r c grid) && all_present grid cells

unfoldable all_reserved : Grid Bool → List Write → Bool
unfolding at
all_reserved reserved [] = true
all_reserved reserved (((r, c), i) ∷ writes) = at false r c reserved && all_reserved reserved writes

unfoldable checks : ℕ → Layout → List Cell → Bool
unfolding all_present all_reserved format_writes version_writes range free_cells
    total_data_codewords
checks version layout cells =
    all_present (Layout.reserved layout) cells
    && (all_present (Layout.base layout) cells
        && (all_reserved (Layout.reserved layout) (format_writes (Layout.size layout))
            && ((ltb version 7
                  || all_reserved (Layout.reserved layout)
                      (version_writes (Layout.size layout) (range 0 18)))
                && leb (total_data_codewords version * 8)
                    (free_cells (Layout.reserved layout) cells))))

layout_table :
    holds_below 11 (λ v. checks v (function_layout v) (zigzag (Layout.size (function_layout v))))
    ≡ true
unfolding holds_below checks function_layout zigzag
layout_table = refl

all_present-AllHave {ℓ} :
    {A : Type ℓ} (grid : Grid A) (cells : List Cell)
    → all_present grid cells ≡ true
    → AllHave grid cells
unfolding all_present
all_present-AllHave grid [] h = tt
all_present-AllHave grid ((r, c) ∷ cells) h = elim (Option-cases (lookup r c grid)) [
  | inl e ↦ absurd (ground (arith, e, h))
  | inr (a, e) ↦ ((a, e), all_present-AllHave grid cells (ground arith))
]

all_reserved-AllReserved :
    (reserved : Grid Bool) (writes : List Write)
    → all_reserved reserved writes ≡ true
    → AllReserved reserved writes
unfolding all_reserved
all_reserved-AllReserved reserved [] h = tt
all_reserved-AllReserved reserved (((r, c), i) ∷ writes) h =
    (ground arith, all_reserved-AllReserved reserved writes (ground arith))

and_split : (a b : Bool) → (a && b) ≡ true → (a ≡ true) × (b ≡ true)
and_split true b h = (refl, h)
and_split false b h = cc

or_other : (v : ℕ) (b : Bool) → (ltb v 7 || b) ≡ true → leb 7 v ≡ true → b ≡ true
or_other v true h k = refl
or_other v false h k = ground arith

abbrev pub Checked : ℕ → Layout → List Cell → Type 0
Checked v layout cells =
    AllHave (Layout.reserved layout) cells
    × AllHave (Layout.base layout) cells
    × InfoReserved v layout
    × (total_data_codewords v * 8 ≤ free_cells (Layout.reserved layout) cells)

checks-Checked :
    (v : ℕ) (layout : Layout) (cells : List Cell)
    → checks v layout cells ≡ true
    → Checked v layout cells
unfolding checks
checks-Checked v layout cells h =
    let reserved = Layout.reserved layout in
    let size = Layout.size layout in
    let (present, h1) = and_split (all_present reserved cells) _ h in
    let (based, h2) = and_split (all_present (Layout.base layout) cells) _ h1 in
    let (formats, h3) = and_split (all_reserved reserved (format_writes size)) _ h2 in
    let (versions, enough) =
      and_split (ltb v 7 || all_reserved reserved (version_writes size (range 0 18))) _ h3 in
    (
      all_present-AllHave reserved cells present,
      all_present-AllHave (Layout.base layout) cells based,
      (
        all_reserved-AllReserved reserved (format_writes size) formats,
        λ large.
            all_reserved-AllReserved reserved (version_writes size (range 0 18))
              (or_other v _ versions large),
      ),
      leb→le (total_data_codewords v * 8) _ enough,
    )

pub function_layout-Checked :
    (v : ℕ) → v < 11 → Checked v (function_layout v) (zigzag (Layout.size (function_layout v)))
function_layout-Checked v low =
    checks-Checked v (function_layout v) (zigzag (Layout.size (function_layout v))) (
      holds_below_at 11
        (λ v. checks v (function_layout v) (zigzag (Layout.size (function_layout v)))) v
        layout_table low)
