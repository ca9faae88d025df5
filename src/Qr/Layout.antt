-- ===== src/Qr/Layout.antt =====
-- qr/qrEncoder.ts: masks, the BCH codes of format and version, and the function patterns of a version.
use Prim.Native.Nat.{bit_xor, bit_or}
use bianhao.Base.{
  ℕ, zero, suc, ◌+◌, ◌-◌, ◌*◌, ◌/◌, ◌%◌, ◌^◌, max, Bool, true, false, not, ◌&&◌, ◌||◌, Option, none,
  some, List, [], ◌∷◌, leb, ltb, ◌==◌, if◌then◌else◌,
}
use bianhao.Qr.Grid.{Cell, Grid, at, product, range, set_cell, square}

unfoldable pub mask_fn : ℕ → ℕ → ℕ → Bool
mask_fn mask r c =
    if mask == 0
    then (r + c) % 2 == 0
    else if mask == 1
    then r % 2 == 0
    else if mask == 2
    then c % 3 == 0
    else if mask == 3
    then (r + c) % 3 == 0
    else if mask == 4
    then (r / 2 + c / 3) % 2 == 0
    else if mask == 5
    then (r * c) % 2 + (r * c) % 3 == 0
    else if mask == 6
    then ((r * c) % 2 + (r * c) % 3) % 2 == 0
    else ((r + c) % 2 + (r * c) % 3) % 2 == 0

-- `bitLen`; each turn halves n, so n turns are enough.
unfoldable pub bit_len_from : ℕ → ℕ → ℕ → ℕ
bit_len_from zero len n = len
bit_len_from (suc left) len n =
    let longer = bit_len_from left (suc len) (n / 2) in if n == 0 then len else longer

unfoldable pub bit_len : ℕ → ℕ
unfolding bit_len_from
bit_len n = bit_len_from n 0 n

-- The loop of the BCH codes: while d has as many bits as the generator, which has `width`, it is
-- reduced by the generator shifted to d's top. Each turn clears the top bit.
unfoldable pub reduce : ℕ → ℕ → ℕ → ℕ → ℕ
unfolding bit_len
reduce zero generator width d = d
reduce (suc left) generator width d =
    let reduced = reduce left generator width (bit_xor d (generator * 2 ^ (bit_len d - width))) in
    if leb width (bit_len d) then reduced else d

unfoldable pub bch_format : ℕ → ℕ
unfolding reduce
bch_format data' = bit_xor (bit_or (data' * 2 ^ 10) (reduce 16 0x537 11 (data' * 2 ^ 10))) 0x5412

unfoldable pub bch_version : ℕ → ℕ
unfolding reduce
bch_version version = bit_or (version * 2 ^ 12) (reduce 18 0x1f25 13 (version * 2 ^ 12))

-- ALIGN
unfoldable pub align : ℕ → List ℕ
align version =
    if version == 2
    then 6 ∷ 18 ∷ []
    else if version == 3
    then 6 ∷ 22 ∷ []
    else if version == 4
    then 6 ∷ 26 ∷ []
    else if version == 5
    then 6 ∷ 30 ∷ []
    else if version == 6
    then 6 ∷ 34 ∷ []
    else if version == 7
    then 6 ∷ 22 ∷ 38 ∷ []
    else if version == 8
    then 6 ∷ 24 ∷ 42 ∷ []
    else if version == 9
    then 6 ∷ 26 ∷ 46 ∷ []
    else if version == 10
    then 6 ∷ 28 ∷ 50 ∷ []
    else []

-- A null of the source's `base` is none.
pub record Layout : Type 0 where
  pub size : ℕ
  pub base : Grid (Option Bool)
  pub reserved : Grid Bool

unfoldable pub set_fn : ℕ → ℕ → Bool → Layout → Layout
unfolding set_cell
set_fn r c v layout = record {
  size = Layout.size layout;
  base = set_cell r c (some v) (Layout.base layout);
  reserved = set_cell r c true (Layout.reserved layout);
}

unfoldable pub reserve : ℕ → ℕ → Layout → Layout
unfolding set_cell
reserve r c layout = record {
  size = Layout.size layout;
  base = Layout.base layout;
  reserved = set_cell r c true (Layout.reserved layout);
}

unfoldable pub for_each {ℓ} : {A : Type ℓ} → (A → Layout → Layout) → List A → Layout → Layout
for_each body [] layout = layout
for_each body (x ∷ xs) layout = for_each body xs (body x layout)

abbrev pub within : ℕ → ℕ → ℕ → Bool
within lo hi n = leb lo n && leb n hi

-- `inRing`, where r and c are the source's plus 1.
unfoldable pub in_ring : ℕ → ℕ → Bool
in_ring r c =
    within 1 7 r
    && within 1 7 c
    && (r == 1 || r == 7 || c == 1 || c == 7 || (within 3 5 r && within 3 5 c))

-- One cell of `placeFinder`, -1 ≤ r, c ≤ 7 moved up by 1; cells outside of the symbol are skipped.
unfoldable pub finder_cell : ℕ → ℕ → Cell → Layout → Layout
unfolding set_fn in_ring
finder_cell r0 c0 (r, c) layout =
    if ltb 0 (r0 + r)
      && leb (r0 + r) (Layout.size layout)
      && ltb 0 (c0 + c)
      && leb (c0 + c) (Layout.size layout)
    then set_fn (r0 + r - 1) (c0 + c - 1) (in_ring r c) layout
    else layout

unfoldable pub place_finder : ℕ → ℕ → Layout → Layout
unfolding for_each finder_cell product range
place_finder r0 c0 layout = for_each (finder_cell r0 c0) (product (range 0 9) (range 0 9)) layout

unfoldable pub timing_cell : ℕ → Layout → Layout
unfolding set_fn
timing_cell i layout = set_fn i 6 (i % 2 == 0) (set_fn 6 i (i % 2 == 0) layout)

-- `Math.abs(a - b)`
abbrev pub away : ℕ → ℕ → ℕ
away a b = (a - b) + (b - a)

-- One cell of an alignment pattern around (r, c), whose offsets are moved up by 2.
unfoldable pub ring_cell : ℕ → ℕ → Cell → Layout → Layout
unfolding set_fn
ring_cell r c (dr, dc) layout =
    let ring = max (away dr 2) (away dc 2) in
    set_fn (r + dr - 2) (c + dc - 2) (not (ring == 1)) layout

unfoldable pub alignment : Cell → Layout → Layout
unfolding for_each ring_cell product range at
alignment (r, c) layout =
    if at false r c (Layout.reserved layout)
    then layout
    else for_each (ring_cell r c) (product (range 0 5) (range 0 5)) layout

unfoldable pub format_near : ℕ → Layout → Layout
unfolding reserve
format_near i layout = reserve i 8 (reserve 8 i layout)

unfoldable pub format_far : ℕ → Layout → Layout
unfolding reserve
format_far i layout =
    let last = Layout.size layout - 1 - i in reserve last 8 (reserve 8 last layout)

unfoldable pub version_cell : Cell → Layout → Layout
unfolding reserve
version_cell (i, j) layout = let k = Layout.size layout - 11 + j in reserve k i (reserve i k layout)

unfoldable pub blank_layout : ℕ → Layout
unfolding square
blank_layout size = record { size = size; base = square size none; reserved = square size false }

unfoldable pub function_layout : ℕ → Layout
unfolding blank_layout place_finder timing_cell alignment align set_fn format_near format_far
    version_cell for_each range product
function_layout version =
    let size = 17 + version * 4 in
    let blank = blank_layout size in
    let finders = place_finder (size - 7) 0 (place_finder 0 (size - 7) (place_finder 0 0 blank)) in
    let timed = for_each timing_cell (range 8 (size - 16)) finders in
    let aligned = for_each alignment (product (align version) (align version)) timed in
    let dark = set_fn (size - 8) 8 true aligned in
    let formats = for_each format_far (range 0 8) (for_each format_near (range 0 9) dark) in
    if leb 7 version
    then for_each version_cell (product (range 0 6) (range 0 3)) formats
    else formats
