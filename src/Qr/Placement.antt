-- ===== src/Qr/Placement.antt =====
-- Placed bits are read back, through the mask and past the format and version information
-- (qr/qrEncoder.ts).
use bianhao.Base.{
  ℕ, zero, suc, ◌/◌, ◌%◌, ◌^◌, ◌<◌, ◌≤◌, ◌≡◌, refl, ap, ◌∙◌, sym, subst, inl, inr, Bool, true,
  false, Option, some, List, [], ◌∷◌, ◌++◌, length, All, ◌==◌, if◌then◌else◌, arith, Bool-cases,
}
use bianhao.Qr.Bits.{AllBits}
use bianhao.Qr.Cells.{Absent, AllApart, apart}
use bianhao.Qr.Grid.{Cell, Grid, at, set_cell}
use bianhao.Qr.GridLaws.{Has, at_other, lookup, lookup_other, lookup_set, set_cell-Has}
use bianhao.Qr.Layout.{mask_fn}
use bianhao.Qr.Matrix.{Write, dark_of, differs, is_dark, place, rest_of, write_all}
use bianhao.Qr.Reading.{bit_of, read_cells}

-- The bits that the free ones of the cells receive.
unfoldable pub spread : Grid Bool → List Cell → List ℕ → List ℕ
spread reserved [] bits = []
spread reserved ((r, c) ∷ cells) bits =
    let skipped = spread reserved cells bits in
    let placed = bit_of (dark_of bits) ∷ spread reserved cells (rest_of bits) in
    if at false r c reserved then skipped else placed

abbrev pub AllHave {ℓ} : {A : Type ℓ} → Grid A → List Cell → Type ℓ
AllHave grid cells = All (λ cell. Has cell grid) cells

set_cell-AllHave {ℓ} :
    {A : Type ℓ} (r c : ℕ) (v : A) (grid : Grid A) (cells : List Cell)
    → AllHave grid cells
    → AllHave (set_cell r c v grid) cells
set_cell-AllHave r c v grid [] h = tt
set_cell-AllHave r c v grid ((s, d) ∷ cells) h =
    (set_cell-Has r c s d v grid h.0, set_cell-AllHave r c v grid cells h.1)

-- Placing leaves a cell that is not visited as it is.
place_other :
    (reserved : Grid Bool) (r c : ℕ) (cells : List Cell) (bits : List ℕ)
    (modules : Grid (Option Bool))
    → Absent (r, c) cells
    → lookup r c (place reserved cells bits modules) ≡ lookup r c modules
unfolding place
place_other reserved r c [] bits modules h = refl
place_other reserved r c ((s, d) ∷ cells) bits modules h =
    elim (Bool-cases (at false s d reserved)) [
      | inl fixed ↦ rw fixed (place_other reserved r c cells bits modules h.1)
      | inr free ↦ rw free (
          place_other reserved r c cells (rest_of bits) (set_cell s d (some (dark_of bits)) modules)
            h.1
          ∙ lookup_other s d r c (some (dark_of bits)) modules h.0)
    ]

-- What a free cell holds after placing, and what the grid shows there under a mask.
abbrev pub Shows : ℕ → Grid Bool → Grid (Option Bool) → Grid Bool → Cell → Type 0
Shows mask reserved placed grid (r, c) =
    at false r c reserved ≡ false
    → (v : Option Bool) → lookup r c placed ≡ some v
    → at false r c grid ≡ differs (is_dark v) (mask_fn mask r c)

unmask : (v m : Bool) → differs (differs v m) m ≡ v
unmask true true = refl
unmask true false = refl
unmask false true = refl
unmask false false = refl

module _ (reserved : Grid Bool) (r c : ℕ) (cells : List Cell) (bits : List ℕ)
    (modules : Grid (Option Bool)) where
  place_fixed :
      at false r c reserved ≡ true
      → place reserved ((r, c) ∷ cells) bits modules ≡ place reserved cells bits modules
  unfolding place
  place_fixed fixed = rw fixed refl

  place_free :
      at false r c reserved ≡ false
      → place reserved ((r, c) ∷ cells) bits modules
        ≡ place reserved cells (rest_of bits) (set_cell r c (some (dark_of bits)) modules)
  unfolding place
  place_free free = rw free refl

  -- A free cell holds the first of the bits, whatever follows.
  place_head :
      at false r c reserved ≡ false
      → Absent (r, c) cells
      → Has (r, c) modules
      → lookup r c (place reserved ((r, c) ∷ cells) bits modules) ≡ some (some (dark_of bits))
  place_head free absent (a, there) =
      ap (lookup r c) (place_free free)
      ∙ place_other reserved r c cells (rest_of bits) (set_cell r c (some (dark_of bits)) modules)
          absent
      ∙ lookup_set r c (some (dark_of bits)) a modules there

-- Reading the cells gives what was placed into them.
pub read_cells-place :
    (mask : ℕ) (reserved grid : Grid Bool) (cells : List Cell) (bits : List ℕ)
    (modules : Grid (Option Bool))
    → AllApart cells
    → AllHave modules cells
    → All (Shows mask reserved (place reserved cells bits modules) grid) cells
    → read_cells mask reserved grid cells ≡ spread reserved cells bits
unfolding place read_cells spread is_dark
read_cells-place mask reserved grid [] bits modules h k s = refl
read_cells-place mask reserved grid ((r, c) ∷ cells) bits modules h k s =
    let placed = place reserved ((r, c) ∷ cells) bits modules in
    elim (Bool-cases (at false r c reserved)) [
      | inl fixed ↦ rw fixed (
          read_cells-place mask reserved grid cells bits modules h.1 k.1 (
            subst (λ p. All (Shows mask reserved p grid) cells)
              (place_fixed reserved r c cells bits modules fixed) s.1))
      | inr free ↦
          let shown =
            s.0 free (some (dark_of bits))
              (place_head reserved r c cells bits modules free h.0 k.0) in
          let head =
            ap (λ v. bit_of (differs v (mask_fn mask r c))) shown
            ∙ ap bit_of (unmask (dark_of bits) (mask_fn mask r c)) in
          let tail =
            read_cells-place mask reserved grid cells (rest_of bits)
              (set_cell r c (some (dark_of bits)) modules) h.1
              (set_cell-AllHave r c (some (dark_of bits)) modules cells k.1)
              (subst (λ p. All (Shows mask reserved p grid) cells)
                (place_free reserved r c cells bits modules free) s.1) in
          rw free (
            ap (λ b. b ∷ read_cells mask reserved grid cells) head
            ∙ ap (λ bs. bit_of (dark_of bits) ∷ bs) tail)
    ]

-- Enough free cells receive all bits; the rest receive zeros.
unfoldable pub free_cells : Grid Bool → List Cell → ℕ
free_cells reserved [] = 0
free_cells reserved ((r, c) ∷ cells) =
    let rest = free_cells reserved cells in if at false r c reserved then rest else suc rest

bit_back : (b : ℕ) → b < 2 → bit_of (b == 1) ≡ b
bit_back zero h = refl
bit_back (suc zero) h = refl
bit_back (suc (suc b)) h = absurd (omega arith)

pub spread-prefix :
    (reserved : Grid Bool) (cells : List Cell) (bits : List ℕ) (more : List ℕ)
    → AllBits bits
    → length bits ≤ free_cells reserved cells
    → (rest : List ℕ) × (spread reserved cells (bits ++ more) ≡ bits ++ rest)
unfolding spread free_cells dark_of rest_of
spread-prefix reserved cells [] more h le = (spread reserved cells more, refl)
spread-prefix reserved [] (b ∷ bits) more h le = absurd (omega (arith, le))
spread-prefix reserved ((r, c) ∷ cells) (b ∷ bits) more h le =
    elim (Bool-cases (at false r c reserved)) [
      | inl fixed ↦ rw fixed (spread-prefix reserved cells (b ∷ bits) more h (fewer_fixed fixed le))
      | inr free ↦
          let (rest, e) = spread-prefix reserved cells bits more h.1 (fewer_free free le) in
          rw free (
            rest,
            ap (λ d. d ∷ spread reserved cells (bits ++ more)) (bit_back b h.0)
                ∙ ap (λ bs. b ∷ bs) e,
          )
    ]
  where
    fewer_fixed :
        at false r c reserved ≡ true
        → length (b ∷ bits) ≤ free_cells reserved ((r, c) ∷ cells)
        → length (b ∷ bits) ≤ free_cells reserved cells
    fewer_fixed fixed le = ground (arith, fixed, le)

    fewer_free :
        at false r c reserved ≡ false
        → length (b ∷ bits) ≤ free_cells reserved ((r, c) ∷ cells)
        → length bits ≤ free_cells reserved cells
    fewer_free free le = ground (arith, free, le)

-- A write at a reserved cell is not seen at a free one.
abbrev pub AllReserved : Grid Bool → List Write → Type 0
AllReserved reserved writes = All (λ write. at false write.0.0 write.0.1 reserved ≡ true) writes

reserved_apart :
    (reserved : Grid Bool) (r c s d : ℕ)
    → at false r c reserved ≡ false
    → at false s d reserved ≡ true
    → apart (r, c) (s, d) ≡ true
reserved_apart reserved r c s d free fixed = elim (Bool-cases (apart (r, c) (s, d))) [
  | inl e ↦ e
  | inr same ↦
      let rows : r ≡ s = ground arith in
      let cols : c ≡ d = ground arith in
      let clash : false ≡ true =
        sym free
        ∙ ap (λ x. at false x c reserved) rows
        ∙ ap (λ y. at false s y reserved) cols
        ∙ fixed in
      cc
]

pub write_all_other :
    (info : ℕ) (reserved : Grid Bool) (r c : ℕ) (writes : List Write) (grid : Grid Bool)
    → at false r c reserved ≡ false
    → AllReserved reserved writes
    → at false r c (write_all info writes grid) ≡ at false r c grid
unfolding write_all
write_all_other info reserved r c [] grid free h = refl
write_all_other info reserved r c (((s, d), i) ∷ writes) grid free h =
    write_all_other info reserved r c writes (set_cell s d (info / 2 ^ i % 2 == 1) grid) free h.1
    ∙ at_other false s d r c (info / 2 ^ i % 2 == 1) grid (reserved_apart reserved r c s d free h.0)
