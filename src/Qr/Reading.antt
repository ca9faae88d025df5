-- ===== src/Qr/Reading.antt =====
-- qr/qrEncoder.ts: `decodeForTest`, which reads the bits of a matrix in the order in which they were
-- placed.
use bianhao.Base.{ℕ, Bool, true, false, List, [], ◌∷◌, if◌then◌else◌}
use bianhao.Qr.Decode.{Payload, decode_bits}
use bianhao.Qr.Grid.{Cell, Grid, at}
use bianhao.Qr.Layout.{Layout, function_layout, mask_fn}
use bianhao.Qr.Matrix.{QrMatrix, differs, zigzag}

abbrev pub bit_of : Bool → ℕ
bit_of true = 1
bit_of false = 0

unfoldable pub read_cells : ℕ → Grid Bool → Grid Bool → List Cell → List ℕ
unfolding at mask_fn
read_cells mask reserved modules [] = []
read_cells mask reserved modules ((r, c) ∷ cells) =
    let rest = read_cells mask reserved modules cells in
    let bit = bit_of (differs (at false r c modules) (mask_fn mask r c)) in
    if at false r c reserved then rest else bit ∷ rest

unfoldable pub read_symbol : Layout → QrMatrix → Payload
unfolding read_cells zigzag decode_bits
read_symbol layout qr = decode_bits (QrMatrix.version qr) (
    read_cells (QrMatrix.mask qr) (Layout.reserved layout) (QrMatrix.modules qr)
      (zigzag (QrMatrix.size qr)))

unfoldable pub decode_for_test : QrMatrix → Payload
unfolding read_symbol function_layout
decode_for_test qr = read_symbol (function_layout (QrMatrix.version qr)) qr
