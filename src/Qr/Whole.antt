-- ===== src/Qr/Whole.antt =====
-- A symbol is decoded to what was encoded (qr/qrEncoder.ts): `decodeForTest` after `encodeToMatrix`.
use bianhao.Base.{
  ℕ, ◌-◌, ◌/◌, ◌<◌, ◌≡◌, refl, ap, ◌∙◌, sym, Bool, Option, none, some, some_inj, List, [], ◌∷◌,
  ◌++◌, length, length-append, All, arith,
}
use bianhao.Money.{Text}
use bianhao.Qr.Bits.{bits_of_all-AllBits, length-bits_of_all, bits_of_all-append}
use bianhao.Qr.Cells.{AllApart, zigzag-AllApart}
use bianhao.Qr.Codewords.{build_codewords, codewords_of}
use bianhao.Qr.Contents.{chosen-Fits, content_of, decode_stream-detected}
use bianhao.Qr.Data.{choose_version, detect_mode, total_data_codewords}
use bianhao.Qr.Decode.{bits_of_all, decode_bits, decode_stream}
use bianhao.Qr.Grid.{Cell, Grid}
use bianhao.Qr.Layout.{Layout, function_layout}
use bianhao.Qr.Masking.{InfoReserved, IsMasked, best_of-IsMasked, scored-IsMasked, masked-Shows}
use bianhao.Qr.Matrix.{
  QrMatrix, encode_to_matrix, encode_with, masked, best_mask, symbol_of, modules_of, place, scored,
  zigzag,
}
use bianhao.Qr.Placement.{AllHave, Shows, read_cells-place, spread, spread-prefix}
use bianhao.Qr.Reading.{decode_for_test, read_cells, read_symbol}
use bianhao.Qr.Soundness.{Checked, function_layout-Checked}
use bianhao.Qr.Stream.{codewords_of-bits_of_all, data_part-AllBytes}
use bianhao.Qr.Symbols.{data_part, length-data_part, build_codewords_parts}
use bianhao.Qr.Utf8.{AllUnits}

every_cell-Shows :
    (v mask : ℕ) (layout : Layout) (placed : Grid (Option Bool)) (cells : List Cell)
    → InfoReserved v layout
    → AllHave (Layout.reserved layout) cells
    → All (Shows mask (Layout.reserved layout) placed (masked v mask layout placed)) cells
every_cell-Shows v mask layout placed [] info h = tt
every_cell-Shows v mask layout placed ((r, c) ∷ cells) info h = (
  masked-Shows v mask layout placed r c info h.0,
  every_cell-Shows v mask layout placed cells info h.1,
)

-- A sound layout, with its cells in the order of visits: what is read off a masked symbol.
module _ (v : ℕ) (layout : Layout) (cells : List Cell) (distinct : AllApart cells)
    (sound : Checked v layout cells) where
  read_masked :
      (mask : ℕ) (bits : List ℕ)
      → read_cells mask
          (Layout.reserved layout)
          (masked v mask layout (place (Layout.reserved layout) cells bits (Layout.base layout)))
          cells
        ≡ spread (Layout.reserved layout) cells bits
  read_masked mask bits =
      let (reserved_cells, base_cells, info, room) = sound in
      let placed = place (Layout.reserved layout) cells bits (Layout.base layout) in
      read_cells-place mask (Layout.reserved layout) (masked v mask layout placed) cells bits
        (Layout.base layout) distinct base_cells
        (every_cell-Shows v mask layout placed cells info reserved_cells)

  -- The packed bits start with the first codewords, as many as there is room for.
  read_codewords :
      (mask : ℕ) (front rest : List ℕ)
      → All (λ x. x < 256) front
      → length front ≡ total_data_codewords v
      → (more : List ℕ) × (decode_bits v (
            read_cells mask
              (Layout.reserved layout)
              (masked v mask layout (
                place
                  (Layout.reserved layout)
                  cells
                  (bits_of_all (front ++ rest))
                  (Layout.base layout)))
              cells)
          ≡ decode_stream v (front ++ more))
  unfolding decode_bits
  read_codewords mask front rest bytes len =
      let (reserved_cells, base_cells, info, room) = sound in
      let bits = bits_of_all front in
      let wide = length-bits_of_all front in
      let (tail, spreads) =
        spread-prefix (Layout.reserved layout) cells bits (bits_of_all rest)
          (bits_of_all-AllBits front) (omega (arith, wide, len, room)) in
      let found =
        read_masked mask (bits_of_all (front ++ rest))
        ∙ ap (spread (Layout.reserved layout) cells) (bits_of_all-append front rest)
        ∙ spreads in
      let count = length (bits ++ tail) / 8 in
      (
        codewords_of (count - length front) tail,
        ap (λ bs. decode_stream v (codewords_of (length bs / 8) bs)) found
            ∙ ap (decode_stream v) (
                codewords_of-bits_of_all front tail count bytes
                  (omega (arith, length-append bits tail, wide))),
      )

-- The chosen symbol is the one under the mask that it names.
best_mask-IsMasked :
    (v : ℕ) (layout : Layout) (codewords : List ℕ)
    → IsMasked v layout (modules_of layout codewords) (best_mask v layout codewords)
unfolding best_mask
best_mask-IsMasked v layout codewords =
    let modules = modules_of layout codewords in
    best_of-IsMasked v layout modules 7 1 (scored v layout modules 0)
      (scored-IsMasked v layout modules 0)

read_symbol_of :
    (v : ℕ) (layout : Layout) (front rest : List ℕ)
    → Checked v layout (zigzag (Layout.size layout))
    → All (λ x. x < 256) front
    → length front ≡ total_data_codewords v
    → (more : List ℕ) × (read_symbol layout (symbol_of v layout (front ++ rest))
        ≡ decode_stream v (front ++ more))
unfolding read_symbol symbol_of modules_of
read_symbol_of v layout front rest sound bytes len =
    let cells = zigzag (Layout.size layout) in
    let best = best_mask v layout (front ++ rest) in
    let (more, e) =
      read_codewords v layout cells (zigzag-AllApart (Layout.size layout)) sound best.0 front rest
        bytes len in
    (
      more,
      ap (λ grid. decode_bits v (read_cells best.0 (Layout.reserved layout) grid cells))
            (best_mask-IsMasked v layout (front ++ rest))
          ∙ e,
    )

decode_for_test_of :
    (v : ℕ) (layout : Layout) (codewords : List ℕ)
    → decode_for_test (symbol_of v layout codewords)
      ≡ read_symbol (function_layout v) (symbol_of v layout codewords)
unfolding decode_for_test symbol_of
decode_for_test_of v layout codewords = refl

decode_chosen :
    (text : Text) (v : ℕ)
    → AllUnits text
    → choose_version text (detect_mode text) ≡ some v
    → decode_for_test (symbol_of v (function_layout v) (build_codewords text (detect_mode text) v))
      ≡ content_of text (detect_mode text)
decode_chosen text v units chosen =
    let mode = detect_mode text in
    let (low, fits) = chosen-Fits text mode v chosen in
    let (rest, parts) = build_codewords_parts text mode v fits in
    let (more, reads) =
      read_symbol_of v (function_layout v) (data_part text mode v fits) rest
        (function_layout-Checked v low) (data_part-AllBytes text mode v fits)
        (length-data_part text mode v fits) in
    decode_for_test_of v (function_layout v) (build_codewords text mode v)
    ∙ ap (λ codewords. read_symbol (function_layout v) (symbol_of v (function_layout v) codewords))
        parts
    ∙ reads
    ∙ decode_stream-detected text v more units low fits

encode_to_matrix_of :
    (text : Text) (o : Option ℕ)
    → choose_version text (detect_mode text) ≡ o
    → encode_to_matrix text ≡ encode_with text o
unfolding encode_to_matrix
encode_to_matrix_of text o e = ap (encode_with text) e

decode_with :
    (text : Text) (qr : QrMatrix) (o : Option ℕ)
    → AllUnits text
    → choose_version text (detect_mode text) ≡ o
    → encode_with text o ≡ some qr
    → decode_for_test qr ≡ content_of text (detect_mode text)
unfolding encode_with
decode_with text qr none units chosen e = cc
decode_with text qr (some v) units chosen e =
    ap decode_for_test (sym (some_inj e)) ∙ decode_chosen text v units chosen

-- For a text of 16-bit units, the symbol that `encodeToMatrix` answers is decoded to the text's digits,
-- where it has only digits, and to its UTF-8 bytes otherwise.
pub decode-encode :
    (text : Text) (qr : QrMatrix)
    → AllUnits text
    → encode_to_matrix text ≡ some qr
    → decode_for_test qr ≡ content_of text (detect_mode text)
decode-encode text qr units e =
    decode_with text qr (choose_version text (detect_mode text)) units refl
      (sym (encode_to_matrix_of text (choose_version text (detect_mode text)) refl) ∙ e)
