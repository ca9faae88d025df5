-- ===== src/Examples/QrRuns.antt =====
-- Symbols of short contents. The first is the worked example of the standard, 01234567.
use bianhao.Base.{◌≤◌, ℕ, ◌≡◌, refl, some, List, [], ◌∷◌, ◌++◌, arith}
use bianhao.Money.{Text}
use Prim.Native.Nat.{bit_xor}
use bianhao.Qr.Polynomials.{carryless, long_division, ones}
use bianhao.Qr.Words.{IsFormatWord, IsVersionWord, bch_words, format_mask}
use bianhao.Qr.Capacity.{Chosen, choose_version-Chosen}
use bianhao.Qr.Codewords.{build_codewords, data_codewords}
use bianhao.Qr.Contents.{content_of}
use bianhao.Qr.Data.{Mode, choose_version, detect_mode}
use bianhao.Qr.Evaluation.{value_at}
use bianhao.Qr.Field.{exp, gf_mul, rs_encode}
use bianhao.Qr.Layout.{bch_format, bch_version, function_layout}
use bianhao.Qr.Logarithms.{gf_mul_modulo}
use bianhao.Qr.Matrix.{QrMatrix, encode_to_matrix, symbol_of}
use bianhao.Qr.Reading.{decode_for_test}
use bianhao.Qr.Syndromes.{rs_encode_vanishes}
use bianhao.Qr.Whole.{decode-encode}

abbrev digits_text : Text
digits_text = 48 ∷ 49 ∷ 50 ∷ 51 ∷ 52 ∷ 53 ∷ 54 ∷ 55 ∷ []

-- The codewords of the standard's example.
abbrev example_block : List ℕ
example_block =
    0x10 ∷ 0x20 ∷ 0x0c ∷ 0x56 ∷ 0x61 ∷ 0x80 ∷ 0xec ∷ 0x11 ∷ 0xec ∷ 0x11 ∷ 0xec ∷ 0x11 ∷ 0xec ∷ 0x11
    ∷ 0xec ∷ 0x11 ∷ []

digits_block : data_codewords digits_text Mode.numeric 1 ≡ example_block
unfolding data_codewords
digits_block = refl

example_checks :
    rs_encode example_block 10
    ≡ 0xa5 ∷ 0x24 ∷ 0xd4 ∷ 0xc1 ∷ 0xed ∷ 0x36 ∷ 0xc7 ∷ 0x87 ∷ 0x2c ∷ 0x55 ∷ []
unfolding rs_encode
example_checks = refl

-- The published format and version words: mask 5 at level M, and version 7.
format_word : bch_format 5 ≡ 0x40ce
unfolding bch_format
format_word = refl

version_word : bch_version 7 ≡ 0x07c94
unfolding bch_version
version_word = refl

abbrev digits_symbol : QrMatrix
digits_symbol = symbol_of 1 (function_layout 1) (build_codewords digits_text Mode.numeric 1)

digits_encoded : encode_to_matrix digits_text ≡ some digits_symbol
unfolding encode_to_matrix
digits_encoded = refl

decode-encode_example :
    decode_for_test digits_symbol ≡ content_of digits_text (detect_mode digits_text)
decode-encode_example =
    decode-encode digits_text digits_symbol
      (
        omega arith,
        (
          omega arith,
          (
            omega arith,
            (omega arith, (omega arith, (omega arith, (omega arith, (omega arith, tt))))),
          ),
        ),
      )
      digits_encoded

choose_version-Chosen_example :
    Chosen 1 11 digits_text Mode.numeric (choose_version digits_text Mode.numeric)
choose_version-Chosen_example = choose_version-Chosen digits_text Mode.numeric

rs_encode_vanishes_example :
    value_at (exp 3) 0 ((0x40 ∷ 0xd2 ∷ 0x75 ∷ []) ++ rs_encode (0x40 ∷ 0xd2 ∷ 0x75 ∷ []) 10) ≡ 0
rs_encode_vanishes_example =
    rs_encode_vanishes (0x40 ∷ 0xd2 ∷ 0x75 ∷ []) 10 3
      (omega arith, (omega arith, (omega arith, tt))) (omega arith) (omega arith)

gf_mul_modulo_example : gf_mul 0x57 0x83 ≡ long_division 7 0x11d 8 (carryless 8 0 0x57 0x83)
gf_mul_modulo_example = gf_mul_modulo 0x57 0x83 (omega arith) (omega arith)

bch_words_example :
    IsFormatWord 5 (bit_xor (bch_format 5) format_mask)
    × IsVersionWord 7 (bch_version 7)
    × (7 ≤ ones 15 (bit_xor (bch_format 5) (bch_format 6)))
    × (8 ≤ ones 18 (bit_xor (bch_version 7) (bch_version 8)))
bch_words_example =
    bch_words 5 6 7 8 (omega arith) (omega arith) (λ e. omega arith) (omega arith) (omega arith)
      (λ e. omega arith)
