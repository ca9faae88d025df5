-- ===== src/Qr/Stream.antt =====
-- The bits of a symbol's codewords, packed again (qr/qrEncoder.ts): the data codewords come first.
use bianhao.Base.{
  ℕ, zero, suc, ◌-◌, ◌*◌, ◌/◌, ◌^◌, ◌≤◌, ◌<◌, ◌≡◌, ap, ◌∙◌, sym, subst, inl, inr, some, some_inj,
  List, [], ◌∷◌, ◌++◌, length, take, drop, length-take, length-drop, All, All-append, All-take,
  All-drop, get_elem?, arith, Option-cases,
}
use bianhao.Money.{Text}
use bianhao.Qr.Capacity.{Fits}
use bianhao.Qr.Data.{Mode, bits_of, total_data_codewords}
use bianhao.Qr.Codewords.{
  block_sizes, codewords_of, column, data_codewords, interleave, max_data, number_from, pad_to,
  pads, push_some, split_blocks,
}
use bianhao.Qr.Decode.{bits_of_all}
use bianhao.Qr.Evaluation.{AllBytes}
use bianhao.Qr.Bits.{AllBits, number_from-bits_of, number_from_lt}
use bianhao.Qr.RoundTrip.{filled, filled-AllBits, filled_whole}
use bianhao.Qr.Symbols.{blocks, data_part, encode_data-AllBits}

codewords_of-AllBytes :
    (n : ℕ) (bits : List ℕ) → length bits ≡ n * 8 → AllBits bits → AllBytes (codewords_of n bits)
unfolding codewords_of
codewords_of-AllBytes zero bits e h = tt
codewords_of-AllBytes (suc n) bits e h =
    let len = length-take 8 bits (omega (arith, e)) in
    let small = number_from_lt (take 8 bits) (All-take (λ b. b < 2) 8 bits h) in
    (
      subst (λ k. number_from 0 (take 8 bits) < 2 ^ k) len small,
      codewords_of-AllBytes n (drop 8 bits) (omega (arith, e, length-drop 8 bits))
          (All-drop (λ b. b < 2) 8 bits h),
    )

pads-AllBytes : (n i : ℕ) → AllBytes (pads n i)
unfolding pads
pads-AllBytes zero i = tt
pads-AllBytes (suc n) i = (ground arith, pads-AllBytes n (suc i))

abbrev AllBlocks : List (List ℕ) → Type 0
AllBlocks bs = All AllBytes bs

split_blocks-AllBlocks :
    (sizes codewords : List ℕ) → AllBytes codewords → AllBlocks (split_blocks sizes codewords)
unfolding split_blocks
split_blocks-AllBlocks [] codewords h = tt
split_blocks-AllBlocks (size ∷ sizes) codewords h = (
  All-take (λ x. x < 256) size codewords h,
  split_blocks-AllBlocks sizes (drop size codewords) (All-drop (λ x. x < 256) size codewords h),
)

get_elem?-byte : (i x : ℕ) (block : List ℕ) → AllBytes block → get_elem? i block ≡ some x → x < 256
unfolding get_elem?
get_elem?-byte i x [] h e = cc
get_elem?-byte zero x (y ∷ ys) h e = subst (λ z. z < 256) (some_inj e) h.0
get_elem?-byte (suc i) x (y ∷ ys) h e = get_elem?-byte i x ys h.1 e

column-AllBytes : (i : ℕ) (bs : List (List ℕ)) → AllBlocks bs → AllBytes (column i bs)
unfolding column
column-AllBytes i [] h = tt
column-AllBytes i (block ∷ bs) h = elim (Option-cases (get_elem? i block)) [
  | inl e ↦ subst (λ o. AllBytes (push_some o (column i bs))) (sym e) (column-AllBytes i bs h.1)
  | inr (x, e) ↦
      subst (λ o. AllBytes (push_some o (column i bs))) (sym e)
        (get_elem?-byte i x block h.0 e, column-AllBytes i bs h.1)
]

interleave-AllBytes : (n i : ℕ) (bs : List (List ℕ)) → AllBlocks bs → AllBytes (interleave n i bs)
unfolding interleave
interleave-AllBytes zero i bs h = tt
interleave-AllBytes (suc n) i bs h =
    All-append (λ x. x < 256) (column i bs) (interleave n (suc i) bs) (column-AllBytes i bs h)
      (interleave-AllBytes n (suc i) bs h)

module _ (text : Text) (mode : Mode) (v : ℕ) (fits : Fits text mode v) where
  data_codewords-AllBytes : AllBytes (data_codewords text mode v)
  unfolding data_codewords pad_to
  data_codewords-AllBytes =
      let binary = encode_data-AllBits text mode v in
      let bits = filled text mode v fits binary in
      All-append (λ x. x < 256) (codewords_of (length bits / 8) bits)
        (pads (total_data_codewords v - length (codewords_of (length bits / 8) bits)) 0)
        (codewords_of-AllBytes (length bits / 8) bits
          (omega (arith, filled_whole text mode v fits binary))
          (filled-AllBits text mode v fits binary))
        (pads-AllBytes (total_data_codewords v - length (codewords_of (length bits / 8) bits)) 0)

  pub data_part-AllBytes : AllBytes (data_part text mode v fits)
  data_part-AllBytes =
      interleave-AllBytes (max_data v) 0 (blocks text mode v fits) (
        split_blocks-AllBlocks (block_sizes v) (data_codewords text mode v) data_codewords-AllBytes)

packed_byte : (b : ℕ) → b < 256 → number_from 0 (bits_of 8 b) ≡ b
packed_byte b h = omega (arith, number_from-bits_of 8 0 b)

-- Packing the bits of bytes and more gives the bytes and more.
pub codewords_of-bits_of_all :
    (bytes more : List ℕ) (n : ℕ)
    → AllBytes bytes
    → length bytes ≤ n
    → codewords_of n (bits_of_all bytes ++ more) ≡ bytes ++ codewords_of (n - length bytes) more
unfolding codewords_of bits_of_all
codewords_of-bits_of_all [] more n h le = ap (λ k. codewords_of k more) (omega arith)
codewords_of-bits_of_all (b ∷ bytes) more zero h le = absurd (omega arith)
codewords_of-bits_of_all (b ∷ bytes) more (suc n) h le =
    ap (λ x. x ∷ codewords_of n (bits_of_all bytes ++ more)) (packed_byte b h.0)
    ∙ ap (λ xs. b ∷ xs) (codewords_of-bits_of_all bytes more n h.1 (omega arith))
    ∙ ap (λ k. b ∷ bytes ++ codewords_of k more) (omega arith)
