-- ===== src/Qr/Symbols.antt =====
-- The codewords of a symbol (qr/qrEncoder.ts) lead the decoder back to the encoded bits.
use bianhao.Base.{
  ℕ, zero, suc, ◌+◌, ◌*◌, ◌≤◌, ◌<◌, ◌≡◌, refl, ap, ◌∙◌, sym, List, [], ◌∷◌, ◌++◌, length, take-all,
  All, All-append, replicate, arith,
}
use bianhao.Money.{Text, value_from}
use bianhao.Qr.Capacity.{Fits}
use bianhao.Qr.Data.{
  EcBlocks, Mode, ec_m, encode_data, put_bytes, put_digits, put, total_data_codewords, utf8,
  bits_of,
}
use bianhao.Qr.Codewords.{
  block_sizes, build_codewords, data_codewords, ec_blocks, interleave, max_data, split_blocks,
}
use bianhao.Qr.Decode.{
  bits_of_all, deal, decode_stream, deinterleave, empty_blocks, join, read_payload,
}
use bianhao.Qr.Blocks.{Sized, deal-interleave, join-split_blocks, split_blocks-Sized, starts, total}
use bianhao.Qr.Counts.{length-interleave, spent, spent_total, spent_none}
use bianhao.Qr.Bits.{AllBits, bits_of-AllBits}
use bianhao.Qr.RoundTrip.{data_codewords_bits, length-data_codewords}

pub put-AllBits : (bits : List ℕ) (value n : ℕ) → AllBits bits → AllBits (put bits value n)
unfolding put
put-AllBits bits value n h =
    All-append (λ b. b < 2) bits (bits_of n value) h (bits_of-AllBits n value)

put_digits-AllBits : (bits : List ℕ) (text : Text) → AllBits bits → AllBits (put_digits bits text)
unfolding put_digits
put_digits-AllBits bits [] h = h
put_digits-AllBits bits (a ∷ []) h = put-AllBits bits _ 4 h
put_digits-AllBits bits (a ∷ b ∷ []) h = put-AllBits bits _ 7 h
put_digits-AllBits bits (a ∷ b ∷ c ∷ rest) h =
    put_digits-AllBits (put bits (value_from 0 (a ∷ b ∷ c ∷ [])) 10) rest (put-AllBits bits _ 10 h)

put_bytes-AllBits : (bits bytes : List ℕ) → AllBits bits → AllBits (put_bytes bits bytes)
unfolding put_bytes
put_bytes-AllBits bits [] h = h
put_bytes-AllBits bits (b ∷ bytes) h =
    put_bytes-AllBits (put bits b 8) bytes (put-AllBits bits b 8 h)

pub encode_data-AllBits : (text : Text) (mode : Mode) (v : ℕ) → AllBits (encode_data text mode v)
unfolding encode_data
encode_data-AllBits text Mode.numeric v =
    put_digits-AllBits _ text (put-AllBits (put [] 1 4) (length text) _ (put-AllBits [] 1 4 tt))
encode_data-AllBits text Mode.byte v =
    put_bytes-AllBits _ (utf8 text)
      (put-AllBits (put [] 4 4) (length (utf8 text)) _ (put-AllBits [] 4 4 tt))

total-append : (xs ys : List ℕ) → total (xs ++ ys) ≡ total xs + total ys
total-append [] ys = omega arith
total-append (x ∷ xs) ys = omega (arith, total-append xs ys)

total-replicate : (n x : ℕ) → total (replicate n x) ≡ n * x
unfolding replicate
total-replicate zero x = omega arith
total-replicate (suc n) x = grind (arith, total-replicate n x)

replicate-All : (n x limit : ℕ) → x ≤ limit → All (λ s. s ≤ limit) (replicate n x)
unfolding replicate
replicate-All zero x limit h = tt
replicate-All (suc n) x limit h = (h, replicate-All n x limit h)

zero_add : (n : ℕ) → 0 + n ≡ n
zero_add n = omega arith

-- The blocks of a version hold its data codewords, and none is longer than `max_data`.
total-block_sizes : (v : ℕ) → total (block_sizes v) ≡ total_data_codewords v
unfolding block_sizes total_data_codewords
total-block_sizes v =
    let e = ec_m v in
    omega (
      arith,
      total-append (replicate (EcBlocks.g1_blocks e) (EcBlocks.g1_data e))
          (replicate (EcBlocks.g2_blocks e) (EcBlocks.g2_data e)),
      total-replicate (EcBlocks.g1_blocks e) (EcBlocks.g1_data e),
      total-replicate (EcBlocks.g2_blocks e) (EcBlocks.g2_data e),
    )

block_sizes_le : (v : ℕ) → All (λ s. s ≤ max_data v) (block_sizes v)
unfolding block_sizes max_data
block_sizes_le v =
    let e = ec_m v in
    All-append (λ s. s ≤ max_data v) (replicate (EcBlocks.g1_blocks e) (EcBlocks.g1_data e))
      (replicate (EcBlocks.g2_blocks e) (EcBlocks.g2_data e))
      (replicate-All (EcBlocks.g1_blocks e) (EcBlocks.g1_data e) _ (omega arith))
      (replicate-All (EcBlocks.g2_blocks e) (EcBlocks.g2_data e) _ (omega arith))

starts_none :
    (sizes : List ℕ) (blocks : List (List ℕ))
    → Sized sizes blocks
    → empty_blocks sizes ≡ starts 0 blocks
unfolding empty_blocks
starts_none [] [] h = refl
starts_none [] (block ∷ blocks) h = absurd h
starts_none (size ∷ sizes) [] h = absurd h
starts_none (size ∷ sizes) (block ∷ blocks) h = ap (λ bs. [] ∷ bs) (starts_none sizes blocks h.1)

starts_full :
    (n : ℕ) (sizes : List ℕ) (blocks : List (List ℕ))
    → Sized sizes blocks
    → All (λ s. s ≤ n) sizes
    → starts n blocks ≡ blocks
starts_full n [] [] h le = refl
starts_full n [] (block ∷ blocks) h le = absurd h
starts_full n (size ∷ sizes) [] h le = absurd h
starts_full n (size ∷ sizes) (block ∷ blocks) h le =
    rw (take-all n block (omega (arith, h.0, le.0)), starts_full n sizes blocks h.1 le.1) refl

module _ (text : Text) (mode : Mode) (v : ℕ) (fits : Fits text mode v) where
  abbrev pub codewords : List ℕ
  codewords = data_codewords text mode v

  abbrev pub blocks : List (List ℕ)
  blocks = split_blocks (block_sizes v) codewords

  length-codewords : length codewords ≡ total (block_sizes v)
  length-codewords =
      length-data_codewords text mode v fits (encode_data-AllBits text mode v)
      ∙ sym (total-block_sizes v)

  pub blocks-Sized : Sized (block_sizes v) blocks
  blocks-Sized = split_blocks-Sized (block_sizes v) codewords (omega (arith, length-codewords))

  -- The interleaved data codewords, which the error correction codewords follow.
  abbrev pub data_part : List ℕ
  data_part = interleave (max_data v) 0 blocks

  -- The decoder's blocks are the encoder's, whatever follows the data codewords.
  deinterleave-data_part : (checks : List ℕ) → deinterleave v (data_part ++ checks) ≡ codewords
  unfolding deinterleave
  deinterleave-data_part checks =
      ap (λ bs. join (deal (max_data v) 0 (block_sizes v) bs (data_part ++ checks)))
        (starts_none (block_sizes v) blocks blocks-Sized)
      ∙ ap join (
          deal-interleave (max_data v) 0 (block_sizes v) blocks checks blocks-Sized
          ∙ ap (λ n. starts n blocks) (zero_add (max_data v))
          ∙ starts_full (max_data v) (block_sizes v) blocks blocks-Sized (block_sizes_le v))
      ∙ join-split_blocks (block_sizes v) codewords length-codewords

  -- What the decoder parses starts with what the encoder put.
  pub decode_stream-data_part :
      (checks : List ℕ)
      → (more : List ℕ) × (decode_stream v (data_part ++ checks)
          ≡ read_payload v (encode_data text mode v ++ more))
  unfolding decode_stream
  decode_stream-data_part checks =
      let (more, e) = data_codewords_bits text mode v fits (encode_data-AllBits text mode v) in
      (more, ap (read_payload v) (ap bits_of_all (deinterleave-data_part checks) ∙ e))

  -- There are as many data codewords as the version has room for.
  pub length-data_part : length data_part ≡ total_data_codewords v
  length-data_part =
      let count = length-interleave (max_data v) 0 blocks in
      let none_yet = spent_none blocks in
      let all_spent =
        spent_total (max_data v) (block_sizes v) blocks blocks-Sized (block_sizes_le v) in
      omega (
        arith,
        count,
        none_yet,
        ap (λ n. spent n blocks) (zero_add (max_data v)),
        all_spent,
        total-block_sizes v,
      )

  -- The codewords of a symbol are the data codewords and then the error correction codewords.
  pub build_codewords_parts : (rest : List ℕ) × (build_codewords text mode v ≡ data_part ++ rest)
  unfolding build_codewords
  build_codewords_parts =
      let ec_len = EcBlocks.ec_per_block (ec_m v) in
      (interleave ec_len 0 (ec_blocks ec_len blocks), refl)
