-- ===== src/Qr/Codewords.antt =====
-- qr/qrEncoder.ts: `buildCodewords`. The bits become data codewords, padded to the version's capacity,
-- split into blocks with their error correction codewords, and interleaved.
use bianhao.Base.{
  ℕ, zero, suc, ◌+◌, ◌-◌, ◌*◌, ◌/◌, ◌%◌, max, Option, none, some, List, [], ◌∷◌, ◌++◌, map, length,
  take, drop, ltb, ◌==◌, if◌then◌else◌, get_elem?, replicate,
}
use bianhao.Money.{Text}
use bianhao.Qr.Field.{rs_encode}
use bianhao.Qr.Data.{EcBlocks, ec_m, total_data_codewords, Mode, encode_data}

-- Up to `left` zero bits, while there is room.
unfoldable pub terminate : ℕ → ℕ → List ℕ → List ℕ
terminate zero capacity bits = bits
terminate (suc left) capacity bits =
    let longer = terminate left capacity (bits ++ 0 ∷ []) in
    if ltb (length bits) capacity then longer else bits

-- Zero bits up to a whole number of bytes; 8 turns are enough.
unfoldable pub fill_byte : ℕ → List ℕ → List ℕ
fill_byte zero bits = bits
fill_byte (suc left) bits =
    let longer = fill_byte left (bits ++ 0 ∷ []) in if length bits % 8 == 0 then bits else longer

-- The number that bits give, read on from `n`.
unfoldable pub number_from : ℕ → List ℕ → ℕ
number_from n [] = n
number_from n (b ∷ bits) = number_from (n * 2 + b) bits

unfoldable pub codewords_of : ℕ → List ℕ → List ℕ
unfolding number_from
codewords_of zero bits = []
codewords_of (suc n) bits = number_from 0 (take 8 bits) ∷ codewords_of n (drop 8 bits)

unfoldable pub pads : ℕ → ℕ → List ℕ
pads zero i = []
pads (suc n) i = (if i % 2 == 0 then 0xec else 0x11) ∷ pads n (suc i)

unfoldable pub pad_to : ℕ → List ℕ → List ℕ
unfolding pads
pad_to total codewords = codewords ++ pads (total - length codewords) 0

-- The terminated and filled bits, as codewords, padded.
unfoldable pub data_codewords : Text → Mode → ℕ → List ℕ
unfolding terminate fill_byte codewords_of pad_to encode_data total_data_codewords
data_codewords text mode version =
    let total = total_data_codewords version in
    let bits = fill_byte 8 (terminate 4 (total * 8) (encode_data text mode version)) in
    pad_to total (codewords_of (length bits / 8) bits)

unfoldable pub block_sizes : ℕ → List ℕ
unfolding ec_m replicate
block_sizes version =
    let e = ec_m version in
    replicate (EcBlocks.g1_blocks e) (EcBlocks.g1_data e)
    ++ replicate (EcBlocks.g2_blocks e) (EcBlocks.g2_data e)

unfoldable pub split_blocks : List ℕ → List ℕ → List (List ℕ)
split_blocks [] codewords = []
split_blocks (size ∷ sizes) codewords =
    take size codewords ∷ split_blocks sizes (drop size codewords)

abbrev pub push_some : Option ℕ → List ℕ → List ℕ
push_some none out = out
push_some (some x) out = x ∷ out

-- One turn of the interleaving: the i-th codeword of every block that has one.
unfoldable pub column : ℕ → List (List ℕ) → List ℕ
unfolding get_elem?
column i [] = []
column i (block ∷ blocks) = push_some (get_elem? i block) (column i blocks)

unfoldable pub interleave : ℕ → ℕ → List (List ℕ) → List ℕ
unfolding column
interleave zero i blocks = []
interleave (suc n) i blocks = column i blocks ++ interleave n (suc i) blocks

unfoldable pub max_data : ℕ → ℕ
unfolding ec_m
max_data version = max (EcBlocks.g1_data (ec_m version)) (EcBlocks.g2_data (ec_m version))

unfoldable pub ec_blocks : ℕ → List (List ℕ) → List (List ℕ)
unfolding rs_encode
ec_blocks ec_len blocks = map (λ block. rs_encode block ec_len) blocks

unfoldable pub build_codewords : Text → Mode → ℕ → List ℕ
unfolding data_codewords block_sizes split_blocks interleave max_data ec_blocks ec_m
build_codewords text mode version =
    let blocks = split_blocks (block_sizes version) (data_codewords text mode version) in
    let ec_len = EcBlocks.ec_per_block (ec_m version) in
    interleave (max_data version) 0 blocks ++ interleave ec_len 0 (ec_blocks ec_len blocks)
