-- ===== src/Qr/Decode.antt =====
-- qr/qrEncoder.ts: `decodeForTest`, from the bits that were read off the matrix. The last step,
-- `Buffer.toString('utf8')`, is left out: bytes are answered as they are.
use bianhao.Base.{
  ℕ, zero, suc, ◌+◌, ◌*◌, ◌/◌, List, [], ◌∷◌, ◌++◌, length, ltb, ◌==◌, if◌then◌else◌,
}
use bianhao.Money.{Text, show, pad_start}
use bianhao.Qr.Data.{Mode, bits_of, count_bits}
use bianhao.Qr.Codewords.{codewords_of, block_sizes, max_data}

-- One turn of the de-interleaving: a codeword for every block that has an i-th. What is left of the
-- stream is kept; past its end nothing is added.
unfoldable pub give : ℕ → ℕ → List ℕ → List ℕ → List ℕ
give i size block [] = block
give i size block (s ∷ stream) = if ltb i size then block ++ s ∷ [] else block

unfoldable pub rest_after : ℕ → ℕ → List ℕ → List ℕ
rest_after i size [] = []
rest_after i size (s ∷ stream) = if ltb i size then stream else s ∷ stream

unfoldable pub deal_row : ℕ → List ℕ → List (List ℕ) → List ℕ → List (List ℕ) × List ℕ
unfolding give rest_after
deal_row i [] blocks stream = ([], stream)
deal_row i (size ∷ sizes) [] stream = ([], stream)
deal_row i (size ∷ sizes) (block ∷ blocks) stream =
    let (dealt, left) = deal_row i sizes blocks (rest_after i size stream) in
    (give i size block stream ∷ dealt, left)

unfoldable pub deal : ℕ → ℕ → List ℕ → List (List ℕ) → List ℕ → List (List ℕ)
unfolding deal_row
deal zero i sizes blocks stream = blocks
deal (suc n) i sizes blocks stream =
    let (dealt, left) = deal_row i sizes blocks stream in deal n (suc i) sizes dealt left

unfoldable pub join : List (List ℕ) → List ℕ
join [] = []
join (block ∷ blocks) = block ++ join blocks

unfoldable pub bits_of_all : List ℕ → List ℕ
unfolding bits_of
bits_of_all [] = []
bits_of_all (b ∷ bytes) = bits_of 8 b ++ bits_of_all bytes

-- `take(n)`, after the bits read so far have given `v`. A bit past the end counts as 0.
unfoldable pub read : ℕ → ℕ → List ℕ → ℕ × List ℕ
read zero v bits = (v, bits)
read (suc n) v [] = read n (v * 2) []
read (suc n) v (b ∷ bits) = read n (v * 2 + b) bits

unfoldable pub read_bytes : ℕ → List ℕ → List ℕ
unfolding read
read_bytes zero bits = []
read_bytes (suc n) bits = let (b, left) = read 8 0 bits in b ∷ read_bytes n left

unfoldable pub read_digits : ℕ → List ℕ → Text
unfolding read show pad_start
read_digits zero bits = []
read_digits (suc zero) bits = let (v, left) = read 4 0 bits in show v
read_digits (suc (suc zero)) bits = let (v, left) = read 7 0 bits in pad_start 2 (show v)
read_digits (suc (suc (suc n))) bits =
    let (v, left) = read 10 0 bits in pad_start 3 (show v) ++ read_digits n left

pub data Payload : Type 0 where
  digits : Text → Payload
  bytes : List ℕ → Payload

unfoldable pub digits_of : ℕ × List ℕ → Payload
unfolding read_digits
digits_of (count, bits) = Payload.digits (read_digits count bits)

unfoldable pub bytes_of : ℕ × List ℕ → Payload
unfolding read_bytes
bytes_of (count, bits) = Payload.bytes (read_bytes count bits)

-- What follows the mode indicator.
unfoldable pub payload_of : ℕ → ℕ × List ℕ → Payload
unfolding read count_bits digits_of bytes_of
payload_of version (mode, rest) =
    if mode == 1
    then digits_of (read (count_bits Mode.numeric version) 0 rest)
    else bytes_of (read (count_bits Mode.byte version) 0 rest)

unfoldable pub read_payload : ℕ → List ℕ → Payload
unfolding read payload_of
read_payload version bits = payload_of version (read 4 0 bits)

unfoldable pub empty_blocks : List ℕ → List (List ℕ)
empty_blocks [] = []
empty_blocks (size ∷ sizes) = [] ∷ empty_blocks sizes

unfoldable pub deinterleave : ℕ → List ℕ → List ℕ
unfolding deal join block_sizes max_data empty_blocks
deinterleave version stream =
    let sizes = block_sizes version in
    join (deal (max_data version) 0 sizes (empty_blocks sizes) stream)

unfoldable pub decode_stream : ℕ → List ℕ → Payload
unfolding deinterleave bits_of_all read_payload
decode_stream version stream = read_payload version (bits_of_all (deinterleave version stream))

unfoldable pub decode_bits : ℕ → List ℕ → Payload
unfolding codewords_of decode_stream
decode_bits version bits = decode_stream version (codewords_of (length bits / 8) bits)
