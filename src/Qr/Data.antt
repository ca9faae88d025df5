-- ===== src/Qr/Data.antt =====
-- qr/qrEncoder.ts: the EC level M tables, the bit buffer, the bit stream of a content, and the choice
-- of the smallest version. A text is the list of its UTF-16 units. A version without a row, where the
-- source's destructuring would throw, has a row of zeros; `choose_version` only answers 1 to 10.
use bianhao.Base.{
  ℕ, zero, suc, ◌+◌, ◌-◌, ◌*◌, ◌/◌, ◌%◌, ◌^◌, Bool, true, false, ◌&&◌, Option, none, some, List, [],
  ◌∷◌, ◌++◌, length, leb, ltb, ◌==◌, if◌then◌else◌, get_elem?, get_or,
}
use bianhao.Money.{Text, is_digit, value_from}

pub record EcBlocks : Type 0 where
  pub ec_per_block : ℕ
  pub g1_blocks : ℕ
  pub g1_data : ℕ
  pub g2_blocks : ℕ
  pub g2_data : ℕ

abbrev pub row : ℕ → ℕ → ℕ → ℕ → ℕ → EcBlocks
row ec b1 d1 b2 d2 = record {
  ec_per_block = ec;
  g1_blocks = b1;
  g1_data = d1;
  g2_blocks = b2;
  g2_data = d2;
}

-- EC_M, from version 1 on
abbrev pub ec_table : List EcBlocks
ec_table =
    row 10 1 16 0 0
    ∷ row 16 1 28 0 0
    ∷ row 26 1 44 0 0
    ∷ row 18 2 32 0 0
    ∷ row 24 2 43 0 0
    ∷ row 16 4 27 0 0
    ∷ row 18 4 31 0 0
    ∷ row 22 2 38 2 39
    ∷ row 22 3 36 2 37
    ∷ row 26 4 43 1 44
    ∷ []

unfoldable pub ec_m : ℕ → EcBlocks
unfolding get_elem?
ec_m zero = row 0 0 0 0 0
ec_m (suc v) = get_or (get_elem? v ec_table) (row 0 0 0 0 0)

unfoldable pub total_data_codewords : ℕ → ℕ
unfolding ec_m
total_data_codewords version =
    let e = ec_m version in
    EcBlocks.g1_blocks e * EcBlocks.g1_data e + EcBlocks.g2_blocks e * EcBlocks.g2_data e

pub data Mode : Type 0 where
  numeric : Mode
  byte : Mode

unfoldable pub all_digits : Text → Bool
unfolding is_digit
all_digits [] = true
all_digits (c ∷ cs) = is_digit c && all_digits cs

unfoldable pub detect_mode : Text → Mode
unfolding all_digits
detect_mode text = if all_digits text then Mode.numeric else Mode.byte

unfoldable pub count_bits : Mode → ℕ → ℕ
count_bits Mode.numeric version = if leb version 9 then 10 else 12
count_bits Mode.byte version = if leb version 9 then 8 else 16

-- The last `n` bits of a number, the highest first.
unfoldable pub bits_of : ℕ → ℕ → List ℕ
bits_of zero value = []
bits_of (suc n) value = (value / 2 ^ n % 2) ∷ bits_of n value

-- BitBuffer.put
unfoldable pub put : List ℕ → ℕ → ℕ → List ℕ
unfolding bits_of
put bits value length' = bits ++ bits_of length' value

-- `Buffer.from(text, 'utf8')`: a pair of surrogates is one character, a lone one is replaced.
abbrev pub is_high : ℕ → Bool
is_high u = leb 55296 u && ltb u 56320

abbrev pub is_low : ℕ → Bool
is_low u = leb 56320 u && ltb u 57344

unfoldable pub utf8_unit : ℕ → List ℕ
utf8_unit u =
    if ltb u 128
    then u ∷ []
    else if ltb u 2048
    then (192 + u / 64) ∷ (128 + u % 64) ∷ []
    else if is_high u
    then 239 ∷ 191 ∷ 189 ∷ []
    else if is_low u
    then 239 ∷ 191 ∷ 189 ∷ []
    else (224 + u / 4096) ∷ (128 + u / 64 % 64) ∷ (128 + u % 64) ∷ []

unfoldable pub utf8_pair : ℕ → List ℕ
utf8_pair c = (240 + c / 262144) ∷ (128 + c / 4096 % 64) ∷ (128 + c / 64 % 64) ∷ (128 + c % 64) ∷ []

-- `skip` says that the unit before has taken this one along.
unfoldable pub utf8_from : Bool → Text → List ℕ
unfolding utf8_unit utf8_pair
utf8_from skip [] = []
utf8_from true (u ∷ us) = utf8_from false us
utf8_from false (u ∷ []) = utf8_unit u
utf8_from false (u ∷ w ∷ us) =
    let paired = utf8_from true (w ∷ us) in
    let alone = utf8_from false (w ∷ us) in
    if is_high u && is_low w
    then utf8_pair (65536 + (u - 55296) * 1024 + (w - 56320)) ++ paired
    else utf8_unit u ++ alone

unfoldable pub utf8 : Text → List ℕ
unfolding utf8_from
utf8 text = utf8_from false text

-- The groups of three digits, and the one or two digits that are left.
unfoldable pub put_digits : List ℕ → Text → List ℕ
unfolding put value_from
put_digits bits [] = bits
put_digits bits (a ∷ []) = put bits (value_from 0 (a ∷ [])) 4
put_digits bits (a ∷ b ∷ []) = put bits (value_from 0 (a ∷ b ∷ [])) 7
put_digits bits (a ∷ b ∷ c ∷ rest) = put_digits (put bits (value_from 0 (a ∷ b ∷ c ∷ [])) 10) rest

unfoldable pub put_bytes : List ℕ → List ℕ → List ℕ
unfolding put
put_bytes bits [] = bits
put_bytes bits (b ∷ bytes) = put_bytes (put bits b 8) bytes

unfoldable pub encode_data : Text → Mode → ℕ → List ℕ
unfolding put_digits put_bytes utf8 count_bits
encode_data text Mode.numeric version =
    put_digits (put (put [] 1 4) (length text) (count_bits Mode.numeric version)) text
encode_data text Mode.byte version =
    put_bytes (put (put [] 4 4) (length (utf8 text)) (count_bits Mode.byte version)) (utf8 text)

-- `[0, 4, 7][n % 3]`
unfoldable pub digits_left : ℕ → ℕ
digits_left n = if n % 3 == 0 then 0 else if n % 3 == 1 then 4 else 7

unfoldable pub content_bits : Text → Mode → ℕ
unfolding digits_left utf8
content_bits text Mode.numeric = length text / 3 * 10 + digits_left (length text)
content_bits text Mode.byte = length (utf8 text) * 8

unfoldable pub need : Text → Mode → ℕ → ℕ
unfolding content_bits count_bits
need text mode version = 4 + count_bits mode version + content_bits text mode

-- The loop from version `v` on, over `left` versions; none stands for the error it ends in.
unfoldable pub choose_from : ℕ → ℕ → Text → Mode → Option ℕ
unfolding need total_data_codewords
choose_from zero v text mode = none
choose_from (suc left) v text mode =
    let later = choose_from left (suc v) text mode in
    if leb (need text mode v) (total_data_codewords v * 8) then some v else later

-- MAX_VERSION
abbrev pub max_version : ℕ
max_version = 10

unfoldable pub choose_version : Text → Mode → Option ℕ
unfolding choose_from
choose_version text mode = choose_from max_version 1 text mode
