-- ===== src/Qr/Capacity.antt =====
-- What a content needs, and the version that `chooseVersion` of qr/qrEncoder.ts finds for it.
use bianhao.Base.{
  ℕ, zero, suc, ◌+◌, ◌*◌, ◌/◌, ◌≤◌, ◌<◌, ◌≡◌, refl, ap, ◌∙◌, sym, inl, inr, Option, none, some,
  List, [], ◌∷◌, length, length-append, leb, subst, arith, Bool-cases,
}
use native.Mathlib.Nat.{add_assoc, eq-or-lt_of_le}
use bianhao.Money.{Text, value_from}
use bianhao.Qr.Data.{
  Mode, bits_of, choose_from, choose_version, content_bits, count_bits, digits_left, encode_data,
  need, put, put_bytes, put_digits, total_data_codewords, utf8,
}

pub length-bits_of : (n value : ℕ) → length (bits_of n value) ≡ n
unfolding bits_of
length-bits_of zero value = refl
length-bits_of (suc n) value = ap suc (length-bits_of n value)

pub length-put : (bits : List ℕ) (value n : ℕ) → length (put bits value n) ≡ length bits + n
unfolding put
length-put bits value n =
    omega (arith, length-append bits (bits_of n value), length-bits_of n value)

pub length-put_bytes :
    (bits bytes : List ℕ) → length (put_bytes bits bytes) ≡ length bits + length bytes * 8
unfolding put_bytes
length-put_bytes bits [] = omega arith
length-put_bytes bits (b ∷ bytes) =
    omega (arith, length-put_bytes (put bits b 8) bytes, length-put bits b 8)

digits_left_turn :
    (n : ℕ)
    → suc (suc (suc n)) / 3 * 10 + digits_left (suc (suc (suc n)))
      ≡ 10 + (n / 3 * 10 + digits_left n)
unfolding digits_left
digits_left_turn n = ground arith

pub length-put_digits :
    (bits : List ℕ) (text : Text)
    → length (put_digits bits text)
      ≡ length bits + (length text / 3 * 10 + digits_left (length text))
unfolding put_digits digits_left
length-put_digits bits [] = omega arith
length-put_digits bits (a ∷ []) = length-put bits (value_from 0 (a ∷ [])) 4
length-put_digits bits (a ∷ b ∷ []) = length-put bits (value_from 0 (a ∷ b ∷ [])) 7
length-put_digits bits (a ∷ b ∷ c ∷ rest) =
    let group = put bits (value_from 0 (a ∷ b ∷ c ∷ [])) 10 in
    length-put_digits group rest
    ∙ ap (λ n. n + (length rest / 3 * 10 + digits_left (length rest)))
        (length-put bits (value_from 0 (a ∷ b ∷ c ∷ [])) 10)
    ∙ add_assoc (length bits) 10 (length rest / 3 * 10 + digits_left (length rest))
    ∙ ap (λ n. length bits + n) (sym (digits_left_turn (length rest)))

-- The stream is as long as `chooseVersion` computes.
pub length-encode_data :
    (text : Text) (mode : Mode) (version : ℕ)
    → length (encode_data text mode version) ≡ need text mode version
unfolding encode_data need content_bits
length-encode_data text Mode.numeric version =
    let header = put [] 1 4 in
    let counted = put header (length text) (count_bits Mode.numeric version) in
    omega (
      arith,
      length-put_digits counted text,
      length-put header (length text) (count_bits Mode.numeric version),
      length-put [] 1 4,
    )
length-encode_data text Mode.byte version =
    let header = put [] 4 4 in
    let counted = put header (length (utf8 text)) (count_bits Mode.byte version) in
    omega (
      arith,
      length-put_bytes counted (utf8 text),
      length-put header (length (utf8 text)) (count_bits Mode.byte version),
      length-put [] 4 4,
    )

abbrev pub Fits : Text → Mode → ℕ → Type 0
Fits text mode v = length (encode_data text mode v) ≤ total_data_codewords v * 8

abbrev pub Overflows : Text → Mode → ℕ → Type 0
Overflows text mode v = total_data_codewords v * 8 < length (encode_data text mode v)

-- The loop has an answer, which fits while no version before it does, or no version fits.
abbrev pub Chosen : ℕ → ℕ → Text → Mode → Option ℕ → Type 0
Chosen from below text mode none = (u : ℕ) → from ≤ u → u < below → Overflows text mode u
Chosen from below text mode (some v) =
    (from ≤ v)
    × (v < below)
    × Fits text mode v
    × ((u : ℕ) → from ≤ u → u < v → Overflows text mode u)

skip_to :
    (v : ℕ) (text : Text) (mode : Mode)
    → Overflows text mode v
    → (u : ℕ) → v ≤ u
    → (suc v ≤ u → Overflows text mode u)
    → Overflows text mode u
skip_to v text mode h u p later = elim (eq-or-lt_of_le p) [
  | inl same ↦ subst (Overflows text mode) same h
  | inr after ↦ later after
]

-- A version that does not fit moves the start of the search.
skip-Chosen :
    (v left : ℕ) (text : Text) (mode : Mode) (r : Option ℕ)
    → Overflows text mode v
    → Chosen (suc v) (suc v + left) text mode r
    → Chosen v (v + suc left) text mode r
skip-Chosen v left text mode none h rest =
    λ u p q. skip_to v text mode h u p (λ m. rest u m (omega arith))
skip-Chosen v left text mode (some w) h (p, q, fits, rest) =
    (omega arith, omega arith, fits, λ u p q. skip_to v text mode h u p (λ m. rest u m q))

choose_from-Chosen :
    (left v : ℕ) (text : Text) (mode : Mode)
    → Chosen v (v + left) text mode (choose_from left v text mode)
unfolding choose_from
choose_from-Chosen zero v text mode = λ u p q. absurd (omega arith)
choose_from-Chosen (suc left) v text mode =
    elim (Bool-cases (leb (need text mode v) (total_data_codewords v * 8))) [
      | inl fits ↦ rw fits (
        omega arith,
        omega arith,
        ground (arith, length-encode_data text mode v, fits),
        λ u p q. absurd (omega arith),
      )
      | inr overflows ↦ rw overflows (
          skip-Chosen v left text mode (choose_from left (suc v) text mode)
            (ground (arith, length-encode_data text mode v, overflows))
            (choose_from-Chosen left (suc v) text mode))
    ]

-- `chooseVersion` finds the smallest version of 1 to 10 whose capacity holds the bits of the content,
-- and throws only where none holds them.
pub choose_version-Chosen :
    (text : Text) (mode : Mode) → Chosen 1 11 text mode (choose_version text mode)
unfolding choose_version
choose_version-Chosen text mode = choose_from-Chosen 10 1 text mode
