-- ===== src/Qr/Bits.antt =====
-- The bit buffer (qr/qrEncoder.ts): what is put in is read back, and bytes are eight bits each.
use mathlib.Core.List.{append-nil, append_assoc}
use native.Mathlib.Nat.{
  div-add-mod', div-eq_of_lt, mod-eq_of_lt, mod-lt, mul-add-div_right, mul-add-mod_self_right,
  one-le-pow, pow-suc,
}
use bianhao.Base.{
  ℕ, zero, suc, ◌+◌, ◌*◌, ◌/◌, ◌%◌, ◌^◌, ◌<◌, ◌≡◌, refl, ap, ◌∙◌, sym, List, [], ◌∷◌, ◌++◌, length,
  length-append, All, All-append, take, drop, length-take, length-drop, take-drop, All-take,
  All-drop, arith,
}
use bianhao.Qr.Data.{bits_of, put, put_bytes}
use bianhao.Qr.Codewords.{codewords_of, number_from}
use bianhao.Qr.Decode.{bits_of_all, read, read_bytes}
use bianhao.Qr.Capacity.{length-bits_of}

abbrev pub AllBits : List ℕ → Type 0
AllBits bits = All (λ b. b < 2) bits

pub bits_of-AllBits : (n value : ℕ) → AllBits (bits_of n value)
unfolding bits_of
bits_of-AllBits zero value = tt
bits_of-AllBits (suc n) value = (omega arith, bits_of-AllBits n value)

-- The binary digit of weight `d` in the remainder by 2 * d.
module _ (v d : ℕ) (pos : 0 < d) where
  parts : v / d / 2 * (d * 2) + (v / d % 2 * d + v % d) ≡ v
  parts = grind (arith, div-add-mod' v d, div-add-mod' (v / d) 2)

  low_lt : v / d % 2 * d + v % d < d * 2
  low_lt = grind (arith, mod-lt v pos, mod-lt (v / d) {m = 2} (omega arith))

  mod-double : v % (d * 2) ≡ v / d % 2 * d + v % d
  mod-double =
      ap (λ x. x % (d * 2)) (sym parts)
      ∙ mul-add-mod_self_right (v / d / 2) (d * 2) (v / d % 2 * d + v % d)
      ∙ mod-eq_of_lt low_lt

pub number_from-bits_of :
    (n a value : ℕ) → number_from a (bits_of n value) ≡ a * 2 ^ n + value % 2 ^ n
unfolding bits_of number_from
number_from-bits_of zero a value = omega arith
number_from-bits_of (suc n) a value =
    let d = 2 ^ n in
    number_from-bits_of n (a * 2 + value / d % 2) value
    ∙ grind (arith, pow-suc 2 n, mod-double value d (one-le-pow n 2 (omega arith)))

number_from_start :
    (a : ℕ) (bits : List ℕ) → number_from a bits ≡ a * 2 ^ length bits + number_from 0 bits
unfolding number_from
number_from_start a [] = omega arith
number_from_start a (b ∷ bits) =
    number_from_start (a * 2 + b) bits
    ∙ grind (arith, pow-suc 2 (length bits), number_from_start b bits)

pub number_from_lt : (bits : List ℕ) → AllBits bits → number_from 0 bits < 2 ^ length bits
unfolding number_from
number_from_lt [] h = omega arith
number_from_lt (b ∷ bits) h =
    grind (arith, pow-suc 2 (length bits), number_from_start b bits, number_from_lt bits h.1)

first_bit :
    (a b : ℕ) (bits : List ℕ)
    → AllBits (b ∷ bits)
    → number_from (a * 2 + b) bits / 2 ^ length bits % 2 ≡ b
first_bit a b bits h =
    let quotient =
      ap (λ v. v / 2 ^ length bits) (number_from_start (a * 2 + b) bits)
      ∙ mul-add-div_right (one-le-pow (length bits) 2 (omega arith)) (a * 2 + b)
          (number_from 0 bits) in
    omega (arith, quotient, div-eq_of_lt (number_from_lt bits h.1), h.0)

bits_of-number_from :
    (a : ℕ) (bits : List ℕ) → AllBits bits → bits_of (length bits) (number_from a bits) ≡ bits
unfolding bits_of number_from
bits_of-number_from a [] h = refl
bits_of-number_from a (b ∷ bits) h =
    ap (λ d. d ∷ bits_of (length bits) (number_from (a * 2 + b) bits)) (first_bit a b bits h)
    ∙ ap (λ ds. b ∷ ds) (bits_of-number_from (a * 2 + b) bits h.1)

pub read-append :
    (v : ℕ) (bits rest : List ℕ) → read (length bits) v (bits ++ rest) ≡ (number_from v bits, rest)
unfolding read number_from
read-append v [] rest = refl
read-append v (b ∷ bits) rest = read-append (v * 2 + b) bits rest

-- Reading back what was put.
pub read-put :
    (n value : ℕ) (rest : List ℕ)
    → value < 2 ^ n
    → read n 0 (bits_of n value ++ rest) ≡ (value, rest)
read-put n value rest h =
    ap (λ k. read k 0 (bits_of n value ++ rest)) (sym (length-bits_of n value))
    ∙ read-append 0 (bits_of n value) rest
    ∙ ap (λ v. (v, rest)) (omega (arith, number_from-bits_of n 0 value, mod-eq_of_lt h))

pub put_bytes_all : (bits bytes : List ℕ) → put_bytes bits bytes ≡ bits ++ bits_of_all bytes
unfolding put_bytes bits_of_all put
put_bytes_all bits [] = sym (append-nil bits)
put_bytes_all bits (b ∷ bytes) =
    put_bytes_all (bits ++ bits_of 8 b) bytes ∙ append_assoc bits (bits_of 8 b) (bits_of_all bytes)

pub bits_of_all-AllBits : (bytes : List ℕ) → AllBits (bits_of_all bytes)
unfolding bits_of_all
bits_of_all-AllBits [] = tt
bits_of_all-AllBits (b ∷ bytes) =
    All-append (λ b. b < 2) (bits_of 8 b) (bits_of_all bytes) (bits_of-AllBits 8 b)
      (bits_of_all-AllBits bytes)

pub bits_of_all-append :
    (xs ys : List ℕ) → bits_of_all (xs ++ ys) ≡ bits_of_all xs ++ bits_of_all ys
unfolding bits_of_all
bits_of_all-append [] ys = refl
bits_of_all-append (x ∷ xs) ys =
    ap (λ bits. bits_of 8 x ++ bits) (bits_of_all-append xs ys)
    ∙ sym (append_assoc (bits_of 8 x) (bits_of_all xs) (bits_of_all ys))

read_bytes_step :
    (n b : ℕ) (bits rest : List ℕ)
    → read 8 0 bits ≡ (b, rest)
    → read_bytes (suc n) bits ≡ b ∷ read_bytes n rest
unfolding read_bytes
read_bytes_step n b bits rest e = ap (λ r. r.0 ∷ read_bytes n r.1) e

pub read_bytes_back :
    (bytes rest : List ℕ)
    → All (λ b. b < 256) bytes
    → read_bytes (length bytes) (bits_of_all bytes ++ rest) ≡ bytes
unfolding read_bytes bits_of_all
read_bytes_back [] rest h = refl
read_bytes_back (b ∷ bytes) rest h =
    ap (read_bytes (suc (length bytes))) (append_assoc (bits_of 8 b) (bits_of_all bytes) rest)
    ∙ read_bytes_step (length bytes) b (bits_of 8 b ++ (bits_of_all bytes ++ rest))
        (bits_of_all bytes ++ rest) (read-put 8 b (bits_of_all bytes ++ rest) h.0)
    ∙ ap (λ bs. b ∷ bs) (read_bytes_back bytes rest h.1)

-- Whole bytes of bits, packed and unpacked.
pub bits_of_all-codewords_of :
    (n : ℕ) (bits : List ℕ)
    → length bits ≡ n * 8
    → AllBits bits
    → bits_of_all (codewords_of n bits) ≡ bits
unfolding bits_of_all codewords_of
bits_of_all-codewords_of zero [] e h = refl
bits_of_all-codewords_of zero (b ∷ bits) e h = absurd (omega (arith, e))
bits_of_all-codewords_of (suc n) bits e h =
    let len = length-take 8 bits (omega (arith, e)) in
    ap (λ bs. bs ++ bits_of_all (codewords_of n (drop 8 bits)))
      (ap (λ k. bits_of k (number_from 0 (take 8 bits))) (sym len)
        ∙ bits_of-number_from 0 (take 8 bits) (All-take (λ b. b < 2) 8 bits h))
    ∙ ap (λ bs. take 8 bits ++ bs)
        (bits_of_all-codewords_of n (drop 8 bits) (omega (arith, e, length-drop 8 bits))
          (All-drop (λ b. b < 2) 8 bits h))
    ∙ take-drop 8 bits

pub length-codewords_of : (n : ℕ) (bits : List ℕ) → length (codewords_of n bits) ≡ n
unfolding codewords_of
length-codewords_of zero bits = refl
length-codewords_of (suc n) bits = ap suc (length-codewords_of n (drop 8 bits))

pub length-bits_of_all : (bytes : List ℕ) → length (bits_of_all bytes) ≡ length bytes * 8
unfolding bits_of_all
length-bits_of_all [] = omega arith
length-bits_of_all (b ∷ bytes) = omega (
  arith,
  length-append (bits_of 8 b) (bits_of_all bytes),
  length-bits_of 8 b,
  length-bits_of_all bytes,
)
