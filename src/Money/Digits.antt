-- ===== src/Money/Digits.antt =====
-- Texts of digits (core/money.ts).
use bianhao.Base.{
  ℕ, zero, suc, ◌+◌, ◌-◌, ◌*◌, ◌/◌, ◌%◌, ◌^◌, ◌≤◌, ◌<◌, ◌≡◌, refl, ap, ◌∙◌, true, false, inl, inr,
  [], ◌∷◌, ◌++◌, length, length-append, All, All-append, ltb, arith, Bool-cases,
}
use native.Mathlib.Nat.{pow-suc}
use bianhao.Domain.{ok}
use bianhao.Money.{
  Text, dot, is_digit, is_space, decimal, show, zeros, pad_end, value_from, trim_start, trim_end,
  span_digits, fraction, amount_of, read_parts, fraction_digits,
}

abbrev pub AllDigits : Text → Type 0
AllDigits cs = All (λ c. is_digit c ≡ true) cs

pub value_from-append :
    (n : ℕ) (xs ys : Text) → value_from n (xs ++ ys) ≡ value_from (value_from n xs) ys
unfolding value_from
value_from-append n [] ys = refl
value_from-append n (x ∷ xs) ys = value_from-append (n * 10 + (x - 48)) xs ys

pub decimal-AllDigits : (left n : ℕ) → AllDigits (decimal left n)
unfolding decimal is_digit
decimal-AllDigits zero n = tt
decimal-AllDigits (suc left) n = elim (Bool-cases (ltb n 10)) [
  | inl small ↦ rw small (ground (arith, small), tt)
  | inr large ↦ rw large (
      All-append (λ c. is_digit c ≡ true) (decimal left (n / 10)) ((48 + n % 10) ∷ [])
        (decimal-AllDigits left (n / 10)) (ground arith, tt))
]

pub value_from-decimal : (left n : ℕ) → n < left → value_from 0 (decimal left n) ≡ n
unfolding decimal value_from
value_from-decimal zero n h = omega arith
value_from-decimal (suc left) n h = elim (Bool-cases (ltb n 10)) [
  | inl small ↦ rw small (omega arith)
  | inr large ↦
      let upper : n / 10 < left = ground (arith, large, h) in
      rw large (
        value_from-append 0 (decimal left (n / 10)) ((48 + n % 10) ∷ [])
        ∙ omega (arith, value_from-decimal left (n / 10) upper))
]

pub length-decimal_le : (left d n : ℕ) → n < 10 ^ suc d → length (decimal left n) ≤ suc d
unfolding decimal
length-decimal_le zero d n h = omega arith
length-decimal_le (suc left) zero n h = ground (arith, h)
length-decimal_le (suc left) (suc d) n h = elim (Bool-cases (ltb n 10)) [
  | inl small ↦ rw small (omega arith)
  | inr large ↦
      let upper : n / 10 < 10 ^ suc d = omega (arith, h, pow-suc 10 (suc d)) in
      rw large (
        omega (
          arith,
          length-append (decimal left (n / 10)) ((48 + n % 10) ∷ []),
          length-decimal_le left d (n / 10) upper,
        ))
]

pub append_nonempty : (cs : Text) (c : ℕ) → (d : ℕ) × (ds : Text) × (cs ++ c ∷ [] ≡ d ∷ ds)
append_nonempty [] c = (c, [], refl)
append_nonempty (x ∷ xs) c = (x, xs ++ c ∷ [], refl)

pub decimal-nonempty : (left n : ℕ) → (c : ℕ) × (cs : Text) × (decimal (suc left) n ≡ c ∷ cs)
unfolding decimal
decimal-nonempty left n = elim (Bool-cases (ltb n 10)) [
  | inl small ↦ (48 + n, [], rw small refl)
  | inr large ↦
      let (c, cs, e) = append_nonempty (decimal left (n / 10)) (48 + n % 10) in (c, cs, rw large e)
]

pub value_from-zeros : (k : ℕ) (cs : Text) → value_from 0 (zeros k ++ cs) ≡ value_from 0 cs
unfolding zeros value_from
value_from-zeros zero cs = refl
value_from-zeros (suc k) cs = value_from-zeros k cs

pub zeros-AllDigits : (k : ℕ) → AllDigits (zeros k)
unfolding zeros is_digit
zeros-AllDigits zero = tt
zeros-AllDigits (suc k) = (refl, zeros-AllDigits k)

pub length-zeros : (k : ℕ) → length (zeros k) ≡ k
unfolding zeros
length-zeros zero = refl
length-zeros (suc k) = omega (arith, length-zeros k)

pub span_digits-all : (cs : Text) → AllDigits cs → span_digits cs ≡ (cs, [])
unfolding span_digits
span_digits-all [] h = refl
span_digits-all (c ∷ cs) h = rw (span_digits-all cs h.1, h.0) refl

pub span_digits-dot : (cs ds : Text) → AllDigits cs → span_digits (cs ++ dot ∷ ds) ≡ (cs, dot ∷ ds)
unfolding span_digits is_digit
span_digits-dot [] ds h = refl
span_digits-dot (c ∷ cs) ds h = rw (span_digits-dot cs ds h.1, h.0) refl

-- No white space in the text.
abbrev pub IsSolid : Text → Type 0
IsSolid cs = All (λ c. is_space c ≡ false) cs

pub trim_start-solid : (cs : Text) → IsSolid cs → trim_start cs ≡ cs
unfolding trim_start
trim_start-solid [] h = refl
trim_start-solid (c ∷ cs) h = rw h.0 refl

pub trim_end-solid : (cs : Text) → IsSolid cs → trim_end cs ≡ cs
unfolding trim_end
trim_end-solid [] h = refl
trim_end-solid (c ∷ []) h = rw h.0 refl
trim_end-solid (c ∷ d ∷ ds) h = rw (trim_end-solid (d ∷ ds) h.1) refl

pub digits-IsSolid : (cs : Text) → AllDigits cs → IsSolid cs
unfolding is_digit is_space
digits-IsSolid [] h = tt
digits-IsSolid (c ∷ cs) h = (ground (arith, h.0), digits-IsSolid cs h.1)

pub append_nil : (cs : Text) → cs ++ [] ≡ cs
append_nil [] = refl
append_nil (c ∷ cs) = ap (λ ds. c ∷ ds) (append_nil cs)

pub pad_end-full : (width : ℕ) (cs : Text) → length cs ≡ width → pad_end width cs ≡ cs
unfolding pad_end zeros
pad_end-full width cs h =
    let none_left : width - length cs ≡ 0 = omega (arith, h) in
    ap (λ k. cs ++ zeros k) none_left ∙ append_nil cs

pub fraction_digits-full : (cs : Text) → 1 ≤ length cs → fraction_digits (cs, []) ≡ ok cs
unfolding fraction_digits
fraction_digits-full [] h = absurd (omega arith)
fraction_digits-full (c ∷ cs) h = refl

pub read_parts-full :
    (d : ℕ) (cs rest decimals : Text)
    → 1 ≤ length cs
    → fraction rest ≡ ok decimals
    → read_parts d (cs, rest) ≡ amount_of cs d decimals
unfolding read_parts
read_parts-full d [] rest decimals h e = absurd (omega arith)
read_parts-full d (c ∷ cs) rest decimals h e = rw (e, read_parts) refl

pub show-nonempty : (n : ℕ) → 1 ≤ length (show n)
unfolding show
show-nonempty n =
    let (c, cs, e) = decimal-nonempty n n in
    let same : n + 1 ≡ suc n = omega arith in rw (same, e) (omega arith)
