-- ===== src/Qr/Numerals.antt =====
-- Groups of digits (numeric mode of qr/qrEncoder.ts): what is put in ten, seven or four bits is read
-- back as the digits.
use mathlib.Core.List.{append-nil, append_assoc}
use bianhao.Base.{
  ℕ, suc, ◌+◌, ◌/◌, ◌%◌, ◌<◌, ◌≡◌, refl, ap, ◌∙◌, sym, Bool, true, false, ◌&&◌, List, [], ◌∷◌, ◌++◌,
  length, ◌==◌, holds_below, holds_below_at, arith,
}
use bianhao.Money.{Text, is_digit, pad_start, show, value_from}
use bianhao.Qr.Data.{all_digits, bits_of, put, put_digits}
use bianhao.Qr.Decode.{read_digits}
use bianhao.Qr.Bits.{read-put}

unfoldable same : Text → Text → Bool
same [] [] = true
same [] (d ∷ ds) = false
same (c ∷ cs) [] = false
same (c ∷ cs) (d ∷ ds) = c == d && same cs ds

same_sound : (cs ds : Text) → same cs ds ≡ true → cs ≡ ds
unfolding same
same_sound [] [] h = refl
same_sound [] (d ∷ ds) h = cc
same_sound (c ∷ cs) [] h = cc
same_sound (c ∷ cs) (d ∷ ds) h =
    let rest = same_sound cs ds (ground arith) in
    let first : c ≡ d = ground arith in ap (λ x. x ∷ cs) first ∙ ap (λ xs. d ∷ xs) rest

abbrev three : ℕ → Text
three v = (48 + v / 100) ∷ (48 + v / 10 % 10) ∷ (48 + v % 10) ∷ []

abbrev two : ℕ → Text
two v = (48 + v / 10) ∷ (48 + v % 10) ∷ []

both : {a b c d : ℕ} → a ≡ c → b ≡ d → a ∷ b ∷ [] ≡ c ∷ d ∷ []
both p q = cc

all_three : {a b c x y z : ℕ} → a ≡ x → b ≡ y → c ≡ z → a ∷ b ∷ c ∷ [] ≡ x ∷ y ∷ z ∷ []
all_three p q r = cc

three_table : holds_below 1000 (λ v. same (pad_start 3 (show v)) (three v)) ≡ true
unfolding holds_below same pad_start show
three_table = refl

two_table : holds_below 100 (λ v. same (pad_start 2 (show v)) (two v)) ≡ true
unfolding holds_below same pad_start show
two_table = refl

one_table : holds_below 10 (λ v. same (show v) ((48 + v) ∷ [])) ≡ true
unfolding holds_below same show
one_table = refl

module _ (a : ℕ) (ha : is_digit a ≡ true) where
  value_one : value_from 0 (a ∷ []) < 10
  unfolding value_from is_digit
  value_one = ground (arith, ha)

  show_one : show (value_from 0 (a ∷ [])) ≡ a ∷ []
  unfolding value_from is_digit
  show_one =
      same_sound _ _ (holds_below_at 10 _ (value_from 0 (a ∷ [])) one_table value_one)
      ∙ ap (λ c. c ∷ []) (ground (arith, ha))

  module _ (b : ℕ) (hb : is_digit b ≡ true) where
    value_two : value_from 0 (a ∷ b ∷ []) < 100
    unfolding value_from is_digit
    value_two = ground (arith, ha, hb)

    show_two : pad_start 2 (show (value_from 0 (a ∷ b ∷ []))) ≡ a ∷ b ∷ []
    unfolding value_from is_digit
    show_two =
        same_sound _ _ (holds_below_at 100 _ (value_from 0 (a ∷ b ∷ [])) two_table value_two)
        ∙ both (ground (arith, ha, hb)) (ground (arith, ha, hb))

    module _ (c : ℕ) (hc : is_digit c ≡ true) where
      value_three : value_from 0 (a ∷ b ∷ c ∷ []) < 1000
      unfolding value_from is_digit
      value_three = ground (arith, ha, hb, hc)

      show_three : pad_start 3 (show (value_from 0 (a ∷ b ∷ c ∷ []))) ≡ a ∷ b ∷ c ∷ []
      unfolding value_from is_digit
      show_three =
          same_sound _ _
            (holds_below_at 1000 _ (value_from 0 (a ∷ b ∷ c ∷ [])) three_table value_three)
          ∙ all_three (ground (arith, ha, hb, hc)) (ground (arith, ha, hb, hc))
              (ground (arith, ha, hb, hc))

pub put_digits_all :
    (bits : List ℕ) (text : Text) → put_digits bits text ≡ bits ++ put_digits [] text
unfolding put_digits put
put_digits_all bits [] = sym (append-nil bits)
put_digits_all bits (a ∷ []) = refl
put_digits_all bits (a ∷ b ∷ []) = refl
put_digits_all bits (a ∷ b ∷ c ∷ rest) =
    let group = bits_of 10 (value_from 0 (a ∷ b ∷ c ∷ [])) in
    put_digits_all (bits ++ group) rest
    ∙ append_assoc bits group (put_digits [] rest)
    ∙ ap (λ bs. bits ++ bs) (sym (put_digits_all group rest))

digits_one : (v : ℕ) (more : List ℕ) → v < 10 → read_digits 1 (bits_of 4 v ++ more) ≡ show v
unfolding read_digits
digits_one v more h = ap (λ r. show r.0) (read-put 4 v more (omega arith))

digits_two :
    (v : ℕ) (more : List ℕ) → v < 100 → read_digits 2 (bits_of 7 v ++ more) ≡ pad_start 2 (show v)
unfolding read_digits
digits_two v more h = ap (λ r. pad_start 2 (show r.0)) (read-put 7 v more (omega arith))

digits_three :
    (n v : ℕ) (more : List ℕ)
    → v < 1000
    → read_digits (suc (suc (suc n))) (bits_of 10 v ++ more)
      ≡ pad_start 3 (show v) ++ read_digits n more
unfolding read_digits
digits_three n v more h =
    ap (λ r. pad_start 3 (show r.0) ++ read_digits n r.1) (read-put 10 v more (omega arith))

module _ (a : ℕ) (rest : Text) (h : all_digits (a ∷ rest) ≡ true) where
  first_digit : is_digit a ≡ true
  unfolding all_digits
  first_digit = ground arith

  later_digits : all_digits rest ≡ true
  unfolding all_digits
  later_digits = ground arith

pub read_digits_back :
    (text : Text) (more : List ℕ)
    → all_digits text ≡ true
    → read_digits (length text) (put_digits [] text ++ more) ≡ text
unfolding put_digits put read_digits
read_digits_back [] more h = refl
read_digits_back (a ∷ []) more h =
    let ha = first_digit a [] h in
    digits_one (value_from 0 (a ∷ [])) more (value_one a ha) ∙ show_one a ha
read_digits_back (a ∷ b ∷ []) more h =
    let ha = first_digit a (b ∷ []) h in
    let hb = first_digit b [] (later_digits a (b ∷ []) h) in
    digits_two (value_from 0 (a ∷ b ∷ [])) more (value_two a ha b hb) ∙ show_two a ha b hb
read_digits_back (a ∷ b ∷ c ∷ rest) more h =
    let ha = first_digit a (b ∷ c ∷ rest) h in
    let h2 = later_digits a (b ∷ c ∷ rest) h in
    let hb = first_digit b (c ∷ rest) h2 in
    let h3 = later_digits b (c ∷ rest) h2 in
    let hc = first_digit c rest h3 in
    let v = value_from 0 (a ∷ b ∷ c ∷ []) in
    ap (λ bits. read_digits (suc (suc (suc (length rest)))) (bits ++ more))
      (put_digits_all (bits_of 10 v) rest)
    ∙ ap (read_digits (suc (suc (suc (length rest)))))
        (append_assoc (bits_of 10 v) (put_digits [] rest) more)
    ∙ digits_three (length rest) v (put_digits [] rest ++ more) (value_three a ha b hb c hc)
    ∙ ap (λ ds. ds ++ read_digits (length rest) (put_digits [] rest ++ more))
        (show_three a ha b hb c hc)
    ∙ ap (λ ds. a ∷ b ∷ c ∷ ds) (read_digits_back rest more (later_digits c rest h3))
