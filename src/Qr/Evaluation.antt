-- ===== src/Qr/Evaluation.antt =====
-- Polynomials over GF(256), the highest coefficient first as in qr/qrEncoder.ts, evaluated by
-- Horner's rule, and what the steps of `rsEncode` do to their values.
use Prim.Native.Nat.{bit_xor}
use bianhao.Base.{
  ℕ, zero, suc, ◌<◌, ◌≡◌, refl, ap, ◌∙◌, sym, List, [], ◌∷◌, ◌++◌, length, All, arith,
  bit_xor_assoc, bit_xor_lt, zero-bit_xor, bit_xor-zero, bit_xor_exchange,
}
use bianhao.Qr.Field.{gf_mul, add_multiple}
use bianhao.Qr.Logarithms.{
  gf_mul-bit_xor, gf_mul_assoc, gf_mul_comm, gf_mul_lt, one-gf_mul, zero-gf_mul,
}

abbrev pub AllBytes : List ℕ → Type 0
AllBytes xs = All (λ x. x < 256) xs

-- The value at `r` of the polynomial that starts with `n`, followed by the given coefficients.
unfoldable pub value_at : ℕ → ℕ → List ℕ → ℕ
value_at r n [] = n
value_at r n (p ∷ poly) = value_at r (bit_xor (gf_mul n r) p) poly

unfoldable pub power : ℕ → ℕ → ℕ
power r zero = 1
power r (suc n) = gf_mul (power r n) r

pub value_at-append :
    (r n : ℕ) (xs ys : List ℕ) → value_at r n (xs ++ ys) ≡ value_at r (value_at r n xs) ys
unfolding value_at
value_at-append r n [] ys = refl
value_at-append r n (x ∷ xs) ys = value_at-append r (bit_xor (gf_mul n r) x) xs ys

module _ (r : ℕ) (small : r < 256) where
  pub power_lt : (n : ℕ) → power r n < 256
  unfolding power
  power_lt zero = omega arith
  power_lt (suc n) = gf_mul_lt (power r n) r (power_lt n) small

  step_lt : (n p : ℕ) → n < 256 → p < 256 → bit_xor (gf_mul n r) p < 256
  step_lt n p h k = bit_xor_lt 8 (gf_mul n r) p (gf_mul_lt n r h small) k

  pub value_at_lt : (n : ℕ) (poly : List ℕ) → n < 256 → AllBytes poly → value_at r n poly < 256
  unfolding value_at
  value_at_lt n [] h hs = h
  value_at_lt n (p ∷ poly) h hs =
      value_at_lt (bit_xor (gf_mul n r) p) poly (step_lt n p h hs.0) hs.1

  pub from_zero : (p : ℕ) → bit_xor (gf_mul 0 r) p ≡ p
  from_zero p = ap (λ t. bit_xor t p) (zero-gf_mul r) ∙ zero-bit_xor p

  pub swap_factors :
      (x y z : ℕ) → x < 256 → y < 256 → z < 256 → gf_mul (gf_mul x y) z ≡ gf_mul (gf_mul x z) y
  swap_factors x y z p q s =
      gf_mul_assoc x y z p q s ∙ ap (gf_mul x) (gf_mul_comm y z) ∙ sym (gf_mul_assoc x z y p s q)

  leading_turn :
      (n p q : ℕ)
      → n < 256
      → p < 256
      → q < 256
      → gf_mul (bit_xor (gf_mul n r) p) q ≡ bit_xor (gf_mul n (gf_mul q r)) (gf_mul p q)
  leading_turn n p q h k l =
      gf_mul-bit_xor (gf_mul n r) p q (gf_mul_lt n r h small) k l
      ∙ ap (λ t. bit_xor t (gf_mul p q))
          (gf_mul_assoc n r q h small l ∙ ap (gf_mul n) (gf_mul_comm r q))

  multiple_turn :
      (f a b g x : ℕ)
      → f < 256
      → a < 256
      → b < 256
      → g < 256
      → x < 256
      → bit_xor (gf_mul (bit_xor a (gf_mul b f)) r) (bit_xor x (gf_mul g f))
        ≡ bit_xor (bit_xor (gf_mul a r) x) (gf_mul (bit_xor (gf_mul b r) g) f)
  multiple_turn f a b g x hf ha hb hg hx =
      ap (λ t. bit_xor t (bit_xor x (gf_mul g f)))
        (gf_mul-bit_xor a (gf_mul b f) r ha (gf_mul_lt b f hb hf) small
          ∙ ap (bit_xor (gf_mul a r)) (swap_factors b f r hb hf small))
      ∙ bit_xor_exchange (gf_mul a r) (gf_mul (gf_mul b r) f) x (gf_mul g f)
      ∙ ap (bit_xor (bit_xor (gf_mul a r) x))
          (sym (gf_mul-bit_xor (gf_mul b r) g f (gf_mul_lt b r hb small) hg hf))

  -- The leading coefficient counts as often as its degree says.
  pub value_at_leading :
      (n : ℕ) (poly : List ℕ)
      → n < 256
      → AllBytes poly
      → value_at r n poly ≡ bit_xor (gf_mul n (power r (length poly))) (value_at r 0 poly)
  unfolding value_at power
  value_at_leading n [] h hs = sym (bit_xor-zero (gf_mul n 1) ∙ gf_mul_comm n 1 ∙ one-gf_mul n h)
  value_at_leading n (p ∷ poly) h hs =
      value_at_leading (bit_xor (gf_mul n r) p) poly (step_lt n p h hs.0) hs.1
      ∙ ap (λ t. bit_xor t (value_at r 0 poly))
          (leading_turn n p (power r (length poly)) h hs.0 (power_lt (length poly)))
      ∙ bit_xor_assoc (gf_mul n (gf_mul (power r (length poly)) r))
          (gf_mul p (power r (length poly))) (value_at r 0 poly)
      ∙ ap (bit_xor (gf_mul n (gf_mul (power r (length poly)) r))) (
          sym (value_at_leading p poly hs.0 hs.1) ∙ ap (λ t. value_at r t poly) (sym (from_zero p)))

  -- Adding a multiple of one polynomial adds that multiple of its value.
  pub value_at-add_multiple :
      (f a b : ℕ) (gen res : List ℕ)
      → f < 256
      → a < 256
      → b < 256
      → AllBytes gen
      → AllBytes res
      → length gen ≡ length res
      → value_at r (bit_xor a (gf_mul b f)) (add_multiple f gen res)
        ≡ bit_xor (value_at r a res) (gf_mul (value_at r b gen) f)
  unfolding value_at add_multiple
  value_at-add_multiple f a b [] [] hf ha hb hg hr e = refl
  value_at-add_multiple f a b [] (x ∷ res) hf ha hb hg hr e = absurd (omega (arith, e))
  value_at-add_multiple f a b (g ∷ gen) [] hf ha hb hg hr e = absurd (omega (arith, e))
  value_at-add_multiple f a b (g ∷ gen) (x ∷ res) hf ha hb hg hr e =
      ap (λ t. value_at r t (add_multiple f gen res)) (multiple_turn f a b g x hf ha hb hg.0 hr.0)
      ∙ value_at-add_multiple f (bit_xor (gf_mul a r) x) (bit_xor (gf_mul b r) g) gen res hf
          (step_lt a x ha hr.0) (step_lt b g hb hg.0) hg.1 hr.1 (omega (arith, e))
