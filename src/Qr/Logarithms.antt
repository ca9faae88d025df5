-- ===== src/Qr/Logarithms.antt =====
-- Multiplication in GF(256) by tables (qr/qrEncoder.ts): the tables are inverse to each other, the
-- product is the one that doubling and adding give, and it is a commutative, associative product
-- that distributes over `^`.
use Prim.Native.Nat.{bit_xor}
use bianhao.Base.{
  ℕ, zero, suc, ◌+◌, ◌/◌, ◌%◌, ◌<◌, ◌≡◌, refl, ap, ◌∙◌, sym, ◌≢◌, inl, inr, true, ◌||◌, ◌&&◌,
  if◌then◌else◌, ltb, ◌==◌, holds_below, holds_below_at, arith, Bool-cases, bit_xor_lt,
  bit_xor_exchange,
}
use native.Mathlib.Nat.{add_comm}
use bianhao.Qr.Polynomials.{carryless, long_division}
use bianhao.Qr.Field.{double, exp, gf_log, gf_mul}

exp_log_table : holds_below 256 (λ x. x == 0 || (exp (gf_log x) == x && ltb (gf_log x) 255)) ≡ true
unfolding holds_below exp gf_log
exp_log_table = refl

log_exp_table :
    holds_below 510 (λ i. gf_log (exp i) == i % 255 && ltb 0 (exp i) && ltb (exp i) 256) ≡ true
unfolding holds_below exp gf_log
log_exp_table = refl

-- Multiplication without tables: a sum of doublings of `a`, one for every binary digit of `b`.
unfoldable pub peasant : ℕ → ℕ → ℕ → ℕ
unfolding double
peasant zero a b = 0
peasant (suc n) a b =
    let rest = peasant n (double a) (b / 2) in if b % 2 == 1 then bit_xor a rest else rest

product_table : holds_below 256 (λ a. holds_below 256 (λ b. gf_mul a b == peasant 8 a b)) ≡ true
unfolding holds_below gf_mul peasant
product_table = refl

double_table :
    holds_below 256 (λ a.
      ltb (double a) 256
      && holds_below 256 (λ c. double (bit_xor a c) == bit_xor (double a) (double c)))
    ≡ true
unfolding holds_below double
double_table = refl

exp_log : (x : ℕ) → x < 256 → x ≢ 0 → (exp (gf_log x) ≡ x) × (gf_log x < 255)
exp_log x h ne = ground (arith, holds_below_at 256 _ x exp_log_table h)

log_exp : (i : ℕ) → i < 510 → (gf_log (exp i) ≡ i % 255) × (0 < exp i) × (exp i < 256)
log_exp i h = ground (arith, holds_below_at 510 _ i log_exp_table h)

-- The product by tables is the sum of doublings.
pub gf_mul_as_sum : (a b : ℕ) → a < 256 → b < 256 → gf_mul a b ≡ peasant 8 a b
gf_mul_as_sum a b p q =
    ground (arith, holds_below_at 256 _ b (holds_below_at 256 _ a product_table p) q)

modulo_table :
    holds_below 256
      (λ a. holds_below 256 (λ b. gf_mul a b == long_division 7 0x11d 8 (carryless 8 0 a b)))
    ≡ true
unfolding holds_below gf_mul carryless long_division
modulo_table = refl

-- The product by tables of two bytes is the remainder of their product without carries by 0x11d, that
-- is, the product of polynomials modulo x^8 + x^4 + x^3 + x^2 + 1.
pub gf_mul_modulo :
    (a b : ℕ) → a < 256 → b < 256 → gf_mul a b ≡ long_division 7 0x11d 8 (carryless 8 0 a b)
gf_mul_modulo a b p q =
    ground (arith, holds_below_at 256 _ b (holds_below_at 256 _ a modulo_table p) q)

double_lt : (a : ℕ) → a < 256 → double a < 256
double_lt a p = ground (arith, holds_below_at 256 _ a double_table p)

double_row :
    (a : ℕ)
    → a < 256
    → holds_below 256 (λ c. double (bit_xor a c) == bit_xor (double a) (double c)) ≡ true
double_row a p = ground (arith, holds_below_at 256 _ a double_table p)

double-bit_xor :
    (a c : ℕ) → a < 256 → c < 256 → double (bit_xor a c) ≡ bit_xor (double a) (double c)
double-bit_xor a c p q = ground (arith, holds_below_at 256 _ c (double_row a p) q)

peasant-bit_xor :
    (n a c b : ℕ)
    → a < 256
    → c < 256
    → peasant n (bit_xor a c) b ≡ bit_xor (peasant n a b) (peasant n c b)
unfolding peasant
peasant-bit_xor zero a c b p q = refl
peasant-bit_xor (suc n) a c b p q =
    let halves =
      ap (λ t. peasant n t (b / 2)) (double-bit_xor a c p q)
      ∙ peasant-bit_xor n (double a) (double c) (b / 2) (double_lt a p) (double_lt c q) in
    elim (Bool-cases (b % 2 == 1)) [
      | inl odd ↦ rw odd (
          ap (bit_xor (bit_xor a c)) halves
          ∙ bit_xor_exchange a c (peasant n (double a) (b / 2)) (peasant n (double c) (b / 2)))
      | inr even ↦ rw even halves
    ]

pub zero-gf_mul : (b : ℕ) → gf_mul 0 b ≡ 0
unfolding gf_mul
zero-gf_mul b = refl

pub gf_mul-zero : (a : ℕ) → gf_mul a 0 ≡ 0
unfolding gf_mul
gf_mul-zero a = ground arith

module _ (a b : ℕ) (p : a < 256) (q : b < 256) (m : a ≢ 0) (n : b ≢ 0) where
  gf_mul-nonzero : gf_mul a b ≡ exp (gf_log a + gf_log b)
  unfolding gf_mul
  gf_mul-nonzero = ground arith

  product_in_range : (gf_mul a b < 256) × (0 < gf_mul a b)
  product_in_range =
      let (same, positive, small) =
        log_exp (gf_log a + gf_log b) (omega (arith, (exp_log a p m).1, (exp_log b q n).1)) in
      rw gf_mul-nonzero (small, positive)

  gf_log-gf_mul : gf_log (gf_mul a b) ≡ (gf_log a + gf_log b) % 255
  gf_log-gf_mul =
      rw gf_mul-nonzero
        ((log_exp (gf_log a + gf_log b) (omega (arith, (exp_log a p m).1, (exp_log b q n).1))).0)

pub gf_mul_lt : (a b : ℕ) → a < 256 → b < 256 → gf_mul a b < 256
gf_mul_lt zero b p q = rw (zero-gf_mul b) (omega arith)
gf_mul_lt (suc a) zero p q = rw (gf_mul-zero (suc a)) (omega arith)
gf_mul_lt (suc a) (suc b) p q =
    (product_in_range (suc a) (suc b) p q (λ e. omega arith) (λ e. omega arith)).0

pub gf_mul_comm : (a b : ℕ) → gf_mul a b ≡ gf_mul b a
unfolding gf_mul
gf_mul_comm a b = ground (arith, ap exp (add_comm (gf_log a) (gf_log b)))

-- exp repeats after 255 entries.
exp_repeats_table : holds_below 510 (λ i. exp (i % 255) == exp i) ≡ true
unfolding holds_below exp
exp_repeats_table = refl

exp-mod : (i : ℕ) → i < 510 → exp (i % 255) ≡ exp i
exp-mod i h = ground (arith, holds_below_at 510 _ i exp_repeats_table h)

module _ (a b c : ℕ) (p : a < 256) (q : b < 256) (r : c < 256) where
  module _ (l : a ≢ 0) (m : b ≢ 0) (n : c ≢ 0) where
    left_log : gf_mul (gf_mul a b) c ≡ exp (((gf_log a + gf_log b) % 255 + gf_log c) % 255)
    left_log =
        let (small, positive) = product_in_range a b p q l m in
        gf_mul-nonzero (gf_mul a b) c small r (λ e. omega arith) n
        ∙ ap (λ t. exp (t + gf_log c)) (gf_log-gf_mul a b p q l m)
        ∙ sym (exp-mod ((gf_log a + gf_log b) % 255 + gf_log c) (omega (arith, (exp_log c r n).1)))

    right_log : gf_mul a (gf_mul b c) ≡ exp ((gf_log a + (gf_log b + gf_log c) % 255) % 255)
    right_log =
        let (small, positive) = product_in_range b c q r m n in
        gf_mul-nonzero a (gf_mul b c) p small l (λ e. omega arith)
        ∙ ap (λ t. exp (gf_log a + t)) (gf_log-gf_mul b c q r m n)
        ∙ sym (exp-mod (gf_log a + (gf_log b + gf_log c) % 255) (omega (arith, (exp_log a p l).1)))

    assoc_nonzero : gf_mul (gf_mul a b) c ≡ gf_mul a (gf_mul b c)
    assoc_nonzero = left_log ∙ ap exp (omega arith) ∙ sym right_log

pub gf_mul_assoc :
    (a b c : ℕ) → a < 256 → b < 256 → c < 256 → gf_mul (gf_mul a b) c ≡ gf_mul a (gf_mul b c)
gf_mul_assoc zero b c p q r = rw (zero-gf_mul b, zero-gf_mul c, zero-gf_mul (gf_mul b c)) refl
gf_mul_assoc (suc a) zero c p q r =
    rw (gf_mul-zero (suc a), zero-gf_mul c, gf_mul-zero (suc a)) refl
gf_mul_assoc (suc a) (suc b) zero p q r =
    rw (gf_mul-zero (gf_mul (suc a) (suc b)), gf_mul-zero (suc b), gf_mul-zero (suc a)) refl
gf_mul_assoc (suc a) (suc b) (suc c) p q r =
    assoc_nonzero (suc a) (suc b) (suc c) p q r (λ e. omega arith) (λ e. omega arith)
      (λ e. omega arith)

-- Multiplication distributes over exclusive or.
pub gf_mul-bit_xor :
    (a c b : ℕ)
    → a < 256
    → c < 256
    → b < 256
    → gf_mul (bit_xor a c) b ≡ bit_xor (gf_mul a b) (gf_mul c b)
gf_mul-bit_xor a c b p q r =
    rw
      (
        gf_mul_as_sum (bit_xor a c) b (bit_xor_lt 8 a c p q) r,
        gf_mul_as_sum a b p r,
        gf_mul_as_sum c b q r,
      )
      (peasant-bit_xor 8 a c b p q)

pub exp_lt : (i : ℕ) → i < 510 → exp i < 256
exp_lt i h = let (same, positive, small) = log_exp i h in small

one_table : holds_below 256 (λ a. gf_mul 1 a == a) ≡ true
unfolding holds_below gf_mul
one_table = refl

pub one-gf_mul : (a : ℕ) → a < 256 → gf_mul 1 a ≡ a
one-gf_mul a p = ground (arith, holds_below_at 256 _ a one_table p)
