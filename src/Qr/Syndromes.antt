-- ===== src/Qr/Syndromes.antt =====
-- A block with its error correction codewords (`rsEncode` of qr/qrEncoder.ts) is a codeword of Reed
-- and Solomon's code: as a polynomial it vanishes at the roots of the generator.
use Prim.Native.Nat.{bit_xor}
use bianhao.Base.{
  ℕ, zero, suc, ◌<◌, ◌≡◌, refl, ap, ◌∙◌, sym, Bool, true, ◌&&◌, List, [], ◌∷◌, ◌++◌, length,
  replicate, ltb, ◌==◌, holds_below, holds_below_at, arith, bit_xor_self,
}
use bianhao.Qr.Field.{exp, gf_mul, tail, rs_generator, rs_encode}
use bianhao.Qr.Logarithms.{exp_lt}
use bianhao.Qr.Evaluation.{
  AllBytes, power, value_at, value_at-append, value_at_leading, value_at_lt,
}
use bianhao.Qr.Division.{length-replicate, length-rs_encode, rs_loop-Remainder}

unfoldable all_bytes : List ℕ → Bool
all_bytes [] = true
all_bytes (x ∷ xs) = ltb x 256 && all_bytes xs

all_bytes-AllBytes : (xs : List ℕ) → all_bytes xs ≡ true → AllBytes xs
unfolding all_bytes
all_bytes-AllBytes [] h = tt
all_bytes-AllBytes (x ∷ xs) h = (ground arith, all_bytes-AllBytes xs (ground arith))

-- The generators of up to 26 error correction codewords vanish at the powers below their degree.
generator_table :
    holds_below 27 (λ n.
      length (tail (rs_generator n)) == n
      && all_bytes (tail (rs_generator n))
      && holds_below n (λ i. value_at (exp i) 1 (tail (rs_generator n)) == 0))
    ≡ true
unfolding holds_below tail rs_generator value_at exp gf_mul all_bytes
generator_table = refl

module _ (n : ℕ) (h : n < 27) where
  abbrev gen : List ℕ
  gen = tail (rs_generator n)

  gen_checks :
      (length gen ≡ n)
      × (all_bytes gen ≡ true)
      × (holds_below n (λ i. value_at (exp i) 1 gen == 0) ≡ true)
  gen_checks = ground (arith, holds_below_at 27 _ n generator_table h)

zeros-AllBytes : (n : ℕ) → AllBytes (replicate n 0)
unfolding replicate
zeros-AllBytes zero = tt
zeros-AllBytes (suc n) = (omega arith, zeros-AllBytes n)

value_of_zeros : (r n : ℕ) → value_at r 0 (replicate n 0) ≡ 0
unfolding value_at replicate gf_mul
value_of_zeros r zero = refl
value_of_zeros r (suc n) = value_of_zeros r n

module _ (block : List ℕ) (k i : ℕ) (hb : AllBytes block) (h : suc k < 27) (lt : i < suc k) where
  abbrev root : ℕ
  root = exp i

  root_lt : root < 256
  root_lt = exp_lt i (omega arith)

  gen_vanishes : value_at root 1 (gen (suc k) h) ≡ 0
  gen_vanishes = ground (arith, holds_below_at (suc k) _ i (gen_checks (suc k) h).2 lt)

  remainder :
      (gf_mul (value_at root 0 block) (power root (suc k))
        ≡ value_at root 0 (rs_encode block (suc k)))
      × AllBytes (rs_encode block (suc k))
  unfolding rs_encode gf_mul
  remainder =
      rs_loop-Remainder root root_lt k (gen (suc k) h) (gen_checks (suc k) h).0
        (all_bytes-AllBytes (gen (suc k) h) (gen_checks (suc k) h).1) gen_vanishes block 0
        (replicate (suc k) 0) (omega arith) hb (zeros-AllBytes (suc k)) (length-replicate (suc k) 0)
        (sym (value_of_zeros root (suc k)))

  vanishes : value_at root 0 (block ++ rs_encode block (suc k)) ≡ 0
  vanishes =
      let value = value_at root 0 block in
      let coded = rs_encode block (suc k) in
      value_at-append root 0 block coded
      ∙ value_at_leading root root_lt value coded
          (value_at_lt root root_lt 0 block (omega arith) hb) remainder.1
      ∙ ap (λ n. bit_xor (gf_mul value (power root n)) (value_at root 0 coded))
          (length-rs_encode block (suc k) (omega arith))
      ∙ ap (λ t. bit_xor t (value_at root 0 coded)) remainder.0
      ∙ bit_xor_self (value_at root 0 coded)

-- The data codewords of a block followed by its error correction codewords, read as a polynomial, are
-- 0 at the first `ec_len` powers of the field's generator.
pub rs_encode_vanishes :
    (block : List ℕ) (ec_len i : ℕ)
    → AllBytes block
    → ec_len < 27
    → i < ec_len
    → value_at (exp i) 0 (block ++ rs_encode block ec_len) ≡ 0
rs_encode_vanishes block zero i hb h lt = absurd (omega arith)
rs_encode_vanishes block (suc k) i hb h lt = vanishes block k i hb h lt
