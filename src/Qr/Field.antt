-- ===== src/Qr/Field.antt =====
-- qr/qrEncoder.ts: the Galois field GF(256) by tables of powers and logarithms, and the error
-- correction codewords of Reed and Solomon.
use Prim.Native.Nat.{bit_and, bit_xor}
use bianhao.Base.{
  ℕ, zero, suc, ◌+◌, ◌*◌, ◌||◌, List, [], ◌∷◌, ◌++◌, take, get_elem?, get_or, replicate, ◌==◌,
  if◌then◌else◌,
}

-- One turn of the loop of `initGf`: x <<= 1, reduced by 0x11d.
unfoldable pub double : ℕ → ℕ
double x = let y = x * 2 in if bit_and y 0x100 == 0 then y else bit_xor y 0x11d

-- EXP[i .. i + n), where x is EXP[i]
unfoldable pub powers : ℕ → ℕ → List ℕ
unfolding double
powers zero x = []
powers (suc n) x = x ∷ powers n (double x)

unfoldable pub cycle : List ℕ
unfolding powers
cycle = powers 255 1

-- EXP: 512 entries, the first 255 and then EXP[i - 255]
unfoldable pub exp_table : List ℕ
unfolding cycle
exp_table = cycle ++ cycle ++ take 2 cycle

unfoldable pub exp : ℕ → ℕ
unfolding exp_table get_elem?
exp i = get_or (get_elem? i exp_table) 0

-- The place of x, counted from i; 0 where x is not there, as a fresh Uint8Array has it.
unfoldable pub index_from : ℕ → ℕ → List ℕ → ℕ
index_from i x [] = 0
index_from i x (y ∷ ys) = let later = index_from (suc i) x ys in if x == y then i else later

-- LOG
unfoldable pub gf_log : ℕ → ℕ
unfolding index_from cycle
gf_log x = index_from 0 x cycle

unfoldable pub gf_mul : ℕ → ℕ → ℕ
unfolding exp gf_log
gf_mul a b = if a == 0 || b == 0 then 0 else exp (gf_log a + gf_log b)

-- One turn of the loop of `rsGenerator`: next[j] ^= poly[j] and next[j + 1] ^= poly[j] * EXP[i];
-- `carried` is what the coefficient before has left in next[j].
unfoldable pub times_root : ℕ → ℕ → List ℕ → List ℕ
unfolding gf_mul
times_root root carried [] = carried ∷ []
times_root root carried (p ∷ poly) = bit_xor carried p ∷ times_root root (gf_mul p root) poly

unfoldable pub generator_from : ℕ → ℕ → List ℕ → List ℕ
unfolding times_root exp
generator_from zero i poly = poly
generator_from (suc left) i poly = generator_from left (suc i) (times_root (exp i) 0 poly)

unfoldable pub rs_generator : ℕ → List ℕ
unfolding generator_from
rs_generator degree = generator_from degree 0 (1 ∷ [])

-- `res[i] ^= gfMul(gen[i + 1], factor)` for all i; `gen` starts at gen[1].
unfoldable pub add_multiple : ℕ → List ℕ → List ℕ → List ℕ
unfolding gf_mul
add_multiple factor [] res = res
add_multiple factor (g ∷ gen) [] = []
add_multiple factor (g ∷ gen) (r ∷ res) = bit_xor r (gf_mul g factor) ∷ add_multiple factor gen res

-- One data codeword: `factor = b ^ res[0]`, the shift, and the multiple where the factor is not 0.
unfoldable pub rs_step : List ℕ → ℕ → List ℕ → List ℕ
unfolding add_multiple
rs_step gen b [] = 0 ∷ []
rs_step gen b (r ∷ res) =
    let factor = bit_xor b r in
    let shifted = res ++ 0 ∷ [] in if factor == 0 then shifted else add_multiple factor gen shifted

unfoldable pub rs_loop : List ℕ → List ℕ → List ℕ → List ℕ
unfolding rs_step
rs_loop gen [] res = res
rs_loop gen (b ∷ data') res = rs_loop gen data' (rs_step gen b res)

unfoldable pub tail : List ℕ → List ℕ
tail [] = []
tail (x ∷ xs) = xs

unfoldable pub rs_encode : List ℕ → ℕ → List ℕ
unfolding rs_generator rs_loop tail replicate
rs_encode block ec_len = rs_loop (tail (rs_generator ec_len)) block (replicate ec_len 0)
