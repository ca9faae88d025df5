-- ===== src/Qr/Division.antt =====
-- The division in `rsEncode` of qr/qrEncoder.ts: its remainder's length, and its value at a root of the
-- generator.
use Prim.Native.Nat.{bit_xor}
use bianhao.Base.{
  ℕ, zero, suc, ◌<◌, ◌≡◌, refl, ap, ◌∙◌, sym, subst, inl, inr, true, List, [], ◌∷◌, ◌++◌, length,
  length-append, All-append, replicate, ◌==◌, arith, Bool-cases, bit_xor_assoc, bit_xor_comm,
  bit_xor_lt, zero-bit_xor, bit_xor-zero, bit_xor_self,
}
use bianhao.Qr.Field.{gf_mul, add_multiple, rs_step, rs_loop, tail, rs_generator, rs_encode}
use bianhao.Qr.Logarithms.{
  gf_mul_assoc, gf_mul-bit_xor, gf_mul-zero, gf_mul_comm, gf_mul_lt, one-gf_mul,
}
use bianhao.Qr.Evaluation.{
  AllBytes, power, power_lt, value_at, value_at-add_multiple, value_at-append, value_at_leading,
  value_at_lt, from_zero, swap_factors,
}

pub length-add_multiple : (f : ℕ) (gen res : List ℕ) → length (add_multiple f gen res) ≡ length res
unfolding add_multiple
length-add_multiple f [] res = refl
length-add_multiple f (g ∷ gen) [] = refl
length-add_multiple f (g ∷ gen) (x ∷ res) = ap suc (length-add_multiple f gen res)

pub length-replicate : (n x : ℕ) → length (replicate n x) ≡ n
unfolding replicate
length-replicate zero x = refl
length-replicate (suc n) x = ap suc (length-replicate n x)

length-rs_step :
    (gen : List ℕ) (b : ℕ) (res : List ℕ) → 0 < length res → length (rs_step gen b res) ≡ length res
unfolding rs_step
length-rs_step gen b [] h = absurd (omega arith)
length-rs_step gen b (x ∷ res) h =
    ground
      (arith, length-append res (0 ∷ []), length-add_multiple (bit_xor b x) gen (res ++ 0 ∷ []))

length-rs_loop :
    (gen block res : List ℕ) → 0 < length res → length (rs_loop gen block res) ≡ length res
unfolding rs_loop
length-rs_loop gen [] res h = refl
length-rs_loop gen (b ∷ block) res h =
    let same = length-rs_step gen b res h in
    length-rs_loop gen block (rs_step gen b res) (omega (arith, same)) ∙ same

pub length-rs_encode :
    (block : List ℕ) (ec_len : ℕ) → 0 < ec_len → length (rs_encode block ec_len) ≡ ec_len
unfolding rs_encode
length-rs_encode block ec_len h =
    let zeros = length-replicate ec_len 0 in
    length-rs_loop (tail (rs_generator ec_len)) block (replicate ec_len 0) (omega (arith, zeros))
    ∙ zeros

add_multiple-AllBytes :
    (f : ℕ) (gen res : List ℕ)
    → f < 256
    → AllBytes gen
    → AllBytes res
    → AllBytes (add_multiple f gen res)
unfolding add_multiple
add_multiple-AllBytes f [] res h hg hr = hr
add_multiple-AllBytes f (g ∷ gen) [] h hg hr = tt
add_multiple-AllBytes f (g ∷ gen) (x ∷ res) h hg hr = (
  bit_xor_lt 8 x (gf_mul g f) hr.0 (gf_mul_lt g f hg.0 h),
  add_multiple-AllBytes f gen res h hg.1 hr.1,
)

-- A shift and, where the factor is 0, no multiple: the multiple by 0 changes nothing.
add_multiple_by_zero : (gen res : List ℕ) → add_multiple 0 gen res ≡ res
unfolding add_multiple
add_multiple_by_zero [] res = refl
add_multiple_by_zero (g ∷ gen) [] = refl
add_multiple_by_zero (g ∷ gen) (x ∷ res) =
    rw (gf_mul-zero g, bit_xor-zero x) (ap (λ ys. x ∷ ys) (add_multiple_by_zero gen res))

factor_zero : (f : ℕ) → (f == 0) ≡ true → f ≡ 0
factor_zero f h = ground arith

rs_step_as_multiple :
    (gen : List ℕ) (b x : ℕ) (res : List ℕ)
    → rs_step gen b (x ∷ res) ≡ add_multiple (bit_xor b x) gen (res ++ 0 ∷ [])
unfolding rs_step
rs_step_as_multiple gen b x res = elim (Bool-cases (bit_xor b x == 0)) [
  | inl zero_factor ↦ rw zero_factor (
      sym (
        ap (λ f. add_multiple f gen (res ++ 0 ∷ [])) (factor_zero (bit_xor b x) zero_factor)
        ∙ add_multiple_by_zero gen (res ++ 0 ∷ [])))
  | inr other ↦ rw other refl
]

rotate : (a b c : ℕ) → bit_xor (bit_xor a b) c ≡ bit_xor b (bit_xor c a)
rotate a b c =
    ap (λ t. bit_xor t c) (bit_xor_comm a b)
    ∙ bit_xor_assoc b a c
    ∙ ap (bit_xor b) (bit_xor_comm a c)

cancel : (a b : ℕ) → bit_xor a b ≡ 0 → b ≡ a
cancel a b h =
    sym (zero-bit_xor b)
    ∙ ap (λ t. bit_xor t b) (sym (bit_xor_self a))
    ∙ bit_xor_assoc a a b
    ∙ ap (bit_xor a) h
    ∙ bit_xor-zero a

-- Division by a generator of degree k + 1 that vanishes at `r`; `gen` is without the leading 1.
module _ (r : ℕ) (small : r < 256) (k : ℕ) (gen : List ℕ) (len : length gen ≡ suc k)
    (hg : AllBytes gen) (root : value_at r 1 gen ≡ 0) where
  abbrev top : ℕ
  top = power r (suc k)

  top_lt : top < 256
  top_lt = power_lt r small (suc k)

  tail_value : value_at r 0 gen ≡ top
  tail_value = cancel top (value_at r 0 gen) (
      ap (λ t. bit_xor t (value_at r 0 gen))
        (sym (ap (λ n. gf_mul 1 (power r n)) len ∙ one-gf_mul top top_lt))
      ∙ sym (value_at_leading r small 1 gen (omega arith) hg)
      ∙ root)

  rs_step-AllBytes : (b : ℕ) (res : List ℕ) → b < 256 → AllBytes res → AllBytes (rs_step gen b res)
  unfolding rs_step
  rs_step-AllBytes b [] hb hr = (omega arith, tt)
  rs_step-AllBytes b (x ∷ res) hb hr = subst AllBytes (sym (rs_step_as_multiple gen b x res)) (
      add_multiple-AllBytes (bit_xor b x) gen (res ++ 0 ∷ []) (bit_xor_lt 8 b x hb hr.0) hg
        (All-append (λ y. y < 256) res (0 ∷ []) hr.1 (omega arith, tt)))

  -- What the remainder's value is to the value of the codewords read so far.
  abbrev pub Remainder : ℕ → List ℕ → Type 0
  Remainder h res = gf_mul h top ≡ value_at r 0 res

  value_of_shift : (res : List ℕ) → value_at r 0 (res ++ 0 ∷ []) ≡ gf_mul (value_at r 0 res) r
  unfolding value_at
  value_of_shift res = value_at-append r 0 res (0 ∷ []) ∙ bit_xor-zero (gf_mul (value_at r 0 res) r)

  module _ (x : ℕ) (res : List ℕ) (hx : x < 256) (hr : AllBytes res) (e : length res ≡ k) where
    value_of_remainder :
        gf_mul (value_at r 0 (x ∷ res)) r ≡ bit_xor (gf_mul x top) (gf_mul (value_at r 0 res) r)
    unfolding gf_mul power value_at
    value_of_remainder =
        let start = ap (λ n. value_at r n res) (from_zero r small x) in
        let power_len = ap (λ n. gf_mul x (power r n)) e in
        let low = value_at_lt r small 0 res (omega arith) hr in
        ap (λ v. gf_mul v r)
          (start
            ∙ value_at_leading r small x res hx hr
            ∙ ap (λ v. bit_xor v (value_at r 0 res)) power_len)
        ∙ gf_mul-bit_xor (gf_mul x (power r k)) (value_at r 0 res) r
            (gf_mul_lt x (power r k) hx (power_lt r small k)) low small
        ∙ ap (λ v. bit_xor v (gf_mul (value_at r 0 res) r))
            (gf_mul_assoc x (power r k) r hx (power_lt r small k) small)

    value_of_step :
        (b : ℕ)
        → b < 256
        → value_at r 0 (rs_step gen b (x ∷ res))
          ≡ bit_xor (gf_mul (value_at r 0 res) r) (gf_mul (bit_xor b x) top)
    unfolding gf_mul
    value_of_step b hb =
        ap (value_at r 0) (rs_step_as_multiple gen b x res)
        ∙ value_at-add_multiple r small (bit_xor b x) 0 0 gen (res ++ 0 ∷ [])
            (bit_xor_lt 8 b x hb hx) (omega arith) (omega arith) hg
            (All-append (λ y. y < 256) res (0 ∷ []) hr (omega arith, tt))
            (omega (arith, len, e, length-append res (0 ∷ [])))
        ∙ ap (λ v. bit_xor v (gf_mul (value_at r 0 gen) (bit_xor b x))) (value_of_shift res)
        ∙ ap (λ v. bit_xor (gf_mul (value_at r 0 res) r) (gf_mul v (bit_xor b x))) tail_value
        ∙ ap (bit_xor (gf_mul (value_at r 0 res) r)) (gf_mul_comm top (bit_xor b x))

    step_keeps :
        (h b : ℕ)
        → h < 256
        → b < 256
        → Remainder h (x ∷ res)
        → Remainder (bit_xor (gf_mul h r) b) (rs_step gen b (x ∷ res))
    step_keeps h b hh hb inv =
        gf_mul-bit_xor (gf_mul h r) b top (gf_mul_lt h r hh small) hb top_lt
        ∙ ap (λ v. bit_xor v (gf_mul b top))
            (swap_factors r small h r top hh small top_lt
              ∙ ap (λ v. gf_mul v r) inv
              ∙ value_of_remainder)
        ∙ rotate (gf_mul x top) (gf_mul (value_at r 0 res) r) (gf_mul b top)
        ∙ ap (bit_xor (gf_mul (value_at r 0 res) r)) (sym (gf_mul-bit_xor b x top hb hx top_lt))
        ∙ sym (value_of_step b hb)

  rs_step-Remainder :
      (h b : ℕ) (res : List ℕ)
      → h < 256
      → b < 256
      → AllBytes res
      → length res ≡ suc k
      → Remainder h res
      → Remainder (bit_xor (gf_mul h r) b) (rs_step gen b res)
  rs_step-Remainder h b [] hh hb hr e inv = absurd (omega (arith, e))
  rs_step-Remainder h b (x ∷ res) hh hb hr e inv =
      step_keeps x res hr.0 hr.1 (omega (arith, e)) h b hh hb inv

  pub rs_loop-Remainder :
      (block : List ℕ) (h : ℕ) (res : List ℕ)
      → h < 256
      → AllBytes block
      → AllBytes res
      → length res ≡ suc k
      → Remainder h res
      → Remainder (value_at r h block) (rs_loop gen block res) × AllBytes (rs_loop gen block res)
  unfolding rs_loop value_at
  rs_loop-Remainder [] h res hh hb hr e inv = (inv, hr)
  rs_loop-Remainder (b ∷ block) h res hh hb hr e inv =
      rs_loop-Remainder block (bit_xor (gf_mul h r) b) (rs_step gen b res)
        (bit_xor_lt 8 (gf_mul h r) b (gf_mul_lt h r hh small) hb.0) hb.1
        (rs_step-AllBytes b res hb.0 hr) (length-rs_step gen b res (omega (arith, e)) ∙ e)
        (rs_step-Remainder h b res hh hb.0 hr e inv)
