-- ===== src/Qr/Bch.antt =====
-- The loop of the BCH codes of format and version (qr/qrEncoder.ts) ends.
use Prim.Native.Nat.{bit_xor}
use bianhao.Base.{
  ℕ, zero, suc, ◌+◌, ◌-◌, ◌*◌, ◌^◌, ◌≤◌, ◌<◌, ◌≡◌, refl, ap, ◌∙◌, sym, subst, inl, inr, Bool, true,
  false, leb, ltb, ltb→lt, if◌then◌else◌, holds_below, holds_below_at, arith, Bool-cases,
}
use bianhao.Qr.Layout.{bit_len, reduce}

reduce-short :
    (further generator width d : ℕ) → bit_len d < width → reduce further generator width d ≡ d
unfolding reduce
reduce-short zero generator width d h = refl
reduce-short (suc further) generator width d h = rw (long width (bit_len d) h) refl
  where
    long : (w n : ℕ) → n < w → leb w n ≡ false
    long w n h = ground arith

suc_plus : (m n : ℕ) → suc m + n ≡ suc (m + n)
suc_plus m n = omega arith

-- Once the number has fewer bits than the generator, further turns change nothing.
reduce-done :
    (left further generator width d : ℕ)
    → bit_len (reduce left generator width d) < width
    → reduce (left + further) generator width d ≡ reduce left generator width d
unfolding reduce
reduce-done zero further generator width d h =
    ap (λ n. reduce n generator width d) (omega arith) ∙ reduce-short further generator width d h
reduce-done (suc left) further generator width d h =
    let d' = bit_xor d (generator * 2 ^ (bit_len d - width)) in
    let shorter = λ (b : Bool). bit_len (if b then reduce left generator width d' else d) < width in
    ap (λ n. reduce n generator width d) (suc_plus left further)
    ∙ elim (Bool-cases (leb width (bit_len d))) [
      | inl long ↦ rw long (reduce-done left further generator width d' (subst shorter long h))
      | inr short ↦ rw short refl
    ]

format_table : holds_below 32 (λ n. ltb (bit_len (reduce 6 0x537 11 (n * 2 ^ 10))) 11) ≡ true
unfolding holds_below reduce
format_table = refl

version_table : holds_below 32 (λ n. ltb (bit_len (reduce 6 0x1f25 13 (n * 2 ^ 12))) 13) ≡ true
unfolding holds_below reduce
version_table = refl

enough :
    (generator width d turns : ℕ)
    → bit_len (reduce 6 generator width d) < width
    → 6 ≤ turns
    → (reduce turns generator width d ≡ reduce 6 generator width d)
      × (bit_len (reduce turns generator width d) < width)
enough generator width d turns h le =
    let same =
      ap (λ n. reduce n generator width d) (split turns le)
      ∙ reduce-done 6 (turns - 6) generator width d h in
    (same, subst (λ x. bit_len x < width) (sym same) h)
  where
    split : (n : ℕ) → 6 ≤ n → n ≡ 6 + (n - 6)
    split n le = omega arith

-- For every five-bit format and version number, the loop of `bchFormat` and that of `bchVersion` end
-- within six turns: any larger number of turns gives the same remainder, which is shorter than the
-- generator.
pub bch_loops_end :
    (n turns : ℕ)
    → n < 32
    → 6 ≤ turns
    → ((reduce turns 0x537 11 (n * 2 ^ 10) ≡ reduce 6 0x537 11 (n * 2 ^ 10))
        × (bit_len (reduce turns 0x537 11 (n * 2 ^ 10)) < 11))
      × ((reduce turns 0x1f25 13 (n * 2 ^ 12) ≡ reduce 6 0x1f25 13 (n * 2 ^ 12))
          × (bit_len (reduce turns 0x1f25 13 (n * 2 ^ 12)) < 13))
bch_loops_end n turns low le = (
  enough 0x537 11 (n * 2 ^ 10) turns
      (ltb→lt _ 11 (
        holds_below_at 32 (λ n. ltb (bit_len (reduce 6 0x537 11 (n * 2 ^ 10))) 11) n format_table
          low))
      le,
  enough 0x1f25 13 (n * 2 ^ 12) turns
      (ltb→lt _ 13 (
        holds_below_at 32 (λ n. ltb (bit_len (reduce 6 0x1f25 13 (n * 2 ^ 12))) 13) n version_table
          low))
      le,
)
