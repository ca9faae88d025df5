-- ===== src/Qr/Counts.antt =====
-- How many codewords interleaving gives (qr/qrEncoder.ts): as many as the blocks have.
use bianhao.Base.{
  ℕ, zero, suc, ◌+◌, ◌≤◌, ◌≡◌, refl, ap, ◌∙◌, sym, inl, inr, List, [], ◌∷◌, All, length,
  length-append, take, take-all, get_elem?, arith, Option-cases,
}
use bianhao.Qr.Codewords.{column, interleave, push_some}
use bianhao.Qr.Blocks.{Sized, take-past, take-there, total}

-- How many codewords the first i turns take.
abbrev pub spent : ℕ → List (List ℕ) → ℕ
spent i [] = 0
spent i (block ∷ blocks) = length (take i block) + spent i blocks

length-column :
    (i : ℕ) (blocks : List (List ℕ))
    → length (column i blocks) + spent i blocks ≡ spent (suc i) blocks
unfolding column
length-column i [] = omega arith
length-column i (block ∷ blocks) = elim (Option-cases (get_elem? i block)) [
  | inl e ↦
      let same = ap length ((take-past i block e).0) in
      ap (λ o. length (push_some o (column i blocks)) + (length (take i block) + spent i blocks)) e
      ∙ omega (arith, same, length-column i blocks)
  | inr (x, e) ↦
      let same = ap length ((take-there i block x e).0) in
      ap (λ o. length (push_some o (column i blocks)) + (length (take i block) + spent i blocks)) e
      ∙ omega (arith, same, length-append (take i block) (x ∷ []), length-column i blocks)
]

plus_zero : (i : ℕ) → i + 0 ≡ i
plus_zero i = omega arith

suc_plus : (i n : ℕ) → suc i + n ≡ i + suc n
suc_plus i n = omega arith

pub length-interleave :
    (n i : ℕ) (blocks : List (List ℕ))
    → length (interleave n i blocks) + spent i blocks ≡ spent (i + n) blocks
unfolding interleave
length-interleave zero i blocks = omega (arith, ap (λ k. spent k blocks) (sym (plus_zero i)))
length-interleave (suc n) i blocks = omega (
  arith,
  length-append (column i blocks) (interleave n (suc i) blocks),
  length-column i blocks,
  length-interleave n (suc i) blocks,
  ap (λ k. spent k blocks) (suc_plus i n),
)

pub spent_none : (blocks : List (List ℕ)) → spent 0 blocks ≡ 0
spent_none [] = refl
spent_none (block ∷ blocks) = omega (arith, spent_none blocks)

pub spent_total :
    (n : ℕ) (sizes : List ℕ) (blocks : List (List ℕ))
    → Sized sizes blocks
    → All (λ s. s ≤ n) sizes
    → spent n blocks ≡ total sizes
spent_total n [] [] h le = refl
spent_total n [] (block ∷ blocks) h le = absurd h
spent_total n (size ∷ sizes) [] h le = absurd h
spent_total n (size ∷ sizes) (block ∷ blocks) h le = omega (
  arith,
  h.0,
  ap length (take-all n block (omega (arith, h.0, le.0))),
  spent_total n sizes blocks h.1 le.1,
)
