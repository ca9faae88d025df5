-- ===== src/Qr/Blocks.antt =====
-- The blocks of a symbol (qr/qrEncoder.ts): splitting and joining, interleaving and dealing out.
use bianhao.Base.{
  ℕ, zero, suc, ◌+◌, ◌≤◌, ◌<◌, ◌≡◌, refl, ap, ◌∙◌, sym, inl, inr, none, some, List, [], ◌∷◌, ◌++◌,
  map, length, take, drop, length-take, length-drop, take-drop, get_elem?, arith, Option-cases,
  some_inj,
}
use mathlib.Core.List.{append_assoc}
use bianhao.Qr.Codewords.{column, interleave, split_blocks}
use bianhao.Qr.Decode.{deal, deal_row, give, join, rest_after}

-- The sizes of the blocks are the given ones.
abbrev pub Sized : List ℕ → List (List ℕ) → Type 0
Sized [] [] = Unit
Sized [] (block ∷ blocks) = ⊥
Sized (size ∷ sizes) [] = ⊥
Sized (size ∷ sizes) (block ∷ blocks) = (length block ≡ size) × Sized sizes blocks

abbrev pub total : List ℕ → ℕ
total [] = 0
total (size ∷ sizes) = size + total sizes

abbrev pub starts : ℕ → List (List ℕ) → List (List ℕ)
starts i blocks = map (take i) blocks

pub split_blocks-Sized :
    (sizes codewords : List ℕ)
    → total sizes ≤ length codewords
    → Sized sizes (split_blocks sizes codewords)
unfolding split_blocks
split_blocks-Sized [] codewords h = tt
split_blocks-Sized (size ∷ sizes) codewords h = (
  length-take size codewords (omega arith),
  split_blocks-Sized sizes (drop size codewords) (omega (arith, length-drop size codewords)),
)

pub join-split_blocks :
    (sizes codewords : List ℕ)
    → length codewords ≡ total sizes
    → join (split_blocks sizes codewords) ≡ codewords
unfolding split_blocks join
join-split_blocks [] [] h = refl
join-split_blocks [] (x ∷ xs) h = absurd (omega (arith, h))
join-split_blocks (size ∷ sizes) codewords h =
    ap (λ ys. take size codewords ++ ys)
      (join-split_blocks sizes (drop size codewords) (omega (arith, h, length-drop size codewords)))
    ∙ take-drop size codewords

pub take-there :
    (i : ℕ) (block : List ℕ) (x : ℕ)
    → get_elem? i block ≡ some x
    → (take i block ++ x ∷ [] ≡ take (suc i) block) × (i < length block)
unfolding get_elem?
take-there i [] x h = cc
take-there zero (y ∷ ys) x h = (ap (λ z. z ∷ []) (sym (some_inj h)), omega arith)
take-there (suc i) (y ∷ ys) x h =
    let (same, lt) = take-there i ys x h in (ap (λ zs. y ∷ zs) same, omega (arith, lt))

pub take-past :
    (i : ℕ) (block : List ℕ)
    → get_elem? i block ≡ none
    → (take i block ≡ take (suc i) block) × (length block ≤ i)
unfolding get_elem?
take-past zero [] h = (refl, omega arith)
take-past (suc i) [] h = (refl, omega arith)
take-past zero (y ∷ ys) h = cc
take-past (suc i) (y ∷ ys) h =
    let (same, le) = take-past i ys h in (ap (λ zs. y ∷ zs) same, omega (arith, le))

give-past :
    (i size : ℕ) (block stream : List ℕ)
    → size ≤ i
    → (give i size block stream ≡ block) × (rest_after i size stream ≡ stream)
unfolding give rest_after
give-past i size block [] h = (refl, refl)
give-past i size block (s ∷ stream) h = (ground arith, ground arith)

give-there :
    (i size s : ℕ) (block stream : List ℕ)
    → i < size
    → (give i size block (s ∷ stream) ≡ block ++ s ∷ []) × (rest_after i size (s ∷ stream) ≡ stream)
unfolding give rest_after
give-there i size s block stream h = (ground arith, ground arith)

-- One turn gives the i-th codewords to the blocks that lack them.
deal_row-column :
    (i : ℕ) (sizes : List ℕ) (blocks : List (List ℕ)) (stream : List ℕ)
    → Sized sizes blocks
    → deal_row i sizes (starts i blocks) (column i blocks ++ stream)
      ≡ (starts (suc i) blocks, stream)
unfolding deal_row column
deal_row-column i [] [] stream h = refl
deal_row-column i [] (block ∷ blocks) stream h = absurd h
deal_row-column i (size ∷ sizes) [] stream h = absurd h
deal_row-column i (size ∷ sizes) (block ∷ blocks) stream (len, h) =
    elim (Option-cases (get_elem? i block)) [
      | inl e ↦
          let (same, le) = take-past i block e in
          let (kept, left) =
            give-past i size (take i block) (column i blocks ++ stream) (omega (arith, le, len)) in
          let ih = deal_row-column i sizes blocks stream h in rw e (rw (kept, left, ih, same) refl)
      | inr (x, e) ↦
          let (same, lt) = take-there i block x e in
          let (given, left) =
            give-there i size x (take i block) (column i blocks ++ stream)
              (omega (arith, lt, len)) in
          let ih = deal_row-column i sizes blocks stream h in rw e (rw (given, left, ih, same) refl)
    ]

-- Dealing out what was interleaved gives the blocks back; what follows in the stream is not read.
pub deal-interleave :
    (n i : ℕ) (sizes : List ℕ) (blocks : List (List ℕ)) (stream : List ℕ)
    → Sized sizes blocks
    → deal n i sizes (starts i blocks) (interleave n i blocks ++ stream) ≡ starts (i + n) blocks
unfolding deal interleave
deal-interleave zero i sizes blocks stream h = ap (λ n. starts n blocks) (omega arith)
deal-interleave (suc n) i sizes blocks stream h =
    let row = deal_row-column i sizes blocks (interleave n (suc i) blocks ++ stream) h in
    rw (append_assoc (column i blocks) (interleave n (suc i) blocks) stream, row)
      (deal-interleave n (suc i) sizes blocks stream h ∙ ap (λ n. starts n blocks) (omega arith))
