-- ===== src/Base/Sorting.antt =====
-- `Array.prototype.sort`, which is stable: insertion sort by a Boolean test `before_or_tied`.
use mathlib.Core.Bool.{Bool}
use mathlib.Core.List.{List, [], ◌∷◌}
use mathlib.Core.List.{Perm}
use mathlib.Core.List.Perm
use native.Mathlib.Omega.{arith}
use mathlib.Core.Logic.{inl, inr}
use bianhao.Base.Bools.{if◌then◌else◌, Bool-cases}
use bianhao.Base.Lists.{All}

module _ {ℓ} {A : Type ℓ} where
  unfoldable pub insert_sorted : (A → A → Bool) → A → List A → List A
  insert_sorted le x [] = x ∷ []
  insert_sorted le x (y ∷ ys) =
      let rest = insert_sorted le x ys in if le x y then x ∷ y ∷ ys else y ∷ rest

  unfoldable pub sort_by : (A → A → Bool) → List A → List A
  unfolding insert_sorted
  sort_by le [] = []
  sort_by le (x ∷ xs) = insert_sorted le x (sort_by le xs)

  insert_sorted-perm :
      (le : A → A → Bool) (x : A) (xs : List A) → Perm (insert_sorted le x xs) (x ∷ xs)
  unfolding insert_sorted
  insert_sorted-perm le x [] = Perm.refl (x ∷ [])
  insert_sorted-perm le x (y ∷ ys) =
      let rest = Perm.trans (Perm.cons y (insert_sorted-perm le x ys)) (Perm.swap x y ys) in
      ground (arith, rest, Perm.refl (x ∷ y ∷ ys))

  -- Sorting neither drops nor doubles an item.
  pub sort_by-perm : (le : A → A → Bool) (xs : List A) → Perm (sort_by le xs) xs
  unfolding sort_by
  sort_by-perm le [] = Perm.refl []
  sort_by-perm le (x ∷ xs) =
      Perm.trans (insert_sorted-perm le x (sort_by le xs)) (Perm.cons x (sort_by-perm le xs))

  pub insert_sorted-All {κ} :
      (P : A → Type κ) (le : A → A → Bool) (x : A) (xs : List A)
      → P x
      → All P xs
      → All P (insert_sorted le x xs)
  unfolding insert_sorted
  insert_sorted-All P le x [] h hs = (h, tt)
  insert_sorted-All P le x (y ∷ ys) h hs = elim (Bool-cases (le x y)) [
    | inl first ↦ rw first (h, hs)
    | inr later ↦ rw later (hs.0, insert_sorted-All P le x ys h hs.1)
  ]

  -- What holds of all items holds of all once they are sorted.
  pub sort_by-All {κ} :
      (P : A → Type κ) (le : A → A → Bool) (xs : List A) → All P xs → All P (sort_by le xs)
  unfolding sort_by
  sort_by-All P le [] h = tt
  sort_by-All P le (x ∷ xs) h =
      insert_sorted-All P le x (sort_by le xs) h.0 (sort_by-All P le xs h.1)
