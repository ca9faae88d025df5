-- ===== src/Base/Keyed.antt =====
-- Maps that hold every value under its own key, and what listing their values keeps of that.
use Prim.Native.String.{String}
use mathlib.Core.Path.{◌≡◌, refl, sym, ap, ◌∙◌}
use mathlib.Core.Logic.{◌≢◌, inl, inr}
use mathlib.Core.Bool.{Bool}
use mathlib.Core.Option.{none, some}
use mathlib.Core.List.{List, [], ◌∷◌}
use native.Mathlib.Omega.{arith}
use bianhao.Base.Bools.{Bool-cases, str_eq, str_eq_iff}
use Prim.Native.Nat.{ℕ, zero, suc}
use bianhao.Base.Lists.{All, All-filter, All-take, filter, take}
use bianhao.Base.Sorting.{insert_sorted, insert_sorted-All, sort_by, sort_by-All}
use bianhao.Base.Maps.{Distinct, Map, get, set, get-set, values}

module _ {V : Type 0} (key : V → String) where
  -- No key twice, and each value under its key.
  abbrev pub IsKeyed : Map V → Type 0
  IsKeyed m = Distinct m × All (λ (kv : String × V). key kv.1 ≡ kv.0) m

  -- The map finds the value under its key.
  abbrev pub Found : Map V → V → Type 0
  Found m v = get (key v) m ≡ some v

  -- No two values of the list share a key.
  abbrev pub AllDistinct : List V → Type 0
  AllDistinct [] = Unit
  AllDistinct (v ∷ vs) = All (λ w. key w ≢ key v) vs × AllDistinct vs

  values-unlike :
      (j : String) (m : Map V)
      → get j m ≡ none
      → All (λ (kv : String × V). key kv.1 ≡ kv.0) m
      → All (λ w. key w ≢ j) (values m)
  unfolding values get
  values-unlike j [] h keyed = tt
  values-unlike j ((k, v) ∷ m) h keyed = (
    (λ e. ground (arith, keyed.0, str_eq_iff k j)),
    values-unlike j m (ground (arith, str_eq_iff k j)) keyed.1,
  )

  pub values-AllDistinct : (m : Map V) → IsKeyed m → AllDistinct (values m)
  unfolding values
  values-AllDistinct [] h = tt
  values-AllDistinct ((k, v) ∷ m) h = (
    values-unlike (key v) m (ap (λ i. get i m) h.1.0 ∙ h.0.0) h.1.1,
    values-AllDistinct m (h.0.1, h.1.1),
  )

  further-Found :
      (k : String) (v : V) (m : Map V) (vs : List V)
      → All (λ w. key w ≢ k) vs
      → All (Found m) vs
      → All (Found ((k, v) ∷ m)) vs
  unfolding get
  further-Found k v m [] other h = tt
  further-Found k v m (w ∷ vs) other h = (
    (let apart = other.0 in let found = h.0 in ground (arith, str_eq_iff k (key w))),
    further-Found k v m vs other.1 h.1,
  )

  pub values-Found : (m : Map V) → IsKeyed m → All (Found m) (values m)
  unfolding values get
  values-Found [] h = tt
  values-Found ((k, v) ∷ m) h = (
    (let same = h.1.0 in ground (arith, str_eq_iff k (key v))),
    further-Found k v m (values m) (values-unlike k m h.0.0 h.1.1) (values-Found m (h.0.1, h.1.1)),
  )

  pub filter-AllDistinct : (p : V → Bool) (vs : List V) → AllDistinct vs → AllDistinct (filter p vs)
  filter-AllDistinct p [] h = tt
  filter-AllDistinct p (v ∷ vs) h = elim (Bool-cases (p v)) [
    | inl stays ↦ rw stays (All-filter (λ w. key w ≢ key v) p vs h.0, filter-AllDistinct p vs h.1)
    | inr goes ↦ rw goes (filter-AllDistinct p vs h.1)
  ]

  insert_sorted-AllDistinct :
      (le : V → V → Bool) (v : V) (vs : List V)
      → All (λ w. key w ≢ key v) vs
      → AllDistinct vs
      → AllDistinct (insert_sorted le v vs)
  unfolding insert_sorted
  insert_sorted-AllDistinct le v [] other h = (tt, tt)
  insert_sorted-AllDistinct le v (w ∷ vs) other h = elim (Bool-cases (le v w)) [
    | inl first ↦ rw first (other, h)
    | inr later ↦ rw later (
      insert_sorted-All (λ u. key u ≢ key w) le v vs (λ e. other.0 (sym e)) h.0,
      insert_sorted-AllDistinct le v vs other.1 h.1,
    )
  ]

  pub sort_by-AllDistinct :
      (le : V → V → Bool) (vs : List V) → AllDistinct vs → AllDistinct (sort_by le vs)
  unfolding sort_by
  sort_by-AllDistinct le [] h = tt
  sort_by-AllDistinct le (v ∷ vs) h =
      insert_sorted-AllDistinct le v (sort_by le vs) (sort_by-All (λ w. key w ≢ key v) le vs h.0)
        (sort_by-AllDistinct le vs h.1)

  pub take-AllDistinct : (n : ℕ) (vs : List V) → AllDistinct vs → AllDistinct (take n vs)
  take-AllDistinct zero vs h = tt
  take-AllDistinct (suc n) [] h = tt
  take-AllDistinct (suc n) (v ∷ vs) h =
      (All-take (λ w. key w ≢ key v) n vs h.0, take-AllDistinct n vs h.1)

  -- A new value under its key keeps the map keyed.
  set-none : (j k : String) (v : V) (m : Map V) → j ≢ k → get j m ≡ none → get j (set k v m) ≡ none
  set-none j k v m ne h = get-set k j v m ∙ ground (arith, str_eq_iff k j)

  get_empty : (j : String) → get {V = V} j [] ≡ none
  unfolding get
  get_empty j = refl

  pub set-IsKeyed : (v : V) (m : Map V) → IsKeyed m → IsKeyed (set (key v) v m)
  unfolding set
  set-IsKeyed v [] h = ((get_empty (key v), tt), (refl, tt))
  set-IsKeyed v ((k, w) ∷ m) h = elim (Bool-cases (str_eq k (key v))) [
    | inl same ↦ rw same ((h.0.0, h.0.1), (sym ((str_eq_iff k (key v)).0 same), h.1.1))
    | inr other ↦
        let rest = set-IsKeyed v m (h.0.1, h.1.1) in
        let ne : k ≢ key v = λ e. ground (arith, other, (str_eq_iff k (key v)).1 e) in
        rw other ((set-none k (key v) v m ne h.0.0, rest.0), (h.1.0, rest.1))
  ]
