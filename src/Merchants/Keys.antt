-- ===== src/Merchants/Keys.antt =====
-- Whose key a text is: the search of MemoryMerchantRepository (storage/memoryStore.ts).
use bianhao.Base.{
  ◌≡◌, ◌≢◌, refl, ap, ◌∙◌, sym, subst, inl, inr, Bool, true, false, String, none, some, [], ◌∷◌,
  All, if◌then◌else◌, str_eq, str_eq_iff, Map, Distinct, get, set, values, Bool-cases, some_inj,
}
use bianhao.Merchants.{Merchant, first_holder, holds}

-- No merchant but `m` holds the key.
abbrev pub HeldOnlyBy : String → Merchant → Map Merchant → Type 0
HeldOnlyBy key m map = All (λ (kv : String × Merchant). holds key kv.1 ≡ true → kv.1 ≡ m) map

abbrev pub Unheld : String → Map Merchant → Type 0
Unheld key map = All (λ (kv : String × Merchant). holds key kv.1 ≡ false) map

pub clash : {b : Bool} → b ≡ true → b ≡ false → ⊥
clash p q = cc

nothing_there : {m : Merchant} → none ≡ some m → ⊥
nothing_there h = cc

something_there : {m : Merchant} → some m ≡ none → ⊥
something_there h = cc

-- Where the first merchant does not hold the key, the one that does is among the rest.
module _ (key id : String) (m v : Merchant) (k : String) (map : Map Merchant)
    (held : holds key m ≡ true) (not_here : holds key v ≡ false) where
  in_rest : get id ((k, v) ∷ map) ≡ some m → get id map ≡ some m
  unfolding get
  in_rest found = elim (Bool-cases (str_eq k id)) [
    | inl same ↦
        let one = some_inj (sym (ap (λ b. if b then some v else get id map) same) ∙ found) in
        absurd (clash held (sym (ap (holds key) one) ∙ not_here))
    | inr other ↦ sym (ap (λ b. if b then some v else get id map) other) ∙ found
  ]

pub first_holder-none :
    (key : String) (map : Map Merchant) → Unheld key map → first_holder key (values map) ≡ none
unfolding first_holder values
first_holder-none key [] h = refl
first_holder-none key ((k, m) ∷ map) h = rw (h.0, first_holder-none key map h.1) refl

pub first_holder_only :
    (key id : String) (m : Merchant) (map : Map Merchant)
    → get id map ≡ some m
    → holds key m ≡ true
    → HeldOnlyBy key m map
    → first_holder key (values map) ≡ some m
unfolding first_holder values get
first_holder_only key id m [] found held only = absurd (nothing_there found)
first_holder_only key id m ((k, v) ∷ map) found held only = elim (Bool-cases (holds key v)) [
  | inl here ↦ rw here (ap some (only.0 here))
  | inr not_here ↦
      rw not_here
        (first_holder_only key id m map (in_rest key id m v k map held not_here found) held only.1)
]

unlike :
    (id : String) (map : Map Merchant)
    → get id map ≡ none
    → All (λ (kv : String × Merchant). kv.0 ≢ id) map
unfolding get
unlike id [] h = tt
unlike id ((k, v) ∷ map) h = elim (Bool-cases (str_eq k id)) [
  | inl same ↦ absurd (something_there (sym (ap (λ b. if b then some v else get id map) same) ∙ h))
  | inr other ↦ (
    λ e. clash ((str_eq_iff k id).1 e) other,
    unlike id map (sym (ap (λ b. if b then some v else get id map) other) ∙ h),
  )
]

module _ {P Q : String × Merchant → Type 0} (id : String) (m : Merchant) (new : Q (id, m))
    (kept : (kv : String × Merchant) → kv.0 ≢ id → P kv → Q kv) where
  kept_rest :
      (map : Map Merchant) → All (λ (kv : String × Merchant). kv.0 ≢ id) map → All P map → All Q map
  kept_rest [] h k = tt
  kept_rest (kv ∷ map) h k = (kept kv h.0 k.0, kept_rest map h.1 k.1)

  -- What holds of the new entry and of the others holds of the map after `set`.
  pub set-All : (map : Map Merchant) → Distinct map → All P map → All Q (set id m map)
  unfolding set
  set-All [] distinct h = (new, tt)
  set-All ((k, v) ∷ map) distinct h = elim (Bool-cases (str_eq k id)) [
    | inl same ↦
        let here = (str_eq_iff k id).0 same in
        rw same (
          subst (λ i. Q (i, m)) (sym here) new,
          kept_rest map (unlike id map (ap (λ i. get i map) (sym here) ∙ distinct.0)) h.1,
        )
    | inr other ↦
        rw other
          (kept (k, v) (λ e. clash ((str_eq_iff k id).1 e) other) h.0, set-All map distinct.1 h.1)
  ]
