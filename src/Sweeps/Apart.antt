-- ===== src/Sweeps/Apart.antt =====
-- Jobs with different ids: what the store's listing keeps of that (services/sweepService.ts,
-- storage/memoryStore.ts).
use bianhao.Base.{
  All-take, All-filter, insert_sorted-All, ℕ, suc, zero, ◌≡◌, ◌≢◌, sym, ap, ◌∙◌, inl, inr, Bool,
  String, none, some, List, [], ◌∷◌, take, filter, All, arith, Bool-cases, Map, get, values,
  Distinct, str_eq_iff, sort_by, sort_by-All, insert_sorted,
}
use bianhao.Domain.{SweepJob}

-- Another job.
abbrev pub Other : SweepJob → SweepJob → Type 0
Other j k = k.id ≢ j.id

-- No two jobs of the list share an id.
abbrev pub Apart : List SweepJob → Type 0
Apart [] = Unit
Apart (j ∷ js) = All (Other j) js × Apart js

pub Apart-take : (n : ℕ) (js : List SweepJob) → Apart js → Apart (take n js)
Apart-take zero js h = tt
Apart-take (suc n) [] h = tt
Apart-take (suc n) (j ∷ js) h = (All-take (Other j) n js h.0, Apart-take n js h.1)

pub Apart-filter : (p : SweepJob → Bool) (js : List SweepJob) → Apart js → Apart (filter p js)
Apart-filter p [] h = tt
Apart-filter p (j ∷ js) h = elim (Bool-cases (p j)) [
  | inl stays ↦ rw stays (All-filter (Other j) p js h.0, Apart-filter p js h.1)
  | inr goes ↦ rw goes (Apart-filter p js h.1)
]

insert_sorted-Apart :
    (le : SweepJob → SweepJob → Bool) (j : SweepJob) (js : List SweepJob)
    → All (Other j) js
    → Apart js
    → Apart (insert_sorted le j js)
unfolding insert_sorted
insert_sorted-Apart le j [] other h = (tt, tt)
insert_sorted-Apart le j (k ∷ js) other h = elim (Bool-cases (le j k)) [
  | inl first ↦ rw first (other, h)
  | inr later ↦ rw later (
    insert_sorted-All (Other k) le j js (λ e. other.0 (sym e)) h.0,
    insert_sorted-Apart le j js other.1 h.1,
  )
]

pub sort_by-Apart :
    (le : SweepJob → SweepJob → Bool) (js : List SweepJob) → Apart js → Apart (sort_by le js)
unfolding sort_by
sort_by-Apart le [] h = tt
sort_by-Apart le (j ∷ js) h =
    insert_sorted-Apart le j (sort_by le js) (sort_by-All (Other j) le js h.0)
      (sort_by-Apart le js h.1)

-- The store has every job under its id, and no id twice.
abbrev pub WellStored : Map SweepJob → Type 0
WellStored m = Distinct m × All (λ (kv : String × SweepJob). kv.1.id ≡ kv.0) m

values-Other :
    (j : SweepJob) (m : Map SweepJob)
    → get j.id m ≡ none
    → All (λ (kv : String × SweepJob). kv.1.id ≡ kv.0) m
    → All (Other j) (values m)
unfolding values get
values-Other j [] h keyed = tt
values-Other j ((k, v) ∷ m) h keyed = (
  (λ e. ground (arith, keyed.0, str_eq_iff k j.id)),
  values-Other j m (ground (arith, str_eq_iff k j.id)) keyed.1,
)

pub values-Apart : (m : Map SweepJob) → WellStored m → Apart (values m)
unfolding values
values-Apart [] h = tt
values-Apart ((k, v) ∷ m) h =
    (values-Other v m (ap (λ i. get i m) h.1.0 ∙ h.0.0) h.1.1, values-Apart m (h.0.1, h.1.1))

behind :
    (k : String) (v : SweepJob) (m : Map SweepJob) (js : List SweepJob)
    → k ≡ v.id
    → All (Other v) js
    → All (λ j. get j.id m ≡ some j) js
    → All (λ j. get j.id ((k, v) ∷ m) ≡ some j) js
unfolding get
behind k v m [] e apart h = tt
behind k v m (j ∷ js) e apart h =
    (ground (arith, str_eq_iff k j.id, apart.0, h.0), behind k v m js e apart.1 h.1)

pub values-Stored : (m : Map SweepJob) → WellStored m → All (λ j. get j.id m ≡ some j) (values m)
unfolding values get
values-Stored [] h = tt
values-Stored ((k, v) ∷ m) h = (
  ground (arith, str_eq_iff k v.id, h.1.0),
  behind k v m (values m) (sym h.1.0) (values-Apart ((k, v) ∷ m) h).0
      (values-Stored m (h.0.1, h.1.1)),
)
