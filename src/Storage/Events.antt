-- ===== src/Storage/Events.antt =====
-- storage/memoryStore.ts: MemoryProcessedEventStore. The clock's reading is an argument.
use bianhao.Base.{
  ℕ, suc, ◌+◌, Bool, true, false, String, [], ◌∷◌, ltb, if◌then◌else◌, Map, set, has, get-set_self,
  Bool-cases, inl, inr, ◌≡◌, refl,
}

pub record ProcessedEventStore : Type 0 where
  pub seen : Map ℕ

-- The answer is whether the event was new.
unfoldable pub mark_if_new : ℕ → String → ProcessedEventStore → Bool × ProcessedEventStore
mark_if_new now event_id s =
    if has event_id s.seen then (false, s) else (true, record { seen = set event_id now s.seen })

-- The loop of `sweep`: the entries that stay, and how many went. The cutoff `now - olderThanMs` may
-- be negative in the source, where no entry is older; `at + older_than < now` is the same test.
unfoldable pub sweep_entries : ℕ → ℕ → Map ℕ → Map ℕ × ℕ
sweep_entries now older_than [] = ([], 0)
sweep_entries now older_than ((id, at) ∷ m) =
    let (kept, removed) = sweep_entries now older_than m in
    if ltb (at + older_than) now then (kept, suc removed) else ((id, at) ∷ kept, removed)

unfoldable pub sweep : ℕ → ℕ → ProcessedEventStore → ProcessedEventStore × ℕ
unfolding sweep_entries
sweep now older_than s =
    let (kept, removed) = sweep_entries now older_than s.seen in (record { seen = kept }, removed)

-- An event that was marked is there.
pub has-mark_if_new :
    (now : ℕ) (event_id : String) (s : ProcessedEventStore)
    → has event_id (mark_if_new now event_id s).1.seen ≡ true
unfolding mark_if_new
has-mark_if_new now event_id s = elim (Bool-cases (has event_id s.seen)) [
  | inl old ↦ rw old old
  | inr new ↦ rw (new, get-set_self event_id now s.seen) refl
]

pub mark_if_new_old :
    (now : ℕ) (event_id : String) (s : ProcessedEventStore)
    → has event_id s.seen ≡ true
    → mark_if_new now event_id s ≡ (false, s)
unfolding mark_if_new
mark_if_new_old now event_id s h = rw h

pub mark_if_new_new :
    (now : ℕ) (event_id : String) (s : ProcessedEventStore)
    → has event_id s.seen ≡ false
    → mark_if_new now event_id s ≡ (true, record { seen = set event_id now s.seen })
unfolding mark_if_new
mark_if_new_new now event_id s h = rw h
