-- ===== src/Audit/Bounded.antt =====
-- The audit log (audit/auditLog.ts) against its specification: everything that was ever recorded, of
-- which the last `max_entries` are kept.
use mathlib.Core.List.{append-nil, append_assoc}
use bianhao.Base.{
  ℕ, zero, suc, ◌+◌, ◌-◌, ◌≤◌, ◌≡◌, refl, ap, ◌∙◌, sym, subst, inl, inr, true, false, String, List,
  [], ◌∷◌, ◌++◌, length, length-append, drop, length-drop, ltb, arith, Bool-cases,
}
use bianhao.Audit.{AuditEvent, AuditInput, InMemoryAuditLog, event_of, record_event, trim}

-- The specification: the whole history.
abbrev pub last_of : ℕ → List AuditEvent → List AuditEvent
last_of n history = drop (length history - n) history

drop-nil : (n : ℕ) → drop {A = AuditEvent} n [] ≡ []
drop-nil zero = refl
drop-nil (suc n) = refl

drop-drop : (n m : ℕ) (xs : List AuditEvent) → drop m (drop n xs) ≡ drop (n + m) xs
drop-drop zero m xs = ap (λ k. drop k xs) (omega arith)
drop-drop (suc n) m [] = drop-nil m ∙ sym (drop-nil (suc n + m))
drop-drop (suc n) m (x ∷ xs) = drop-drop n m xs ∙ ap (λ k. drop k (x ∷ xs)) (suc_plus n m)
  where
    suc_plus : (n m : ℕ) → suc (n + m) ≡ suc n + m
    suc_plus n m = omega arith

one_more : (max n : ℕ) → ltb max n ≡ true → 1 + (n - 1 - max) ≡ n - max
one_more max n h = ground arith

none_more : (max n : ℕ) → ltb max n ≡ false → 0 ≡ n - max
none_more max n h = ground arith

trim-drop :
    (max left : ℕ) (entries : List AuditEvent)
    → length entries ≤ left
    → trim max left entries ≡ last_of max entries
unfolding trim
trim-drop max zero [] h = sym (drop-nil (0 - max))
trim-drop max zero (e ∷ es) h = absurd (omega arith)
trim-drop max (suc left) entries h = elim (Bool-cases (ltb max (length entries))) [
  | inl long ↦
      let shorter = length-drop 1 entries in
      rw long (
        trim-drop max left (drop 1 entries) (omega (arith, shorter))
        ∙ ap (λ n. drop (n - max) (drop 1 entries)) shorter
        ∙ drop-drop 1 (length entries - 1 - max) entries
        ∙ ap (λ n. drop n entries) (one_more max (length entries) long))
  | inr short ↦ rw short (ap (λ n. drop n entries) (none_more max (length entries) short))
]

drop-append :
    (n : ℕ) (xs ys : List AuditEvent) → n ≤ length xs → drop n (xs ++ ys) ≡ drop n xs ++ ys
drop-append zero xs ys h = refl
drop-append (suc n) [] ys h = absurd (omega arith)
drop-append (suc n) (x ∷ xs) ys h = drop-append n xs ys (omega arith)

-- A reading of the world per record: the id and the time.
abbrev pub Reading : Type 0
Reading = String × ℕ × AuditInput

unfoldable pub history_of : List Reading → List AuditEvent
history_of [] = []
history_of ((id, now, input) ∷ readings) = event_of id now input ∷ history_of readings

unfoldable pub record_all : List Reading → InMemoryAuditLog → InMemoryAuditLog
unfolding record_event
record_all [] log = log
record_all ((id, now, input) ∷ readings) log =
    let (event, longer) = record_event id now input log in record_all readings longer

-- The log shows the end of the history.
abbrev pub Refines : List AuditEvent → InMemoryAuditLog → Type 0
Refines history log =
    InMemoryAuditLog.entries log ≡ last_of (InMemoryAuditLog.max_entries log) history

record_event-Refines :
    (id : String) (now : ℕ) (input : AuditInput) (history : List AuditEvent)
    (log : InMemoryAuditLog)
    → Refines history log
    → Refines (history ++ event_of id now input ∷ []) ((record_event id now input log).1)
unfolding record_event
record_event-Refines id now input history log h =
    let event = event_of id now input in
    let max = InMemoryAuditLog.max_entries log in
    let entries = InMemoryAuditLog.entries log in
    let k = length history - max in
    let pushed : entries ++ event ∷ [] ≡ drop k (history ++ event ∷ []) =
      ap (λ xs. xs ++ event ∷ []) h ∙ sym (drop-append k history (event ∷ []) (omega arith)) in
    trim-drop max (length (entries ++ event ∷ [])) (entries ++ event ∷ []) (omega arith)
    ∙ ap (last_of max) pushed
    ∙ drop-drop k (length (drop k (history ++ event ∷ [])) - max) (history ++ event ∷ [])
    ∙ ap (λ n. drop n (history ++ event ∷ []))
        (omega (arith, length-drop k (history ++ event ∷ []), length-append history (event ∷ [])))

-- Whatever is recorded, the log is the end of the history, at most `max_entries` long.
pub record_all-Refines :
    (readings : List Reading) (history : List AuditEvent) (log : InMemoryAuditLog)
    → Refines history log
    → Refines (history ++ history_of readings) (record_all readings log)
unfolding record_all history_of
record_all-Refines [] history log h =
    h ∙ ap (last_of (InMemoryAuditLog.max_entries log)) (sym (append-nil history))
record_all-Refines ((id, now, input) ∷ readings) history log h =
    let event = event_of id now input in
    let longer = (record_event id now input log).1 in
    subst (λ all. Refines all (record_all readings longer))
      (append_assoc history (event ∷ []) (history_of readings))
      (record_all-Refines readings (history ++ event ∷ []) longer
        (record_event-Refines id now input history log h))
