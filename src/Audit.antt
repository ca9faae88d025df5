-- ===== src/Audit.antt =====
-- audit/auditLog.ts: InMemoryAuditLog. Metadata is the text that the JSON round trip keeps.
use bianhao.Base.{
  ℕ, zero, suc, ◌+◌, ◌-◌, Bool, true, false, not, ◌&&◌, ◌||◌, String, Option, none, some, List, [],
  ◌∷◌, ◌++◌, map, length, filter, take, drop, sort_by, ltb, leb, ◌==◌, str_eq, if◌then◌else◌,
  get_or,
}
pub mod Bounded

pub record AuditEvent : Type 0 where
  pub id : String
  pub at : ℕ
  pub action : String
  pub actor : Option String
  pub subject_id : Option String
  pub metadata : Option String

-- What `record` is called with.
pub record AuditInput : Type 0 where
  pub action : String
  pub actor : Option String
  pub subject_id : Option String
  pub metadata : Option String
  pub at : Option ℕ

pub record AuditQuery : Type 0 where
  pub action : Option String
  pub actor : Option String
  pub subject_id : Option String
  pub from : Option ℕ
  pub to : Option ℕ
  pub limit : Option ℕ
  pub offset : Option ℕ

pub record InMemoryAuditLog : Type 0 where
  pub entries : List AuditEvent
  pub max_entries : ℕ

-- The event of an input, with the id and the time that are read for it.
unfoldable pub event_of : String → ℕ → AuditInput → AuditEvent
event_of id now input = record {
  id = id;
  at = get_or (AuditInput.at input) now;
  action = AuditInput.action input;
  actor = AuditInput.actor input;
  subject_id = AuditInput.subject_id input;
  metadata = AuditInput.metadata input;
}

-- `while (entries.length > maxEntries) entries.shift()`, from the number of entries on.
unfoldable pub trim : ℕ → ℕ → List AuditEvent → List AuditEvent
trim max zero entries = entries
trim max (suc left) entries =
    let shorter = trim max left (drop 1 entries) in
    if ltb max (length entries) then shorter else entries

unfoldable pub record_event :
    String → ℕ → AuditInput → InMemoryAuditLog → AuditEvent × InMemoryAuditLog
unfolding event_of trim
record_event id now input log =
    let event = event_of id now input in
    let pushed = InMemoryAuditLog.entries log ++ event ∷ [] in
    (event, record log { entries = trim (InMemoryAuditLog.max_entries log) (length pushed) pushed })

-- `if (wanted !== undefined && found !== wanted) continue`
unfoldable pub wanted : Option String → Option String → Bool
wanted none found = true
wanted (some w) none = false
wanted (some w) (some f) = str_eq f w

unfoldable pub not_before : Option ℕ → ℕ → Bool
not_before none at = true
not_before (some from) at = not (ltb at from)

unfoldable pub not_after : Option ℕ → ℕ → Bool
not_after none at = true
not_after (some to) at = not (leb to at)

unfoldable pub matches_query : AuditQuery → AuditEvent → Bool
unfolding wanted not_before not_after
matches_query q e =
    wanted (AuditQuery.action q) (some (AuditEvent.action e))
    && wanted (AuditQuery.actor q) (AuditEvent.actor e)
    && wanted (AuditQuery.subject_id q) (AuditEvent.subject_id e)
    && not_before (AuditQuery.from q) (AuditEvent.at e)
    && not_after (AuditQuery.to q) (AuditEvent.at e)

-- The matching events, each with its index.
unfoldable pub matched_from : AuditQuery → ℕ → List AuditEvent → List (AuditEvent × ℕ)
unfolding matches_query
matched_from q i [] = []
matched_from q i (e ∷ es) =
    let rest = matched_from q (suc i) es in if matches_query q e then (e, i) ∷ rest else rest

-- Newest first, and of two at one time the later recorded first.
unfoldable pub newer : AuditEvent × ℕ → AuditEvent × ℕ → Bool
newer (a, i) (b, j) =
    ltb (AuditEvent.at b) (AuditEvent.at a) || (AuditEvent.at a == AuditEvent.at b && leb j i)

unfoldable pub events_of : List (AuditEvent × ℕ) → List AuditEvent
events_of [] = []
events_of ((e, i) ∷ es) = e ∷ events_of es

pub record AuditPage : Type 0 where
  pub total : ℕ
  pub items : List AuditEvent

unfoldable pub query : AuditQuery → InMemoryAuditLog → AuditPage
unfolding matched_from newer events_of
query q log =
    let matched = sort_by newer (matched_from q 0 (InMemoryAuditLog.entries log)) in
    record {
      total = length matched;
      items =
          events_of
            (take (get_or (AuditQuery.limit q) 50) (drop (get_or (AuditQuery.offset q) 0) matched));
    }
