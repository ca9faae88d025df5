-- ===== src/Webhooks/Store.antt =====
-- webhooks/outbound.ts: WebhookDelivery and MemoryWebhookRepository. The payload is its JSON text.
use bianhao.Base.{
  none, some, length, drop, map, ℕ, ◌&&◌, Bool, true, false, String, Option, List, [], ◌∷◌, ◌++◌,
  filter, take, leb, if◌then◌else◌, Map, get, set, has, values, sort_by,
}
use bianhao.Storage.Orders.{Page}
use bianhao.Domain.{Error, Result, ok, err}

pub data EventType : Type 0 where
  order_fulfilled order_refunded refund_updated reconciliation_alert : EventType

pub record Event : Type 0 where
  pub id : String
  pub type_of : EventType
  pub payload : String
  pub created_at : ℕ

pub data DeliveryStatus : Type 0 where
  pending delivered dead : DeliveryStatus

-- `lastError`: the error's text, or the status that was answered.
pub data DeliveryError : Type 0 where
  http : ℕ → DeliveryError
  thrown : Error → DeliveryError

pub record WebhookDelivery : Type 0 where
  pub id : String
  pub event : Event
  pub url : String
  pub status : DeliveryStatus
  pub attempts : ℕ
  pub next_attempt_at : ℕ
  pub last_error : Option DeliveryError
  pub last_status : Option ℕ
  pub created_at : ℕ
  pub updated_at : ℕ
  pub delivered_at : Option ℕ

pub record WebhookRepository : Type 0 where
  pub by_id : Map WebhookDelivery
  pub order : List String

abbrev pub delivery_status_eq : DeliveryStatus → DeliveryStatus → Bool
delivery_status_eq DeliveryStatus.pending DeliveryStatus.pending = true
delivery_status_eq DeliveryStatus.delivered DeliveryStatus.delivered = true
delivery_status_eq DeliveryStatus.dead DeliveryStatus.dead = true
delivery_status_eq _ _ = false

unfoldable pub create : WebhookDelivery → WebhookRepository → WebhookRepository
create d r = record { by_id = set d.id d r.by_id; order = r.order ++ d.id ∷ [] }

unfoldable pub update : WebhookDelivery → WebhookRepository → Result WebhookRepository
update d r =
    if has d.id r.by_id then ok (record r { by_id = set d.id d r.by_id }) else err Error.failure

unfoldable pub find_by_id : String → WebhookRepository → Option WebhookDelivery
find_by_id id r = get id r.by_id

unfoldable pub find_due : ℕ → ℕ → WebhookRepository → List WebhookDelivery
find_due now limit r = take limit (
    sort_by (λ (a b : WebhookDelivery). leb a.next_attempt_at b.next_attempt_at)
      (filter (λ d. delivery_status_eq d.status DeliveryStatus.pending && leb d.next_attempt_at now)
        (values r.by_id)))

-- The deliveries in the order of their creation; none where an id is not stored, which throws.
unfoldable pub listed : List String → Map WebhookDelivery → Option (List WebhookDelivery)
listed [] m = some []
listed (id ∷ ids) m = join_found (get id m) (listed ids m)
  where
    join_found :
        Option WebhookDelivery → Option (List WebhookDelivery) → Option (List WebhookDelivery)
    join_found (some d) (some ds) = some (d ∷ ds)
    join_found _ _ = none

abbrev in_status : Option DeliveryStatus → WebhookDelivery → Bool
in_status none d = true
in_status (some status) d = delivery_status_eq d.status status

-- The newest come first.
unfoldable pub newest_first : List WebhookDelivery → List WebhookDelivery → List WebhookDelivery
newest_first [] done = done
newest_first (d ∷ ds) done = newest_first ds (d ∷ done)

unfoldable pub page_of :
    Option DeliveryStatus → ℕ → ℕ → Option (List WebhookDelivery) → Option (Page WebhookDelivery)
unfolding newest_first
page_of status limit offset none = none
page_of status limit offset (some ds) =
    let found = newest_first (filter (in_status status) ds) [] in
    some (record { total = length found; items = take limit (drop offset found) })

unfoldable pub list :
    Option DeliveryStatus → ℕ → ℕ → WebhookRepository → Option (Page WebhookDelivery)
unfolding listed page_of
list status limit offset r = page_of status limit offset (listed r.order r.by_id)

unfoldable pub sample_of : Option (Page WebhookDelivery) → Option (ℕ × List String)
sample_of none = none
sample_of (some page) =
    some (Page.total page, map (λ (d : WebhookDelivery). d.id) (Page.items page))

unfoldable pub dead_letter_summary : ℕ → WebhookRepository → Option (ℕ × List String)
unfolding list sample_of
dead_letter_summary sample_size r = sample_of (list (some DeliveryStatus.dead) sample_size 0 r)
