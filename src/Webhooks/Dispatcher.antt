-- ===== src/Webhooks/Dispatcher.antt =====
-- webhooks/outbound.ts: WebhookDispatcher. The body's JSON and the HMAC are functions from outside.
use bianhao.Base.{
  ℕ, suc, ◌+◌, ◌-◌, ◌*◌, ◌^◌, min, ◌&&◌, String, Option, none, some, List, [], ◌∷◌, leb, ltb,
  if◌then◌else◌,
}
use bianhao.Domain.{Error, Result, ok, err}
use bianhao.Webhooks.Store as Store
use bianhao.Webhooks.Store.{
  Event, EventType, WebhookDelivery, DeliveryStatus, DeliveryError, WebhookRepository,
}

-- `defaultBackoff`
unfoldable pub default_backoff : ℕ → ℕ
default_backoff attempts = min 3_600_000 (30_000 * 2 ^ (attempts - 1))

-- What is posted: the body, and the headers that depend on the delivery.
pub record Posting : Type 0 where
  pub url : String
  pub webhook_id : String
  pub webhook_event : EventType
  pub timestamp : ℕ
  pub signature : String
  pub body : String

-- What the dispatcher is built with. `post` is the HTTP client asked at a tick: the status answered.
pub record Dispatcher : Type 0 where
  pub now : ℕ → ℕ
  pub uuid : ℕ → String
  pub url : String
  pub secret : String
  pub max_attempts : ℕ
  pub backoff : ℕ → ℕ
  pub body_of : Event → String
  pub sign_payload : String → ℕ → String → String
  pub post : ℕ → Posting → Result ℕ

pub record Outbox : Type 0 where
  pub deliveries : WebhookRepository
  pub tick : ℕ

abbrev stored :
    WebhookDelivery → Outbox → Result WebhookRepository → Result WebhookDelivery × Outbox
stored d s (ok r) = (ok d, record s { deliveries = r })
stored d s (err e) = (err e, s)

-- `this.repo.update(d)`
abbrev pub save : WebhookDelivery → Outbox → Result WebhookDelivery × Outbox
save d s = stored d s (Store.update d s.deliveries)

-- The counts that `processDue` answers.
pub record Tally : Type 0 where
  pub delivered : ℕ
  pub retried : ℕ
  pub dead : ℕ

abbrev pub counted : DeliveryStatus → Tally → Tally
counted DeliveryStatus.delivered c = record c { delivered = c.delivered + 1 }
counted DeliveryStatus.dead c = record c { dead = c.dead + 1 }
counted DeliveryStatus.pending c = record c { retried = c.retried + 1 }

module _ (env : Dispatcher) where
  unfoldable pub new_delivery : EventType → String → ℕ → String → String → WebhookDelivery
  new_delivery type_of payload now id event_id = record {
    id = id;
    event = record { id = event_id; type_of = type_of; payload = payload; created_at = now };
    url = env.url;
    status = DeliveryStatus.pending;
    attempts = 0;
    next_attempt_at = now;
    last_error = none;
    last_status = none;
    created_at = now;
    updated_at = now;
    delivered_at = none;
  }

  unfoldable pub enqueue : EventType → String → Outbox → WebhookDelivery × Outbox
  unfolding new_delivery
  enqueue type_of payload s =
      let d =
        new_delivery type_of payload (env.now s.tick) (env.uuid (suc s.tick))
          (env.uuid (suc (suc s.tick))) in
      (d, record { deliveries = Store.create d s.deliveries; tick = suc (suc (suc s.tick)) })

  unfoldable pub posting : WebhookDelivery → ℕ → Posting
  posting d now =
      let body = env.body_of d.event in
      record {
        url = d.url;
        webhook_id = d.event.id;
        webhook_event = d.event.type_of;
        timestamp = now;
        signature = env.sign_payload env.secret now body;
        body = body;
      }

  -- `fail`: what it makes of the delivery.
  unfoldable pub failed : WebhookDelivery → ℕ → ℕ → DeliveryError → Option ℕ → WebhookDelivery
  failed d attempts now error last_status =
      let is_dead = leb env.max_attempts attempts in
      record d {
        status = if is_dead then DeliveryStatus.dead else DeliveryStatus.pending;
        attempts = attempts;
        last_error = some error;
        last_status = last_status;
        next_attempt_at = if is_dead then d.next_attempt_at else now + env.backoff attempts;
        updated_at = now;
      }

  -- What `deliver` makes of the delivery, by the endpoint's answer.
  unfoldable pub outcome : WebhookDelivery → ℕ → Result ℕ → WebhookDelivery
  unfolding failed
  outcome d now (err e) = failed d (d.attempts + 1) now (DeliveryError.thrown e) none
  outcome d now (ok status) =
      if leb 200 status && ltb status 300
      then record d {
        status = DeliveryStatus.delivered;
        attempts = d.attempts + 1;
        last_status = some status;
        delivered_at = some now;
        updated_at = now;
        last_error = none;
      }
      else failed d (d.attempts + 1) now (DeliveryError.http status) (some status)

  unfoldable pub deliver : WebhookDelivery → Outbox → Result WebhookDelivery × Outbox
  unfolding outcome posting
  deliver d s =
      let now = env.now s.tick in
      save (outcome d now (env.post (suc s.tick) (posting d now)))
        (record s { tick = suc (suc s.tick) })

  -- The loop of `processDue`: it ends where a delivery is unknown to the store.
  unfoldable pub deliver_all : List WebhookDelivery → Tally → Outbox → Result Tally × Outbox
  unfolding deliver
  deliver_all [] c s = (ok c, s)
  deliver_all (d ∷ ds) c s =
      let (answer, s') = deliver d s in
      elim answer [ ok r ↦ deliver_all ds (counted r.status c) s' | err e ↦ (err e, s') ]

  unfoldable pub process_due : ℕ → Outbox → Result Tally × Outbox
  unfolding deliver_all
  process_due limit s =
      deliver_all (Store.find_due (env.now s.tick) limit s.deliveries)
        (record { delivered = 0; retried = 0; dead = 0 }) (record s { tick = suc s.tick })

  retry_found : Option WebhookDelivery → Outbox → Result WebhookDelivery × Outbox
  retry_found none s = (err Error.failure, s)
  retry_found (some d) s =
      let now = env.now s.tick in
      save (record d { status = DeliveryStatus.pending; next_attempt_at = now; updated_at = now })
        (record s { tick = suc s.tick })

  unfoldable pub retry : String → Outbox → Result WebhookDelivery × Outbox
  unfolding retry_found
  retry id s = retry_found (Store.find_by_id id s.deliveries) s
