-- ===== src/Examples/WebhookRuns.antt =====
-- One delivery to an endpoint that answers 503.
use bianhao.Base.{
  All, String, IsKeyed, ◌≢◌, sort_by, set, ◌+◌, ◌≡◌, ◌≤◌, refl, some, none, [], ◌∷◌, length, get,
  str_eq, values,
}
use bianhao.Domain.{ok}
use bianhao.Webhooks.Store as Store
use bianhao.Webhooks.Store.{WebhookDelivery, DeliveryStatus, EventType}
use bianhao.Webhooks.Dispatcher.{Dispatcher, Outbox, Tally, deliver, process_due, default_backoff}
use bianhao.Webhooks.Delivery.{Answered, deliver-Answered}
use bianhao.Webhooks.Due.{Counts, Tried, process_due-Tried, stored_in}

abbrev waiting_delivery : WebhookDelivery
waiting_delivery = record {
  id = "w1";
  event = record { id = "v1"; type_of = EventType.order_fulfilled; payload = ""; created_at = 0 };
  url = "https://shop";
  status = DeliveryStatus.pending;
  attempts = 0;
  next_attempt_at = 0;
  last_error = none;
  last_status = none;
  created_at = 0;
  updated_at = 0;
  delivered_at = none;
}

abbrev overloaded : Dispatcher
overloaded = record {
  now = λ t. 1000 + t;
  uuid = λ t. "w2";
  url = "https://shop";
  secret = "s";
  max_attempts = 3;
  backoff = default_backoff;
  body_of = λ e. e.payload;
  sign_payload = λ secret t body. body;
  post = λ t p. ok 503;
}

abbrev outbox : Outbox
outbox = record {
  deliveries = record { by_id = ("w1", waiting_delivery) ∷ []; order = "w1" ∷ [] };
  tick = 0;
}

deliver-Answered_example :
    (r : WebhookDelivery) × ((deliver overloaded waiting_delivery outbox).0 ≡ ok r)
    × (Store.find_by_id "w1" (deliver overloaded waiting_delivery outbox).1.deliveries ≡ some r)
    × Answered overloaded waiting_delivery 1000 (ok 503) r
unfolding Store.find_by_id get str_eq
deliver-Answered_example = deliver-Answered overloaded waiting_delivery waiting_delivery outbox refl

outbox-IsKeyed : IsKeyed (λ d. d.id) (stored_in outbox)
unfolding get
outbox-IsKeyed = ((refl, tt), (refl, tt))

process_due-Tried_example :
    ((c : Tally) × ((process_due overloaded 10 outbox).0 ≡ ok c)
      × Counts overloaded c 1 (Store.find_due 1000 10 outbox.deliveries)
      × (c.delivered + c.retried + c.dead ≡ length (Store.find_due 1000 10 outbox.deliveries)))
    × Tried overloaded 1
        (Store.find_due 1000 10 outbox.deliveries)
        ((process_due overloaded 10 outbox).1)
    × ((id : String)
        → All (λ d. d.id ≢ id) (Store.find_due 1000 10 outbox.deliveries)
        → get id (stored_in ((process_due overloaded 10 outbox).1)) ≡ get id (stored_in outbox))
    × (length (Store.find_due 1000 10 outbox.deliveries) ≤ 10)
process_due-Tried_example = process_due-Tried overloaded 10 outbox outbox-IsKeyed

-- The one that is due is to be tried again.
one_retried :
    (process_due overloaded 10 outbox).0 ≡ ok (record { delivered = 0; retried = 1; dead = 0 })
unfolding process_due Store.find_due Store.update values sort_by get set str_eq
one_retried = refl

-- A dead delivery is counted and named, the pending one is not.
one_dead :
    Store.dead_letter_summary 20 (record {
      by_id =
          ("w1", waiting_delivery)
          ∷ ("w2", record waiting_delivery { id = "w2"; status = DeliveryStatus.dead })
          ∷ [];
      order = "w1" ∷ "w2" ∷ [];
    })
    ≡ some (1, "w2" ∷ [])
unfolding Store.dead_letter_summary get str_eq
one_dead = refl
