-- ===== src/Webhooks/Delivery.antt =====
-- What becomes of a delivery (webhooks/outbound.ts).
use bianhao.Base.{◌-◌, zero, ℕ, suc, ◌+◌, ◌^◌, ◌≤◌, ◌<◌, ◌≡◌, ap, ◌⊎◌, some, arith, get-set_self}
use native.Mathlib.Nat.{one-le-pow, two-pow-succ}
use bianhao.Domain.{Result, ok, err}
use bianhao.Webhooks.Store as Store
use bianhao.Webhooks.Store.{delivery_status_eq, WebhookDelivery, DeliveryStatus, WebhookRepository}
use bianhao.Webhooks.Dispatcher.{
  Dispatcher, Outbox, deliver, outcome, failed, posting, default_backoff,
}

-- The waits grow with the attempts, from half a minute to an hour.
pub default_backoff_bounds :
    (attempts : ℕ)
    → (30_000 ≤ default_backoff attempts)
      × (default_backoff attempts ≤ 3_600_000)
      × (default_backoff attempts ≤ default_backoff (attempts + 1))
unfolding default_backoff
default_backoff_bounds zero = omega arith
default_backoff_bounds (suc n) =
    let first : 2 ^ (suc n - 1) ≡ 2 ^ n = ap (λ k. 2 ^ k) (omega arith) in
    let next : 2 ^ (suc n + 1 - 1) ≡ 2 ^ suc n = ap (λ k. 2 ^ k) (omega arith) in
    omega (arith, first, next, one-le-pow n 2 (omega arith), two-pow-succ n)

-- What may become of a delivery that is tried at `now` and answered.
abbrev pub Answered : Dispatcher → WebhookDelivery → ℕ → Result ℕ → WebhookDelivery → Type 0
Answered env d now answer r =
    (r.id ≡ d.id)
    × (r.attempts ≡ d.attempts + 1)
    × (((r.status ≡ DeliveryStatus.delivered)
          × ((code : ℕ) × (answer ≡ ok code) × (200 ≤ code) × (code < 300)))
        ⊎ ((((code : ℕ) → answer ≡ ok code → 200 ≤ code → 300 ≤ code))
            × (((r.status ≡ DeliveryStatus.dead) × (env.max_attempts ≤ r.attempts))
                ⊎ ((r.status ≡ DeliveryStatus.pending)
                    × (r.attempts < env.max_attempts)
                    × (r.next_attempt_at ≡ now + env.backoff r.attempts)))))

module _ (env : Dispatcher) where
  pub outcome-Answered :
      (d : WebhookDelivery) (now : ℕ) (answer : Result ℕ)
      → Answered env d now answer (outcome env d now answer)
  unfolding outcome failed
  outcome-Answered d now (ok code) = ground arith
  outcome-Answered d now (err e) = ground arith

  -- A stored delivery that is tried counts one attempt more, and is stored as it is answered. It is
  -- delivered exactly on a status from 200 to 299; otherwise it is dead where the attempts are used
  -- up, and waits as the backoff says where they are not.
  pub deliver-Answered :
      (d old : WebhookDelivery) (s : Outbox)
      → Store.find_by_id d.id s.deliveries ≡ some old
      → (r : WebhookDelivery) × ((deliver env d s).0 ≡ ok r)
        × (Store.find_by_id d.id (deliver env d s).1.deliveries ≡ some r)
        × Answered env d (env.now s.tick) (env.post (suc s.tick) (posting env d (env.now s.tick))) r
  unfolding deliver Store.update Store.find_by_id
  deliver-Answered d old s known =
      let now = env.now s.tick in
      let r = outcome env d now (env.post (suc s.tick) (posting env d now)) in
      let a = outcome-Answered d now (env.post (suc s.tick) (posting env d now)) in
      (r, ground (arith, a.0), ground (arith, a.0, get-set_self d.id r s.deliveries.by_id), a)
