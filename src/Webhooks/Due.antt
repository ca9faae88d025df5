-- ===== src/Webhooks/Due.antt =====
-- A run over the due deliveries (webhooks/outbound.ts): each is tried once, and counted as it ends.
use bianhao.Base.{
  ℕ, zero, suc, ◌+◌, ◌≤◌, ◌≡◌, ◌≢◌, refl, ap, ◌∙◌, sym, subst, Bool, true, false, ◌&&◌, String,
  some, List, [], ◌∷◌, length, All, All-filter, All-take, filter, take, values, sort_by,
  sort_by-All, leb, ltb, if◌then◌else◌, is_some, arith, Map, get, set, has, get-set_self,
  get-set_ne, IsKeyed, Found, AllDistinct, values-AllDistinct, values-Found, filter-AllDistinct,
  sort_by-AllDistinct, take-AllDistinct,
}
use bianhao.Domain.{Result, ok, err}
use bianhao.Webhooks.Store as Store
use bianhao.Webhooks.Store.{delivery_status_eq, WebhookDelivery, DeliveryStatus, WebhookRepository}
use bianhao.Webhooks.Dispatcher.{
  Dispatcher, Outbox, Tally, counted, deliver, deliver_all, failed, outcome, posting, process_due,
}
use bianhao.Webhooks.Delivery.{Answered, outcome-Answered}

abbrev pub stored_in : Outbox → Map WebhookDelivery
stored_in s = WebhookRepository.by_id s.deliveries

-- A status from 200 to 299.
abbrev pub succeeds : Result ℕ → Bool
succeeds (ok code) = leb 200 code && ltb code 300
succeeds (err e) = false

module _ (env : Dispatcher) where
  -- What the endpoint answers to a delivery that is tried at a tick.
  abbrev pub answer_at : ℕ → WebhookDelivery → Result ℕ
  answer_at t d = env.post (suc t) (posting env d (env.now t))

  -- How it ends: delivered on success; else dead with the last attempt, and to be tried again before.
  abbrev pub fate : ℕ → WebhookDelivery → DeliveryStatus
  fate t d =
      if succeeds (answer_at t d)
      then DeliveryStatus.delivered
      else if leb env.max_attempts (d.attempts + 1)
      then DeliveryStatus.dead
      else DeliveryStatus.pending

  -- How many of the deliveries end so, tried one after the other at two ticks each.
  unfoldable pub fates : DeliveryStatus → ℕ → List WebhookDelivery → ℕ
  fates status t [] = 0
  fates status t (d ∷ ds) =
      (if delivery_status_eq (fate t d) status then 1 else 0) + fates status (suc (suc t)) ds

  -- Every delivery is stored as it was answered.
  abbrev pub Tried : ℕ → List WebhookDelivery → Outbox → Type 0
  Tried t [] after = Unit
  Tried t (d ∷ ds) after =
      ((r : WebhookDelivery) × (get d.id (stored_in after) ≡ some r)
        × Answered env d (env.now t) (answer_at t d) r
        × (r.status ≡ fate t d))
      × Tried (suc (suc t)) ds after

  -- The tally of a run is the number of each end.
  abbrev pub Counts : Tally → ℕ → List WebhookDelivery → Type 0
  Counts c t ds =
      (c.delivered ≡ fates DeliveryStatus.delivered t ds)
      × (c.retried ≡ fates DeliveryStatus.pending t ds)
      × (c.dead ≡ fates DeliveryStatus.dead t ds)

  abbrev tried : WebhookDelivery → Outbox → WebhookDelivery
  tried d s = outcome env d (env.now s.tick) (answer_at s.tick d)

  abbrev next : WebhookDelivery → Outbox → Outbox
  next d s = record {
    deliveries = record (s.deliveries) { by_id = set d.id (tried d s) (stored_in s) };
    tick = suc (suc s.tick);
  }

  outcome_status :
      (d : WebhookDelivery) (now : ℕ) (a : Result ℕ)
      → (outcome env d now a).status ≡ (
          if succeeds a
          then DeliveryStatus.delivered
          else if leb env.max_attempts (d.attempts + 1)
          then DeliveryStatus.dead
          else DeliveryStatus.pending)
  unfolding outcome failed
  outcome_status d now (ok code) = ground arith
  outcome_status d now (err e) = ground arith

  deliver_at :
      (d : WebhookDelivery) (s : Outbox)
      → has d.id (stored_in s) ≡ true
      → deliver env d s ≡ (ok (tried d s), next d s)
  unfolding deliver Store.update
  deliver_at d s known =
      let a = outcome-Answered env d (env.now s.tick) (answer_at s.tick d) in ground (arith, a.0)

  deliver_all_step :
      (d : WebhookDelivery) (ds : List WebhookDelivery) (c : Tally) (s : Outbox)
      → has d.id (stored_in s) ≡ true
      → deliver_all env (d ∷ ds) c s ≡ deliver_all env ds (counted (tried d s).status c) (next d s)
  unfolding deliver_all
  deliver_all_step d ds c s known =
      let status = (tried d s).status in
      rw (deliver_at d s known, deliver_all)
        (ap (λ r. deliver_all env ds (counted status c) r.1) (deliver_at d s known))

  -- What a run over a list of stored deliveries does.
  abbrev Run : List WebhookDelivery → Tally → Outbox → Result Tally × Outbox → Type 0
  Run ds c s result =
      ((c' : Tally) × (result.0 ≡ ok c')
        × (c'.delivered ≡ c.delivered + fates DeliveryStatus.delivered s.tick ds)
        × (c'.retried ≡ c.retried + fates DeliveryStatus.pending s.tick ds)
        × (c'.dead ≡ c.dead + fates DeliveryStatus.dead s.tick ds))
      × Tried s.tick ds result.1
      × ((id : String)
          → All (λ d. d.id ≢ id) ds
          → get id (stored_in result.1) ≡ get id (stored_in s))

  Known : List WebhookDelivery → Outbox → Type 0
  Known ds s = All (λ d. has d.id (stored_in s) ≡ true) ds

  Known-next :
      (d : WebhookDelivery) (ds : List WebhookDelivery) (s : Outbox)
      → All (λ w. w.id ≢ d.id) ds
      → Known ds s
      → Known ds (next d s)
  unfolding Known
  Known-next d [] s other h = tt
  Known-next d (w ∷ ds) s other h = (
    ap is_some (get-set_ne d.id w.id (tried d s) (stored_in s) (λ e. other.0 (sym e))) ∙ h.0,
    Known-next d ds s other.1 h.1,
  )

  -- The counts of a run after one delivery more.
  counted_one :
      (status : DeliveryStatus) (c : Tally)
      → ((counted status c).delivered
          ≡ c.delivered + (if delivery_status_eq status DeliveryStatus.delivered then 1 else 0))
        × ((counted status c).retried
            ≡ c.retried + (if delivery_status_eq status DeliveryStatus.pending then 1 else 0))
        × ((counted status c).dead
            ≡ c.dead + (if delivery_status_eq status DeliveryStatus.dead then 1 else 0))
  counted_one DeliveryStatus.delivered c = (omega arith, omega arith, omega arith)
  counted_one DeliveryStatus.pending c = (omega arith, omega arith, omega arith)
  counted_one DeliveryStatus.dead c = (omega arith, omega arith, omega arith)

  status-fate : (d : WebhookDelivery) (s : Outbox) → (tried d s).status ≡ fate s.tick d
  status-fate d s = outcome_status d (env.now s.tick) (answer_at s.tick d)

  deliver_all_runs :
      (ds : List WebhookDelivery) (c : Tally) (s : Outbox)
      → Known ds s
      → AllDistinct (λ d. d.id) ds
      → Run ds c s (deliver_all env ds c s)
  unfolding deliver_all fates Known
  deliver_all_runs [] c s known distinct =
      ((c, refl, omega arith, omega arith, omega arith), tt, λ id other. refl)
  deliver_all_runs (d ∷ ds) c s known distinct =
      let r = tried d s in
      let (tally, later, others) =
        deliver_all_runs ds (counted r.status c) (next d s) (Known-next d ds s distinct.0 known.1)
          distinct.1 in
      let (c', same, delivered, retried, dead) = tally in
      let one = counted_one r.status c in
      let more = λ (kind : DeliveryStatus) (n : ℕ).
        ap (λ status. n + (if delivery_status_eq status kind then 1 else 0)) (status-fate d s) in
      let first = one.0 ∙ more DeliveryStatus.delivered c.delivered in
      let second = one.1 ∙ more DeliveryStatus.pending c.retried in
      let third = one.2 ∙ more DeliveryStatus.dead c.dead in
      subst (Run (d ∷ ds) c s) (sym (deliver_all_step d ds c s known.0)) (
        (
          c',
          same,
          omega (arith, delivered, first),
          omega (arith, retried, second),
          omega (arith, dead, third),
        ),
        (
          (
            r,
            others d.id distinct.0 ∙ get-set_self d.id r (stored_in s),
            outcome-Answered env d (env.now s.tick) (answer_at s.tick d),
            status-fate d s,
          ),
          later,
        ),
        λ id apart. others id apart.1 ∙ get-set_ne d.id id r (stored_in s) apart.0,
      )

  Known-Found :
      (ds : List WebhookDelivery) (s : Outbox)
      → All (Found (λ d. d.id) (stored_in s)) ds
      → Known ds s
  unfolding Known
  Known-Found [] s h = tt
  Known-Found (d ∷ ds) s h = (ap is_some h.0, Known-Found ds s h.1)

  -- Every delivery ends in one of the three ways.
  fates_total :
      (t : ℕ) (ds : List WebhookDelivery)
      → fates DeliveryStatus.delivered t ds
          + fates DeliveryStatus.pending t ds
          + fates DeliveryStatus.dead t ds
        ≡ length ds
  unfolding fates
  fates_total t [] = omega arith
  fates_total t (d ∷ ds) = omega (arith, one_end (fate t d), fates_total (suc (suc t)) ds)
    where
      one_end :
          (status : DeliveryStatus)
          → (if delivery_status_eq status DeliveryStatus.delivered then 1 else 0)
              + (if delivery_status_eq status DeliveryStatus.pending then 1 else 0)
              + (if delivery_status_eq status DeliveryStatus.dead then 1 else 0)
            ≡ 1
      one_end DeliveryStatus.delivered = refl
      one_end DeliveryStatus.pending = refl
      one_end DeliveryStatus.dead = refl

  length-take_le : (n : ℕ) (ds : List WebhookDelivery) → length (take n ds) ≤ n
  length-take_le zero ds = omega arith
  length-take_le (suc n) [] = omega arith
  length-take_le (suc n) (d ∷ ds) = omega (arith, length-take_le n ds)

  -- The deliveries that are due, with no id twice and each in the store.
  due_fit :
      (now limit : ℕ) (r : WebhookRepository)
      → IsKeyed (λ d. d.id) (WebhookRepository.by_id r)
      → AllDistinct (λ d. d.id) (Store.find_due now limit r)
        × All (Found (λ d. d.id) (WebhookRepository.by_id r)) (Store.find_due now limit r)
        × (length (Store.find_due now limit r) ≤ limit)
  unfolding Store.find_due
  due_fit now limit r keyed =
      let m = WebhookRepository.by_id r in
      let test : WebhookDelivery → Bool =
        λ d. delivery_status_eq d.status DeliveryStatus.pending && leb d.next_attempt_at now in
      let earlier : WebhookDelivery → WebhookDelivery → Bool =
        λ a b. leb a.next_attempt_at b.next_attempt_at in
      let kept = filter test (values m) in
      (
        take-AllDistinct (λ d. d.id) limit (sort_by earlier kept)
            (sort_by-AllDistinct (λ d. d.id) earlier kept
              (filter-AllDistinct (λ d. d.id) test (values m)
                (values-AllDistinct (λ d. d.id) m keyed))),
        All-take (Found (λ d. d.id) m) limit (sort_by earlier kept) (
            sort_by-All (Found (λ d. d.id) m) earlier kept (
              All-filter (Found (λ d. d.id) m) test (values m) (values-Found (λ d. d.id) m keyed))),
        length-take_le limit (sort_by earlier kept),
      )

  -- Where the store holds every delivery under its id, processing what is due, of which there is at
  -- most `limit`, never fails. Every due delivery is tried once and stored as it was answered, and the
  -- three counts are how many were delivered, are to be tried again, and are dead, together as many as
  -- were due; no other delivery is changed.
  pub process_due-Tried :
      (limit : ℕ) (s : Outbox)
      → IsKeyed (λ d. d.id) (stored_in s)
      → let due = Store.find_due (env.now s.tick) limit s.deliveries in
        let result = process_due env limit s in
        ((c : Tally) × (result.0 ≡ ok c)
          × Counts c (suc s.tick) due
          × (c.delivered + c.retried + c.dead ≡ length due))
        × Tried (suc s.tick) due result.1
        × ((id : String)
            → All (λ d. d.id ≢ id) due
            → get id (stored_in result.1) ≡ get id (stored_in s))
        × (length due ≤ limit)
  unfolding process_due Known
  process_due-Tried limit s keyed =
      let due = Store.find_due (env.now s.tick) limit s.deliveries in
      let (distinct, found, few) = due_fit (env.now s.tick) limit s.deliveries keyed in
      let (tally, later, others) =
        deliver_all_runs due (record { delivered = 0; retried = 0; dead = 0 })
          (record s { tick = suc s.tick }) (Known-Found due s found) distinct in
      let (c, same, delivered, retried, dead) = tally in
      (
        (
          c,
          same,
          (omega (arith, delivered), omega (arith, retried), omega (arith, dead)),
          omega (arith, delivered, retried, dead, fates_total (suc s.tick) due),
        ),
        later,
        others,
        few,
      )
