-- ===== src/Expiry/Ending.antt =====
-- Which subscriptions `deactivateExpired` ends (services/expiryService.ts).
use bianhao.Base.{
  ℕ, suc, ◌≤◌, ◌≡◌, refl, ap, ◌∙◌, sym, subst, ◌⊎◌, inl, inr, Bool, true, false, String, none, some,
  List, [], ◌∷◌, All, values, get, set, get-set, get-set_self, str_eq, str_eq_iff, Map, IsKeyed,
  Found, filter-All_passing, values-Found, ltb, if◌then◌else◌, arith, Bool-cases, some_inj,
}
use bianhao.Domain.{Subscription}
use bianhao.Storage.Subscriptions.{SubscriptionRepository, list_active, update}
use bianhao.Expiry.{
  Desk, ExpiryDeps, NotificationType, deactivate_expired, end_all, ended, notice_of, notified,
  store,
}

abbrev pub stored : Desk → Map Subscription
stored desk = SubscriptionRepository.by_id (Desk.subscriptions desk)

-- The subscription, no longer active.
abbrev pub inactive : ℕ → Subscription → Subscription
inactive now s = record s { active = false; updated_at = now }

-- At a key the store is as before, or holds the end of an active subscription that is past its
-- expiry: the same, but inactive.
abbrev pub Ended : ℕ → Map Subscription → Map Subscription → String → Type 0
Ended now before after id =
    (get id after ≡ get id before)
    ⊎ ((s : Subscription) × (get id before ≡ some s)
        × (s.active ≡ true)
        × (s.expires_at ≤ now)
        × (get id after ≡ some (inactive now s)))

-- A listed subscription: active and under its id.
abbrev pub Listed : Map Subscription → Subscription → Type 0
Listed m s = (get s.id m ≡ some s) × (s.active ≡ true)

pub list_active-Listed :
    (r : SubscriptionRepository)
    → IsKeyed (λ s. s.id) (SubscriptionRepository.by_id r)
    → All (Listed (SubscriptionRepository.by_id r)) (list_active r)
unfolding list_active
list_active-Listed r keyed =
    filter-All_passing (Found (λ s. s.id) (SubscriptionRepository.by_id r)) (λ s. s.active)
      (values (SubscriptionRepository.by_id r))
      (values-Found (λ s. s.id) (SubscriptionRepository.by_id r) keyed)

pub notified_keeps :
    (deps : ExpiryDeps) (event : _) (desk : Desk)
    → stored ((notified deps event desk).1) ≡ stored desk
unfolding notified
notified_keeps deps event desk = elim (Bool-cases (ExpiryDeps.notify deps (Desk.tick desk) event)) [
  | inl out ↦ rw out refl
  | inr thrown ↦ rw thrown refl
]

module _ (now : ℕ) (before : Map Subscription) where
  store-Ended :
      (s : Subscription) (current : Map Subscription)
      → Listed before s
      → ltb now s.expires_at ≡ false
      → ((id : String) → Ended now before current id)
      → (id : String) → Ended now before (set s.id (inactive now s) current) id
  store-Ended s current listed due kept id =
      let found = get-set s.id id (inactive now s) current in
      elim (Bool-cases (str_eq s.id id)) [
        | inl same ↦
            let here : s.id ≡ id = (str_eq_iff s.id id).0 same in
            inr (
              s,
              ap (λ i. get i before) (sym here) ∙ listed.0,
              listed.1,
              ground (arith, due),
              found ∙ ap (λ b. if b then some (inactive now s) else get id current) same,
            )
        | inr other ↦
            let kept_here =
              found ∙ ap (λ b. if b then some (inactive now s) else get id current) other in
            elim (kept id) [
              | inl e ↦ inl (kept_here ∙ e)
              | inr (t, a, b, c, e) ↦ inr (t, a, b, c, kept_here ∙ e)
            ]
      ]

  -- One turn that finds a subscription past its expiry.
  abbrev turn : ExpiryDeps → Subscription → Desk → Bool × Desk
  turn deps s desk =
      notified deps (notice_of NotificationType.subscription_expired now s)
        (store (ended now s) desk)

  turn_stores :
      (deps : ExpiryDeps) (s : Subscription) (desk : Desk)
      → stored ((turn deps s desk).1) ≡ set s.id (inactive now s) (stored desk)
  unfolding store update ended
  turn_stores deps s desk = notified_keeps deps _ (store (ended now s) desk)

  end_all-Ended :
      (deps : ExpiryDeps) (subs : List Subscription) (count : ℕ) (desk : Desk)
      → All (Listed before) subs
      → ((id : String) → Ended now before (stored desk) id)
      → (id : String) → Ended now before (stored ((end_all deps now subs count desk).1)) id
  unfolding end_all
  end_all-Ended deps [] count desk h kept id = kept id
  end_all-Ended deps (s ∷ subs) count desk h kept id =
      let due_turn : ltb now s.expires_at ≡ false
          → (i : String) → Ended now before (stored ((turn deps s desk).1)) i =
        λ due i.
          subst (λ m. Ended now before m i) (sym (turn_stores deps s desk))
            (store-Ended s (stored desk) h.0 due kept i) in
      elim (Bool-cases (ltb now s.expires_at)) [
        | inl later ↦ rw later (end_all-Ended deps subs count desk h.1 kept id)
        | inr due ↦ elim (Bool-cases ((turn deps s desk).0)) [
          | inl out ↦
              rw (due, out)
                (end_all-Ended deps subs (suc count) ((turn deps s desk).1) h.1 (due_turn due) id)
          | inr thrown ↦ rw (due, thrown) (due_turn due id)
        ]
      ]

  -- A subscription that has ended stays so.
  store_again :
      (s t : Subscription) (current : Map Subscription)
      → Listed before s
      → Listed before t
      → get s.id current ≡ some (inactive now s)
      → get s.id (set t.id (inactive now t) current) ≡ some (inactive now s)
  store_again s t current hs ht done =
      let found = get-set t.id s.id (inactive now t) current in
      elim (Bool-cases (str_eq t.id s.id)) [
        | inl one ↦
            let here : t.id ≡ s.id = (str_eq_iff t.id s.id).0 one in
            let same : t ≡ s = some_inj (sym ht.0 ∙ ap (λ i. get i before) here ∙ hs.0) in
            found
            ∙ ap (λ b. if b then some (inactive now t) else get s.id current) one
            ∙ ap (λ x. some (inactive now x)) same
        | inr other ↦
            found ∙ ap (λ b. if b then some (inactive now t) else get s.id current) other ∙ done
      ]

  end_all_keeps :
      (deps : ExpiryDeps) (subs : List Subscription) (count : ℕ) (desk : Desk) (s : Subscription)
      → Listed before s
      → All (Listed before) subs
      → get s.id (stored desk) ≡ some (inactive now s)
      → get s.id (stored ((end_all deps now subs count desk).1)) ≡ some (inactive now s)
  unfolding end_all
  end_all_keeps deps [] count desk s hs h done = done
  end_all_keeps deps (t ∷ subs) count desk s hs h done =
      let next =
        ap (get s.id) (turn_stores deps t desk) ∙ store_again s t (stored desk) hs h.0 done in
      elim (Bool-cases (ltb now t.expires_at)) [
        | inl later ↦ rw later (end_all_keeps deps subs count desk s hs h.1 done)
        | inr due ↦ elim (Bool-cases ((turn deps t desk).0)) [
          | inl out ↦
              rw (due, out)
                (end_all_keeps deps subs (suc count) ((turn deps t desk).1) s hs h.1 next)
          | inr thrown ↦ rw (due, thrown) next
        ]
      ]

  module _ (deps : ExpiryDeps) (s : Subscription) (subs : List Subscription) (count : ℕ)
      (desk : Desk) where
    end_all_later :
        ltb now s.expires_at ≡ true
        → end_all deps now (s ∷ subs) count desk ≡ end_all deps now subs count desk
    unfolding end_all
    end_all_later later = rw later refl

    end_all_out :
        ltb now s.expires_at ≡ false
        → (turn deps s desk).0 ≡ true
        → end_all deps now (s ∷ subs) count desk
          ≡ end_all deps now subs (suc count) ((turn deps s desk).1)
    unfolding end_all
    end_all_out due out = rw (due, out) refl

    end_all_thrown :
        ltb now s.expires_at ≡ false
        → (turn deps s desk).0 ≡ false
        → end_all deps now (s ∷ subs) count desk ≡ (none, (turn deps s desk).1)
    unfolding end_all
    end_all_thrown due thrown = rw (due, thrown) refl

  clash : true ≡ false → ⊥
  clash h = cc

  nothing : {n : ℕ} → none ≡ some n → ⊥
  nothing h = cc

  abbrev pub Over : Map Subscription → Subscription → Type 0
  Over after s = ltb now s.expires_at ≡ false → get s.id after ≡ some (inactive now s)

  end_all-Over :
      (deps : ExpiryDeps) (subs : List Subscription) (count n : ℕ) (desk : Desk)
      → All (Listed before) subs
      → (end_all deps now subs count desk).0 ≡ some n
      → All (Over (stored ((end_all deps now subs count desk).1))) subs
  unfolding end_all
  end_all-Over deps [] count n desk h e = tt
  end_all-Over deps (s ∷ subs) count n desk h e = elim (Bool-cases (ltb now s.expires_at)) [
    | inl later ↦
        let same = end_all_later deps s subs count desk later in
        subst (λ r. All (Over (stored r.1)) (s ∷ subs)) (sym same)
          (
            (λ due. absurd (clash (sym later ∙ due))),
            end_all-Over deps subs count n desk h.1 (sym (ap (λ r. r.0) same) ∙ e),
          )
    | inr due ↦ elim (Bool-cases ((turn deps s desk).0)) [
      | inl went ↦
          let same = end_all_out deps s subs count desk due went in
          subst (λ r. All (Over (stored r.1)) (s ∷ subs)) (sym same)
            (
              (λ again. end_all_keeps deps subs (suc count) ((turn deps s desk).1) s h.0 h.1 (
                  ap (get s.id) (turn_stores deps s desk)
                  ∙ get-set_self s.id (inactive now s) (stored desk))),
              end_all-Over deps subs (suc count) n ((turn deps s desk).1) h.1
                  (sym (ap (λ r. r.0) same) ∙ e),
            )
      | inr thrown ↦
          let same = end_all_thrown deps s subs count desk due thrown in
          absurd (nothing (sym (ap (λ r. r.0) same) ∙ e))
    ]
  ]

-- A pass leaves every stored subscription as it was, but for active ones past their expiry, which it
-- may make inactive; and where no notification throws, it has made each of these inactive.
pub deactivate_expired-Ends :
    (deps : ExpiryDeps) (desk : Desk)
    → IsKeyed (λ s. s.id) (stored desk)
    → ((id : String)
        → Ended
            (ExpiryDeps.now deps (Desk.tick desk))
            (stored desk)
            (stored ((deactivate_expired deps desk).1))
            id)
      × ((n : ℕ)
          → (deactivate_expired deps desk).0 ≡ some n
          → All
              (Over
                (ExpiryDeps.now deps (Desk.tick desk))
                (stored desk)
                (stored ((deactivate_expired deps desk).1)))
              (list_active (Desk.subscriptions desk)))
unfolding deactivate_expired
deactivate_expired-Ends deps desk keyed =
    let now = ExpiryDeps.now deps (Desk.tick desk) in
    let listed = list_active-Listed (Desk.subscriptions desk) keyed in
    let subs = list_active (Desk.subscriptions desk) in
    (
      end_all-Ended now (stored desk) deps subs 0 (record desk { tick = suc (Desk.tick desk) })
          listed (λ id. inl refl),
      λ n e.
          end_all-Over now (stored desk) deps subs 0 n (record desk { tick = suc (Desk.tick desk) })
            listed e,
    )
