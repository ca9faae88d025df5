-- ===== src/Expiry/Reminding.antt =====
-- Reminders (services/expiryService.ts): at most one for each subscription, until the mark is cleared
-- by a renewal.
use bianhao.Base.{
  ℕ, suc, ◌+◌, ◌≡◌, ◌≢◌, refl, ap, ◌∙◌, sym, subst, inl, inr, Bool, true, false, String, none, some,
  some_inj, List, [], ◌∷◌, ◌++◌, All, All-append, All-filter, filter, values, get, set,
  get-set_self, get-set_ne, Map, IsKeyed, Found, AllDistinct, filter-AllDistinct, set-IsKeyed,
  values-AllDistinct, values-Found, arith, Bool-cases,
}
use bianhao.Domain.{Subscription}
use bianhao.Storage.Subscriptions.{list_active, update}
use bianhao.Expiry.{
  Desk, ExpiryDeps, NotificationEvent, NotificationType, due_for_reminder, not_notified, notice_of,
  notified, remind_all, reminded, send_expiry_reminders, store,
}
use bianhao.Expiry.Ending.{notified_keeps, stored}

-- The subscriptions that reminders have gone out for.
abbrev pub and_then : NotificationType → String → List String → List String
and_then NotificationType.subscription_expiring id ids = id ∷ ids
and_then NotificationType.subscription_expired id ids = ids

unfoldable pub reminded_ids : List NotificationEvent → List String
reminded_ids [] = []
reminded_ids (n ∷ ns) =
    and_then (NotificationEvent.type n) (NotificationEvent.subscription_id n) (reminded_ids ns)

abbrev pub NoRepeat : List String → Type 0
NoRepeat [] = Unit
NoRepeat (id ∷ ids) = All (λ other. other ≢ id) ids × NoRepeat ids

-- The stored subscription is marked as reminded.
abbrev pub Marked : Map Subscription → String → Type 0
Marked m id = (s : Subscription) × (get id m ≡ some s) × (not_notified s.expiry_notified_at ≡ false)

-- No subscription has been reminded twice, and all that were are marked.
abbrev OnceIn : Map Subscription → List String → Type 0
OnceIn m ids = IsKeyed (λ s. s.id) m × NoRepeat ids × All (Marked m) ids

abbrev pub Once : Desk → Type 0
Once desk = OnceIn (stored desk) (reminded_ids (Desk.notices desk))

NoRepeat-append :
    (ids : List String) (x : String)
    → NoRepeat ids
    → All (λ id. id ≢ x) ids
    → NoRepeat (ids ++ x ∷ [])
NoRepeat-append [] x h k = (tt, tt)
NoRepeat-append (id ∷ ids) x h k = (
  All-append (λ other. other ≢ id) ids (x ∷ []) h.0 ((λ e. k.0 (sym e)), tt),
  NoRepeat-append ids x h.1 k.1,
)

and_then-append :
    (t : NotificationType) (id : String) (ids : List String) (x : String)
    → and_then t id (ids ++ x ∷ []) ≡ and_then t id ids ++ x ∷ []
and_then-append NotificationType.subscription_expiring id ids x = refl
and_then-append NotificationType.subscription_expired id ids x = refl

reminded_ids-append :
    (notices : List NotificationEvent) (now : ℕ) (s : Subscription)
    → reminded_ids (notices ++ notice_of NotificationType.subscription_expiring now s ∷ [])
      ≡ reminded_ids notices ++ s.id ∷ []
unfolding reminded_ids notice_of
reminded_ids-append [] now s = refl
reminded_ids-append (n ∷ ns) now s =
    ap (and_then (NotificationEvent.type n) (NotificationEvent.subscription_id n))
      (reminded_ids-append ns now s)
    ∙ and_then-append (NotificationEvent.type n) (NotificationEvent.subscription_id n)
        (reminded_ids ns) s.id

module _ (now : ℕ) (s : Subscription) (m : Map Subscription)
    (unmarked : not_notified s.expiry_notified_at ≡ true) (found : get s.id m ≡ some s) where
  unlike : (id : String) → Marked m id → id ≢ s.id
  unlike id (t, e, marked) same =
      let one : s ≡ t = some_inj (sym found ∙ ap (λ i. get i m) (sym same) ∙ e) in
      clash (ap (λ x. not_notified x.expiry_notified_at) (sym one) ∙ unmarked) marked
    where
      clash : {b : Bool} → b ≡ true → b ≡ false → ⊥
      clash p q = cc

  others : (ids : List String) → All (Marked m) ids → All (λ id. id ≢ s.id) ids
  others [] h = tt
  others (id ∷ ids) h = (unlike id h.0, others ids h.1)

  still_one : (id : String) → Marked m id → Marked (set s.id (reminded now s) m) id
  still_one id (t, e, marked) =
      let other : s.id ≢ id = λ same. unlike id (t, e, marked) (sym same) in
      (t, get-set_ne s.id id (reminded now s) m other ∙ e, marked)

  still-Marked :
      (ids : List String) → All (Marked m) ids → All (Marked (set s.id (reminded now s) m)) ids
  unfolding reminded
  still-Marked [] h = tt
  still-Marked (id ∷ ids) h = (still_one id h.0, still-Marked ids h.1)

  marked-Once :
      (ids : List String) → OnceIn m ids → OnceIn (set s.id (reminded now s) m) (ids ++ s.id ∷ [])
  unfolding reminded
  marked-Once ids (keyed, repeats, marks) = (
    set-IsKeyed (λ t. t.id) (reminded now s) m keyed,
    NoRepeat-append ids s.id repeats (others ids marks),
    All-append (Marked (set s.id (reminded now s) m)) ids (s.id ∷ []) (still-Marked ids marks)
        ((reminded now s, get-set_self s.id (reminded now s) m, refl), tt),
  )

  rest-Found :
      (subs : List Subscription)
      → All (λ t. t.id ≢ s.id) subs
      → All (Found (λ t. t.id) m) subs
      → All (Found (λ t. t.id) (set s.id (reminded now s) m)) subs
  rest-Found [] h k = tt
  rest-Found (t ∷ subs) h k =
      (get-set_ne s.id t.id (reminded now s) m (λ e. h.0 (sym e)) ∙ k.0, rest-Found subs h.1 k.1)

-- One reminder: where it goes out, the subscription is marked, and the rest are still to be reminded.
module _ (deps : ExpiryDeps) (now window_end : ℕ) where
  abbrev event : Subscription → NotificationEvent
  event s = notice_of NotificationType.subscription_expiring now s

  notified_asks :
      (e : NotificationEvent) (desk : Desk)
      → (notified deps e desk).0 ≡ ExpiryDeps.notify deps (Desk.tick desk) e
  unfolding notified
  notified_asks e desk = elim (Bool-cases (ExpiryDeps.notify deps (Desk.tick desk) e)) [
    | inl out ↦ rw out refl
    | inr thrown ↦ rw thrown refl
  ]

  notices_out :
      (e : NotificationEvent) (desk : Desk)
      → ExpiryDeps.notify deps (Desk.tick desk) e ≡ true
      → Desk.notices ((notified deps e desk).1) ≡ Desk.notices desk ++ e ∷ []
  unfolding notified
  notices_out e desk out = rw out refl

  notices_thrown :
      (e : NotificationEvent) (desk : Desk)
      → ExpiryDeps.notify deps (Desk.tick desk) e ≡ false
      → Desk.notices ((notified deps e desk).1) ≡ Desk.notices desk
  unfolding notified
  notices_thrown e desk thrown = rw thrown refl

  abbrev asked : Subscription → Desk → Desk
  asked s desk = (notified deps (event s) desk).1

  unsent-Once :
      (s : Subscription) (desk : Desk)
      → Once desk
      → (notified deps (event s) desk).0 ≡ false
      → Once (asked s desk)
  unsent-Once s desk once thrown =
      subst (λ m. OnceIn m (reminded_ids (Desk.notices (asked s desk))))
        (sym (notified_keeps deps (event s) desk))
        (subst (λ notices. OnceIn (stored desk) (reminded_ids notices))
          (sym (notices_thrown (event s) desk (sym (notified_asks (event s) desk) ∙ thrown))) once)

  stored-store :
      (s : Subscription) (desk : Desk)
      → stored (store (reminded now s) desk) ≡ set s.id (reminded now s) (stored desk)
  unfolding store update reminded
  stored-store s desk = refl

  notices-store : (s : Subscription) (desk : Desk) → Desk.notices (store s desk) ≡ Desk.notices desk
  unfolding store
  notices-store s desk = refl

  stored_sent :
      (s : Subscription) (desk : Desk)
      → stored (store (reminded now s) (asked s desk)) ≡ set s.id (reminded now s) (stored desk)
  stored_sent s desk =
      stored-store s (asked s desk)
      ∙ ap (set s.id (reminded now s)) (notified_keeps deps (event s) desk)

  sent_ids :
      (s : Subscription) (desk : Desk)
      → (notified deps (event s) desk).0 ≡ true
      → reminded_ids (Desk.notices (store (reminded now s) (asked s desk)))
        ≡ reminded_ids (Desk.notices desk) ++ s.id ∷ []
  sent_ids s desk out =
      ap reminded_ids (
        notices-store (reminded now s) (asked s desk)
        ∙ notices_out (event s) desk (sym (notified_asks (event s) desk) ∙ out))
      ∙ reminded_ids-append (Desk.notices desk) now s

  sent-Once :
      (s : Subscription) (desk : Desk)
      → Once desk
      → get s.id (stored desk) ≡ some s
      → not_notified s.expiry_notified_at ≡ true
      → (notified deps (event s) desk).0 ≡ true
      → Once (store (reminded now s) (asked s desk))
  sent-Once s desk once found unmarked out =
      subst (λ m. OnceIn m (reminded_ids (Desk.notices (store (reminded now s) (asked s desk)))))
        (sym (stored_sent s desk))
        (subst (OnceIn (set s.id (reminded now s) (stored desk))) (sym (sent_ids s desk out))
          (marked-Once now s (stored desk) unmarked found (reminded_ids (Desk.notices desk)) once))

  module _ (s : Subscription) (subs : List Subscription) (sent : ℕ) (desk : Desk) where
    remind_all_skipped :
        due_for_reminder now window_end s ≡ false
        → remind_all deps now window_end (s ∷ subs) sent desk
          ≡ remind_all deps now window_end subs sent desk
    unfolding remind_all
    remind_all_skipped later = rw later refl

    remind_all_out :
        due_for_reminder now window_end s ≡ true
        → (notified deps (event s) desk).0 ≡ true
        → remind_all deps now window_end (s ∷ subs) sent desk
          ≡ remind_all deps now window_end subs (suc sent) (store (reminded now s) (asked s desk))
    unfolding remind_all
    remind_all_out due out = rw (due, out) refl

    remind_all_thrown :
        due_for_reminder now window_end s ≡ true
        → (notified deps (event s) desk).0 ≡ false
        → remind_all deps now window_end (s ∷ subs) sent desk ≡ (none, asked s desk)
    unfolding remind_all
    remind_all_thrown due thrown = rw (due, thrown) refl

  due_unmarked :
      (s : Subscription)
      → due_for_reminder now window_end s ≡ true
      → not_notified s.expiry_notified_at ≡ true
  unfolding due_for_reminder
  due_unmarked s due = ground arith

  remind_all-Once :
      (subs : List Subscription) (sent : ℕ) (desk : Desk)
      → Once desk
      → AllDistinct (λ s. s.id) subs
      → All (Found (λ s. s.id) (stored desk)) subs
      → Once ((remind_all deps now window_end subs sent desk).1)
  unfolding remind_all
  remind_all-Once [] sent desk once distinct found = once
  remind_all-Once (s ∷ subs) sent desk once distinct found =
      elim (Bool-cases (due_for_reminder now window_end s)) [
        | inr later ↦
            subst (λ r. Once r.1) (sym (remind_all_skipped s subs sent desk later))
              (remind_all-Once subs sent desk once distinct.1 found.1)
        | inl due ↦ elim (Bool-cases ((notified deps (event s) desk).0)) [
          | inr thrown ↦
              subst (λ r. Once r.1) (sym (remind_all_thrown s subs sent desk due thrown))
                (unsent-Once s desk once thrown)
          | inl out ↦
              let unmarked = due_unmarked s due in
              let next = store (reminded now s) (asked s desk) in
              subst (λ r. Once r.1) (sym (remind_all_out s subs sent desk due out))
                (remind_all-Once subs (suc sent) next (sent-Once s desk once found.0 unmarked out)
                  distinct.1
                  (subst (λ m. All (Found (λ t. t.id) m) subs) (sym (stored_sent s desk))
                    (rest-Found now s (stored desk) unmarked found.0 subs distinct.0 found.1)))
        ]
      ]

-- A pass of reminders reminds no subscription twice, and none that was reminded before and not renewed
-- since, whether or not the notifier throws.
pub send_expiry_reminders-Once :
    (deps : ExpiryDeps) (desk : Desk) → Once desk → Once ((send_expiry_reminders deps desk).1)
unfolding send_expiry_reminders list_active
send_expiry_reminders-Once deps desk once =
    let m = stored desk in
    remind_all-Once deps (ExpiryDeps.now deps (Desk.tick desk))
      (ExpiryDeps.now deps (Desk.tick desk) + ExpiryDeps.reminder_window_ms deps)
      (filter (λ s. s.active) (values m)) 0 (record desk { tick = suc (Desk.tick desk) }) once
      (filter-AllDistinct (λ s. s.id) (λ s. s.active) (values m)
        (values-AllDistinct (λ s. s.id) m once.0))
      (All-filter (Found (λ s. s.id) m) (λ s. s.active) (values m)
        (values-Found (λ s. s.id) m once.0))
