-- ===== src/Expiry.antt =====
-- services/expiryService.ts: reminders before a subscription expires, and its end.
use bianhao.Base.{
  ℕ, suc, ◌+◌, Bool, true, false, ◌&&◌, String, Option, none, some, List, [], ◌∷◌, ◌++◌, ltb, leb,
  if◌then◌else◌,
}
use bianhao.Domain.{Subscription}
use bianhao.Storage.Subscriptions.{SubscriptionRepository, list_active, update}
pub mod Reminding
pub mod Ending

pub data NotificationType : Type 0 where
  subscription_expiring subscription_expired : NotificationType

pub record NotificationEvent : Type 0 where
  pub type : NotificationType
  pub user_id : String
  pub subscription_id : String
  pub plan_id : String
  pub expires_at : ℕ
  pub at : ℕ

-- What the service is constructed with, besides the store. The notifier is asked at a tick, and
-- answers false where it throws.
pub record ExpiryDeps : Type 0 where
  pub reminder_window_ms : ℕ
  pub now : ℕ → ℕ
  pub notify : ℕ → NotificationEvent → Bool

-- The store, the notifications that went out, and the count of readings of the outside world.
pub record Desk : Type 0 where
  pub subscriptions : SubscriptionRepository
  pub notices : List NotificationEvent
  pub tick : ℕ

unfoldable pub notice_of : NotificationType → ℕ → Subscription → NotificationEvent
notice_of type now s = record {
  type = type;
  user_id = s.user_id;
  subscription_id = s.id;
  plan_id = s.plan_id;
  expires_at = s.expires_at;
  at = now;
}

-- `subscriptions.update` on the desk
unfoldable pub store : Subscription → Desk → Desk
unfolding update
store s desk = record desk { subscriptions = update s (Desk.subscriptions desk) }

-- `notifier.notify`: whether it went out, and the desk afterwards.
unfoldable pub notified : ExpiryDeps → NotificationEvent → Desk → Bool × Desk
notified deps event desk =
    let asked = record desk { tick = suc (Desk.tick desk) } in
    if ExpiryDeps.notify deps (Desk.tick desk) event
    then (true, record asked { notices = Desk.notices asked ++ event ∷ [] })
    else (false, asked)

-- `expiryNotifiedAt === undefined`
abbrev pub not_notified : Option ℕ → Bool
not_notified none = true
not_notified (some at) = false

unfoldable pub due_for_reminder : ℕ → ℕ → Subscription → Bool
due_for_reminder now window_end s =
    ltb now s.expires_at && leb s.expires_at window_end && not_notified s.expiry_notified_at

unfoldable pub reminded : ℕ → Subscription → Subscription
reminded now s = record s { expiry_notified_at = some now }

-- The loop over the active subscriptions, with the count so far; none where the notifier throws,
-- which leaves the loop.
unfoldable pub remind_all : ExpiryDeps → ℕ → ℕ → List Subscription → ℕ → Desk → Option ℕ × Desk
unfolding due_for_reminder notified store reminded notice_of
remind_all deps now window_end [] sent desk = (some sent, desk)
remind_all deps now window_end (s ∷ subs) sent desk =
    let skipped = remind_all deps now window_end subs sent desk in
    let (out, asked) =
      notified deps (notice_of NotificationType.subscription_expiring now s) desk in
    let after = remind_all deps now window_end subs (suc sent) (store (reminded now s) asked) in
    if due_for_reminder now window_end s then (if out then after else (none, asked)) else skipped

unfoldable pub send_expiry_reminders : ExpiryDeps → Desk → Option ℕ × Desk
unfolding remind_all list_active
send_expiry_reminders deps desk =
    let now = ExpiryDeps.now deps (Desk.tick desk) in
    remind_all deps now (now + ExpiryDeps.reminder_window_ms deps)
      (list_active (Desk.subscriptions desk)) 0 (record desk { tick = suc (Desk.tick desk) })

unfoldable pub ended : ℕ → Subscription → Subscription
ended now s = record s { active = false; updated_at = now }

-- Here the update comes before the notification.
unfoldable pub end_all : ExpiryDeps → ℕ → List Subscription → ℕ → Desk → Option ℕ × Desk
unfolding notified store ended notice_of
end_all deps now [] count desk = (some count, desk)
end_all deps now (s ∷ subs) count desk =
    let skipped = end_all deps now subs count desk in
    let (out, asked) =
      notified deps (notice_of NotificationType.subscription_expired now s)
        (store (ended now s) desk) in
    let after = end_all deps now subs (suc count) asked in
    if ltb now s.expires_at then skipped else if out then after else (none, asked)

unfoldable pub deactivate_expired : ExpiryDeps → Desk → Option ℕ × Desk
unfolding end_all list_active
deactivate_expired deps desk =
    end_all deps (ExpiryDeps.now deps (Desk.tick desk)) (list_active (Desk.subscriptions desk)) 0
      (record desk { tick = suc (Desk.tick desk) })
