-- ===== src/Effects/Rules.antt =====
-- How a statement about the world passes through the monad.
use bianhao.Base.{arith, suc, Bool, true, false, ◌≡◌, refl, Option, none, some, String}
use bianhao.Domain.{Error, Result, ok, err}
use bianhao.Storage.Events as EventStore
use bianhao.Storage.Events.{ProcessedEventStore}
use bianhao.Effects.Monad.{World, Env, Action, lift, pure, or_throw, ◌>>=◌, ◌>>◌}
use bianhao.Effects.Stores.{mark_if_new, noted}

module _ {A B : Type 0} (P : World → Type 0) where
  -- A value that may be an error goes on, or ends the action where it stands.
  pub lift_rule :
      (r : Result A) (k : A → Action B) (w : World)
      → P w
      → ((a : A) → r ≡ ok a → P (k a w).1)
      → P ((lift r >>= k) w).1
  lift_rule (ok a) k w stop go = go a refl
  lift_rule (err e) k w stop go = stop

  pub or_throw_rule :
      (r : Option A) (e : Error) (k : A → Action B) (w : World)
      → P w
      → ((a : A) → r ≡ some a → P (k a w).1)
      → P ((or_throw r e >>= k) w).1
  or_throw_rule none e k w stop go = stop
  or_throw_rule (some a) e k w stop go = go a refl

module _ {B : Type 0} (P : World → Type 0) (k : Bool → Action B) where
  noted_rule :
      (w : World) (m : Bool × ProcessedEventStore)
      → P (k false w).1
      → ((events : ProcessedEventStore)
          → P (k true (record w { events = events; tick = suc w.tick })).1)
      → P (((λ v. noted v m) >>= k) w).1
  noted_rule w (true, events) seen new = new events
  noted_rule w (false, events) seen new = seen

  -- After `markIfNew` the action goes on as for a repeated event, or as for a new one.
  pub mark_if_new_rule :
      (env : Env) (event_id : String) (w : World)
      → P (k false w).1
      → ((events : ProcessedEventStore)
          → P (k true (record w { events = events; tick = suc w.tick })).1)
      → P ((mark_if_new env event_id >>= k) w).1
  mark_if_new_rule env event_id w =
      noted_rule w (EventStore.mark_if_new (env.now w.tick) event_id w.events)

-- An answer that is given at the end does not touch the world.
pub then_pure : {A B : Type 0} (m : Action A) (b : B) (w : World) → ((m >> pure b) w).1 ≡ (m w).1
then_pure m b w = ground arith
