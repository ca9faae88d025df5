-- ===== src/Storage/Subscriptions.antt =====
-- storage/memoryStore.ts: MemorySubscriptionRepository.
use bianhao.Base.{
  String, Option, none, some, List, filter, if◌then◌else◌, str_eq, truthy, Map, get, set, delete,
  values,
}
use bianhao.Domain.{Subscription}

pub record SubscriptionRepository : Type 0 where
  pub by_id : Map Subscription
  pub active_by_user : Map String

find_at : Option String → SubscriptionRepository → Option Subscription
find_at none r = none
find_at (some id) r = get id r.by_id

unfoldable pub find_active_by_user : String → SubscriptionRepository → Option Subscription
unfolding find_at
find_active_by_user user_id r = find_at (truthy (get user_id r.active_by_user)) r

unfoldable pub create : Subscription → SubscriptionRepository → SubscriptionRepository
create s r = record {
  by_id = set s.id s r.by_id;
  active_by_user = if s.active then set s.user_id s.id r.active_by_user else r.active_by_user;
}

-- `else if (this.activeByUser.get(sub.userId) === sub.id) this.activeByUser.delete(sub.userId)`
retire : Option String → Subscription → Map String → Map String
retire none s m = m
retire (some id) s m = if str_eq id s.id then delete s.user_id m else m

unfoldable pub update : Subscription → SubscriptionRepository → SubscriptionRepository
unfolding retire
update s r = record {
  by_id = set s.id s r.by_id;
  active_by_user =
      if s.active
      then set s.user_id s.id r.active_by_user
      else retire (get s.user_id r.active_by_user) s r.active_by_user;
}

unfoldable pub list_active : SubscriptionRepository → List Subscription
list_active r = filter (λ s. s.active) (values r.by_id)
