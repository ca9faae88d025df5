-- ===== src/Storage/Sweeps.antt =====
-- storage/memoryStore.ts: MemorySweepJobRepository.
use bianhao.Base.{
  ℕ, Bool, not, ◌&&◌, String, Option, none, some, List, filter, take, leb, if◌then◌else◌, truthy,
  Map, get, set, has, values, sort_by,
}
use bianhao.Domain.{SweepJob, is_sweep_terminal, Error, Result, ok, err}

pub record SweepJobRepository : Type 0 where
  pub by_id : Map SweepJob
  pub by_order_id : Map String

unfoldable pub create : SweepJob → SweepJobRepository → Result SweepJobRepository
create j r =
    if has j.order_id r.by_order_id
    then err Error.failure
    else ok (record { by_id = set j.id j r.by_id; by_order_id = set j.order_id j.id r.by_order_id })

unfoldable pub find_by_id : String → SweepJobRepository → Option SweepJob
find_by_id id r = get id r.by_id

find_at : Option String → SweepJobRepository → Option SweepJob
unfolding find_by_id
find_at none r = none
find_at (some id) r = find_by_id id r

unfoldable pub find_by_order_id : String → SweepJobRepository → Option SweepJob
unfolding find_at
find_by_order_id order_id r = find_at (truthy (get order_id r.by_order_id)) r

unfoldable pub update : SweepJob → SweepJobRepository → Result SweepJobRepository
update j r =
    if has j.id r.by_id then ok (record r { by_id = set j.id j r.by_id }) else err Error.failure

abbrev pub is_due : ℕ → SweepJob → Bool
is_due now j = not (is_sweep_terminal j.status) && leb j.next_attempt_at now

unfoldable pub due : ℕ → ℕ → SweepJobRepository → List SweepJob
due now limit r = take limit (
    sort_by (λ (a b : SweepJob). leb a.created_at b.created_at)
      (filter (is_due now) (values r.by_id)))

unfoldable pub all : SweepJobRepository → List SweepJob
all r = values r.by_id
