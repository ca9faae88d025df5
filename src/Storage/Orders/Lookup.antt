-- ===== src/Storage/Orders/Lookup.antt =====
-- What the order repository finds after a write (storage/memoryStore.ts, MemoryOrderRepository).
use bianhao.Base.{◌≡◌, String, none, some, if◌then◌else◌, str_eq, set, get-set, arith}
use bianhao.Domain.{Order, Error, ok, err}
use bianhao.Storage.Orders.{OrderRepository, create, update, find_by_id}

-- Every order is stored under its own id.
abbrev pub Keyed : OrderRepository → Type 0
Keyed r = (i : String) (o : Order) → find_by_id i r ≡ some o → o.id ≡ i

pub update_known :
    (o old : Order) (r : OrderRepository)
    → find_by_id o.id r ≡ some old
    → update o r ≡ ok (record r { by_id = set o.id o r.by_id })
unfolding update find_by_id
update_known o old r h = rw h

pub update_unknown :
    (o : Order) (r : OrderRepository) → find_by_id o.id r ≡ none → update o r ≡ err Error.failure
unfolding update find_by_id
update_unknown o r h = rw h

pub find_by_id-update :
    (o : Order) (j : String) (r r' : OrderRepository)
    → update o r ≡ ok r'
    → find_by_id j r' ≡ (if str_eq o.id j then some o else find_by_id j r)
unfolding update find_by_id
find_by_id-update o j r r' h = ground (arith, get-set o.id j o r.by_id)

pub find_by_id-create :
    (o : Order) (j : String) (r r' : OrderRepository)
    → create o r ≡ ok r'
    → find_by_id j r' ≡ (if str_eq o.id j then some o else find_by_id j r)
unfolding create find_by_id
find_by_id-create o j r r' h = ground (arith, get-set o.id j o r.by_id)
