-- ===== src/Storage/Deposits.antt =====
-- storage/memoryStore.ts: MemoryDepositAddressRepository.
use bianhao.Base.{ℕ, suc, String, Option, if◌then◌else◌, Map, get, set, has}
use bianhao.Domain.{DepositAddress, Error, Result, ok, err}

pub record DepositAddressRepository : Type 0 where
  pub counter : ℕ
  pub by_order_id : Map DepositAddress
  pub by_address : Map DepositAddress

unfoldable pub next_index : DepositAddressRepository → ℕ × DepositAddressRepository
next_index r = (suc r.counter, record r { counter = suc r.counter })

unfoldable pub save : DepositAddress → DepositAddressRepository → Result DepositAddressRepository
save d r =
    if has d.order_id r.by_order_id
    then err Error.failure
    else if has d.address r.by_address
    then err Error.failure
    else ok (record r {
      by_order_id = set d.order_id d r.by_order_id;
      by_address = set d.address d r.by_address;
    })

unfoldable pub find_by_order_id : String → DepositAddressRepository → Option DepositAddress
find_by_order_id id r = get id r.by_order_id

unfoldable pub find_by_address : String → DepositAddressRepository → Option DepositAddress
find_by_address address r = get address r.by_address
