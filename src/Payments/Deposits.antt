-- ===== src/Payments/Deposits.antt =====
-- services/addressAllocator.ts, SweepService.enqueue of services/sweepService.ts, and the callback
-- `onUsdtSettled` that container.ts builds from it.
use bianhao.Base.{ℕ, ◌+◌, String, Option, none, some, truthy}
use bianhao.Domain.{Order, DepositAddress, SweepJob, SweepStatus, Result}
use bianhao.Storage.Deposits as DepositStore
use bianhao.Storage.Sweeps as SweepStore
use bianhao.Effects.{Env, Action, pure, gets, read, ask, ◌>>=◌}
use bianhao.Effects.Stores.{next_index, save_deposit, insert_sweep}

module _ (env : Env) where
  derive_and_save : (ℕ → ℕ → Result String) → String → Action DepositAddress
  derive_and_save derive order_id = do
    raw ← next_index
    let index = env.hd_start_index + raw
    address ← ask (λ t. derive t index)
    now ← read env.now
    save_deposit
        (record { index = index; address = address; order_id = order_id; created_at = now })

  reuse_or_derive : (ℕ → ℕ → Result String) → String → Option DepositAddress → Action DepositAddress
  unfolding derive_and_save
  reuse_or_derive derive order_id none = derive_and_save derive order_id
  reuse_or_derive derive order_id (some d) = pure d

  -- `AddressAllocator.allocate`; `derive` is the wallet's `deriveDepositAddress`.
  unfoldable pub allocate : (ℕ → ℕ → Result String) → String → Action DepositAddress
  unfolding reuse_or_derive
  allocate derive order_id = do
    existing ← gets (λ w. DepositStore.find_by_order_id order_id w.deposits)
    reuse_or_derive derive order_id existing

  new_sweep : String → ℕ → String → Action SweepJob
  new_sweep order_id index address = do
    now ← read env.now
    id ← read env.uuid
    insert_sweep (record {
      id = id;
      order_id = order_id;
      deposit_index = index;
      deposit_address = address;
      collection_address = env.collection_address;
      amount_micro = 0;
      status = SweepStatus.pending;
      gas_tx_id = none;
      sweep_tx_id = none;
      attempts = 0;
      last_error = none;
      created_at = now;
      updated_at = now;
      next_attempt_at = now;
    })

  reuse_or_queue : String → ℕ → String → Option SweepJob → Action SweepJob
  unfolding new_sweep
  reuse_or_queue order_id index address none = new_sweep order_id index address
  reuse_or_queue order_id index address (some j) = pure j

  -- `SweepService.enqueue`
  unfoldable pub enqueue : String → ℕ → String → Action SweepJob
  unfolding reuse_or_queue
  enqueue order_id index address = do
    existing ← gets (λ w. SweepStore.find_by_order_id order_id w.sweeps)
    reuse_or_queue order_id index address existing

  enqueue_at : String → Option String → Option ℕ → Action (Unit {0})
  unfolding enqueue
  enqueue_at order_id none index = pure tt
  enqueue_at order_id (some address) none = pure tt
  enqueue_at order_id (some address) (some index) = enqueue order_id index address >>= λ _. pure tt

  -- `onUsdtSettled` of container.ts: an order without its address or index is passed over.
  unfoldable pub on_usdt_settled : Order → Action (Unit {0})
  unfolding enqueue_at
  on_usdt_settled order =
      enqueue_at order.id (truthy order.metadata.deposit_address) order.metadata.deposit_index
