-- ===== src/Usdt.antt =====
-- providers/usdt/usdtTron.ts: matching transfers to orders, and `queryPayment` of UsdtTronProvider.
use bianhao.Base.{
  ℕ, ◌-◌, Bool, true, false, not, ◌&&◌, ◌||◌, String, Option, none, some, List, [], ◌∷◌, leb, ◌==◌,
  str_eq, is_empty, get_or, if◌then◌else◌, find,
}
use bianhao.Domain.{Order, QueryResult, Result, ok, err}
use bianhao.Effects.{AddressMode}
pub mod Matching

-- A transfer on the chain.
pub record Trc20Transfer : Type 0 where
  pub tx_id : String
  pub to : String
  pub from : String
  pub value_micro : ℕ
  pub timestamp_ms : ℕ
  pub confirmed : Bool

-- `getIncomingTransfers` of TronChainClient, asked at a tick: by address, contract and time.
abbrev pub TronChainClient : Type 0
TronChainClient = ℕ → String → String → ℕ → Result (List Trc20Transfer)

-- The part of the configuration that `queryPayment` reads.
pub record UsdtConfig : Type 0 where
  pub address_mode : AddressMode
  pub receiving_address : String
  pub contract_address : String

-- `claimedTxIds.has(txId)`
unfoldable pub is_claimed : String → List String → Bool
is_claimed tx [] = false
is_claimed tx (c ∷ cs) = str_eq c tx || is_claimed tx cs

-- `order.createdAt - 5 * 60_000`. Where the source has a negative number this has 0, which admits
-- the same times.
unfoldable pub earliest : Order → ℕ
earliest o = o.created_at - 300_000

unfoldable pub settles_exactly : Order → String → List String → Trc20Transfer → Bool
settles_exactly o address claimed t =
    t.confirmed
    && str_eq t.to address
    && t.value_micro == o.amount
    && leb (earliest o) t.timestamp_ms
    && not (is_claimed t.tx_id claimed)

unfoldable pub match_transfer :
    Order → List Trc20Transfer → String → List String → Option Trc20Transfer
match_transfer o transfers address claimed = find (settles_exactly o address claimed) transfers

unfoldable pub settles_covering : Order → String → List String → Trc20Transfer → Bool
settles_covering o address claimed t =
    t.confirmed
    && str_eq t.to address
    && leb o.amount t.value_micro
    && leb (earliest o) t.timestamp_ms
    && not (is_claimed t.tx_id claimed)

unfoldable pub match_by_address :
    Order → List Trc20Transfer → String → List String → Option Trc20Transfer
match_by_address o transfers address claimed = find (settles_covering o address claimed) transfers

-- `{ paid: false, rawStatus }`
unpaid : String → QueryResult
unpaid raw_status = record {
  paid = false;
  provider_txn_id = none;
  paid_amount = none;
  raw_status = raw_status;
}

unfoldable pub query_answer : Option Trc20Transfer → QueryResult
unfolding unpaid
query_answer none = unpaid "NO_MATCH"
query_answer (some t) = record {
  paid = true;
  provider_txn_id = some t.tx_id;
  paid_amount = some t.value_micro;
  raw_status = "CONFIRMED";
}

answer_with :
    (List Trc20Transfer → Option Trc20Transfer) → Result (List Trc20Transfer) → Result QueryResult
unfolding query_answer
answer_with choose (ok transfers) = ok (query_answer (choose transfers))
answer_with choose (err e) = err e

module _ (cfg : UsdtConfig) (chain : TronChainClient) where
  query_at : ℕ → Order → String → Result QueryResult
  unfolding answer_with match_by_address match_transfer
  query_at tick o address =
      answer_with
        (λ transfers. elim cfg.address_mode [
          | AddressMode.per_order ↦ match_by_address o transfers address []
          | AddressMode.shared ↦ match_transfer o transfers address []
        ])
        (chain tick address cfg.contract_address (earliest o))

  -- `queryPayment`
  unfoldable pub query_payment : ℕ → Order → Result QueryResult
  unfolding query_at unpaid
  query_payment tick o = elim cfg.address_mode [
    | AddressMode.per_order ↦
        let address = get_or o.metadata.deposit_address "" in
        if is_empty address then ok (unpaid "NO_ADDRESS") else query_at tick o address
    | AddressMode.shared ↦ query_at tick o cfg.receiving_address
  ]
