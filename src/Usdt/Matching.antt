-- ===== src/Usdt/Matching.antt =====
-- Which transfer settles an order (providers/usdt/usdtTron.ts), and what `syncOrder` makes of it
-- (services/paymentService.ts).
use bianhao.Base.{
  Bool-cases, ap, ◌∙◌, ◌⊎◌, ℕ, suc, ◌≤◌, ◌≡◌, refl, true, false, String, none, some, List, [], ◌∷◌,
  ◌++◌, All, arith, str_eq_iff, find, find-none, find-some, is_empty, Option-cases, inl, inr, has,
}
use bianhao.Domain.{Order, OrderStatus, QueryResult, Result, ok}
use bianhao.Effects.{AddressMode, World, Env, PaymentProvider}
use bianhao.Storage.Orders as OrderStore
use bianhao.Storage.Events as EventStore
use bianhao.Payments.Service.{sync_order, transaction_key}
use bianhao.Usdt.{
  Trc20Transfer, TronChainClient, UsdtConfig, settles_exactly, match_transfer, query_payment,
  query_answer, earliest, is_claimed,
}

-- The transfer pays the order at the address, to the last unit.
pub record PaysExactly (o : Order) (address : String) (t : Trc20Transfer) : Type 0 where
  pub final : t.confirmed ≡ true
  pub received : t.to ≡ address
  pub exact : t.value_micro ≡ o.amount
  pub recent : earliest o ≤ t.timestamp_ms

settles_exactly-pays :
    (o : Order) (address : String) (t : Trc20Transfer)
    → settles_exactly o address [] t ≡ true
    → PaysExactly o address t
unfolding settles_exactly is_claimed
settles_exactly-pays o address t h = record {
  final = ground arith;
  received = ground (arith, str_eq_iff t.to address);
  exact = ground arith;
  recent = ground arith;
}

settles_exactly_complete :
    (o : Order) (address : String) (t : Trc20Transfer)
    → PaysExactly o address t
    → settles_exactly o address [] t ≡ true
unfolding settles_exactly is_claimed
settles_exactly_complete o address t h =
    ground (arith, h.final, h.received, h.exact, h.recent, str_eq_iff t.to address)

misses :
    (o : Order) (address : String) (t : Trc20Transfer)
    → settles_exactly o address [] t ≡ false
    → ¬ PaysExactly o address t
misses o address t h pays = ground (arith, settles_exactly_complete o address t pays)

All-misses :
    (o : Order) (address : String) (ts : List Trc20Transfer)
    → All (λ t. settles_exactly o address [] t ≡ false) ts
    → All (λ t. ¬ PaysExactly o address t) ts
All-misses o address [] h = tt
All-misses o address (t ∷ ts) h = (misses o address t h.0, All-misses o address ts h.1)

-- The first transfer that pays is found behind any that do not.
find_past :
    (o : Order) (address : String) (before : List Trc20Transfer) (t : Trc20Transfer)
    (others : List Trc20Transfer)
    → All (λ x. ¬ PaysExactly o address x) before
    → PaysExactly o address t
    → find (settles_exactly o address []) (before ++ t ∷ others) ≡ some t
unfolding find
find_past o address [] t others h pays = rw (settles_exactly_complete o address t pays) refl
find_past o address (x ∷ before) t others h pays =
    elim (Bool-cases (settles_exactly o address [] x)) [
      | inl fits ↦ absurd (h.0 (settles_exactly-pays o address x fits))
      | inr other ↦ rw other (find_past o address before t others h.1 pays)
    ]

-- What `queryPayment` answers in shared mode, by the transfers that the chain shows.
abbrev pub FirstPays : Order → String → List Trc20Transfer → Result QueryResult → Type 0
FirstPays o address transfers answer =
    (All (λ t. ¬ PaysExactly o address t) transfers × (answer ≡ ok (query_answer none)))
    ⊎ ((before : List Trc20Transfer) × (t : Trc20Transfer) × (after : List Trc20Transfer)
        × (transfers ≡ before ++ t ∷ after)
        × PaysExactly o address t
        × All (λ x. ¬ PaysExactly o address x) before
        × (answer ≡ ok (query_answer (some t))))

module _ (cfg : UsdtConfig) (chain : TronChainClient) (tick : ℕ) (o : Order)
    (transfers : List Trc20Transfer) (shared : cfg.address_mode ≡ AddressMode.shared)
    (seen : chain tick cfg.receiving_address cfg.contract_address (earliest o) ≡ ok transfers) where
  query_steps :
      query_payment cfg chain tick o
      ≡ ok (query_answer (match_transfer o transfers cfg.receiving_address []))
  unfolding query_payment
  query_steps = rw (shared, seen) refl

  -- In shared mode `queryPayment` reports the first confirmed transfer of exactly the order's amount
  -- to the receiving address since five minutes before the order, and no payment where there is none.
  pub query_payment-FirstPays :
      FirstPays o cfg.receiving_address transfers (query_payment cfg chain tick o)
  unfolding match_transfer
  query_payment-FirstPays =
      let test = settles_exactly o cfg.receiving_address [] in
      elim (Option-cases (find test transfers)) [
        | inl e ↦ inl (
          All-misses o cfg.receiving_address transfers (find-none test transfers e),
          query_steps ∙ ap (λ m. ok (query_answer m)) e,
        )
        | inr (t, e) ↦
            let (before, after, parts, passes, earlier) = find-some test t transfers e in
            inr (
              before,
              t,
              after,
              parts,
              settles_exactly-pays o cfg.receiving_address t passes,
              All-misses o cfg.receiving_address before earlier,
              query_steps ∙ ap (λ m. ok (query_answer m)) e,
            )
      ]

module _ (env : Env) where
  -- A PENDING order whose provider reports a transaction that is marked as processed is not settled.
  pub sync_order_blocked :
      (id : String) (o : Order) (p : PaymentProvider) (t : Trc20Transfer) (w : World)
      → OrderStore.find_by_id id w.orders ≡ some o
      → OrderStore.find_by_id o.id w.orders ≡ some o
      → o.status ≡ OrderStatus.pending
      → env.providers o.method ≡ some p
      → p.query_payment w.tick o ≡ ok (query_answer (some t))
      → is_empty t.tx_id ≡ false
      → has (transaction_key o.method t.tx_id) w.events.seen ≡ true
      → sync_order env id w ≡ (ok o, record w { tick = suc w.tick })
  unfolding sync_order query_answer EventStore.mark_if_new
  sync_order_blocked id o p t w found own waiting offered answer named used = ground arith

  -- In shared mode a transfer that is marked as processed, first among the transfers that pay a
  -- PENDING order exactly, keeps the order from being settled, whatever others pay it.
  pub sync_order_shadowed :
      (cfg : UsdtConfig) (chain : TronChainClient) (id : String) (o : Order) (p : PaymentProvider)
      (before : List Trc20Transfer) (t : Trc20Transfer) (others : List Trc20Transfer) (w : World)
      → OrderStore.find_by_id id w.orders ≡ some o
      → OrderStore.find_by_id o.id w.orders ≡ some o
      → o.status ≡ OrderStatus.pending
      → env.providers o.method ≡ some p
      → p.query_payment ≡ query_payment cfg chain
      → cfg.address_mode ≡ AddressMode.shared
      → chain w.tick cfg.receiving_address cfg.contract_address (earliest o)
        ≡ ok (before ++ t ∷ others)
      → All (λ x. ¬ PaysExactly o cfg.receiving_address x) before
      → PaysExactly o cfg.receiving_address t
      → is_empty t.tx_id ≡ false
      → has (transaction_key o.method t.tx_id) w.events.seen ≡ true
      → sync_order env id w ≡ (ok o, record w { tick = suc w.tick })
  unfolding match_transfer
  sync_order_shadowed cfg chain id o p before t others w found own waiting offered usdt shared seen
        unlike pays named used =
      sync_order_blocked id o p t w found own waiting offered
        (ap (λ q. q w.tick o) usdt
          ∙ query_steps cfg chain w.tick o (before ++ t ∷ others) shared seen
          ∙ ap (λ m. ok (query_answer m))
              (find_past o cfg.receiving_address before t others unlike pays))
        named used
