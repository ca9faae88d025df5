-- ===== src/Examples/UsdtRuns.antt =====
-- A USDT order in shared mode, and the transfers that it is matched with.
use bianhao.Base.{◌≡◌, refl, true, some, [], ◌∷◌, get, str_eq, str_eq_refl, has, arith}
use bianhao.Domain.{Order, PaymentMethod, Currency, ok}
use bianhao.Storage.Orders as OrderStore
use bianhao.Effects.{World, Env, AddressMode}
use bianhao.Payments.Service.{sync_order, transaction_key}
use bianhao.Usdt.{Trc20Transfer, TronChainClient, UsdtConfig, query_payment, earliest}
use bianhao.Usdt.Matching.{FirstPays, PaysExactly, query_payment-FirstPays, sync_order_shadowed}
use bianhao.Examples.Fixtures.{waiting, shop, shop_world, agreeable}

abbrev coin_order : Order
coin_order = record waiting {
  method = PaymentMethod.usdt;
  currency = Currency.usdt;
  amount = 2_000_001;
  created_at = 1_000_000;
}

abbrev shared_wallet : UsdtConfig
shared_wallet = record {
  address_mode = AddressMode.shared;
  receiving_address = "T1";
  contract_address = "C1";
}

-- It paid an order before, within five minutes of this one.
abbrev earlier : Trc20Transfer
earlier = record {
  tx_id = "x1";
  to = "T1";
  from = "A1";
  value_micro = 2_000_001;
  timestamp_ms = 900_000;
  confirmed = true;
}

abbrev own_payment : Trc20Transfer
own_payment = record earlier { tx_id = "x2"; timestamp_ms = 1_100_000 }

-- It pays something else.
abbrev unrelated : Trc20Transfer
unrelated = record earlier { tx_id = "x0"; value_micro = 5 }

unrelated_misses : ¬ PaysExactly coin_order "T1" unrelated
unrelated_misses pays = let exact = PaysExactly.exact pays in omega (arith, exact)

abbrev chain : TronChainClient
chain t address contract since = ok (unrelated ∷ earlier ∷ own_payment ∷ [])

abbrev coin_shop : Env
coin_shop = record shop {
  providers = λ m. some (record agreeable { query_payment = query_payment shared_wallet chain });
}

abbrev coin_world : World
coin_world = record shop_world {
  orders = record { by_id = ("o1", coin_order) ∷ []; by_out_trade_no = []; by_idem = [] };
  events = record { seen = (transaction_key PaymentMethod.usdt "x1", 950_000) ∷ [] };
}

query_payment-FirstPays_example :
    FirstPays coin_order "T1"
      (unrelated ∷ earlier ∷ own_payment ∷ [])
      (query_payment shared_wallet chain 0 coin_order)
query_payment-FirstPays_example =
    query_payment-FirstPays shared_wallet chain 0 coin_order
      (unrelated ∷ earlier ∷ own_payment ∷ []) refl refl

marked : has (transaction_key PaymentMethod.usdt "x1") coin_world.events.seen ≡ true
unfolding get
marked = rw (str_eq_refl (transaction_key PaymentMethod.usdt "x1")) refl

-- The order's own payment is there, and not found.
sync_order_shadowed_example :
    sync_order coin_shop "o1" coin_world ≡ (ok coin_order, record coin_world { tick = 1 })
unfolding get str_eq earliest OrderStore.find_by_id
sync_order_shadowed_example =
    sync_order_shadowed coin_shop shared_wallet chain "o1" coin_order
      (record agreeable { query_payment = query_payment shared_wallet chain }) (unrelated ∷ [])
      earlier (own_payment ∷ []) coin_world refl refl refl refl refl refl refl
      (unrelated_misses, tt)
      (record { final = refl; received = refl; exact = refl; recent = omega arith }) refl marked
