-- ===== src/Effects/Monad.antt =====
-- The world, the environment, and the monad.
use bianhao.Base.{ℕ, suc, Bool, true, false, String, Option, none, some, List, [], ◌∷◌, ◌++◌, Map}
use bianhao.Domain.{
  Order, Plan, PaymentMethod, CreatePaymentResult, CallbackResult, QueryResult, RefundRequest,
  RefundResult, RefundCallbackResult, RefundStatus, Error, Result, ok, err,
}
use bianhao.Storage.Orders.{OrderRepository}
use bianhao.Storage.Refunds.{RefundRepository}
use bianhao.Storage.Subscriptions.{SubscriptionRepository}
use bianhao.Storage.Events.{ProcessedEventStore}
use bianhao.Storage.Deposits.{DepositAddressRepository}
use bianhao.Storage.Sweeps.{SweepJobRepository}

-- An entry of the audit log: its action and its subject.
pub data AuditAction : Type 0 where
  order_created order_fulfilled refund_issued usdt_swept : AuditAction

pub record AuditEntry : Type 0 where
  pub action : AuditAction
  pub subject : String

-- An event handed to the outbound webhook dispatcher.
pub data OutboundEvent : Type 0 where
  order_fulfilled : String → OutboundEvent
  refund_updated : String → String → RefundStatus → OutboundEvent

pub record World : Type 0 where
  pub orders : OrderRepository
  pub refunds : RefundRepository
  pub subscriptions : SubscriptionRepository
  pub events : ProcessedEventStore
  pub deposits : DepositAddressRepository
  pub sweeps : SweepJobRepository
  pub audit : List AuditEntry
  pub outbound : List OutboundEvent
  pub tick : ℕ

-- providers/provider.ts: RawCallback and the answer to a callback.
pub record RawCallback : Type 0 where
  pub raw_body : String
  pub headers : Map String

pub record Ack : Type 0 where
  pub status : ℕ
  pub content_type : String
  pub body : String

-- providers/provider.ts: PaymentProvider, the interface that the services are written against. The
-- first argument is the tick at which the provider is asked.
pub record PaymentProvider : Type 0 where
  pub create_payment : ℕ → Order → Result CreatePaymentResult
  pub verify_callback : ℕ → RawCallback → Result CallbackResult
  pub query_payment : ℕ → Order → Result QueryResult
  pub callback_ack : Bool → Ack
  pub refund : Option (ℕ → Order → RefundRequest → Result RefundResult)
  pub verify_refund_callback : Option (ℕ → RawCallback → Result RefundCallbackResult)

pub data AddressMode : Type 0 where
  shared per_order : AddressMode

-- What a service is constructed with: its configuration and the outside world.
pub record Env : Type 0 where
  pub now : ℕ → ℕ
  pub uuid : ℕ → String
  pub out_trade_no : String → ℕ → String
  pub providers : PaymentMethod → Option PaymentProvider
  pub plans : List Plan
  pub order_ttl_minutes : ℕ
  pub usdt_unique_delta_max : ℕ
  pub usdt_address_mode : AddressMode
  pub hd_start_index : ℕ
  -- `TronWallet.deriveDepositAddress`, and absent where no allocator is configured.
  pub derive_deposit_address : Option (ℕ → ℕ → Result String)
  pub collection_address : String

abbrev pub Action : Type 0 → Type 0
Action A = World → Result A × World

module _ {A : Type 0} where
  abbrev pub pure : A → Action A
  pure a w = (ok a, w)

  abbrev pub throw : Error → Action A
  throw e w = (err e, w)

  abbrev pub lift : Result A → Action A
  lift r w = (r, w)

  abbrev pub gets : (World → A) → Action A
  gets f w = (ok (f w), w)

  -- `if (!found) throw e`
  abbrev pub or_throw : Option A → Error → Action A
  or_throw none e w = (err e, w)
  or_throw (some a) e w = (ok a, w)

  -- One reading of the outside world.
  abbrev pub read : (ℕ → A) → Action A
  read f w = (ok (f w.tick), record w { tick = suc w.tick })

  -- One call to the outside world that may throw.
  abbrev pub ask : (ℕ → Result A) → Action A
  ask f w = (f w.tick, record w { tick = suc w.tick })

infixl 5 ◌>>=◌ ◌>>◌
abbrev pub ◌>>=◌ : {A B : Type 0} → Action A → (A → Action B) → Action B
◌>>=◌ m f w = let (r, w') = m w in elim r [ ok a ↦ f a w' | err e ↦ (err e, w') ]

abbrev pub ◌>>◌ : {A B : Type 0} → Action A → Action B → Action B
m >> k = m >>= λ _. k

-- `try { m } catch (e) { handler(e) }`
abbrev pub catch : {A : Type 0} → Action A → (Error → Action A) → Action A
catch m handler w = let (r, w') = m w in elim r [ ok a ↦ (ok a, w') | err e ↦ handler e w' ]

abbrev pub guard : Bool → Error → Action (Unit {0})
guard true e w = (ok tt, w)
guard false e w = (err e, w)

abbrev pub modify : (World → World) → Action (Unit {0})
modify f w = (ok tt, f w)

abbrev pub record_audit : AuditAction → String → Action (Unit {0})
record_audit action subject w =
    (ok tt, record w { audit = w.audit ++ record { action = action; subject = subject } ∷ [] })

abbrev pub emit : OutboundEvent → Action (Unit {0})
emit e w = (ok tt, record w { outbound = w.outbound ++ e ∷ [] })
