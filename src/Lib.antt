-- ===== src/Lib.antt =====
-- Verification of the VPN payment backend: orders, payments, refunds, the audit of the two, and the
-- collection of per-order USDT deposits.
--
-- The program sells subscriptions. PaymentService places an order with a provider (WeChat, Alipay or
-- USDT), learns of the payment from a callback or by asking, settles the order, and has
-- SubscriptionService extend the subscription. RefundService pays back, in one or several refunds,
-- and ReconciliationService compares orders and refunds. A per-order USDT deposit is collected by
-- SweepService. ExpiryService reminds of subscriptions that end soon and ends those that are over.
-- Events for the merchant go out through WebhookDispatcher, and RateLimiter guards the API. All keep
-- their state in repositories. The payment page shows the provider's URL as a QR code, and orders and
-- refunds are exported as CSV.
--
-- Which file models what (paths of the program are from its root):
--   Base          names from the libraries, tests, lists, JavaScript's Map, and stable sorting.
--   Domain        src/domain: types.ts, refund.ts, deposit.ts, errors.ts as records and data.
--   Core          src/core/orderStateMachine.ts, with its transitions, and the diagram that
--                 documents them, as relations.
--   Storage       src/storage/memoryStore.ts: a record of maps per repository, a function per method.
--                 Orders/Evolution says when a store of orders has moved along the state machine.
--   Effects       the world that the services share, with the environment and the monad of actions:
--                 `Env` is what a service is constructed with, `PaymentProvider` the interface of
--                 src/providers/provider.ts. Stores has the repositories' methods as actions.
--   Payments      src/services: paymentService.ts (Service), plans.ts (Plans), subscriptionService.ts
--                 (Fulfilment), addressAllocator.ts with the enqueueing of sweepService.ts (Deposits),
--                 and allocateUniqueAmount of src/providers/usdt/usdtTron.ts (Amounts).
--   Refunds       src/services/refundService.ts.
--   Reconciliation  src/services/reconciliationService.ts.
--   Sweeps        src/services/sweepService.ts, against TronTreasury of
--                 src/providers/usdt/tronTreasury.ts.
--   Alerts        src/alerting/sweepAlerts.ts.
--   Usdt          matching and queryPayment of src/providers/usdt/usdtTron.ts.
--   Limits        src/api/rateLimiter.ts.
--   Webhooks      src/webhooks/outbound.ts.
--   Expiry        src/services/expiryService.ts, with the events of src/notifications/notifier.ts.
--   Merchants     src/services/merchantService.ts, src/domain/merchant.ts and their repository.
--   Users         src/services/userService.ts, src/domain/user.ts and their repository, with the
--                 passwords of src/utils/crypto.ts (Passwords).
--   Audit         src/audit/auditLog.ts.
--   Reports       src/services/reportService.ts.
--   Csv           src/reporting/csv.ts, with a strict reader of RFC 4180 to compare it with
--                 (Parser).
--   Qr            src/qr/qrEncoder.ts: the field and Reed-Solomon (Field), modes and versions (Data),
--                 codewords and blocks (Codewords), function patterns (Grid, Layout), placement and
--                 masks (Matrix), their scores (Penalty) and decodeForTest (Decode, Reading). Polynomials
--                 has the arithmetic that the field and the BCH codes are compared with. The
--                 other files of the directory are proofs, and Whole joins them.
--   Money         src/core/money.ts, on texts as lists of character numbers.
--   Examples      concrete worlds, runs of the code, and the theorems at them.
--
-- How code becomes definitions. An `async` method is a function from its arguments and the state to a
-- result and the state: the state as it is when the method throws is kept. A method of the source is
-- a function of the same name in snake case; where a method branches on a computed value, the
-- branches are private functions above it. `withLock` runs one method after the other, so the locked
-- part of a method is its body; interleavings of the unlocked parts are not modelled. Reads of the
-- clock, random ids and calls of providers, of the chain and of the HTTP client are functions of a
-- count of such reads, `tick`, about which nothing is assumed beyond what a theorem says. Logging is
-- left out. An audit entry keeps its action and subject, an outbound event its type and ids.
--
-- toLowerCase and trim of an address are functions in Users, as Unicode's tables define them, and so
-- are node's scrypt and its salts, as hexadecimal texts.
--
-- Numbers. Amounts are whole numbers of minor units and times whole numbers of milliseconds, below
-- 2 ^ 53 in the program, and natural numbers here. Where the source may go below zero, the definition
-- says so. Loops run over lists or count down; `decimal` of Money counts down from
-- n + 1, which is more digits than n has.
-- In Qr, `bitLen` counts down from its number, the BCH loops from 16 and 18 turns, of which six are
-- enough, the padding to a byte from 8, and the walk over columns and runs from the symbol's size. A
-- text is its list of UTF-16 units; decodeForTest is modelled up to its last call, which makes a text
-- of the bytes it has read. The share of dark modules in the penalty is computed without fractions.
--
-- Not modelled: the HTTP API and its routes, the SQL and Redis stores (the in-memory ones have the
-- same interface), the providers' wire formats and signatures, the adapter to tronweb, configuration,
-- secrets, mails, prices, metrics, health checks and the process's start and stop.
pub mod Base
pub mod Domain
pub mod Core
pub mod Storage
pub mod Effects
pub mod Payments
pub mod Refunds
pub mod Reconciliation
pub mod Sweeps
pub mod Usdt
pub mod Limits
pub mod Webhooks
pub mod Money
pub mod Alerts
pub mod Audit
pub mod Csv
pub mod Examples
pub mod Expiry
pub mod Merchants
pub mod Qr
pub mod Reports
pub mod Users
