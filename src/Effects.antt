-- ===== src/Effects.antt =====
-- What the services run in: the stores, the trails they leave, and a monad for `async` methods that
-- may throw. What was written before a throw stays written.
--
-- Everything the program reads from outside (the clock, random ids, a provider's answer, the chain's
-- answer) is a function of `tick`, which counts those readings; so two readings may differ, and
-- nothing is assumed of them here.
mod Monad
pub use Monad.*
pub mod Stores
pub mod Rules
