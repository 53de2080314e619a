-- ===== src/Bridge.antt =====
-- bridges/ethElrond: the bridge executor that both halves of the bridge run on. `Clients` has the
-- interfaces that it is given, `Monad` its state and its calls, `Executor` its methods.
pub mod Clients
pub mod Monad
pub mod Kept
pub mod Executor
pub mod Protocol
pub mod Retries
pub mod Example
