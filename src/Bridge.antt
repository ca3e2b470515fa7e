-- ===== src/Bridge.antt =====
-- crates/pontifex-bridge: the enclave that reads the burn ledger of one chain and signs claims for the
-- other. `State` holds what a running bridge keeps, `Config` its identity and endpoints, `Failover` the
-- transport over several endpoints, `ClaimFlow` the money path and `Handler` the request dispatch.
pub mod Config
pub mod State
pub mod Failover
pub mod ClaimFlow
pub mod Handler
pub mod Marks
pub mod Endpoints
pub mod Grant
pub mod Identity
pub mod Session
mod Tests
