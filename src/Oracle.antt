-- ===== src/Oracle.antt =====
-- src/keyex_oracle: what the price oracle keeps of its key exchange (State), the peers that it may boot
-- from (Peers), the approvals of its control channel (Fields, Control) and all requests of it (Dispatch).
pub mod State
pub mod Peers
pub mod Bounded
pub mod Fields
pub mod Control
pub mod Approved
pub mod Dispatch
pub mod Requests
pub mod Config
pub mod Handover
pub mod Discovery
mod Tests
