-- ===== src/Chain.antt =====
-- crates/keyex/src/chain.rs: the reads of the two chains, in children by layer. `Wire` is what the
-- code takes from serde_json, hex and alloy-primitives; `Quantity` and `Abi` decode; `Reads` holds the
-- typed reads. The proofs stand beside them.
pub mod Wire
pub mod Text
pub mod Quantity
pub mod Abi
pub mod Reads
pub mod Finality
mod Tests
