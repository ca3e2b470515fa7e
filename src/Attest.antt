-- ===== src/Attest.antt =====
-- crates/nitro-common/src: what an attestation document of the hardware module is trusted for (attest.rs,
-- verify.rs), and randomness from the hardware module (rng.rs, nsm.rs).
pub mod Document
pub mod Der
pub mod Verify
pub mod Random
pub mod Peer
mod Tests
