-- ===== src/Ratls.antt =====
-- crates/keyex/src/binding.rs, kdf.rs and ratls.rs: the exchange behind the TLS handshake, in which each
-- side attests its key over the nonce of the other, and the server hands over a key or declines.
pub mod Binding
pub mod Framing
pub mod Exchange
pub mod Secrecy
pub mod Transfer
mod Tests
