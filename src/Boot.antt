-- ===== src/Boot.antt =====
-- crates/keyex/src/boot.rs and crates/keyex/src/driver.rs: the boot rules shared by both images, and
-- the loop that drives them. The registry is the arbiter: `ChainView` answers from a world that each
-- read may change.
pub mod Tick
pub mod Driver
pub mod Rules
pub mod Registered
mod Tests
