-- ===== src/Collectors.antt =====
-- src/collectors: the order book that a collector keeps (LocalBook), the timestamps of its venue
-- (Latency), the throttle of its snapshots (Sink) and the set of running collectors (Manager).
pub mod Latency
pub mod LocalBook
pub mod Levels
pub mod Sink
pub mod Manager
pub mod Running
mod Tests
