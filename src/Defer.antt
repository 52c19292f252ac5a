-- ===== src/Defer.antt =====
-- src/urcu-defer-impl.h: per-thread queues of deferred calls.
pub mod Queue
pub mod Encoding
pub mod Pending
pub mod Thread
pub mod Reclaim
mod Tests
