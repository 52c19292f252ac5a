-- ===== src/Rcu.antt =====
-- The urcu flavor: include/urcu/static/urcu.h (readers) and src/urcu.c (grace periods).
pub mod Reader
pub mod Scan
pub mod System
pub mod Invariant
pub mod GracePeriod
pub mod Wakeup
pub mod Progress
pub mod Completion
mod Tests
