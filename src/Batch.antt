-- ===== src/Batch.antt =====
-- src/urcu-wait.h, as synchronize_rcu of src/urcu.c uses it: threads that call it at the same time
-- share a grace period, which the first of them waits for.
mod System
mod Places
mod Steps
mod Timing
mod Calls
mod Sleep
mod Wakeup
mod Tests
