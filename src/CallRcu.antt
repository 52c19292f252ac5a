-- ===== src/CallRcu.antt =====
-- src/urcu-call-rcu-impl.h: callbacks that wait for a grace period in the queue of a thread, and
-- rcu_barrier.
mod System
mod Order
mod Fifo
mod Count
mod Barrier
mod Steady
mod Return
mod Cpus
mod Tests
