-- ===== src/Wfcq.antt =====
-- include/urcu/static/wfcqueue.h: the wait-free concurrent queue.
mod Chain
mod Queue
mod Invariant
mod Fifo
mod Blocking
mod Progress
mod Tests
