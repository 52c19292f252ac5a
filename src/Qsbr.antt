-- ===== src/Qsbr.antt =====
-- src/urcu-qsbr.c and include/urcu/static/urcu-qsbr.h: the flavor whose readers announce
-- their quiescent states, in its version for words of 64 bits.
mod System
mod Invariant
mod GracePeriod
mod Tests
