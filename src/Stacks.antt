-- ===== src/Stacks.antt =====
-- The two stacks, include/urcu/static/lfstack.h and include/urcu/static/wfstack.h, against one
-- abstract stack.
mod Spec
mod Chain
mod LockFree
mod WaitFree
