-- ===== src/Lib.antt =====
-- Userspace RCU (liburcu): models of the algorithms of the library, and what makes them correct.
--
-- The library lets threads read shared data without locks. A reader brackets its reads by
-- rcu_read_lock and rcu_read_unlock; a writer that has unlinked data calls synchronize_rcu, which
-- waits for the readers that were in a section. defer_rcu puts off a call until a grace period has
-- passed, by a queue for each thread. On these stand containers: queues, stacks and a hash table
-- that resizes while it is read.
--
-- Prelude: tests, lists, words and families that the other parts share.
--
-- Rcu: the flavors with memory barriers (src/urcu.c, include/urcu/static/urcu.h). Rcu/Reader: the
--   word rcu_reader.ctr and what lock and unlock make of it. Rcu/Scan: the loop of
--   wait_for_readers over the registry. Rcu/System: readers and one synchronize_rcu at a time as a
--   step relation, one shared access a step: the load and the store of rcu_read_lock apart, the
--   futex of wait_gp and wake_up_gp access by access, the locks as the states of the writer in
--   which registration may run. rcu_gp_lock serialises the writers, so one at a time is enough.
-- Defer: deferred calls (src/urcu-defer-impl.h). Defer/Queue: the ring of words of a thread, its
--   encoding of calls (_defer_rcu) and its decoder (rcu_defer_barrier_queue). Defer/Reclaim:
--   rcu_defer_barrier, which takes a snapshot of each head, then waits for a grace period, then
--   runs the calls. A queue has 2 ^ 12 words; the decoder has fuel for one more entry than that,
--   and every call that it makes uses at least one word. A word has 64 bits, and head and tail
--   wrap around.
-- Hash: the hash table (src/rculfhash.c). Hash/Reverse: bit_reverse_ulong, by which the one list
--   of the table is sorted. Hash/Order: fls_u64 and the orders of sizes (the portable code, not
--   the bsr instruction). Hash/Walk: the reads (lookup, next_duplicate, first, next) and the loops
--   over them. Hash/Update: the insertion (_cds_lfht_add), the deletion (_cds_lfht_del) and the
--   unlinking of removed nodes (_cds_lfht_gc_bucket). Both are what one thread does while no other
--   writes, so that each cmpxchg finds what was read. The deletion has the assertions of the
--   source, of which one that fails gives no result; the insertion leaves them out. A `next` word
--   is an address with its three flags; bucket_at is left open: the functions take the bucket
--   node. Hash/Resize: the counts (ht_count_add, ht_count_del), check_resize and the resize
--   target, one thread at a time; malloc, and the processor that sched_getcpu gives, are
--   arguments. Hash/Resize/Pass: _do_cds_lfht_resize as it moves the size, without what init_table
--   and fini_table do to the bucket nodes of each order. Hash/Tables: bucket_at and the arrays of
--   the order and the chunk allocator (src/rculfhash-mm-order.c, src/rculfhash-mm-chunk.c). Loops
--   run on fuel, for which more than the length of the list is enough.
-- Wfcq: the wait-free concurrent queue (include/urcu/static/wfcqueue.h). Wfcq/Queue: enqueue and
--   dequeue as a step relation, an access a step: any number of enqueuers, each between its
--   exchange of the tail and its store of the link or not, and one dequeuer at a time, as the
--   synchronisation table of the header file asks. Nodes are addresses.
--
-- Qsbr: the flavor whose readers announce quiescent states (src/urcu-qsbr.c,
--   include/urcu/static/urcu-qsbr.h), in the manner of Rcu/System. Qsbr/System has
--   rcu_quiescent_state, rcu_thread_online and rcu_thread_offline in their accesses, wake_up_gp
--   with each reader's flag `waiting`, and the version of synchronize_rcu for words of 64 bits,
--   which counts the grace periods; there is room for 2 ^ 63 of them.
-- Batch: how calls of synchronize_rcu share a grace period (src/urcu-wait.h, and its use in
--   src/urcu.c). Batch/System: any number of threads from urcu_wait_add to their return, an access
--   a step; the queue, a wait-free stack, is a list there, and a grace period is the two steps
--   that begin and end it. Batch/Places: whose nodes are on which list. Batch/Timing: the order of
--   calls and grace periods. Batch/Sleep: what a sleeping thread can count on. A Step of
--   Batch/System takes FUTEX_WAIT to return 0 only when it is woken; a WeakStep also lets it
--   return 0 by itself, as futex(2) allows.
-- Stacks: the lock-free stack (include/urcu/static/lfstack.h) and the wait-free stack
--   (include/urcu/static/wfstack.h), an access a step, any number of threads, the nodes addresses.
--   Stacks/Spec: the sequential stack, and a history of calls that have taken effect.
-- Ref: the reference counter (include/urcu/ref.h).
--
-- CallRcu: callbacks run by threads of the library (src/urcu-call-rcu-impl.h). CallRcu/System: any
--   number of workers (call_rcu_thread), of callers of call_rcu and of rcu_barrier, an access a
--   step, with the futexes of both. A worker's queue is a list there, and a splice is one step;
--   the list of workers stays as it is, which call_rcu_mutex gives rcu_barrier. CallRcu/Order and
--   CallRcu/Fifo are about one worker, CallRcu/Barrier and CallRcu/Return about the completion of
--   a rcu_barrier, CallRcu/Count about how often its work has run. CallRcu/Cpus: the table of the
--   workers of the processors, as one thread changes it; sysconf, malloc and what
--   __create_call_rcu_data gives are arguments, and of call_rcu_data_free only the call is noted.
--
-- The parts meet thus: the deferred calls and the table's owners wait by synchronize_rcu, which
-- Rcu models and whose callers Batch puts together; Batch and CallRcu take a grace period as the
-- steps that begin and end it, Defer and Hash as no step of their own state. Wfcq is the queue of
-- a CallRcu worker, Stacks/WaitFree that of the waiters of Batch, Ref counts the users of a
-- completion.
--
-- Bounds: words have 64 bits (unsigned long of a 64-bit machine), the wrap-around written out.
-- RCU_QS_ACTIVE_ATTEMPTS is 100, as in the source.
--
-- Not modelled. Weak memory: accesses are sequentially consistent, which the barriers of the
-- source are there to provide. The signal flavor, machines with incoherent caches, the flavor bp,
-- the flags, the end and the processor affinity of a call_rcu worker, the work queue, and what a
-- resize does to the nodes of the hash table. System calls appear as what they do to the state;
-- but for the WeakStep of Batch, FUTEX_WAIT returns 0 only to a thread that a FUTEX_WAKE has woken
-- up.
pub mod Prelude
pub mod Rcu
pub mod Defer
pub mod Hash
pub mod Wfcq
pub mod Qsbr
pub mod Stacks
pub mod Batch
pub mod Ref
pub mod CallRcu
