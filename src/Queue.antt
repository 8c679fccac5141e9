-- ===== src/Queue.antt =====
-- core/util/queue.hpp and the atomic operations of core/util/atomic.hpp: the two queues that
-- `QNT_USE_LOCKED_QUEUE` chooses between. Without that macro `queue` is the lockless one.
pub mod Locked
pub mod Lockless
