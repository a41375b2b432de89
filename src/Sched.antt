-- ===== src/Sched.antt =====
-- kernel/sched: threads, their queues, the run queue and the scheduling core.
pub mod Thread
pub mod Queue
pub mod Kernel
pub mod Core
pub mod Control
pub mod Lottery
mod Tests
