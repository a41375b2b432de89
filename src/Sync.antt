-- ===== src/Sync.antt =====
-- Mutexes and message queues on top of the events: kernel/sched/mutex.c and kernel/sched/ipm.c.
pub mod Mutex
pub mod Ipm
pub mod Semaphore
pub mod Condition
mod Tests
