-- ===== src/Pool.antt =====
-- src/runtime/pool: the queues, the actor and the handle of the task pools, and the delay pool.
pub mod Fifo
pub mod Priority
pub mod Pending
pub mod Actor
pub mod Handle
pub mod Delay
