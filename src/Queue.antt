-- ===== src/Queue.antt =====
-- detail/atomic_task_stealing_queue.hpp.
pub mod Locking
pub mod Stealing
pub mod Content
pub mod Push
pub mod Probe
pub mod Pop
pub mod Drain
pub mod Fifo
pub mod Bag
pub mod Threads
mod Examples
