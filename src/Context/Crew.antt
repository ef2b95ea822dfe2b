-- ===== src/Context/Crew.antt =====
-- execution_context.cpp: run_one_thread_ on all threads of a context's pool at once, over the task queue
-- of Queue/Threads, with threads outside of the pool that post. Thunks may post, and do not throw; what a
-- completion queue answers is chosen at each step.
mod Defs
mod Invariant
mod Fits
mod Measure
pub mod Safety
pub mod Progress
pub mod Ends
mod Examples
pub use Defs.*
