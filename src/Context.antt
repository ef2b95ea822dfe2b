-- ===== src/Context.antt =====
-- execution_context.hpp and execution_context.cpp.
pub mod State
pub mod Defs
pub mod Post
pub mod Posting
pub mod Deadline
pub mod Lifecycle
pub mod SelfJoin
pub mod History
pub mod Calls
pub mod Outcome
pub mod Gate
pub mod Worker
pub mod Crew
mod Examples
