-- ===== src/FromScratch.antt =====
-- examples/from-scratch.cpp: senders, receivers and a run loop, written out.
pub mod RunLoop
pub mod Senders
pub mod Scheduled
pub mod Threaded
pub mod Programs
mod Examples
