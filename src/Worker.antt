-- ===== src/Worker.antt =====
-- The worker thread that owns the isolate (bindings/rust/src/lib.rs).
pub mod State
pub mod Handlers
pub mod Dispatch
pub mod Init
pub mod Loop
pub mod Idle
pub mod Thread
pub mod Refusals
pub mod Replies
pub mod Ends
pub mod Callers
pub mod Backoff
pub mod Traffic
pub mod LastError
pub mod Timing
pub mod Quiet
pub mod Monitor
pub mod Durable
