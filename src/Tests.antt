-- ===== src/Tests.antt =====
-- Runs of the model on a small platform, and the theorems at concrete inputs.
pub mod Demo
pub mod Worker
pub mod Client
pub mod Registry
pub mod Loader
pub mod Callers
pub mod Setup
pub mod Wrappers
pub mod Build
pub mod Durable
pub mod LastError
pub mod Documents
pub mod Refusing
pub mod System
pub mod Traces
pub mod Exclusive
