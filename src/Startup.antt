-- ===== src/Startup.antt =====
-- cmd/koshi: the start of the process and its end.
pub mod Load
pub mod Wire
pub mod Serve
pub mod Injector
pub mod Jobs
pub mod Shutdown
mod Tests
