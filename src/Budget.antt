-- ===== src/Budget.antt =====
-- internal/budget: the rolling window and the tracker over it.
pub mod Window
pub mod Burst
pub mod Tracker
pub mod Contention
