-- ===== src/Notify.antt =====
-- The drainer of internal/notify.
pub mod Drain
pub mod Fit
