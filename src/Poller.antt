-- ===== src/Poller.antt =====
-- The polling loop of internal/poller.
pub mod Observe
pub mod Label
pub mod Plan
pub mod Commit
pub mod Ingest
pub mod Battery
pub mod Once
