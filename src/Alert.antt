-- ===== src/Alert.antt =====
-- The alerting decisions: internal/alert.
pub mod Watch
pub mod Feed
pub mod Battery
