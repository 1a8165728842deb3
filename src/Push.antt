-- ===== src/Push.antt =====
-- internal/push: the evaluator of push alerts.
pub mod Evaluate
pub mod Once
