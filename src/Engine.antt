-- ===== src/Engine.antt =====
-- engine/: the deterministic checks, and the wrappers of the model calls.
pub mod Reconciliation
pub mod FaultClassifier
pub mod PolicySanitizer
pub mod PolicyExtractor
pub mod AnomalyDetector
