-- ===== src/Stage0.antt =====
-- src/llm_inference_systems/metrics.py: what Stage 0 derives from its request records.
pub mod Metrics
pub mod Gaps
mod Tests
