-- ===== src/Stage1.antt =====
-- src/llm_inference_systems/stage1_metrics.py: what Stage 1 derives from its evidence.
pub mod Concurrency
pub mod Requests
mod Tests
