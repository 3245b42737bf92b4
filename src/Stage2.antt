-- ===== src/Stage2.antt =====
-- The Stage 2 protocol: src/llm_inference_systems/stage2_protocol.py and the contracts it fills.
pub mod Json
pub mod Chain
pub mod Evidence
pub mod Stream
pub mod Capture
pub mod Prometheus
