-- ===== src/Control.antt =====
-- src/llm_inference_systems/stage2_control.py and stage2_runtime.py: the control of an experiment,
-- outside the cancellation probe.
pub mod Budget
pub mod Phases
pub mod Restarts
pub mod Aggregate
pub mod Memory
pub mod Processes
pub mod Runtime
mod Tests
