-- ===== src/Stage2/Stream/Succeeds.antt =====
-- src/llm_inference_systems/stage2_protocol.py, Stage2StreamValidator: the evidence of a finished
-- stream reconciles, so that the end of the transport returns it.
use llm_inference_systems.Prelude.{ℕ, some}
use llm_inference_systems.Stage2.Stream.{Validator}
use llm_inference_systems.Stage2.Stream.Close.{Boundaries}
use llm_inference_systems.Stage2.Stream.Closed.{Finished}

-- The validator after the transport has closed at `at`.
abbrev pub closed : Validator → ℕ → Validator
closed v at = record v { last_observation_offset_ns = at; transport_terminal_offset_ns = some at }

abbrev boundaries_of : {v : Validator} {p : ℕ} → Finished v p → ℕ → Boundaries
boundaries_of {v} {p} f at = record {
  response_headers = f.headers;
  first_body = f.body;
  generation = f.generation;
  usage = f.usage;
  protocol = p;
  transport = at;
}
