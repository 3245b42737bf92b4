-- ===== src/Stage0/Tests.antt =====
-- src/llm_inference_systems/metrics.py: the gaps of a request of three tokens.
use llm_inference_systems.Prelude.{◌≡◌, refl, true, none, some, [], ◌∷◌, ok, pos}
use llm_inference_systems.Stage0.Metrics.{
  RequestRecord, success, token_observation_offsets, observed_offsets, check_offsets, differences,
  itl_of, derive_request_metrics, is_success,
}
use llm_inference_systems.Stage0.Gaps.{HasGaps, derive_request_metrics-HasGaps}

abbrev three_tokens : RequestRecord
three_tokens = record {
  outcome = success;
  dispatch_offset_ns = 10;
  first_output_token_offset_ns = some 20;
  last_output_token_offset_ns = some 45;
  terminal_offset_ns = 50;
  output_tokens = some 3;
  stream_events =
      (record {
        event_offset_ns = 20;
        output_tokens_in_chunk = some 1;
        per_token_observation_offsets_ns = none;
      })
      ∷ (record {
        event_offset_ns = 46;
        output_tokens_in_chunk = some 2;
        per_token_observation_offsets_ns = some (30 ∷ 45 ∷ []);
      })
      ∷ [];
}

three_tokens_run : (derive_request_metrics three_tokens).itl_ns ≡ ok (pos 10 ∷ pos 15 ∷ [])
unfolding derive_request_metrics token_observation_offsets observed_offsets check_offsets
    differences itl_of
three_tokens_run = refl

derive_request_metrics-HasGaps_example :
    (is_success three_tokens.outcome ≡ true) × HasGaps three_tokens (pos 10 ∷ pos 15 ∷ [])
derive_request_metrics-HasGaps_example =
    derive_request_metrics-HasGaps three_tokens (pos 10 ∷ pos 15 ∷ []) three_tokens_run
