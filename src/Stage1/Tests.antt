-- ===== src/Stage1/Tests.antt =====
-- src/llm_inference_systems/stage1_metrics.py: the client concurrency of two requests that overlap.
use llm_inference_systems.Prelude.{ℕ, ◌≡◌, refl, List, [], ◌∷◌, ok}
use llm_inference_systems.Stage1.Concurrency.Requests.{
  IsConcurrency, derive_observed_max_client_concurrency-IsConcurrency,
}
use llm_inference_systems.Stage1.Concurrency.{
  StreamEvidence, StreamEvidenceKind, client_request_started, client_request_ended, sse_comment,
  derive_observed_max_client_concurrency, count_events, count_event, count_kind,
}

abbrev observed : ℕ → ℕ → StreamEvidenceKind → StreamEvidence
observed n request kind = record { sequence = n; request_id = request ∷ []; kind = kind }

abbrev overlapping : List StreamEvidence
overlapping =
    observed 0 1 client_request_started
    ∷ observed 1 2 client_request_started
    ∷ observed 2 1 sse_comment
    ∷ observed 3 1 client_request_ended
    ∷ observed 4 3 client_request_started
    ∷ observed 5 3 client_request_ended
    ∷ observed 6 2 client_request_ended
    ∷ []

overlapping_run : derive_observed_max_client_concurrency overlapping ≡ ok 2
unfolding derive_observed_max_client_concurrency count_events count_event count_kind
overlapping_run = refl

derive_observed_max_client_concurrency-IsConcurrency_example : IsConcurrency overlapping 2
derive_observed_max_client_concurrency-IsConcurrency_example =
    derive_observed_max_client_concurrency-IsConcurrency overlapping 2 overlapping_run
