-- ===== src/Control/Runtime/Tests.antt =====
-- src/llm_inference_systems/stage2_control.py: the control evidence of a repetition, around the sample
-- probe.
use llm_inference_systems.Prelude.{
  ℕ, zero, suc, ◌%◌, ◌≡◌, refl, Bool, true, false, Option, none, some, List, [], ◌∷◌, ◌++◌, ==_refl,
  codes, list_eq_refl,
}
use llm_inference_systems.Sse.Codec.{Text}
use llm_inference_systems.Stage2.Prometheus.{
  delta_is_valid, Labels, CounterDelta, expected_labels, labels_eq, require_quiescent,
  select_exact_series, derive_counter_delta, subtract,
}
use llm_inference_systems.Cancellation.{CancellationResult, CancellationProbe}
use llm_inference_systems.Cancellation.Sample.{
  whole, environment, probe_closed_at, samples_with, scraped, window,
}
use llm_inference_systems.Cancellation.Tests.{accepted_run}
use llm_inference_systems.Cancellation.Verdict.{evaluate_cancellation}
use llm_inference_systems.Control.Phases.{
  RuntimePhase, RuntimePhaseRecord, phase_names, ordinal, validate_runtime_phases,
}
use llm_inference_systems.Control.Memory.{
  GpuMemorySample, validate_gpu_memory_stability, gpu_memory_tolerance_bytes, check_stability,
}
use llm_inference_systems.Control.Processes.{
  ProcessKind, ProcessRecord, validate_process_sequence, place, online_snapshot_download,
  offline_tokenizer_verification, offline_vllm_restart_1, offline_vllm_restart_2,
  offline_vllm_restart_3,
}
use llm_inference_systems.Control.Runtime.{
  Stage2RuntimeControlEvidence, ProcessExitEvidence, Identities, result_eq, check_components,
  check_requests, check_cancellation, check_steady, check_windows, check_gates, check_final,
  check_binding, check_shutdown, check_identities, validate_runtime_control, check_result,
  check_server, check_accepted, check_samples, check_cache_deltas, check_cache, check_compilation,
  check_memory_window, check_steady_window, check_exits, check_nothing_left, check_pair,
  expected_phase_identities, delta_eq, deltas_eq, option_delta_eq, option_number_eq, same_truth,
  class_number,
}
use llm_inference_systems.Control.Runtime.Controlled.{
  IsControlled, validate_runtime_control-IsControlled,
}

labels_refl : (xs : Labels) → labels_eq xs xs ≡ true
labels_refl [] = refl
labels_refl (x ∷ xs) = rw (list_eq_refl x.0, list_eq_refl x.1, labels_refl xs) refl

delta_refl : (d : CounterDelta whole) → delta_eq whole d d ≡ true
delta_refl d =
    rw
      (
        list_eq_refl d.metric,
        labels_refl d.labels,
        ==_refl d.before,
        ==_refl d.after,
        ==_refl d.delta,
      )
      refl

deltas_refl : (ds : List (CounterDelta whole)) → deltas_eq whole ds ds ≡ true
deltas_refl [] = refl
deltas_refl (d ∷ ds) = rw (delta_refl d, deltas_refl ds) refl

option_delta_refl : (d : Option (CounterDelta whole)) → option_delta_eq whole d d ≡ true
option_delta_refl none = refl
option_delta_refl (some d) = delta_refl d

option_number_refl : (n : Option ℕ) → option_number_eq whole n n ≡ true
option_number_refl none = refl
option_number_refl (some n) = ==_refl n

same_truth_refl : (b : Bool) → same_truth whole b b ≡ true
same_truth_refl true = refl
same_truth_refl false = refl

result_refl : (a : CancellationResult whole) → result_eq whole a a ≡ true
unfolding result_eq
result_refl a =
    rw
      (
        same_truth_refl a.accepted,
        ==_refl (class_number whole a.classification),
        list_eq_refl a.evidence_identity_sha256,
        option_delta_refl a.prompt_token_delta,
        option_delta_refl a.generation_token_delta,
        deltas_refl a.finished_reason_deltas,
        deltas_refl a.auxiliary_counter_deltas,
        option_number_refl a.observed_abort_delta,
      )
      refl

-- The phases follow each other, and each ends at the next of the times.
abbrev phase_records : ℕ → List ℕ → List (RuntimePhase × Text) → List RuntimePhaseRecord
phase_records at (end ∷ ends) (p ∷ phases) =
    (record {
      phase = p.0;
      started_offset_ns = at;
      ended_offset_ns = end;
      passed = true;
      post_warmup_jit_observed = false;
      evidence_kind = p.1 ++ codes "-evidence-v0.3.0";
      evidence_identity_sha256 = [];
      evidence_references = (codes "raw/phases/" ++ p.1 ++ codes ".json") ∷ [];
    })
    ∷ phase_records end ends phases
phase_records at _ _ = []

abbrev ends : List ℕ
ends =
    100_000_000 ∷ 200_000_000 ∷ 300_000_000 ∷ 400_000_000 ∷ 500_000_000 ∷ 600_000_000 ∷ 700_000_000
    ∷ 800_000_000 ∷ 8_000_000_000 ∷ 9_000_000_000 ∷ 10_000_000_000 ∷ 16_000_000_000 ∷ 22_000_000_000
    ∷ 23_000_000_000 ∷ 24_000_000_000 ∷ 25_000_000_000 ∷ 26_000_000_000 ∷ []

abbrev process : ProcessKind → Text → ProcessRecord
process kind identity = record {
  process_kind = kind;
  process_identity = identity;
  verified_local_snapshot_path = codes "p";
  other_fields = [];
}

abbrev memory_at : ℕ → GpuMemorySample
memory_at at = record { observation_offset_ns = at; allocated_bytes = 8_000_000_000 }

abbrev requests : ℕ → ℕ → List Text
requests group zero = []
requests group (suc n) = (group ∷ n ∷ []) ∷ requests group n

abbrev slots : ℕ → List ℕ
slots zero = []
slots (suc n) = (n % 2) ∷ slots n

abbrev unmoved : Text → CounterDelta whole
unmoved name = record {
  metric = name;
  labels = expected_labels none;
  before = 0;
  after = 0;
  delta = 0;
}

abbrev exited : Text → ProcessExitEvidence
exited identity = record {
  process_identity = identity;
  observed_offset_ns = 24_500_000_000;
  raw_evidence_sha256 = [];
}

abbrev identities : Identities whole
identities = record {
  of_processes = λ p. [];
  of_texts = λ t. [];
  of_memory = λ m n. [];
  of_cancellation = λ p c. [];
  of_steady = λ a b c d e. [];
  of_measured = λ s m. [];
  of_final = λ n s. [];
  of_exits = λ x. [];
  of_residual = λ a b c d. [];
}

abbrev probe : CancellationProbe whole
probe = probe_closed_at 11_150_000_000

abbrev evidence : Stage2RuntimeControlEvidence whole
evidence = record {
  repetition_index = 1;
  phases = phase_records 0 ends phase_names;
  process_records =
      process online_snapshot_download (codes "a")
      ∷ process offline_tokenizer_verification (codes "b")
      ∷ process offline_vllm_restart_1 (codes "s")
      ∷ process offline_vllm_restart_2 (codes "t")
      ∷ process offline_vllm_restart_3 (codes "u")
      ∷ [];
  gpu_memory_samples = record {
    first = memory_at 1_000_000_000;
    rest =
        memory_at 1_200_000_000
        ∷ memory_at 1_400_000_000
        ∷ memory_at 1_600_000_000
        ∷ memory_at 1_800_000_000
        ∷ [];
  };
  gpu_memory_tolerance_bytes = 80_000_000;
  stabilization_request_ids = requests 1 3;
  workload_shape_warmup_request_ids = requests 2 4;
  cancellation_probe = probe;
  cancellation_result = evaluate_cancellation environment probe;
  steady_state_snapshots = window (samples_with 164 15 1) 9 16_000_000_000;
  prefix_cache_query_delta = unmoved (codes "vllm:prefix_cache_queries_total");
  prefix_cache_hit_delta = unmoved (codes "vllm:prefix_cache_hits_total");
  post_warmup_jit_event_hashes = [];
  quiet_interval_start_offset_ns = 17_000_000_000;
  quiet_interval_end_offset_ns = 19_000_000_000;
  measured_request_ids = requests 3 16;
  measured_client_slot_assignments = slots 16;
  final_drain_completed_offset_ns = 23_100_000_000;
  final_metric_scrape = scraped (samples_with 164 15 1) 23_200_000_000;
  shutdown_processes = exited (codes "s") ∷ exited (codes "w") ∷ [];
  residual_process_ids = [];
  residual_active_request_ids = [];
  residual_verification_offset_ns = 25_500_000_000;
  residual_verification_evidence_sha256 = [];
}

components_run : check_components environment identities evidence ≡ none
unfolding check_components validate_runtime_phases ordinal validate_process_sequence place
    validate_gpu_memory_stability gpu_memory_tolerance_bytes check_stability
components_run = refl

requests_run : check_requests environment identities evidence ≡ none
unfolding check_requests
requests_run = refl

cancellation_run : check_cancellation environment identities evidence ≡ none
unfolding check_cancellation check_result check_server check_accepted
cancellation_run = rw (result_refl (evaluate_cancellation environment probe), accepted_run) refl

steady_run : check_steady environment identities evidence ≡ none
unfolding check_steady check_samples check_cache_deltas check_cache check_compilation
    require_quiescent derive_counter_delta subtract delta_is_valid select_exact_series
steady_run = refl

windows_run : check_windows environment identities evidence ≡ none
unfolding check_windows check_memory_window check_steady_window ordinal
windows_run = refl

final_run : check_final environment identities evidence ≡ none
unfolding check_final ordinal require_quiescent select_exact_series
final_run = refl

binding_run : check_binding environment identities evidence ≡ none
unfolding check_binding
binding_run = refl

shutdown_run : check_shutdown environment identities evidence ≡ none
unfolding check_shutdown check_exits check_nothing_left check_pair ordinal
shutdown_run = refl

identities_run : check_identities environment identities evidence ≡ none
unfolding check_identities expected_phase_identities ordinal
identities_run = refl

control_run : validate_runtime_control environment identities evidence ≡ none
unfolding validate_runtime_control check_gates ordinal
control_run =
    rw
      (
        components_run, requests_run, cancellation_run, steady_run, windows_run, final_run,
        binding_run, shutdown_run, identities_run,
      )
      refl

validate_runtime_control-IsControlled_example : IsControlled environment identities evidence
validate_runtime_control-IsControlled_example =
    validate_runtime_control-IsControlled environment identities evidence refl control_run
