-- ===== src/Control/Runtime.antt =====
-- src/llm_inference_systems/stage2_control.py: Stage2RuntimeControlEvidence.validate_runtime_control,
-- one check for each group of its guards. Fields with one possible value are left out; the sequences
-- that have a minimum length are nonempty by type.
pub mod Controlled
mod Tests
use llm_inference_systems.Prelude.{
  ℕ, zero, suc, ◌+◌, Bool, true, false, ◌&&◌, ◌||◌, not, Option, none, some, List, [], ◌∷◌, ◌++◌,
  map, ltb, leb, ◌==◌, if◌then◌else◌, codes, length, all, any, list_eq, Result, ok, err, distinct,
  mem,
}
use llm_inference_systems.Sse.Codec.{Text}
use llm_inference_systems.Stage2.Prometheus.{
  Floats, Snapshot, CounterDelta, labels_eq, derive_counter_delta, require_quiescent,
}
use llm_inference_systems.Cancellation.{
  CancellationClassification, CancellationProbe, CancellationResult, NonEmpty, to_list, last_of,
}
use llm_inference_systems.Cancellation
use llm_inference_systems.Cancellation.Checks.{Environment}
use llm_inference_systems.Cancellation.Progression.{same_process, spaced_at_least, snapshot_offsets}
use llm_inference_systems.Cancellation.Verdict.{evaluate_cancellation}
use llm_inference_systems.Control.Phases.{
  RuntimePhase, RuntimePhaseRecord, ordinal, validate_runtime_phases, offline_snapshot_verification,
  runtime_process_start, jit_compilation_state, allocator_kv_stabilization,
  excluded_stabilization_requests, excluded_shape_warmups, cancellation_probe_drain,
  steady_state_gate, measured_window, final_metrics_drain, shutdown,
  no_residual_process_verification,
}
use llm_inference_systems.Control.Memory.{GpuMemorySample, validate_gpu_memory_stability}
use llm_inference_systems.Control.Processes.{ProcessRecord, validate_process_sequence}

pub record ProcessExitEvidence : Type 0 where
  pub process_identity : Text
  pub observed_offset_ns : ℕ
  pub raw_evidence_sha256 : Text

pub data ControlError : Type 0 where
  invalid_phases invalid_processes invalid_memory wrong_tolerance no_such_index : ControlError
  requests_not_unique requests_not_disjoint clients_not_exercised : ControlError
  result_not_reconstructed wrong_server not_accepted not_steady series_not_valid : ControlError
  cache_used compiled_after_warmup outside_its_phase before_its_gate not_quiescent : ControlError
  not_bound_to_server residual_work wrong_shutdown wrong_identity : ControlError

abbrev pub Guard : Type 0
Guard = Option ControlError

-- The next guard is reached where the one before did not raise.
infixr 5 ◌and_then◌
abbrev pub ◌and_then◌ : Guard → Guard → Guard
none and_then next = next
(some x) and_then next = some x

abbrev pub raise_when : Bool → ControlError → Guard
raise_when true x = some x
raise_when false x = none

-- xs[index]
abbrev pub item_at {ℓ} : {A : Type ℓ} → ℕ → List A → Option A
item_at index [] = none
item_at zero (x ∷ xs) = some x
item_at (suc index) (x ∷ xs) = item_at index xs

abbrev pub with_item {ℓ} : {A : Type ℓ} → ℕ → List A → (A → Guard) → Guard
with_item index xs check = elim (item_at index xs) [ none ↦ some no_such_index | some x ↦ check x ]

-- self.phases[RUNTIME_PHASE_ORDER.index(phase)]
abbrev pub in_phase : RuntimePhase → List RuntimePhaseRecord → (RuntimePhaseRecord → Guard) → Guard
in_phase phase phases check = with_item (ordinal phase) phases check

abbrev pub raised_as {ℓ κ} : {E : Type κ} {A : Type ℓ} → ControlError → Result E A → Guard
raised_as x (ok a) = none
raised_as x (err e) = some x

module _ (F : Floats) where
  pub record Stage2RuntimeControlEvidence : Type 0 where
    pub repetition_index : ℕ
    pub phases : List RuntimePhaseRecord
    pub process_records : List ProcessRecord
    pub gpu_memory_samples : NonEmpty GpuMemorySample
    pub gpu_memory_tolerance_bytes : ℕ
    pub stabilization_request_ids : List Text
    pub workload_shape_warmup_request_ids : List Text
    pub cancellation_probe : CancellationProbe F
    pub cancellation_result : CancellationResult F
    pub steady_state_snapshots : NonEmpty (Snapshot F)
    pub prefix_cache_query_delta : CounterDelta F
    pub prefix_cache_hit_delta : CounterDelta F
    pub post_warmup_jit_event_hashes : List Text
    pub quiet_interval_start_offset_ns : ℕ
    pub quiet_interval_end_offset_ns : ℕ
    pub measured_request_ids : List Text
    pub measured_client_slot_assignments : List ℕ
    pub final_drain_completed_offset_ns : ℕ
    pub final_metric_scrape : Snapshot F
    pub shutdown_processes : List ProcessExitEvidence
    pub residual_process_ids : List ℕ
    pub residual_active_request_ids : List Text
    pub residual_verification_offset_ns : ℕ
    pub residual_verification_evidence_sha256 : Text

  -- sha256_identity of the values that it is taken of.
  pub record Identities : Type 0 where
    pub of_processes : List ProcessRecord → Text
    pub of_texts : List Text → Text
    pub of_memory : List GpuMemorySample → ℕ → Text
    pub of_cancellation : CancellationProbe F → CancellationResult F → Text
    pub of_steady : CounterDelta F → CounterDelta F → ℕ → ℕ → List (Snapshot F) → Text
    pub of_measured : List ℕ → List Text → Text
    pub of_final : ℕ → Snapshot F → Text
    pub of_exits : List ProcessExitEvidence → Text
    pub of_residual : List Text → List ℕ → Text → ℕ → Text

  -- The equality of two models, field by field.
  abbrev delta_eq : CounterDelta F → CounterDelta F → Bool
  delta_eq a b =
      list_eq a.metric b.metric
      && (labels_eq a.labels b.labels
          && (F.equal a.before b.before && (F.equal a.after b.after && F.equal a.delta b.delta)))

  abbrev deltas_eq : List (CounterDelta F) → List (CounterDelta F) → Bool
  deltas_eq [] [] = true
  deltas_eq (a ∷ xs) (b ∷ ys) = delta_eq a b && deltas_eq xs ys
  deltas_eq _ _ = false

  abbrev option_delta_eq : Option (CounterDelta F) → Option (CounterDelta F) → Bool
  option_delta_eq none none = true
  option_delta_eq (some a) (some b) = delta_eq a b
  option_delta_eq _ _ = false

  abbrev option_number_eq : Option F.number → Option F.number → Bool
  option_number_eq none none = true
  option_number_eq (some x) (some y) = F.equal x y
  option_number_eq _ _ = false

  abbrev same_truth : Bool → Bool → Bool
  same_truth a b = if a then b else not b

  abbrev class_number : CancellationClassification → ℕ
  class_number Cancellation.server_abort_acknowledged_and_drained = 0
  class_number Cancellation.unknown_acknowledgement = 1
  class_number Cancellation.later_completion = 2
  class_number Cancellation.residual_work_timeout = 3
  class_number Cancellation.terminal_unknown = 4
  class_number Cancellation.id_correlation_failure = 5

  unfoldable pub result_eq : CancellationResult F → CancellationResult F → Bool
  result_eq a b =
      same_truth a.accepted b.accepted
      && (class_number a.classification == class_number b.classification
          && (list_eq a.evidence_identity_sha256 b.evidence_identity_sha256
              && (option_delta_eq a.prompt_token_delta b.prompt_token_delta
                  && (option_delta_eq a.generation_token_delta b.generation_token_delta
                      && (deltas_eq a.finished_reason_deltas b.finished_reason_deltas
                          && (deltas_eq a.auxiliary_counter_deltas b.auxiliary_counter_deltas
                              && option_number_eq a.observed_abort_delta
                                  b.observed_abort_delta))))))

module _ {F : Floats} (E : Environment F) (I : Identities F)
    (r : Stage2RuntimeControlEvidence F) where
  -- process_records[repetition_index + 1]
  abbrev pub with_server : (Text → Guard) → Guard
  with_server check =
      with_item (suc r.repetition_index) r.process_records (λ p. check p.process_identity)

  abbrev pub all_request_ids : List Text
  all_request_ids =
      r.stabilization_request_ids
      ++ (r.workload_shape_warmup_request_ids
          ++ r.cancellation_probe.identity_chain.external_base_id ∷ r.measured_request_ids)

  unfoldable pub check_components : Guard
  check_components =
      raised_as invalid_phases (validate_runtime_phases r.phases)
      and_then raised_as invalid_processes (validate_process_sequence r.process_records)
      and_then elim (validate_gpu_memory_stability (to_list r.gpu_memory_samples)) [
        | err x ↦ some invalid_memory
        | ok tolerance ↦
            raise_when (not (r.gpu_memory_tolerance_bytes == tolerance)) wrong_tolerance
      ]

  unfoldable pub check_requests : Guard
  check_requests =
      raise_when
        (not (distinct list_eq r.stabilization_request_ids)
          || (not (distinct list_eq r.workload_shape_warmup_request_ids)
              || not (distinct list_eq r.measured_request_ids)))
        requests_not_unique
      and_then raise_when (not (distinct list_eq all_request_ids)) requests_not_disjoint
      and_then raise_when
          (not (
            any (λ n. n == 0) r.measured_client_slot_assignments
            && (any (λ n. n == 1) r.measured_client_slot_assignments
                && all (λ n. n == 0 || n == 1) r.measured_client_slot_assignments)))
          clients_not_exercised

  unfoldable pub check_result : Guard
  check_result =
      raise_when
        (not (result_eq F (evaluate_cancellation E r.cancellation_probe) r.cancellation_result))
        result_not_reconstructed

  unfoldable pub check_server : Guard
  check_server = with_server (λ expected_server.
      raise_when
        (not (r.cancellation_probe.repetition_index == r.repetition_index)
          || not (list_eq r.cancellation_probe.server_process_identity expected_server))
        wrong_server)

  unfoldable pub check_accepted : Guard
  check_accepted = raise_when (not r.cancellation_result.accepted) not_accepted

  unfoldable pub check_cancellation : Guard
  check_cancellation = check_result and_then check_server and_then check_accepted

  abbrev quiet : List (Snapshot F) → Guard
  quiet [] = none
  quiet (s ∷ snapshots) =
      raised_as series_not_valid (require_quiescent F s) and_then quiet snapshots

  abbrev pub first_steady : Snapshot F
  first_steady = r.steady_state_snapshots.first

  abbrev pub last_steady : Snapshot F
  last_steady = last_of r.steady_state_snapshots

  unfoldable pub check_cache : CounterDelta F → CounterDelta F → Guard
  check_cache expected_queries expected_hits =
      raise_when
        (not (delta_eq F r.prefix_cache_query_delta expected_queries)
          || (not (delta_eq F r.prefix_cache_hit_delta expected_hits)
              || (not (F.equal expected_queries.delta (F.of_nat 0))
                  || not (F.equal expected_hits.delta (F.of_nat 0)))))
        cache_used

  unfoldable pub check_samples : Guard
  check_samples =
      raise_when
        (not (same_process F (to_list r.steady_state_snapshots))
          || not
              (spaced_at_least 100_000_000 (snapshot_offsets F (to_list r.steady_state_snapshots))))
        not_steady
      and_then quiet (to_list r.steady_state_snapshots)

  unfoldable pub check_cache_deltas : Guard
  check_cache_deltas =
      elim (derive_counter_delta F first_steady last_steady
        (codes "vllm:prefix_cache_queries_total") none) [
          | err x ↦ some series_not_valid
          | ok expected_queries ↦
              elim (derive_counter_delta F first_steady last_steady
                (codes "vllm:prefix_cache_hits_total") none) [
                  | err x ↦ some series_not_valid
                  | ok expected_hits ↦ check_cache expected_queries expected_hits
                ]
        ]

  unfoldable pub check_compilation : Guard
  check_compilation =
      raise_when (not (length r.post_warmup_jit_event_hashes == 0)) compiled_after_warmup

  unfoldable pub check_steady : Guard
  check_steady = check_samples and_then check_cache_deltas and_then check_compilation

  abbrev pub within : RuntimePhaseRecord → ℕ → ℕ → Bool
  within phase from to = leb phase.started_offset_ns from && leb to phase.ended_offset_ns

  unfoldable pub check_memory_window : Guard
  check_memory_window = in_phase allocator_kv_stabilization r.phases (λ memory_phase.
      raise_when
        (not (
          within memory_phase r.gpu_memory_samples.first.observation_offset_ns
            (last_of r.gpu_memory_samples).observation_offset_ns))
        outside_its_phase)

  unfoldable pub check_steady_window : Guard
  check_steady_window = in_phase steady_state_gate r.phases (λ steady_phase.
      raise_when
        (ltb first_steady.scrape_monotonic_offset_ns steady_phase.started_offset_ns
          || (ltb r.quiet_interval_start_offset_ns last_steady.scrape_monotonic_offset_ns
              || (ltb r.quiet_interval_end_offset_ns
                    (r.quiet_interval_start_offset_ns + 2_000_000_000)
                  || ltb steady_phase.ended_offset_ns r.quiet_interval_end_offset_ns)))
        outside_its_phase)

  unfoldable pub check_windows : Guard
  check_windows = check_memory_window and_then check_steady_window

  unfoldable pub check_gates : RuntimePhaseRecord → RuntimePhaseRecord → Guard
  check_gates measured_phase cancellation_phase =
      raise_when (ltb measured_phase.started_offset_ns cancellation_phase.ended_offset_ns)
        before_its_gate
      and_then raise_when (ltb measured_phase.started_offset_ns r.quiet_interval_end_offset_ns)
          before_its_gate
      and_then raise_when
          (not (
            within cancellation_phase
              r.cancellation_probe.pre_dispatch_snapshots.first.scrape_monotonic_offset_ns
              r.cancellation_probe.residual_state.observation_offset_ns))
          outside_its_phase

  unfoldable pub check_final : Guard
  check_final =
      in_phase final_metrics_drain r.phases (λ final_drain_phase.
        raise_when
          (not (
            leb final_drain_phase.started_offset_ns r.final_drain_completed_offset_ns
            && (ltb r.final_drain_completed_offset_ns
                  r.final_metric_scrape.scrape_monotonic_offset_ns
                && leb r.final_metric_scrape.scrape_monotonic_offset_ns
                    final_drain_phase.ended_offset_ns)))
          outside_its_phase)
      and_then raised_as not_quiescent (require_quiescent F r.final_metric_scrape)

  unfoldable pub check_binding : Guard
  check_binding = with_server (λ expected_server.
      raise_when
        (not (list_eq r.final_metric_scrape.process_start_id first_steady.process_start_id)
          || (not (list_eq r.final_metric_scrape.process_start_id expected_server)
              || not (
                  list_eq r.cancellation_probe.pre_dispatch_snapshots.first.process_start_id
                    expected_server)))
        not_bound_to_server)

  abbrev identities : List Text
  identities = map (λ x. x.process_identity) r.shutdown_processes

  unfoldable pub check_exits : Guard
  check_exits =
      in_phase shutdown r.phases (λ shutdown_phase.
        raise_when
          (any (λ x. not (within shutdown_phase x.observed_offset_ns x.observed_offset_ns))
            r.shutdown_processes)
          outside_its_phase)
      and_then in_phase no_residual_process_verification r.phases (λ residual_phase.
        raise_when
          (not (
            within residual_phase r.residual_verification_offset_ns
              r.residual_verification_offset_ns))
          outside_its_phase)

  unfoldable pub check_nothing_left : Guard
  check_nothing_left =
      raise_when
        (not (length r.residual_process_ids == 0)
          || not (length r.residual_active_request_ids == 0))
        residual_work

  unfoldable pub check_pair : Guard
  check_pair = with_server (λ expected_server.
      raise_when
        (not (distinct list_eq identities)
          || (not (length r.shutdown_processes == 2)
              || not (mem list_eq expected_server identities)))
        wrong_shutdown)

  unfoldable pub check_shutdown : Guard
  check_shutdown = check_exits and_then check_nothing_left and_then check_pair

  abbrev drop_two {ℓ} : {A : Type ℓ} → List A → List A
  drop_two (x ∷ y ∷ xs) = xs
  drop_two _ = []

  abbrev take_two {ℓ} : {A : Type ℓ} → List A → List A
  take_two (x ∷ y ∷ xs) = x ∷ y ∷ []
  take_two xs = xs

  unfoldable pub expected_phase_identities : List (RuntimePhase × Text)
  expected_phase_identities =
      (offline_snapshot_verification, I.of_processes (take_two r.process_records))
      ∷ (runtime_process_start, I.of_processes (drop_two r.process_records))
      ∷ (jit_compilation_state, I.of_texts r.post_warmup_jit_event_hashes)
      ∷ (
        allocator_kv_stabilization,
        I.of_memory (to_list r.gpu_memory_samples) r.gpu_memory_tolerance_bytes,
      )
      ∷ (excluded_stabilization_requests, I.of_texts r.stabilization_request_ids)
      ∷ (excluded_shape_warmups, I.of_texts r.workload_shape_warmup_request_ids)
      ∷ (cancellation_probe_drain, I.of_cancellation r.cancellation_probe r.cancellation_result)
      ∷ (
        steady_state_gate,
        I.of_steady r.prefix_cache_hit_delta r.prefix_cache_query_delta
            r.quiet_interval_end_offset_ns r.quiet_interval_start_offset_ns
            (to_list r.steady_state_snapshots),
      )
      ∷ (measured_window, I.of_measured r.measured_client_slot_assignments r.measured_request_ids)
      ∷ (final_metrics_drain, I.of_final r.final_drain_completed_offset_ns r.final_metric_scrape)
      ∷ (shutdown, I.of_exits r.shutdown_processes)
      ∷ (
        no_residual_process_verification,
        I.of_residual r.residual_active_request_ids r.residual_process_ids
            r.residual_verification_evidence_sha256 r.residual_verification_offset_ns,
      )
      ∷ []

  abbrev check_each : List (RuntimePhase × Text) → Guard
  check_each [] = none
  check_each (p ∷ identities) =
      in_phase p.0 r.phases
        (λ phase. raise_when (not (list_eq phase.evidence_identity_sha256 p.1)) wrong_identity)
      and_then check_each identities

  unfoldable pub check_identities : Guard
  check_identities = check_each expected_phase_identities

  unfoldable pub validate_runtime_control : Guard
  validate_runtime_control =
      check_components
      and_then check_requests
      and_then check_cancellation
      and_then check_steady
      and_then check_windows
      and_then in_phase measured_window r.phases (λ measured_phase.
        in_phase cancellation_probe_drain r.phases
          (λ cancellation_phase. check_gates measured_phase cancellation_phase))
      and_then check_final
      and_then check_binding
      and_then check_shutdown
      and_then check_identities
