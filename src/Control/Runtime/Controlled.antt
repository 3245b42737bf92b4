-- ===== src/Control/Runtime/Controlled.antt =====
-- src/llm_inference_systems/stage2_control.py: what evidence of a repetition's control that was
-- accepted has shown.
use llm_inference_systems.Prelude.{
  ℕ, ◌+◌, ◌≤◌, ◌≡◌, refl, inl, inr, Bool, true, false, not, none, some, List, [], ◌∷◌, arith, ◌==◌,
  Option-cases, codes, length, all, list_eq, Result, ok, err, Result-cases, distinct,
}
use llm_inference_systems.Sse.Codec.{Text}
use llm_inference_systems.Stage2.Prometheus.{Floats, CounterDelta, derive_counter_delta}
use llm_inference_systems.Stage2.Prometheus.Deltas.{IsDelta, derive_counter_delta-IsDelta}
use llm_inference_systems.Cancellation.{CancellationResult, to_list}
use llm_inference_systems.Cancellation.Checks.{Environment}
use llm_inference_systems.Cancellation.Verdict.{evaluate_cancellation}
use llm_inference_systems.Cancellation.Accepted.Drained.{IsDrained, evaluate_cancellation-IsDrained}
use llm_inference_systems.Control.Phases.{
  RuntimePhaseRecord, ordinal, validate_runtime_phases, measured_window, cancellation_probe_drain,
  is_interval, IsCleanRun, validate_runtime_phases-IsCleanRun,
}
use llm_inference_systems.Control.Memory.{
  validate_gpu_memory_stability, IsStable, validate_gpu_memory_stability-IsStable,
}
use llm_inference_systems.Control.Processes.{validate_process_sequence}
use llm_inference_systems.Control.Runtime.{
  ControlError, Guard, ◌and_then◌, raise_when, item_at, with_item, in_phase, raised_as,
  Stage2RuntimeControlEvidence, Identities, result_eq, all_request_ids, check_components,
  check_requests, check_cancellation, check_steady, check_cache, check_windows, check_gates,
  check_shutdown, validate_runtime_control, first_steady, last_steady, check_cache_deltas,
  check_compilation, check_result, check_steady_window, check_accepted, check_server,
  check_nothing_left,
}

and_then_cases : (a b : Guard) → (a and_then b) ≡ none → (a ≡ none) × (b ≡ none)
and_then_cases none b h = (refl, h)
and_then_cases (some x) b h = ground arith

raise_when-none : (b : Bool) (x : ControlError) → raise_when b x ≡ none → b ≡ false
raise_when-none true x h = ground arith
raise_when-none false x h = refl

with_item-none {ℓ} :
    {A : Type ℓ} (index : ℕ) (xs : List A) (check : A → Guard)
    → with_item index xs check ≡ none
    → (x : A) × (item_at index xs ≡ some x) × (check x ≡ none)
with_item-none index xs check h = elim (Option-cases (item_at index xs)) [
  | inl e ↦ ground (arith, h, e)
  | inr (x, e) ↦ (x, e, ground (arith, h, e))
]

raised_as-none {ℓ} :
    {B : Type ℓ} (x : ControlError) (a : Result B (Unit {0})) → raised_as x a ≡ none → a ≡ ok tt
raised_as-none x (ok tt) h = refl
raised_as-none x (err e) h = ground arith

empty_length {ℓ} : {A : Type ℓ} (xs : List A) → not (length xs == 0) ≡ false → xs ≡ []
empty_length [] h = refl
empty_length (x ∷ xs) h = ground arith

module _ {F : Floats} (E : Environment F) (I : Identities F)
    (r : Stage2RuntimeControlEvidence F) where
  -- The times of a repetition: the probe's last observation, the gate's quiet interval of at least
  -- two seconds after the last steady sample, and after both the measured window.
  pub record IsOrdered : Type 0 where
    pub cancellation_phase : RuntimePhaseRecord
    pub measured_phase : RuntimePhaseRecord
    pub cancellation_at :
        item_at (ordinal cancellation_probe_drain) r.phases ≡ some cancellation_phase
    pub measured_at : item_at (ordinal measured_window) r.phases ≡ some measured_phase
    pub probe_over :
        r.cancellation_probe.residual_state.observation_offset_ns
        ≤ cancellation_phase.ended_offset_ns
    pub cancelled_before : cancellation_phase.ended_offset_ns ≤ measured_phase.started_offset_ns
    pub steady_before :
        (last_steady E I r).scrape_monotonic_offset_ns ≤ r.quiet_interval_start_offset_ns
    pub quiet_for :
        r.quiet_interval_start_offset_ns + 2_000_000_000 ≤ r.quiet_interval_end_offset_ns
    pub quiet_before : r.quiet_interval_end_offset_ns ≤ measured_phase.started_offset_ns

  -- The cache counter of a name did not move between the steady samples.
  pub record IsUnused (name : Text) : Type 0 where
    pub delta : CounterDelta F
    pub derived : IsDelta F (first_steady E I r) (last_steady E I r) name none delta
    pub zero_delta : F.equal delta.delta (F.of_nat 0) ≡ true

  pub record IsControlled : Type 0 where
    pub clean : IsCleanRun r.phases
    pub sequence : validate_process_sequence r.process_records ≡ ok tt
    pub stable : IsStable (to_list r.gpu_memory_samples) r.gpu_memory_tolerance_bytes
    pub disjoint : distinct list_eq (all_request_ids E I r) ≡ true
    pub drained : IsDrained E r.cancellation_probe
    pub queries : IsUnused (codes "vllm:prefix_cache_queries_total")
    pub hits : IsUnused (codes "vllm:prefix_cache_hits_total")
    pub no_jit : r.post_warmup_jit_event_hashes ≡ []
    pub ordered : IsOrdered
    pub no_processes : r.residual_process_ids ≡ []
    pub no_requests : r.residual_active_request_ids ≡ []

  components_effect :
      check_components E I r ≡ none
      → (validate_runtime_phases r.phases ≡ ok tt)
        × (validate_process_sequence r.process_records ≡ ok tt)
        × (validate_gpu_memory_stability (to_list r.gpu_memory_samples)
            ≡ ok r.gpu_memory_tolerance_bytes)
  unfolding check_components
  components_effect h =
      let (phases, rest) = and_then_cases _ _ h in
      let (processes, memory) = and_then_cases _ _ rest in
      (
        raised_as-none _ (validate_runtime_phases r.phases) phases,
        raised_as-none _ (validate_process_sequence r.process_records) processes,
        elim (Result-cases (validate_gpu_memory_stability (to_list r.gpu_memory_samples))) [
          | inr (x, e) ↦ ground (arith, memory, e)
          | inl (t, e) ↦
              let same : r.gpu_memory_tolerance_bytes ≡ t = ground (arith, memory, e) in
              rw (same, e) refl
        ],
      )

  requests_effect : check_requests E I r ≡ none → distinct list_eq (all_request_ids E I r) ≡ true
  unfolding check_requests
  requests_effect h = ground (arith, h)

  result_eq_accepted :
      (a b : CancellationResult F) → result_eq F a b ≡ true → b.accepted ≡ true → a.accepted ≡ true
  unfolding result_eq
  result_eq_accepted a b h e = ground (arith, h, e)

  cancellation_effect :
      check_cancellation E I r ≡ none
      → (evaluate_cancellation E r.cancellation_probe).accepted ≡ true
  unfolding check_cancellation check_result check_accepted
  cancellation_effect h =
      let (same, rest) = and_then_cases (check_result E I r) _ h in
      let (_, accepted) = and_then_cases (check_server E I r) (check_accepted E I r) rest in
      result_eq_accepted (evaluate_cancellation E r.cancellation_probe) r.cancellation_result
        (ground (arith, same)) (ground (arith, accepted))

  unused :
      (name : Text) (d : CounterDelta F)
      → derive_counter_delta F (first_steady E I r) (last_steady E I r) name none ≡ ok d
      → F.equal d.delta (F.of_nat 0) ≡ true
      → IsUnused name
  unused name d e zero_delta = record {
    delta = d;
    derived = derive_counter_delta-IsDelta F (first_steady E I r) (last_steady E I r) name none d e;
    zero_delta = zero_delta;
  }

  cache_effect :
      (q h : CounterDelta F)
      → check_cache E I r q h ≡ none
      → (F.equal q.delta (F.of_nat 0) ≡ true) × (F.equal h.delta (F.of_nat 0) ≡ true)
  unfolding check_cache
  cache_effect q h e = ground (arith, e)

  cache_deltas_effect :
      check_cache_deltas E I r ≡ none
      → IsUnused (codes "vllm:prefix_cache_queries_total")
        × IsUnused (codes "vllm:prefix_cache_hits_total")
  unfolding check_cache_deltas
  cache_deltas_effect h =
      elim (Result-cases (
        derive_counter_delta F (first_steady E I r) (last_steady E I r)
          (codes "vllm:prefix_cache_queries_total") none)) [
            | inr (x, e) ↦ ground (arith, h, e)
            | inl (q, e) ↦
                elim (Result-cases (
                  derive_counter_delta F (first_steady E I r) (last_steady E I r)
                    (codes "vllm:prefix_cache_hits_total") none)) [
                      | inr (x, f) ↦ ground (arith, h, e, f)
                      | inl (d, f) ↦
                          let (queries, hits) = cache_effect q d (ground (arith, h, e, f)) in
                          (
                            unused (codes "vllm:prefix_cache_queries_total") q e queries,
                            unused (codes "vllm:prefix_cache_hits_total") d f hits,
                          )
                    ]
          ]

  compilation_effect : check_compilation E I r ≡ none → r.post_warmup_jit_event_hashes ≡ []
  unfolding check_compilation
  compilation_effect h = empty_length r.post_warmup_jit_event_hashes (raise_when-none _ _ h)

  windows_effect :
      check_steady_window E I r ≡ none
      → ((last_steady E I r).scrape_monotonic_offset_ns ≤ r.quiet_interval_start_offset_ns)
        × (r.quiet_interval_start_offset_ns + 2_000_000_000 ≤ r.quiet_interval_end_offset_ns)
  unfolding check_steady_window
  windows_effect h =
      let (phase, _, passed) = with_item-none _ r.phases _ h in ground (arith, passed)

  gates_effect :
      (m c : RuntimePhaseRecord)
      → check_gates E I r m c ≡ none
      → (c.ended_offset_ns ≤ m.started_offset_ns)
        × (r.quiet_interval_end_offset_ns ≤ m.started_offset_ns)
        × (r.cancellation_probe.residual_state.observation_offset_ns ≤ c.ended_offset_ns)
  unfolding check_gates
  gates_effect m c h = ground (arith, h)

  residual_effect :
      check_nothing_left E I r ≡ none
      → (r.residual_process_ids ≡ []) × (r.residual_active_request_ids ≡ [])
  unfolding check_nothing_left
  residual_effect h =
      let none_left = raise_when-none _ _ h in
      (
        empty_length r.residual_process_ids (ground (arith, none_left)),
        empty_length r.residual_active_request_ids (ground (arith, none_left)),
      )

  -- The checks that the theorem needs.
  validate_effect :
      validate_runtime_control E I r ≡ none
      → (check_components E I r ≡ none)
        × (check_requests E I r ≡ none)
        × (check_cancellation E I r ≡ none)
        × (check_cache_deltas E I r ≡ none)
        × (check_compilation E I r ≡ none)
        × (check_steady_window E I r ≡ none)
        × (in_phase measured_window r.phases
              (λ m. in_phase cancellation_probe_drain r.phases (λ c. check_gates E I r m c))
            ≡ none)
        × (check_nothing_left E I r ≡ none)
  unfolding validate_runtime_control check_steady check_windows check_shutdown
  validate_effect h = ground (arith, h)

  ordered_of :
      check_steady_window E I r ≡ none
      → in_phase measured_window r.phases
          (λ m. in_phase cancellation_probe_drain r.phases (λ c. check_gates E I r m c))
        ≡ none
      → IsOrdered
  ordered_of steady gates =
      let (measured, measured_at, inner) =
        with_item-none (ordinal measured_window) r.phases
          (λ m. in_phase cancellation_probe_drain r.phases (λ c. check_gates E I r m c)) gates in
      let (cancelled, cancellation_at, passed) =
        with_item-none (ordinal cancellation_probe_drain) r.phases (check_gates E I r measured)
          inner in
      let (before, quiet, over) = gates_effect measured cancelled passed in
      let (after_steady, long) = windows_effect steady in
      record {
        cancellation_phase = cancelled;
        measured_phase = measured;
        cancellation_at = cancellation_at;
        measured_at = measured_at;
        probe_over = over;
        cancelled_before = before;
        steady_before = after_steady;
        quiet_for = long;
        quiet_before = quiet;
      }

  -- Evidence that the validator accepts, each phase a valid interval, is of a controlled repetition:
  -- a clean run of the phases, the processes in their sequence, GPU memory stable within the recorded
  -- tolerance, request ids that are all distinct, a probe that was cancelled and drained, both cache
  -- counters derived from the steady samples as unmoved, no compilation after the warmup, the probe
  -- and a quiet interval of two seconds over before the measured window, and nothing left over.
  pub validate_runtime_control-IsControlled :
      all is_interval r.phases ≡ true → validate_runtime_control E I r ≡ none → IsControlled
  validate_runtime_control-IsControlled intervals h =
      let (components, requests, cancellation, cache, jit, steady, gates, left) =
        validate_effect h in
      let (phases, processes, memory) = components_effect components in
      let (queries, hits) = cache_deltas_effect cache in
      let (no_processes, no_requests) = residual_effect left in
      record {
        clean = validate_runtime_phases-IsCleanRun r.phases intervals phases;
        sequence = processes;
        stable =
            validate_gpu_memory_stability-IsStable (to_list r.gpu_memory_samples)
              r.gpu_memory_tolerance_bytes memory;
        disjoint = requests_effect requests;
        drained =
            evaluate_cancellation-IsDrained E r.cancellation_probe
              (cancellation_effect cancellation);
        queries = queries;
        hits = hits;
        no_jit = compilation_effect jit;
        ordered = ordered_of steady gates;
        no_processes = no_processes;
        no_requests = no_requests;
      }
