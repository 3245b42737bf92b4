-- ===== src/Cancellation/Accepted.antt =====
-- src/llm_inference_systems/stage2_control.py: what each check has established of a probe
-- that it lets pass.
pub mod Counted
pub mod Drained
use llm_inference_systems.Prelude.{
  ℕ, ◌+◌, ◌*◌, ◌≤◌, ◌<◌, ◌≡◌, refl, ap, inl, inr, true, false, not, Option, none, some, List, [],
  ◌∷◌, arith, length, all, any, list_eq, list_eq-eq, Result-cases,
}
use llm_inference_systems.Sse.Codec.{Text}
use llm_inference_systems.Stage2.Chain.{RawLogRecord, RequestIdentityChain}
use llm_inference_systems.Stage2.Prometheus.{Floats, Snapshot, CounterDelta}
use llm_inference_systems.Stage2.Prometheus.Deltas.{IsDelta, derive_counter_delta-IsDelta}
use llm_inference_systems.RequestLogs.{correlate_request_logs}
use llm_inference_systems.RequestLogs.Sound.{IsCorrelated, correlate_request_logs-IsCorrelated}
use llm_inference_systems.Cancellation.{
  CancellationProbe, CancellationResult, to_list, last_of, last_from,
}
use llm_inference_systems.Cancellation.Progression.{
  prompt_name, generation_name, observed, only_an_abort, spaced_at_least, snapshot_offsets,
}
use llm_inference_systems.Cancellation.Checks.{
  Environment, Check, ◌then◌, fail_if, invalid_cancellation, record_eq, option_record_eq, chain_eq,
  check_correlation, check_chronology, check_snapshots, check_baseline, check_quiescent,
  check_windows, drain_differs, stable_differs, cooldown_differs, all_snapshots, is_quiescent,
}
use llm_inference_systems.Cancellation.Verdict.{
  Deltas, derive_deltas, check_deltas, check_residual, accepted_result, conclude, checks, unless,
  evaluate_cancellation,
}
use llm_inference_systems.Cancellation.Contract.Passes.{
  evaluate_cases, derive_deltas_effect, check_deltas_effect,
}

record_eq-eq : (a b : RawLogRecord) → record_eq a b ≡ true → a ≡ b
record_eq-eq a b h =
    let source = list_eq-eq a.source_stream_id b.source_stream_id (ground (arith, h)) in
    let text = list_eq-eq a.raw_record b.raw_record (ground (arith, h)) in
    let hash = list_eq-eq a.raw_record_sha256 b.raw_record_sha256 (ground (arith, h)) in
    ground (arith, h, source, text, hash)

option_record_eq-eq : (a b : Option RawLogRecord) → option_record_eq a b ≡ true → a ≡ b
option_record_eq-eq none none h = refl
option_record_eq-eq (some a) (some b) h = ap (λ r. some r) (record_eq-eq a b h)
option_record_eq-eq none (some b) h = ground arith
option_record_eq-eq (some a) none h = ground arith

chain_eq-eq : (a b : RequestIdentityChain) → chain_eq a b ≡ true → a ≡ b
unfolding chain_eq
chain_eq-eq a b h =
    let base = list_eq-eq a.external_base_id b.external_base_id (ground (arith, h)) in
    let body = list_eq-eq a.response_body_id b.response_body_id (ground (arith, h)) in
    let item = list_eq-eq a.serving_item_id b.serving_item_id (ground (arith, h)) in
    let engine = list_eq-eq a.internal_engine_id b.internal_engine_id (ground (arith, h)) in
    let got = record_eq-eq a.request_received_log b.request_received_log (ground (arith, h)) in
    let added = record_eq-eq a.request_add_log b.request_add_log (ground (arith, h)) in
    let ext = option_record_eq-eq a.external_abort_log b.external_abort_log (ground (arith, h)) in
    let int = option_record_eq-eq a.internal_abort_log b.internal_abort_log (ground (arith, h)) in
    ground (arith, base, body, item, engine, got, added, ext, int)

-- Offsets that are spaced by at least `s` span `s` times the number of steps.
pub spaced_span :
    (s : ℕ) (x : ℕ) (xs : List ℕ)
    → spaced_at_least s (x ∷ xs) ≡ true
    → x + s * length xs ≤ last_from x xs
spaced_span s x [] h = omega arith
spaced_span s x (y ∷ ys) h =
    let step : x + s ≤ y = ground (arith, h) in
    let rest = spaced_span s y ys (ground (arith, h)) in ground (arith, step, rest)

module _ {F : Floats} (E : Environment F) (probe : CancellationProbe F) where
  pub correlation_effect :
      check_correlation E probe ≡ none
      → IsCorrelated E.is_word probe.identity_chain.external_base_id probe.raw_log_capture.records
          true probe.identity_chain
  unfolding check_correlation
  correlation_effect e =
      let base = probe.identity_chain.external_base_id in
      elim (Result-cases
        (correlate_request_logs E.is_word base probe.raw_log_capture.records true)) [
          | inr (x, r) ↦ ground (arith, e, r)
          | inl (c, r) ↦
              let same = chain_eq-eq c probe.identity_chain (ground (arith, e, r)) in
              correlate_request_logs-IsCorrelated E.is_word base probe.raw_log_capture.records true
                probe.identity_chain (rw same at r)
        ]

  pub chronology_effect :
      (external_abort internal_abort : RawLogRecord)
      → check_chronology E probe external_abort internal_abort ≡ none
      → (probe.dispatch_offset_ns < probe.first_generation_delivery.observation_offset_ns)
        × (probe.first_generation_delivery.observation_offset_ns ≤ probe.client_close_offset_ns)
        × (probe.client_close_offset_ns ≤ internal_abort.observation_offset_ns)
        × (internal_abort.observation_offset_ns ≤ external_abort.observation_offset_ns)
  unfolding check_chronology
  chronology_effect a b e = ground (arith, e)

  pub snapshots_effect :
      check_snapshots E probe ≡ none
      → (length (to_list probe.drain_snapshots) ≡ 10)
        × (any
              (λ s. not (list_eq s.process_start_id probe.server_process_identity))
              (all_snapshots E probe)
            ≡ false)
  unfolding check_snapshots
  snapshots_effect e = ground (arith, e)

  pub baseline_effect :
      check_baseline E probe ≡ none
      → (last_of probe.pre_dispatch_snapshots).scrape_monotonic_offset_ns < probe.dispatch_offset_ns
  unfolding check_baseline
  baseline_effect e = ground (arith, e)

  pub quiescent_effect :
      check_quiescent E probe ≡ none → all (is_quiescent E probe) (all_snapshots E probe) ≡ true
  unfolding check_quiescent
  quiescent_effect e = ground (arith, e)

  pub windows_effect :
      (external_abort : RawLogRecord)
      → check_windows E probe external_abort ≡ none
      → (drain_differs E probe external_abort ≡ false)
        × (stable_differs E probe ≡ false)
        × (cooldown_differs E probe external_abort ≡ false)
  unfolding check_windows
  windows_effect a e = ground (arith, e)

  pub drain_effect :
      (external_abort : RawLogRecord)
      → drain_differs E probe external_abort ≡ false
      → (probe.client_close_offset_ns ≤ probe.drain_snapshots.first.scrape_monotonic_offset_ns)
        × (external_abort.observation_offset_ns
            ≤ probe.drain_snapshots.first.scrape_monotonic_offset_ns)
        × (spaced_at_least 100_000_000 (snapshot_offsets F (to_list probe.drain_snapshots)) ≡ true)
  unfolding drain_differs
  drain_effect a e = ground (arith, e)

  pub stable_effect :
      stable_differs E probe ≡ false
      → ((last_of probe.drain_snapshots).scrape_monotonic_offset_ns
          ≡ probe.stable_generation_snapshots.first.scrape_monotonic_offset_ns)
        × (probe.stable_generation_snapshots.first.scrape_monotonic_offset_ns + 1_000_000_000
            ≤ (last_of probe.stable_generation_snapshots).scrape_monotonic_offset_ns)
  unfolding stable_differs
  stable_effect e = ground (arith, e)

  pub cooldown_effect :
      (external_abort : RawLogRecord)
      → cooldown_differs E probe external_abort ≡ false
      → ((last_of probe.stable_generation_snapshots).scrape_monotonic_offset_ns
          ≡ probe.cooldown_snapshots.first.scrape_monotonic_offset_ns)
        × (probe.cooldown_snapshots.first.scrape_monotonic_offset_ns + 2_000_000_000
            ≤ (last_of probe.cooldown_snapshots).scrape_monotonic_offset_ns)
        × ((last_of probe.cooldown_snapshots).scrape_monotonic_offset_ns
            ≤ probe.client_close_offset_ns + 10_000_000_000)
  unfolding cooldown_differs
  cooldown_effect a e = ground (arith, e)

  pub residual_effect :
      check_residual E probe ≡ none
      → (probe.residual_state.active_request_ids ≡ [])
        × (probe.residual_state.project_process_ids ≡ [])
  unfolding check_residual
  residual_effect e = (ground (arith, e), ground (arith, e))
