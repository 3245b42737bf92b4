-- ===== src/Cancellation/Verdict.antt =====
-- src/llm_inference_systems/stage2_control.py: the counters of evaluate_cancellation, and its whole.
use llm_inference_systems.Prelude.{
  Bool, true, false, ◌||◌, not, Option, none, some, List, ◌∷◌, ◌++◌, ltb, ◌==◌, if◌then◌else◌,
  codes, length, all, any, list_eq, Result, ok, err,
}
use llm_inference_systems.Sse.Codec.{Text}
use llm_inference_systems.Stage2.Chain.{RawLogRecord}
use llm_inference_systems.Stage2.Prometheus.{
  Floats, Snapshot, CounterDelta, PrometheusError, derive_counter_delta,
}
use llm_inference_systems.Cancellation.{
  server_abort_acknowledged_and_drained, unknown_acknowledgement, later_completion,
  residual_work_timeout, to_list, last_of, last_from, CancellationProbe, CancellationResult,
}
use llm_inference_systems.Cancellation.Progression.{
  prompt_name, generation_name, auxiliary_names, finish_reasons, generation_value,
  counter_progression, all_selected_counters_stable, reason_deltas, auxiliary_deltas, observed,
  only_an_abort,
}
use llm_inference_systems.Cancellation.Checks.{
  Environment, Check, ◌then◌, fail_if, invalid_cancellation, check_ids, check_correlation,
  check_chronology, check_snapshots, check_observations, check_baseline, check_quiescent,
  check_windows,
}

-- The deltas of a probe that was drained.
pub record Deltas (F : Floats) : Type 0 where
  pub prompt : CounterDelta F
  pub generation : CounterDelta F
  pub reasons : List (CounterDelta F)
  pub auxiliary : List (CounterDelta F)

module _ (F : Floats) where
  -- {reason: delta}: the deltas by the reasons that they were derived for.
  abbrev pub keyed : List Text → List (CounterDelta F) → Text → Option F.number
  keyed (r ∷ reasons) (d ∷ deltas) reason =
      let later = keyed reasons deltas reason in if list_eq r reason then some d.delta else later
  keyed _ _ reason = none

  -- The four derivations from the baseline to the last cooldown snapshot. The handler does not catch the
  -- error of a delta's own validator, which does not arise of samples that are finite and nonnegative.
  unfoldable pub derive_deltas : Snapshot F → Snapshot F → Result PrometheusError (Deltas F)
  derive_deltas baseline final = elim (derive_counter_delta F baseline final prompt_name none) [
    | err e ↦ err e
    | ok prompt ↦ elim (derive_counter_delta F baseline final generation_name none) [
      | err e ↦ err e
      | ok generation ↦ elim (reason_deltas F baseline final finish_reasons) [
        | err e ↦ err e
        | ok reasons ↦ elim (auxiliary_deltas F baseline final auxiliary_names) [
          | err e ↦ err e
          | ok auxiliary ↦ ok (record {
            prompt = prompt;
            generation = generation;
            reasons = reasons;
            auxiliary = auxiliary;
          })
        ]
      ]
    ]
  ]

  -- Every value is the first one.
  abbrev same_value : F.number → Snapshot F → Bool
  same_value value s = elim (generation_value F s) [ err e ↦ false | ok v ↦ F.equal v value ]

  unfoldable pub check_deltas : Deltas F → Check
  check_deltas d =
      fail_if (not (only_an_abort F (λ reason. observed F reason d.reasons))) later_completion
      then fail_if
          (not (F.equal d.prompt.delta (F.of_nat 64))
            || (F.less d.generation.delta (F.of_nat 1)
                || any (λ a. not (F.equal a.delta (F.of_nat 0))) d.auxiliary))
          residual_work_timeout

module _ {F : Floats} (E : Environment F) (probe : CancellationProbe F) where
  abbrev stable_and_later : List (Snapshot F)
  stable_and_later =
      to_list probe.stable_generation_snapshots
      ++ (probe.cooldown_snapshots.rest ++ probe.later_retained_snapshots)

  abbrev chronological : List (Snapshot F)
  chronological =
      to_list probe.pre_dispatch_snapshots
      ++ (to_list probe.drain_snapshots
          ++ (probe.stable_generation_snapshots.rest
              ++ (probe.cooldown_snapshots.rest ++ probe.later_retained_snapshots)))

  -- later_retained_snapshots[-1], or cooldown[-1] where there is none.
  abbrev pub last_retained : Snapshot F
  last_retained = last_from (last_of probe.cooldown_snapshots) probe.later_retained_snapshots

  unfoldable pub check_progression : Check
  check_progression =
      fail_if
        (not (counter_progression F chronological)
          || not (all_selected_counters_stable F (to_list probe.pre_dispatch_snapshots)))
        residual_work_timeout

  unfoldable pub check_retained_reasons : Check
  check_retained_reasons =
      elim (reason_deltas F (last_of probe.pre_dispatch_snapshots) last_retained finish_reasons) [
        | err e ↦ some residual_work_timeout
        | ok deltas ↦
            fail_if (not (only_an_abort F (keyed F finish_reasons deltas))) later_completion
      ]

  unfoldable pub check_stability : Check
  check_stability =
      fail_if (not (all_selected_counters_stable F stable_and_later)) residual_work_timeout
      then elim (generation_value F probe.stable_generation_snapshots.first) [
        | err e ↦ some residual_work_timeout
        | ok value ↦
            fail_if
              (not (
                all (same_value F value) (
                  to_list probe.stable_generation_snapshots
                  ++ (to_list probe.cooldown_snapshots ++ probe.later_retained_snapshots))))
              residual_work_timeout
      ]

  unfoldable pub check_residual : Check
  check_residual =
      let residual = probe.residual_state in
      fail_if
        (not (
            list_eq residual.raw_process_inventory_sha256
              (E.sha256_text residual.raw_process_inventory))
          || (ltb residual.observation_offset_ns last_retained.scrape_monotonic_offset_ns
              || (not (length residual.active_request_ids == 0)
                  || not (length residual.project_process_ids == 0))))
        residual_work_timeout

  abbrev pub accepted_result : Deltas F → CancellationResult F
  accepted_result d = record {
    classification = server_abort_acknowledged_and_drained;
    accepted = true;
    evidence_identity_sha256 = E.probe_identity probe;
    prompt_token_delta = some d.prompt;
    generation_token_delta = some d.generation;
    finished_reason_deltas = d.reasons;
    auxiliary_counter_deltas = d.auxiliary;
    observed_abort_delta = observed F (codes "abort") d.reasons;
  }

  abbrev pub unless : Check → CancellationResult F → CancellationResult F
  unless none accepted = accepted
  unless (some c) accepted = invalid_cancellation E probe c

  -- From the deltas on.
  unfoldable pub conclude : CancellationResult F
  conclude =
      elim (derive_deltas F (last_of probe.pre_dispatch_snapshots)
        (last_of probe.cooldown_snapshots)) [
          | err e ↦ invalid_cancellation E probe residual_work_timeout
          | ok d ↦ unless (check_deltas F d then check_residual) (accepted_result d)
        ]

  -- From the chain's two abort logs on.
  unfoldable pub checks : RawLogRecord → RawLogRecord → Check
  checks external_abort internal_abort =
      check_correlation E probe
      then check_chronology E probe external_abort internal_abort
      then check_snapshots E probe
      then check_observations E probe
      then check_baseline E probe
      then check_quiescent E probe
      then check_windows E probe external_abort
      then check_progression
      then check_retained_reasons
      then check_stability

  unfoldable pub evaluate_cancellation : CancellationResult F
  evaluate_cancellation = elim (check_ids E probe) [
    | some c ↦ invalid_cancellation E probe c
    | none ↦ elim probe.identity_chain.external_abort_log [
      | none ↦ invalid_cancellation E probe unknown_acknowledgement
      | some external_abort ↦ elim probe.identity_chain.internal_abort_log [
        | none ↦ invalid_cancellation E probe unknown_acknowledgement
        | some internal_abort ↦ unless (checks external_abort internal_abort) conclude
      ]
    ]
  ]
