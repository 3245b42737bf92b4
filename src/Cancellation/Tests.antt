-- ===== src/Cancellation/Tests.antt =====
-- src/llm_inference_systems/stage2_control.py: the sample probe is accepted.
use llm_inference_systems.Prelude.{◌≡◌, refl, ap, ◌∙◌, true, none, ==_refl}
use llm_inference_systems.Stage2.Chain.{remove_prefix, chain_is_valid, has_hex_suffix}
use llm_inference_systems.Stage2.Prometheus.{
  delta_is_valid, require_quiescent, snapshot_eq, subtract, select_exact_series,
  derive_counter_delta, derive_counter_delta, subtract, select_exact_series,
}
use llm_inference_systems.Cancellation.Progression.{
  counter_progression, reason_deltas, auxiliary_deltas, observed, only_an_abort,
  all_selected_counters_stable, progresses, unchanged,
}
use llm_inference_systems.RequestLogs.{
  correlate_request_logs, matching, only_added, search_added, finish, all_generic_ids,
  generic_ids_from, build_chain,
}
use llm_inference_systems.Cancellation.Checks.{
  check_ids, check_correlation, chain_eq, check_chronology, check_snapshots, check_observations,
  check_baseline, check_quiescent, check_windows, drain_differs, stable_differs, cooldown_differs,
  later_differs,
}
use llm_inference_systems.Cancellation.Verdict.{
  evaluate_cancellation, check_progression, check_retained_reasons, check_stability, checks,
  conclude, derive_deltas, check_deltas, check_residual,
}
use llm_inference_systems.Cancellation.Contract.{result_is_valid}
use llm_inference_systems.Cancellation.Contract.Passes.{
  evaluate_cancellation-valid, evaluate_cancellation-conclude,
}
use llm_inference_systems.Cancellation.Accepted.Drained.{IsDrained, evaluate_cancellation-IsDrained}
use llm_inference_systems.Cancellation.Sample.{
  whole, environment, probe_closed_at, aborted_outside, aborted_inside,
}

progression_run : check_progression environment (probe_closed_at 11_150_000_000) ≡ none
unfolding check_progression counter_progression all_selected_counters_stable progresses unchanged
    derive_counter_delta subtract delta_is_valid select_exact_series
progression_run = refl

ids_run : check_ids environment (probe_closed_at 11_150_000_000) ≡ none
unfolding check_ids
ids_run = refl

correlation_run : check_correlation environment (probe_closed_at 11_150_000_000) ≡ none
unfolding check_correlation chain_eq correlate_request_logs matching only_added search_added
    remove_prefix finish all_generic_ids generic_ids_from build_chain chain_is_valid has_hex_suffix
correlation_run = refl

chronology_run :
    check_chronology environment (probe_closed_at 11_150_000_000) aborted_outside aborted_inside
    ≡ none
unfolding check_chronology
chronology_run = refl

snapshots_run : check_snapshots environment (probe_closed_at 11_150_000_000) ≡ none
unfolding check_snapshots
snapshots_run = refl

observations_run : check_observations environment (probe_closed_at 11_150_000_000) ≡ none
unfolding check_observations
observations_run = refl

baseline_run : check_baseline environment (probe_closed_at 11_150_000_000) ≡ none
unfolding check_baseline
baseline_run = refl

quiescent_run : check_quiescent environment (probe_closed_at 11_150_000_000) ≡ none
unfolding check_quiescent require_quiescent select_exact_series
quiescent_run = refl

windows_run : check_windows environment (probe_closed_at 11_150_000_000) aborted_outside ≡ none
unfolding check_windows drain_differs stable_differs cooldown_differs later_differs snapshot_eq
windows_run = refl

retained_run : check_retained_reasons environment (probe_closed_at 11_150_000_000) ≡ none
unfolding check_retained_reasons reason_deltas only_an_abort derive_counter_delta subtract
    delta_is_valid select_exact_series
retained_run = refl

stability_run : check_stability environment (probe_closed_at 11_150_000_000) ≡ none
unfolding check_stability all_selected_counters_stable unchanged derive_counter_delta subtract
    delta_is_valid select_exact_series
stability_run = refl

checks_run :
    checks environment (probe_closed_at 11_150_000_000) aborted_outside aborted_inside ≡ none
unfolding checks
checks_run =
    rw
      (
        correlation_run, chronology_run, snapshots_run, observations_run, baseline_run,
        quiescent_run, windows_run, progression_run, retained_run, stability_run,
      )
      refl

concluded_run : (conclude environment (probe_closed_at 11_150_000_000)).accepted ≡ true
unfolding conclude derive_deltas reason_deltas auxiliary_deltas check_deltas check_residual
    only_an_abort observed derive_counter_delta subtract delta_is_valid select_exact_series
concluded_run = refl

pub accepted_run :
    (evaluate_cancellation environment (probe_closed_at 11_150_000_000)).accepted ≡ true
accepted_run =
    ap (λ r. r.accepted)
      (evaluate_cancellation-conclude environment (probe_closed_at 11_150_000_000) aborted_outside
        aborted_inside ids_run refl refl checks_run)
    ∙ concluded_run

evaluate_cancellation-IsDrained_example : IsDrained environment (probe_closed_at 11_150_000_000)
evaluate_cancellation-IsDrained_example =
    evaluate_cancellation-IsDrained environment (probe_closed_at 11_150_000_000) accepted_run

evaluate_cancellation-valid_example :
    result_is_valid whole (evaluate_cancellation environment (probe_closed_at 11_150_000_000))
    ≡ true
evaluate_cancellation-valid_example =
    evaluate_cancellation-valid environment (probe_closed_at 11_150_000_000) (λ x y e. ==_refl x)
