-- ===== src/Cancellation/Contract.antt =====
-- src/llm_inference_systems/stage2_control.py: CancellationResult.validate_result.
pub mod Passes
use llm_inference_systems.Prelude.{
  Bool, true, false, ◌&&◌, ◌||◌, not, Option, none, some, map, ◌==◌, if◌then◌else◌, is_some, codes,
  length, all, list_eq, texts_eq,
}
use llm_inference_systems.Sse.Codec.{Text}
use llm_inference_systems.Stage2.Prometheus.{
  Floats, Snapshot, CounterDelta, derive_counter_delta, success_name,
}
use llm_inference_systems.Stage2.Prometheus.Deltas.{IsDelta, derive_counter_delta-IsDelta}
use llm_inference_systems.Cancellation.{
  CancellationClassification, is_drained, CancellationProbe, CancellationResult, to_list, last_of,
}
use llm_inference_systems.Cancellation.Progression.{
  prompt_name, generation_name, auxiliary_names, finish_reasons, other_reasons, reason_deltas,
  auxiliary_deltas, observed, is_number, only_an_abort,
}
use llm_inference_systems.Cancellation.Checks.{
  Environment, Check, ◌then◌, fail_if, invalid_cancellation, check_ids,
}
use llm_inference_systems.Cancellation.Verdict.{
  Deltas, derive_deltas, check_deltas, check_residual, accepted_result, conclude, checks, unless,
  evaluate_cancellation,
}

module _ (F : Floats) where
  abbrev pub equal_numbers : Option F.number → Option F.number → Bool
  equal_numbers none none = true
  equal_numbers (some x) (some y) = F.equal x y
  equal_numbers _ _ = false

  -- The last test of a success.
  unfoldable pub counters_match : CounterDelta F → CounterDelta F → CancellationResult F → Bool
  counters_match prompt generation r =
      list_eq prompt.metric prompt_name
      && (F.equal prompt.delta (F.of_nat 64)
          && (list_eq generation.metric generation_name
              && (not (F.less generation.delta (F.of_nat 1))
                  && (equal_numbers (observed F (codes "abort") r.finished_reason_deltas)
                        r.observed_abort_delta
                      && (all (λ reason. is_number F (observed F reason r.finished_reason_deltas) 0)
                            other_reasons
                          && (texts_eq (map (λ d. d.metric) r.auxiliary_counter_deltas)
                                auxiliary_names
                              && all (λ d. F.equal d.delta (F.of_nat 0))
                                  r.auxiliary_counter_deltas))))))

  abbrev pub abort_is_0_or_1 : Option F.number → Bool
  abort_is_0_or_1 none = true
  abort_is_0_or_1 (some x) = F.equal x (F.of_nat 0) || F.equal x (F.of_nat 1)

  unfoldable pub success_is_valid :
      CancellationResult F → Option (CounterDelta F) → Option (CounterDelta F) → Bool
  success_is_valid r (some prompt) (some generation) =
      length r.finished_reason_deltas == 5
      && (length r.auxiliary_counter_deltas == 3
          && (is_some r.observed_abort_delta
              && (abort_is_0_or_1 r.observed_abort_delta && counters_match prompt generation r)))
  success_is_valid r _ _ = false

  -- `validate_result`
  unfoldable pub result_is_valid : CancellationResult F → Bool
  result_is_valid r =
      let success = is_drained r.classification in
      if not (if success then r.accepted else not r.accepted)
      then false
      else if success
      then success_is_valid r r.prompt_token_delta r.generation_token_delta
      else abort_is_0_or_1 r.observed_abort_delta
        && (not (is_some r.prompt_token_delta)
            && (not (is_some r.generation_token_delta)
                && (not (is_some r.observed_abort_delta)
                    && (length r.finished_reason_deltas == 0
                        && length r.auxiliary_counter_deltas == 0))))
