-- ===== src/Cancellation/Contract/Passes.antt =====
-- src/llm_inference_systems/stage2_control.py: every result of evaluate_cancellation passes
-- CancellationResult.validate_result.
use llm_inference_systems.Prelude.{
  suc, ◌≡◌, refl, sym, ap, ◌⊎◌, inl, inr, Bool, true, false, ◌||◌, not, Option, none, some, List,
  [], ◌∷◌, map, arith, if◌then◌else◌, is_some, Bool-cases, Option-cases, codes, length, all, any,
  list_eq, list_eq_refl, ok, Result-cases, texts_eq, any-all,
}
use llm_inference_systems.Sse.Codec.{Text}
use llm_inference_systems.Stage2.Chain.{RawLogRecord}
use llm_inference_systems.Stage2.Prometheus.{
  Floats, Snapshot, CounterDelta, derive_counter_delta, success_name,
}
use llm_inference_systems.Stage2.Prometheus.Deltas.{derive_counter_delta-IsDelta}
use llm_inference_systems.Cancellation.{
  CancellationClassification, is_drained, CancellationProbe, CancellationResult, last_of,
  residual_work_timeout, unknown_acknowledgement,
}
use llm_inference_systems.Cancellation.Progression.{
  prompt_name, generation_name, auxiliary_names, finish_reasons, other_reasons, reason_deltas,
  auxiliary_deltas, observed, is_number, only_an_abort,
}
use llm_inference_systems.Cancellation.Checks.{
  Environment, Check, ◌then◌, invalid_cancellation, check_ids, check_baseline, check_chronology,
  check_correlation, check_observations, check_quiescent, check_snapshots, check_windows,
}
use llm_inference_systems.Cancellation.Verdict.{
  Deltas, derive_deltas, check_deltas, check_residual, accepted_result, conclude, checks, unless,
  evaluate_cancellation, check_progression, check_retained_reasons, check_stability,
}
use llm_inference_systems.Cancellation.Contract.{
  equal_numbers, counters_match, abort_is_0_or_1, success_is_valid, result_is_valid,
}

module _ {F : Floats} (E : Environment F) (probe : CancellationProbe F) where
  invalid-valid :
      (c : CancellationClassification)
      → is_drained c ≡ false
      → result_is_valid F (invalid_cancellation E probe c) ≡ true
  unfolding result_is_valid
  invalid-valid c h = ground (arith, h)

  -- The names of the metrics of derived deltas.
  metric_of :
      (before after : Snapshot F) (name : Text) (reason : Option Text) (d : CounterDelta F)
      → derive_counter_delta F before after name reason ≡ ok d
      → d.metric ≡ name
  metric_of before after name reason d e =
      ap (λ x. x.metric) (derive_counter_delta-IsDelta F before after name reason d e).result

  pub derive_deltas_effect :
      (baseline final : Snapshot F) (d : Deltas F)
      → derive_deltas F baseline final ≡ ok d
      → (derive_counter_delta F baseline final prompt_name none ≡ ok d.prompt)
        × (derive_counter_delta F baseline final generation_name none ≡ ok d.generation)
        × (reason_deltas F baseline final finish_reasons ≡ ok d.reasons)
        × (auxiliary_deltas F baseline final auxiliary_names ≡ ok d.auxiliary)
  unfolding derive_deltas
  derive_deltas_effect baseline final d e = ground (arith, e)

  pub check_deltas_effect :
      (d : Deltas F)
      → check_deltas F d ≡ none
      → (only_an_abort F (λ reason. observed F reason d.reasons) ≡ true)
        × (F.equal d.prompt.delta (F.of_nat 64) ≡ true)
        × (F.less d.generation.delta (F.of_nat 1) ≡ false)
        × (any (λ a. not (F.equal a.delta (F.of_nat 0))) d.auxiliary ≡ false)
  unfolding check_deltas
  check_deltas_effect d e = ground (arith, e)

  pub only_an_abort_effect :
      (f : Text → Option F.number)
      → only_an_abort F f ≡ true
      → ((is_number F (f (codes "abort")) 0 || is_number F (f (codes "abort")) 1) ≡ true)
        × (all (λ reason. is_number F (f reason) 0) other_reasons ≡ true)
  unfolding only_an_abort
  only_an_abort_effect f h = ground (arith, h)

  reason_deltas-length :
      (before after : Snapshot F) (reasons : List Text) (ds : List (CounterDelta F))
      → reason_deltas F before after reasons ≡ ok ds
      → length ds ≡ length reasons
  unfolding reason_deltas
  reason_deltas-length before after [] ds e = ground (arith, e)
  reason_deltas-length before after (reason ∷ reasons) ds e =
      elim (Result-cases (derive_counter_delta F before after success_name (some reason))) [
        | inr (x, r) ↦ ground (arith, e, r)
        | inl (d, r) ↦ elim (Result-cases (reason_deltas F before after reasons)) [
          | inr (y, q) ↦ ground (arith, e, r, q)
          | inl (rest, q) ↦
              ground (arith, e, r, q, reason_deltas-length before after reasons rest q)
        ]
      ]

  auxiliary_deltas-metrics :
      (before after : Snapshot F) (names : List Text) (ds : List (CounterDelta F))
      → auxiliary_deltas F before after names ≡ ok ds
      → map (λ d. d.metric) ds ≡ names
  unfolding auxiliary_deltas
  auxiliary_deltas-metrics before after [] ds e = ground (arith, e)
  auxiliary_deltas-metrics before after (name ∷ names) ds e =
      elim (Result-cases (derive_counter_delta F before after name none)) [
        | inr (x, r) ↦ ground (arith, e, r)
        | inl (d, r) ↦ elim (Result-cases (auxiliary_deltas F before after names)) [
          | inr (y, q) ↦ ground (arith, e, r, q)
          | inl (rest, q) ↦
              let whole : d ∷ rest ≡ ds = ground (arith, e, r, q) in
              let tail = auxiliary_deltas-metrics before after names rest q in
              let head = metric_of before after name none d r in
              rw (sym whole) (rw (head, tail) refl)
        ]
      ]

  texts_eq_refl : (xs : List Text) → texts_eq xs xs ≡ true
  texts_eq_refl [] = refl
  texts_eq_refl (x ∷ xs) = rw (list_eq_refl x) (texts_eq_refl xs)

  -- A number that equals another equals itself: only NaN does not.
  abbrev pub EqualLaw : Type 0
  EqualLaw = (x y : F.number) → F.equal x y ≡ true → F.equal x x ≡ true

  abort_parts :
      EqualLaw
      → (o : Option F.number) → (is_number F o 0 || is_number F o 1) ≡ true
      → (is_some o ≡ true) × (abort_is_0_or_1 F o ≡ true) × (equal_numbers F o o ≡ true)
  abort_parts law none h = ground arith
  abort_parts law (some x) h = elim (Bool-cases (F.equal x (F.of_nat 0))) [
    | inl e ↦ (refl, h, law x (F.of_nat 0) e)
    | inr e ↦ (refl, h, law x (F.of_nat 1) (ground (arith, e, h)))
  ]

  counters_parts :
      (prompt generation : CounterDelta F) (r : CancellationResult F)
      → list_eq prompt.metric prompt_name ≡ true
      → F.equal prompt.delta (F.of_nat 64) ≡ true
      → list_eq generation.metric generation_name ≡ true
      → F.less generation.delta (F.of_nat 1) ≡ false
      → equal_numbers F (observed F (codes "abort") r.finished_reason_deltas) r.observed_abort_delta
        ≡ true
      → all (λ reason. is_number F (observed F reason r.finished_reason_deltas) 0) other_reasons
        ≡ true
      → texts_eq (map (λ d. d.metric) r.auxiliary_counter_deltas) auxiliary_names ≡ true
      → all (λ d. F.equal d.delta (F.of_nat 0)) r.auxiliary_counter_deltas ≡ true
      → counters_match F prompt generation r ≡ true
  unfolding counters_match
  counters_parts prompt generation r h1 h2 h3 h4 h5 h6 h7 h8 =
      rw (h1, h2, h3, h4, h5, h6, h7, h8) refl

  success_parts :
      (d : Deltas F)
      → length d.reasons ≡ 5
      → length d.auxiliary ≡ 3
      → is_some (observed F (codes "abort") d.reasons) ≡ true
      → abort_is_0_or_1 F (observed F (codes "abort") d.reasons) ≡ true
      → counters_match F d.prompt d.generation (accepted_result E probe d) ≡ true
      → result_is_valid F (accepted_result E probe d) ≡ true
  unfolding result_is_valid success_is_valid
  success_parts d h1 h2 h3 h4 h5 = rw (h1, h2, h3, h4, h5) refl

  length_of_names :
      (ds : List (CounterDelta F)) (names : List Text)
      → map (λ d. d.metric) ds ≡ names
      → length ds ≡ length names
  length_of_names [] [] e = refl
  length_of_names [] (n ∷ names) e = ground (arith, e)
  length_of_names (d ∷ ds) [] e = ground (arith, e)
  length_of_names (d ∷ ds) (n ∷ names) e =
      ap (λ n. suc n) (length_of_names ds names (ground (arith, e)))

  accepted-valid :
      EqualLaw
      → (baseline final : Snapshot F) (d : Deltas F) → derive_deltas F baseline final ≡ ok d
      → check_deltas F d ≡ none
      → result_is_valid F (accepted_result E probe d) ≡ true
  accepted-valid law baseline final d derived passed =
      let (p, g, rs, aux) = derive_deltas_effect baseline final d derived in
      let (only, prompt_64, generated, unchanged) = check_deltas_effect d passed in
      let (abort, others) = only_an_abort_effect (λ reason. observed F reason d.reasons) only in
      let (present, in_range, itself) =
        abort_parts law (observed F (codes "abort") d.reasons) abort in
      let metrics = auxiliary_deltas-metrics baseline final auxiliary_names d.auxiliary aux in
      let prompt_metric = metric_of baseline final prompt_name none d.prompt p in
      let generation_metric = metric_of baseline final generation_name none d.generation g in
      success_parts d (reason_deltas-length baseline final finish_reasons d.reasons rs)
        (length_of_names d.auxiliary auxiliary_names metrics) present in_range
        (counters_parts d.prompt d.generation (accepted_result E probe d)
          (rw prompt_metric (list_eq_refl prompt_name)) prompt_64
          (rw generation_metric (list_eq_refl generation_name)) generated itself others
          (rw metrics (texts_eq_refl auxiliary_names))
          (any-all (λ a. F.equal a.delta (F.of_nat 0)) d.auxiliary unchanged))

  -- A check never gives the classification of a success.
  abbrev fails_only : Check → Bool
  fails_only none = true
  fails_only (some c) = not (is_drained c)

  fails_only-then :
      (a b : Check) → fails_only a ≡ true → fails_only b ≡ true → fails_only (a then b) ≡ true
  fails_only-then none b h k = k
  fails_only-then (some c) b h k = h

  ids_fail : fails_only (check_ids E probe) ≡ true
  unfolding check_ids
  ids_fail = ground arith

  correlation_fails : fails_only (check_correlation E probe) ≡ true
  unfolding check_correlation
  correlation_fails = ground arith

  chronology_fails : (a b : RawLogRecord) → fails_only (check_chronology E probe a b) ≡ true
  unfolding check_chronology
  chronology_fails a b = ground arith

  snapshots_fail : fails_only (check_snapshots E probe) ≡ true
  unfolding check_snapshots
  snapshots_fail = ground arith

  observations_fail : fails_only (check_observations E probe) ≡ true
  unfolding check_observations
  observations_fail = ground arith

  baseline_fails : fails_only (check_baseline E probe) ≡ true
  unfolding check_baseline
  baseline_fails = ground arith

  quiescent_fails : fails_only (check_quiescent E probe) ≡ true
  unfolding check_quiescent
  quiescent_fails = ground arith

  windows_fail : (a : RawLogRecord) → fails_only (check_windows E probe a) ≡ true
  unfolding check_windows
  windows_fail a = ground arith

  progression_fails : fails_only (check_progression E probe) ≡ true
  unfolding check_progression
  progression_fails = ground arith

  retained_fail : fails_only (check_retained_reasons E probe) ≡ true
  unfolding check_retained_reasons
  retained_fail = ground arith

  stability_fails : fails_only (check_stability E probe) ≡ true
  unfolding check_stability
  stability_fails = ground arith

  deltas_fail : (d : Deltas F) → fails_only (check_deltas F d) ≡ true
  unfolding check_deltas
  deltas_fail d = ground arith

  residual_fails : fails_only (check_residual E probe) ≡ true
  unfolding check_residual
  residual_fails = ground arith

  checks_fail : (a b : RawLogRecord) → fails_only (checks E probe a b) ≡ true
  unfolding checks
  checks_fail a b = ground (
    arith,
    correlation_fails,
    chronology_fails a b,
    snapshots_fail,
    observations_fail,
    baseline_fails,
    quiescent_fails,
    windows_fail a,
    progression_fails,
    retained_fail,
    stability_fails,
  )

  unless-valid :
      (c : Check) (r : CancellationResult F)
      → fails_only c ≡ true
      → (c ≡ none → result_is_valid F r ≡ true)
      → result_is_valid F (unless E probe c r) ≡ true
  unless-valid none r h k = k refl
  unless-valid (some c) r h k = invalid-valid c (ground (arith, h))

  conclude-valid : EqualLaw → result_is_valid F (conclude E probe) ≡ true
  unfolding conclude result_is_valid
  conclude-valid law =
      elim (Result-cases (
        derive_deltas F (last_of probe.pre_dispatch_snapshots)
          (last_of probe.cooldown_snapshots))) [
            | inr (x, e) ↦ rw (conclude, e) (invalid-valid residual_work_timeout refl)
            | inl (d, e) ↦
                let failed : fails_only (check_deltas F d then check_residual E probe) ≡ true =
                  fails_only-then (check_deltas F d) (check_residual E probe) (deltas_fail d)
                    residual_fails in
                rw (conclude, e)
                  (unless-valid (check_deltas F d then check_residual E probe)
                    (accepted_result E probe d) failed
                    (λ passed. accepted-valid law _ _ d e (ground (arith, passed))))
          ]

  -- A probe is refused before the checks, or has both abort logs and comes to them.
  pub evaluate_cases :
      ((c : CancellationClassification) × (is_drained c ≡ false)
        × (evaluate_cancellation E probe ≡ invalid_cancellation E probe c))
      ⊎ ((a : RawLogRecord) × (b : RawLogRecord) × (probe.identity_chain.external_abort_log
            ≡ some a)
          × (probe.identity_chain.internal_abort_log ≡ some b)
          × (evaluate_cancellation E probe
              ≡ unless E probe (checks E probe a b) (conclude E probe)))
  unfolding evaluate_cancellation
  evaluate_cases = elim (Option-cases (check_ids E probe)) [
    | inr (c, e) ↦ inl (c, ground (arith, ids_fail, e), ground (arith, e))
    | inl e ↦ elim (Option-cases probe.identity_chain.external_abort_log) [
      | inl n ↦ inl (unknown_acknowledgement, refl, ground (arith, e, n))
      | inr (a, x) ↦ elim (Option-cases probe.identity_chain.internal_abort_log) [
        | inl n ↦ inl (unknown_acknowledgement, refl, ground (arith, e, x, n))
        | inr (b, y) ↦ inr (a, b, x, y, ground (arith, e, x, y))
      ]
    ]
  ]

  -- A probe that passes every check is concluded from its counters.
  pub evaluate_cancellation-conclude :
      (a b : RawLogRecord)
      → check_ids E probe ≡ none
      → probe.identity_chain.external_abort_log ≡ some a
      → probe.identity_chain.internal_abort_log ≡ some b
      → checks E probe a b ≡ none
      → evaluate_cancellation E probe ≡ conclude E probe
  unfolding evaluate_cancellation
  evaluate_cancellation-conclude a b e x y passed = ground (arith, e, x, y, passed)

  -- Every result, accepted or not, passes the validator of its class: it is accepted exactly if it is
  -- classified as drained, and then it has the deltas that the contract asks for; otherwise it has none.
  -- A number that equals another is assumed to equal itself.
  pub evaluate_cancellation-valid :
      EqualLaw → result_is_valid F (evaluate_cancellation E probe) ≡ true
  evaluate_cancellation-valid law = elim evaluate_cases [
    | inl (c, h, e) ↦ rw e (invalid-valid c h)
    | inr (a, b, x, y, e) ↦ rw e (
        unless-valid (checks E probe a b) (conclude E probe) (checks_fail a b)
          (λ passed. conclude-valid law))
  ]
