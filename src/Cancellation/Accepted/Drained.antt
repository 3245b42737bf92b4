-- ===== src/Cancellation/Accepted/Drained.antt =====
-- src/llm_inference_systems/stage2_control.py: what evaluate_cancellation has established of a probe
-- that it accepts.
use llm_inference_systems.Prelude.{
  mem, any-all, ◌||◌, codes, suc, ◌+◌, ◌≤◌, ◌<◌, ◌≡◌, refl, ap, inl, inr, true, false, not, none,
  some, List, [], ◌∷◌, arith, if◌then◌else◌, length, all, any, list_eq, ok, Result-cases, codes,
  ◌||◌, mem,
}
use llm_inference_systems.Stage2.Chain.{RawLogRecord}
use llm_inference_systems.Stage2.Prometheus.{Floats, Snapshot, success_name}
use llm_inference_systems.Stage2.Prometheus.Deltas.{IsDelta, derive_counter_delta-IsDelta}
use llm_inference_systems.RequestLogs.Sound.{IsCorrelated}
use llm_inference_systems.Cancellation.{
  CancellationProbe, CancellationResult, last_of, last_from, CounterDelta, Text,
}
use llm_inference_systems.Cancellation.Progression.{
  prompt_name, generation_name, observed, auxiliary_names, other_reasons, finish_reasons, is_number,
  snapshot_offsets,
}
use llm_inference_systems.Cancellation.Checks.{
  Environment, Check, ◌then◌, check_correlation, check_chronology, check_snapshots, check_baseline,
  check_quiescent, check_windows, all_snapshots, is_quiescent,
}
use llm_inference_systems.Cancellation.Verdict.{
  Deltas, derive_deltas, check_deltas, check_residual, accepted_result, conclude, checks, unless,
  evaluate_cancellation,
}
use llm_inference_systems.Cancellation.Contract.Passes.{
  evaluate_cases, derive_deltas_effect, check_deltas_effect, only_an_abort_effect,
  only_an_abort_effect,
}
use llm_inference_systems.Cancellation.Accepted.Counted.{
  observed-IsDelta, auxiliary-IsDelta, all-of,
}
use llm_inference_systems.Cancellation.Accepted.{
  correlation_effect, chronology_effect, snapshots_effect, baseline_effect, quiescent_effect,
  windows_effect, drain_effect, stable_effect, cooldown_effect, residual_effect, spaced_span,
}

last_of-offset :
    (F : Floats) (s : Snapshot F) (snapshots : List (Snapshot F))
    → last_from s.scrape_monotonic_offset_ns (snapshot_offsets F snapshots)
      ≡ (last_from s snapshots).scrape_monotonic_offset_ns
last_of-offset F s [] = refl
last_of-offset F s (t ∷ snapshots) = last_of-offset F t snapshots

length-offsets :
    (F : Floats) (snapshots : List (Snapshot F))
    → length (snapshot_offsets F snapshots) ≡ length snapshots
length-offsets F [] = refl
length-offsets F (s ∷ snapshots) = ap (λ n. suc n) (length-offsets F snapshots)

module _ {F : Floats} (E : Environment F) (probe : CancellationProbe F) where
  abbrev baseline : Snapshot F
  baseline = last_of probe.pre_dispatch_snapshots

  abbrev final : Snapshot F
  final = last_of probe.cooldown_snapshots

  -- The events of the probe, in time.
  pub record IsChronological (external_abort internal_abort : RawLogRecord) : Type 0 where
    pub quiet_before : baseline.scrape_monotonic_offset_ns < probe.dispatch_offset_ns
    pub delivered : probe.dispatch_offset_ns < probe.first_generation_delivery.observation_offset_ns
    pub closed :
        probe.first_generation_delivery.observation_offset_ns ≤ probe.client_close_offset_ns
    pub internal : probe.client_close_offset_ns ≤ internal_abort.observation_offset_ns
    pub external : internal_abort.observation_offset_ns ≤ external_abort.observation_offset_ns
    pub watched_from :
        external_abort.observation_offset_ns
        ≤ probe.drain_snapshots.first.scrape_monotonic_offset_ns
    pub watched_for :
        probe.drain_snapshots.first.scrape_monotonic_offset_ns + 3_900_000_000
        ≤ final.scrape_monotonic_offset_ns
    pub watched_until :
        final.scrape_monotonic_offset_ns ≤ probe.client_close_offset_ns + 10_000_000_000

  -- What the counters say from the baseline to the last cooldown snapshot.
  pub record IsCounted (d : Deltas F) : Type 0 where
    pub prompt : IsDelta F baseline final prompt_name none d.prompt
    pub prompt_64 : F.equal d.prompt.delta (F.of_nat 64) ≡ true
    pub generation : IsDelta F baseline final generation_name none d.generation
    pub generated : F.less d.generation.delta (F.of_nat 1) ≡ false
    pub aborts : CounterDelta F
    pub aborts_derived : IsDelta F baseline final success_name (some (codes "abort")) aborts
    pub at_most_one :
        (F.equal aborts.delta (F.of_nat 0) || F.equal aborts.delta (F.of_nat 1)) ≡ true
    pub no_other_finish :
        (reason : Text)
        → mem list_eq reason other_reasons ≡ true
        → (x : CounterDelta F) × IsDelta F baseline final success_name (some reason) x
          × (F.equal x.delta (F.of_nat 0) ≡ true)
    pub rest_unchanged :
        (name : Text)
        → mem list_eq name auxiliary_names ≡ true
        → (x : CounterDelta F) × IsDelta F baseline final name none x
          × (F.equal x.delta (F.of_nat 0) ≡ true)

  pub record IsDrained : Type 0 where
    pub external_abort : RawLogRecord
    pub internal_abort : RawLogRecord
    pub external_kept : probe.identity_chain.external_abort_log ≡ some external_abort
    pub internal_kept : probe.identity_chain.internal_abort_log ≡ some internal_abort
    pub correlated :
        IsCorrelated E.is_word probe.identity_chain.external_base_id probe.raw_log_capture.records
          true probe.identity_chain
    pub in_time : IsChronological external_abort internal_abort
    pub one_process :
        any
          (λ s. not (list_eq s.process_start_id probe.server_process_identity))
          (all_snapshots E probe)
        ≡ false
    pub quiescent : all (is_quiescent E probe) (all_snapshots E probe) ≡ true
    pub deltas : Deltas F
    pub counted : IsCounted deltas
    pub no_requests : probe.residual_state.active_request_ids ≡ []
    pub no_processes : probe.residual_state.project_process_ids ≡ []
    pub result : evaluate_cancellation E probe ≡ accepted_result E probe deltas

  unless_accepted :
      (c : Check) (r : CancellationResult F)
      → (unless E probe c r).accepted ≡ true
      → (c ≡ none) × (r.accepted ≡ true)
  unless_accepted none r h = (refl, h)
  unless_accepted (some c) r h = ground arith

  then_none : (a b : Check) → (a then b) ≡ none → (a ≡ none) × (b ≡ none)
  then_none none b h = (refl, h)
  then_none (some c) b h = ground arith

  -- The checks that the proof of the times and of the log needs.
  checks_effect :
      (a b : RawLogRecord)
      → checks E probe a b ≡ none
      → (check_correlation E probe ≡ none)
        × (check_chronology E probe a b ≡ none)
        × (check_snapshots E probe ≡ none)
        × (check_baseline E probe ≡ none)
        × (check_quiescent E probe ≡ none)
        × (check_windows E probe a ≡ none)
  unfolding checks
  checks_effect a b e = ground (arith, e)

  conclude_accepted :
      (conclude E probe).accepted ≡ true
      → (d : Deltas F) × (derive_deltas F baseline final ≡ ok d)
        × (check_deltas F d ≡ none)
        × (check_residual E probe ≡ none)
        × (conclude E probe ≡ accepted_result E probe d)
  unfolding conclude
  conclude_accepted h = elim (Result-cases (derive_deltas F baseline final)) [
    | inr (x, e) ↦ ground (arith, h, e)
    | inl (d, e) ↦
        let (passed, _) =
          unless_accepted (check_deltas F d then check_residual E probe) (accepted_result E probe d)
            (ground (arith, h, e)) in
        let (deltas, residual) = then_none (check_deltas F d) (check_residual E probe) passed in
        (d, e, deltas, residual, ground (arith, e, passed))
  ]

  in_time_of : (a b : RawLogRecord) → checks E probe a b ≡ none → IsChronological a b
  in_time_of a b e =
      let (_, chronology, snapshots, baselined, _, windows) = checks_effect a b e in
      let (delivered, closed, internal, external) = chronology_effect E probe a b chronology in
      let (ten, _) = snapshots_effect E probe snapshots in
      let (drained, stable, cooled) = windows_effect E probe a windows in
      let (_, from_abort, spaced) = drain_effect E probe a drained in
      let (stable_from, stable_for) = stable_effect E probe stable in
      let (cooled_from, cooled_for, cooled_until) = cooldown_effect E probe a cooled in
      let d = probe.drain_snapshots in
      let span =
        spaced_span 100_000_000 d.first.scrape_monotonic_offset_ns (snapshot_offsets F d.rest)
          spaced in
      let nine = length-offsets F d.rest in
      let end = last_of-offset F d.first d.rest in
      record {
        quiet_before = baseline_effect E probe baselined;
        delivered = delivered;
        closed = closed;
        internal = internal;
        external = external;
        watched_from = from_abort;
        watched_for =
            omega (arith, span, nine, end, ten, stable_from, stable_for, cooled_from, cooled_for);
        watched_until = cooled_until;
      }

  counted_of :
      (d : Deltas F) → derive_deltas F baseline final ≡ ok d → check_deltas F d ≡ none → IsCounted d
  counted_of d derived passed =
      let (p, g, rs, aux) = derive_deltas_effect E probe baseline final d derived in
      let (only, prompt_64, generated, unchanged) = check_deltas_effect E probe d passed in
      let (one, others) =
        only_an_abort_effect E probe (λ reason. observed F reason d.reasons) only in
      let (aborts, aborts_derived, seen) =
        observed-IsDelta F baseline final (codes "abort") finish_reasons d.reasons rs refl in
      record {
        prompt = derive_counter_delta-IsDelta F baseline final prompt_name none d.prompt p;
        prompt_64 = prompt_64;
        generation =
            derive_counter_delta-IsDelta F baseline final generation_name none d.generation g;
        generated = generated;
        aborts = aborts;
        aborts_derived = aborts_derived;
        at_most_one = rw seen at one;
        no_other_finish = λ reason m.
            let (x, x_derived, x_seen) =
              observed-IsDelta F baseline final reason finish_reasons d.reasons rs
                (ground (arith, m)) in
            let none_more =
              all-of (λ reason. is_number F (observed F reason d.reasons) 0) reason other_reasons
                others m in
            (x, x_derived, rw x_seen at none_more);
        rest_unchanged = λ name m.
            auxiliary-IsDelta F baseline final (λ a. F.equal a.delta (F.of_nat 0)) name
              auxiliary_names d.auxiliary aux m
              (any-all (λ a. F.equal a.delta (F.of_nat 0)) d.auxiliary unchanged);
      }

  -- A probe that is accepted was cancelled on the server: the log alone gives its chain, with both
  -- aborts; after the baseline come dispatch, delivery, close and the two aborts, in this order, and
  -- from then on the server, one process and idle in every snapshot, was watched for at least 3.9
  -- seconds, up to at most 10 after the close; from the baseline on the prompt counter grew by 64,
  -- the generation counter by at least 1, the counters of finished requests by at most one abort and
  -- nothing else, and the auxiliary counters by nothing; and nothing is left over.
  pub evaluate_cancellation-IsDrained : (evaluate_cancellation E probe).accepted ≡ true → IsDrained
  evaluate_cancellation-IsDrained h = elim (evaluate_cases E probe) [
    | inl (c, _, e) ↦ ground (arith, h, e)
    | inr (a, b, x, y, e) ↦
        let (passed, concluded) =
          unless_accepted (checks E probe a b) (conclude E probe) (ground (arith, h, e)) in
        let (d, derived, counted, residual, made) = conclude_accepted concluded in
        let (correlation, _, snapshots, _, quiet, _) = checks_effect a b passed in
        let (requests, processes) = residual_effect E probe residual in
        record {
          external_abort = a;
          internal_abort = b;
          external_kept = x;
          internal_kept = y;
          correlated = correlation_effect E probe correlation;
          in_time = in_time_of a b passed;
          one_process = (snapshots_effect E probe snapshots).1;
          quiescent = quiescent_effect E probe quiet;
          deltas = d;
          counted = counted_of d derived counted;
          no_requests = requests;
          no_processes = processes;
          result = ground (arith, e, passed, made);
        }
  ]
