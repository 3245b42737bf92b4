-- ===== src/Cancellation/Checks.antt =====
-- src/llm_inference_systems/stage2_control.py: the checks of evaluate_cancellation. Each group of its early returns is
-- a check, which gives the classification of the failure, or none; Verdict runs them in order.
-- The hashes, and the word characters of the log patterns, are parameters.
use llm_inference_systems.Prelude.{
  ℕ, zero, suc, ◌+◌, ◌-◌, Bool, true, false, ◌&&◌, ◌||◌, not, Option, none, some, List, [], ◌∷◌,
  ◌++◌, map, ltb, leb, ◌==◌, if◌then◌else◌, codes, length, all, any, list_eq, sum, ok, err,
  is_sorted,
}
use llm_inference_systems.Sse.Codec.{Text}
use llm_inference_systems.Stage2.Chain.{
  RawLogRecord, RequestIdentityChain, response_id, serving_id, same_record,
}
use llm_inference_systems.Stage2.Prometheus.{Floats, Snapshot, require_quiescent, snapshot_eq}
use llm_inference_systems.RequestLogs.{correlate_request_logs}
use llm_inference_systems.Cancellation.{
  CancellationClassification, residual_work_timeout, terminal_unknown, id_correlation_failure,
  Phase, pre_dispatch, drain, stable_generation, cooldown, later, phase_ordinal, ScrapeObservation,
  to_list, last_of, last_from, CancellationProbe, CancellationResult,
}
use llm_inference_systems.Cancellation.Progression.{
  spaced_at_least, spaced_exactly, scheduled_offsets, snapshot_offsets, same_process,
}

-- The equality of two log records and of two chains, field by field.
abbrev pub record_eq : RawLogRecord → RawLogRecord → Bool
record_eq a b =
    same_record a b
    && (a.byte_start == b.byte_start
        && (a.byte_end == b.byte_end
            && (a.observation_offset_ns == b.observation_offset_ns
                && (list_eq a.raw_record b.raw_record
                    && list_eq a.raw_record_sha256 b.raw_record_sha256))))

abbrev pub option_record_eq : Option RawLogRecord → Option RawLogRecord → Bool
option_record_eq none none = true
option_record_eq (some a) (some b) = record_eq a b
option_record_eq _ _ = false

unfoldable pub chain_eq : RequestIdentityChain → RequestIdentityChain → Bool
chain_eq a b =
    list_eq a.external_base_id b.external_base_id
    && (list_eq a.response_body_id b.response_body_id
        && (list_eq a.serving_item_id b.serving_item_id
            && (list_eq a.internal_engine_id b.internal_engine_id
                && (record_eq a.request_received_log b.request_received_log
                    && (record_eq a.request_add_log b.request_add_log
                        && (option_record_eq a.external_abort_log b.external_abort_log
                            && option_record_eq a.internal_abort_log b.internal_abort_log))))))

-- What the code calls: `\w`, SHA-256 of a text, and the identities of a snapshot and of a probe.
pub record Environment (F : Floats) : Type 0 where
  pub is_word : ℕ → Bool
  pub sha256_text : Text → Text
  pub snapshot_identity : Snapshot F → Text
  pub probe_identity : CancellationProbe F → Text

abbrev pub Check : Type 0
Check = Option CancellationClassification

-- The next check runs where the one before found nothing.
infixr 5 ◌then◌
abbrev pub ◌then◌ : Check → Check → Check
none then next = next
(some c) then next = some c

-- `if failed: return ...`
abbrev pub fail_if : Bool → CancellationClassification → Check
fail_if true c = some c
fail_if false c = none

-- xs[:n], xs[n:], xs[0] and xs[-1]
abbrev pub take {ℓ} : {A : Type ℓ} → ℕ → List A → List A
take zero xs = []
take (suc n) [] = []
take (suc n) (x ∷ xs) = x ∷ take n xs

abbrev pub drop {ℓ} : {A : Type ℓ} → ℕ → List A → List A
drop zero xs = xs
drop (suc n) [] = []
drop (suc n) (x ∷ xs) = drop n xs

abbrev first_in {ℓ} : {A : Type ℓ} → List A → Option A
first_in [] = none
first_in (x ∷ xs) = some x

abbrev last_in {ℓ} : {A : Type ℓ} → List A → Option A
last_in [] = none
last_in (x ∷ xs) = some (last_from x xs)

-- Three equal times; there are observations on both sides, for their keys were compared before.
abbrev same_times : Option ScrapeObservation → Option ScrapeObservation → Bool
same_times (some a) (some b) =
    a.scheduled_offset_ns == b.scheduled_offset_ns
    && (a.request_dispatch_offset_ns == b.request_dispatch_offset_ns
        && a.response_completion_offset_ns == b.response_completion_offset_ns)
same_times _ _ = false

abbrev Key : Type 0
Key = Phase × ℕ × Text

abbrev keys_eq : List Key → List Key → Bool
keys_eq [] [] = true
keys_eq (a ∷ xs) (b ∷ ys) =
    phase_ordinal a.0 == phase_ordinal b.0 && (a.1 == b.1 && (list_eq a.2 b.2 && keys_eq xs ys))
keys_eq _ _ = false

abbrev in_order : ScrapeObservation → Bool
in_order o =
    leb o.scheduled_offset_ns o.request_dispatch_offset_ns
    && leb o.request_dispatch_offset_ns o.response_completion_offset_ns

module _ {F : Floats} (E : Environment F) (probe : CancellationProbe F) where
  abbrev pub invalid_cancellation : CancellationClassification → CancellationResult F
  invalid_cancellation c = record {
    classification = c;
    accepted = false;
    evidence_identity_sha256 = E.probe_identity probe;
    prompt_token_delta = none;
    generation_token_delta = none;
    finished_reason_deltas = [];
    auxiliary_counter_deltas = [];
    observed_abort_delta = none;
  }

  abbrev pub all_snapshots : List (Snapshot F)
  all_snapshots =
      to_list probe.pre_dispatch_snapshots
      ++ (to_list probe.drain_snapshots
          ++ (to_list probe.stable_generation_snapshots
              ++ (to_list probe.cooldown_snapshots ++ probe.later_retained_snapshots)))

  unfoldable pub check_ids : Check
  check_ids =
      let chain = probe.identity_chain in
      fail_if
        (not (list_eq chain.response_body_id (response_id chain.external_base_id))
          || not (list_eq chain.serving_item_id (serving_id chain.external_base_id)))
        id_correlation_failure

  -- The chain is what the retained log gives, and the delivery is the chain's.
  unfoldable pub check_correlation : Check
  check_correlation =
      let chain = probe.identity_chain in
      let delivery = probe.first_generation_delivery in
      elim (correlate_request_logs E.is_word chain.external_base_id probe.raw_log_capture.records
        true) [
          | err e ↦ some id_correlation_failure
          | ok reconstructed_chain ↦
              fail_if
                (not (chain_eq reconstructed_chain chain)
                  || (not (
                        list_eq probe.raw_log_capture_sha256 probe.raw_log_capture.raw_bytes_sha256)
                      || (not (
                            list_eq probe.raw_log_capture.source_stream_id
                              (probe.server_process_identity ++ codes "-raw-log"))
                          || (ltb chain.request_received_log.byte_start
                                probe.raw_log_start_byte_offset
                              || (not (list_eq delivery.external_request_id chain.external_base_id)
                                  || not (
                                      list_eq delivery.response_body_id chain.response_body_id))))))
                id_correlation_failure
        ]

  unfoldable pub check_chronology : RawLogRecord → RawLogRecord → Check
  check_chronology external_abort internal_abort =
      let chain = probe.identity_chain in
      let delivered = probe.first_generation_delivery.observation_offset_ns in
      fail_if
        (not (ltb probe.dispatch_offset_ns delivered && leb delivered probe.client_close_offset_ns))
        terminal_unknown
      then fail_if
          (not (
            leb probe.dispatch_offset_ns chain.request_received_log.observation_offset_ns
            && (leb chain.request_received_log.observation_offset_ns
                  chain.request_add_log.observation_offset_ns
                && (leb chain.request_add_log.observation_offset_ns delivered
                    && (leb delivered probe.client_close_offset_ns
                        && (leb probe.client_close_offset_ns internal_abort.observation_offset_ns
                            && leb internal_abort.observation_offset_ns
                                external_abort.observation_offset_ns))))))
          terminal_unknown

  unfoldable pub check_snapshots : Check
  check_snapshots =
      fail_if
        (not (length (to_list probe.pre_dispatch_snapshots) == 10)
          || not (length (to_list probe.drain_snapshots) == 10))
        residual_work_timeout
      then fail_if
          (not (same_process F all_snapshots)
            || any (λ s. not (list_eq s.process_start_id probe.server_process_identity))
                all_snapshots)
          residual_work_timeout

  abbrev keys_of : Phase → ℕ → List (Snapshot F) → List Key
  keys_of phase n [] = []
  keys_of phase n (s ∷ snapshots) =
      (phase, n, E.snapshot_identity s) ∷ keys_of phase (suc n) snapshots

  abbrev expected_keys : List Key
  expected_keys =
      keys_of pre_dispatch 0 (to_list probe.pre_dispatch_snapshots)
      ++ (keys_of drain 0 (to_list probe.drain_snapshots)
          ++ (keys_of stable_generation 0 (to_list probe.stable_generation_snapshots)
              ++ (keys_of cooldown 0 (to_list probe.cooldown_snapshots)
                  ++ keys_of later 0 probe.later_retained_snapshots)))

  abbrev actual_keys : List Key
  actual_keys =
      map (λ o. (o.phase, o.phase_ordinal, o.snapshot_identity_sha256)) probe.scrape_observations

  -- zip(..., strict=True): of one length, for the keys were compared before.
  abbrev completions_match : List ScrapeObservation → List (Snapshot F) → Bool
  completions_match [] [] = true
  completions_match (o ∷ observations) (s ∷ snapshots) =
      o.response_completion_offset_ns == s.scrape_monotonic_offset_ns
      && completions_match observations snapshots
  completions_match _ _ = false

  unfoldable pub check_observations : Check
  check_observations =
      fail_if
        (not (keys_eq actual_keys expected_keys)
          || (not (completions_match probe.scrape_observations all_snapshots)
              || (any (λ o. not (in_order o)) probe.scrape_observations
                  || not (is_sorted (snapshot_offsets F all_snapshots)))))
        residual_work_timeout

  -- counts and boundaries: the observations of each phase.
  abbrev boundary : ℕ → ℕ
  boundary n = sum (
      take n (
        length (to_list probe.pre_dispatch_snapshots)
        ∷ length (to_list probe.drain_snapshots)
        ∷ length (to_list probe.stable_generation_snapshots)
        ∷ length (to_list probe.cooldown_snapshots)
        ∷ length probe.later_retained_snapshots
        ∷ []))

  abbrev pub observations_of : ℕ → List ScrapeObservation
  observations_of n =
      take (boundary (suc n) - boundary n) (drop (boundary n) probe.scrape_observations)

  unfoldable pub check_baseline : Check
  check_baseline =
      fail_if
        (not (spaced_at_least 100_000_000 (scheduled_offsets (observations_of 0)))
          || (not (
                spaced_at_least 100_000_000
                  (snapshot_offsets F (to_list probe.pre_dispatch_snapshots)))
              || leb probe.dispatch_offset_ns
                  (last_of probe.pre_dispatch_snapshots).scrape_monotonic_offset_ns))
        residual_work_timeout

  abbrev pub is_quiescent : Snapshot F → Bool
  is_quiescent s = elim (require_quiescent F s) [ ok _ ↦ true | err _ ↦ false ]

  unfoldable pub check_quiescent : Check
  check_quiescent = fail_if (not (all is_quiescent all_snapshots)) residual_work_timeout

  -- The drain begins after the close and the abort.
  unfoldable pub drain_differs : RawLogRecord → Bool
  drain_differs external_abort =
      let begun = probe.drain_snapshots.first.scrape_monotonic_offset_ns in
      ltb begun probe.client_close_offset_ns
      || (ltb begun external_abort.observation_offset_ns
          || (not (spaced_at_least 100_000_000 (scheduled_offsets (observations_of 1)))
              || not (
                  spaced_at_least 100_000_000
                    (snapshot_offsets F (to_list probe.drain_snapshots)))))

  -- The stable window goes on from the drain for a second.
  unfoldable pub stable_differs : Bool
  stable_differs =
      let begun = probe.stable_generation_snapshots.first in
      let drained = last_of probe.drain_snapshots in
      not (begun.scrape_monotonic_offset_ns == drained.scrape_monotonic_offset_ns)
      || (not (snapshot_eq F begun drained)
          || (not (same_times (first_in (observations_of 2)) (last_in (observations_of 1)))
              || (ltb (last_of probe.stable_generation_snapshots).scrape_monotonic_offset_ns
                    (begun.scrape_monotonic_offset_ns + 1_000_000_000)
                  || not (spaced_exactly 100_000_000 (scheduled_offsets (observations_of 2))))))

  -- The cooldown goes on from the stable window for two seconds, and ends within ten of the close.
  unfoldable pub cooldown_differs : RawLogRecord → Bool
  cooldown_differs external_abort =
      let begun = probe.cooldown_snapshots.first.scrape_monotonic_offset_ns in
      let ended = (last_of probe.cooldown_snapshots).scrape_monotonic_offset_ns in
      not (begun == (last_of probe.stable_generation_snapshots).scrape_monotonic_offset_ns)
      || (not (same_times (first_in (observations_of 3)) (last_in (observations_of 2)))
          || (ltb ended (begun + 2_000_000_000)
              || (not (spaced_exactly 100_000_000 (scheduled_offsets (observations_of 3)))
                  || (ltb (probe.client_close_offset_ns + 10_000_000_000) ended
                      || ltb ended external_abort.observation_offset_ns))))

  unfoldable pub later_differs : Bool
  later_differs =
      let ended = (last_of probe.cooldown_snapshots).scrape_monotonic_offset_ns in
      any (λ s. leb s.scrape_monotonic_offset_ns ended) probe.later_retained_snapshots
      || not (is_sorted (snapshot_offsets F probe.later_retained_snapshots))

  unfoldable pub check_windows : RawLogRecord → Check
  check_windows external_abort =
      fail_if
        (drain_differs external_abort
          || (stable_differs || (cooldown_differs external_abort || later_differs)))
        residual_work_timeout
