-- ===== src/Cancellation/Progression.antt =====
-- src/llm_inference_systems/stage2_control.py: the helpers of evaluate_cancellation on the counters of
-- snapshots, and on the times of snapshots and observations.
use llm_inference_systems.Prelude.{
  ℕ, ◌+◌, Bool, true, false, ◌&&◌, ◌||◌, Option, none, some, List, [], ◌∷◌, ◌++◌, map, leb, ◌==◌,
  if◌then◌else◌, is_some, codes, all, list_eq, Result, ok, err, pairs_hold,
}
use llm_inference_systems.Sse.Codec.{Text}
use llm_inference_systems.Stage2.Prometheus.{
  Floats, Snapshot, CounterDelta, PrometheusError, derive_counter_delta, select_exact_series,
  success_name,
}
use llm_inference_systems.Cancellation.{ScrapeObservation}

abbrev pub prompt_name : Text
prompt_name = codes "vllm:prompt_tokens_total"

abbrev pub generation_name : Text
generation_name = codes "vllm:generation_tokens_total"

abbrev pub auxiliary_names : List Text
auxiliary_names =
    codes "vllm:num_preemptions_total"
    ∷ codes "vllm:prefix_cache_queries_total"
    ∷ codes "vllm:prefix_cache_hits_total"
    ∷ []

-- The reasons of a completion that was not cancelled, and all of them.
abbrev pub other_reasons : List Text
other_reasons = codes "length" ∷ codes "stop" ∷ codes "error" ∷ codes "repetition" ∷ []

abbrev pub finish_reasons : List Text
finish_reasons = codes "abort" ∷ other_reasons

-- `_CANCELLATION_COUNTER_SELECTORS`
abbrev pub counter_selectors : List (Text × Option Text)
counter_selectors =
    (prompt_name, none) ∷ (generation_name, none) ∷ map (λ name. (name, none)) auxiliary_names
    ++ map (λ reason. (success_name, some reason)) finish_reasons

-- all(right - left >= spacing_ns ...)
abbrev pub spaced_at_least : ℕ → List ℕ → Bool
spaced_at_least spacing_ns = pairs_hold (λ left right. leb (left + spacing_ns) right)

-- all(right - left == spacing_ns ...)
abbrev pub spaced_exactly : ℕ → List ℕ → Bool
spaced_exactly spacing_ns = pairs_hold (λ left right. right == left + spacing_ns)

abbrev pub scheduled_offsets : List ScrapeObservation → List ℕ
scheduled_offsets = map (λ o. o.scheduled_offset_ns)

abbrev succeeds {ℓ κ} : {E : Type κ} {A : Type ℓ} → Result E A → Bool
succeeds (ok a) = true
succeeds (err e) = false

module _ (F : Floats) where
  abbrev pub snapshot_offsets : List (Snapshot F) → List ℕ
  snapshot_offsets = map (λ s. s.scrape_monotonic_offset_ns)

  -- A set of all process ids that has one element.
  abbrev pub same_process : List (Snapshot F) → Bool
  same_process [] = false
  same_process (s ∷ snapshots) = all (λ t. list_eq t.process_start_id s.process_start_id) snapshots

  abbrev pub generation_value : Snapshot F → Result PrometheusError F.number
  generation_value snapshot = elim (select_exact_series F snapshot generation_name none) [
    | err e ↦ err e
    | ok sample ↦ ok sample.value
  ]

  -- The deltas of one pair exist.
  unfoldable pub progresses : Snapshot F → Snapshot F → Bool
  progresses left right =
      all (λ selector. succeeds (derive_counter_delta F left right selector.0 selector.1))
        counter_selectors

  unfoldable pub counter_progression : List (Snapshot F) → Bool
  counter_progression snapshots = pairs_hold progresses snapshots

  abbrev is_zero_delta : Result PrometheusError (CounterDelta F) → Bool
  is_zero_delta (ok d) = F.equal d.delta (F.of_nat 0)
  is_zero_delta (err e) = false

  -- The deltas of one pair exist and are zero.
  unfoldable pub unchanged : Snapshot F → Snapshot F → Bool
  unchanged left right =
      all (λ selector. is_zero_delta (derive_counter_delta F left right selector.0 selector.1))
        counter_selectors

  unfoldable pub all_selected_counters_stable : List (Snapshot F) → Bool
  all_selected_counters_stable snapshots = pairs_hold unchanged snapshots

  -- The deltas of the finish reasons, in their order; the first error ends the loop.
  unfoldable pub reason_deltas :
      Snapshot F → Snapshot F → List Text → Result PrometheusError (List (CounterDelta F))
  reason_deltas before after [] = ok []
  reason_deltas before after (reason ∷ reasons) =
      let rest = reason_deltas before after reasons in
      elim (derive_counter_delta F before after success_name (some reason)) [
        | err e ↦ err e
        | ok d ↦ elim rest [ err e ↦ err e | ok ds ↦ ok (d ∷ ds) ]
      ]

  unfoldable pub auxiliary_deltas :
      Snapshot F → Snapshot F → List Text → Result PrometheusError (List (CounterDelta F))
  auxiliary_deltas before after [] = ok []
  auxiliary_deltas before after (name ∷ names) =
      let rest = auxiliary_deltas before after names in
      elim (derive_counter_delta F before after name none) [
        | err e ↦ err e
        | ok d ↦ elim rest [ err e ↦ err e | ok ds ↦ ok (d ∷ ds) ]
      ]

  -- dict(pairs).get(key): the last pair of the key counts.
  abbrev pub label_value : Text → List (Text × Text) → Option Text
  label_value key [] = none
  label_value key (p ∷ labels) =
      let later = label_value key labels in
      if is_some later then later else if list_eq p.0 key then some p.1 else none

  abbrev pub has_reason : Text → CounterDelta F → Bool
  has_reason reason d = elim (label_value (codes "finished_reason") d.labels) [
    | none ↦ false
    | some r ↦ list_eq r reason
  ]

  -- The dict from finish reasons to deltas, asked for one reason.
  unfoldable pub observed : Text → List (CounterDelta F) → Option F.number
  observed reason [] = none
  observed reason (d ∷ deltas) =
      let later = observed reason deltas in
      if is_some later then later else if has_reason reason d then some d.delta else none

  abbrev pub is_number : Option F.number → ℕ → Bool
  is_number none n = false
  is_number (some x) n = F.equal x (F.of_nat n)

  -- observed["abort"] is 0.0 or 1.0, and the others are 0.0.
  unfoldable pub only_an_abort : (Text → Option F.number) → Bool
  only_an_abort deltas =
      (is_number (deltas (codes "abort")) 0 || is_number (deltas (codes "abort")) 1)
      && all (λ reason. is_number (deltas reason) 0) other_reasons
