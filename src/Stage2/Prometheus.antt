-- ===== src/Stage2/Prometheus.antt =====
-- src/llm_inference_systems/stage2_prometheus.py: the selection of exact series and the counter deltas
-- of one process. Python's floating-point numbers are the parameter Floats; the parser of the raw
-- exposition is not modelled, so a snapshot has the samples and labels that it gave.
pub mod Deltas
mod Tests
use llm_inference_systems.Prelude.{
  ℕ, Bool, true, false, ◌&&◌, not, Option, none, some, List, [], ◌∷◌, ◌++◌, leb, ◌==◌,
  if◌then◌else◌, is_some, codes, select, list_eq, Result, ok, err, mem, all, length,
}
use llm_inference_systems.Sse.Codec.{Text}

-- Floating-point numbers and the operations on them that the code uses.
pub record Floats : Type 1 where
  pub number : Type 0
  pub less : number → number → Bool
  pub equal : number → number → Bool
  pub minus : number → number → number
  pub is_finite : number → Bool
  pub of_nat : ℕ → number

abbrev pub Labels : Type 0
Labels = List (Text × Text)

pub data PrometheusError : Type 0 where
  outside_contract reason_required reason_not_applicable series_not_exact : PrometheusError
  not_a_counter across_restarts stale_or_reordered inventory_changed counter_decreased :
      PrometheusError
  not_quiescent invalid_delta : PrometheusError

abbrev pub gauge_names : List Text
gauge_names =
    codes "vllm:num_requests_running"
    ∷ codes "vllm:num_requests_waiting"
    ∷ codes "vllm:kv_cache_usage_perc"
    ∷ []

abbrev pub success_name : Text
success_name = codes "vllm:request_success_total"

abbrev pub counter_names : List Text
counter_names =
    codes "vllm:prompt_tokens_total"
    ∷ codes "vllm:generation_tokens_total"
    ∷ success_name
    ∷ codes "vllm:num_preemptions_total"
    ∷ codes "vllm:prefix_cache_queries_total"
    ∷ codes "vllm:prefix_cache_hits_total"
    ∷ []

abbrev pub labels_eq : Labels → Labels → Bool
labels_eq [] [] = true
labels_eq (x ∷ xs) (y ∷ ys) = list_eq x.0 y.0 && (list_eq x.1 y.1 && labels_eq xs ys)
labels_eq _ _ = false

abbrev inventories_eq : List Labels → List Labels → Bool
inventories_eq [] [] = true
inventories_eq (x ∷ xs) (y ∷ ys) = labels_eq x y && inventories_eq xs ys
inventories_eq _ _ = false

-- tuple(sorted(labels.items())) of the model's labels, with the finish reason where there is one.
abbrev pub expected_labels : Option Text → Labels
expected_labels none =
    (codes "engine", codes "0") ∷ (codes "model_name", codes "qwen2.5-0.5b-instruct-stage2") ∷ []
expected_labels (some reason) =
    (codes "engine", codes "0")
    ∷ (codes "finished_reason", reason)
    ∷ (codes "model_name", codes "qwen2.5-0.5b-instruct-stage2")
    ∷ []

module _ (F : Floats) where
  pub record Sample : Type 0 where
    pub name : Text
    pub labels : Labels
    pub value : F.number

  pub record Snapshot : Type 0 where
    pub process_start_id : Text
    pub scrape_wall_clock_utc : ℕ
    pub scrape_monotonic_offset_ns : ℕ
    pub raw_exposition : Text
    pub raw_exposition_sha256 : Text
    pub samples : List Sample
    pub label_inventory : List (Text × List Labels)

  pub record CounterDelta : Type 0 where
    pub metric : Text
    pub labels : Labels
    pub before : F.number
    pub after : F.number
    pub delta : F.number

  -- Whether a finish reason is asked for as it must be.
  abbrev check_reason : Text → Option Text → Result PrometheusError (Unit {0})
  check_reason name reason =
      if list_eq name success_name
      then (if is_some reason then ok tt else err reason_required)
      else if is_some reason
      then err reason_not_applicable
      else ok tt

  abbrev pub matches : Text → Option Text → Sample → Bool
  matches name reason s = list_eq s.name name && labels_eq s.labels (expected_labels reason)

  abbrev only : List Sample → Result PrometheusError Sample
  only (s ∷ []) = ok s
  only _ = err series_not_exact

  unfoldable pub select_exact_series : Snapshot → Text → Option Text → Result PrometheusError Sample
  select_exact_series snapshot name reason =
      if not (mem list_eq name (gauge_names ++ counter_names))
      then err outside_contract
      else elim (check_reason name reason) [
        | err x ↦ err x
        | ok _ ↦ only (select (matches name reason) snapshot.samples)
      ]

  abbrev samples_eq : List Sample → List Sample → Bool
  samples_eq [] [] = true
  samples_eq (a ∷ xs) (b ∷ ys) =
      list_eq a.name b.name
      && (labels_eq a.labels b.labels && (F.equal a.value b.value && samples_eq xs ys))
  samples_eq _ _ = false

  abbrev same_inventories : List (Text × List Labels) → List (Text × List Labels) → Bool
  same_inventories [] [] = true
  same_inventories (a ∷ xs) (b ∷ ys) =
      list_eq a.0 b.0 && (inventories_eq a.1 b.1 && same_inventories xs ys)
  same_inventories _ _ = false

  -- The equality of two models, field by field; the names of an inventory are in one order.
  unfoldable pub snapshot_eq : Snapshot → Snapshot → Bool
  snapshot_eq a b =
      list_eq a.process_start_id b.process_start_id
      && (a.scrape_wall_clock_utc == b.scrape_wall_clock_utc
          && (a.scrape_monotonic_offset_ns == b.scrape_monotonic_offset_ns
              && (list_eq a.raw_exposition b.raw_exposition
                  && (list_eq a.raw_exposition_sha256 b.raw_exposition_sha256
                      && (samples_eq a.samples b.samples
                          && same_inventories a.label_inventory b.label_inventory)))))

  abbrev inventory_of : Text → List (Text × List Labels) → Option (List Labels)
  inventory_of name [] = none
  inventory_of name (p ∷ inventory) =
      if list_eq p.0 name then some p.1 else inventory_of name inventory

  abbrev same_inventory : Option (List Labels) → Option (List Labels) → Bool
  same_inventory none none = true
  same_inventory (some a) (some b) = inventories_eq a b
  same_inventory _ _ = false

  abbrev is_identifier : Text → Bool
  is_identifier t = leb 1 (length t) && leb (length t) 160

  -- NonNegativeFloat: zero or more, and neither infinite nor NaN.
  abbrev non_negative : F.number → Bool
  non_negative x = F.is_finite x && not (F.less x (F.of_nat 0))

  -- The fields of CounterDelta, and `validate_arithmetic`. The samples of a parsed exposition are
  -- finite and nonnegative.
  unfoldable pub delta_is_valid : CounterDelta → Bool
  delta_is_valid d =
      is_identifier d.metric
      && (all (λ l. is_identifier l.0) d.labels
          && (non_negative d.before
              && (non_negative d.after
                  && (non_negative d.delta
                      && (not (F.less d.after d.before)
                          && F.equal d.delta (F.minus d.after d.before))))))

  abbrev pub delta_of : Text → Sample → Sample → CounterDelta
  delta_of name first second = record {
    metric = name;
    labels = first.labels;
    before = first.value;
    after = second.value;
    delta = F.minus second.value first.value;
  }

  -- The two samples of a series, and what lies between them, which its validator reads.
  unfoldable pub subtract : Text → Sample → Sample → Result PrometheusError CounterDelta
  subtract name first second =
      if F.less second.value first.value
      then err counter_decreased
      else if delta_is_valid (delta_of name first second)
      then ok (delta_of name first second)
      else err invalid_delta

  unfoldable pub derive_counter_delta :
      Snapshot → Snapshot → Text → Option Text → Result PrometheusError CounterDelta
  derive_counter_delta before after name reason =
      if not (mem list_eq name counter_names)
      then err not_a_counter
      else if not (list_eq before.process_start_id after.process_start_id)
      then err across_restarts
      else if leb after.scrape_monotonic_offset_ns before.scrape_monotonic_offset_ns
      then err stale_or_reordered
      else if not (
          same_inventory (inventory_of name before.label_inventory)
            (inventory_of name after.label_inventory))
      then err inventory_changed
      else elim (select_exact_series before name reason) [
        | err x ↦ err x
        | ok first ↦ elim (select_exact_series after name reason) [
          | err x ↦ err x
          | ok second ↦ subtract name first second
        ]
      ]

  unfoldable pub require_quiescent : Snapshot → Result PrometheusError (Unit {0})
  require_quiescent snapshot =
      elim (select_exact_series snapshot (codes "vllm:num_requests_running") none) [
        | err x ↦ err x
        | ok running ↦
            if not (F.equal running.value (F.of_nat 0))
            then err not_quiescent
            else elim (select_exact_series snapshot (codes "vllm:num_requests_waiting") none) [
              | err x ↦ err x
              | ok waiting ↦
                  if not (F.equal waiting.value (F.of_nat 0)) then err not_quiescent else ok tt
            ]
      ]
