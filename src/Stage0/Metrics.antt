-- ===== src/Stage0/Metrics.antt =====
-- src/llm_inference_systems/metrics.py: `_token_observation_offsets` and `derive_request_metrics`.
-- A duration that the code converts to a float is kept as the integer, and a quotient
-- as its numerator and denominator.
use llm_inference_systems.Prelude.{
  ℕ, ◌-◌, Bool, true, false, not, Option, none, some, List, [], ◌∷◌, ◌++◌, ltb, ◌==◌, if◌then◌else◌,
  length, Result, ok, err, ℤ, sub_ℕ, pairs_hold,
}

pub data RequestOutcome : Type 0 where
  success timeout transport_error http_error protocol_error malformed_stream : RequestOutcome
  token_accounting_error cancelled unexpected_error : RequestOutcome

pub data MetricUnavailableReason : Type 0 where
  no_samples : MetricUnavailableReason
  request_failed first_output_token_not_observed missing_token_count : MetricUnavailableReason
  insufficient_output_tokens missing_token_timestamps : MetricUnavailableReason
  multi_token_chunk_without_token_timestamps token_timestamp_count_mismatch :
      MetricUnavailableReason

pub record StreamEvent : Type 0 where
  pub event_offset_ns : ℕ
  pub output_tokens_in_chunk : Option ℕ
  pub per_token_observation_offsets_ns : Option (List ℕ)

pub record RequestRecord : Type 0 where
  pub outcome : RequestOutcome
  pub dispatch_offset_ns : ℕ
  pub first_output_token_offset_ns : Option ℕ
  pub last_output_token_offset_ns : Option ℕ
  pub terminal_offset_ns : ℕ
  pub output_tokens : Option ℕ
  pub stream_events : List StreamEvent

pub record Quotient : Type 0 where
  pub numerator : ℤ
  pub denominator : ℕ

pub record RequestMetrics : Type 0 where
  pub ttft_ns : Result MetricUnavailableReason ℤ
  pub end_to_end_ns : Option ℤ
  pub tpot_ns : Result MetricUnavailableReason Quotient
  pub itl_ns : Result MetricUnavailableReason (List ℤ)

abbrev is_one : Option ℕ → Bool
is_one none = false
is_one (some n) = n == 1

abbrev offsets_of : StreamEvent → Result MetricUnavailableReason (List ℕ)
offsets_of e = elim e.per_token_observation_offsets_ns [
  | some offsets ↦ ok offsets
  | none ↦
      if is_one e.output_tokens_in_chunk
      then ok (e.event_offset_ns ∷ [])
      else err multi_token_chunk_without_token_timestamps
]

abbrev before :
    List ℕ → Result MetricUnavailableReason (List ℕ) → Result MetricUnavailableReason (List ℕ)
before offsets (ok rest) = ok (offsets ++ rest)
before offsets (err e) = err e

-- The loop over the events; it can give up for one reason only.
unfoldable pub observed_offsets : List StreamEvent → Result MetricUnavailableReason (List ℕ)
observed_offsets [] = ok []
observed_offsets (e ∷ events) = elim (offsets_of e) [
  | err x ↦ err x
  | ok offsets ↦ before offsets (observed_offsets events)
]

-- In order, and without a repetition.
abbrev pub is_increasing : List ℕ → Bool
is_increasing = pairs_hold ltb

abbrev is_nil : List ℕ → Bool
is_nil [] = true
is_nil (_ ∷ _) = false

unfoldable pub check_offsets : ℕ → List ℕ → Result MetricUnavailableReason (List ℕ)
check_offsets output_count observations =
    if is_nil observations
    then err missing_token_timestamps
    else if not (length observations == output_count)
    then err token_timestamp_count_mismatch
    else if not (is_increasing observations)
    then err missing_token_timestamps
    else ok observations

unfoldable pub token_observation_offsets : RequestRecord → Result MetricUnavailableReason (List ℕ)
token_observation_offsets r = elim r.output_tokens [
  | none ↦ err missing_token_count
  | some output_count ↦ elim (observed_offsets r.stream_events) [
    | err x ↦ err x
    | ok observations ↦ check_offsets output_count observations
  ]
]

-- current - previous for previous, current in pairwise(observations)
unfoldable pub differences : List ℕ → List ℤ
differences [] = []
differences (x ∷ []) = []
differences (x ∷ y ∷ rest) = sub_ℕ y x ∷ differences (y ∷ rest)

unfoldable pub itl_of :
    Result MetricUnavailableReason (List ℕ) → Result MetricUnavailableReason (List ℤ)
itl_of (err x) = err x
itl_of (ok observations) =
    if ltb (length observations) 2
    then err insufficient_output_tokens
    else ok (differences observations)

abbrev ttft_of : RequestRecord → Result MetricUnavailableReason ℤ
ttft_of r = elim r.first_output_token_offset_ns [
  | none ↦ err first_output_token_not_observed
  | some first ↦ ok (sub_ℕ first r.dispatch_offset_ns)
]

abbrev span_of : ℕ → Option ℕ → Option ℕ → Result MetricUnavailableReason Quotient
span_of count (some first) (some last) =
    ok (record { numerator = sub_ℕ last first; denominator = count - 1 })
span_of count _ _ = err missing_token_timestamps

abbrev tpot_of : RequestRecord → Result MetricUnavailableReason Quotient
tpot_of r = elim r.output_tokens [
  | none ↦ err missing_token_count
  | some count ↦
      if ltb count 2
      then err insufficient_output_tokens
      else span_of count r.first_output_token_offset_ns r.last_output_token_offset_ns
]

abbrev pub is_success : RequestOutcome → Bool
is_success success = true
is_success _ = false

unfoldable pub derive_request_metrics : RequestRecord → RequestMetrics
derive_request_metrics r =
    if is_success r.outcome
    then record {
      ttft_ns = ttft_of r;
      end_to_end_ns = some (sub_ℕ r.terminal_offset_ns r.dispatch_offset_ns);
      tpot_ns = tpot_of r;
      itl_ns = itl_of (token_observation_offsets r);
    }
    else record {
      ttft_ns = err request_failed;
      end_to_end_ns = none;
      tpot_ns = err request_failed;
      itl_ns = err request_failed;
    }
