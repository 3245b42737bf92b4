-- ===== src/Stage2/Evidence.antt =====
-- src/llm_inference_systems/stage2_contracts.py: the evidence of one completed request, and the
-- reconciliation that its validator makes. A double is a number that stands for it, and what the code
-- does with doubles is a field of the record Library.
use llm_inference_systems.Prelude.{
  ℕ, Bool, true, false, ◌&&◌, not, Option, none, some, List, [], ◌∷◌, ◌++◌, ltb, ◌==◌,
  if◌then◌else◌, is_some, codes, length, any, select, list_eq, ℤ, pos, sub_ℕ, ◌+ℤ◌, int_eq,
  is_sorted,
}
use llm_inference_systems.Sse.Codec.{Text}
use llm_inference_systems.Stage2.Json.{Members}
use llm_inference_systems.Stage2.Chain.{response_id, serving_id, has_hex_suffix}

-- Stage2TokenEvent; `terminal` is `finish_reason == "length"`.
pub record TokenEvent : Type 0 where
  pub observation_offset_ns : ℕ
  pub output_token_ids : List ℕ
  pub text : Text
  pub terminal : Bool
  pub prompt_token_ids : Option (List ℕ)

pub record Timing : Type 0 where
  pub dispatch : ℕ
  pub response_headers : ℕ
  pub first_response_body_bytes : ℕ
  pub first_output_token : ℕ
  pub generation_terminal : ℕ
  pub usage_terminal : ℕ
  pub protocol_terminal : ℕ
  pub transport_terminal : ℕ

-- What the code calls of Python: the hexadecimal SHA-256 of a text's UTF-8, which a lone surrogate does
-- not have; int / int and float(int), which overflow; the sum of doubles; a double divided by a count;
-- the equality of doubles; and whether a double may be the value of a NonNegativeFloat.
pub record Library : Type 0 where
  pub text_sha256 : Text → Option Text
  pub int_divide : ℤ → ℕ → Option ℕ
  pub float : ℤ → Option ℕ
  pub float_sum : List ℕ → ℕ
  pub float_divide : ℕ → ℕ → ℕ
  pub double_eq : ℕ → ℕ → Bool
  pub is_nonnegative : ℕ → Bool

-- MetricAvailability: a value, or the reason GROUPED_TOKEN_EVENT.
pub data Metric : Type 0 where
  value : ℕ → Metric
  grouped_token_event : Metric

pub data Disagreement : Type 0 where
  local_prompt_count local_output_count : Disagreement

pub record RequestEvidence : Type 0 where
  pub request_identity_chain_sha256 : Text
  pub external_request_id : Text
  pub response_request_id : Text
  pub serving_item_request_id : Text
  pub internal_engine_request_id : Text
  pub sent_prompt_token_ids : List ℕ
  pub returned_prompt_token_ids : List ℕ
  pub token_events : List TokenEvent
  pub final_output_token_ids : List ℕ
  pub terminal_event_carried_token_ids : Bool
  pub local_prompt_token_count : Option ℕ
  pub local_output_token_count : Option ℕ
  pub server_per_request_metrics : Members
  pub disagreements : List Disagreement
  pub output_text : Text
  pub output_text_sha256 : Text
  pub timing : Timing
  pub client_generation_tpot : Metric
  pub token_observation_itl : Metric
  pub stream_output_gap_ns : List ℤ

abbrev pub nonempty : List ℕ → Bool
nonempty [] = false
nonempty (_ ∷ _) = true

abbrev pub bears_tokens : TokenEvent → Bool
bears_tokens e = nonempty e.output_token_ids

abbrev pub token_bearing : List TokenEvent → List TokenEvent
token_bearing = select bears_tokens

abbrev pub all_ids : List TokenEvent → List ℕ
all_ids [] = []
all_ids (e ∷ events) = e.output_token_ids ++ all_ids events

abbrev pub all_text : List TokenEvent → Text
all_text [] = []
all_text (e ∷ events) = e.text ++ all_text events

abbrev pub offsets : List TokenEvent → List ℕ
offsets [] = []
offsets (e ∷ events) = e.observation_offset_ns ∷ offsets events

abbrev pub gaps_from : ℕ → List TokenEvent → List ℤ
gaps_from left [] = []
gaps_from left (e ∷ events) =
    sub_ℕ e.observation_offset_ns left ∷ gaps_from e.observation_offset_ns events

-- right - left for left, right in pairwise(events)
abbrev pub gaps : List TokenEvent → List ℤ
gaps [] = []
gaps (e ∷ events) = gaps_from e.observation_offset_ns events

abbrev pub is_grouped : TokenEvent → Bool
is_grouped e = ltb 1 (length e.output_token_ids)

unfoldable pub sum_int : List ℤ → ℤ
unfolding ◌+ℤ◌
sum_int [] = pos 0
sum_int (n ∷ ns) = n +ℤ sum_int ns

abbrev pub ids_eq : Option (List ℕ) → List ℕ → Bool
ids_eq none ids = false
ids_eq (some given) ids = list_eq given ids

abbrev pub has_prompt : TokenEvent → Bool
has_prompt e = is_some e.prompt_token_ids

-- One event has prompt ids, it is the first, and they are the returned ones.
unfoldable pub prompt_is_first : List TokenEvent → List ℕ → Bool
prompt_is_first [] ids = false
prompt_is_first (e ∷ events) ids = ids_eq e.prompt_token_ids ids && not (any has_prompt events)

-- One event is a terminal, and it is the last; whether it bears tokens.
unfoldable pub final_terminal : List TokenEvent → Option TokenEvent
final_terminal [] = none
final_terminal (e ∷ []) = if e.terminal then some e else none
final_terminal (e ∷ f ∷ events) =
    let rest = final_terminal (f ∷ events) in if e.terminal then none else rest

-- tuple(float(gap) for gap in gaps)
unfoldable pub floats : Library → List ℤ → Option (List ℕ)
floats L [] = some []
floats L (gap ∷ rest) =
    let later = floats L rest in
    elim (L.float gap) [
      | none ↦ none
      | some double ↦ elim later [ none ↦ none | some doubles ↦ some (double ∷ doubles) ]
    ]

-- The metric has the double that the division gives.
abbrev pub metric_is : Library → Metric → Option ℕ → Bool
metric_is L (value double) (some expected) = L.double_eq double expected
metric_is L _ _ = false

abbrev pub is_hash : Option Text → Text → Bool
is_hash none given = false
is_hash (some expected) given = list_eq given expected

abbrev pub metric_is_grouped : Metric → Bool
metric_is_grouped grouped_token_event = true
metric_is_grouped (value _) = false

-- Stage2TimingRecord.validate_chronology.
unfoldable pub timing_is_valid : Timing → Bool
timing_is_valid t =
    is_sorted (
      t.dispatch ∷ t.response_headers ∷ t.first_response_body_bytes ∷ t.first_output_token
      ∷ t.generation_terminal ∷ t.usage_terminal ∷ t.protocol_terminal ∷ t.transport_terminal ∷ [])
    && (ltb t.generation_terminal t.usage_terminal
        && (ltb t.usage_terminal t.protocol_terminal
            && ltb t.protocol_terminal t.transport_terminal))

abbrev pub list_int_eq : List ℤ → List ℤ → Bool
list_int_eq [] [] = true
list_int_eq (m ∷ ms) (n ∷ ns) = int_eq m n && list_int_eq ms ns
list_int_eq _ _ = false

abbrev pub bool_eq : Bool → Bool → Bool
bool_eq true b = b
bool_eq false b = not b

abbrev differs : Option ℕ → ℕ → Disagreement → List Disagreement
differs none expected d = []
differs (some n) expected d = if n == expected then [] else d ∷ []

abbrev pub same_disagreements : List Disagreement → List Disagreement → Bool
same_disagreements [] [] = true
same_disagreements (local_prompt_count ∷ ds) (local_prompt_count ∷ es) = same_disagreements ds es
same_disagreements (local_output_count ∷ ds) (local_output_count ∷ es) = same_disagreements ds es
same_disagreements _ _ = false

-- What the timing and the metrics must say of the events that bear tokens, the first of them `first`.
abbrev pub times_reconcile : Library → RequestEvidence → TokenEvent → Bool
times_reconcile L r terminal = elim (token_bearing r.token_events) [
  | [] ↦ false
  | first ∷ rest ↦
      r.timing.first_output_token == first.observation_offset_ns
      && (r.timing.generation_terminal == terminal.observation_offset_ns
          && (list_int_eq r.stream_output_gap_ns (gaps (first ∷ rest))
              && (if any is_grouped (first ∷ rest)
                  then metric_is_grouped r.client_generation_tpot
                    && metric_is_grouped r.token_observation_itl
                  else metric_is L r.client_generation_tpot (
                      L.int_divide (sub_ℕ r.timing.generation_terminal r.timing.first_output_token)
                        31)
                    && metric_is L r.token_observation_itl (
                        L.int_divide (sum_int (gaps (first ∷ rest)))
                          (length (gaps (first ∷ rest)))))))
]

abbrev expected_disagreements : Option ℕ → Option ℕ → List Disagreement
expected_disagreements prompt output =
    differs prompt 64 local_prompt_count ++ differs output 32 local_output_count

-- Stage2RequestEvidence: the lengths of its fields, and `validate_reconciliation`.
unfoldable pub reconciles : Library → RequestEvidence → Bool
unfolding prompt_is_first final_terminal
reconciles L r = elim (final_terminal r.token_events) [
  | none ↦ false
  | some terminal ↦
      length r.sent_prompt_token_ids == 64
      && (length r.final_output_token_ids == 32
          && (timing_is_valid r.timing
              && (list_eq r.response_request_id (response_id r.external_request_id)
                  && (list_eq r.serving_item_request_id (serving_id r.external_request_id)
                      && (has_hex_suffix (serving_id r.external_request_id ++ codes "-")
                            r.internal_engine_request_id
                          && (list_eq r.sent_prompt_token_ids r.returned_prompt_token_ids
                              && (prompt_is_first r.token_events r.returned_prompt_token_ids
                                  && (list_eq (all_ids r.token_events) r.final_output_token_ids
                                      && (is_sorted (offsets r.token_events)
                                          && (bool_eq r.terminal_event_carried_token_ids
                                                (bears_tokens terminal)
                                              && (list_eq r.output_text (all_text r.token_events)
                                                  && (is_hash
                                                        (L.text_sha256 (all_text r.token_events))
                                                        r.output_text_sha256
                                                      && (times_reconcile L r terminal
                                                          && same_disagreements r.disagreements (
                                                            expected_disagreements
                                                            r.local_prompt_token_count
                                                            r.local_output_token_count))))))))))))))
]
