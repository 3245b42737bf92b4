-- ===== src/Stage2/Stream/Close.antt =====
-- src/llm_inference_systems/stage2_protocol.py, Stage2StreamValidator: the end of the transport, and
-- the evidence that is built from the validator's state.
use llm_inference_systems.Prelude.{
  ℕ, Bool, ◌&&◌, not, Option, none, some, List, [], ◌∷◌, ◌==◌, if◌then◌else◌, is_some, length, any,
  list_eq, Result, ok, err, ◌>>=◌, ◌>>◌, lift, modify, raise_if, sub_ℕ, ℤ,
}
use llm_inference_systems.Sse
use llm_inference_systems.Stage2.Json.{Members}
use llm_inference_systems.Stage2.Chain.{RequestIdentityChain, response_id, serving_id}
use llm_inference_systems.Stage2.Evidence.{
  RequestEvidence, TokenEvent, Metric, value, grouped_token_event, token_bearing, gaps, is_grouped,
  reconciles, Library, floats,
}
use llm_inference_systems.Stage2.Stream.{
  Host, Validator, Method, current, advance, not_after, ProtocolError, sse,
  duplicate_transport_terminal, closed_before_protocol, transport_not_after_protocol,
  identity_chain_differs, missing_boundary, prompt_ids_differ, missing_usage, no_token_event,
  division_by_zero, offset_overflow, text_not_encodable, evidence_invalid,
}
use llm_inference_systems.Sse.{Text}

-- The six boundaries, if all of them were observed.
pub record Boundaries : Type 0 where
  pub response_headers : ℕ
  pub first_body : ℕ
  pub generation : ℕ
  pub usage : ℕ
  pub protocol : ℕ
  pub transport : ℕ

infixr 20 ◌and_then◌
abbrev ◌and_then◌ {ℓ κ} : {A : Type ℓ} {B : Type κ} → Option A → (A → Option B) → Option B
none and_then f = none
some a and_then f = f a

unfoldable pub boundaries : Validator → Option Boundaries
boundaries v = v.response_headers_offset_ns and_then λ response_headers.
    v.first_body_offset_ns and_then λ first_body.
    v.generation_terminal_offset_ns and_then λ generation.
    v.usage_terminal_offset_ns and_then λ usage. v.protocol_terminal_offset_ns and_then λ protocol.
    v.transport_terminal_offset_ns and_then λ transport. some (record {
      response_headers = response_headers;
      first_body = first_body;
      generation = generation;
      usage = usage;
      protocol = protocol;
      transport = transport;
    })

-- MetricAvailability of a double, which its field may refuse.
abbrev available : Library → ℕ → Result ProtocolError Metric
available L double = if L.is_nonnegative double then ok (value double) else err evidence_invalid

-- The mean of the gaps, as the sum of their doubles divided by their number.
unfoldable pub mean_gap : Library → List ℤ → Result ProtocolError Metric
mean_gap L gaps = elim (floats L gaps) [
  | none ↦ err offset_overflow
  | some doubles ↦
      if length doubles == 0
      then err division_by_zero
      else available L (L.float_divide (L.float_sum doubles) (length doubles))
]

-- The time per output token, and the mean gap between token events.
unfoldable pub tpot_and_itl :
    Library → ℕ → List TokenEvent → ℕ → Result ProtocolError (Metric × Metric)
tpot_and_itl L generation events first =
    if any is_grouped events
    then ok (grouped_token_event, grouped_token_event)
    else elim (L.int_divide (sub_ℕ generation first) 31) [
      | none ↦ err offset_overflow
      | some quotient ↦ elim (available L quotient) [
        | err e ↦ err e
        | ok tpot ↦ elim (mean_gap L (gaps events)) [ err e ↦ err e | ok itl ↦ ok (tpot, itl) ]
      ]
    ]

unfoldable pub build_evidence :
    Host
    → RequestIdentityChain
    → Validator
    → Boundaries
    → List ℕ
    → Members
    → Bool
    → TokenEvent
    → List TokenEvent
    → Metric × Metric
    → Text
    → RequestEvidence
build_evidence h chain v b returned_ids server_metrics carried first rest m digest = record {
  request_identity_chain_sha256 = h.identity chain;
  external_request_id = v.external_base_id;
  response_request_id = response_id v.external_base_id;
  serving_item_request_id = serving_id v.external_base_id;
  internal_engine_request_id = chain.internal_engine_id;
  sent_prompt_token_ids = v.sent_prompt_token_ids;
  returned_prompt_token_ids = returned_ids;
  token_events = v.token_events;
  final_output_token_ids = v.output_ids;
  terminal_event_carried_token_ids = carried;
  local_prompt_token_count = none;
  local_output_token_count = none;
  server_per_request_metrics = server_metrics;
  disagreements = [];
  output_text = v.output_text;
  output_text_sha256 = digest;
  timing = record {
    dispatch = v.dispatch_offset_ns;
    response_headers = b.response_headers;
    first_response_body_bytes = b.first_body;
    first_output_token = first.observation_offset_ns;
    generation_terminal = b.generation;
    usage_terminal = b.usage;
    protocol_terminal = b.protocol;
    transport_terminal = b.transport;
  };
  client_generation_tpot = m.0;
  token_observation_itl = m.1;
  stream_output_gap_ns = gaps (first ∷ rest);
}

-- `_evidence`, once usage, metrics and terminal are known.
unfoldable pub evidence_of_events :
    Host
    → RequestIdentityChain
    → Validator
    → Boundaries
    → List ℕ
    → Members
    → Bool
    → List TokenEvent
    → Result ProtocolError RequestEvidence
evidence_of_events h chain v b ids server_metrics carried [] = err no_token_event
evidence_of_events h chain v b ids server_metrics carried (first ∷ rest) =
    elim (tpot_and_itl h.library b.generation (first ∷ rest) first.observation_offset_ns) [
      | err e ↦ err e
      | ok m ↦ elim (h.library.text_sha256 v.output_text) [
        | none ↦ err text_not_encodable
        | some digest ↦
            let built = build_evidence h chain v b ids server_metrics carried first rest m digest in
            if reconciles h.library built then ok built else err evidence_invalid
      ]
    ]

unfoldable pub evidence :
    Host → RequestIdentityChain → Validator → Result ProtocolError RequestEvidence
evidence h chain v = elim (boundaries v) [
  | none ↦ err missing_boundary
  | some b ↦ elim v.returned_prompt_ids [
    | none ↦ err prompt_ids_differ
    | some ids ↦
        if not (list_eq ids v.sent_prompt_token_ids)
        then err prompt_ids_differ
        else if not v.usage
        then err missing_usage
        else elim v.server_metrics [
          | none ↦ err missing_usage
          | some server_metrics ↦ elim v.terminal_carried_tokens [
            | none ↦ err missing_usage
            | some carried ↦
                evidence_of_events h chain v b ids server_metrics carried
                  (token_bearing v.token_events)
          ]
        ]
  ]
]

abbrev pub chain_matches : RequestIdentityChain → Validator → Bool
chain_matches chain v =
    list_eq chain.external_base_id v.external_base_id
    && (list_eq chain.response_body_id (response_id v.external_base_id)
        && (list_eq chain.serving_item_id (serving_id v.external_base_id)
            && (not (is_some chain.external_abort_log) && not (is_some chain.internal_abort_log))))

abbrev pub finalized : Validator → Result ProtocolError (Unit {0})
finalized v = elim (Sse.finalize v.parser) [ ok _ ↦ ok tt | err e ↦ err (sse e) ]

unfoldable pub close_transport : Host → RequestIdentityChain → ℕ → Method RequestEvidence
close_transport h chain at = do
  v ← current
  raise_if (is_some v.transport_terminal_offset_ns) duplicate_transport_terminal
  advance at
  lift (finalized v)
  raise_if (not (is_some v.protocol_terminal_offset_ns)) closed_before_protocol
  raise_if (not_after at v.protocol_terminal_offset_ns) transport_not_after_protocol
  modify (λ v. record v { transport_terminal_offset_ns = some at })
  raise_if (not (chain_matches chain v)) identity_chain_differs
  w ← current
  lift (evidence h chain w)
