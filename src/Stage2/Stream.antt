-- ===== src/Stage2/Stream.antt =====
-- src/llm_inference_systems/stage2_protocol.py, Stage2StreamValidator: the state of the validator
-- and its methods up to the end of the body. `json.loads`, SHA-256 and the canonical identity of a
-- log chain are the fields of `Host`; the injected frame clock is a function of the call's number.
pub mod Close
pub mod Effects
pub mod Events
pub mod Invariant
pub mod Sound
pub mod Bearing
pub mod Doubles
pub mod Closed
pub mod Succeeds
pub mod After
mod Tests
use llm_inference_systems.Prelude.{
  ℕ, zero, suc, ◌+◌, ◌-◌, ◌*◌, ◌/◌, ◌%◌, ◌^◌, ◌≤◌, ◌<◌, ◌≡◌, refl, sym, ap, ◌∙◌, ◌≢◌, ◌↔◌, ◌⊎◌, inl,
  inr, Bool, true, false, ◌&&◌, ◌||◌, not, Option, none, some, List, [], ◌∷◌, ◌++◌, map, arith, ltb,
  leb, ◌==◌, if◌then◌else◌, is_some, Bool-cases, Option-cases, ==-eq, ==_refl, &&-split, codes,
  length, length-append, all, any, select, concat, list_eq, list_eq-eq, list_eq_refl, sum, Result,
  ok, err, Result-cases, Outcome-cases, Outcome, returned, raised, Action, view, then_do, ◌>>=◌,
  ◌>>◌, pure, raise, gets, lift, modify, raise_if, ℤ, pos, negsuc, is_negative, magnitude,
}
use llm_inference_systems.Sse
use llm_inference_systems.Sse.{
  SseFrame, Parser, FrameKind, comment, data_event, done, Bytes, SseProtocolError,
}
use llm_inference_systems.Sse.Codec.{Text}
use llm_inference_systems.Stage2.Json.{
  Json, Items, nil, cons, Members, JsonError, without_duplicate_keys, as_object, as_array, as_text,
  token_ids, is_zero, is_null, metrics, is_stage2_usage, array, string, null,
}
use llm_inference_systems.Stage2.Json
use llm_inference_systems.Stage2.Chain.{RequestIdentityChain, response_id}
use llm_inference_systems.Stage2.Evidence.{Library, TokenEvent, nonempty}

pub data ProtocolError : Type 0 where
  sse : SseProtocolError → ProtocolError
  json : JsonError → ProtocolError
  duplicate_response_headers x_request_id_differs not_monotonic : ProtocolError
  data_after_transport_terminal body_before_headers : ProtocolError
  after_protocol_terminal done_before_usage protocol_not_after_usage empty_data : ProtocolError
  body_id_differs not_one_choice generation_after_usage index_differs : ProtocolError
  bad_finish_reason generation_after_terminal duplicate_prompt_ids : ProtocolError
  too_many_output_ids terminal_without_32_ids : ProtocolError
  usage_before_generation duplicate_usage usage_not_after_generation : ProtocolError
  usage_reconciliation_failed usage_without_metrics : ProtocolError
  duplicate_transport_terminal closed_before_protocol transport_not_after_protocol : ProtocolError
  identity_chain_differs missing_boundary prompt_ids_differ missing_usage : ProtocolError
  no_token_event division_by_zero offset_overflow text_not_encodable evidence_invalid :
      ProtocolError

pub record Host : Type 0 where
  pub loads : Text → Option Json
  pub sha256 : Bytes → Text
  pub library : Library
  pub identity : RequestIdentityChain → Text

pub record RetainedBodyChunk : Type 0 where
  pub observation_offset_ns : ℕ
  pub bytes : Bytes
  pub sha256 : Text

pub record RetainedSseEvent : Type 0 where
  pub ordinal : ℕ
  pub observation_offset_ns : ℕ
  pub frame : SseFrame

pub record Validator : Type 0 where
  pub external_base_id : Text
  pub sent_prompt_token_ids : List ℕ
  pub dispatch_offset_ns : ℕ
  pub frame_clock : Option (ℕ → ℕ)
  pub clock_calls : ℕ
  pub parser : Parser
  pub response_headers_offset_ns : Option ℕ
  pub first_body_offset_ns : Option ℕ
  pub generation_terminal_offset_ns : Option ℕ
  pub usage_terminal_offset_ns : Option ℕ
  pub protocol_terminal_offset_ns : Option ℕ
  pub transport_terminal_offset_ns : Option ℕ
  pub token_events : List TokenEvent
  pub returned_prompt_ids : Option (List ℕ)
  pub output_ids : List ℕ
  pub output_text : Text
  pub usage : Bool
  pub server_metrics : Option Members
  pub terminal_carried_tokens : Option Bool
  pub last_observation_offset_ns : ℕ
  pub raw_body_chunks : List RetainedBodyChunk
  pub parsed_sse_events : List RetainedSseEvent

unfoldable pub start : Text → List ℕ → ℕ → Option (ℕ → ℕ) → Validator
start base prompt dispatch clock = record {
  external_base_id = base;
  sent_prompt_token_ids = prompt;
  dispatch_offset_ns = dispatch;
  frame_clock = clock;
  clock_calls = 0;
  parser = record { buffer = []; is_done = false };
  response_headers_offset_ns = none;
  first_body_offset_ns = none;
  generation_terminal_offset_ns = none;
  usage_terminal_offset_ns = none;
  protocol_terminal_offset_ns = none;
  transport_terminal_offset_ns = none;
  token_events = [];
  returned_prompt_ids = none;
  output_ids = [];
  output_text = [];
  usage = false;
  server_metrics = none;
  terminal_carried_tokens = none;
  last_observation_offset_ns = dispatch;
  raw_body_chunks = [];
  parsed_sse_events = [];
}

abbrev pub Method : Type 0 → Type 0
Method A = Action ProtocolError Validator A

abbrev pub current : Method Validator
current v = returned v v

-- A pure helper that raises.
abbrev pub parsed {ℓ} : {A : Type ℓ} → Result JsonError A → Result ProtocolError A
parsed (ok a) = ok a
parsed (err e) = err (json e)

unfoldable pub advance : ℕ → Method (Unit {0})
advance at v =
    if ltb at v.last_observation_offset_ns
    then raised not_monotonic v
    else returned tt (record v { last_observation_offset_ns = at })

unfoldable pub accept_response_headers : Text → ℕ → Method (Unit {0})
unfolding advance
accept_response_headers x_request_id at = do
  v ← current
  raise_if (is_some v.response_headers_offset_ns) duplicate_response_headers
  raise_if (not (list_eq x_request_id v.external_base_id)) x_request_id_differs
  advance at
  modify (λ v. record v { response_headers_offset_ns = some at })

abbrev pub is_text : Text → Option Json → Bool
is_text text (some (string s)) = list_eq s text
is_text text _ = false

-- `finish_reason not in (None, "length")`; `true` for the terminal.
abbrev pub finish_reason : Option Json → Result ProtocolError Bool
finish_reason value =
    if is_null value
    then ok false
    else if is_text (codes "length") value
    then ok true
    else err bad_finish_reason

abbrev or_empty : Option Json → Option Json
or_empty none = some (array nil)
or_empty (some value) = some value

unfoldable pub accept_prompt : Option Json → Method (Unit {0})
accept_prompt value v =
    if is_null value
    then returned tt v
    else if is_some v.returned_prompt_ids
    then raised duplicate_prompt_ids v
    else (lift (parsed (token_ids value)) >>= λ ids w.
          returned tt (record w { returned_prompt_ids = some ids }))
        v

abbrev first_prompt : Validator → Option (List ℕ)
first_prompt v = elim v.token_events [ [] ↦ v.returned_prompt_ids | _ ∷ _ ↦ none ]

-- The tokens of one generation event, once its fields have been read.
unfoldable pub record_tokens : List ℕ → Text → Bool → ℕ → Method (Unit {0})
record_tokens ids text terminal at v =
    let grown = record v { output_ids = v.output_ids ++ ids } in
    let noted = record grown {
      output_text = v.output_text ++ text;
      token_events =
          v.token_events
          ++ (record {
            observation_offset_ns = at;
            output_token_ids = ids;
            text = text;
            terminal = terminal;
            prompt_token_ids = first_prompt v;
          })
            ∷ [];
    } in
    if ltb 32 (length grown.output_ids)
    then raised too_many_output_ids grown
    else if terminal
    then (if length noted.output_ids == 32
        then returned tt (record noted {
          generation_terminal_offset_ns = some at;
          terminal_carried_tokens = some (nonempty ids);
        })
        else raised terminal_without_32_ids noted)
    else returned tt noted

-- `_accept_response` with its one choice.
unfoldable pub accept_choice : Json → ℕ → Method (Unit {0})
accept_choice item at = do
  v ← current
  raise_if (is_some v.usage_terminal_offset_ns) generation_after_usage
  choice ← lift (parsed (as_object (some item)))
  raise_if (not (is_zero (Json.get (codes "index") choice))) index_differs
  text ← lift (parsed (as_text (Json.get (codes "text") choice)))
  ids ← lift (parsed (token_ids (or_empty (Json.get (codes "token_ids") choice))))
  terminal ← lift (finish_reason (Json.get (codes "finish_reason") choice))
  raise_if (is_some v.generation_terminal_offset_ns) generation_after_terminal
  accept_prompt (Json.get (codes "prompt_token_ids") choice)
  record_tokens ids text terminal at

-- `offset <= terminal` in the tests that a terminal follows another strictly.
abbrev pub not_after : ℕ → Option ℕ → Bool
not_after at none = false
not_after at (some earlier) = leb at earlier

unfoldable pub accept_usage : Members → ℕ → Method (Unit {0})
accept_usage value at = do
  v ← current
  raise_if (not (is_some v.generation_terminal_offset_ns)) usage_before_generation
  raise_if (is_some v.usage_terminal_offset_ns) duplicate_usage
  raise_if (not_after at v.generation_terminal_offset_ns) usage_not_after_generation
  usage ← lift (parsed (as_object (Json.get (codes "usage") value)))
  raise_if (not (is_stage2_usage usage)) usage_reconciliation_failed
  modify (λ v. record v { usage = true })
  raise_if (not (Json.has_key (codes "metrics") value)) usage_without_metrics
  server_metrics ← lift (parsed (metrics (Json.get (codes "metrics") value)))
  modify
      (λ v. record v { server_metrics = some server_metrics; usage_terminal_offset_ns = some at })

unfoldable pub accept_choices : Items → Members → ℕ → Method (Unit {0})
accept_choices nil value at = accept_usage value at
accept_choices (cons item nil) value at = accept_choice item at
accept_choices (cons item (cons _ _)) value at = raise not_one_choice

unfoldable pub accept_response : Members → ℕ → Method (Unit {0})
unfolding accept_choices
accept_response value at = do
  v ← current
  raise_if (not (is_text (response_id v.external_base_id) (Json.get (codes "id") value)))
      body_id_differs
  choices ← lift (parsed (as_array (Json.get (codes "choices") value)))
  accept_choices choices value at

unfoldable pub accept_done : ℕ → Method (Unit {0})
accept_done at = do
  v ← current
  raise_if (not (is_some v.usage_terminal_offset_ns)) done_before_usage
  raise_if (not_after at v.usage_terminal_offset_ns) protocol_not_after_usage
  modify (λ v. record v { protocol_terminal_offset_ns = some at })

unfoldable pub accept_data : Host → Option Text → ℕ → Method (Unit {0})
accept_data h none at = raise empty_data
accept_data h (some text) at = do
  decoded ← lift (parsed (without_duplicate_keys (h.loads text)))
  value ← lift (parsed (as_object (some decoded)))
  accept_response value at

unfoldable pub dispatch_frame : Host → FrameKind → SseFrame → ℕ → Method (Unit {0})
dispatch_frame h comment frame at = pure tt
dispatch_frame h done frame at = accept_done at
dispatch_frame h data_event frame at = accept_data h frame.payload at

abbrev pub retain_event : SseFrame → ℕ → Validator → Validator
retain_event frame at v = record v {
  parsed_sse_events =
      v.parsed_sse_events
      ++ (record {
        ordinal = length v.parsed_sse_events;
        observation_offset_ns = at;
        frame = frame;
      })
        ∷ [];
}

-- The body of the loop over frames.
unfoldable pub accept_frame : Host → SseFrame → ℕ → Method (Unit {0})
accept_frame h frame at = do
  modify (retain_event frame at)
  v ← current
  raise_if (is_some v.protocol_terminal_offset_ns) after_protocol_terminal
  dispatch_frame h frame.kind frame at

-- Every frame but the first of a read is dated by the injected clock, if there is one.
unfoldable pub frame_offset : ℕ → ℕ → Method ℕ
frame_offset zero at v = returned at v
frame_offset (suc index) at v = elim v.frame_clock [
  | none ↦ returned at v
  | some clock ↦
      let now = clock v.clock_calls in
      (advance now >>= λ _. pure now) (record v { clock_calls = v.clock_calls + 1 })
]

unfoldable pub accept_frames : Host → ℕ → List SseFrame → ℕ → Method (Unit {0})
accept_frames h index [] at = pure tt
accept_frames h index (frame ∷ frames) at = do
  now ← frame_offset index at
  accept_frame h frame now
  accept_frames h (suc index) frames now

abbrev pub with_parser :
    Validator
    → Outcome SseProtocolError Parser (List SseFrame)
    → Outcome ProtocolError Validator (List SseFrame)
with_parser v (returned frames p) = returned frames (record v { parser = p })
with_parser v (raised e p) = raised (sse e) (record v { parser = p })

unfoldable pub parse_chunk : Bytes → Method (List SseFrame)
parse_chunk chunk v = with_parser v (Sse.feed chunk v.parser)

abbrev pub retain_chunk : Host → Bytes → ℕ → Validator → Validator
retain_chunk h chunk at v =
    if nonempty chunk
    then record v {
      raw_body_chunks =
          v.raw_body_chunks
          ++ (record { observation_offset_ns = at; bytes = chunk; sha256 = h.sha256 chunk }) ∷ [];
    }
    else v

abbrev pub note_first_body : Bytes → ℕ → Validator → Validator
note_first_body chunk at v =
    if nonempty chunk && not (is_some v.first_body_offset_ns)
    then record v { first_body_offset_ns = some at }
    else v

unfoldable pub feed : Host → Bytes → ℕ → Method (Unit {0})
feed h chunk at = do
  modify (retain_chunk h chunk at)
  v ← current
  raise_if (is_some v.transport_terminal_offset_ns) data_after_transport_terminal
  raise_if (not (is_some v.response_headers_offset_ns)) body_before_headers
  advance at
  modify (note_first_body chunk at)
  frames ← parse_chunk chunk
  accept_frames h 0 frames at
