-- ===== src/Stage2/Capture.antt =====
-- src/llm_inference_systems/stage2_protocol.py: Stage2CancellationStreamCapture, which keeps one
-- stream up to its first generation event, and the client's close after it.
pub mod Effects
pub mod Invariant
pub mod Reach
mod Tests
use llm_inference_systems.Prelude.{
  ◌>>=◌, ◌>>◌, ℕ, Bool, true, false, ◌||◌, not, Option, none, some, List, [], ◌∷◌, ◌++◌, ltb,
  if◌then◌else◌, is_some, codes, length, list_eq, Result, ok, err, Outcome, returned, raised,
  Action, pure, raise, gets, lift, modify, raise_if,
}
use llm_inference_systems.Sse
use llm_inference_systems.Sse.{
  SseFrame, Parser, FrameKind, comment, data_event, done, Bytes, SseProtocolError,
}
use llm_inference_systems.Sse.Codec.{Text}
use llm_inference_systems.Stage2.Json
use llm_inference_systems.Stage2.Json.{
  Json, Items, nil, cons, Members, JsonError, without_duplicate_keys, as_object, as_array, as_text,
  token_ids, is_zero, is_null,
}
use llm_inference_systems.Stage2.Chain.{response_id}
use llm_inference_systems.Stage2.Evidence.{nonempty}
use llm_inference_systems.Stage2.Stream.{Host, RetainedBodyChunk, RetainedSseEvent, is_text}

pub data CaptureError : Type 0 where
  sse : SseProtocolError → CaptureError
  json : JsonError → CaptureError
  not_monotonic duplicate_response_headers x_request_id_differs : CaptureError
  bytes_after_close read_after_delivery body_before_headers empty_read : CaptureError
  done_before_close body_id_differs usage_before_close ambiguous_event : CaptureError
  choice_differs terminal_before_close no_output_token_ids prompt_ids_differ : CaptureError
  duplicate_close closed_before_delivery close_precedes_delivery : CaptureError
  completed_before_close duplicate_completion clean_eof : CaptureError

pub record GenerationEvent : Type 0 where
  pub sse_event_ordinal : ℕ
  pub observation_offset_ns : ℕ
  pub output_token_ids : List ℕ
  pub text : Text
  pub prompt_token_ids : Option (List ℕ)

pub record FirstDelivery : Type 0 where
  pub generation_event_ordinal : ℕ
  pub body_chunk_ordinal : ℕ
  pub observation_offset_ns : ℕ
  pub output_token_ids : List ℕ

pub record Capture : Type 0 where
  pub external_base_id : Text
  pub sent_prompt_token_ids : List ℕ
  pub parser : Parser
  pub response_headers_offset_ns : Option ℕ
  pub raw_body_chunks : List RetainedBodyChunk
  pub parsed_sse_events : List RetainedSseEvent
  pub generation_events : List GenerationEvent
  pub first_generation_delivery : Option FirstDelivery
  pub close_offset_ns : Option ℕ
  pub transport_close_completion_offset_ns : Option ℕ
  pub last_observation_offset_ns : ℕ

unfoldable pub start : Text → List ℕ → ℕ → Capture
start base prompt dispatch = record {
  external_base_id = base;
  sent_prompt_token_ids = prompt;
  parser = record { buffer = []; is_done = false };
  response_headers_offset_ns = none;
  raw_body_chunks = [];
  parsed_sse_events = [];
  generation_events = [];
  first_generation_delivery = none;
  close_offset_ns = none;
  transport_close_completion_offset_ns = none;
  last_observation_offset_ns = dispatch;
}

abbrev pub Method : Type 0 → Type 0
Method A = Action CaptureError Capture A

abbrev pub current : Method Capture
current c = returned c c

abbrev parsed {ℓ} : {A : Type ℓ} → Result JsonError A → Result CaptureError A
parsed (ok a) = ok a
parsed (err e) = err (json e)

unfoldable pub advance : ℕ → Method (Unit {0})
advance at c =
    if ltb at c.last_observation_offset_ns
    then raised not_monotonic c
    else returned tt (record c { last_observation_offset_ns = at })

unfoldable pub accept_response_headers : Text → ℕ → Method (Unit {0})
unfolding advance
accept_response_headers x_request_id at = do
  c ← current
  raise_if (is_some c.response_headers_offset_ns) duplicate_response_headers
  raise_if (not (list_eq x_request_id c.external_base_id)) x_request_id_differs
  advance at
  modify (λ c. record c { response_headers_offset_ns = some at })

-- The prompt ids that the next generation event must have.
abbrev pub expected_prompt : Capture → Option (List ℕ)
expected_prompt c = elim c.generation_events [ [] ↦ some c.sent_prompt_token_ids | _ ∷ _ ↦ none ]

abbrev pub same_prompt : Option (List ℕ) → Option (List ℕ) → Bool
same_prompt none none = true
same_prompt (some ids) (some ids') = list_eq ids ids'
same_prompt _ _ = false

abbrev pub prompt_ids : Option Json → Result JsonError (Option (List ℕ))
prompt_ids value =
    if is_null value
    then ok none
    else elim (token_ids value) [ ok ids ↦ ok (some ids) | err e ↦ err e ]

abbrev pub first_of : Option FirstDelivery → FirstDelivery → FirstDelivery
first_of none d = d
first_of (some d) _ = d

-- The event is kept, and the first one is the delivery.
unfoldable pub record_generation : ℕ → ℕ → ℕ → List ℕ → Text → Option (List ℕ) → Capture → Capture
record_generation ordinal chunk at ids text prompt c = record c {
  generation_events =
      c.generation_events
      ++ (record {
        sse_event_ordinal = ordinal;
        observation_offset_ns = at;
        output_token_ids = ids;
        text = text;
        prompt_token_ids = prompt;
      })
        ∷ [];
  first_generation_delivery = some (
      first_of c.first_generation_delivery (record {
        generation_event_ordinal = ordinal;
        body_chunk_ordinal = chunk;
        observation_offset_ns = at;
        output_token_ids = ids;
      }));
}

unfoldable pub accept_choice : Json → ℕ → ℕ → ℕ → Method (Unit {0})
accept_choice item ordinal chunk at = do
  c ← current
  choice ← lift (parsed (as_object (some item)))
  raise_if (not (is_zero (Json.get (codes "index") choice))) choice_differs
  raise_if (not (is_null (Json.get (codes "finish_reason") choice))) terminal_before_close
  text ← lift (parsed (as_text (Json.get (codes "text") choice)))
  ids ← lift (parsed (token_ids (Json.get (codes "token_ids") choice)))
  raise_if (not (nonempty ids)) no_output_token_ids
  prompt ← lift (parsed (prompt_ids (Json.get (codes "prompt_token_ids") choice)))
  raise_if (not (same_prompt prompt (expected_prompt c))) prompt_ids_differ
  modify (record_generation ordinal chunk at ids text prompt)

unfoldable pub accept_choices : Items → ℕ → ℕ → ℕ → Method (Unit {0})
accept_choices (cons item nil) ordinal chunk at = accept_choice item ordinal chunk at
accept_choices _ ordinal chunk at = raise ambiguous_event

unfoldable pub accept_response : Members → ℕ → ℕ → ℕ → Method (Unit {0})
accept_response response ordinal chunk at = do
  c ← current
  raise_if (not (is_text (response_id c.external_base_id) (Json.get (codes "id") response)))
      body_id_differs
  raise_if (Json.has_key (codes "usage") response || Json.has_key (codes "metrics") response)
      usage_before_close
  choices ← lift (parsed (as_array (Json.get (codes "choices") response)))
  accept_choices choices ordinal chunk at

unfoldable pub accept_data : Host → Option Text → ℕ → ℕ → ℕ → Method (Unit {0})
accept_data h none ordinal chunk at = raise done_before_close
accept_data h (some text) ordinal chunk at = do
  decoded ← lift (parsed (without_duplicate_keys (h.loads text)))
  response ← lift (parsed (as_object (some decoded)))
  accept_response response ordinal chunk at

unfoldable pub dispatch_frame : Host → FrameKind → SseFrame → ℕ → ℕ → ℕ → Method (Unit {0})
dispatch_frame h comment frame ordinal chunk at = pure tt
dispatch_frame h done frame ordinal chunk at = raise done_before_close
dispatch_frame h data_event frame ordinal chunk at = accept_data h frame.payload ordinal chunk at

abbrev pub retain_event : SseFrame → ℕ → Capture → Capture
retain_event frame at c = record c {
  parsed_sse_events =
      c.parsed_sse_events
      ++ (record {
        ordinal = length c.parsed_sse_events;
        observation_offset_ns = at;
        frame = frame;
      })
        ∷ [];
}

-- The body of the loop over frames; `chunk` is the number of the chunk that is read.
unfoldable pub accept_frame : Host → SseFrame → ℕ → ℕ → Method (Unit {0})
accept_frame h frame chunk at = do
  c ← current
  modify (retain_event frame at)
  dispatch_frame h frame.kind frame (length c.parsed_sse_events) chunk at

unfoldable pub accept_frames : Host → List SseFrame → ℕ → ℕ → Method (Unit {0})
accept_frames h [] chunk at = pure tt
accept_frames h (frame ∷ frames) chunk at = do
  accept_frame h frame chunk at
  accept_frames h frames chunk at

abbrev with_parser :
    Capture
    → Outcome SseProtocolError Parser (List SseFrame)
    → Outcome CaptureError Capture (List SseFrame)
with_parser c (returned frames p) = returned frames (record c { parser = p })
with_parser c (raised e p) = raised (sse e) (record c { parser = p })

unfoldable pub parse_chunk : Bytes → Method (List SseFrame)
parse_chunk chunk c = with_parser c (Sse.feed chunk c.parser)

abbrev pub retain_chunk : Host → Bytes → ℕ → Capture → Capture
retain_chunk h chunk at c = record c {
  raw_body_chunks =
      c.raw_body_chunks
      ++ (record { observation_offset_ns = at; bytes = chunk; sha256 = h.sha256 chunk }) ∷ [];
}

-- Whether the first generation event has been delivered.
unfoldable pub feed : Host → Bytes → ℕ → Method Bool
feed h chunk at = do
  c ← current
  raise_if (is_some c.close_offset_ns) bytes_after_close
  raise_if (is_some c.first_generation_delivery) read_after_delivery
  raise_if (not (is_some c.response_headers_offset_ns)) body_before_headers
  raise_if (not (nonempty chunk)) empty_read
  advance at
  modify (retain_chunk h chunk at)
  frames ← parse_chunk chunk
  accept_frames h frames (length c.raw_body_chunks) at
  gets (λ c. is_some c.first_generation_delivery)

abbrev pub check_delivery : Option FirstDelivery → ℕ → Method (Unit {0})
check_delivery none at = raise closed_before_delivery
check_delivery (some delivery) at =
    raise_if (ltb at delivery.observation_offset_ns) close_precedes_delivery

unfoldable pub close : ℕ → Method (Unit {0})
close at = do
  c ← current
  raise_if (is_some c.close_offset_ns) duplicate_close
  advance at
  check_delivery c.first_generation_delivery at
  modify (λ c. record c { close_offset_ns = some at })

unfoldable pub complete_transport_close : ℕ → Method (Unit {0})
complete_transport_close at = do
  c ← current
  raise_if (not (is_some c.close_offset_ns)) completed_before_close
  raise_if (is_some c.transport_close_completion_offset_ns) duplicate_completion
  advance at
  modify (λ c. record c { transport_close_completion_offset_ns = some at })

unfoldable pub observe_clean_eof : ℕ → Method (Unit {0})
observe_clean_eof at = do advance at; raise clean_eof
