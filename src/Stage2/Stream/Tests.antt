-- ===== src/Stage2/Stream/Tests.antt =====
-- src/llm_inference_systems/stage2_protocol.py, Stage2StreamValidator: a whole stream of one
-- generation event, and the theorems at it. The JSON documents are read off one-letter texts.
use llm_inference_systems.Stage2.Stream.Succeeds.{closed}
use llm_inference_systems.Stage2.Stream.After.{
  SameDelivery, close_transport-reconciles, feed-SameDelivery, close_transport-refuses,
}
use llm_inference_systems.Stage2.Stream.Close.{
  Boundaries, close_transport, build_evidence, evidence, boundaries, evidence_of_events,
  tpot_and_itl,
}
use llm_inference_systems.Stage2.Evidence.{
  all_text, Library, RequestEvidence, reconciles, grouped_token_event, prompt_is_first,
  final_terminal, timing_is_valid,
}
use llm_inference_systems.Prelude.{
  ℤ, negsuc, Option, sum, ◌==◌, ◌/◌, ℕ, zero, suc, ◌+◌, ◌≡◌, refl, true, none, some, List, [], ◌∷◌,
  ◌++◌, if◌then◌else◌, codes, list_eq, returned, pos, raised, ◌*◌, length,
}
use llm_inference_systems.Sse
use llm_inference_systems.Sse.{Bytes, SseFrame, data_event, done}
use llm_inference_systems.Sse.Codec.{Text}
use llm_inference_systems.Stage2.Json
use llm_inference_systems.Stage2.Json.{
  Json, Items, Members, null, boolean, integer, string, array, object, nil, cons, end, member,
}
use llm_inference_systems.Stage2.Chain.{
  response_id, RawLogRecord, RequestIdentityChain, serving_id, has_hex_suffix, remove_prefix,
}
use llm_inference_systems.Stage2.Stream.{
  Host, Validator, start, accept_response_headers, feed, RetainedSseEvent, advance, parse_chunk,
  accept_frames, frame_offset, accept_frame, accept_choice, accept_choices, accept_data,
  accept_done, accept_prompt, accept_response, accept_usage, dispatch_frame, record_tokens,
  TokenEvent, data_after_transport_terminal, retain_chunk, duplicate_transport_terminal,
}
use llm_inference_systems.Stage2.Stream.Invariant.{IsSound}
use llm_inference_systems.Stage2.Stream.Sound.{Reach, started, headed, read, Reach-IsSound}

abbrev repeated : ℕ → List ℕ
repeated zero = []
repeated (suc n) = 7 ∷ repeated n

abbrev json_ids : List ℕ → Items
json_ids [] = nil
json_ids (i ∷ ids) = cons (integer (pos i)) (json_ids ids)

abbrev base : Text
base = codes "req-1"

abbrev generation_json : Json
generation_json = object (
    member (codes "id") (string (response_id base)) (
      member (codes "choices")
        (array (
          cons
            (object (
              member (codes "index") (integer (pos 0)) (
                member (codes "text") (string (codes "hello")) (
                  member (codes "token_ids") (array (json_ids (repeated 32))) (
                    member (codes "prompt_token_ids") (array (json_ids (repeated 64)))
                      (member (codes "finish_reason") (string (codes "length")) end))))))
            nil))
        end))

abbrev metrics_json : Members
metrics_json = member (codes "time_to_first_token_ms") null (
    member (codes "generation_time_ms") (integer (pos 4)) (
      member (codes "queue_time_ms") null
        (member (codes "mean_itl_ms") null (member (codes "tokens_per_second") null end))))

abbrev usage_json : Json
usage_json = object (
    member (codes "id") (string (response_id base)) (
      member (codes "choices") (array nil) (
        member (codes "usage")
          (object (
            member (codes "prompt_tokens") (integer (pos 64)) (
              member (codes "completion_tokens") (integer (pos 32))
                (member (codes "total_tokens") (integer (pos 96)) end))))
          (member (codes "metrics") (object metrics_json) end))))

-- Whole numbers for doubles.
abbrev whole_quotient : ℤ → ℕ → Option ℕ
whole_quotient (pos n) d = some (n / d)
whole_quotient (negsuc n) d = none

abbrev whole_float : ℤ → Option ℕ
whole_float (pos n) = some n
whole_float (negsuc n) = none

abbrev library : Library
library = record {
  text_sha256 = λ text. some text;
  int_divide = whole_quotient;
  float = whole_float;
  float_sum = sum;
  float_divide = λ n d. n / d;
  double_eq = λ a b. a == b;
  is_nonnegative = λ a. true;
}

abbrev host : Host
host = record {
  loads = λ text.
      if list_eq text (codes "g")
      then some generation_json
      else if list_eq text (codes "u")
      then some usage_json
      else none;
  sha256 = λ bytes. bytes;
  library = library;
  identity = λ chain. chain.internal_engine_id;
}

abbrev break : Bytes
break = 10 ∷ 10 ∷ []

abbrev body : Bytes
body = codes "data: g" ++ break ++ codes "data: u" ++ break ++ codes "data: [DONE]" ++ break

abbrev fresh : Validator
fresh = start base (repeated 64) 100 (some (λ n. 120 + n))

abbrev headers_seen : Validator
headers_seen = record fresh {
  last_observation_offset_ns = 110;
  response_headers_offset_ns = some 110;
}

abbrev event : ℕ → ℕ → SseFrame → RetainedSseEvent
event n at frame = record { ordinal = n; observation_offset_ns = at; frame = frame }

abbrev answered : Validator
answered = record headers_seen {
  clock_calls = 2;
  parser = record { buffer = []; is_done = true };
  last_observation_offset_ns = 121;
  first_body_offset_ns = some 115;
  generation_terminal_offset_ns = some 115;
  usage_terminal_offset_ns = some 120;
  protocol_terminal_offset_ns = some 121;
  token_events =
      (record {
        observation_offset_ns = 115;
        output_token_ids = repeated 32;
        text = codes "hello";
        terminal = true;
        prompt_token_ids = some (repeated 64);
      })
      ∷ [];
  returned_prompt_ids = some (repeated 64);
  output_ids = repeated 32;
  output_text = codes "hello";
  usage = true;
  server_metrics = some metrics_json;
  terminal_carried_tokens = some true;
  raw_body_chunks = (record { observation_offset_ns = 115; bytes = body; sha256 = body }) ∷ [];
  parsed_sse_events =
      event 0 115 (record { kind = data_event; payload = some (codes "g"); comments = [] })
      ∷ event 1 120 (record { kind = data_event; payload = some (codes "u"); comments = [] })
      ∷ event 2 121 (record { kind = done; payload = some (codes "[DONE]"); comments = [] })
      ∷ [];
}

body_run : feed host body 115 headers_seen ≡ returned tt answered
unfolding feed start advance parse_chunk Sse.feed Sse.drain Sse.replace_crlf Sse.split_frame
    Sse.parse_frame Sse.decode_utf8 Sse.contains Sse.read_lines Sse.split_lines Sse.after_prefix
    Sse.join_lines Sse.drop_one_space accept_frames frame_offset accept_frame Sse.lstrip_spaces
    Sse.accept_fields Sse.read_line Json.as_array Json.as_object Json.as_text Json.get
    Json.has_duplicate Json.is_stage2_usage Json.is_zero Json.metric_value Json.metrics
    Json.token_ids Json.without_duplicate_keys accept_choice accept_choices accept_data accept_done
    accept_prompt accept_response accept_usage dispatch_frame record_tokens
body_run = refl

headers_run : accept_response_headers base 110 fresh ≡ returned tt headers_seen
unfolding start accept_response_headers
headers_run = refl

answered-Reach : Reach host answered
answered-Reach =
    read body 115
      (headed base 110 (started base (repeated 64) 100 (some (λ n. 120 + n))) headers_run) body_run

Reach-IsSound_example : IsSound answered
Reach-IsSound_example = Reach-IsSound host answered-Reach

abbrev engine : Text
engine = serving_id base ++ codes "-0a1b2c3d"

abbrev log_record : ℕ → Text → RawLogRecord
log_record n line = record {
  source_stream_id = codes "server-raw-log";
  record_ordinal = n;
  byte_start = n * 100;
  byte_end = n * 100 + length line;
  observation_offset_ns = 100 + n;
  raw_record = line;
  raw_record_sha256 = line;
}

abbrev chain : RequestIdentityChain
chain = record {
  external_base_id = base;
  response_body_id = response_id base;
  serving_item_id = serving_id base;
  internal_engine_id = engine;
  request_received_log = log_record 0 (codes "Received request " ++ serving_id base ++ codes ": x");
  request_add_log = log_record 1 (codes "Added request " ++ engine ++ codes ".");
  external_abort_log = none;
  internal_abort_log = none;
}

abbrev at_close : Validator
at_close = closed answered 130

abbrev bounds : Boundaries
bounds = record {
  response_headers = 110;
  first_body = 115;
  generation = 115;
  usage = 120;
  protocol = 121;
  transport = 130;
}

abbrev only_event : TokenEvent
only_event = record {
  observation_offset_ns = 115;
  output_token_ids = repeated 32;
  text = codes "hello";
  terminal = true;
  prompt_token_ids = some (repeated 64);
}

abbrev made : RequestEvidence
made =
    build_evidence host chain at_close bounds (repeated 64) metrics_json true only_event []
      (grouped_token_event, grouped_token_event) (all_text at_close.token_events)

close_run : close_transport host chain 130 answered ≡ returned made at_close
unfolding start close_transport advance Sse.finalize Sse.replace_crlf evidence boundaries
    evidence_of_events tpot_and_itl reconciles build_evidence has_hex_suffix remove_prefix
    prompt_is_first final_terminal timing_is_valid
close_run = refl

close_transport-reconciles_example :
    (reconciles host.library made ≡ true)
    × (made.external_request_id ≡ base)
    × (made.request_identity_chain_sha256 ≡ engine)
    × (made.sent_prompt_token_ids ≡ repeated 64)
    × (made.token_events ≡ only_event ∷ [])
    × (made.final_output_token_ids ≡ repeated 32)
    × (made.output_text ≡ codes "hello")
    × (some made.timing.protocol_terminal ≡ some 121)
    × (made.timing.transport_terminal ≡ 130)
unfolding start
close_transport-reconciles_example =
    close_transport-reconciles host chain 130 answered at_close made close_run

close_transport-refuses_example :
    (feed host body 140 at_close
      ≡ raised data_after_transport_terminal (retain_chunk host body 140 at_close))
    × (close_transport host chain 140 at_close ≡ raised duplicate_transport_terminal at_close)
close_transport-refuses_example =
    close_transport-refuses host chain chain 130 140 body answered at_close made close_run

abbrev after_comment : Validator
after_comment = record answered {
  last_observation_offset_ns = 125;
  parser = record { buffer = codes ":"; is_done = true };
  raw_body_chunks =
      answered.raw_body_chunks
      ++ (record { observation_offset_ns = 125; bytes = codes ":"; sha256 = codes ":" }) ∷ [];
}

comment_run : feed host (codes ":") 125 answered ≡ returned tt after_comment
unfolding start feed advance parse_chunk Sse.feed Sse.drain Sse.replace_crlf Sse.split_frame
    accept_frames
comment_run = refl

feed-SameDelivery_example : SameDelivery answered after_comment
unfolding start
feed-SameDelivery_example =
    feed-SameDelivery host (codes ":") 125 121 answered after_comment tt refl comment_run
