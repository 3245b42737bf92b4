-- ===== src/Stage2/Capture/Tests.antt =====
-- src/llm_inference_systems/stage2_protocol.py, Stage2CancellationStreamCapture: one delivery and the
-- close after it, and the theorems at them.
use llm_inference_systems.Prelude.{
  ℤ, pos, negsuc, Option, sum, ◌==◌, ◌/◌, ℕ, ◌≡◌, refl, true, none, some, List, [], ◌∷◌, ◌++◌,
  if◌then◌else◌, is_some, codes, list_eq, returned, raised,
}
use llm_inference_systems.Stage2.Evidence.{Library}
use llm_inference_systems.Sse
use llm_inference_systems.Sse.{Bytes, SseFrame, data_event}
use llm_inference_systems.Sse.Codec.{Text}
use llm_inference_systems.Stage2.Json
use llm_inference_systems.Stage2.Json.{Json, integer, string, array, object, nil, cons, end, member}
use llm_inference_systems.Stage2.Chain.{response_id}
use llm_inference_systems.Stage2.Stream.{Host}
use llm_inference_systems.Stage2.Capture.{
  Capture, start, accept_response_headers, feed, close, advance, parse_chunk, accept_frames,
  accept_frame, dispatch_frame, accept_data, accept_response, accept_choices, accept_choice,
  record_generation, bytes_after_close, read_after_delivery, duplicate_close,
}
use llm_inference_systems.Stage2.Capture.Invariant.{IsSound}
use llm_inference_systems.Stage2.Capture.Reach.{
  Reach, started, headed, read, capture-IsSound, close-refuses, feed-delivers,
}

abbrev base : Text
base = codes "req-2"

abbrev one_two : List ℕ
one_two = 1 ∷ 2 ∷ []

abbrev event_json : Json
event_json = object (
    member (codes "id") (string (response_id base)) (
      member (codes "choices")
        (array (
          cons
            (object (
              member (codes "index") (integer (pos 0)) (
                member (codes "text") (string (codes "hi")) (
                  member (codes "token_ids") (array (cons (integer (pos 9)) nil)) (
                    member (codes "prompt_token_ids")
                      (array (cons (integer (pos 1)) (cons (integer (pos 2)) nil))) end)))))
            nil))
        end))

-- Whole numbers for doubles.
abbrev whole_quotient : ℤ → ℕ → Option ℕ
whole_quotient (pos n) d = some (n / d)
whole_quotient (negsuc n) d = none

abbrev whole_float : ℤ → Option ℕ
whole_float (pos n) = some n
whole_float (negsuc n) = none

abbrev library : Library
library = record {
  text_sha256 = λ text. some text;
  int_divide = whole_quotient;
  float = whole_float;
  float_sum = sum;
  float_divide = λ n d. n / d;
  double_eq = λ a b. a == b;
  is_nonnegative = λ a. true;
}

abbrev host : Host
host = record {
  loads = λ text. if list_eq text (codes "g") then some event_json else none;
  sha256 = λ bytes. bytes;
  library = library;
  identity = λ chain. chain.internal_engine_id;
}

abbrev body : Bytes
body = codes "data: g" ++ 10 ∷ 10 ∷ []

abbrev fresh : Capture
fresh = start base one_two 100

abbrev answered : Capture
answered = record fresh { last_observation_offset_ns = 110; response_headers_offset_ns = some 110 }

abbrev delivered : Capture
delivered = record answered {
  last_observation_offset_ns = 115;
  raw_body_chunks = (record { observation_offset_ns = 115; bytes = body; sha256 = body }) ∷ [];
  parsed_sse_events =
      (record {
        ordinal = 0;
        observation_offset_ns = 115;
        frame = record { kind = data_event; payload = some (codes "g"); comments = [] };
      })
      ∷ [];
  generation_events =
      (record {
        sse_event_ordinal = 0;
        observation_offset_ns = 115;
        output_token_ids = 9 ∷ [];
        text = codes "hi";
        prompt_token_ids = some one_two;
      })
      ∷ [];
  first_generation_delivery = some (record {
    generation_event_ordinal = 0;
    body_chunk_ordinal = 0;
    observation_offset_ns = 115;
    output_token_ids = 9 ∷ [];
  });
}

headers_run : accept_response_headers base 110 fresh ≡ returned tt answered
unfolding start accept_response_headers
headers_run = refl

body_run : feed host body 115 answered ≡ returned true delivered
unfolding start feed advance parse_chunk accept_frames accept_frame dispatch_frame accept_data
    accept_response accept_choices accept_choice record_generation Sse.feed Sse.drain
    Sse.replace_crlf Sse.split_frame Sse.parse_frame Sse.decode_utf8 Sse.contains Sse.read_lines
    Sse.split_lines Sse.after_prefix Sse.join_lines Sse.drop_one_space Sse.accept_fields
    Sse.read_line Json.as_array Json.as_object Json.as_text Json.get Json.has_duplicate Json.is_zero
    Json.token_ids Json.without_duplicate_keys
body_run = refl

answered-Reach : Reach host answered
answered-Reach = headed base 110 (started base one_two 100) headers_run

capture-IsSound_example : IsSound delivered
capture-IsSound_example = capture-IsSound host (read body 115 true answered-Reach body_run)

feed-delivers_example :
    (is_some delivered.first_generation_delivery ≡ true)
    × (delivered.close_offset_ns ≡ none)
    × (feed host body 116 delivered ≡ raised read_after_delivery delivered)
feed-delivers_example = feed-delivers host body body 115 116 answered-Reach body_run

abbrev closed : Capture
closed = record delivered { last_observation_offset_ns = 120; close_offset_ns = some 120 }

close_run : close 120 delivered ≡ returned tt closed
unfolding start close advance
close_run = refl

close-refuses_example :
    (feed host body 125 closed ≡ raised bytes_after_close closed)
    × (close 125 closed ≡ raised duplicate_close closed)
close-refuses_example = close-refuses host body 120 125 delivered closed close_run
