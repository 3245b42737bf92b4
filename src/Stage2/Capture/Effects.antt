-- ===== src/Stage2/Capture/Effects.antt =====
-- src/llm_inference_systems/stage2_protocol.py, Stage2CancellationStreamCapture: what a method that
-- returned tested, and what it wrote.
use llm_inference_systems.Prelude.{
  ℕ, ◌≤◌, ◌≡◌, Bool, true, Option, none, some, List, [], arith, is_some, codes, length, Result, ok,
  err, returned, then_do,
}
use llm_inference_systems.Sse.{Bytes, Text}
use llm_inference_systems.Stage2.Json
use llm_inference_systems.Stage2.Json.{Json, Items, Members, nil, cons, end}
use llm_inference_systems.Stage2.Evidence.{nonempty}
use llm_inference_systems.Stage2.Stream.{Host}
use llm_inference_systems.Stage2.Capture.{
  Capture, advance, accept_response_headers, accept_choice, accept_frames, feed, close,
  complete_transport_close, record_generation, retain_chunk, parse_chunk, same_prompt, as_text,
  expected_prompt, prompt_ids, token_ids, as_object,
}

pub advance_effect :
    (at : ℕ) (c d : Capture) (u : Unit {0})
    → advance at c ≡ returned u d
    → (c.last_observation_offset_ns ≤ at) × (d ≡ record c { last_observation_offset_ns = at })
unfolding advance
advance_effect at c d u e = ground arith

pub headers_effect :
    (id : Text) (at : ℕ) (c d : Capture) (u : Unit {0})
    → accept_response_headers id at c ≡ returned u d
    → (c.last_observation_offset_ns ≤ at)
      × (d ≡ record c { last_observation_offset_ns = at; response_headers_offset_ns = some at })
unfolding accept_response_headers
headers_effect id at c d u e = ground arith

unfoldable pub result_of {ℓ κ} : {E : Type κ} {A : Type ℓ} → A → Result E A → A
result_of a (ok b) = b
result_of a (err e) = a

pub fields_of : Json → Members
fields_of item = result_of end (as_object (some item))

pub ids_of : Json → List ℕ
ids_of item = result_of [] (token_ids (Json.get (codes "token_ids") (fields_of item)))

pub text_of : Json → Text
text_of item = result_of [] (as_text (Json.get (codes "text") (fields_of item)))

pub prompt_of : Json → Option (List ℕ)
prompt_of item = result_of none (prompt_ids (Json.get (codes "prompt_token_ids") (fields_of item)))

-- A choice that is accepted has tokens and the prompt ids that are due.
pub accept_choice_effect :
    (item : Json) (ordinal chunk at : ℕ) (c d : Capture) (u : Unit {0})
    → accept_choice item ordinal chunk at c ≡ returned u d
    → (nonempty (ids_of item) ≡ true)
      × (same_prompt (prompt_of item) (expected_prompt c) ≡ true)
      × (d ≡ record_generation ordinal chunk at (ids_of item) (text_of item) (prompt_of item) c)
unfolding accept_choice result_of fields_of ids_of text_of prompt_of
accept_choice_effect item ordinal chunk at c d u e = ground arith

pub close_effect :
    (at : ℕ) (c d : Capture) (u : Unit {0})
    → close at c ≡ returned u d
    → (c.close_offset_ns ≡ none)
      × (c.last_observation_offset_ns ≤ at)
      × (is_some c.first_generation_delivery ≡ true)
      × (d ≡ record c { last_observation_offset_ns = at; close_offset_ns = some at })
unfolding close advance
close_effect at c d u e = ground arith

pub complete_effect :
    (at : ℕ) (c d : Capture) (u : Unit {0})
    → complete_transport_close at c ≡ returned u d
    → (is_some c.close_offset_ns ≡ true)
      × (c.transport_close_completion_offset_ns ≡ none)
      × (c.last_observation_offset_ns ≤ at)
      × (d ≡ record c {
        last_observation_offset_ns = at;
        transport_close_completion_offset_ns = some at;
      })
unfolding complete_transport_close advance
complete_effect at c d u e = ground arith

pub feed_effect :
    (h : Host) (chunk : Bytes) (at : ℕ) (c d : Capture) (b : Bool)
    → feed h chunk at c ≡ returned b d
    → (c.close_offset_ns ≡ none)
      × (c.first_generation_delivery ≡ none)
      × (is_some c.response_headers_offset_ns ≡ true)
      × (nonempty chunk ≡ true)
      × (c.last_observation_offset_ns ≤ at)
      × (b ≡ is_some d.first_generation_delivery)
      × (then_do
            (parse_chunk chunk
              (retain_chunk h chunk at (record c { last_observation_offset_ns = at })))
            (λ frames. accept_frames h frames (length c.raw_body_chunks) at)
          ≡ returned tt d)
unfolding feed advance
feed_effect h chunk at c d b e = ground arith
