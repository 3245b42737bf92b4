-- ===== src/Stage2/Stream/Effects.antt =====
-- src/llm_inference_systems/stage2_protocol.py, Stage2StreamValidator: what each method that returned
-- has tested, and what it has written.
use llm_inference_systems.Prelude.{
  zero, suc, ◌≤◌, list_eq, Outcome, raised, ok, err, Result, List, [], codes, ℕ, ◌≡◌, true, false,
  Option, some, arith, is_some, returned, Bool, length, ◌++◌, ◌∷◌, if◌then◌else◌, ◌⊎◌, none, ◌+◌,
  suc, Bool-cases, inl, Result-cases, inr,
}
use llm_inference_systems.Stage2.Json
use llm_inference_systems.Stage2.Json.{Json, Members, end, as_object, as_text, token_ids}
use llm_inference_systems.Sse.{SseFrame}
use llm_inference_systems.Stage2.Json.{as_array, without_duplicate_keys, nil, null}
use llm_inference_systems.Stage2.Chain.{response_id}
use llm_inference_systems.Stage2.Stream.{
  is_text, Host, accept_response, accept_choices, accept_data, accept_frame, dispatch_frame,
  retain_event, frame_offset, Validator, not_after, accept_usage, accept_done, accept_prompt,
  ProtocolError, accept_choice, or_empty, finish_reason, record_tokens, accept_response_headers,
  advance, TokenEvent, first_prompt, nonempty,
}
use llm_inference_systems.Sse.{Text}

pub accept_usage_effect :
    (value : Members) (at : ℕ) (v v' : Validator) (u : Unit {0})
    → accept_usage value at v ≡ returned u v'
    → (is_some v.generation_terminal_offset_ns ≡ true)
      × (is_some v.usage_terminal_offset_ns ≡ false)
      × (not_after at v.generation_terminal_offset_ns ≡ false)
      × (is_some v'.server_metrics ≡ true)
      × (v' ≡ record v {
        usage = true;
        server_metrics = v'.server_metrics;
        usage_terminal_offset_ns = some at;
      })
unfolding accept_usage
accept_usage_effect value at v v' u h = ground arith

pub accept_done_effect :
    (at : ℕ) (v v' : Validator) (u : Unit {0})
    → accept_done at v ≡ returned u v'
    → (is_some v.usage_terminal_offset_ns ≡ true)
      × (not_after at v.usage_terminal_offset_ns ≡ false)
      × (v' ≡ record v { protocol_terminal_offset_ns = some at })
unfolding accept_done
accept_done_effect at v v' u h = ground arith

pub accept_prompt_effect :
    (value : Option Json) (v v' : Validator) (u : Unit {0})
    → accept_prompt value v ≡ returned u v'
    → v' ≡ record v { returned_prompt_ids = v'.returned_prompt_ids }
unfolding accept_prompt
accept_prompt_effect value v v' u h = ground arith

pub result_of {ℓ κ} : {E : Type κ} {A : Type ℓ} → A → Result E A → A
result_of a (ok b) = b
result_of a (err e) = a

state_of {ℓ} : {A : Type ℓ} → Outcome ProtocolError Validator A → Validator
state_of (returned a v) = v
state_of (raised e v) = v

pub fields_of : Json → Members
fields_of item = result_of end (as_object (some item))

pub ids_of : Json → List ℕ
ids_of item = result_of [] (token_ids (or_empty (Json.get (codes "token_ids") (fields_of item))))

pub text_of : Json → Text
text_of item = result_of [] (as_text (Json.get (codes "text") (fields_of item)))

pub terminal_of : Json → Bool
terminal_of item =
    result_of false (finish_reason (Json.get (codes "finish_reason") (fields_of item)))

pub after_prompt : Json → Validator → Validator
after_prompt item v =
    state_of (accept_prompt (Json.get (codes "prompt_token_ids") (fields_of item)) v)

pub accept_choice_effect :
    (item : Json) (at : ℕ) (v v' : Validator) (u : Unit {0})
    → accept_choice item at v ≡ returned u v'
    → (is_some v.usage_terminal_offset_ns ≡ false)
      × (is_some v.generation_terminal_offset_ns ≡ false)
      × (accept_prompt (Json.get (codes "prompt_token_ids") (fields_of item)) v
          ≡ returned tt (after_prompt item v))
      × (record_tokens (ids_of item) (text_of item) (terminal_of item) at (after_prompt item v)
          ≡ returned tt v')
unfolding accept_choice result_of fields_of ids_of text_of terminal_of after_prompt state_of
accept_choice_effect item at v v' u h = ground arith

pub advance_effect :
    (at : ℕ) (v v' : Validator) (u : Unit {0})
    → advance at v ≡ returned u v'
    → (v.last_observation_offset_ns ≤ at) × (v' ≡ record v { last_observation_offset_ns = at })
unfolding advance
advance_effect at v v' u h = ground arith

pub accept_response_headers_effect :
    (id : Text) (at : ℕ) (v v' : Validator) (u : Unit {0})
    → accept_response_headers id at v ≡ returned u v'
    → (is_some v.response_headers_offset_ns ≡ false)
      × (list_eq id v.external_base_id ≡ true)
      × (v.last_observation_offset_ns ≤ at)
      × (v' ≡ record v { last_observation_offset_ns = at; response_headers_offset_ns = some at })
unfolding accept_response_headers
accept_response_headers_effect id at v v' u h = ground arith

-- The event that a generation frame adds.
abbrev pub new_event : List ℕ → Text → Bool → ℕ → Validator → TokenEvent
new_event ids text terminal at v = record {
  observation_offset_ns = at;
  output_token_ids = ids;
  text = text;
  terminal = terminal;
  prompt_token_ids = first_prompt v;
}

pub record_tokens_effect :
    (ids : List ℕ) (text : Text) (terminal : Bool) (at : ℕ) (v v' : Validator) (u : Unit {0})
    → record_tokens ids text terminal at v ≡ returned u v'
    → (length (v.output_ids ++ ids) ≤ 32)
      × (terminal ≡ true → length (v.output_ids ++ ids) ≡ 32)
      × (v' ≡ record v {
        output_ids = v.output_ids ++ ids;
        output_text = v.output_text ++ text;
        token_events = v.token_events ++ new_event ids text terminal at v ∷ [];
        generation_terminal_offset_ns =
            if terminal then some at else v.generation_terminal_offset_ns;
        terminal_carried_tokens =
            if terminal then some (nonempty ids) else v.terminal_carried_tokens;
      })
unfolding record_tokens
record_tokens_effect ids text false at v v' u h = ground arith
record_tokens_effect ids text true at v v' u h = ground arith

-- Prompt ids are taken once.
pub accept_prompt_once :
    (value : Option Json) (v v' : Validator) (u : Unit {0})
    → accept_prompt value v ≡ returned u v'
    → (v' ≡ v) ⊎ (v.returned_prompt_ids ≡ none)
unfolding accept_prompt
accept_prompt_once value v v' u h = ground arith

pub accept_response_effect :
    (value : Members) (at : ℕ) (v v' : Validator) (u : Unit {0})
    → accept_response value at v ≡ returned u v'
    → accept_choices (result_of nil (as_array (Json.get (codes "choices") value))) value at v
      ≡ returned u v'
unfolding accept_response result_of
accept_response_effect value at v v' u h =
    elim (Bool-cases (is_text (response_id v.external_base_id) (Json.get (codes "id") value))) [
      | inl same ↦ elim (Result-cases (as_array (Json.get (codes "choices") value))) [
        | inl (items, e) ↦ ground arith
        | inr (x, e) ↦ ground arith
      ]
      | inr other ↦ ground arith
    ]

decoded_object : Host → Text → Members
decoded_object h text =
    result_of end (as_object (some (result_of null (without_duplicate_keys (h.loads text)))))

pub accept_data_effect :
    (h : Host) (payload : Option Text) (at : ℕ) (v v' : Validator) (u : Unit {0})
    → accept_data h payload at v ≡ returned u v'
    → (value : Members) × (accept_response value at v ≡ returned u v')
unfolding accept_data
accept_data_effect h none at v v' u e = cc
accept_data_effect h (some text) at v v' u e =
    (decoded_object h text, unfold decoded_object result_of in ground arith)

pub accept_frame_effect :
    (h : Host) (frame : SseFrame) (at : ℕ) (v v' : Validator) (u : Unit {0})
    → accept_frame h frame at v ≡ returned u v'
    → dispatch_frame h frame.kind frame at (retain_event frame at v) ≡ returned u v'
unfolding accept_frame
accept_frame_effect h frame at v v' u e = ground arith

pub frame_offset_effect :
    (index at now : ℕ) (v v' : Validator)
    → frame_offset index at v ≡ returned now v'
    → ((now ≡ at) × (v' ≡ v))
      ⊎ ((v.last_observation_offset_ns ≤ now)
          × (v' ≡ record v { clock_calls = v.clock_calls + 1; last_observation_offset_ns = now }))
unfolding frame_offset advance
frame_offset_effect zero at now v v' e = ground arith
frame_offset_effect (suc index) at now v v' e = ground arith
