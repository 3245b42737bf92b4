-- ===== src/Stage2/Capture/Invariant.antt =====
-- src/llm_inference_systems/stage2_protocol.py, Stage2CancellationStreamCapture: the order of the
-- delivery, the close and its completion, over all sequences of calls that returned.
use llm_inference_systems.Prelude.{
  ℕ, ◌≤◌, ◌≡◌, refl, Bool, true, false, ◌&&◌, Option, none, some, List, [], ◌∷◌, ◌++◌, arith, leb,
  ◌==◌, ==_refl, &&-split, codes, all, list_eq, list_eq_refl, returned, all-append,
}
use llm_inference_systems.Sse.{SseFrame, Parser, FrameKind, comment, data_event, done}
use llm_inference_systems.Sse.Codec.{Text}
use llm_inference_systems.Stage2.Json
use llm_inference_systems.Stage2.Json.{
  Json, Items, Members, nil, cons, end, as_array, as_object, without_duplicate_keys, null,
}
use llm_inference_systems.Stage2.Evidence.{nonempty}
use llm_inference_systems.Stage2.Stream.{Host, RetainedBodyChunk, RetainedSseEvent}
use llm_inference_systems.Stage2.Capture.{
  first_of, Capture, accept_choice, accept_choices, accept_response, accept_data, dispatch_frame,
  close, record_generation, same_prompt, GenerationEvent, FirstDelivery, expected_prompt,
}
use llm_inference_systems.Stage2.Capture.Effects.{
  accept_choice_effect, ids_of, text_of, prompt_of, result_of,
}

-- The delivery is the first generation event, if there is one.
abbrev pub is_delivery : List GenerationEvent → Option FirstDelivery → Bool
is_delivery [] none = true
is_delivery (e ∷ events) (some d) =
    d.generation_event_ordinal == e.sse_event_ordinal
    && (d.observation_offset_ns == e.observation_offset_ns
        && list_eq d.output_token_ids e.output_token_ids)
is_delivery _ _ = false

abbrev pub has_tokens : GenerationEvent → Bool
has_tokens e = nonempty e.output_token_ids

abbrev no_prompt : GenerationEvent → Bool
no_prompt e = same_prompt e.prompt_token_ids none

-- The first event returns the prompt that was sent, and no other has prompt ids.
abbrev pub prompts_fit : List ℕ → List GenerationEvent → Bool
prompts_fit sent [] = true
prompts_fit sent (e ∷ events) = same_prompt e.prompt_token_ids (some sent) && all no_prompt events

abbrev pub delivered_by : ℕ → Option FirstDelivery → Bool
delivered_by at none = true
delivered_by at (some d) = leb d.observation_offset_ns at

-- A close comes after the delivery, and not after `last`.
abbrev pub closes_after : Option FirstDelivery → Option ℕ → ℕ → Bool
closes_after first none last = true
closes_after none (some at) last = false
closes_after (some d) (some at) last = leb d.observation_offset_ns at && leb at last

abbrev pub completes_after : Option ℕ → Option ℕ → Bool
completes_after close none = true
completes_after none (some at) = false
completes_after (some t) (some at) = leb t at

pub record IsSound (c : Capture) : Type 0 where
  pub delivery : is_delivery c.generation_events c.first_generation_delivery ≡ true
  pub tokens : all has_tokens c.generation_events ≡ true
  pub prompts : prompts_fit c.sent_prompt_token_ids c.generation_events ≡ true
  pub dated : delivered_by c.last_observation_offset_ns c.first_generation_delivery ≡ true
  pub closed :
      closes_after c.first_generation_delivery c.close_offset_ns c.last_observation_offset_ns ≡ true
  pub completed : completes_after c.close_offset_ns c.transport_close_completion_offset_ns ≡ true

-- Inside a read at `at`.
pub record IsReading (at : ℕ) (c : Capture) : Type 0 where
  pub sound : IsSound c
  pub now : c.last_observation_offset_ns ≡ at
  pub still_open : c.close_offset_ns ≡ none

-- What the invariant does not speak of, and a later observation.
pub IsSound-moved :
    (c : Capture) (now : ℕ) (parser : Parser) (headers : Option ℕ) (chunks : List RetainedBodyChunk)
    (events : List RetainedSseEvent)
    → c.last_observation_offset_ns ≤ now
    → IsSound c
    → IsSound (record c {
      last_observation_offset_ns = now;
      parser = parser;
      response_headers_offset_ns = headers;
      raw_body_chunks = chunks;
      parsed_sse_events = events;
    })
IsSound-moved c now parser headers chunks events later s = record {
  delivery = s.delivery;
  tokens = s.tokens;
  prompts = s.prompts;
  dated =
      later_delivered c.first_generation_delivery c.last_observation_offset_ns now later s.dated;
  closed =
      later_closed c.first_generation_delivery c.close_offset_ns c.last_observation_offset_ns now
        later s.closed;
  completed = s.completed;
}
  where
    later_delivered :
        (d : Option FirstDelivery) (last now : ℕ)
        → last ≤ now
        → delivered_by last d ≡ true
        → delivered_by now d ≡ true
    later_delivered none last now l h = refl
    later_delivered (some d) last now l h = ground arith

    later_closed :
        (d : Option FirstDelivery) (t : Option ℕ) (last now : ℕ)
        → last ≤ now
        → closes_after d t last ≡ true
        → closes_after d t now ≡ true
    later_closed d none last now l h = refl
    later_closed none (some t) last now l h = h
    later_closed (some d) (some t) last now l h = ground arith

first_event :
    (events : List GenerationEvent) (first : Option FirstDelivery) (e : GenerationEvent) (chunk : ℕ)
    → is_delivery events first ≡ true
    → is_delivery (events ++ e ∷ []) (
        some (
          first_of first (record {
            generation_event_ordinal = e.sse_event_ordinal;
            body_chunk_ordinal = chunk;
            observation_offset_ns = e.observation_offset_ns;
            output_token_ids = e.output_token_ids;
          })))
      ≡ true
first_event [] none e chunk h =
    rw
      (
        ==_refl e.sse_event_ordinal,
        ==_refl e.observation_offset_ns,
        list_eq_refl e.output_token_ids,
      )
      refl
first_event [] (some d) e chunk h = cc
first_event (x ∷ events) none e chunk h = cc
first_event (x ∷ events) (some d) e chunk h = h

next_prompt :
    (sent : List ℕ) (events : List GenerationEvent) (e : GenerationEvent)
    → prompts_fit sent events ≡ true
    → same_prompt e.prompt_token_ids (elim events [ [] ↦ some sent | _ ∷ _ ↦ none ]) ≡ true
    → prompts_fit sent (events ++ e ∷ []) ≡ true
next_prompt sent [] e h p = rw p refl
next_prompt sent (x ∷ events) e h p =
    let (first, others) =
      &&-split (same_prompt x.prompt_token_ids (some sent)) (all no_prompt events) h in
    rw (first, all-append no_prompt events (e ∷ []), others, p) refl

first_date :
    (first : Option FirstDelivery) (d : FirstDelivery) (at : ℕ)
    → d.observation_offset_ns ≡ at
    → delivered_by at first ≡ true
    → delivered_by at (some (first_of first d)) ≡ true
first_date none d at e h = ground arith
first_date (some x) d at e h = h

record_generation-IsReading :
    (ordinal chunk at : ℕ) (ids : List ℕ) (text : Text) (prompt : Option (List ℕ)) (c : Capture)
    → nonempty ids ≡ true
    → same_prompt prompt (expected_prompt c) ≡ true
    → IsReading at c
    → IsReading at (record_generation ordinal chunk at ids text prompt c)
unfolding record_generation
record_generation-IsReading ordinal chunk at ids text prompt c n p s = record {
  sound = record {
    delivery =
        first_event c.generation_events c.first_generation_delivery
          (record {
            sse_event_ordinal = ordinal;
            observation_offset_ns = at;
            output_token_ids = ids;
            text = text;
            prompt_token_ids = prompt;
          })
          chunk s.sound.delivery;
    tokens = rw (all-append has_tokens c.generation_events, s.sound.tokens, n) refl;
    prompts =
        next_prompt c.sent_prompt_token_ids c.generation_events
          (record {
            sse_event_ordinal = ordinal;
            observation_offset_ns = at;
            output_token_ids = ids;
            text = text;
            prompt_token_ids = prompt;
          })
          s.sound.prompts p;
    dated = rw s.now (
        first_date c.first_generation_delivery
          (record {
            generation_event_ordinal = ordinal;
            body_chunk_ordinal = chunk;
            observation_offset_ns = at;
            output_token_ids = ids;
          })
          at refl (rw s.now at s.sound.dated));
    closed = rw s.still_open refl;
    completed = s.sound.completed;
  };
  now = s.now;
  still_open = s.still_open;
}

accept_choice-IsReading :
    (item : Json) (ordinal chunk at : ℕ) (c d : Capture) (u : Unit {0})
    → accept_choice item ordinal chunk at c ≡ returned u d
    → IsReading at c
    → IsReading at d
accept_choice-IsReading item ordinal chunk at c d u e s =
    let (has_ids, prompt, same) = accept_choice_effect item ordinal chunk at c d u e in
    rw same (
      record_generation-IsReading ordinal chunk at (ids_of item) (text_of item) (prompt_of item) c
        has_ids prompt s)

accept_choices-IsReading :
    (items : Items) (ordinal chunk at : ℕ) (c d : Capture) (u : Unit {0})
    → accept_choices items ordinal chunk at c ≡ returned u d
    → IsReading at c
    → IsReading at d
unfolding accept_choices
accept_choices-IsReading nil ordinal chunk at c d u e s = cc
accept_choices-IsReading (cons item nil) ordinal chunk at c d u e s =
    accept_choice-IsReading item ordinal chunk at c d u e s
accept_choices-IsReading (cons item (cons other items)) ordinal chunk at c d u e s = cc

choices_run :
    (response : Members) (ordinal chunk at : ℕ) (c d : Capture) (u : Unit {0})
    → accept_response response ordinal chunk at c ≡ returned u d
    → accept_choices
        (result_of nil (as_array (Json.get (codes "choices") response)))
        ordinal
        chunk
        at
        c
      ≡ returned u d
unfolding accept_response result_of
choices_run response ordinal chunk at c d u e = ground arith

accept_response-IsReading :
    (response : Members) (ordinal chunk at : ℕ) (c d : Capture) (u : Unit {0})
    → accept_response response ordinal chunk at c ≡ returned u d
    → IsReading at c
    → IsReading at d
accept_response-IsReading response ordinal chunk at c d u e s =
    accept_choices-IsReading (result_of nil (as_array (Json.get (codes "choices") response)))
      ordinal chunk at c d u (choices_run response ordinal chunk at c d u e) s

accept_data-IsReading :
    (h : Host) (payload : Option Text) (ordinal chunk at : ℕ) (c d : Capture) (u : Unit {0})
    → accept_data h payload ordinal chunk at c ≡ returned u d
    → IsReading at c
    → IsReading at d
unfolding accept_data
accept_data-IsReading h none ordinal chunk at c d u e s = cc
accept_data-IsReading h (some text) ordinal chunk at c d u e s =
    let value =
      result_of end (as_object (some (result_of null (without_duplicate_keys (h.loads text))))) in
    let run : accept_response value ordinal chunk at c ≡ returned u d =
      unfold result_of in ground (arith, e) in
    accept_response-IsReading value ordinal chunk at c d u run s

pub dispatch_frame-IsReading :
    (h : Host) (kind : FrameKind) (frame : SseFrame) (ordinal chunk at : ℕ) (c d : Capture)
    (u : Unit {0})
    → dispatch_frame h kind frame ordinal chunk at c ≡ returned u d
    → IsReading at c
    → IsReading at d
unfolding dispatch_frame
dispatch_frame-IsReading h comment frame ordinal chunk at c d u e s =
    let same : c ≡ d = ground arith in rw (← same) s
dispatch_frame-IsReading h done frame ordinal chunk at c d u e s = cc
dispatch_frame-IsReading h data_event frame ordinal chunk at c d u e s =
    accept_data-IsReading h frame.payload ordinal chunk at c d u e s
