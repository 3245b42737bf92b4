-- ===== src/Stage2/Stream/Sound.antt =====
-- src/llm_inference_systems/stage2_protocol.py, Stage2StreamValidator: `feed` keeps the validator
-- sound, and so does every sequence of calls that returned.
use llm_inference_systems.Prelude.{
  none, ℕ, suc, ◌+◌, ◌≤◌, ◌≡◌, refl, inl, inr, true, List, [], ◌∷◌, arith, is_some, codes,
  Outcome-cases, returned, then_do, Bool-cases, Option, false, all, some,
}
use llm_inference_systems.Sse
use llm_inference_systems.Sse.{Parser, SseFrame, FrameKind, comment, data_event, done, Bytes, Text}
use llm_inference_systems.Stage2.Json
use llm_inference_systems.Stage2.Json.{Json, Items, nil, cons, Members, as_array}
use llm_inference_systems.Stage2.Evidence.{offsets}
use llm_inference_systems.Stage2.Stream.{
  RetainedBodyChunk, RetainedSseEvent, Host, Validator, advance, accept_choices, dispatch_frame,
  accept_frame, accept_frames, frame_offset, feed, parse_chunk, retain_event, retain_chunk,
  note_first_body, start, accept_response_headers,
}
use llm_inference_systems.Stage2.Stream.Effects.{
  accept_response_effect, accept_data_effect, accept_frame_effect, frame_offset_effect, result_of,
}
use llm_inference_systems.Stage2.Stream.Events.{within_mono, within}
use llm_inference_systems.Stage2.Stream.Invariant.{
  IsSound, IsAt, accept_usage-IsAt, accept_done-IsAt, accept_choice-IsAt,
  accept_response_headers-IsOrdered, accept_response_headers-HasEvents,
}

accept_choices-IsAt :
    (items : Items) (value : Members) (at : ℕ) (v v' : Validator) (u : Unit {0})
    → accept_choices items value at v ≡ returned u v'
    → IsAt at v
    → IsAt at v'
unfolding accept_choices
accept_choices-IsAt nil value at v v' u h s = accept_usage-IsAt value at v v' u h s
accept_choices-IsAt (cons item nil) value at v v' u h s = accept_choice-IsAt item at v v' u h s
accept_choices-IsAt (cons item (cons _ _)) value at v v' u h s = cc

dispatch_frame-IsAt :
    (h : Host) (kind : FrameKind) (frame : SseFrame) (at : ℕ) (v v' : Validator) (u : Unit {0})
    → dispatch_frame h kind frame at v ≡ returned u v'
    → IsAt at v
    → IsAt at v'
unfolding dispatch_frame
dispatch_frame-IsAt h comment frame at v v' u e s =
    let same : v ≡ v' = ground arith in rw (← same) s
dispatch_frame-IsAt h done frame at v v' u e s = accept_done-IsAt at v v' u e s
dispatch_frame-IsAt h data_event frame at v v' u e s =
    let (value, r) = accept_data_effect h frame.payload at v v' u e in
    accept_choices-IsAt (result_of nil (as_array (Json.get (codes "choices") value))) value at v v'
      u (accept_response_effect value at v v' u r) s

-- What the invariant does not speak of, and a later observation.
IsSound-moved :
    (v : Validator) (now calls : ℕ) (parser : Parser) (chunks : List RetainedBodyChunk)
    (events : List RetainedSseEvent)
    → v.last_observation_offset_ns ≤ now
    → IsSound v
    → IsSound (record v {
      last_observation_offset_ns = now;
      clock_calls = calls;
      parser = parser;
      raw_body_chunks = chunks;
      parsed_sse_events = events;
    })
IsSound-moved v now calls parser chunks events later s = record {
  ordered = let o = s.ordered in ground (arith, o);
  events = record {
    ids = s.events.ids;
    text = s.events.text;
    capped = s.events.capped;
    sorted = s.events.sorted;
    dated =
        within_mono (offsets v.token_events) v.first_body_offset_ns v.last_observation_offset_ns now
          later s.events.dated;
    generation = s.events.generation;
    prompt = s.events.prompt;
    reconciled = s.events.reconciled;
  };
}

retain_event-IsAt :
    (frame : SseFrame) (at : ℕ) (v : Validator) → IsAt at v → IsAt at (retain_event frame at v)
retain_event-IsAt frame at v s = record {
  sound =
      IsSound-moved v v.last_observation_offset_ns v.clock_calls v.parser v.raw_body_chunks
        (retain_event frame at v).parsed_sse_events (omega arith) s.sound;
  now = s.now;
  body = s.body;
}

frame_offset-IsAt :
    (index at now : ℕ) (v v' : Validator)
    → frame_offset index at v ≡ returned now v'
    → IsAt at v
    → IsAt now v'
frame_offset-IsAt index at now v v' e s = elim (frame_offset_effect index at now v v' e) [
  | inl (when, same) ↦ rw (when, same) s
  | inr (later, same) ↦ rw same (record {
    sound =
        IsSound-moved v now (v.clock_calls + 1) v.parser v.raw_body_chunks v.parsed_sse_events later
          s.sound;
    now = refl;
    body = s.body;
  })
]

accept_frame-IsAt :
    (h : Host) (frame : SseFrame) (at : ℕ) (v v' : Validator) (u : Unit {0})
    → accept_frame h frame at v ≡ returned u v'
    → IsAt at v
    → IsAt at v'
accept_frame-IsAt h frame at v v' u e s =
    dispatch_frame-IsAt h frame.kind frame at (retain_event frame at v) v' u
      (accept_frame_effect h frame at v v' u e) (retain_event-IsAt frame at v s)

accept_frames-IsAt :
    (h : Host) (index : ℕ) (frames : List SseFrame) (at : ℕ) (v v' : Validator) (u : Unit {0})
    → accept_frames h index frames at v ≡ returned u v'
    → IsAt at v
    → IsSound v'
unfolding accept_frames
accept_frames-IsAt h index [] at v v' u e s =
    let same : v ≡ v' = ground arith in rw (← same) s.sound
accept_frames-IsAt h index (frame ∷ frames) at v v' u e s =
    elim (Outcome-cases (frame_offset index at v)) [
      | inr (x, w, r) ↦ ground arith
      | inl (now, w, r) ↦ elim (Outcome-cases (accept_frame h frame now w)) [
        | inr (x, y, r') ↦ ground arith
        | inl (_, y, r') ↦
            accept_frames-IsAt h (suc index) frames now y v' u (let e' = rw r at e in rw r' at e')
              (accept_frame-IsAt h frame now w y tt r' (frame_offset-IsAt index at now v w r s))
      ]
    ]

-- The state in which the parser is fed.
unfoldable pub fed : Host → Bytes → ℕ → Validator → Validator
fed h chunk at v =
    note_first_body chunk at
      (record (retain_chunk h chunk at v) { last_observation_offset_ns = at })

pub feed_effect :
    (h : Host) (chunk : Bytes) (at : ℕ) (v v' : Validator) (u : Unit {0})
    → feed h chunk at v ≡ returned u v'
    → (is_some v.response_headers_offset_ns ≡ true)
      × (v.last_observation_offset_ns ≤ at)
      × (then_do (parse_chunk chunk (fed h chunk at v)) (λ frames. accept_frames h 0 frames at)
          ≡ returned u v')
unfolding feed fed advance
feed_effect h [] at v v' u e = ground arith
feed_effect h (b ∷ chunk) at v v' u e = ground arith

dated_first :
    (times : List ℕ) (low : Option ℕ) (high at : ℕ)
    → is_some low ≡ false
    → all (within low high) times ≡ true
    → all (within (some at) at) times ≡ true
dated_first [] low high at n b = refl
dated_first (t ∷ times) none high at n b = cc
dated_first (t ∷ times) (some l) high at n b = cc

-- The first body bytes are dated by the read that brought them.
first_body-IsSound :
    (v : Validator) (at : ℕ)
    → is_some v.response_headers_offset_ns ≡ true
    → is_some v.first_body_offset_ns ≡ false
    → v.last_observation_offset_ns ≡ at
    → IsSound v
    → IsSound (record v { first_body_offset_ns = some at })
first_body-IsSound v at headers fresh now s = record {
  ordered = let o = s.ordered in ground (arith, o);
  events = record {
    ids = s.events.ids;
    text = s.events.text;
    capped = s.events.capped;
    sorted = s.events.sorted;
    dated = rw now (
        dated_first (offsets v.token_events) v.first_body_offset_ns v.last_observation_offset_ns at
          fresh s.events.dated);
    generation = s.events.generation;
    prompt = s.events.prompt;
    reconciled = s.events.reconciled;
  };
}

fed-IsSound :
    (h : Host) (chunk : Bytes) (at : ℕ) (v : Validator)
    → is_some v.response_headers_offset_ns ≡ true
    → v.last_observation_offset_ns ≤ at
    → IsSound v
    → IsSound (fed h chunk at v)
unfolding fed
fed-IsSound h [] at v headers later s =
    IsSound-moved v at v.clock_calls v.parser v.raw_body_chunks v.parsed_sse_events later s
fed-IsSound h (b ∷ chunk) at v headers later s =
    let w : Validator = record (retain_chunk h (b ∷ chunk) at v) {
      last_observation_offset_ns = at;
    } in
    let moved : IsSound w =
      IsSound-moved v at v.clock_calls v.parser w.raw_body_chunks v.parsed_sse_events later s in
    elim (Bool-cases (is_some v.first_body_offset_ns)) [
      | inl seen ↦ rw seen moved
      | inr fresh ↦ rw fresh (first_body-IsSound w at headers fresh refl moved)
    ]

fed-body :
    (h : Host) (b : ℕ) (chunk : Bytes) (at : ℕ) (v : Validator)
    → is_some (fed h (b ∷ chunk) at v).first_body_offset_ns ≡ true
unfolding fed
fed-body h b chunk at v = ground arith

fed-last :
    (h : Host) (chunk : Bytes) (at : ℕ) (v : Validator)
    → (fed h chunk at v).last_observation_offset_ns ≡ at
unfolding fed
fed-last h [] at v = refl
fed-last h (b ∷ chunk) at v = ground arith

pub parse_chunk_effect :
    (chunk : Bytes) (v w : Validator) (frames : List SseFrame)
    → parse_chunk chunk v ≡ returned frames w
    → w ≡ record v { parser = w.parser }
unfolding parse_chunk
parse_chunk_effect chunk v w frames e = ground arith

pub feed-IsSound :
    (h : Host) (chunk : Bytes) (at : ℕ) (v v' : Validator) (u : Unit {0})
    → feed h chunk at v ≡ returned u v'
    → IsSound v
    → IsSound v'
feed-IsSound h [] at v v' u e s =
    let (headers, later, rest) = feed_effect h [] at v v' u e in
    let same : fed h [] at v ≡ v' =
      unfold parse_chunk accept_frames Sse.feed in ground (arith, rest) in
    rw (← same) (fed-IsSound h [] at v headers later s)
feed-IsSound h (b ∷ chunk) at v v' u e s =
    let (headers, later, rest) = feed_effect h (b ∷ chunk) at v v' u e in
    let x = fed h (b ∷ chunk) at v in
    elim (Outcome-cases (parse_chunk (b ∷ chunk) x)) [
      | inr (err, w, r) ↦ ground (arith, rest)
      | inl (frames, w, r) ↦
          let same : w ≡ record x { parser = w.parser } =
            parse_chunk_effect (b ∷ chunk) x w frames r in
          let sound : IsSound x = fed-IsSound h (b ∷ chunk) at v headers later s in
          accept_frames-IsAt h 0 frames at w v' u (rw r at rest) (
            rw same (record {
              sound =
                  IsSound-moved x x.last_observation_offset_ns x.clock_calls w.parser
                    x.raw_body_chunks x.parsed_sse_events (omega arith) sound;
              now = fed-last h (b ∷ chunk) at v;
              body = fed-body h b chunk at v;
            }))
    ]

pub accept_response_headers-IsSound :
    (id : Text) (at : ℕ) (v v' : Validator) (u : Unit {0})
    → accept_response_headers id at v ≡ returned u v'
    → IsSound v
    → IsSound v'
accept_response_headers-IsSound id at v v' u e s = record {
  ordered = accept_response_headers-IsOrdered id at v v' u e s.ordered;
  events = accept_response_headers-HasEvents id at v v' u e s.events;
}

pub start-IsSound :
    (base : Text) (prompt : List ℕ) (dispatch : ℕ) (clock : Option (ℕ → ℕ))
    → IsSound (start base prompt dispatch clock)
unfolding start
start-IsSound base prompt dispatch clock = record {
  ordered = ground arith;
  events = record {
    ids = refl;
    text = refl;
    capped = omega arith;
    sorted = refl;
    dated = refl;
    generation = refl;
    prompt = tt;
    reconciled = λ e. cc;
  };
}

-- The validators that a client can have: a new one, and what a call returned.
pub data Reach (h : Host) : Validator → Type 0 where
  started :
      (base : Text) (prompt : List ℕ) (dispatch : ℕ) (clock : Option (ℕ → ℕ))
      → Reach h (start base prompt dispatch clock)
  headed :
      {v w : Validator}
      → (id : Text) (at : ℕ) → Reach h v
      → accept_response_headers id at v ≡ returned tt w
      → Reach h w
  read :
      {v w : Validator}
      → (chunk : Bytes) (at : ℕ) → Reach h v
      → feed h chunk at v ≡ returned tt w
      → Reach h w

-- Whatever the stream brings, after calls that returned the boundaries are in their order, none is
-- later than the last observation, and the events account for all tokens, all text, the terminal
-- and the prompt ids.
pub Reach-IsSound : (h : Host) {v : Validator} → Reach h v → IsSound v
Reach-IsSound h (started base prompt dispatch clock) = start-IsSound base prompt dispatch clock
Reach-IsSound h (headed {v} {w} id at r e) =
    accept_response_headers-IsSound id at v w tt e (Reach-IsSound h r)
Reach-IsSound h (read {v} {w} chunk at r e) = feed-IsSound h chunk at v w tt e (Reach-IsSound h r)
