-- ===== src/Stage2/Capture/Reach.antt =====
-- src/llm_inference_systems/stage2_protocol.py, Stage2CancellationStreamCapture: all sequences of
-- calls that returned, and the calls that must be refused.
use llm_inference_systems.Prelude.{
  ℕ, ◌≡◌, refl, sym, inl, inr, Bool, true, none, some, List, [], ◌∷◌, arith, is_some, length,
  Outcome-cases, returned, raised,
}
use llm_inference_systems.Sse.{SseFrame, Bytes}
use llm_inference_systems.Sse.Codec.{Text}
use llm_inference_systems.Stage2.Stream.{Host}
use llm_inference_systems.Stage2.Capture.{
  Capture, start, accept_response_headers, dispatch_frame, accept_frame, accept_frames, feed, close,
  complete_transport_close, retain_chunk, retain_event, parse_chunk, bytes_after_close,
  read_after_delivery, duplicate_close,
}
use llm_inference_systems.Stage2.Capture.Effects.{
  headers_effect, close_effect, complete_effect, feed_effect,
}
use llm_inference_systems.Stage2.Capture.Invariant.{
  IsSound, IsReading, IsSound-moved, dispatch_frame-IsReading,
}

accept_frame-IsReading :
    (h : Host) (frame : SseFrame) (chunk at : ℕ) (c d : Capture) (u : Unit {0})
    → accept_frame h frame chunk at c ≡ returned u d
    → IsReading at c
    → IsReading at d
accept_frame-IsReading h frame chunk at c d u e s =
    let run : dispatch_frame h frame.kind frame (length c.parsed_sse_events) chunk at
          (retain_event frame at c)
        ≡ returned u d =
      unfold accept_frame in ground (arith, e) in
    dispatch_frame-IsReading h frame.kind frame (length c.parsed_sse_events) chunk at
      (retain_event frame at c) d u run
      (record {
        sound =
            IsSound-moved c c.last_observation_offset_ns c.parser c.response_headers_offset_ns
              c.raw_body_chunks (retain_event frame at c).parsed_sse_events (omega arith) s.sound;
        now = s.now;
        still_open = s.still_open;
      })

accept_frames-IsReading :
    (h : Host) (frames : List SseFrame) (chunk at : ℕ) (c d : Capture) (u : Unit {0})
    → accept_frames h frames chunk at c ≡ returned u d
    → IsReading at c
    → IsReading at d
unfolding accept_frames
accept_frames-IsReading h [] chunk at c d u e s = let same : c ≡ d = ground arith in rw (← same) s
accept_frames-IsReading h (frame ∷ frames) chunk at c d u e s =
    elim (Outcome-cases (accept_frame h frame chunk at c)) [
      | inr (x, y, r) ↦ ground arith
      | inl (_, y, r) ↦
          accept_frames-IsReading h frames chunk at y d u (rw r at e)
            (accept_frame-IsReading h frame chunk at c y tt r s)
    ]

parse_chunk_effect :
    (chunk : Bytes) (c d : Capture) (frames : List SseFrame)
    → parse_chunk chunk c ≡ returned frames d
    → d ≡ record c { parser = d.parser }
unfolding parse_chunk
parse_chunk_effect chunk c d frames e = ground arith

feed-IsReading :
    (h : Host) (chunk : Bytes) (at : ℕ) (c d : Capture) (b : Bool)
    → feed h chunk at c ≡ returned b d
    → IsSound c
    → IsReading at d
feed-IsReading h chunk at c d b e s =
    let (still_open, _, _, _, later, _, run) = feed_effect h chunk at c d b e in
    let x : Capture = retain_chunk h chunk at (record c { last_observation_offset_ns = at }) in
    elim (Outcome-cases (parse_chunk chunk x)) [
      | inr (x, y, r) ↦ ground (arith, run)
      | inl (frames, y, r) ↦
          let same : y ≡ record x { parser = y.parser } = parse_chunk_effect chunk x y frames r in
          let reading : IsReading at y = rw same (record {
            sound =
                IsSound-moved c at y.parser c.response_headers_offset_ns x.raw_body_chunks
                  c.parsed_sse_events later s;
            now = refl;
            still_open = still_open;
          }) in
          accept_frames-IsReading h frames (length c.raw_body_chunks) at y d tt (rw r at run)
            reading
    ]

headers-IsSound :
    (id : Text) (at : ℕ) (c d : Capture) (u : Unit {0})
    → accept_response_headers id at c ≡ returned u d
    → IsSound c
    → IsSound d
headers-IsSound id at c d u e s =
    let (later, same) = headers_effect id at c d u e in
    rw same (IsSound-moved c at c.parser (some at) c.raw_body_chunks c.parsed_sse_events later s)

close-IsSound :
    (at : ℕ) (c d : Capture) (u : Unit {0}) → close at c ≡ returned u d → IsSound c → IsSound d
close-IsSound at c d u e s =
    let (still_open, later, delivered, same) = close_effect at c d u e in
    let moved =
      IsSound-moved c at c.parser c.response_headers_offset_ns c.raw_body_chunks c.parsed_sse_events
        later s in
    rw same (record {
      delivery = s.delivery;
      tokens = s.tokens;
      prompts = s.prompts;
      dated = moved.dated;
      closed = let dated = moved.dated in ground (arith, delivered);
      completed = let done_before = s.completed in ground (arith, still_open);
    })

complete-IsSound :
    (at : ℕ) (c d : Capture) (u : Unit {0})
    → complete_transport_close at c ≡ returned u d
    → IsSound c
    → IsSound d
complete-IsSound at c d u e s =
    let (shut, incomplete, later, same) = complete_effect at c d u e in
    let moved =
      IsSound-moved c at c.parser c.response_headers_offset_ns c.raw_body_chunks c.parsed_sse_events
        later s in
    rw same (record {
      delivery = s.delivery;
      tokens = s.tokens;
      prompts = s.prompts;
      dated = moved.dated;
      closed = moved.closed;
      completed = let order = s.closed in ground (arith, shut, later);
    })

start-IsSound :
    (base : Text) (prompt : List ℕ) (dispatch : ℕ) → IsSound (start base prompt dispatch)
unfolding start
start-IsSound base prompt dispatch = record {
  delivery = refl;
  tokens = refl;
  prompts = refl;
  dated = refl;
  closed = refl;
  completed = refl;
}

-- The captures that a client can have.
pub data Reach (h : Host) : Capture → Type 0 where
  started : (base : Text) (prompt : List ℕ) (dispatch : ℕ) → Reach h (start base prompt dispatch)
  headed :
      {c d : Capture}
      → (id : Text) (at : ℕ) → Reach h c
      → accept_response_headers id at c ≡ returned tt d
      → Reach h d
  read :
      {c d : Capture}
      → (chunk : Bytes) (at : ℕ) (b : Bool) → Reach h c
      → feed h chunk at c ≡ returned b d
      → Reach h d
  shut : {c d : Capture} → (at : ℕ) → Reach h c → close at c ≡ returned tt d → Reach h d
  finished :
      {c d : Capture}
      → (at : ℕ) → Reach h c
      → complete_transport_close at c ≡ returned tt d
      → Reach h d

-- After calls that returned, in any order: the delivery is the first generation event, every
-- generation event has tokens, the first one alone returns the prompt that was sent, the close is not
-- before the delivery, and its completion is not before the close.
pub capture-IsSound : (h : Host) {c : Capture} → Reach h c → IsSound c
capture-IsSound h (started base prompt dispatch) = start-IsSound base prompt dispatch
capture-IsSound h (headed {c} {d} id at r e) = headers-IsSound id at c d tt e (capture-IsSound h r)
capture-IsSound h (read {c} {d} chunk at b r e) =
    (feed-IsReading h chunk at c d b e (capture-IsSound h r)).sound
capture-IsSound h (shut {c} {d} at r e) = close-IsSound at c d tt e (capture-IsSound h r)
capture-IsSound h (finished {c} {d} at r e) = complete-IsSound at c d tt e (capture-IsSound h r)

-- Once a close has returned, bytes are refused as attributed after the close, and a second close is
-- refused; nothing is written.
pub close-refuses :
    (h : Host) (chunk : Bytes) (at at' : ℕ) (c d : Capture)
    → close at c ≡ returned tt d
    → (feed h chunk at' d ≡ raised bytes_after_close d) × (close at' d ≡ raised duplicate_close d)
close-refuses h chunk at at' c d e =
    let (_, _, _, same) = close_effect at c d tt e in
    (rw same (unfold feed in refl), rw same (unfold close in refl))

refused :
    (h : Host) (next : Bytes) (at : ℕ) (d : Capture)
    → is_some d.first_generation_delivery ≡ true
    → d.close_offset_ns ≡ none
    → feed h next at d ≡ raised read_after_delivery d
unfolding feed
refused h next at d delivered still_open = ground (arith, delivered, still_open)

-- A read that reports the delivery has recorded it, in an open capture, and every further read is
-- refused and writes nothing.
pub feed-delivers :
    (h : Host) (chunk next : Bytes) (at at' : ℕ) {c d : Capture}
    → Reach h c
    → feed h chunk at c ≡ returned true d
    → (is_some d.first_generation_delivery ≡ true)
      × (d.close_offset_ns ≡ none)
      × (feed h next at' d ≡ raised read_after_delivery d)
feed-delivers h chunk next at at' {c} {d} reach e =
    let (_, _, _, _, _, told, _) = feed_effect h chunk at c d true e in
    let still_open = (feed-IsReading h chunk at c d true e (capture-IsSound h reach)).still_open in
    (sym told, still_open, refused h next at' d (sym told) still_open)
