-- ===== src/Sse/Done.antt =====
-- src/llm_inference_systems/sse.py: the end marker of a stream, frame by frame.
use llm_inference_systems.Prelude.{
  ℕ, zero, suc, ◌+◌, ◌≤◌, ◌≡◌, refl, ap, ◌∙◌, inl, inr, Bool, true, false, Option, none, some, List,
  [], ◌∷◌, ◌++◌, arith, ltb, Bool-cases, Option-cases, length, length-append, all, ok,
  Outcome-cases, Outcome, returned, raised,
}
use llm_inference_systems.Sse.{
  Bytes, Parser, SseFrame, SseProtocolError, FrameKind, comment, data_event, done, drain, feed,
  parse_frame, init, finalize, split_frame, replace_crlf, max_sse_buffer_bytes,
  buffer_limit_exceeded,
}
use llm_inference_systems.Sse.Drain.{
  round, round-empty, round-returned, round-raised, drain-some, drain-none, drain-Leaves,
}
use llm_inference_systems.Sse.Chunks.{feed_all}
use llm_inference_systems.Sse.Frames.{length-replace_crlf}

-- Whether a frame may follow, and whether the stream is done after it.
abbrev pub follows : Bool → FrameKind → Option Bool
follows is_done comment = some is_done
follows false data_event = some false
follows false done = some true
follows true _ = none

abbrev pub replay : Option Bool → List SseFrame → Option Bool
replay state [] = state
replay none (f ∷ frames) = none
replay (some is_done) (f ∷ frames) = replay (follows is_done f.kind) frames

replay-append :
    (state : Option Bool) (xs ys : List SseFrame)
    → replay state (xs ++ ys) ≡ replay (replay state xs) ys
replay-append state [] ys = refl
replay-append none (f ∷ xs) [] = refl
replay-append none (f ∷ xs) (y ∷ ys) = refl
replay-append (some b) (f ∷ xs) ys = replay-append (follows b f.kind) xs ys

parse_frame-follows :
    (raw : Bytes) (p q : Parser) (f : SseFrame)
    → parse_frame raw p ≡ returned f q
    → follows p.is_done f.kind ≡ some q.is_done
unfolding parse_frame
parse_frame-follows raw p q f h = ground arith

round-replay :
    (fuel : ℕ) (state : Option Bool) (frames out : List SseFrame) (raw : Bytes) (p q : Parser)
    → ((frames' : List SseFrame) (p' : Parser)
        → replay state frames' ≡ some p'.is_done
        → drain fuel frames' p' ≡ returned out q
        → replay state out ≡ some q.is_done)
    → replay state frames ≡ some p.is_done
    → round fuel frames raw p ≡ returned out q
    → replay state out ≡ some q.is_done
round-replay fuel state frames out [] p q ih r e = ih frames p r (rw round-empty at e)
round-replay fuel state frames out (b ∷ raw) p q ih r e =
    elim (Outcome-cases (parse_frame (b ∷ raw) p)) [
      | inl (f, p', h) ↦
          ih (frames ++ f ∷ []) p' (rw (replay-append, r) (parse_frame-follows (b ∷ raw) p p' f h))
            (rw (round-returned fuel frames b raw p h) at e)
      | inr (x, p', h) ↦
          let stuck : ◌≡◌ {A = Outcome SseProtocolError Parser (List SseFrame)} (raised x p')
              (returned out q) =
            rw (round-raised fuel frames b raw p h) at e in
          cc
    ]

drain-replay :
    (fuel : ℕ) (state : Option Bool) (frames out : List SseFrame) (p q : Parser)
    → replay state frames ≡ some p.is_done
    → drain fuel frames p ≡ returned out q
    → replay state out ≡ some q.is_done
drain-replay zero state frames out p q r e = unfold drain in ground arith
drain-replay (suc fuel) state frames out p q r e = elim (Option-cases (split_frame p.buffer)) [
  | inl n ↦
      let same : ◌≡◌ {A = Outcome SseProtocolError Parser (List SseFrame)} (returned frames p)
          (returned out q) =
        rw (drain-none (suc fuel) frames p n) at e in
      ground arith
  | inr ((raw, rest), s) ↦
      round-replay fuel state frames out raw (record p { buffer = rest }) q
        (λ frames' p' r' e'. drain-replay fuel state frames' out p' q r' e') r
        (rw (drain-some fuel frames p raw rest s) at e)
]

-- A chunk that did not raise fits, and its frames come from the loop.
feed_runs :
    (b : ℕ) (chunk : Bytes) (p q : Parser) (frames : List SseFrame)
    → feed (b ∷ chunk) p ≡ returned frames q
    → (length (p.buffer ++ b ∷ chunk) ≤ max_sse_buffer_bytes)
      × (drain
            (length (replace_crlf (p.buffer ++ b ∷ chunk)))
            []
            (record p { buffer = replace_crlf (p.buffer ++ b ∷ chunk) })
          ≡ returned frames q)
unfolding feed
feed_runs b chunk p q frames e =
    elim (Bool-cases (ltb max_sse_buffer_bytes (length (p.buffer ++ b ∷ chunk)))) [
      | inl over ↦ absurd (
          let stuck : ◌≡◌ {A = Outcome SseProtocolError Parser (List SseFrame)}
              (raised buffer_limit_exceeded (record p { buffer = p.buffer ++ b ∷ chunk }))
              (returned frames q) =
            rw over at e in
          cc)
      | inr fits ↦ (ground arith, rw fits at e)
    ]

-- A successful `feed` returns frames in the order that the end marker allows, whatever was seen before:
-- no second marker, no data after it, and the parser's flag tells whether it has been seen.
pub feed-replay :
    (chunk : Bytes) (p q : Parser) (frames : List SseFrame)
    → feed chunk p ≡ returned frames q
    → replay (some p.is_done) frames ≡ some q.is_done
feed-replay [] p q frames e = unfold feed in ground arith
feed-replay (b ∷ chunk) p q frames e =
    let whole = replace_crlf (p.buffer ++ b ∷ chunk) in
    drain-replay (length whole) (some p.is_done) [] frames (record p { buffer = whole }) q refl
      (feed_runs b chunk p q frames e).1

-- A successful `feed` leaves no whole frame in the buffer, and at most the limit of bytes.
pub feed-drained :
    (chunk : Bytes) (p q : Parser) (frames : List SseFrame)
    → split_frame p.buffer ≡ none
    → length p.buffer ≤ max_sse_buffer_bytes
    → feed chunk p ≡ returned frames q
    → (split_frame q.buffer ≡ none) × (length q.buffer ≤ max_sse_buffer_bytes)
feed-drained [] p q frames d l e = unfold feed in ground arith
feed-drained (b ∷ chunk) p q frames d l e =
    let whole = replace_crlf (p.buffer ++ b ∷ chunk) in
    let (fits, runs) = feed_runs b chunk p q frames e in
    let left =
      drain-Leaves (length whole) [] frames (record p { buffer = whole }) q (omega arith) runs in
    let sizes : length whole ≡ length left.taken + length q.buffer =
      ap length left.suffix ∙ length-append left.taken q.buffer in
    (left.drained, omega (arith, length-replace_crlf (p.buffer ++ b ∷ chunk)))

abbrev pub is_comment : SseFrame → Bool
is_comment f = elim f.kind [ comment ↦ true | _ ↦ false ]

abbrev pub is_open : SseFrame → Bool
is_open f = elim f.kind [ done ↦ false | _ ↦ true ]

-- The frames before the marker, the marker, and the comments after it.
pub record EndsWithDone (frames : List SseFrame) : Type 0 where
  pub before : List SseFrame
  pub marker : SseFrame
  pub after : List SseFrame
  pub parts : frames ≡ before ++ marker ∷ after
  pub is_marker : marker.kind ≡ done
  pub open_before : all is_open before ≡ true
  pub comments_after : all is_comment after ≡ true

replay-none : (frames : List SseFrame) → replay none frames ≡ none
replay-none [] = refl
replay-none (f ∷ frames) = refl

replay-true :
    (frames : List SseFrame) → replay (some true) frames ≡ some true → all is_comment frames ≡ true
replay-true [] h = refl
replay-true (f ∷ frames) h = go f.kind refl (replay-true frames)
  where
    go :
        (k : FrameKind)
        → f.kind ≡ k
        → (replay (some true) frames ≡ some true → all is_comment frames ≡ true)
        → all is_comment (f ∷ frames) ≡ true
    go comment e ih = rw e (ih (rw e at h))
    go data_event e ih = cc (replay-none frames)
    go done e ih = cc (replay-none frames)

push_open :
    {f : SseFrame} {frames : List SseFrame}
    → is_open f ≡ true
    → EndsWithDone frames
    → EndsWithDone (f ∷ frames)
push_open {f} o w = record {
  before = f ∷ w.before;
  marker = w.marker;
  after = w.after;
  parts = ap (λ (l : List SseFrame). f ∷ l) w.parts;
  is_marker = w.is_marker;
  open_before = rw o w.open_before;
  comments_after = w.comments_after;
}

replay-EndsWithDone :
    (frames : List SseFrame) → replay (some false) frames ≡ some true → EndsWithDone frames
replay-EndsWithDone [] h = cc
replay-EndsWithDone (f ∷ frames) h = go f.kind refl (replay-EndsWithDone frames)
  where
    go :
        (k : FrameKind)
        → f.kind ≡ k
        → (replay (some false) frames ≡ some true → EndsWithDone frames)
        → EndsWithDone (f ∷ frames)
    go comment e ih = push_open (rw e) (ih (rw e at h))
    go data_event e ih = push_open (rw e) (ih (rw e at h))
    go done e ih = record {
      before = [];
      marker = f;
      after = frames;
      parts = refl;
      is_marker = e;
      open_before = refl;
      comments_after = replay-true frames (rw e at h);
    }

raised_first :
    (chunk : Bytes) (chunks : List Bytes) (p p' q : Parser) (x : SseProtocolError)
    (frames : List SseFrame)
    → feed chunk p ≡ raised x p'
    → feed_all (chunk ∷ chunks) p ≡ returned frames q
    → ⊥
unfolding feed_all
raised_first chunk chunks p p' q x frames h e = ground arith

raised_later :
    (chunk : Bytes) (chunks : List Bytes) (p p' r q : Parser) (x : SseProtocolError)
    (first frames : List SseFrame)
    → feed chunk p ≡ returned first p'
    → feed_all chunks p' ≡ raised x r
    → feed_all (chunk ∷ chunks) p ≡ returned frames q
    → ⊥
unfolding feed_all
raised_later chunk chunks p p' r q x first frames h h' e = ground arith

both_returned :
    (chunk : Bytes) (chunks : List Bytes) (p p' r q : Parser) (first rest frames : List SseFrame)
    → feed chunk p ≡ returned first p'
    → feed_all chunks p' ≡ returned rest r
    → feed_all (chunk ∷ chunks) p ≡ returned frames q
    → (frames ≡ first ++ rest) × (r.is_done ≡ q.is_done)
unfolding feed_all
both_returned chunk chunks p p' r q first rest frames h h' e = ground arith

feed_all-replay :
    (chunks : List Bytes) (p q : Parser) (frames : List SseFrame)
    → feed_all chunks p ≡ returned frames q
    → replay (some p.is_done) frames ≡ some q.is_done
feed_all-replay [] p q frames e = unfold feed_all in ground arith
feed_all-replay (chunk ∷ chunks) p q frames e = elim (Outcome-cases (feed chunk p)) [
  | inr (x, p', h) ↦ absurd (raised_first chunk chunks p p' q x frames h e)
  | inl (first, p', h) ↦ elim (Outcome-cases (feed_all chunks p')) [
    | inr (x, r, h') ↦ absurd (raised_later chunk chunks p p' r q x first frames h h' e)
    | inl (rest, r, h') ↦
        let parts = both_returned chunk chunks p p' r q first rest frames h h' e in
        rw (parts.0, replay-append, feed-replay chunk p p' first h, ← parts.1)
          (feed_all-replay chunks p' r rest h')
  ]
]

-- A stream that a fresh parser accepts, by chunks and then at its end, has exactly one end
-- marker: comments and data stand before it, and only comments after it.
pub accepted-EndsWithDone :
    (chunks : List Bytes) (q : Parser) (frames : List SseFrame)
    → feed_all chunks init ≡ returned frames q
    → finalize q ≡ ok tt
    → EndsWithDone frames
unfolding init finalize
accepted-EndsWithDone chunks q frames e f =
    let flag : q.is_done ≡ true = ground arith in
    replay-EndsWithDone frames (feed_all-replay chunks init q frames e ∙ rw flag)
