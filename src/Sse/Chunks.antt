-- ===== src/Sse/Chunks.antt =====
-- src/llm_inference_systems/sse.py and the loops over body chunks that feed it: how a body is cut
-- into chunks does not matter.
use llm_inference_systems.Prelude.{
  ℕ, ◌+◌, ◌≤◌, ◌≡◌, refl, sym, ap, ◌∙◌, inl, inr, true, none, List, [], ◌∷◌, ◌++◌, arith, length,
  length-append, concat, Outcome-cases, Outcome, returned, raised, Action, view, then_do, ◌>>=◌,
  pure,
}
use mathlib.Core.List.{append_assoc, append-nil}
use llm_inference_systems.Sse.{
  Bytes, Parser, SseFrame, SseProtocolError, drain, feed, split_frame, replace_crlf,
  max_sse_buffer_bytes,
}
use llm_inference_systems.Sse.Frames.{
  avoids_crlf, avoids_cr_crlf, avoids_cr_crlf_suffix, avoids_cr_crlf_prefix, avoids_crlf_suffix,
  replace_crlf-replace_crlf, replace_crlf_id, length-replace_crlf, avoids_crlf-replace_crlf,
  avoids_cr_crlf-replace_crlf,
}
use llm_inference_systems.Sse.Drain.{
  drain-resume, drain-fuel, resume, drain-Leaves, Leaves, drain-append, drain-none, prepended,
}

-- `async for chunk in ...: frames = parser.feed(chunk)`: the frames of all chunks, in order.
unfoldable pub feed_all : List Bytes → Action SseProtocolError Parser (List SseFrame)
feed_all [] = pure []
feed_all (chunk ∷ chunks) = do frames ← feed chunk; rest ← feed_all chunks; pure (frames ++ rest)

-- A parser between two calls: its buffer is normalised and holds no whole frame.
pub record IsBetweenCalls (p : Parser) : Type 0 where
  pub normal : avoids_crlf p.buffer ≡ true
  pub drained : split_frame p.buffer ≡ none

feed-fits :
    (x : ℕ) (chunk : Bytes) (p : Parser)
    → length (p.buffer ++ x ∷ chunk) ≤ max_sse_buffer_bytes
    → feed (x ∷ chunk) p
      ≡ drain
          (length (replace_crlf (p.buffer ++ x ∷ chunk)))
          []
          (record p { buffer = replace_crlf (p.buffer ++ x ∷ chunk) })
unfolding feed
feed-fits x chunk p h = ground arith

-- Between calls, a chunk that fits is fed by normalising and draining, also if it is empty.
feed-drain :
    (chunk : Bytes) (p : Parser)
    → IsBetweenCalls p
    → length (p.buffer ++ chunk) ≤ max_sse_buffer_bytes
    → (k : ℕ) → length (p.buffer ++ chunk) ≤ k
    → feed chunk p ≡ resume k chunk [] p
feed-drain [] p b h k fits =
    rw (append-nil p.buffer, replace_crlf_id p.buffer b.normal, drain-none k [] p b.drained)
      (unfold feed in refl)
feed-drain (x ∷ chunk) p b h k fits =
    feed-fits x chunk p h
    ∙ drain-fuel (length (replace_crlf (p.buffer ++ x ∷ chunk))) k []
        (record p { buffer = replace_crlf (p.buffer ++ x ∷ chunk) }) (omega arith)
        (omega (arith, length-replace_crlf (p.buffer ++ x ∷ chunk)))

view-prepended :
    (frames : List SseFrame) (o o' : Outcome SseProtocolError Parser (List SseFrame))
    → view o ≡ view o'
    → view (then_do o (λ rest. pure (frames ++ rest))) ≡ view (prepended frames o')
view-prepended frames (returned a q) (returned b r) h = ground arith
view-prepended frames (returned a q) (raised e r) h = cc
view-prepended frames (raised e q) (returned b r) h = cc
view-prepended frames (raised e q) (raised e' r) h = ground arith

-- The body is normalised at once or chunk by chunk.
resume-append :
    (k : ℕ) (chunk ys : Bytes) (p : Parser)
    → avoids_cr_crlf (p.buffer ++ chunk ++ ys) ≡ true
    → resume k (chunk ++ ys) [] p
      ≡ resume k ys [] (record p { buffer = replace_crlf (p.buffer ++ chunk) })
resume-append k chunk ys p a =
    rw (← append_assoc p.buffer chunk ys, ← replace_crlf-replace_crlf (p.buffer ++ chunk) ys a)

-- A chunk that was fed without an error leaves a parser between calls, and room for the rest.
record AfterChunk (ys before : Bytes) (q : Parser) : Type 0 where
  between : IsBetweenCalls q
  clean : avoids_cr_crlf (q.buffer ++ ys) ≡ true
  fits : length (q.buffer ++ ys) ≤ length (before ++ ys)

after_chunk :
    (ys before : Bytes) (q : Parser)
    → avoids_cr_crlf (before ++ ys) ≡ true
    → Leaves (replace_crlf before) q
    → AfterChunk ys before q
after_chunk ys before q a l = record {
  between = record {
    normal =
        avoids_crlf_suffix l.taken q.buffer
          (rw (← l.suffix) (avoids_crlf-replace_crlf before (avoids_cr_crlf_prefix before ys a)));
    drained = l.drained;
  };
  clean = avoids_cr_crlf_suffix l.taken (q.buffer ++ ys) (
      rw (← append_assoc l.taken q.buffer ys, ← l.suffix)
        (avoids_cr_crlf-replace_crlf before ys a));
  fits =
      let whole : length (replace_crlf before) ≡ length l.taken + length q.buffer =
        ap length l.suffix ∙ length-append l.taken q.buffer in
      omega (arith, length-append q.buffer ys, length-append before ys, length-replace_crlf before);
}

-- What the first chunk did, and then the rest of the body.
feed_all_after :
    (chunks : List Bytes) (frames : List SseFrame) (q : Parser) (k : ℕ)
    → IsBetweenCalls q
    → length (q.buffer ++ concat chunks) ≤ max_sse_buffer_bytes
    → length (q.buffer ++ concat chunks) ≤ k
    → view (feed_all chunks q) ≡ view (feed (concat chunks) q)
    → view (then_do (feed_all chunks q) (λ rest. pure (frames ++ rest)))
      ≡ view (resume k (concat chunks) frames q)
feed_all_after chunks frames q k b h fits ih =
    view-prepended frames (feed_all chunks q) (resume k (concat chunks) [] q)
      (ih ∙ ap view (feed-drain (concat chunks) q b h k fits))
    ∙ ap view (
        sym (
          drain-append k frames [] (record q { buffer = replace_crlf (q.buffer ++ concat chunks) }))
        ∙ rw append-nil)

feed_all_step :
    (chunk : Bytes) (chunks : List Bytes) (p : Parser)
    → feed_all (chunk ∷ chunks) p
      ≡ then_do
          (feed chunk p)
          (λ frames q. then_do (feed_all chunks q) (λ rest. pure (frames ++ rest)))
unfolding feed_all
feed_all_step chunk chunks p = refl

-- However a body without b"\r\r\n" is cut into chunks, feeding them one after another to a parser
-- between calls gives the frames and the parser, or the error, of feeding the body at once, if the
-- buffer and the body fit into the limit of the buffer.
pub feed_all-concat :
    (chunks : List Bytes) (p : Parser)
    → IsBetweenCalls p
    → avoids_cr_crlf (p.buffer ++ concat chunks) ≡ true
    → length (p.buffer ++ concat chunks) ≤ max_sse_buffer_bytes
    → view (feed_all chunks p) ≡ view (feed (concat chunks) p)
feed_all-concat [] p b a h = unfold feed_all feed in refl
feed_all-concat (chunk ∷ chunks) p b a h =
    let ys = concat chunks in
    let k = length (p.buffer ++ (chunk ++ ys)) in
    let p1 : Parser = record p { buffer = replace_crlf (p.buffer ++ chunk) } in
    let clean : avoids_cr_crlf ((p.buffer ++ chunk) ++ ys) ≡ true = rw append_assoc a in
    let first : length (p.buffer ++ chunk) ≤ k = omega (
      arith,
      length-append p.buffer chunk,
      length-append p.buffer (chunk ++ ys),
      length-append chunk ys,
    ) in
    let normal : avoids_crlf p1.buffer ≡ true =
      avoids_crlf-replace_crlf (p.buffer ++ chunk)
        (avoids_cr_crlf_prefix (p.buffer ++ chunk) ys clean) in
    let second : length (replace_crlf (p.buffer ++ chunk) ++ ys) ≤ k = omega (
      arith,
      length-append (replace_crlf (p.buffer ++ chunk)) ys,
      length-append p.buffer chunk,
      length-append p.buffer (chunk ++ ys),
      length-append chunk ys,
      length-replace_crlf (p.buffer ++ chunk),
    ) in
    rw
      (
        feed-drain (chunk ++ ys) p b h k (omega arith),
        resume-append k chunk ys p clean,
        drain-resume k k [] ys p1 normal (omega (arith, length-replace_crlf (p.buffer ++ chunk)))
            second,
      )
      (rw (feed_all_step chunk chunks p, feed-drain chunk p b (omega arith) k first)
        (elim (Outcome-cases (drain k [] p1)) [
          | inr (e, q, r) ↦ rw r
          | inl (frames, q, r) ↦
              let after : AfterChunk ys (p.buffer ++ chunk) q =
                after_chunk ys (p.buffer ++ chunk) q clean (
                  drain-Leaves k [] frames p1 q
                    (omega (arith, length-replace_crlf (p.buffer ++ chunk))) r) in
              let short : length (q.buffer ++ ys) ≤ k = omega (
                arith,
                after.fits,
                length-append (p.buffer ++ chunk) ys,
                length-append p.buffer chunk,
                length-append p.buffer (chunk ++ ys),
                length-append chunk ys,
              ) in
              rw r (
                feed_all_after chunks frames q k after.between (omega arith) short
                  (feed_all-concat chunks q after.between after.clean (omega arith)))
        ]))
