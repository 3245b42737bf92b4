-- ===== src/Sse/Drain.antt =====
-- src/llm_inference_systems/sse.py, the loop of `feed`: its fuel, and what more bytes change.
use llm_inference_systems.Prelude.{
  ℕ, zero, suc, ◌+◌, ◌≤◌, ◌≡◌, refl, ap, ◌∙◌, inl, inr, true, false, Option, none, some, List, [],
  ◌∷◌, ◌++◌, arith, Option-cases, length, length-append, Result-cases, Outcome, returned, raised,
  view, then_do,
}
use llm_inference_systems.Prelude.{Outcome-cases, ap, ◌+◌}
use mathlib.Core.List.{append_assoc}
use llm_inference_systems.Sse.{
  Bytes, Parser, SseFrame, SseProtocolError, lf, drain, parse_frame, nonempty, split_frame,
  replace_crlf, decoded_text, read_lines, Outcome, ℕ, ◌≡◌, List, returned, some, length, none,
  raised, suc, arith, ◌+◌, decode_utf8, split_lines,
}
use llm_inference_systems.Sse.Frames.{
  split_frame_suffix, avoids_crlf, avoids_crlf_suffix, split_frame-replace_crlf,
  length-replace_crlf,
}

-- One round of the loop, after its boundary was found.
pub round : ℕ → List SseFrame → Bytes → Parser → Outcome SseProtocolError Parser (List SseFrame)
round fuel frames raw p = elim (nonempty raw) [
  | false ↦ drain fuel frames p
  | true ↦ elim (parse_frame raw p) [
    | raised e q ↦ raised e q
    | returned f q ↦ drain fuel (frames ++ f ∷ []) q
  ]
]

pub drain-none :
    (fuel : ℕ) (frames : List SseFrame) (p : Parser)
    → split_frame p.buffer ≡ none
    → drain fuel frames p ≡ returned frames p
unfolding drain
drain-none zero frames p h = refl
drain-none (suc fuel) frames p h = ground arith

pub drain-some :
    (fuel : ℕ) (frames : List SseFrame) (p : Parser) (raw rest : Bytes)
    → split_frame p.buffer ≡ some (raw, rest)
    → drain (suc fuel) frames p ≡ round fuel frames raw (record p { buffer = rest })
unfolding drain round
drain-some fuel frames p raw rest h = ground arith

abbrev rebuffer :
    Bytes → Outcome SseProtocolError Parser SseFrame → Outcome SseProtocolError Parser SseFrame
rebuffer b (returned f q) = returned f (record q { buffer = b })
rebuffer b (raised e q) = raised e (record q { buffer = b })

-- `_parse_frame` does not look at the buffer.
parse_frame-rebuffer :
    (raw b : Bytes) (p : Parser)
    → parse_frame raw (record p { buffer = b }) ≡ rebuffer b (parse_frame raw p)
unfolding parse_frame
parse_frame-rebuffer raw b p = elim (Result-cases (decoded_text (decode_utf8 raw))) [
  | inr (e, h) ↦ rw (h)
  | inl (text, h) ↦ elim (Result-cases (read_lines (split_lines text))) [
    | inr (e, h') ↦ rw (h, h')
    | inl (fields, h') ↦ rw (h, h') (ground arith)
  ]
]

pub split_frame-short : (xs : Bytes) → length xs ≤ 0 → split_frame xs ≡ none
unfolding split_frame
split_frame-short [] h = refl
split_frame-short (x ∷ xs) h = absurd (omega arith)

pub length-suffix :
    (xs raw rest : Bytes) → split_frame xs ≡ some (raw, rest) → length rest + 2 ≤ length xs
length-suffix xs raw rest h =
    rw (split_frame_suffix xs raw rest h) (omega (arith, length-append raw (lf ∷ lf ∷ rest)))

pub parse_frame-buffer :
    (raw : Bytes) (p : Parser) {f : SseFrame} {q : Parser}
    → parse_frame raw p ≡ returned f q
    → q.buffer ≡ p.buffer
parse_frame-buffer raw p h = cc (ap outcome_buffer (parse_frame-rebuffer raw p.buffer p), h)
  where
    outcome_buffer : Outcome SseProtocolError Parser SseFrame → Option Bytes
    outcome_buffer (returned f q) = some q.buffer
    outcome_buffer (raised e q) = none

pub round-empty :
    (fuel : ℕ) (frames : List SseFrame) (p : Parser) → round fuel frames [] p ≡ drain fuel frames p
unfolding round
round-empty fuel frames p = refl

pub round-returned :
    (fuel : ℕ) (frames : List SseFrame) (b : ℕ) (raw : Bytes) (p : Parser) {f : SseFrame}
    {q : Parser}
    → parse_frame (b ∷ raw) p ≡ returned f q
    → round fuel frames (b ∷ raw) p ≡ drain fuel (frames ++ f ∷ []) q
unfolding round
round-returned fuel frames b raw p h = ground arith

pub round-raised :
    (fuel : ℕ) (frames : List SseFrame) (b : ℕ) (raw : Bytes) (p : Parser) {e : SseProtocolError}
    {q : Parser}
    → parse_frame (b ∷ raw) p ≡ raised e q
    → round fuel frames (b ∷ raw) p ≡ raised e q
unfolding round
round-raised fuel frames b raw p h = ground arith

-- Two fuels that agree on the rest of the loop agree on a round.
round_agree :
    (fuel k : ℕ) (frames : List SseFrame) (raw : Bytes) (p : Parser)
    → ((frames' : List SseFrame) (q : Parser)
        → q.buffer ≡ p.buffer
        → drain fuel frames' q ≡ drain k frames' q)
    → round fuel frames raw p ≡ round k frames raw p
round_agree fuel k frames [] p agree = rw round-empty (rw round-empty (agree frames p refl))
round_agree fuel k frames (b ∷ raw) p agree = elim (Outcome-cases (parse_frame (b ∷ raw) p)) [
  | inl (f, q, h) ↦
      rw (round-returned fuel frames b raw p h, round-returned k frames b raw p h)
        (agree (frames ++ f ∷ []) q (parse_frame-buffer (b ∷ raw) p h))
  | inr (e, q, h) ↦ rw (round-raised fuel frames b raw p h, round-raised k frames b raw p h)
]

-- Fuel of the buffer's length is enough: more of it changes nothing.
pub drain-fuel :
    (fuel k : ℕ) (frames : List SseFrame) (p : Parser)
    → length p.buffer ≤ fuel
    → length p.buffer ≤ k
    → drain fuel frames p ≡ drain k frames p
drain-fuel zero k frames p h h' = rw (
  drain-none zero frames p (split_frame-short p.buffer h),
  drain-none k frames p (split_frame-short p.buffer h),
)
drain-fuel (suc fuel) zero frames p h h' = rw (
  drain-none (suc fuel) frames p (split_frame-short p.buffer h'),
  drain-none zero frames p (split_frame-short p.buffer h'),
)
drain-fuel (suc fuel) (suc k) frames p h h' = elim (Option-cases (split_frame p.buffer)) [
  | inl e ↦ rw (drain-none (suc fuel) frames p e, drain-none (suc k) frames p e)
  | inr ((raw, rest), e) ↦
      rw (drain-some fuel frames p raw rest e, drain-some k frames p raw rest e)
        (round_agree fuel k frames raw (record p { buffer = rest })
          (λ frames' q same.
            let short : length q.buffer + 2 ≤ length p.buffer =
              rw same (length-suffix p.buffer raw rest e) in
            drain-fuel fuel k frames' q (omega arith) (omega arith)))
]

-- What a caller gets who goes on with `ys` after the loop ended at `q`.
abbrev pub resume :
    ℕ → Bytes → List SseFrame → Parser → Outcome SseProtocolError Parser (List SseFrame)
resume k ys frames q = drain k frames (record q { buffer = replace_crlf (q.buffer ++ ys) })

round-resume :
    (fuel k : ℕ) (frames : List SseFrame) (raw ys : Bytes) (p : Parser)
    → ((frames' : List SseFrame) (q : Parser)
        → q.buffer ≡ p.buffer
        → view (resume k ys frames' q) ≡ view (then_do (drain fuel frames' q) (resume k ys)))
    → view (round k frames raw (record p { buffer = replace_crlf (p.buffer ++ ys) }))
      ≡ view (then_do (round fuel frames raw p) (resume k ys))
round-resume fuel k frames [] ys p go_on = rw round-empty (rw round-empty (go_on frames p refl))
round-resume fuel k frames (b ∷ raw) ys p go_on = elim (Outcome-cases (parse_frame (b ∷ raw) p)) [
  | inl (f, q, h) ↦
      rw
        (
          round-returned fuel frames b raw p h,
          round-returned k frames b raw (record p { buffer = replace_crlf (p.buffer ++ ys) })
              (arrived p h),
        )
        (rw (← parse_frame-buffer (b ∷ raw) p h)
          (go_on (frames ++ f ∷ []) q (parse_frame-buffer (b ∷ raw) p h)))
  | inr (e, q, h) ↦ rw (
    round-raised fuel frames b raw p h,
    round-raised k frames b raw (record p { buffer = replace_crlf (p.buffer ++ ys) }) (arrived p h),
  )
]
  where
    arrived :
        (p : Parser) {o : Outcome SseProtocolError Parser SseFrame}
        → parse_frame (b ∷ raw) p ≡ o
        → parse_frame (b ∷ raw) (record p { buffer = replace_crlf (p.buffer ++ ys) })
          ≡ rebuffer (replace_crlf (p.buffer ++ ys)) o
    arrived p h =
        parse_frame-rebuffer (b ∷ raw) (replace_crlf (p.buffer ++ ys)) p
        ∙ ap (rebuffer (replace_crlf (p.buffer ++ ys))) h

fits_after :
    (xs ys raw rest : Bytes) {k : ℕ}
    → split_frame xs ≡ some (raw, rest)
    → length (xs ++ ys) ≤ suc k
    → length (replace_crlf (rest ++ ys)) ≤ k
fits_after xs ys raw rest e h = omega (
  arith,
  length-suffix xs raw rest e,
  length-append xs ys,
  length-append rest ys,
  length-replace_crlf (rest ++ ys),
)

avoids_crlf_rest :
    (xs raw rest : Bytes)
    → split_frame xs ≡ some (raw, rest)
    → avoids_crlf xs ≡ true
    → avoids_crlf rest ≡ true
avoids_crlf_rest xs raw rest e a =
    let split : avoids_crlf (raw ++ lf ∷ lf ∷ rest) ≡ true =
      rw (split_frame_suffix xs raw rest e) at a in
    avoids_crlf_suffix (raw ++ lf ∷ lf ∷ []) rest (rw append_assoc split)

-- Bytes that arrive while frames are waiting give what they give after those are parsed.
pub drain-resume :
    (fuel k : ℕ) (frames : List SseFrame) (ys : Bytes) (p : Parser)
    → avoids_crlf p.buffer ≡ true
    → length p.buffer ≤ fuel
    → length (p.buffer ++ ys) ≤ k
    → view (resume k ys frames p) ≡ view (then_do (drain fuel frames p) (resume k ys))
drain-resume zero k frames ys p a h h' =
    rw (drain-none zero frames p (split_frame-short p.buffer h))
drain-resume (suc fuel) zero frames ys p a h h' = rw (
    drain-none (suc fuel) frames p
      (split_frame-short p.buffer (omega (arith, length-append p.buffer ys))))
drain-resume (suc fuel) (suc k) frames ys p a h h' = elim (Option-cases (split_frame p.buffer)) [
  | inl e ↦ rw (drain-none (suc fuel) frames p e)
  | inr ((raw, rest), e) ↦
      rw
        (
          drain-some fuel frames p raw rest e,
          drain-some k frames (record p { buffer = replace_crlf (p.buffer ++ ys) }) raw
              (replace_crlf (rest ++ ys)) (split_frame-replace_crlf p.buffer ys raw rest a e),
          round_agree k (suc k) frames raw (record p { buffer = replace_crlf (rest ++ ys) })
              (λ frames' q same.
                let short : length q.buffer ≤ k = rw same (fits_after p.buffer ys raw rest e h') in
                drain-fuel k (suc k) frames' q short (omega arith)),
        )
        (round-resume fuel (suc k) frames raw ys (record p { buffer = rest })
          (λ frames' q same.
            let short : length q.buffer + 2 ≤ length p.buffer =
              rw same (length-suffix p.buffer raw rest e) in
            let normal : avoids_crlf q.buffer ≡ true =
              rw same (avoids_crlf_rest p.buffer raw rest e a) in
            let joined : length q.buffer + length ys ≤ k =
              omega (arith, length-append p.buffer ys) in
            drain-resume fuel (suc k) frames' ys q normal (omega arith)
              (omega (arith, length-append q.buffer ys))))
]

-- What the loop leaves in the buffer: the end of what was there, with no whole frame in it.
pub record Leaves (before : Bytes) (p : Parser) : Type 0 where
  pub taken : Bytes
  pub suffix : before ≡ taken ++ p.buffer
  pub drained : split_frame p.buffer ≡ none

stays :
    (frames out : List SseFrame) (p q : Parser)
    → split_frame p.buffer ≡ none
    → ◌≡◌ {A = Outcome SseProtocolError Parser (List SseFrame)} (returned frames p) (returned out q)
    → Leaves p.buffer q
stays frames out p q h e =
    let same : p.buffer ≡ q.buffer = ground arith in
    record { taken = []; suffix = same; drained = rw same at h }

goes_on :
    (before raw rest : Bytes) (q : Parser)
    → split_frame before ≡ some (raw, rest)
    → Leaves rest q
    → Leaves before q
goes_on before raw rest q e l = record {
  taken = (raw ++ lf ∷ lf ∷ []) ++ l.taken;
  suffix =
      split_frame_suffix before raw rest e
      ∙ rw (append_assoc, append_assoc) (ap (λ (r : Bytes). raw ++ lf ∷ lf ∷ r) l.suffix);
  drained = l.drained;
}

round-Leaves :
    (fuel : ℕ) (frames out : List SseFrame) (raw : Bytes) (p q : Parser)
    → ((frames' : List SseFrame) (p' : Parser)
        → p'.buffer ≡ p.buffer
        → drain fuel frames' p' ≡ returned out q
        → Leaves p'.buffer q)
    → round fuel frames raw p ≡ returned out q
    → Leaves p.buffer q
round-Leaves fuel frames out [] p q ih e = ih frames p refl (rw round-empty at e)
round-Leaves fuel frames out (b ∷ raw) p q ih e = elim (Outcome-cases (parse_frame (b ∷ raw) p)) [
  | inl (f, p', h) ↦
      let same : p'.buffer ≡ p.buffer = parse_frame-buffer (b ∷ raw) p h in
      let l : Leaves p'.buffer q =
        ih (frames ++ f ∷ []) p' same (rw (round-returned fuel frames b raw p h) at e) in
      rw (← same) l
  | inr (x, p', h) ↦
      let stuck : ◌≡◌ {A = Outcome SseProtocolError Parser (List SseFrame)} (raised x p')
          (returned out q) =
        rw (round-raised fuel frames b raw p h) at e in
      cc
]

pub drain-Leaves :
    (fuel : ℕ) (frames out : List SseFrame) (p q : Parser)
    → length p.buffer ≤ fuel
    → drain fuel frames p ≡ returned out q
    → Leaves p.buffer q
drain-Leaves zero frames out p q h e =
    stays frames out p q (split_frame-short p.buffer h) (unfold drain in e)
drain-Leaves (suc fuel) frames out p q h e = elim (Option-cases (split_frame p.buffer)) [
  | inl n ↦ stays frames out p q n (rw (drain-none (suc fuel) frames p n) at e)
  | inr ((raw, rest), s) ↦ goes_on p.buffer raw rest q s (
      round-Leaves fuel frames out raw (record p { buffer = rest }) q
        (λ frames' p' same e'.
          let short : length p'.buffer + 2 ≤ length p.buffer =
            rw same (length-suffix p.buffer raw rest s) in
          drain-Leaves fuel frames' out p' q (omega arith) e')
        (rw (drain-some fuel frames p raw rest s) at e))
]

abbrev pub prepended :
    List SseFrame
    → Outcome SseProtocolError Parser (List SseFrame)
    → Outcome SseProtocolError Parser (List SseFrame)
prepended frames (returned out q) = returned (frames ++ out) q
prepended frames (raised e q) = raised e q

round-append :
    (fuel : ℕ) (frames more : List SseFrame) (raw : Bytes) (p : Parser)
    → ((more' : List SseFrame) (q : Parser)
        → drain fuel (frames ++ more') q ≡ prepended frames (drain fuel more' q))
    → round fuel (frames ++ more) raw p ≡ prepended frames (round fuel more raw p)
round-append fuel frames more [] p ih =
    rw (round-empty fuel (frames ++ more) p, round-empty fuel more p) (ih more p)
round-append fuel frames more (b ∷ raw) p ih = elim (Outcome-cases (parse_frame (b ∷ raw) p)) [
  | inl (f, q, h) ↦
      rw
        (
          round-returned fuel (frames ++ more) b raw p h,
          round-returned fuel more b raw p h,
          append_assoc,
        )
        (ih (more ++ f ∷ []) q)
  | inr (e, q, h) ↦
      rw (round-raised fuel (frames ++ more) b raw p h, round-raised fuel more b raw p h)
]

-- The loop adds to the frames that it was given.
pub drain-append :
    (fuel : ℕ) (frames more : List SseFrame) (p : Parser)
    → drain fuel (frames ++ more) p ≡ prepended frames (drain fuel more p)
drain-append zero frames more p = unfold drain in refl
drain-append (suc fuel) frames more p = elim (Option-cases (split_frame p.buffer)) [
  | inl e ↦ rw (drain-none (suc fuel) (frames ++ more) p e, drain-none (suc fuel) more p e)
  | inr ((raw, rest), e) ↦
      rw (drain-some fuel (frames ++ more) p raw rest e, drain-some fuel more p raw rest e)
        (round-append fuel frames more raw (record p { buffer = rest })
          (λ more' q. drain-append fuel frames more' q))
]
