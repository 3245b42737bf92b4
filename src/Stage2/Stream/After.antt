-- ===== src/Stage2/Stream/After.antt =====
-- src/llm_inference_systems/stage2_protocol.py, Stage2StreamValidator: what a returned end of the
-- transport says, and what the terminals forbid.
use llm_inference_systems.Prelude.{
  [], ◌∷◌, ℕ, ◌≤◌, ◌≡◌, true, none, some, arith, is_some, ok, returned, raised, refl, Option,
  Outcome-cases, ap, ◌∙◌, ◌∷◌, inr, List, inl, ◌≢◌,
}
use llm_inference_systems.Sse
use llm_inference_systems.Sse.{Bytes, SseFrame}
use llm_inference_systems.Stage2.Chain.{RequestIdentityChain}
use llm_inference_systems.Stage2.Evidence.{RequestEvidence, reconciles}
use llm_inference_systems.Stage2.Stream.{
  feed, Host, Validator, advance, data_after_transport_terminal, retain_chunk,
  duplicate_transport_terminal, accept_frames, frame_offset, parse_chunk, accept_frame,
}
use llm_inference_systems.Stage2.Stream.Sound.{fed, feed_effect, parse_chunk_effect}
use llm_inference_systems.Stage2.Stream.Close.{
  evidence_of_events, evidence, chain_matches, close_transport, build_evidence, boundaries,
}

-- Evidence is only returned if it reconciles.
evidence-reconciles :
    (h : Host) (chain : RequestIdentityChain) (v : Validator) (r : RequestEvidence)
    → evidence h chain v ≡ ok r
    → reconciles h.library r ≡ true
unfolding evidence evidence_of_events
evidence-reconciles h chain v r e = ground (arith, e)

-- What the call tested, and what it wrote.
pub close_transport_effect :
    (h : Host) (chain : RequestIdentityChain) (at : ℕ) (v w : Validator) (r : RequestEvidence)
    → close_transport h chain at v ≡ returned r w
    → (v.transport_terminal_offset_ns ≡ none)
      × (v.last_observation_offset_ns ≤ at)
      × (Sse.finalize v.parser ≡ ok tt)
      × (is_some v.protocol_terminal_offset_ns ≡ true)
      × (chain_matches chain v ≡ true)
      × (w ≡ record v { last_observation_offset_ns = at; transport_terminal_offset_ns = some at })
      × (evidence h chain w ≡ ok r)
unfolding close_transport advance
close_transport_effect h chain at v w r e = ground (arith, e)

-- What the evidence copies from the validator.
evidence_effect :
    (h : Host) (chain : RequestIdentityChain) (v : Validator) (r : RequestEvidence)
    → evidence h chain v ≡ ok r
    → (r.external_request_id ≡ v.external_base_id)
      × (r.request_identity_chain_sha256 ≡ h.identity chain)
      × (r.sent_prompt_token_ids ≡ v.sent_prompt_token_ids)
      × (r.token_events ≡ v.token_events)
      × (r.final_output_token_ids ≡ v.output_ids)
      × (r.output_text ≡ v.output_text)
      × (r.timing.dispatch ≡ v.dispatch_offset_ns)
      × (some r.timing.protocol_terminal ≡ v.protocol_terminal_offset_ns)
      × (some r.timing.transport_terminal ≡ v.transport_terminal_offset_ns)
unfolding evidence evidence_of_events build_evidence boundaries
evidence_effect h chain v r e = ground (arith, e)

same_offset : (a b : ℕ) → ◌≡◌ {A = Option ℕ} (some a) (some b) → a ≡ b
same_offset a b h = cc

-- Evidence that the end of the transport returns reconciles in every respect that the contract
-- checks, and is about the validator's own request, log chain, events, tokens and text; its
-- transport terminal is the call's, and the stream's protocol terminal was seen before.
pub close_transport-reconciles :
    (h : Host) (chain : RequestIdentityChain) (at : ℕ) (v w : Validator) (r : RequestEvidence)
    → close_transport h chain at v ≡ returned r w
    → (reconciles h.library r ≡ true)
      × (r.external_request_id ≡ v.external_base_id)
      × (r.request_identity_chain_sha256 ≡ h.identity chain)
      × (r.sent_prompt_token_ids ≡ v.sent_prompt_token_ids)
      × (r.token_events ≡ v.token_events)
      × (r.final_output_token_ids ≡ v.output_ids)
      × (r.output_text ≡ v.output_text)
      × (some r.timing.protocol_terminal ≡ v.protocol_terminal_offset_ns)
      × (r.timing.transport_terminal ≡ at)
close_transport-reconciles h chain at v w r e =
    let (_, _, _, _, _, same, made) = close_transport_effect h chain at v w r e in
    let (a, b, c, d, f, g, _, i, j) = evidence_effect h chain w r made in
    (
      evidence-reconciles h chain w r made,
      a ∙ ap (λ u. u.external_base_id) same,
      b,
      c ∙ ap (λ u. u.sent_prompt_token_ids) same,
      d ∙ ap (λ u. u.token_events) same,
      f ∙ ap (λ u. u.output_ids) same,
      g ∙ ap (λ u. u.output_text) same,
      i ∙ ap (λ u. u.protocol_terminal_offset_ns) same,
      same_offset _ _ (j ∙ ap (λ u. u.transport_terminal_offset_ns) same),
    )

closed_bytes :
    (h : Host) (chunk : Bytes) (at t : ℕ) (v : Validator)
    → v.transport_terminal_offset_ns ≡ some t
    → feed h chunk at v ≡ raised data_after_transport_terminal (retain_chunk h chunk at v)
unfolding feed
closed_bytes h [] at t v e = ground (arith, e)
closed_bytes h (b ∷ chunk) at t v e = ground (arith, e)

closed_again :
    (h : Host) (chain : RequestIdentityChain) (at t : ℕ) (v : Validator)
    → v.transport_terminal_offset_ns ≡ some t
    → close_transport h chain at v ≡ raised duplicate_transport_terminal v
unfolding close_transport
closed_again h chain at t v e = ground (arith, e)

-- After the end of the transport the validator refuses bytes and a second end.
pub close_transport-refuses :
    (h : Host) (chain chain' : RequestIdentityChain) (at at' : ℕ) (chunk : Bytes) (v w : Validator)
    (r : RequestEvidence)
    → close_transport h chain at v ≡ returned r w
    → (feed h chunk at' w ≡ raised data_after_transport_terminal (retain_chunk h chunk at' w))
      × (close_transport h chain' at' w ≡ raised duplicate_transport_terminal w)
close_transport-refuses h chain chain' at at' chunk v w r e =
    let (_, _, _, _, _, same, made) = close_transport_effect h chain at v w r e in
    let over = ap (λ u. u.transport_terminal_offset_ns) same in
    (closed_bytes h chunk at' at w over, closed_again h chain' at' at w over)

-- What the stream has delivered.
pub record SameDelivery (v w : Validator) : Type 0 where
  pub token_events : w.token_events ≡ v.token_events
  pub output_ids : w.output_ids ≡ v.output_ids
  pub output_text : w.output_text ≡ v.output_text
  pub prompt : w.returned_prompt_ids ≡ v.returned_prompt_ids
  pub server_metrics : w.server_metrics ≡ v.server_metrics
  pub frames : w.parsed_sse_events ≡ v.parsed_sse_events
  pub protocol : w.protocol_terminal_offset_ns ≡ v.protocol_terminal_offset_ns

-- A frame after the protocol terminal raises.
late_frame :
    (h : Host) (frame : SseFrame) (frames : List SseFrame) (at t : ℕ) (v w : Validator)
    (u : Unit {0})
    → v.protocol_terminal_offset_ns ≡ some t
    → accept_frames h 0 (frame ∷ frames) at v ≢ returned u w
unfolding accept_frames frame_offset accept_frame
late_frame h frame frames at t v w u seen e = ground (arith, seen)

fed-protocol :
    (h : Host) (chunk : Bytes) (at : ℕ) (v : Validator)
    → (fed h chunk at v).protocol_terminal_offset_ns ≡ v.protocol_terminal_offset_ns
unfolding fed
fed-protocol h [] at v = refl
fed-protocol h (b ∷ chunk) at v = ground arith

-- No frame: only the parser, the chunks and the offsets change.
no_frame :
    (h : Host) (chunk : Bytes) (at : ℕ) (v y w : Validator) (u : Unit {0})
    → y ≡ record (fed h chunk at v) { parser = y.parser }
    → accept_frames h 0 [] at y ≡ returned u w
    → SameDelivery v w
unfolding accept_frames fed
no_frame h [] at v y w u idle e = record {
  token_events = ground (arith, idle, e);
  output_ids = ground (arith, idle, e);
  output_text = ground (arith, idle, e);
  prompt = ground (arith, idle, e);
  server_metrics = ground (arith, idle, e);
  frames = ground (arith, idle, e);
  protocol = ground (arith, idle, e);
}
no_frame h (b ∷ chunk) at v y w u idle e = record {
  token_events = ground (arith, idle, e);
  output_ids = ground (arith, idle, e);
  output_text = ground (arith, idle, e);
  prompt = ground (arith, idle, e);
  server_metrics = ground (arith, idle, e);
  frames = ground (arith, idle, e);
  protocol = ground (arith, idle, e);
}

-- Bytes that are accepted after the protocol terminal deliver nothing.
pub feed-SameDelivery :
    (h : Host) (chunk : Bytes) (at t : ℕ) (v w : Validator) (u : Unit {0})
    → v.protocol_terminal_offset_ns ≡ some t
    → feed h chunk at v ≡ returned u w
    → SameDelivery v w
feed-SameDelivery h chunk at t v w u seen e =
    let (headers, later, rest) = feed_effect h chunk at v w u e in
    elim (Outcome-cases (parse_chunk chunk (fed h chunk at v))) [
      | inr (x, y, r) ↦ ground (arith, rest)
      | inl ([], y, r) ↦
          let idle = parse_chunk_effect chunk (fed h chunk at v) y [] r in
          no_frame h chunk at v y w u idle (rw r at rest)
      | inl (f ∷ frames, y, r) ↦
          let idle = parse_chunk_effect chunk (fed h chunk at v) y (f ∷ frames) r in
          absurd (
            late_frame h f frames at t y w u
              (ap (λ u. u.protocol_terminal_offset_ns) idle ∙ fed-protocol h chunk at v ∙ seen)
              (rw r at rest))
    ]
