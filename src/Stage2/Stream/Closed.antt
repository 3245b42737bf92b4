-- ===== src/Stage2/Stream/Closed.antt =====
-- src/llm_inference_systems/stage2_protocol.py, Stage2StreamValidator: when the end of the transport
-- gives evidence.
use mathlib.Core.Path.{subst}
use llm_inference_systems.Prelude.{
  ℕ, suc, ◌≤◌, ◌<◌, ◌≡◌, refl, ap, inl, inr, Bool, true, false, Option, none, some, List, [], ◌∷◌,
  ◌++◌, arith, leb, is_some, Bool-cases, &&-split, codes, length, all, any, list_eq-eq,
  list_eq_refl, ok, ℤ, int_eq_refl, is_sorted,
}
use llm_inference_systems.Sse
use llm_inference_systems.Stage2.Json.{Members}
use llm_inference_systems.Stage2.Chain.{
  chain_is_valid-hex, RequestIdentityChain, chain_is_valid, has_hex_suffix, serving_id,
}
use llm_inference_systems.Stage2.Evidence.{
  TokenEvent, Metric, nonempty, all_ids, offsets, final_terminal, has_prompt, is_grouped,
  token_bearing, gaps, prompt_is_first, reconciles, list_int_eq,
}
use llm_inference_systems.Stage2.Stream.{Host, Validator}
use llm_inference_systems.Stage2.Stream.Doubles.{token_bearing-sorted, token_bearing-below}
use llm_inference_systems.Stage2.Stream.Close.{
  Boundaries, boundaries, tpot_and_itl, build_evidence, evidence_of_events, evidence, chain_matches,
}
use llm_inference_systems.Stage2.Stream.Events.{within}
use llm_inference_systems.Stage2.Stream.Invariant.{HasEvents, IsSound, Generation, Prompt}
use llm_inference_systems.Stage2.Stream.Bearing.{
  length-gaps_from, length-all_ids, all-token_bearing, sorted-final,
}
use llm_inference_systems.Sse.{Text}

pub list_int_eq_refl : (xs : List ℤ) → list_int_eq xs xs ≡ true
list_int_eq_refl [] = refl
list_int_eq_refl (x ∷ xs) = rw (int_eq_refl x) (list_int_eq_refl xs)

-- All that the stream must have brought, and the log chain must be, for `close_transport`.
pub record CanClose (v : Validator) (chain : RequestIdentityChain) (at : ℕ) : Type 0 where
  pub open_transport : v.transport_terminal_offset_ns ≡ none
  pub later : v.last_observation_offset_ns ≤ at
  pub finished : Sse.finalize v.parser ≡ ok tt
  pub protocol : ℕ
  pub protocol_seen : v.protocol_terminal_offset_ns ≡ some protocol
  pub after_protocol : protocol < at
  pub chain_fits : chain_matches chain v ≡ true
  pub chain_valid : chain_is_valid chain ≡ true
  pub prompt_length : length v.sent_prompt_token_ids ≡ 64
  pub prompt_returned : v.returned_prompt_ids ≡ some v.sent_prompt_token_ids
  pub prompt_in_event : any has_prompt v.token_events ≡ true

-- The boundaries that a protocol terminal implies, with the event of the generation terminal.
pub record Finished (v : Validator) (protocol : ℕ) : Type 0 where
  pub headers : ℕ
  pub body : ℕ
  pub generation : ℕ
  pub usage : ℕ
  pub headers_seen : v.response_headers_offset_ns ≡ some headers
  pub body_seen : v.first_body_offset_ns ≡ some body
  pub generation_seen : v.generation_terminal_offset_ns ≡ some generation
  pub usage_seen : v.usage_terminal_offset_ns ≡ some usage
  pub dispatched : v.dispatch_offset_ns ≤ headers
  pub headers_first : headers ≤ body
  pub generation_first : generation < usage
  pub usage_first : usage < protocol

abbrev shown : Option ℕ → ℕ
shown none = 0
shown (some n) = n

shown-some : (o : Option ℕ) → is_some o ≡ true → o ≡ some (shown o)
shown-some none h = cc
shown-some (some n) h = refl

dated-body :
    (events : List TokenEvent) (e : TokenEvent) (low : Option ℕ) (high : ℕ)
    → final_terminal events ≡ some e
    → all (within low high) (offsets events) ≡ true
    → is_some low ≡ true
dated-body [] e low high f d = unfold final_terminal in cc
dated-body (x ∷ events) e none high f d = cc
dated-body (x ∷ events) e (some l) high f d = refl

pub Generation-event :
    (v : Validator) (g : ℕ)
    → v.generation_terminal_offset_ns ≡ some g
    → HasEvents v
    → Generation (some g) v.terminal_carried_tokens v.token_events v.output_ids
Generation-event v g seen e =
    subst (λ o. Generation o v.terminal_carried_tokens v.token_events v.output_ids) seen
      e.generation

pub finish :
    (v : Validator) (p : ℕ) → v.protocol_terminal_offset_ns ≡ some p → IsSound v → Finished v p
finish v p seen s =
    let o = s.ordered in
    let usage : is_some v.usage_terminal_offset_ns ≡ true = ground (arith, o) in
    let generation : is_some v.generation_terminal_offset_ns ≡ true = ground (arith, o) in
    let g_seen = shown-some v.generation_terminal_offset_ns generation in
    let u_seen = shown-some v.usage_terminal_offset_ns usage in
    let g = Generation-event v (shown v.generation_terminal_offset_ns) g_seen s.events in
    let body =
      dated-body v.token_events g.0 v.first_body_offset_ns v.last_observation_offset_ns g.1
        s.events.dated in
    let headers : is_some v.response_headers_offset_ns ≡ true = ground (arith, o) in
    let h_seen = shown-some v.response_headers_offset_ns headers in
    let b_seen = shown-some v.first_body_offset_ns body in
    record {
      headers = shown v.response_headers_offset_ns;
      body = shown v.first_body_offset_ns;
      generation = shown v.generation_terminal_offset_ns;
      usage = shown v.usage_terminal_offset_ns;
      headers_seen = h_seen;
      body_seen = b_seen;
      generation_seen = g_seen;
      usage_seen = u_seen;
      dispatched = ground (arith, o);
      headers_first = ground (arith, o);
      generation_first = ground (arith, o);
      usage_first = ground (arith, o);
    }

pub sure-Prompt :
    (events : List TokenEvent) (ids : List ℕ) (returned_ids : Option (List ℕ))
    → returned_ids ≡ some ids
    → Prompt events returned_ids
    → any has_prompt events ≡ true
    → prompt_is_first events ids ≡ true
unfolding prompt_is_first
sure-Prompt [] ids r e p a = cc
sure-Prompt (x ∷ events) ids r e p a = elim p.1 [
  | inl nothing ↦ absurd (ground (arith, p.0))
  | inr same ↦ rw (same, e, list_eq_refl, p.0)
]

pub hex_suffix :
    (chain : RequestIdentityChain) (v : Validator)
    → chain_is_valid chain ≡ true
    → chain_matches chain v ≡ true
    → has_hex_suffix (serving_id v.external_base_id ++ codes "-") chain.internal_engine_id ≡ true
hex_suffix chain v valid fits =
    let base : chain.external_base_id ≡ v.external_base_id =
      list_eq-eq chain.external_base_id v.external_base_id (&&-split _ _ fits).0 in
    rw (← base) (chain_is_valid-hex chain valid)

no_ids_nil : (ids : List ℕ) → nonempty ids ≡ false → ids ≡ []
no_ids_nil [] h = refl
no_ids_nil (i ∷ ids) h = cc

pub bears :
    (events : List TokenEvent)
    → length (all_ids events) ≡ 32
    → (first : TokenEvent) × (rest : List TokenEvent) × (token_bearing events ≡ first ∷ rest)
bears [] n = absurd (omega arith)
bears (e ∷ events) n = elim (Bool-cases (nonempty e.output_token_ids)) [
  | inl some_ids ↦ (e, token_bearing events, rw some_ids)
  | inr no_ids ↦
      let empty : e.output_token_ids ≡ [] = no_ids_nil e.output_token_ids no_ids in
      let (first, rest, b) = bears events (rw empty at n) in (first, rest, rw no_ids b)
]

-- The evidence that a finished stream gives, before its reconciliation.
pub record Built (h : Host) (chain : RequestIdentityChain) (w : Validator) (b : Boundaries)
    : Type 0 where
  pub server_metrics : Members
  pub carried : Bool
  pub first : TokenEvent
  pub rest : List TokenEvent
  pub m : Metric × Metric
  pub metrics_stored : w.server_metrics ≡ some server_metrics
  pub carried_stored : w.terminal_carried_tokens ≡ some carried
  pub bearing : token_bearing w.token_events ≡ first ∷ rest
  pub digest : Text
  pub digest_made : h.library.text_sha256 w.output_text ≡ some digest
  pub metrics_made :
      tpot_and_itl h.library b.generation (first ∷ rest) first.observation_offset_ns ≡ ok m
  pub reconciled :
      reconciles h.library (
        build_evidence h chain w b w.sent_prompt_token_ids server_metrics carried first rest m
          digest)
      ≡ true

within-below :
    (low : Option ℕ) (last high : ℕ) (xs : List ℕ)
    → last ≤ high
    → all (within low last) xs ≡ true
    → all (λ o. leb o high) xs ≡ true
within-below low last high [] l d = refl
within-below low last high (x ∷ xs) l d =
    ground (arith, l, d, within-below low last high xs l (ground (arith, d)))

-- The events that bear tokens are in order, and end no later than all of them.
pub bearing_dated :
    (events : List TokenEvent) (first : TokenEvent) (rest : List TokenEvent) (low : Option ℕ)
    (last high : ℕ)
    → token_bearing events ≡ first ∷ rest
    → is_sorted (offsets events) ≡ true
    → all (within low last) (offsets events) ≡ true
    → last ≤ high
    → (is_sorted (offsets (first ∷ rest)) ≡ true)
      × (all (λ o. leb o high) (offsets (first ∷ rest)) ≡ true)
bearing_dated events first rest low last high b s d l =
    let ordered = token_bearing-sorted events s in
    let dated = token_bearing-below high events (within-below low last high (offsets events) l d) in
    (rw b at ordered, rw b at dated)

-- Evidence that reconciles is returned.
pub evidence-Built :
    (h : Host) (chain : RequestIdentityChain) (w : Validator) (b : Boundaries)
    → boundaries w ≡ some b
    → w.returned_prompt_ids ≡ some w.sent_prompt_token_ids
    → w.usage ≡ true
    → (x : Built h chain w b)
    → evidence h chain w
      ≡ ok (
          build_evidence h chain w b w.sent_prompt_token_ids x.server_metrics x.carried x.first
            x.rest x.m x.digest)
unfolding evidence evidence_of_events
evidence-Built h chain w b bounds prompt usage x =
    let same = list_eq_refl w.sent_prompt_token_ids in
    let stored = x.metrics_stored in
    let carried = x.carried_stored in
    let bearing = x.bearing in
    let made = x.metrics_made in
    let reconciled = x.reconciled in
    let digest = x.digest_made in
    ground (arith, digest, same, stored, carried, bearing, made, reconciled)

pub times_fit :
    (events : List TokenEvent) (first : TokenEvent) (rest : List TokenEvent) (e : TokenEvent)
    (low high : ℕ)
    → token_bearing events ≡ first ∷ rest
    → final_terminal events ≡ some e
    → is_sorted (offsets events) ≡ true
    → all (within (some low) high) (offsets events) ≡ true
    → (low ≤ first.observation_offset_ns) × (first.observation_offset_ns ≤ e.observation_offset_ns)
times_fit events first rest e low high b f s d =
    let lower = all-token_bearing (within (some low) high) events first rest b d in
    let upper =
      all-token_bearing (λ o. leb o e.observation_offset_ns) events first rest b
        (sorted-final events e f s) in
    (ground arith, ground arith)

pub full_gaps :
    (v : Validator) (first : TokenEvent) (rest : List TokenEvent)
    → token_bearing v.token_events ≡ first ∷ rest
    → length (all_ids v.token_events) ≡ 32
    → any is_grouped (first ∷ rest) ≡ false
    → length (gaps (first ∷ rest)) ≡ 31
full_gaps v first rest b n g =
    let count : length (all_ids v.token_events) ≡ length (token_bearing v.token_events) =
      length-all_ids v.token_events (rw b g) in
    let size : length (token_bearing v.token_events) ≡ suc (length rest) = ap length b in
    omega (arith, length-gaps_from first.observation_offset_ns rest)
