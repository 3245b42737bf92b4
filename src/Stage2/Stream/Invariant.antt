-- ===== src/Stage2/Stream/Invariant.antt =====
-- src/llm_inference_systems/stage2_protocol.py, Stage2StreamValidator: what holds of the validator
-- between two calls that returned.
use mathlib.Core.Path.{subst}
use mathlib.Core.List.{append-nil}
use llm_inference_systems.Prelude.{
  ℕ, ◌≤◌, ◌≡◌, ◌⊎◌, Bool, true, false, Option, none, some, List, [], ◌∷◌, arith, ltb, leb, is_some,
  length, all, any, returned, is_sorted, ◌++◌, ◌∙◌, if◌then◌else◌, inr, refl, inl, codes, ap,
}
use llm_inference_systems.Stage2.Json.{Members, Json}
use llm_inference_systems.Stage2.Evidence.{
  TokenEvent, nonempty, all_ids, all_text, offsets, final_terminal, has_prompt,
}
use llm_inference_systems.Stage2.Stream.{
  Validator, accept_usage, Text, accept_done, advance, accept_prompt, accept_response_headers,
  record_tokens, accept_choice,
}
use llm_inference_systems.Stage2.Json
use llm_inference_systems.Stage2.Stream.Effects.{
  text_of, accept_prompt_once, fields_of, accept_usage_effect, accept_done_effect, advance_effect,
  accept_prompt_effect, accept_response_headers_effect, record_tokens_effect, new_event,
  record_tokens_effect, accept_choice_effect, after_prompt, ids_of, text_of, terminal_of,
}
use llm_inference_systems.Stage2.Stream.Events.{
  is_terminal, within, within_mono, all_ids-append, all_text-append, any-append,
  final_terminal-append, is_sorted-append, within_high, within-append,
}

-- A boundary comes strictly after an earlier one that was observed.
abbrev pub strictly_after : Option ℕ → Option ℕ → Bool
strictly_after earlier none = true
strictly_after none (some later) = false
strictly_after (some earlier) (some later) = ltb earlier later

abbrev pub at_or_after : Option ℕ → Option ℕ → Bool
at_or_after earlier none = true
at_or_after none (some later) = false
at_or_after (some earlier) (some later) = leb earlier later

abbrev pub up_to : ℕ → Option ℕ → Bool
up_to last none = true
up_to last (some t) = leb t last

-- The boundaries come in their order, and none is later than the last observation.
pub record IsOrdered (v : Validator) : Type 0 where
  pub dispatched : v.dispatch_offset_ns ≤ v.last_observation_offset_ns
  pub headers : at_or_after (some v.dispatch_offset_ns) v.response_headers_offset_ns ≡ true
  pub body : at_or_after v.response_headers_offset_ns v.first_body_offset_ns ≡ true
  pub usage : strictly_after v.generation_terminal_offset_ns v.usage_terminal_offset_ns ≡ true
  pub protocol : strictly_after v.usage_terminal_offset_ns v.protocol_terminal_offset_ns ≡ true
  pub headers_seen : up_to v.last_observation_offset_ns v.response_headers_offset_ns ≡ true
  pub body_seen : up_to v.last_observation_offset_ns v.first_body_offset_ns ≡ true
  pub generation_seen : up_to v.last_observation_offset_ns v.generation_terminal_offset_ns ≡ true
  pub usage_seen : up_to v.last_observation_offset_ns v.usage_terminal_offset_ns ≡ true
  pub protocol_seen : up_to v.last_observation_offset_ns v.protocol_terminal_offset_ns ≡ true
  pub transport_open : v.transport_terminal_offset_ns ≡ none

-- What the generation terminal says of the events: before it none is terminal, and at it the last
-- one is, with all 32 tokens there.
abbrev pub Generation : Option ℕ → Option Bool → List TokenEvent → List ℕ → Type 0
Generation none carried events ids = any is_terminal events ≡ false
Generation (some g) carried events ids =
    (e : TokenEvent) × (final_terminal events ≡ some e)
    × (e.observation_offset_ns ≡ g)
    × (carried ≡ some (nonempty e.output_token_ids))
    × (length ids ≡ 32)

-- Only the first event has prompt ids, and then they are the returned ones.
abbrev pub Prompt : List TokenEvent → Option (List ℕ) → Type 0
Prompt [] returned_ids = Unit
Prompt (e ∷ events) returned_ids =
    (any has_prompt events ≡ false)
    × ((e.prompt_token_ids ≡ none) ⊎ (e.prompt_token_ids ≡ returned_ids))

-- The events account for the tokens and the text.
pub record HasEvents (v : Validator) : Type 0 where
  pub ids : all_ids v.token_events ≡ v.output_ids
  pub text : all_text v.token_events ≡ v.output_text
  pub capped : length v.output_ids ≤ 32
  pub sorted : is_sorted (offsets v.token_events) ≡ true
  pub dated :
      all (within v.first_body_offset_ns v.last_observation_offset_ns) (offsets v.token_events)
      ≡ true
  pub generation :
      Generation v.generation_terminal_offset_ns v.terminal_carried_tokens v.token_events
        v.output_ids
  pub prompt : Prompt v.token_events v.returned_prompt_ids
  pub reconciled :
      is_some v.usage_terminal_offset_ns ≡ true
      → (v.usage ≡ true) × (is_some v.server_metrics ≡ true)

pub accept_usage-IsOrdered :
    (value : Members) (at : ℕ) (v v' : Validator) (u : Unit {0})
    → accept_usage value at v ≡ returned u v'
    → v.last_observation_offset_ns ≡ at
    → IsOrdered v
    → IsOrdered v'
accept_usage-IsOrdered value at v v' u h now o = ground (arith, accept_usage_effect value at v v' u)

pub accept_done-IsOrdered :
    (at : ℕ) (v v' : Validator) (u : Unit {0})
    → accept_done at v ≡ returned u v'
    → v.last_observation_offset_ns ≡ at
    → IsOrdered v
    → IsOrdered v'
accept_done-IsOrdered at v v' u h now o = ground (arith, accept_done_effect at v v' u)

pub advance-IsOrdered :
    (at : ℕ) (v v' : Validator) (u : Unit {0})
    → advance at v ≡ returned u v'
    → IsOrdered v
    → IsOrdered v'
advance-IsOrdered at v v' u h o = ground (arith, advance_effect at v v' u)

pub accept_response_headers-IsOrdered :
    (id : Text) (at : ℕ) (v v' : Validator) (u : Unit {0})
    → accept_response_headers id at v ≡ returned u v'
    → IsOrdered v
    → IsOrdered v'
accept_response_headers-IsOrdered id at v v' u h o =
    ground (arith, accept_response_headers_effect id at v v' u)

record_tokens-IsOrdered :
    (ids : List ℕ) (text : Text) (terminal : Bool) (at : ℕ) (v v' : Validator) (u : Unit {0})
    → record_tokens ids text terminal at v ≡ returned u v'
    → v.last_observation_offset_ns ≡ at
    → is_some v.usage_terminal_offset_ns ≡ false
    → IsOrdered v
    → IsOrdered v'
record_tokens-IsOrdered ids text terminal at v v' u h now open_usage o =
    ground (arith, record_tokens_effect ids text terminal at v v' u)

pub accept_prompt-IsOrdered :
    (value : Option Json) (v v' : Validator) (u : Unit {0})
    → accept_prompt value v ≡ returned u v'
    → IsOrdered v
    → IsOrdered v'
accept_prompt-IsOrdered value v v' u h o = ground (arith, accept_prompt_effect value v v' u)

pub accept_usage-HasEvents :
    (value : Members) (at : ℕ) (v v' : Validator) (u : Unit {0})
    → accept_usage value at v ≡ returned u v'
    → HasEvents v
    → HasEvents v'
accept_usage-HasEvents value at v v' u h e =
    let (_, _, _, stored, same) = accept_usage_effect value at v v' u h in
    rw same (record {
      ids = e.ids;
      text = e.text;
      capped = e.capped;
      sorted = e.sorted;
      dated = e.dated;
      generation = e.generation;
      prompt = e.prompt;
      reconciled = λ _. (refl, stored);
    })

pub accept_done-HasEvents :
    (at : ℕ) (v v' : Validator) (u : Unit {0})
    → accept_done at v ≡ returned u v'
    → HasEvents v
    → HasEvents v'
accept_done-HasEvents at v v' u h e = rw (accept_done_effect at v v' u h).2 (record {
  ids = e.ids;
  text = e.text;
  capped = e.capped;
  sorted = e.sorted;
  dated = e.dated;
  generation = e.generation;
  prompt = e.prompt;
  reconciled = e.reconciled;
})

pub advance-HasEvents :
    (at : ℕ) (v v' : Validator) (u : Unit {0})
    → advance at v ≡ returned u v'
    → HasEvents v
    → HasEvents v'
advance-HasEvents at v v' u h e = rw (advance_effect at v v' u h).1 (record {
  ids = e.ids;
  text = e.text;
  capped = e.capped;
  sorted = e.sorted;
  dated =
      within_mono (offsets v.token_events) v.first_body_offset_ns v.last_observation_offset_ns at
        (advance_effect at v v' u h).0 e.dated;
  generation = e.generation;
  prompt = e.prompt;
  reconciled = e.reconciled;
})

next-Prompt :
    (ids : List ℕ) (text : Text) (terminal : Bool) (at : ℕ) (v : Validator)
    → Prompt v.token_events v.returned_prompt_ids
    → Prompt (v.token_events ++ new_event ids text terminal at v ∷ []) v.returned_prompt_ids
next-Prompt ids text terminal at v p = go v.token_events refl p
  where
    go :
        (events : List TokenEvent)
        → v.token_events ≡ events
        → Prompt events v.returned_prompt_ids
        → Prompt (events ++ new_event ids text terminal at v ∷ []) v.returned_prompt_ids
    go [] s q = (refl, inr (rw s))
    go (e ∷ events) s q =
        (any-append has_prompt events (new_event ids text terminal at v) ∙ rw (q.0, s), q.1)

Generation-append :
    (ids : List ℕ) (text : Text) (terminal : Bool) (at : ℕ) (v : Validator)
    → any is_terminal v.token_events ≡ false
    → (terminal ≡ true → length (v.output_ids ++ ids) ≡ 32)
    → Generation
        (if terminal then some at else none)
        (if terminal then some (nonempty ids) else v.terminal_carried_tokens)
        (v.token_events ++ new_event ids text terminal at v ∷ [])
        (v.output_ids ++ ids)
Generation-append ids text true at v g full = (
  new_event ids text true at v,
  final_terminal-append v.token_events (new_event ids text true at v) g,
  refl,
  refl,
  full refl,
)
Generation-append ids text false at v g full =
    any-append is_terminal v.token_events (new_event ids text false at v) ∙ rw g

record_tokens-HasEvents :
    (ids : List ℕ) (text : Text) (terminal : Bool) (at : ℕ) (v v' : Validator) (u : Unit {0})
    → record_tokens ids text terminal at v ≡ returned u v'
    → v.generation_terminal_offset_ns ≡ none
    → v.last_observation_offset_ns ≡ at
    → within v.first_body_offset_ns at at ≡ true
    → HasEvents v
    → HasEvents v'
record_tokens-HasEvents ids text terminal at v v' u h open_generation now seen e =
    let (cap, full, same) = record_tokens_effect ids text terminal at v v' u h in
    let event = new_event ids text terminal at v in
    let unfinished : any is_terminal v.token_events ≡ false =
      subst (λ g. Generation g v.terminal_carried_tokens v.token_events v.output_ids)
        open_generation e.generation in
    rw same (record {
      ids = all_ids-append v.token_events (event ∷ []) ∙ rw (e.ids, append-nil);
      text = all_text-append v.token_events (event ∷ []) ∙ rw (e.text, append-nil);
      capped = cap;
      sorted =
          is_sorted-append v.token_events event v.last_observation_offset_ns e.sorted
            (within_high (offsets v.token_events) v.first_body_offset_ns
              v.last_observation_offset_ns e.dated)
            (omega arith);
      dated =
          within-append v.token_events event v.first_body_offset_ns v.last_observation_offset_ns
            e.dated (rw now seen);
      generation = rw open_generation (Generation-append ids text terminal at v unfinished full);
      prompt = next-Prompt ids text terminal at v e.prompt;
      reconciled = e.reconciled;
    })

pub accept_response_headers-HasEvents :
    (id : Text) (at : ℕ) (v v' : Validator) (u : Unit {0})
    → accept_response_headers id at v ≡ returned u v'
    → HasEvents v
    → HasEvents v'
accept_response_headers-HasEvents id at v v' u h e =
    let (_, _, later, same) = accept_response_headers_effect id at v v' u h in
    rw same (record {
      ids = e.ids;
      text = e.text;
      capped = e.capped;
      sorted = e.sorted;
      dated =
          within_mono (offsets v.token_events) v.first_body_offset_ns v.last_observation_offset_ns
            at later e.dated;
      generation = e.generation;
      prompt = e.prompt;
      reconciled = e.reconciled;
    })

Prompt-fresh :
    (events : List TokenEvent) (before after : Option (List ℕ))
    → before ≡ none
    → Prompt events before
    → Prompt events after
Prompt-fresh [] before after n p = tt
Prompt-fresh (e ∷ events) before after n p = (p.0, ground (arith, p.1))

not_some {ℓ} : {A : Type ℓ} (o : Option A) → is_some o ≡ false → o ≡ none
not_some none h = refl
not_some (some a) h = cc

pub accept_prompt-HasEvents :
    (value : Option Json) (v v' : Validator) (u : Unit {0})
    → accept_prompt value v ≡ returned u v'
    → HasEvents v
    → HasEvents v'
accept_prompt-HasEvents value v v' u h e = elim (accept_prompt_once value v v' u h) [
  | inl same ↦ rw same e
  | inr fresh ↦ rw (accept_prompt_effect value v v' u h) (record {
    ids = e.ids;
    text = e.text;
    capped = e.capped;
    sorted = e.sorted;
    dated = e.dated;
    generation = e.generation;
    prompt =
        Prompt-fresh v.token_events v.returned_prompt_ids v'.returned_prompt_ids fresh e.prompt;
    reconciled = e.reconciled;
  })
]

-- A validator between two calls.
pub record IsSound (v : Validator) : Type 0 where
  pub ordered : IsOrdered v
  pub events : HasEvents v

-- The same within `feed`, at the time of the frame that is being accepted.
pub record IsAt (at : ℕ) (v : Validator) : Type 0 where
  pub sound : IsSound v
  pub now : v.last_observation_offset_ns ≡ at
  pub body : is_some v.first_body_offset_ns ≡ true

pub accept_usage-IsAt :
    (value : Members) (at : ℕ) (v v' : Validator) (u : Unit {0})
    → accept_usage value at v ≡ returned u v'
    → IsAt at v
    → IsAt at v'
accept_usage-IsAt value at v v' u h s =
    let (_, _, _, _, same) = accept_usage_effect value at v v' u h in
    record {
      sound = record {
        ordered = accept_usage-IsOrdered value at v v' u h s.now s.sound.ordered;
        events = accept_usage-HasEvents value at v v' u h s.sound.events;
      };
      now = rw same s.now;
      body = rw same s.body;
    }

pub accept_done-IsAt :
    (at : ℕ) (v v' : Validator) (u : Unit {0})
    → accept_done at v ≡ returned u v'
    → IsAt at v
    → IsAt at v'
accept_done-IsAt at v v' u h s =
    let (_, _, same) = accept_done_effect at v v' u h in
    record {
      sound = record {
        ordered = accept_done-IsOrdered at v v' u h s.now s.sound.ordered;
        events = accept_done-HasEvents at v v' u h s.sound.events;
      };
      now = rw same s.now;
      body = rw same s.body;
    }

within_now :
    (low : Option ℕ) (at : ℕ) → is_some low ≡ true → up_to at low ≡ true → within low at at ≡ true
within_now none at s u = cc
within_now (some l) at s u = ground arith

record_tokens-IsAt :
    (ids : List ℕ) (text : Text) (terminal : Bool) (at : ℕ) (v v' : Validator) (u : Unit {0})
    → record_tokens ids text terminal at v ≡ returned u v'
    → is_some v.usage_terminal_offset_ns ≡ false
    → is_some v.generation_terminal_offset_ns ≡ false
    → IsAt at v
    → IsAt at v'
record_tokens-IsAt ids text terminal at v v' u h usage generation s =
    let (_, _, same) = record_tokens_effect ids text terminal at v v' u h in
    let seen : up_to at v.first_body_offset_ns ≡ true = rw (← s.now) s.sound.ordered.body_seen in
    record {
      sound = record {
        ordered = record_tokens-IsOrdered ids text terminal at v v' u h s.now usage s.sound.ordered;
        events =
            record_tokens-HasEvents ids text terminal at v v' u h
              (not_some v.generation_terminal_offset_ns generation) s.now
              (within_now v.first_body_offset_ns at s.body seen) s.sound.events;
      };
      now = rw same s.now;
      body = rw same s.body;
    }

pub accept_choice-IsAt :
    (item : Json) (at : ℕ) (v v' : Validator) (u : Unit {0})
    → accept_choice item at v ≡ returned u v'
    → IsAt at v
    → IsAt at v'
accept_choice-IsAt item at v v' u h s =
    let (usage, generation, prompt, tokens) = accept_choice_effect item at v v' u h in
    let w = after_prompt item v in
    let value = Json.get (codes "prompt_token_ids") (fields_of item) in
    let same : w ≡ record v { returned_prompt_ids = w.returned_prompt_ids } =
      accept_prompt_effect value v w tt prompt in
    record_tokens-IsAt (ids_of item) (text_of item) (terminal_of item) at w v' tt tokens
      (ap (λ (x : Validator). is_some x.usage_terminal_offset_ns) same ∙ usage)
      (ap (λ (x : Validator). is_some x.generation_terminal_offset_ns) same ∙ generation)
      (record {
        sound = record {
          ordered = accept_prompt-IsOrdered value v w tt prompt s.sound.ordered;
          events = accept_prompt-HasEvents value v w tt prompt s.sound.events;
        };
        now = ap (λ (x : Validator). x.last_observation_offset_ns) same ∙ s.now;
        body = ap (λ (x : Validator). is_some x.first_body_offset_ns) same ∙ s.body;
      })
