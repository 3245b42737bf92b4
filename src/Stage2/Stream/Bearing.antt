-- ===== src/Stage2/Stream/Bearing.antt =====
-- src/llm_inference_systems/stage2_contracts.py: the events of a finished stream, as the
-- reconciliation of its evidence reads them.
use llm_inference_systems.Prelude.{
  ℕ, suc, ◌≡◌, refl, ap, inl, inr, Bool, true, false, ◌||◌, some, List, [], ◌∷◌, arith, ltb, leb,
  Bool-cases, length, length-append, all, any, is_sorted,
}
use llm_inference_systems.Stage2.Evidence.{
  TokenEvent, nonempty, all_ids, offsets, final_terminal, is_grouped, token_bearing, gaps_from,
}

pub length-gaps_from :
    (left : ℕ) (events : List TokenEvent) → length (gaps_from left events) ≡ length events
length-gaps_from left [] = refl
length-gaps_from left (e ∷ events) = ap suc (length-gaps_from e.observation_offset_ns events)

one_each : (ids : List ℕ) → nonempty ids ≡ true → ltb 1 (length ids) ≡ false → length ids ≡ 1
one_each [] n g = cc
one_each (i ∷ ids) n g = ground arith

none_of : (ids : List ℕ) → nonempty ids ≡ false → length ids ≡ 0
none_of [] n = refl
none_of (i ∷ ids) n = cc

-- Where no event is grouped, there are as many tokens as events that bear one.
pub length-all_ids :
    (events : List TokenEvent)
    → any is_grouped (token_bearing events) ≡ false
    → length (all_ids events) ≡ length (token_bearing events)
length-all_ids [] g = refl
length-all_ids (e ∷ events) g = elim (Bool-cases (nonempty e.output_token_ids)) [
  | inl some_ids ↦
      let g' : (is_grouped e || any is_grouped (token_bearing events)) ≡ false = rw some_ids at g in
      let single : is_grouped e ≡ false = ground arith in
      let others : any is_grouped (token_bearing events) ≡ false = ground arith in
      rw some_ids (
        omega (
          arith,
          length-append e.output_token_ids (all_ids events),
          one_each e.output_token_ids some_ids single,
          length-all_ids events others,
        ))
  | inr no_ids ↦ rw no_ids (
      omega (
        arith,
        length-append e.output_token_ids (all_ids events),
        none_of e.output_token_ids no_ids,
        length-all_ids events (rw no_ids at g),
      ))
]

-- A test that all events' times pass is passed by the first event that bears tokens.
pub all-token_bearing :
    (test : ℕ → Bool) (events : List TokenEvent) (first : TokenEvent) (rest : List TokenEvent)
    → token_bearing events ≡ first ∷ rest
    → all test (offsets events) ≡ true
    → test first.observation_offset_ns ≡ true
all-token_bearing test [] first rest b a = cc
all-token_bearing test (e ∷ events) first rest b a =
    elim (Bool-cases (nonempty e.output_token_ids)) [
      | inl some_ids ↦
          let b' : ◌≡◌ {A = List TokenEvent} (e ∷ token_bearing events) (first ∷ rest) =
            rw some_ids at b in
          ground arith
      | inr no_ids ↦ all-token_bearing test events first rest (rw no_ids at b) (ground arith)
    ]

-- In a sorted list nothing comes after the last event.
pub sorted-final :
    (events : List TokenEvent) (e : TokenEvent)
    → final_terminal events ≡ some e
    → is_sorted (offsets events) ≡ true
    → all (λ o. leb o e.observation_offset_ns) (offsets events) ≡ true
unfolding final_terminal
sorted-final [] e f s = cc
sorted-final (x ∷ []) e f s = ground arith
sorted-final (x ∷ y ∷ events) e f s = ground (arith, sorted-final (y ∷ events) e)
