-- ===== src/Stage1/Concurrency.antt =====
-- src/llm_inference_systems/stage1_metrics.py: `derive_observed_max_client_concurrency`. A set of
-- request ids is the list of its elements in the order of their insertion.
pub mod Requests
use llm_inference_systems.Prelude.{
  ℕ, zero, suc, ◌+◌, ◌-◌, ◌≤◌, ◌≡◌, refl, ◌⊎◌, inl, inr, Bool, true, false, ◌&&◌, ◌||◌, not, List,
  [], ◌∷◌, ◌++◌, arith, ltb, ◌==◌, if◌then◌else◌, length, all, list_eq, Result, ok, err,
  Result-cases, mem,
}
use llm_inference_systems.Sse.Codec.{Text}

pub data StreamEvidenceKind : Type 0 where
  client_request_started raw_body_chunk sse_comment sse_token_event : StreamEvidenceKind
  sse_done request_terminal client_request_ended : StreamEvidenceKind

-- The fields of a StreamEvidenceRecord that the derivation reads.
pub record StreamEvidence : Type 0 where
  pub sequence : ℕ
  pub request_id : Text
  pub kind : StreamEvidenceKind

pub data LifecycleError : Type 0 where
  not_contiguous duplicate_start unmatched_end negative_count incomplete : LifecycleError

pub record Count : Type 0 where
  pub active : ℕ
  pub maximum : ℕ
  pub started : List Text
  pub ended : List Text

abbrev pub no_requests : Count
no_requests = record { active = 0; maximum = 0; started = []; ended = [] }

abbrev max : ℕ → ℕ → ℕ
max a b = if ltb a b then b else a

abbrev begin : Text → Count → Result LifecycleError Count
begin id c =
    if mem list_eq id c.started
    then err duplicate_start
    else ok (record c {
      started = c.started ++ id ∷ [];
      active = c.active + 1;
      maximum = max c.maximum (c.active + 1);
    })

-- `active -= 1` and the test for a negative count, which is a count of zero before it.
abbrev finish : Text → Count → Result LifecycleError Count
finish id c =
    if not (mem list_eq id c.started) || mem list_eq id c.ended
    then err unmatched_end
    else if c.active == 0
    then err negative_count
    else ok (record c { ended = c.ended ++ id ∷ []; active = c.active - 1 })

unfoldable pub count_kind : StreamEvidenceKind → Text → Count → Result LifecycleError Count
count_kind client_request_started id c = begin id c
count_kind client_request_ended id c = finish id c
count_kind _ id c = ok c

unfoldable pub count_event : ℕ → StreamEvidence → Count → Result LifecycleError Count
count_event expected e c =
    if e.sequence == expected then count_kind e.kind e.request_id c else err not_contiguous

unfoldable pub count_events : ℕ → List StreamEvidence → Count → Result LifecycleError Count
count_events expected [] c = ok c
count_events expected (e ∷ events) c = elim (count_event expected e c) [
  | err x ↦ err x
  | ok d ↦ count_events (suc expected) events d
]

abbrev pub subset : List Text → List Text → Bool
subset xs ys = all (λ x. mem list_eq x ys) xs

abbrev conclude : Result LifecycleError Count → Result LifecycleError ℕ
conclude (err x) = err x
conclude (ok c) =
    if not (c.active == 0) || not (subset c.started c.ended && subset c.ended c.started)
    then err incomplete
    else ok c.maximum

unfoldable pub derive_observed_max_client_concurrency :
    List StreamEvidence → Result LifecycleError ℕ
derive_observed_max_client_concurrency events = conclude (count_events 0 events no_requests)

abbrev pub is_start : StreamEvidenceKind → Bool
is_start client_request_started = true
is_start _ = false

abbrev pub is_end : StreamEvidenceKind → Bool
is_end client_request_ended = true
is_end _ = false

-- The requests that have started, or ended, in the first `n` events.
abbrev pub starts_in : ℕ → List StreamEvidence → ℕ
starts_in zero events = 0
starts_in (suc n) [] = 0
starts_in (suc n) (e ∷ events) =
    let rest = starts_in n events in if is_start e.kind then suc rest else rest

abbrev pub ends_in : ℕ → List StreamEvidence → ℕ
ends_in zero events = 0
ends_in (suc n) [] = 0
ends_in (suc n) (e ∷ events) =
    let rest = ends_in n events in if is_end e.kind then suc rest else rest

-- `m` is the greatest excess of the starts over the ends in a prefix of the events, and there are as
-- many starts as ends.
pub record IsPeak (events : List StreamEvidence) (m : ℕ) : Type 0 where
  pub bound : (n : ℕ) → starts_in n events ≤ ends_in n events + m
  pub reached : (n : ℕ) × (starts_in n events ≡ ends_in n events + m)
  pub balanced : starts_in (length events) events ≡ ends_in (length events) events

-- The same of a run that begins with open requests.
record Runs (events : List StreamEvidence) (c d : Count) : Type 0 where
  bound : (n : ℕ) → starts_in n events + c.active ≤ ends_in n events + d.maximum
  reached :
      (d.maximum ≡ c.maximum)
      ⊎ ((n : ℕ) × (starts_in n events + c.active ≡ ends_in n events + d.maximum))
  balanced : starts_in (length events) events + c.active ≡ ends_in (length events) events + d.active
  grows : c.maximum ≤ d.maximum

-- What one event does to the count of open requests.
record Steps (e : StreamEvidence) (c d : Count) : Type 0 where
  kept : (if is_start e.kind then 1 else 0) + c.active ≡ (if is_end e.kind then 1 else 0) + d.active
  peak : (d.maximum ≡ c.maximum) ⊎ (d.maximum ≡ d.active)
  below : d.active ≤ d.maximum
  grows : c.maximum ≤ d.maximum

count_kind-Steps :
    (kind : StreamEvidenceKind) (n : ℕ) (id : Text) (c d : Count)
    → count_kind kind id c ≡ ok d
    → c.active ≤ c.maximum
    → Steps (record { sequence = n; request_id = id; kind = kind }) c d
unfolding count_kind
count_kind-Steps client_request_started n id c d e b = ground (arith, e)
count_kind-Steps client_request_ended n id c d e b = ground (arith, e)
count_kind-Steps raw_body_chunk n id c d e b = ground (arith, e)
count_kind-Steps sse_comment n id c d e b = ground (arith, e)
count_kind-Steps sse_token_event n id c d e b = ground (arith, e)
count_kind-Steps sse_done n id c d e b = ground (arith, e)
count_kind-Steps request_terminal n id c d e b = ground (arith, e)

count_event-Steps :
    (expected : ℕ) (x : StreamEvidence) (c d : Count)
    → count_event expected x c ≡ ok d
    → c.active ≤ c.maximum
    → Steps x c d
count_event-Steps expected x c d e b =
    count_kind-Steps x.kind x.sequence x.request_id c d (unfold count_event in ground (arith, e)) b

-- One event before a run.
after_event :
    (e : StreamEvidence) (events : List StreamEvidence) (b c d : Count)
    → b.active ≤ b.maximum
    → Steps e b c
    → Runs events c d
    → Runs (e ∷ events) b d
after_event e events b c d first s r = record {
  bound = later;
  reached = peak_reached s.peak r.reached;
  balanced = ground (arith, s.kept, r.balanced);
  grows = omega (arith, s.grows, r.grows);
}
  where
    later : (n : ℕ) → starts_in n (e ∷ events) + b.active ≤ ends_in n (e ∷ events) + d.maximum
    later zero = omega (arith, s.grows, r.grows, first)
    later (suc n) = ground (arith, s.kept, r.bound n)

    at_once :
        d.maximum ≡ c.active
        → (n : ℕ) × (starts_in n (e ∷ events) + b.active ≡ ends_in n (e ∷ events) + d.maximum)
    at_once same = (1, ground (arith, s.kept, same))

    peak_reached :
        (c.maximum ≡ b.maximum) ⊎ (c.maximum ≡ c.active)
        → (d.maximum ≡ c.maximum)
          ⊎ ((n : ℕ) × (starts_in n events + c.active ≡ ends_in n events + d.maximum))
        → (d.maximum ≡ b.maximum)
          ⊎ ((n : ℕ) × (starts_in n (e ∷ events) + b.active ≡ ends_in n (e ∷ events) + d.maximum))
    peak_reached (inl old) (inl same) = inl (omega (arith, old, same))
    peak_reached (inr new) (inl same) = inr (at_once (omega (arith, new, same)))
    peak_reached _ (inr (n, later)) = inr (suc n, ground (arith, s.kept, later))

none_open :
    (n : ℕ) (c : Count)
    → c.active ≤ c.maximum
    → starts_in n [] + c.active ≤ ends_in n [] + c.maximum
none_open zero c b = omega arith
none_open (suc n) c b = omega arith

count_events-Runs :
    (expected : ℕ) (events : List StreamEvidence) (c d : Count)
    → count_events expected events c ≡ ok d
    → c.active ≤ c.maximum
    → Runs events c d
unfolding count_events
count_events-Runs expected [] c d e b =
    let same : c ≡ d = ground (arith, e) in
    rw (← same) (record {
      bound = λ n. none_open n c b;
      reached = inl refl;
      balanced = refl;
      grows = omega arith;
    })
count_events-Runs expected (x ∷ events) c d e b = elim (Result-cases (count_event expected x c)) [
  | inr (why, r) ↦ ground (arith, r)
  | inl (next, r) ↦
      let s = count_event-Steps expected x c next r b in
      after_event x events c next d b s
        (count_events-Runs (suc expected) events next d (rw (r, count_events) at e) s.below)
]

derive_effect :
    (events : List StreamEvidence) (m : ℕ)
    → derive_observed_max_client_concurrency events ≡ ok m
    → (d : Count) × (count_events 0 events no_requests ≡ ok d) × (d.active ≡ 0) × (m ≡ d.maximum)
unfolding derive_observed_max_client_concurrency
derive_effect events m e = elim (Result-cases (count_events 0 events no_requests)) [
  | inr (why, r) ↦ ground (arith, r)
  | inl (d, r) ↦ (d, r, ground (arith, r), ground (arith, r))
]

-- The concurrency that is derived is the greatest excess of the start events over the end events in any
-- prefix of the evidence, and the whole evidence has as many starts as ends.
pub derive_observed_max_client_concurrency-IsPeak :
    (events : List StreamEvidence) (m : ℕ)
    → derive_observed_max_client_concurrency events ≡ ok m
    → IsPeak events m
derive_observed_max_client_concurrency-IsPeak events m e =
    let (d, run, all_ended, same) = derive_effect events m e in
    let r = count_events-Runs 0 events no_requests d run (omega arith) in
    record {
      bound = λ n. omega (arith, r.bound n, same);
      reached = elim r.reached [
        | inl zero_peak ↦ (0, omega (arith, zero_peak, same))
        | inr (n, open_then) ↦ (n, omega (arith, open_then, same))
      ];
      balanced = omega (arith, r.balanced, all_ended);
    }
