-- ===== src/Stage1/Concurrency/Requests.antt =====
-- src/llm_inference_systems/stage1_metrics.py: what the derived concurrency says of every request.
use llm_inference_systems.Prelude.{
  ℕ, zero, suc, ◌+◌, ◌≤◌, ◌≡◌, refl, inl, inr, true, false, ◌&&◌, ◌||◌, List, [], ◌∷◌, ◌++◌, arith,
  if◌then◌else◌, Bool-cases, length, list_eq, list_eq-eq, ok, Result-cases, mem,
}
use llm_inference_systems.Sse.Codec.{Text}
use llm_inference_systems.Stage1.Concurrency.{
  StreamEvidenceKind, StreamEvidence, client_request_started, raw_body_chunk, sse_comment,
  sse_token_event, sse_done, request_terminal, client_request_ended, Count, no_requests, count_kind,
  count_event, count_events, derive_observed_max_client_concurrency, is_start, is_end, IsPeak,
  subset, derive_observed_max_client_concurrency-IsPeak,
}

-- The starts, or the ends, of one request in the first `n` events.
abbrev pub starts_of : Text → ℕ → List StreamEvidence → ℕ
starts_of id zero events = 0
starts_of id (suc n) [] = 0
starts_of id (suc n) (e ∷ events) =
    let rest = starts_of id n events in
    if is_start e.kind && list_eq id e.request_id then suc rest else rest

abbrev pub ends_of : Text → ℕ → List StreamEvidence → ℕ
ends_of id zero events = 0
ends_of id (suc n) [] = 0
ends_of id (suc n) (e ∷ events) =
    let rest = ends_of id n events in
    if is_end e.kind && list_eq id e.request_id then suc rest else rest

abbrev flag : Text → List Text → ℕ
flag id xs = if mem list_eq id xs then 1 else 0

-- What a run of events does to one request.
record Tracks (id : Text) (events : List StreamEvidence) (c d : Count) : Type 0 where
  before :
      (n : ℕ) → ends_of id n events + flag id c.ended ≤ starts_of id n events + flag id c.started
  all_starts : starts_of id (length events) events + flag id c.started ≡ flag id d.started
  all_ends : ends_of id (length events) events + flag id c.ended ≡ flag id d.ended

mem-last :
    (id x : Text) (xs : List Text)
    → mem list_eq id (xs ++ x ∷ []) ≡ (mem list_eq id xs || list_eq id x)
mem-last id x [] = ground arith
mem-last id x (y ∷ xs) = ground (arith, mem-last id x xs)

flag-last :
    (id x : Text) (xs : List Text)
    → mem list_eq x xs ≡ false
    → flag id (xs ++ x ∷ []) ≡ (if list_eq id x then 1 else 0) + flag id xs
flag-last id x xs absent = elim (Bool-cases (list_eq id x)) [
  | inr other ↦ ground (arith, mem-last id x xs, other)
  | inl same ↦
      let fresh : mem list_eq id xs ≡ false = rw (list_eq-eq id x same) absent in
      ground (arith, mem-last id x xs, same, fresh)
]

flag-present :
    (id x : Text) (xs : List Text)
    → mem list_eq x xs ≡ true
    → (if list_eq id x then 1 else 0) ≤ flag id xs
flag-present id x xs present = elim (Bool-cases (list_eq id x)) [
  | inr other ↦ ground (arith, other)
  | inl same ↦
      let there : mem list_eq id xs ≡ true = rw (list_eq-eq id x same) present in
      ground (arith, same, there)
]

-- What one event does to the flags of one request.
record Moves (id : Text) (kind : StreamEvidenceKind) (x : Text) (c d : Count) : Type 0 where
  started : (if is_start kind && list_eq id x then 1 else 0) + flag id c.started ≡ flag id d.started
  ended : (if is_end kind && list_eq id x then 1 else 0) + flag id c.ended ≡ flag id d.ended
  below : flag id d.ended ≤ flag id d.started

begin_effect :
    (x : Text) (c d : Count)
    → count_kind client_request_started x c ≡ ok d
    → (mem list_eq x c.started ≡ false) × (d.started ≡ c.started ++ x ∷ []) × (d.ended ≡ c.ended)
unfolding count_kind
begin_effect x c d e = ground (arith, e)

finish_effect :
    (x : Text) (c d : Count)
    → count_kind client_request_ended x c ≡ ok d
    → (mem list_eq x c.started ≡ true)
      × (mem list_eq x c.ended ≡ false)
      × (d.ended ≡ c.ended ++ x ∷ [])
      × (d.started ≡ c.started)
unfolding count_kind
finish_effect x c d e = ground (arith, e)

other_kind :
    (id : Text) (kind : StreamEvidenceKind) (x : Text) (c d : Count)
    → is_start kind ≡ false
    → is_end kind ≡ false
    → c ≡ d
    → flag id c.ended ≤ flag id c.started
    → Moves id kind x c d
other_kind id kind x c d s f same b = record {
  started = rw (s, same) (omega arith);
  ended = rw (f, same) (omega arith);
  below = rw (← same) b;
}

ended_below :
    (id x : Text) (c : Count)
    → mem list_eq x c.started ≡ true
    → mem list_eq x c.ended ≡ false
    → flag id (c.ended ++ x ∷ []) ≡ (if list_eq id x then 1 else 0) + flag id c.ended
    → flag id c.ended ≤ flag id c.started
    → flag id (c.ended ++ x ∷ []) ≤ flag id c.started
ended_below id x c there fresh one b = elim (Bool-cases (list_eq id x)) [
  | inr other ↦ rw one (ground (arith, other, b))
  | inl same ↦
      let present : mem list_eq id c.started ≡ true = rw (list_eq-eq id x same) there in
      let absent : mem list_eq id c.ended ≡ false = rw (list_eq-eq id x same) fresh in
      rw one (ground (arith, same, present, absent))
]

count_kind-Moves :
    (id : Text) (kind : StreamEvidenceKind) (x : Text) (c d : Count)
    → count_kind kind x c ≡ ok d
    → flag id c.ended ≤ flag id c.started
    → Moves id kind x c d
count_kind-Moves id client_request_started x c d e b =
    let (fresh, started, ended) = begin_effect x c d e in
    let one = flag-last id x c.started fresh in
    record {
      started = rw (started, one) (omega arith);
      ended = rw ended (omega arith);
      below = rw (started, ended, one) (omega (arith, b));
    }
count_kind-Moves id client_request_ended x c d e b =
    let (there, fresh, ended, started) = finish_effect x c d e in
    let one = flag-last id x c.ended fresh in
    record {
      started = rw started (omega arith);
      ended = rw (ended, one) (omega arith);
      below = rw (started, ended) (ended_below id x c there fresh one b);
    }
count_kind-Moves id raw_body_chunk x c d e b =
    other_kind id _ x c d refl refl (unfold count_kind in ground (arith, e)) b
count_kind-Moves id sse_comment x c d e b =
    other_kind id _ x c d refl refl (unfold count_kind in ground (arith, e)) b
count_kind-Moves id sse_token_event x c d e b =
    other_kind id _ x c d refl refl (unfold count_kind in ground (arith, e)) b
count_kind-Moves id sse_done x c d e b =
    other_kind id _ x c d refl refl (unfold count_kind in ground (arith, e)) b
count_kind-Moves id request_terminal x c d e b =
    other_kind id _ x c d refl refl (unfold count_kind in ground (arith, e)) b

none_yet :
    (id : Text) (n : ℕ) (c : Count)
    → flag id c.ended ≤ flag id c.started
    → ends_of id n [] + flag id c.ended ≤ starts_of id n [] + flag id c.started
none_yet id zero c b = omega (arith, b)
none_yet id (suc n) c b = omega (arith, b)

first_then :
    (id : Text) (x : StreamEvidence) (events : List StreamEvidence) (c next d : Count) (n : ℕ)
    → Moves id x.kind x.request_id c next
    → Tracks id events next d
    → flag id c.ended ≤ flag id c.started
    → ends_of id n (x ∷ events) + flag id c.ended ≤ starts_of id n (x ∷ events) + flag id c.started
first_then id x events c next d zero m rest b = omega (arith, b)
first_then id x events c next d (suc n) m rest b = ground (arith, m.started, m.ended, rest.before n)

run-Tracks :
    (id : Text) (expected : ℕ) (events : List StreamEvidence) (c d : Count)
    → count_events expected events c ≡ ok d
    → flag id c.ended ≤ flag id c.started
    → Tracks id events c d
unfolding count_events
run-Tracks id expected [] c d e b =
    let same : c ≡ d = ground (arith, e) in
    record {
      before = λ n. none_yet id n c b;
      all_starts = rw same (omega arith);
      all_ends = rw same (omega arith);
    }
run-Tracks id expected (x ∷ events) c d e b = elim (Result-cases (count_event expected x c)) [
  | inr (why, r) ↦ ground (arith, e, r)
  | inl (next, r) ↦
      let m =
        count_kind-Moves id x.kind x.request_id c next (unfold count_event in ground (arith, r))
          b in
      let rest = run-Tracks id (suc expected) events next d (ground (arith, e, r)) m.below in
      record {
        before = λ n. first_then id x events c next d n m rest b;
        all_starts = ground (arith, m.started, rest.all_starts);
        all_ends = ground (arith, m.ended, rest.all_ends);
      }
]

-- A request starts at most once, never ends before it has started, and has ended at the end if it
-- has started.
pub record IsClosed (id : Text) (events : List StreamEvidence) : Type 0 where
  pub ends_later : (n : ℕ) → ends_of id n events ≤ starts_of id n events
  pub once : starts_of id (length events) events ≤ 1
  pub ended : ends_of id (length events) events ≡ starts_of id (length events) events

-- `m` is the greatest excess of the starts over the ends in a prefix of the events, and every request
-- is closed, so that the excess is the number of requests that are open after the prefix.
pub record IsConcurrency (events : List StreamEvidence) (m : ℕ) : Type 0 where
  pub peak : IsPeak events m
  pub closed : (id : Text) → IsClosed id events

subset-flag : (id : Text) (xs ys : List Text) → subset xs ys ≡ true → flag id xs ≤ flag id ys
subset-flag id [] ys s = omega arith
subset-flag id (x ∷ xs) ys s = elim (Bool-cases (list_eq id x)) [
  | inr other ↦ ground (arith, other, subset-flag id xs ys (ground (arith, s)))
  | inl same ↦
      let there : mem list_eq id ys ≡ true = rw (list_eq-eq id x same) (ground (arith, s)) in
      ground (arith, same, there)
]

at_most_once : (id : Text) (xs : List Text) (n : ℕ) → n + 0 ≡ flag id xs → n ≤ 1
at_most_once id xs n e = ground (arith, e)

conclude_effect :
    (events : List StreamEvidence) (m : ℕ)
    → derive_observed_max_client_concurrency events ≡ ok m
    → (d : Count) × (count_events 0 events no_requests ≡ ok d)
      × (subset d.started d.ended ≡ true)
      × (subset d.ended d.started ≡ true)
unfolding derive_observed_max_client_concurrency
conclude_effect events m e = elim (Result-cases (count_events 0 events no_requests)) [
  | inr (why, r) ↦ ground (arith, e, r)
  | inl (d, r) ↦ (d, r, ground (arith, e, r), ground (arith, e, r))
]

-- The concurrency that is derived is the greatest excess of the start events over the end events in any
-- prefix of the evidence, and each request starts at most once, never ends before it has started, and
-- has ended at the end if it has started.
pub derive_observed_max_client_concurrency-IsConcurrency :
    (events : List StreamEvidence) (m : ℕ)
    → derive_observed_max_client_concurrency events ≡ ok m
    → IsConcurrency events m
derive_observed_max_client_concurrency-IsConcurrency events m e =
    let (d, run, all_ended, none_more) = conclude_effect events m e in
    record {
      peak = derive_observed_max_client_concurrency-IsPeak events m e;
      closed = λ id.
          let t = run-Tracks id 0 events no_requests d run (omega arith) in
          let low = subset-flag id d.started d.ended all_ended in
          let high = subset-flag id d.ended d.started none_more in
          record {
            ends_later = λ n. omega (arith, t.before n);
            once = at_most_once id d.started (starts_of id (length events) events) t.all_starts;
            ended = omega (arith, t.all_starts, t.all_ends, low, high);
          };
    }
