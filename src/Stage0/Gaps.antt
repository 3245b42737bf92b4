-- ===== src/Stage0/Gaps.antt =====
-- src/llm_inference_systems/metrics.py: the gaps between tokens that a request's metrics report.
use llm_inference_systems.Prelude.{
  ℕ, ◌-◌, ◌≤◌, ◌<◌, ◌≡◌, refl, ap, ◌≢◌, inl, inr, Bool, true, false, some, List, [], ◌∷◌, arith,
  ltb, &&-split, length, all, ok, err, Result-cases, ℤ, pos, negsuc, ◌+ℤ◌, sub_ℕ-exact,
}
use llm_inference_systems.Stage2.Evidence.{sum_int}
use llm_inference_systems.Stage0.Metrics.{
  RequestRecord, MetricUnavailableReason, token_observation_offsets, check_offsets, differences,
  itl_of, derive_request_metrics, is_increasing, is_success,
}

abbrev pub last_of : ℕ → List ℕ → ℕ
last_of x [] = x
last_of x (y ∷ rest) = last_of y rest

abbrev pub is_positive : ℤ → Bool
is_positive (pos n) = ltb 0 n
is_positive (negsuc n) = false

-- The gaps of increasing offsets: one fewer than the offsets, each positive, and together the span from
-- the first offset to the last.
pub record SpansOffsets (first : ℕ) (rest : List ℕ) (gaps : List ℤ) : Type 0 where
  pub count : length gaps ≡ length rest
  pub positive : all is_positive gaps ≡ true
  pub forward : first ≤ last_of first rest
  pub total : sum_int gaps ≡ pos (last_of first rest - first)

pos_total : (a b c : ℕ) → a < b → b ≤ c → pos (b - a) +ℤ pos (c - b) ≡ pos (c - a)
unfolding ◌+ℤ◌
pos_total a b c h k = ground arith

differences-SpansOffsets :
    (first : ℕ) (rest : List ℕ)
    → is_increasing (first ∷ rest) ≡ true
    → SpansOffsets first rest (differences (first ∷ rest))
unfolding differences sum_int
differences-SpansOffsets first [] h = record {
  count = refl;
  positive = refl;
  forward = omega arith;
  total = ap pos (omega arith);
}
differences-SpansOffsets first (y ∷ rest) h =
    let (less, later) = &&-split (ltb first y) (is_increasing (y ∷ rest)) h in
    let s = differences-SpansOffsets y rest later in
    let before : first < y = ground arith in
    let gap = sub_ℕ-exact y first (omega arith) in
    record {
      count = omega (arith, s.count);
      positive = rw (gap, s.positive) (ground arith);
      forward = omega (arith, s.forward);
      total = rw (gap, s.total) (pos_total first y (last_of y rest) before s.forward);
    }

-- The offsets of a request's tokens, and what its gaps are of them.
pub record HasGaps (r : RequestRecord) (gaps : List ℤ) : Type 0 where
  pub first : ℕ
  pub rest : List ℕ
  pub offsets : token_observation_offsets r ≡ ok (first ∷ rest)
  pub counted : r.output_tokens ≡ some (length (first ∷ rest))
  pub spans : SpansOffsets first rest gaps

offsets-checked :
    (r : RequestRecord) (observed : List ℕ)
    → token_observation_offsets r ≡ ok observed
    → (r.output_tokens ≡ some (length observed)) × (is_increasing observed ≡ true)
unfolding token_observation_offsets check_offsets
offsets-checked r observed e = ground (arith, e)

itl_of-HasGaps :
    (r : RequestRecord) (observed : List ℕ) (gaps : List ℤ)
    → token_observation_offsets r ≡ ok observed
    → itl_of (ok observed) ≡ ok gaps
    → HasGaps r gaps
unfolding itl_of
itl_of-HasGaps r [] gaps o e = cc
itl_of-HasGaps r (x ∷ rest) gaps o e =
    let (counted, increasing) = offsets-checked r (x ∷ rest) o in
    let same : differences (x ∷ rest) ≡ gaps = ground (arith, e) in
    record {
      first = x;
      rest = rest;
      offsets = o;
      counted = counted;
      spans = rw (← same) (differences-SpansOffsets x rest increasing);
    }

metrics_effect :
    (r : RequestRecord) (gaps : List ℤ)
    → (derive_request_metrics r).itl_ns ≡ ok gaps
    → (is_success r.outcome ≡ true) × (itl_of (token_observation_offsets r) ≡ ok gaps)
unfolding derive_request_metrics
metrics_effect r gaps e = ground (arith, e)

no_offsets : (x : MetricUnavailableReason) (gaps : List ℤ) → itl_of (err x) ≢ ok gaps
unfolding itl_of
no_offsets x gaps e = cc

-- Gaps are only reported of a request that succeeded: there is one observation for every output token,
-- and the gaps are one fewer, each positive, and together the span from the first token to the last.
pub derive_request_metrics-HasGaps :
    (r : RequestRecord) (gaps : List ℤ)
    → (derive_request_metrics r).itl_ns ≡ ok gaps
    → (is_success r.outcome ≡ true) × HasGaps r gaps
derive_request_metrics-HasGaps r gaps e =
    let (succeeded, made) = metrics_effect r gaps e in
    elim (Result-cases (token_observation_offsets r)) [
      | inl (observed, o) ↦ (succeeded, itl_of-HasGaps r observed gaps o (rw o at made))
      | inr (x, o) ↦ absurd (no_offsets x gaps (rw o at made))
    ]
