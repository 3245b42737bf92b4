-- ===== src/Cancellation/Accepted/Counted.antt =====
-- src/llm_inference_systems/stage2_control.py: the deltas that evaluate_cancellation reads by their
-- reasons and names are those of the counters.
use llm_inference_systems.Prelude.{
  ◌≡◌, refl, inl, inr, Bool, true, false, none, some, List, [], ◌∷◌, arith, Bool-cases, &&-split,
  all, select, list_eq, list_eq-eq, list_eq_refl, ok, Result-cases, mem,
}
use llm_inference_systems.Sse.Codec.{Text}
use llm_inference_systems.Stage2.Prometheus.{
  Floats, Labels, Snapshot, CounterDelta, labels_eq, expected_labels, success_name, matches,
  derive_counter_delta,
}
use llm_inference_systems.Stage2.Prometheus.Deltas.{IsDelta, derive_counter_delta-IsDelta}
use llm_inference_systems.Cancellation.Progression.{
  reason_deltas, auxiliary_deltas, has_reason, observed,
}

labels_eq-eq : (a b : Labels) → labels_eq a b ≡ true → a ≡ b
labels_eq-eq [] [] h = refl
labels_eq-eq [] (y ∷ ys) h = ground arith
labels_eq-eq (x ∷ xs) [] h = ground arith
labels_eq-eq (x ∷ xs) (y ∷ ys) h =
    let key = list_eq-eq x.0 y.0 (ground (arith, h)) in
    let value = list_eq-eq x.1 y.1 (ground (arith, h)) in
    let rest = labels_eq-eq xs ys (ground (arith, h)) in cc

select-test :
    {A : Type 0} (test : A → Bool) (x : A) (xs : List A) → select test xs ≡ x ∷ [] → test x ≡ true
select-test test x [] e = ground arith
select-test test x (y ∷ ys) e = elim (Bool-cases (test y)) [
  | inl h ↦ let same : y ≡ x = ground (arith, e, h) in rw (← same) h
  | inr h ↦ select-test test x ys (ground (arith, e, h))
]

pub all-of :
    (test : Text → Bool) (x : Text) (xs : List Text)
    → all test xs ≡ true
    → mem list_eq x xs ≡ true
    → test x ≡ true
all-of test x [] h m = ground arith
all-of test x (y ∷ ys) h m = elim (Bool-cases (list_eq x y)) [
  | inl e ↦ rw (list_eq-eq x y e) (ground (arith, h))
  | inr e ↦ all-of test x ys (ground (arith, h)) (ground (arith, m, e))
]

not_mem :
    (x y : Text) (ys : List Text)
    → mem list_eq x (y ∷ ys) ≡ false
    → (list_eq y x ≡ false) × (mem list_eq x ys ≡ false)
not_mem x y ys m = elim (Bool-cases (list_eq y x)) [
  | inr other ↦ (other, ground (arith, m))
  | inl same ↦
      let equal : list_eq x y ≡ true = rw (list_eq-eq y x same) (list_eq_refl x) in
      ground (arith, m, equal)
]

module _ (F : Floats) (before after : Snapshot F) where
  has_reason_of :
      (reason asked : Text) (d : CounterDelta F)
      → derive_counter_delta F before after success_name (some reason) ≡ ok d
      → has_reason F asked d ≡ list_eq reason asked
  has_reason_of reason asked d e =
      let i = derive_counter_delta-IsDelta F before after success_name (some reason) d e in
      let found =
        select-test (matches F success_name (some reason)) i.first before.samples i.first_only in
      let same =
        labels_eq-eq i.first.labels (expected_labels (some reason)) (ground (arith, found)) in
      rw (i.result, same) refl

  observed_absent :
      (asked : Text) (reasons : List Text) (ds : List (CounterDelta F))
      → reason_deltas F before after reasons ≡ ok ds
      → mem list_eq asked reasons ≡ false
      → observed F asked ds ≡ none
  unfolding reason_deltas observed
  observed_absent asked [] ds e m = ground (arith, e)
  observed_absent asked (reason ∷ reasons) ds e m =
      elim (Result-cases (derive_counter_delta F before after success_name (some reason))) [
        | inr (x, r) ↦ ground (arith, e, r)
        | inl (d, r) ↦ elim (Result-cases (reason_deltas F before after reasons)) [
          | inr (y, q) ↦ ground (arith, e, r, q)
          | inl (rest, q) ↦
              let whole : ds ≡ d ∷ rest = ground (arith, e, r, q) in
              let (other, absent) = not_mem asked reason reasons m in
              let empty = observed_absent asked reasons rest q absent in
              rw (whole, empty, has_reason_of reason asked d r, other) refl
        ]
      ]

  -- What is read for a reason is the delta of its own counter.
  pub observed-IsDelta :
      (asked : Text) (reasons : List Text) (ds : List (CounterDelta F))
      → reason_deltas F before after reasons ≡ ok ds
      → mem list_eq asked reasons ≡ true
      → (d : CounterDelta F) × IsDelta F before after success_name (some asked) d
        × (observed F asked ds ≡ some d.delta)
  unfolding reason_deltas observed
  observed-IsDelta asked [] ds e m = ground arith
  observed-IsDelta asked (reason ∷ reasons) ds e m =
      elim (Result-cases (derive_counter_delta F before after success_name (some reason))) [
        | inr (x, r) ↦ ground (arith, e, r)
        | inl (d, r) ↦ elim (Result-cases (reason_deltas F before after reasons)) [
          | inr (y, q) ↦ ground (arith, e, r, q)
          | inl (rest, q) ↦
              let whole : ds ≡ d ∷ rest = ground (arith, e, r, q) in
              elim (Bool-cases (mem list_eq asked reasons)) [
                | inl later ↦
                    let (x, derived, seen) = observed-IsDelta asked reasons rest q later in
                    (x, derived, rw (whole, seen) refl)
                | inr here ↦
                    let empty = observed_absent asked reasons rest q here in
                    let own : list_eq asked reason ≡ true = ground (arith, m, here) in
                    let same = list_eq-eq asked reason own in
                    let found : has_reason F asked d ≡ true =
                      rw (has_reason_of reason asked d r, same) (list_eq_refl reason) in
                    (
                      d,
                      rw same (
                          derive_counter_delta-IsDelta F before after success_name (some reason) d
                            r),
                      rw (whole, empty, found) refl,
                    )
              ]
        ]
      ]

  -- The delta of an auxiliary counter is among those that were derived.
  pub auxiliary-IsDelta :
      (test : CounterDelta F → Bool) (asked : Text) (names : List Text) (ds : List (CounterDelta F))
      → auxiliary_deltas F before after names ≡ ok ds
      → mem list_eq asked names ≡ true
      → all test ds ≡ true
      → (d : CounterDelta F) × IsDelta F before after asked none d × (test d ≡ true)
  unfolding auxiliary_deltas
  auxiliary-IsDelta test asked [] ds e m t = ground arith
  auxiliary-IsDelta test asked (name ∷ names) ds e m t =
      elim (Result-cases (derive_counter_delta F before after name none)) [
        | inr (x, r) ↦ ground (arith, e, r)
        | inl (d, r) ↦ elim (Result-cases (auxiliary_deltas F before after names)) [
          | inr (y, q) ↦ ground (arith, e, r, q)
          | inl (rest, q) ↦
              let whole : ds ≡ d ∷ rest = ground (arith, e, r, q) in
              let (first, others) = &&-split (test d) (all test rest) (rw whole at t) in
              elim (Bool-cases (list_eq asked name)) [
                | inl same ↦
                    let own = list_eq-eq asked name same in
                    (d, rw own (derive_counter_delta-IsDelta F before after name none d r), first)
                | inr other ↦
                    auxiliary-IsDelta test asked names rest q (ground (arith, m, other)) others
              ]
        ]
      ]
