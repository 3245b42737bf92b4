-- ===== src/Control/Aggregate/Bound.antt =====
-- src/llm_inference_systems/stage2_control.py: what an aggregate commit says of every case.
use llm_inference_systems.Prelude.{
  ◌≡◌, refl, inl, inr, true, List, [], ◌∷◌, map, arith, &&-split, length, all, list_eq-eq, ok,
  Result-cases, texts_eq,
}
use llm_inference_systems.Sse.Codec.{Text}
use llm_inference_systems.Bundle.{Stage2BundleManifest}
use llm_inference_systems.Control.Restarts.{
  RestartSemanticRecord, RestartComparison, AggregateState, committed,
  invalid_semantic_nonreproduction, compare_three_restarts, agrees,
  compare_three_restarts-committed,
}
use llm_inference_systems.Control.Aggregate.{
  record_case_ids, is_committed, comparison_eq, comparisons_eq, compare_cases, passes,
  check_comparisons, cases_match, is_bound, check_cases, validate_aggregate_commit,
}

-- All three records of a case agree with one.
abbrev pub IsReproduced : List RestartSemanticRecord → Type 0
IsReproduced records = (b : RestartSemanticRecord) × (all (λ r. agrees r b) records ≡ true)

abbrev pub Every {ℓ κ} : {A : Type ℓ} → (A → Type κ) → List A → Type κ
Every P [] = Unit
Every P (x ∷ xs) = P x × Every P xs

committed_state : (s : AggregateState) → is_committed s ≡ true → s ≡ committed
committed_state committed h = refl
committed_state invalid_semantic_nonreproduction h = ground arith

-- A comparison that equals one that passes is committed.
passes-committed :
    (c d : RestartComparison) → comparison_eq c d ≡ true → passes d ≡ true → c.state ≡ committed
passes-committed c d e p = committed_state c.state (ground (arith, e, p))

compare_cases-IsReproduced :
    (case_records : List (List RestartSemanticRecord))
    (reconstructed comparisons : List RestartComparison)
    → compare_cases case_records ≡ ok reconstructed
    → comparisons_eq reconstructed comparisons ≡ true
    → all passes comparisons ≡ true
    → Every IsReproduced case_records
unfolding compare_cases comparisons_eq
compare_cases-IsReproduced [] rs cs e same p = tt
compare_cases-IsReproduced (records ∷ case_records) rs [] e same p =
    elim (Result-cases (compare_three_restarts records)) [
      | inr (x, r) ↦ ground (arith, e, r)
      | inl (c, r) ↦ elim (Result-cases (compare_cases case_records)) [
        | inr (y, q) ↦ ground (arith, e, r, q)
        | inl (rest, q) ↦ ground (arith, e, r, q, same)
      ]
    ]
compare_cases-IsReproduced (records ∷ case_records) rs (d ∷ cs) e same p =
    elim (Result-cases (compare_three_restarts records)) [
      | inr (x, r) ↦ ground (arith, e, r)
      | inl (c, r) ↦ elim (Result-cases (compare_cases case_records)) [
        | inr (y, q) ↦ ground (arith, e, r, q)
        | inl (rest, q) ↦
            let whole : rs ≡ c ∷ rest = ground (arith, e, r, q) in
            let (here, later) =
              &&-split (comparison_eq c d) (comparisons_eq rest cs) (rw whole at same) in
            let (passed, others) = &&-split (passes d) (all passes cs) p in
            let (_, _, reproduced) = compare_three_restarts-committed records c r in
            (
              reproduced.0 (passes-committed c d here passed),
              compare_cases-IsReproduced case_records rest cs q later others,
            )
      ]
    ]

module _ (manifest_sha256 : Stage2BundleManifest → Text)
    (manifests : List Stage2BundleManifest) where
  -- The records of a case are of repetitions 1, 2 and 3, each bound to its bundle's manifest.
  abbrev pub IsBound : List RestartSemanticRecord → Type 0
  IsBound records =
      (map (λ r. r.repetition_index) records ≡ 1 ∷ 2 ∷ 3 ∷ [])
      × (all (is_bound manifest_sha256 manifests) records ≡ true)

  check_cases-IsBound :
      (case_records : List (List RestartSemanticRecord))
      → check_cases manifest_sha256 manifests case_records ≡ ok tt
      → Every IsBound case_records
  unfolding check_cases
  check_cases-IsBound [] e = tt
  check_cases-IsBound (records ∷ case_records) e =
      let indexes =
        list_eq-eq (map (λ r. r.repetition_index) records) (1 ∷ 2 ∷ 3 ∷ []) (ground (arith, e)) in
      ((indexes, ground (arith, e)), check_cases-IsBound case_records (ground (arith, e)))

  check_comparisons_effect :
      (case_records : List (List RestartSemanticRecord)) (comparisons : List RestartComparison)
      → check_comparisons case_records comparisons ≡ ok tt
      → Every IsReproduced case_records
  unfolding check_comparisons
  check_comparisons_effect case_records comparisons e =
      elim (Result-cases (compare_cases case_records)) [
        | inr (x, r) ↦ ground (arith, e, r)
        | inl (rs, r) ↦
            compare_cases-IsReproduced case_records rs comparisons r (ground (arith, e, r))
              (ground (arith, e, r))
      ]

  texts_eq-eq : (xs ys : List Text) → texts_eq xs ys ≡ true → xs ≡ ys
  texts_eq-eq [] [] h = refl
  texts_eq-eq [] (y ∷ ys) h = ground (arith, h)
  texts_eq-eq (x ∷ xs) [] h = ground (arith, h)
  texts_eq-eq (x ∷ xs) (y ∷ ys) h =
      let head = list_eq-eq x y (ground (arith, h)) in
      let tail = texts_eq-eq xs ys (ground (arith, h)) in ground (arith, head, tail)

  cases_match_effect :
      (case_records : List (List RestartSemanticRecord)) (comparisons : List RestartComparison)
      (expected : List Text)
      → cases_match case_records comparisons expected ≡ true
      → (record_case_ids case_records ≡ expected) × (length case_records ≡ length expected)
  unfolding cases_match
  cases_match_effect case_records comparisons expected h =
      (texts_eq-eq (record_case_ids case_records) expected (ground (arith, h)), ground (arith, h))

  -- What an aggregate commit says.
  pub record IsAggregate (case_records : List (List RestartSemanticRecord)) (expected : List Text)
      : Type 0 where
    pub repetitions : map (λ m. m.repetition_index) manifests ≡ 1 ∷ 2 ∷ 3 ∷ []
    pub every_case : record_case_ids case_records ≡ expected
    pub no_other_case : length case_records ≡ length expected
    pub bound : Every IsBound case_records
    pub reproduced : Every IsReproduced case_records

  -- An aggregate that is committed is of repetitions 1, 2 and 3 and of every expected case and no other,
  -- in their order; the three records of each case are bound to the manifests of their own repetitions,
  -- and agree with one record.
  pub validate_aggregate_commit-IsAggregate :
      (case_records : List (List RestartSemanticRecord)) (comparisons : List RestartComparison)
      (expected : List Text)
      → validate_aggregate_commit manifest_sha256 manifests case_records comparisons expected
        ≡ ok tt
      → IsAggregate case_records expected
  unfolding validate_aggregate_commit
  validate_aggregate_commit-IsAggregate case_records comparisons expected e =
      elim (Result-cases (check_cases manifest_sha256 manifests case_records)) [
        | inr (x, r) ↦ ground (arith, e, r)
        | inl (_, r) ↦
            let (ids, lengths) =
              cases_match_effect case_records comparisons expected (ground (arith, e, r)) in
            record {
              repetitions =
                  list_eq-eq (map (λ m. m.repetition_index) manifests) (1 ∷ 2 ∷ 3 ∷ [])
                    (ground (arith, e, r));
              every_case = ids;
              no_other_case = lengths;
              bound = check_cases-IsBound case_records r;
              reproduced = check_comparisons_effect case_records comparisons (ground (arith, e, r));
            }
      ]
