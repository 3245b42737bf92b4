-- ===== src/Control/Aggregate.antt =====
-- src/llm_inference_systems/stage2_control.py: validate_aggregate_commit, over the comparison of three
-- restarts and the manifests of bundles. The hash of a manifest's file is a parameter, and COMMITTED is
-- the only state that is returned.
pub mod Bound
mod Tests
use llm_inference_systems.Prelude.{
  ℕ, Bool, true, false, ◌&&◌, not, Option, none, some, List, [], ◌∷◌, map, ◌==◌, if◌then◌else◌,
  length, all, list_eq, Result, ok, err, distinct, texts_eq,
}
use llm_inference_systems.Sse.Codec.{Text}
use llm_inference_systems.Bundle.{Stage2BundleManifest}
use llm_inference_systems.Control.Restarts.{
  RestartSemanticRecord, RestartComparison, RestartError, Mismatch, Field, AggregateState,
  committed, invalid_semantic_nonreproduction, compare_three_restarts, agrees,
  compare_three_restarts-committed,
}
use llm_inference_systems.Control.Restarts

pub data AggregateError : Type 0 where
  not_three_repetitions cases_differ not_three_records not_bound : AggregateError
  not_compared not_reconstructed not_reproduced : AggregateError

abbrev pub one_two_three : List ℕ → Bool
one_two_three indexes = list_eq indexes (1 ∷ 2 ∷ 3 ∷ [])

-- manifest_identities[index]; the indexes are compared before, so the key is there.
abbrev manifest_at : ℕ → List Stage2BundleManifest → Option Stage2BundleManifest
manifest_at index [] = none
manifest_at index (m ∷ manifests) =
    if m.repetition_index == index then some m else manifest_at index manifests

-- records[0].case_id for records in case_records if records
abbrev pub record_case_ids : List (List RestartSemanticRecord) → List Text
record_case_ids [] = []
record_case_ids ([] ∷ case_records) = record_case_ids case_records
record_case_ids ((r ∷ records) ∷ case_records) = r.case_id ∷ record_case_ids case_records

abbrev field_number : Field → ℕ
field_number Restarts.case_id = 0
field_number Restarts.sent_prompt_token_ids = 1
field_number Restarts.returned_prompt_token_ids = 2
field_number Restarts.output_token_ids = 3
field_number Restarts.output_text_sha256 = 4

abbrev mismatches_eq : List Mismatch → List Mismatch → Bool
mismatches_eq [] [] = true
mismatches_eq (a ∷ xs) (b ∷ ys) =
    a.restart == b.restart && (field_number a.field == field_number b.field && mismatches_eq xs ys)
mismatches_eq _ _ = false

abbrev pub is_committed : AggregateState → Bool
is_committed committed = true
is_committed invalid_semantic_nonreproduction = false

abbrev same_state : AggregateState → AggregateState → Bool
same_state a b = if is_committed a then is_committed b else not (is_committed b)

abbrev pub comparison_eq : RestartComparison → RestartComparison → Bool
comparison_eq a b =
    list_eq a.case_id b.case_id
    && (same_state a.state b.state && mismatches_eq a.mismatches b.mismatches)

unfoldable pub comparisons_eq : List RestartComparison → List RestartComparison → Bool
comparisons_eq [] [] = true
comparisons_eq (a ∷ xs) (b ∷ ys) = comparison_eq a b && comparisons_eq xs ys
comparisons_eq _ _ = false

-- tuple(compare_three_restarts(records) for records in case_records)
unfoldable pub compare_cases :
    List (List RestartSemanticRecord) → Result RestartError (List RestartComparison)
compare_cases [] = ok []
compare_cases (records ∷ case_records) =
    let rest = compare_cases case_records in
    elim (compare_three_restarts records) [
      | err e ↦ err e
      | ok c ↦ elim rest [ err e ↦ err e | ok cs ↦ ok (c ∷ cs) ]
    ]

abbrev pub passes : RestartComparison → Bool
passes c = is_committed c.state && length c.mismatches == 0

-- The reconstruction of the comparisons, and that all of them pass.
unfoldable pub check_comparisons :
    List (List RestartSemanticRecord) → List RestartComparison → Result AggregateError (Unit {0})
check_comparisons case_records comparisons = elim (compare_cases case_records) [
  | err e ↦ err not_compared
  | ok reconstructed ↦
      if not (comparisons_eq reconstructed comparisons)
      then err not_reconstructed
      else if not (all passes comparisons)
      then err not_reproduced
      else ok tt
]

-- The tests on the cases that are expected.
unfoldable pub cases_match :
    List (List RestartSemanticRecord) → List RestartComparison → List Text → Bool
cases_match case_records comparisons expected =
    not (length expected == 0)
    && (distinct list_eq expected
        && (texts_eq (map (λ c. c.case_id) comparisons) expected
            && (texts_eq (record_case_ids case_records) expected
                && length case_records == length expected)))

module _ (manifest_sha256 : Stage2BundleManifest → Text)
    (manifests : List Stage2BundleManifest) where
  abbrev pub is_bound : RestartSemanticRecord → Bool
  is_bound r = elim (manifest_at r.repetition_index manifests) [
    | none ↦ false
    | some m ↦ list_eq r.bundle_manifest_sha256 (manifest_sha256 m)
  ]

  -- The loop over the cases.
  unfoldable pub check_cases : List (List RestartSemanticRecord) → Result AggregateError (Unit {0})
  check_cases [] = ok tt
  check_cases (records ∷ case_records) =
      let rest = check_cases case_records in
      if not (one_two_three (map (λ r. r.repetition_index) records))
      then err not_three_records
      else if not (all is_bound records)
      then err not_bound
      else rest

  unfoldable pub validate_aggregate_commit :
      List (List RestartSemanticRecord)
      → List RestartComparison
      → List Text
      → Result AggregateError (Unit {0})
  validate_aggregate_commit case_records comparisons expected =
      if not (one_two_three (map (λ m. m.repetition_index) manifests))
      then err not_three_repetitions
      else if not (cases_match case_records comparisons expected)
      then err cases_differ
      else elim (check_cases case_records) [
        | err e ↦ err e
        | ok _ ↦ check_comparisons case_records comparisons
      ]
