-- ===== src/Control/Aggregate/Tests.antt =====
-- src/llm_inference_systems/stage2_control.py: an aggregate of one case.
use llm_inference_systems.Prelude.{ℕ, ◌≡◌, refl, false, List, [], ◌∷◌, codes, ok, err}
use llm_inference_systems.Bundle.{Stage2BundleManifest}
use llm_inference_systems.Control.Restarts.{
  RestartSemanticRecord, RestartComparison, committed, compare_three_restarts, by_index,
  mismatches_of, all_mismatches,
}
use llm_inference_systems.Control.Aggregate.{
  compare_cases, comparisons_eq, check_comparisons, cases_match, check_cases,
  validate_aggregate_commit, not_bound,
}
use llm_inference_systems.Control.Aggregate.Bound.{
  IsAggregate, validate_aggregate_commit-IsAggregate,
}

abbrev restart : ℕ → RestartSemanticRecord
restart n = record {
  repetition_index = n;
  bundle_manifest_sha256 = n ∷ [];
  case_id = codes "case-1";
  sent_prompt_token_ids = 1 ∷ [];
  returned_prompt_token_ids = 1 ∷ [];
  output_token_ids = 2 ∷ 3 ∷ [];
  output_text_sha256 = codes "ab";
  replacement_run = false;
}

abbrev manifest : ℕ → Stage2BundleManifest
manifest n = record {
  repetition_index = n;
  source_commit = [];
  created_at_utc = 0;
  files = [];
  reconstruction_sha256 = [];
}

abbrev manifests : List Stage2BundleManifest
manifests = manifest 1 ∷ manifest 2 ∷ manifest 3 ∷ []

abbrev hash : Stage2BundleManifest → List ℕ
hash m = m.repetition_index ∷ []

abbrev case_records : List (List RestartSemanticRecord)
case_records = (restart 1 ∷ restart 2 ∷ restart 3 ∷ []) ∷ []

abbrev comparisons : List RestartComparison
comparisons = (record { case_id = codes "case-1"; state = committed; mismatches = [] }) ∷ []

aggregate_run :
    validate_aggregate_commit hash manifests case_records comparisons (codes "case-1" ∷ []) ≡ ok tt
unfolding validate_aggregate_commit cases_match check_cases check_comparisons compare_cases
    compare_three_restarts by_index all_mismatches mismatches_of comparisons_eq
aggregate_run = refl

aggregate_unbound :
    validate_aggregate_commit (λ m. []) manifests case_records comparisons (codes "case-1" ∷ [])
    ≡ err not_bound
unfolding validate_aggregate_commit cases_match check_cases
aggregate_unbound = refl

validate_aggregate_commit-IsAggregate_example :
    IsAggregate hash manifests case_records (codes "case-1" ∷ [])
validate_aggregate_commit-IsAggregate_example =
    validate_aggregate_commit-IsAggregate hash manifests case_records comparisons
      (codes "case-1" ∷ []) aggregate_run
