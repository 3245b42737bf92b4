-- ===== src/Comparison/Tests.antt =====
-- src/llm_inference_systems/comparison.py: two artifacts that differ in a field that may.
use llm_inference_systems.Stage2.Prometheus.{Floats}
use llm_inference_systems.Comparison.Report.{
  create_comparison_report, ComparisonReport, metric_deltas, Distribution, Artifact, Covers,
  metric_names, create_comparison_report-gates,
}
use llm_inference_systems.Prelude.{
  ◌+◌, ◌⊎◌, false, ℕ, ◌==◌, ◌-◌, ◌/◌, ltb, ◌≡◌, refl, true, some, none, List, [], ◌∷◌, codes, ok,
}
use llm_inference_systems.Comparison.{
  leaf, model, field, end, RunArtifact, ComparisonPolicy, Compatibility, check_compatibility,
  compare_fields, field_value, value_eq, at_path, may_compare, check_compatibility-decides,
}
use llm_inference_systems.Sse.Codec.{Text}

abbrev artifact : Text → RunArtifact
artifact engine = record {
  fields =
      field (codes "server")
        (model (field (codes "engine") (leaf engine) (field (codes "gpu") (leaf (codes "T4")) end)))
        end;
  content_hash_valid = true;
  artifact_content_sha256 = engine;
  goodput_slo_policy_sha256 = codes "slo";
  failed_count = 0;
  successful_count = 8;
  sample_counts = 8 ∷ 8 ∷ [];
}

abbrev gpu_path : List Text
gpu_path = codes "server" ∷ codes "gpu" ∷ []

abbrev engine_path : List Text
engine_path = codes "server" ∷ codes "engine" ∷ []

abbrev policy : ComparisonPolicy
policy = record {
  baseline_artifact_sha256 = codes "a";
  candidate_artifact_sha256 = codes "b";
  slo_policy_sha256 = codes "slo";
  fields_required_identical = gpu_path ∷ [];
  fields_allowed_to_differ = engine_path ∷ [];
  failures_invalidate = true;
  minimum_successful_requests = 5;
  minimum_metric_samples = 4;
}

abbrev compatible_but_engine : Compatibility
compatible_but_engine = record {
  compatible = true;
  mismatches = (record { compared = at_path engine_path; allowed = true }) ∷ [];
  baseline_sample_requirement_met = true;
  candidate_sample_requirement_met = true;
}

check_run :
    check_compatibility (artifact (codes "a")) (artifact (codes "b")) policy
    ≡ ok compatible_but_engine
unfolding check_compatibility compare_fields field_value value_eq
check_run = refl

check_compatibility-decides_example :
    true ≡ may_compare (artifact (codes "a")) (artifact (codes "b")) policy
check_compatibility-decides_example =
    check_compatibility-decides (artifact (codes "a")) (artifact (codes "b")) policy
      compatible_but_engine check_run

abbrev whole_numbers : Floats
whole_numbers = record {
  number = ℕ;
  less = ltb;
  equal = λ a b. a == b;
  minus = λ a b. a - b;
  is_finite = λ n. true;
  of_nat = λ n. n;
}

abbrev distribution : ℕ → Distribution whole_numbers (λ a b. a / b)
distribution n = record { p50 = some n; p95 = some (n + 1); p99 = none }

abbrev measured : Text → ℕ → Artifact whole_numbers (λ a b. a / b)
measured engine n = record {
  run = artifact engine;
  summary = record {
    successful_request_throughput = n;
    goodput = n;
    failure_rate = 0;
    timeout_rate = 0;
    ttft = distribution n;
    end_to_end_success = distribution n;
    tpot = distribution n;
    itl = record { p50 = none; p95 = some n; p99 = some n };
  };
}

abbrev baseline : Artifact whole_numbers (λ a b. a / b)
baseline = measured (codes "a") 4

abbrev candidate : Artifact whole_numbers (λ a b. a / b)
candidate = measured (codes "b") 6

abbrev report : ComparisonReport whole_numbers (λ a b. a / b)
report = record {
  compatibility = compatible_but_engine;
  deltas = metric_deltas whole_numbers (λ a b. a / b) baseline.summary candidate.summary;
}

report_run :
    create_comparison_report whole_numbers (λ a b. a / b) baseline candidate policy ≡ ok report
unfolding create_comparison_report check_compatibility compare_fields field_value value_eq
report_run = refl

create_comparison_report-gates_example :
    ((may_compare baseline.run candidate.run policy ≡ false) × (report.deltas ≡ []))
    ⊎ ((may_compare baseline.run candidate.run policy ≡ true)
        × Covers whole_numbers
            (λ a b. a / b)
            baseline.summary
            candidate.summary
            metric_names
            report.deltas)
create_comparison_report-gates_example =
    create_comparison_report-gates whole_numbers (λ a b. a / b) baseline candidate policy report
      report_run
