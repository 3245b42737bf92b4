-- ===== src/Control/Tests.antt =====
-- src/llm_inference_systems/stage2_control.py: the theorems at concrete budgets, phases and restarts.
use llm_inference_systems.Control.Memory.{
  validate_gpu_memory_stability, IsStable, GpuMemorySample, gpu_memory_tolerance_bytes,
  validate_gpu_memory_stability-IsStable, check_stability,
}
use llm_inference_systems.Prelude.{
  codes, length, List, [], some, ℕ, ◌*◌, ◌≡◌, any, ok, refl, ◌+◌, ◌∷◌, false, true, ◌↔◌, ◌≤◌, all,
  ◌++◌,
}
use llm_inference_systems.Sse.Codec.{Text}
use llm_inference_systems.Control.Budget.{
  ResourceBudgetInputs, ResourceBudgetResult, calculate_resource_budget, budget_of,
  validate_resource_gate, IsBudget, calculate_resource_budget-IsBudget,
  calculate_resource_budget-fits, validate_resource_gate-covers, max_signed_64, total_of,
}
use llm_inference_systems.Control.Phases.{
  RuntimePhase, RuntimePhaseRecord, phase_names, ordinal, validate_runtime_phases, IsCleanRun,
  validate_runtime_phases-IsCleanRun,
}
use llm_inference_systems.Control.Restarts.{
  RestartSemanticRecord, RestartComparison, compare_three_restarts, by_index, mismatches_of,
  all_mismatches, committed, agrees, compare_three_restarts-committed,
}

abbrev inputs : ResourceBudgetInputs
inputs = record {
  runtime_and_cuda_package_download = 4000000000;
  expected_installed_environment = 6000000000;
  model_tokenizer_snapshot = 1000000001;
  temporary_extraction_and_cache = 3000000000;
}

abbrev budget : ResourceBudgetResult
budget = record { required_setup_bytes = 14000000001; required_free_before_setup = 19500000002 }

budget_run : calculate_resource_budget (some inputs) ≡ ok budget
unfolding calculate_resource_budget budget_of
budget_run = refl

calculate_resource_budget-IsBudget_example : IsBudget 14000000001 budget
calculate_resource_budget-IsBudget_example =
    calculate_resource_budget-IsBudget inputs budget budget_run

calculate_resource_budget-fits_example :
    (total_of inputs * 5 + 8000000000 ≤ max_signed_64 * 4)
    ↔ ((r : ResourceBudgetResult) × (calculate_resource_budget (some inputs) ≡ ok r))
calculate_resource_budget-fits_example = calculate_resource_budget-fits inputs

validate_resource_gate-covers_example :
    (validate_resource_gate 20000000000 budget ≡ ok tt)
    ↔ ((14000000000 ≤ 20000000000) × (total_of inputs * 5 + 8000000000 ≤ 20000000000 * 4))
validate_resource_gate-covers_example =
    validate_resource_gate-covers inputs budget 20000000000 budget_run

abbrev phase_records : ℕ → List (RuntimePhase × Text) → List RuntimePhaseRecord
phase_records at [] = []
phase_records at (p ∷ phases) =
    (record {
      phase = p.0;
      started_offset_ns = at;
      ended_offset_ns = at + 5;
      passed = true;
      post_warmup_jit_observed = false;
      evidence_kind = p.1 ++ codes "-evidence-v0.3.0";
      evidence_identity_sha256 = [];
      evidence_references = (codes "raw/phases/" ++ p.1 ++ codes ".json") ∷ [];
    })
    ∷ phase_records (at + 5) phases

abbrev clean : List RuntimePhaseRecord
clean = phase_records 100 phase_names

clean_run : validate_runtime_phases clean ≡ ok tt
unfolding validate_runtime_phases ordinal
clean_run = refl

validate_runtime_phases-IsCleanRun_example : IsCleanRun clean
validate_runtime_phases-IsCleanRun_example = validate_runtime_phases-IsCleanRun clean refl clean_run

abbrev restart : ℕ → RestartSemanticRecord
restart n = record {
  repetition_index = n;
  bundle_manifest_sha256 = n ∷ [];
  case_id = codes "case-1";
  sent_prompt_token_ids = 1 ∷ [];
  returned_prompt_token_ids = 1 ∷ [];
  output_token_ids = 2 ∷ 3 ∷ [];
  output_text_sha256 = codes "ab";
  replacement_run = false;
}

abbrev restarts : List RestartSemanticRecord
restarts = restart 2 ∷ restart 3 ∷ restart 1 ∷ []

abbrev comparison : RestartComparison
comparison = record { case_id = codes "case-1"; state = committed; mismatches = [] }

restarts_run : compare_three_restarts restarts ≡ ok comparison
unfolding compare_three_restarts by_index mismatches_of all_mismatches
restarts_run = refl

compare_three_restarts-committed_example :
    (length restarts ≡ 3)
    × (any (λ r. r.replacement_run) restarts ≡ false)
    × ((comparison.state ≡ committed)
        ↔ ((b : RestartSemanticRecord) × (all (λ r. agrees r b) restarts ≡ true)))
compare_three_restarts-committed_example =
    compare_three_restarts-committed restarts comparison restarts_run

abbrev memory_at : ℕ → ℕ → GpuMemorySample
memory_at at bytes = record { observation_offset_ns = at; allocated_bytes = bytes }

abbrev steady_memory : List GpuMemorySample
steady_memory =
    memory_at 0 8000000000
    ∷ memory_at 200000000 8050000000
    ∷ memory_at 400000000 7990000000
    ∷ memory_at 600000000 8000000000
    ∷ memory_at 800000000 8010000000
    ∷ []

memory_run : validate_gpu_memory_stability steady_memory ≡ ok 80000000
unfolding validate_gpu_memory_stability gpu_memory_tolerance_bytes check_stability
memory_run = refl

validate_gpu_memory_stability-IsStable_example : IsStable steady_memory 80000000
validate_gpu_memory_stability-IsStable_example =
    validate_gpu_memory_stability-IsStable steady_memory 80000000 memory_run
