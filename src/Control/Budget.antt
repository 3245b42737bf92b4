-- ===== src/Control/Budget.antt =====
-- src/llm_inference_systems/stage2_control.py: `calculate_resource_budget` and the gate on it. The
-- integers are Python's, which do not wrap; the code refuses what would not fit into 64 bits.
use llm_inference_systems.Prelude.{
  ℕ, ◌+◌, ◌*◌, ◌/◌, ◌≤◌, ◌≡◌, ◌↔◌, ◌⊎◌, ◌||◌, Option, none, some, arith, ltb, if◌then◌else◌, Result,
  ok, err,
}

pub record ResourceBudgetInputs : Type 0 where
  pub runtime_and_cuda_package_download : ℕ
  pub expected_installed_environment : ℕ
  pub model_tokenizer_snapshot : ℕ
  pub temporary_extraction_and_cache : ℕ

pub record ResourceBudgetResult : Type 0 where
  pub required_setup_bytes : ℕ
  pub required_free_before_setup : ℕ

pub data BudgetError : Type 0 where
  missing_estimates total_overflow margin_overflow insufficient_space : BudgetError

abbrev pub max_signed_64 : ℕ
max_signed_64 = 9223372036854775807

abbrev pub total_of : ResourceBudgetInputs → ℕ
total_of i =
    i.runtime_and_cuda_package_download + i.expected_installed_environment
    + i.model_tokenizer_snapshot + i.temporary_extraction_and_cache

abbrev max : ℕ → ℕ → ℕ
max a b = if ltb a b then b else a

unfoldable pub budget_of : ℕ → Result BudgetError ResourceBudgetResult
budget_of total =
    if ltb max_signed_64 total || ltb (max_signed_64 * 4) (total * 5)
    then err total_overflow
    else (let with_margin = (total * 5 + 3) / 4 + 2000000000 in
        if ltb max_signed_64 with_margin
        then err margin_overflow
        else ok (record {
          required_setup_bytes = total;
          required_free_before_setup = max 14000000000 with_margin;
        }))

unfoldable pub calculate_resource_budget :
    Option ResourceBudgetInputs → Result BudgetError ResourceBudgetResult
calculate_resource_budget none = err missing_estimates
calculate_resource_budget (some inputs) = budget_of (total_of inputs)

-- `initial_free_bytes` of the provider's shape.
unfoldable pub validate_resource_gate : ℕ → ResourceBudgetResult → Result BudgetError (Unit {0})
validate_resource_gate initial_free_bytes budget =
    if ltb initial_free_bytes budget.required_free_before_setup
    then err insufficient_space
    else ok tt

-- What a budget of `total` bytes must be.
pub record IsBudget (total : ℕ) (r : ResourceBudgetResult) : Type 0 where
  pub setup : r.required_setup_bytes ≡ total
  pub floor : 14000000000 ≤ r.required_free_before_setup
  pub margin : total * 5 + 8000000000 ≤ r.required_free_before_setup * 4
  pub tight :
      (r.required_free_before_setup ≡ 14000000000)
      ⊎ (r.required_free_before_setup * 4 ≤ total * 5 + 8000000003)
  pub bounded : r.required_free_before_setup ≤ max_signed_64

budget_of-IsBudget :
    (total : ℕ) (r : ResourceBudgetResult) → budget_of total ≡ ok r → IsBudget total r
unfolding budget_of
budget_of-IsBudget total r e = ground arith

-- A budget that is returned is the sum of the estimates with a quarter and two billion bytes on top,
-- rounded up, at least the floor of 14 billion, and a signed 64-bit number.
pub calculate_resource_budget-IsBudget :
    (inputs : ResourceBudgetInputs) (r : ResourceBudgetResult)
    → calculate_resource_budget (some inputs) ≡ ok r
    → IsBudget (total_of inputs) r
unfolding calculate_resource_budget
calculate_resource_budget-IsBudget inputs r e = budget_of-IsBudget (total_of inputs) r e

budget_of-fits :
    (total : ℕ)
    → total * 5 + 8000000000 ≤ max_signed_64 * 4
    → budget_of total
      ≡ ok (record {
        required_setup_bytes = total;
        required_free_before_setup = max 14000000000 ((total * 5 + 3) / 4 + 2000000000);
      })
unfolding budget_of
budget_of-fits total h = ground arith

budget_of-small :
    (total : ℕ) (r : ResourceBudgetResult)
    → budget_of total ≡ ok r
    → total * 5 + 8000000000 ≤ max_signed_64 * 4
unfolding budget_of
budget_of-small total r e = ground arith

-- A budget is returned exactly when it, its margin included, fits into a signed 64-bit number.
pub calculate_resource_budget-fits :
    (inputs : ResourceBudgetInputs)
    → (total_of inputs * 5 + 8000000000 ≤ max_signed_64 * 4)
      ↔ ((r : ResourceBudgetResult) × (calculate_resource_budget (some inputs) ≡ ok r))
unfolding calculate_resource_budget
calculate_resource_budget-fits inputs =
    (λ h. (_, budget_of-fits (total_of inputs) h), λ r. budget_of-small (total_of inputs) r.0 r.1)

gate_covers :
    (total free : ℕ) (r : ResourceBudgetResult)
    → IsBudget total r
    → (validate_resource_gate free r ≡ ok tt)
      ↔ ((14000000000 ≤ free) × (total * 5 + 8000000000 ≤ free * 4))
unfolding validate_resource_gate
gate_covers total free r b = (λ e. ground (arith, b), λ h. ground (arith, b))

-- A provider passes the gate of a returned budget exactly if its free space covers the floor of 14
-- billion bytes, and the estimates with a quarter and two billion bytes on top.
pub validate_resource_gate-covers :
    (inputs : ResourceBudgetInputs) (r : ResourceBudgetResult) (free : ℕ)
    → calculate_resource_budget (some inputs) ≡ ok r
    → (validate_resource_gate free r ≡ ok tt)
      ↔ ((14000000000 ≤ free) × (total_of inputs * 5 + 8000000000 ≤ free * 4))
validate_resource_gate-covers inputs r free e =
    gate_covers (total_of inputs) free r (calculate_resource_budget-IsBudget inputs r e)
