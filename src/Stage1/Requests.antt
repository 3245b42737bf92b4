-- ===== src/Stage1/Requests.antt =====
-- src/llm_inference_systems/stage1_metrics.py: `derive_stage1_request_metrics`. A duration that the code
-- converts to a float is kept as the integer, and a quotient as its numerator and denominator.
use llm_inference_systems.Prelude.{
  ℕ, ◌-◌, Bool, ◌&&◌, Option, none, some, List, [], ltb, leb, ◌==◌, if◌then◌else◌, length, ℤ, sub_ℕ,
}
use llm_inference_systems.Stage0.Metrics.{Quotient, differences}

pub data TerminalClass : Type 0 where
  success failed timeout cancelled : TerminalClass

pub record Stage1Request : Type 0 where
  pub terminal_class : TerminalClass
  pub dispatch_offset_ns : ℕ
  pub first_output_token_offset_ns : Option ℕ
  pub last_output_token_offset_ns : Option ℕ
  pub terminal_offset_ns : ℕ
  pub output_token_count : ℕ
  pub per_token_observation_complete : Bool
  pub token_event_observation_offsets_ns : List ℕ

pub record Stage1RequestMetrics : Type 0 where
  pub end_to_end_ns : Option ℤ
  pub ttft_ns : Option ℤ
  pub tpot_ns : Option Quotient
  pub itl_ns : List ℤ
  pub observed_token_span_per_interval_ns : Option Quotient

abbrev since : Option ℕ → ℕ → Option ℤ
since none start = none
since (some at) start = some (sub_ℕ at start)

-- (end - first) / (count - 1), where there are two tokens.
abbrev per_interval : ℕ → Option ℕ → Option ℕ → Option Quotient
per_interval count (some first) (some last) =
    if ltb count 2
    then none
    else some (record { numerator = sub_ℕ last first; denominator = count - 1 })
per_interval count _ _ = none

abbrev gaps_of : Stage1Request → List ℤ
gaps_of r =
    if leb 2 r.output_token_count
      && (r.per_token_observation_complete
          && length r.token_event_observation_offsets_ns == r.output_token_count)
    then differences r.token_event_observation_offsets_ns
    else []

abbrev of_success : Stage1Request → Stage1RequestMetrics
of_success r = record {
  end_to_end_ns = some (sub_ℕ r.terminal_offset_ns r.dispatch_offset_ns);
  ttft_ns = since r.first_output_token_offset_ns r.dispatch_offset_ns;
  tpot_ns =
      per_interval r.output_token_count r.first_output_token_offset_ns (some r.terminal_offset_ns);
  itl_ns = gaps_of r;
  observed_token_span_per_interval_ns =
      per_interval r.output_token_count r.first_output_token_offset_ns
        r.last_output_token_offset_ns;
}

unfoldable pub derive_stage1_request_metrics : Stage1Request → Stage1RequestMetrics
derive_stage1_request_metrics r = elim r.terminal_class [
  | success ↦ of_success r
  | _ ↦ record {
    end_to_end_ns = none;
    ttft_ns = none;
    tpot_ns = none;
    itl_ns = [];
    observed_token_span_per_interval_ns = none;
  }
]
