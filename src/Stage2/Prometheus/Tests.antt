-- ===== src/Stage2/Prometheus/Tests.antt =====
-- src/llm_inference_systems/stage2_prometheus.py: a counter that grows by 64, over whole numbers.
use llm_inference_systems.Prelude.{
  ℕ, ◌-◌, ◌≡◌, refl, none, List, [], ◌∷◌, ltb, ◌==◌, codes, ok, err, true,
}
use llm_inference_systems.Stage2.Prometheus.{
  delta_is_valid, Floats, Sample, Snapshot, CounterDelta, expected_labels, select_exact_series,
  subtract, derive_counter_delta, stale_or_reordered,
}
use llm_inference_systems.Stage2.Prometheus.Deltas.{
  IsDelta, derive_counter_delta-IsDelta, derive_counter_delta-refuses,
}

abbrev whole_numbers : Floats
whole_numbers = record {
  number = ℕ;
  less = ltb;
  equal = λ a b. a == b;
  minus = λ a b. a - b;
  is_finite = λ n. true;
  of_nat = λ n. n;
}

abbrev prompt_tokens : List ℕ
prompt_tokens = codes "vllm:prompt_tokens_total"

abbrev sample : ℕ → Sample whole_numbers
sample n = record { name = prompt_tokens; labels = expected_labels none; value = n }

abbrev scraped : ℕ → ℕ → Snapshot whole_numbers
scraped at n = record {
  process_start_id = codes "server-1";
  scrape_wall_clock_utc = at;
  scrape_monotonic_offset_ns = at;
  raw_exposition = [];
  raw_exposition_sha256 = [];
  samples = sample n ∷ [];
  label_inventory = (prompt_tokens, expected_labels none ∷ []) ∷ [];
}

abbrev grown : CounterDelta whole_numbers
grown = record {
  metric = prompt_tokens;
  labels = expected_labels none;
  before = 100;
  after = 164;
  delta = 64;
}

grown_run :
    derive_counter_delta whole_numbers (scraped 10 100) (scraped 20 164) prompt_tokens none
    ≡ ok grown
unfolding derive_counter_delta select_exact_series subtract delta_is_valid
grown_run = refl

derive_counter_delta-IsDelta_example :
    IsDelta whole_numbers (scraped 10 100) (scraped 20 164) prompt_tokens none grown
derive_counter_delta-IsDelta_example =
    derive_counter_delta-IsDelta whole_numbers (scraped 10 100) (scraped 20 164) prompt_tokens none
      grown grown_run

derive_counter_delta-refuses_example :
    derive_counter_delta whole_numbers (scraped 20 164) (scraped 10 100) prompt_tokens none
    ≡ err stale_or_reordered
derive_counter_delta-refuses_example =
    derive_counter_delta-refuses whole_numbers (scraped 10 100) (scraped 20 164) prompt_tokens none
      grown grown_run
