-- ===== src/Cancellation/Sample.antt =====
-- src/llm_inference_systems/stage2_control.py: a probe that was drained, over whole numbers.
use llm_inference_systems.Prelude.{
  ℕ, zero, suc, ◌+◌, ◌-◌, ◌&&◌, Option, none, some, List, [], ◌∷◌, ◌++◌, map, ltb, leb, ◌==◌,
  if◌then◌else◌, codes, length, list_eq,
}
use llm_inference_systems.Sse.Codec.{Text}
use llm_inference_systems.Stage2.Chain.{RawLogRecord}
use llm_inference_systems.Stage2.Prometheus.{
  Floats, Sample, Snapshot, expected_labels, success_name,
}
use llm_inference_systems.Cancellation.{
  CancellationProbe, Phase, pre_dispatch, drain, stable_generation, cooldown, ScrapeObservation,
  NonEmpty, to_list, true,
}
use llm_inference_systems.Cancellation.Progression.{
  prompt_name, generation_name, auxiliary_names, finish_reasons,
}
use llm_inference_systems.Cancellation.Checks.{Environment}

abbrev pub whole : Floats
whole = record {
  number = ℕ;
  less = ltb;
  equal = λ a b. a == b;
  minus = λ a b. a - b;
  is_finite = λ n. true;
  of_nat = λ n. n;
}

-- All series, with the counters of prompts, generated tokens and aborts.
abbrev pub series : Text → Option Text → ℕ → Sample whole
series name reason n = record { name = name; labels = expected_labels reason; value = n }

abbrev pub samples_with : ℕ → ℕ → ℕ → List (Sample whole)
samples_with prompts generated aborts =
    series (codes "vllm:num_requests_running") none 0
      ∷ series (codes "vllm:num_requests_waiting") none 0
      ∷ series prompt_name none prompts
      ∷ series generation_name none generated
      ∷ map (λ name. series name none 0) auxiliary_names
    ++ map
        (λ reason.
          series success_name (some reason) (if list_eq reason (codes "abort") then aborts else 0))
        finish_reasons

abbrev pub scraped : List (Sample whole) → ℕ → Snapshot whole
scraped samples at = record {
  process_start_id = codes "s";
  scrape_wall_clock_utc = at;
  scrape_monotonic_offset_ns = at;
  raw_exposition = [];
  raw_exposition_sha256 = [];
  samples = samples;
  label_inventory = [];
}

abbrev pub times : ℕ → ℕ → List ℕ
times zero at = []
times (suc n) at = at ∷ times n (at + 100_000_000)

-- `n` more snapshots after the first, a tenth of a second apart.
abbrev pub window : List (Sample whole) → ℕ → ℕ → NonEmpty (Snapshot whole)
window samples n at = record {
  first = scraped samples at;
  rest = map (scraped samples) (times n (at + 100_000_000));
}

abbrev pub observed_in : Phase → ℕ → List (Snapshot whole) → List ScrapeObservation
observed_in phase n [] = []
observed_in phase n (s ∷ snapshots) =
    record {
      phase = phase;
      phase_ordinal = n;
      scheduled_offset_ns = s.scrape_monotonic_offset_ns;
      request_dispatch_offset_ns = s.scrape_monotonic_offset_ns;
      response_completion_offset_ns = s.scrape_monotonic_offset_ns;
      snapshot_identity_sha256 = s.scrape_monotonic_offset_ns ∷ [];
    }
    ∷ observed_in phase (suc n) snapshots

abbrev pub environment : Environment whole
environment = record {
  is_word = λ c. leb 97 c && leb c 122;
  sha256_text = λ t. t;
  snapshot_identity = λ s. s.scrape_monotonic_offset_ns ∷ [];
  probe_identity = λ p. codes "probe";
}

abbrev pub logged : ℕ → ℕ → ℕ → Text → RawLogRecord
logged ordinal start at line = record {
  source_stream_id = codes "s-raw-log";
  record_ordinal = ordinal;
  byte_start = start;
  byte_end = start + length line;
  observation_offset_ns = at;
  raw_record = line;
  raw_record_sha256 = line;
}

abbrev pub received : RawLogRecord
received = logged 0 0 11_000_000_000 (codes "Received request cmpl-r-0:")

abbrev pub added : RawLogRecord
added = logged 1 27 11_050_000_000 (codes "Added request cmpl-r-0-a123abcd.")

abbrev pub aborted_inside : RawLogRecord
aborted_inside = logged 2 60 11_200_000_000 (codes "Aborted request(s) cmpl-r-0-a123abcd.")

abbrev pub aborted_outside : RawLogRecord
aborted_outside = logged 3 98 11_250_000_000 (codes "Request cmpl-r-0 aborted.")

abbrev pub before : NonEmpty (Snapshot whole)
before = window (samples_with 100 10 0) 9 10_000_000_000

abbrev pub drained : NonEmpty (Snapshot whole)
drained = window (samples_with 164 15 1) 9 11_300_000_000

abbrev pub stable : NonEmpty (Snapshot whole)
stable = window (samples_with 164 15 1) 10 12_200_000_000

abbrev pub cooled : NonEmpty (Snapshot whole)
cooled = window (samples_with 164 15 1) 20 13_200_000_000

abbrev pub probe_closed_at : ℕ → CancellationProbe whole
probe_closed_at close = record {
  repetition_index = 1;
  server_process_identity = codes "s";
  identity_chain = record {
    external_base_id = codes "r";
    response_body_id = codes "cmpl-r";
    serving_item_id = codes "cmpl-r-0";
    internal_engine_id = codes "cmpl-r-0-a123abcd";
    request_received_log = received;
    request_add_log = added;
    external_abort_log = some aborted_outside;
    internal_abort_log = some aborted_inside;
  };
  raw_log_capture = record {
    source_stream_id = codes "s-raw-log";
    exact_bytes_base64 = [];
    decoded_byte_count = 0;
    raw_bytes_sha256 = codes "hash";
    records = received ∷ added ∷ aborted_inside ∷ aborted_outside ∷ [];
    identity_sha256 = [];
  };
  raw_log_capture_sha256 = codes "hash";
  raw_log_start_byte_offset = 0;
  dispatch_offset_ns = 11_000_000_000;
  first_generation_delivery = record {
    external_request_id = codes "r";
    response_body_id = codes "cmpl-r";
    generation_event_ordinal = 0;
    body_chunk_ordinal = 0;
    observation_offset_ns = 11_100_000_000;
    output_token_ids = 5 ∷ [];
  };
  client_close_offset_ns = close;
  pre_dispatch_snapshots = before;
  drain_snapshots = drained;
  stable_generation_snapshots = stable;
  cooldown_snapshots = cooled;
  later_retained_snapshots = [];
  scrape_observations =
      observed_in pre_dispatch 0 (to_list before)
      ++ (observed_in drain 0 (to_list drained)
          ++ (observed_in stable_generation 0 (to_list stable)
              ++ observed_in cooldown 0 (to_list cooled)));
  residual_state = record {
    observation_offset_ns = 15_300_000_000;
    raw_process_inventory = codes "idle";
    raw_process_inventory_sha256 = codes "idle";
    active_request_ids = [];
    project_process_ids = [];
  };
}
