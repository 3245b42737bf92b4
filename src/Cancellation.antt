-- ===== src/Cancellation.antt =====
-- src/llm_inference_systems/stage2_control.py: the evidence of a cancellation probe and its result.
-- The sequences whose fields have a minimum length are nonempty by type.
pub mod Progression
pub mod Checks
pub mod Verdict
pub mod Contract
pub mod Accepted
pub mod Sample
pub mod Tests
use llm_inference_systems.Prelude.{ℕ, Bool, true, false, Option, List, [], ◌∷◌}
use llm_inference_systems.Sse.Codec.{Text}
use llm_inference_systems.Stage2.Chain.{RequestIdentityChain}
use llm_inference_systems.Stage2.Prometheus.{Floats, Snapshot, CounterDelta}
use llm_inference_systems.RequestLogs.Retain.{RawLogCapture}

pub data CancellationClassification : Type 0 where
  server_abort_acknowledged_and_drained unknown_acknowledgement : CancellationClassification
  later_completion residual_work_timeout : CancellationClassification
  terminal_unknown id_correlation_failure : CancellationClassification

abbrev pub is_drained : CancellationClassification → Bool
is_drained server_abort_acknowledged_and_drained = true
is_drained _ = false

pub record FirstGenerationDelivery : Type 0 where
  pub external_request_id : Text
  pub response_body_id : Text
  pub generation_event_ordinal : ℕ
  pub body_chunk_ordinal : ℕ
  pub observation_offset_ns : ℕ
  pub output_token_ids : List ℕ

pub record ResidualState : Type 0 where
  pub observation_offset_ns : ℕ
  pub raw_process_inventory : Text
  pub raw_process_inventory_sha256 : Text
  pub active_request_ids : List Text
  pub project_process_ids : List ℕ

pub data Phase : Type 0 where
  pre_dispatch drain stable_generation cooldown later : Phase

abbrev pub phase_ordinal : Phase → ℕ
phase_ordinal pre_dispatch = 0
phase_ordinal drain = 1
phase_ordinal stable_generation = 2
phase_ordinal cooldown = 3
phase_ordinal later = 4

pub record ScrapeObservation : Type 0 where
  pub phase : Phase
  pub phase_ordinal : ℕ
  pub scheduled_offset_ns : ℕ
  pub request_dispatch_offset_ns : ℕ
  pub response_completion_offset_ns : ℕ
  pub snapshot_identity_sha256 : Text

-- A tuple that has a first element.
pub record NonEmpty {ℓ} (A : Type ℓ) : Type ℓ where
  pub first : A
  pub rest : List A

module _ {ℓ} {A : Type ℓ} where
  abbrev pub to_list : NonEmpty A → List A
  to_list xs = xs.first ∷ xs.rest

  abbrev pub last_from : A → List A → A
  last_from x [] = x
  last_from x (y ∷ ys) = last_from y ys

  -- xs[-1]
  abbrev pub last_of : NonEmpty A → A
  last_of xs = last_from xs.first xs.rest

module _ (F : Floats) where
  pub record CancellationProbe : Type 0 where
    pub repetition_index : ℕ
    pub server_process_identity : Text
    pub identity_chain : RequestIdentityChain
    pub raw_log_capture : RawLogCapture
    pub raw_log_capture_sha256 : Text
    pub raw_log_start_byte_offset : ℕ
    pub dispatch_offset_ns : ℕ
    pub first_generation_delivery : FirstGenerationDelivery
    pub client_close_offset_ns : ℕ
    pub pre_dispatch_snapshots : NonEmpty (Snapshot F)
    pub drain_snapshots : NonEmpty (Snapshot F)
    pub stable_generation_snapshots : NonEmpty (Snapshot F)
    pub cooldown_snapshots : NonEmpty (Snapshot F)
    pub later_retained_snapshots : List (Snapshot F)
    pub scrape_observations : List ScrapeObservation
    pub residual_state : ResidualState

  pub record CancellationResult : Type 0 where
    pub classification : CancellationClassification
    pub accepted : Bool
    pub evidence_identity_sha256 : Text
    pub prompt_token_delta : Option (CounterDelta F)
    pub generation_token_delta : Option (CounterDelta F)
    pub finished_reason_deltas : List (CounterDelta F)
    pub auxiliary_counter_deltas : List (CounterDelta F)
    pub observed_abort_delta : Option F.number
