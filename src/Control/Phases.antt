-- ===== src/Control/Phases.antt =====
-- src/llm_inference_systems/stage2_contracts.py and stage2_control.py: the phases of a repetition and
-- `validate_runtime_phases`.
use llm_inference_systems.Prelude.{
  ℕ, ◌≤◌, ◌≡◌, refl, Bool, true, false, ◌&&◌, not, List, [], ◌∷◌, ◌++◌, map, arith, ltb, leb, ◌==◌,
  if◌then◌else◌, ==-eq, &&-split, codes, all, any, list_eq, Result, ok, err, pairs_hold, all-append,
  any-all, texts_eq,
}
use llm_inference_systems.Sse.Codec.{Text}

pub data RuntimePhase : Type 0 where
  live_resource_audit environment_lock_verification offline_snapshot_verification : RuntimePhase
  runtime_process_start model_weight_load engine_readiness_health : RuntimePhase
  jit_compilation_state cuda_graph_state allocator_kv_stabilization : RuntimePhase
  excluded_stabilization_requests excluded_shape_warmups cancellation_probe_drain : RuntimePhase
  steady_state_gate measured_window final_metrics_drain : RuntimePhase
  shutdown no_residual_process_verification : RuntimePhase

-- The members of the enumeration in their order, with the text of each in lower case.
abbrev pub phase_names : List (RuntimePhase × Text)
phase_names =
    (live_resource_audit, codes "live_resource_audit")
    ∷ (environment_lock_verification, codes "environment_lock_verification")
    ∷ (offline_snapshot_verification, codes "offline_snapshot_verification")
    ∷ (runtime_process_start, codes "runtime_process_start")
    ∷ (model_weight_load, codes "model_weight_load")
    ∷ (engine_readiness_health, codes "engine_readiness_health")
    ∷ (jit_compilation_state, codes "jit_compilation_state")
    ∷ (cuda_graph_state, codes "cuda_graph_state")
    ∷ (allocator_kv_stabilization, codes "allocator_kv_stabilization")
    ∷ (excluded_stabilization_requests, codes "excluded_stabilization_requests")
    ∷ (excluded_shape_warmups, codes "excluded_shape_warmups")
    ∷ (cancellation_probe_drain, codes "cancellation_probe_drain")
    ∷ (steady_state_gate, codes "steady_state_gate")
    ∷ (measured_window, codes "measured_window")
    ∷ (final_metrics_drain, codes "final_metrics_drain")
    ∷ (shutdown, codes "shutdown")
    ∷ (no_residual_process_verification, codes "no_residual_process_verification")
    ∷ []

unfoldable pub ordinal : RuntimePhase → ℕ
ordinal live_resource_audit = 0
ordinal environment_lock_verification = 1
ordinal offline_snapshot_verification = 2
ordinal runtime_process_start = 3
ordinal model_weight_load = 4
ordinal engine_readiness_health = 5
ordinal jit_compilation_state = 6
ordinal cuda_graph_state = 7
ordinal allocator_kv_stabilization = 8
ordinal excluded_stabilization_requests = 9
ordinal excluded_shape_warmups = 10
ordinal cancellation_probe_drain = 11
ordinal steady_state_gate = 12
ordinal measured_window = 13
ordinal final_metrics_drain = 14
ordinal shutdown = 15
ordinal no_residual_process_verification = 16

pub record RuntimePhaseRecord : Type 0 where
  pub phase : RuntimePhase
  pub started_offset_ns : ℕ
  pub ended_offset_ns : ℕ
  pub passed : Bool
  pub post_warmup_jit_observed : Bool
  pub evidence_kind : Text
  pub evidence_identity_sha256 : Text
  pub evidence_references : List Text

pub data PhaseError : Type 0 where
  phases_out_of_order phase_not_passed wrong_evidence phases_overlap jit_observed : PhaseError

-- The record of a phase with its evidence, which both bear the phase's name.
abbrev has_evidence : Text → RuntimePhaseRecord → Bool
has_evidence name r =
    list_eq r.evidence_kind (name ++ codes "-evidence-v0.3.0")
    && texts_eq r.evidence_references ((codes "raw/phases/" ++ name ++ codes ".json") ∷ [])

abbrev in_order : List RuntimePhaseRecord → List (RuntimePhase × Text) → Bool
in_order [] [] = true
in_order (r ∷ records) (p ∷ phases) = ordinal r.phase == ordinal p.0 && in_order records phases
in_order _ _ = false

-- PHASE_EVIDENCE_KINDS[record.phase]
abbrev name_in : List (RuntimePhase × Text) → RuntimePhase → Text
name_in [] phase = []
name_in (p ∷ phases) phase = if ordinal phase == ordinal p.0 then p.1 else name_in phases phase

abbrev apart : RuntimePhaseRecord → RuntimePhaseRecord → Bool
apart left right = leb left.ended_offset_ns right.started_offset_ns

unfoldable pub validate_runtime_phases : List RuntimePhaseRecord → Result PhaseError (Unit {0})
validate_runtime_phases records =
    if not (in_order records phase_names)
    then err phases_out_of_order
    else if any (λ r. not r.passed) records
    then err phase_not_passed
    else if any (λ r. not (has_evidence (name_in phase_names r.phase) r)) records
    then err wrong_evidence
    else if not (pairs_hold apart records)
    then err phases_overlap
    else if any (λ r. r.post_warmup_jit_observed) records
    then err jit_observed
    else ok tt

-- `RuntimePhaseRecord.validate_interval`.
abbrev pub is_interval : RuntimePhaseRecord → Bool
is_interval r = ltb r.started_offset_ns r.ended_offset_ns

pairs_hold-drop :
    (before rest : List RuntimePhaseRecord)
    → pairs_hold apart (before ++ rest) ≡ true
    → pairs_hold apart rest ≡ true
pairs_hold-drop [] rest h = h
pairs_hold-drop (r ∷ []) [] h = refl
pairs_hold-drop (r ∷ []) (x ∷ rest) h = ground (arith, h)
pairs_hold-drop (r ∷ s ∷ before) rest h = pairs_hold-drop (s ∷ before) rest (ground (arith, h))

first_before :
    (a : RuntimePhaseRecord) (middle : List RuntimePhaseRecord) (b : RuntimePhaseRecord)
    (after : List RuntimePhaseRecord)
    → pairs_hold apart (a ∷ (middle ++ b ∷ after)) ≡ true
    → all is_interval middle ≡ true
    → a.ended_offset_ns ≤ b.started_offset_ns
first_before a [] b after h i = ground arith
first_before a (m ∷ middle) b after h i = ground (arith, first_before m middle b after)

in_order-phases :
    (records : List RuntimePhaseRecord) (phases : List (RuntimePhase × Text))
    → in_order records phases ≡ true
    → map (λ r. ordinal r.phase) records ≡ map (λ p. ordinal p.0) phases
in_order-phases [] [] h = refl
in_order-phases [] (p ∷ phases) h = cc
in_order-phases (r ∷ records) [] h = cc
in_order-phases (r ∷ records) (p ∷ phases) h =
    let (same, rest) = &&-split _ _ h in
    rw (==-eq (ordinal r.phase) (ordinal p.0) same, in_order-phases records phases rest) refl

-- The 17 phases in their order, none with a compilation after the warmup, and any two of them
-- separate in time.
pub record IsCleanRun (records : List RuntimePhaseRecord) : Type 0 where
  pub phases : map (λ r. ordinal r.phase) records ≡ map (λ p. ordinal p.0) phase_names
  pub all_passed : all (λ r. r.passed) records ≡ true
  pub no_jit : all (λ r. not r.post_warmup_jit_observed) records ≡ true
  pub separate :
      (before middle after : List RuntimePhaseRecord) (a b : RuntimePhaseRecord)
      → records ≡ before ++ (a ∷ (middle ++ b ∷ after))
      → a.ended_offset_ns ≤ b.started_offset_ns

validate_effect :
    (records : List RuntimePhaseRecord)
    → validate_runtime_phases records ≡ ok tt
    → (in_order records phase_names ≡ true)
      × (any (λ r. not r.passed) records ≡ false)
      × (pairs_hold apart records ≡ true)
      × (any (λ r. r.post_warmup_jit_observed) records ≡ false)
unfolding validate_runtime_phases
validate_effect records e = ground (arith, e)

none_observed :
    (records : List RuntimePhaseRecord)
    → any (λ r. r.post_warmup_jit_observed) records ≡ false
    → all (λ r. not r.post_warmup_jit_observed) records ≡ true
none_observed [] h = refl
none_observed (r ∷ records) h = ground (arith, none_observed records)

separated :
    (records before middle after : List RuntimePhaseRecord) (a b : RuntimePhaseRecord)
    → pairs_hold apart records ≡ true
    → all is_interval records ≡ true
    → records ≡ before ++ (a ∷ (middle ++ b ∷ after))
    → a.ended_offset_ns ≤ b.started_offset_ns
separated records before middle after a b h i parts =
    let tail : pairs_hold apart (a ∷ (middle ++ b ∷ after)) ≡ true =
      pairs_hold-drop before (a ∷ (middle ++ b ∷ after)) (rw parts at h) in
    let whole : (all is_interval before && all is_interval (a ∷ (middle ++ b ∷ after))) ≡ true =
      rw (← all-append is_interval before (a ∷ (middle ++ b ∷ after)), ← parts) i in
    let inner : (all is_interval middle && all is_interval (b ∷ after)) ≡ true =
      rw (← all-append is_interval middle (b ∷ after)) (ground arith) in
    first_before a middle b after tail (&&-split _ _ inner).0

-- Phase records that the validator accepts, each a valid interval, are a clean run: the 17 phases in
-- their order, all passed, none with a compilation after the warmup, and any two of them, adjacent or
-- not, separate in time.
pub validate_runtime_phases-IsCleanRun :
    (records : List RuntimePhaseRecord)
    → all is_interval records ≡ true
    → validate_runtime_phases records ≡ ok tt
    → IsCleanRun records
validate_runtime_phases-IsCleanRun records i e =
    let (order, passed, apart_all, jit) = validate_effect records e in
    record {
      phases = in_order-phases records phase_names order;
      all_passed = any-all (λ r. r.passed) records passed;
      no_jit = none_observed records jit;
      separate = λ before middle after a b parts.
          separated records before middle after a b apart_all i parts;
    }
