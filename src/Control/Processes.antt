-- ===== src/Control/Processes.antt =====
-- src/llm_inference_systems/stage2_runtime.py: the sequence of a run's processes.
use llm_inference_systems.Prelude.{
  ℕ, Bool, not, List, [], ◌∷◌, map, if◌then◌else◌, list_eq, Result, ok, err, pairs_hold, distinct,
}
use llm_inference_systems.Sse.Codec.{Text}

pub data ProcessKind : Type 0 where
  online_snapshot_download offline_tokenizer_verification : ProcessKind
  offline_vllm_restart_1 offline_vllm_restart_2 offline_vllm_restart_3 : ProcessKind

-- The fields of a Stage2ProcessRecord that the sequence depends on, and the others in canonical JSON,
-- which only the record's identity depends on.
pub record ProcessRecord : Type 0 where
  pub process_kind : ProcessKind
  pub process_identity : Text
  pub verified_local_snapshot_path : Text
  pub other_fields : Text

pub data SequenceError : Type 0 where
  wrong_order identities_not_distinct paths_differ : SequenceError

unfoldable pub place : ProcessKind → ℕ
place online_snapshot_download = 0
place offline_tokenizer_verification = 1
place offline_vllm_restart_1 = 2
place offline_vllm_restart_2 = 3
place offline_vllm_restart_3 = 4

abbrev same_path : ProcessRecord → ProcessRecord → Bool
same_path a b = list_eq a.verified_local_snapshot_path b.verified_local_snapshot_path

unfoldable pub validate_process_sequence : List ProcessRecord → Result SequenceError (Unit {0})
validate_process_sequence records =
    if not (list_eq (map (λ r. place r.process_kind) records) (0 ∷ 1 ∷ 2 ∷ 3 ∷ 4 ∷ []))
    then err wrong_order
    else if not (distinct list_eq (map (λ r. r.process_identity) records))
    then err identities_not_distinct
    else if not (pairs_hold same_path records)
    then err paths_differ
    else ok tt
