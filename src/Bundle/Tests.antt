-- ===== src/Bundle/Tests.antt =====
-- src/llm_inference_systems/stage2_bundle.py: a bundle that is written, committed, read back, and one
-- whose commit fails.
use llm_inference_systems.Prelude.{
  ℕ, ◌≡◌, refl, Bool, true, false, none, some, List, [], ◌∷◌, ◌++◌, arith, codes, ok, err, returned,
  raised,
}
use llm_inference_systems.Sse.Codec.{Text}
use llm_inference_systems.Bundle.{
  BundleStateRecord, Stage2BundleManifest, StoredFile, Directory, World, invalid, commit_failed,
  inventory_differs, state_record_is_valid,
}
use llm_inference_systems.Bundle.Paths.{split_at, is_safe_relative, name_of, suffix_of}
use llm_inference_systems.Bundle.Builder.{
  Environment, io, install, durable_write, write_state_at, require_incomplete, check_evidence,
  write_evidence, invalidate,
}
use llm_inference_systems.Bundle.Validate.{
  Reconstructor, dict_eq, sorted_paths, inventory, validate_committed_bundle, inspect_bundle_state,
}
use llm_inference_systems.Bundle.Commit.{
  Builder, manifest_is_valid, check_output, validate_reconstruction, validate_staging,
  unlink_manifest, record_commit_failure_at, record_commit_failure, rename_staging, move_to_final,
  unlink_state, publish, recover, publish_or_recover, commit_valid, commit,
}
use llm_inference_systems.Bundle.Commit.Publish.{sealed, manifest_of}
use llm_inference_systems.Bundle.Commit.Committed.{manifest_for, commit-validates}
use llm_inference_systems.Bundle.Commit.Succeeds.{commit-succeeds}
use llm_inference_systems.Bundle.Commit.Failed.{bundle_of, publish_or_recover-invalid}
use llm_inference_systems.Bundle.Evidence.{IsAppended, write_evidence-IsAppended}
use llm_inference_systems.Bundle.Refines.{life, Step, seal, run, run-Step}
use llm_inference_systems.Bundle.Closed.{Refuses, closed-Refuses}

abbrev environment : Environment
environment = record {
  decode_utf8 = λ b. some b;
  is_private = λ t. false;
  sha256_hex = λ b. b;
  identity = λ pairs. codes "identity";
  state_size = λ r. 100;
  manifest_size = λ m. 500;
}

abbrev builder : Builder
builder = record {
  repetition_index = 1;
  source_commit = codes "0123456789abcdef0123456789abcdef01234567";
}

-- One summary, whatever the raw evidence.
abbrev reconstruct : Reconstructor
reconstruct raw = some ((codes "derived/summary.json", codes "{}") ∷ [])

abbrev begun : BundleStateRecord
begun = record {
  is_invalid = false;
  phase = codes "CREATED";
  reason = none;
  last_valid_boundary = none;
  sequence = 1;
}

abbrev stored : Text → Text → ℕ → StoredFile
stored path content at = record { path = path; content = content; modified = at }

abbrev staged_with : List StoredFile → Directory
staged_with files = record { state = some begun; manifest = none; files = files }

abbrev staged : Directory
staged = staged_with (
    stored (codes "raw/server.log") (codes "ok") 3
    ∷ stored (codes "derived/summary.json") (codes "{}") 5
    ∷ [])

abbrev world_with : Directory → List Bool → World
world_with d faults = record {
  staging = some d;
  final = none;
  sequence = 1;
  clock = 7;
  faults = faults;
}

abbrev made : Stage2BundleManifest
made = manifest_for environment builder reconstruct staged (codes "identity") 7

abbrev committed_world : World
committed_world = record {
  staging = none;
  final = some (sealed environment staged made 8);
  sequence = 1;
  clock = 9;
  faults = [];
}

commit_run :
    commit environment builder reconstruct false (world_with staged [])
    ≡ returned made committed_world
unfolding commit require_incomplete validate_staging validate_reconstruction is_safe_relative
    split_at dict_eq inventory sorted_paths name_of commit_valid manifest_is_valid
    publish_or_recover publish move_to_final io rename_staging durable_write install check_output
    unlink_state
commit_run = refl

commit-validates_example :
    (committed_world.staging ≡ none)
    × (validate_committed_bundle environment committed_world.final reconstruct ≡ ok made)
unfolding name_of split_at
commit-validates_example =
    commit-validates environment builder reconstruct false made staged (world_with staged [])
      committed_world refl refl refl commit_run

incomplete_run :
    require_incomplete environment (world_with staged []) ≡ returned tt (world_with staged [])
unfolding require_incomplete
incomplete_run = refl

staged_run : validate_staging environment staged reconstruct ≡ ok (codes "identity")
unfolding validate_staging validate_reconstruction is_safe_relative split_at dict_eq inventory
    sorted_paths name_of
staged_run = refl

made_is_valid : manifest_is_valid made ≡ true
unfolding manifest_is_valid inventory sorted_paths name_of split_at
made_is_valid = refl

commit-succeeds_example :
    (v : World) × (commit environment builder reconstruct false (world_with staged [])
      ≡ returned made v)
    × (v.staging ≡ none)
    × (v.final ≡ some (sealed environment staged made 8))
commit-succeeds_example =
    commit-succeeds environment builder reconstruct (world_with staged []) staged (codes "identity")
      refl refl refl incomplete_run staged_run made_is_valid (omega arith)

-- The sync after the rename fails: the failure is recorded in the final directory.
abbrev failed_world : World
failed_world = record {
  staging = none;
  final = some (record staged {
    state = some (record {
      is_invalid = true;
      phase = codes "COMMIT";
      reason = some (codes "DURABILITY_OPERATION_FAILED");
      last_valid_boundary = some (codes "RECONSTRUCTION_VALIDATED");
      sequence = 2;
    });
  });
  sequence = 2;
  clock = 8;
  faults = [];
}

failed_run :
    publish_or_recover environment made (world_with staged (false ∷ false ∷ true ∷ []))
    ≡ raised commit_failed failed_world
unfolding publish_or_recover publish move_to_final io rename_staging recover record_commit_failure
    record_commit_failure_at unlink_manifest write_state_at state_record_is_valid durable_write
    install
failed_run = refl

publish_or_recover-invalid_example :
    (inspect_bundle_state environment (bundle_of environment failed_world) ≡ ok invalid)
    × (manifest_of failed_world.staging ≡ none)
publish_or_recover-invalid_example =
    publish_or_recover-invalid environment made staged
      (world_with staged (false ∷ false ∷ true ∷ [])) failed_world refl refl failed_run

abbrev appended_world : World
appended_world = record {
  staging = some (record staged {
    state = some (record {
      is_invalid = false;
      phase = codes "EVIDENCE_RETAINED";
      reason = none;
      last_valid_boundary = some (codes "raw/a.txt");
      sequence = 2;
    });
    files = staged.files ++ stored (codes "raw/a.txt") (codes "x") 7 ∷ [];
  });
  final = none;
  sequence = 2;
  clock = 9;
  faults = [];
}

append_run :
    write_evidence environment (codes "raw/a.txt") (codes "x") (codes "raw") (world_with staged [])
    ≡ returned tt appended_world
unfolding write_evidence require_incomplete check_evidence is_safe_relative split_at suffix_of
    name_of durable_write io install write_state_at state_record_is_valid
append_run = refl

write_evidence-IsAppended_example :
    IsAppended environment
      (codes "raw/a.txt")
      (codes "x")
      (codes "raw")
      (world_with staged [])
      appended_world
write_evidence-IsAppended_example =
    write_evidence-IsAppended environment (codes "raw/a.txt") (codes "x") (codes "raw")
      (world_with staged []) appended_world append_run

closed-Refuses_example :
    Refuses
      (write_evidence environment (codes "raw/a.txt") (codes "x") (codes "raw"))
      committed_world
    × Refuses (invalidate environment (codes "P") (codes "R") none) committed_world
    × Refuses (commit environment builder reconstruct false) committed_world
closed-Refuses_example =
    closed-Refuses environment committed_world refl (codes "raw/a.txt") (codes "raw") (codes "P")
      (codes "R") (codes "x") none builder reconstruct false

sealed_run :
    run environment builder reconstruct seal (world_with staged []) ≡ returned tt committed_world
unfolding run
sealed_run = rw commit_run refl

run-Step_example : Step (life (world_with staged [])) seal (life committed_world)
run-Step_example =
    run-Step environment builder reconstruct seal (world_with staged []) committed_world refl
      sealed_run

-- Evidence that has the name of a control file is written and committed, but the inventory leaves it
-- out, and the committed bundle is refused.
abbrev hidden : Directory
hidden = staged_with (
    stored (codes "raw/server.log") (codes "ok") 3
    ∷ stored (codes "raw/bundle-state.json") (codes "{}") 4
    ∷ stored (codes "derived/summary.json") (codes "{}") 5
    ∷ [])

hidden_written :
    check_evidence environment (codes "raw/bundle-state.json") (codes "{}") (codes "raw") ≡ ok tt
unfolding check_evidence is_safe_relative split_at suffix_of name_of
hidden_written = refl

abbrev hidden_world : World
hidden_world = record {
  staging = none;
  final = some (
      sealed environment hidden
        (manifest_for environment builder reconstruct hidden (codes "identity") 7) 8);
  sequence = 1;
  clock = 9;
  faults = [];
}

hidden_committed :
    commit environment builder reconstruct false (world_with hidden [])
    ≡ returned
        (manifest_for environment builder reconstruct hidden (codes "identity") 7)
        hidden_world
unfolding commit require_incomplete validate_staging validate_reconstruction is_safe_relative
    split_at dict_eq inventory sorted_paths name_of commit_valid manifest_is_valid
    publish_or_recover publish move_to_final io rename_staging durable_write install check_output
    unlink_state
hidden_committed = refl

hidden_refused :
    validate_committed_bundle environment hidden_world.final reconstruct ≡ err inventory_differs
unfolding validate_committed_bundle sorted_paths name_of split_at inventory
hidden_refused = refl
