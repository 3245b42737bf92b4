-- ===== src/Bundle/Commit.antt =====
-- src/llm_inference_systems/stage2_bundle.py: Stage2BundleBuilder.commit, with its recovery. `except
-- OSError` catches os_error alone.
pub mod Publish
pub mod Committed
pub mod Succeeds
pub mod Failed
use llm_inference_systems.Prelude.{
  Option, length, ◌==◌, none, ℕ, Bool, true, false, ◌&&◌, ◌||◌, not, some, List, [], ◌∷◌, map, leb,
  if◌then◌else◌, is_some, codes, all, any, list_eq, Result, ok, err, returned, raised, Action,
  then_do, ◌>>◌, raise, pairs_hold, is_prefix, distinct, mem,
}
use llm_inference_systems.Sse.Codec.{Text}
use llm_inference_systems.Bundle.{
  Bytes, BundleFileEntry, Stage2BundleManifest, StoredManifest, Directory, World, BundleError,
  os_error, invalid_record, escaped, irreconstructable, no_raw, no_derived, validation_failed,
  simulated_crash, no_directory, unconfirmed, commit_failed, unsafe_path, Place, in_staging,
  in_final,
}
use llm_inference_systems.Bundle.Paths.{is_safe_relative, first_part}
use llm_inference_systems.Bundle.Builder.{
  Environment, io, install, durable_write, write_state_at, require_incomplete, invalidate,
  directory_at,
}
use llm_inference_systems.Bundle.Validate.{
  Dict, Reconstructor, dict_eq, beneath, inventory, reconstruction_identity, text_leb,
}

abbrev is_hex_digit : ℕ → Bool
is_hex_digit c = leb 48 c && leb c 57 || leb 97 c && leb c 102

-- What the constructor was given.
pub record Builder : Type 0 where
  pub repetition_index : ℕ
  pub source_commit : Text

-- The fields of Stage2BundleManifest and `validate_manifest`.
unfoldable pub manifest_is_valid : Stage2BundleManifest → Bool
manifest_is_valid m =
    let paths = map (λ e. e.path) m.files in
    leb 1 m.repetition_index
    && (leb m.repetition_index 3
        && (length m.source_commit == 40
            && (all is_hex_digit m.source_commit
                && (not (length m.files == 0)
                    && (pairs_hold text_leb paths
                        && (distinct list_eq paths
                            && not (mem list_eq (codes "evidence-manifest.json") paths)))))))

-- f"raw/" and f"derived/": an entry whose path starts so.
abbrev has_prefix : Text → List BundleFileEntry → Bool
has_prefix prefix entries = any (λ e. is_prefix prefix e.path) entries

module _ (E : Environment) where
  -- Every path of the reconstruction's output is safe and beneath derived/.
  unfoldable pub check_output : Dict → Result BundleError (Unit {0})
  check_output [] = ok tt
  check_output (p ∷ output) =
      let rest = check_output output in
      if not (is_safe_relative p.0)
      then err unsafe_path
      else if not (list_eq (first_part p.0) (codes "derived"))
      then err escaped
      else rest

  -- `_validate_reconstruction`
  unfoldable pub validate_reconstruction : Directory → Reconstructor → Result BundleError Text
  unfolding check_output
  validate_reconstruction d reconstruct = elim (reconstruct (beneath (codes "raw") d.files)) [
    | none ↦ err validation_failed
    | some expected ↦ elim (check_output expected) [
      | err e ↦ err e
      | ok _ ↦
          if not (dict_eq expected (beneath (codes "derived") d.files))
          then err irreconstructable
          else ok (reconstruction_identity E (beneath (codes "derived") d.files))
    ]
  ]

  -- The body of the first `try`: the identity of the reconstruction; the inventory is as it should be.
  unfoldable pub validate_staging : Directory → Reconstructor → Result BundleError Text
  validate_staging d reconstruct = elim (validate_reconstruction d reconstruct) [
    | err e ↦ err e
    | ok identity ↦
        if not (has_prefix (codes "raw/") (inventory E d))
        then err no_raw
        else if not (has_prefix (codes "derived/") (inventory E d))
        then err no_derived
        else ok identity
  ]

  -- The manifest is unlinked where there is one.
  unfoldable pub unlink_manifest : Place → Action BundleError World (Unit {0})
  unlink_manifest place w = elim (directory_at place w) [
    | none ↦ raised no_directory w
    | some d ↦ elim d.manifest [
      | none ↦ returned tt w
      | some m ↦ then_do (io w) (λ _. install place (λ _ d. record d { manifest = none }))
    ]
  ]

  -- `_record_commit_failure`, in the directory that is there.
  unfoldable pub record_commit_failure_at : Place → Action BundleError World (Unit {0})
  record_commit_failure_at place =
      unlink_manifest place
      >> write_state_at E place true (codes "COMMIT") (some (codes "DURABILITY_OPERATION_FAILED"))
          (some (codes "RECONSTRUCTION_VALIDATED"))

  unfoldable pub record_commit_failure : Action BundleError World (Unit {0})
  record_commit_failure w = elim w.final [
    | none ↦ record_commit_failure_at in_staging w
    | some d ↦ (record_commit_failure_at in_final >> io) w
  ]

  -- A directory that holds anything; an empty one gives way to the staging directory.
  abbrev pub is_occupied : Option Directory → Bool
  is_occupied none = false
  is_occupied (some d) = is_some d.state || (is_some d.manifest || not (length d.files == 0))

  -- os.replace of the staging directory by its final name.
  unfoldable pub rename_staging : Action BundleError World (Unit {0})
  rename_staging w = elim w.staging [
    | none ↦ raised os_error w
    | some d ↦
        if is_occupied w.final
        then raised os_error w
        else returned tt (record w { staging = none; final = some d })
  ]

  -- The body of the second `try`: the staging directory is synced, moved, and synced in its parent;
  -- the state's file is unlinked, and the manifest is written last.
  unfoldable pub move_to_final : Action BundleError World (Unit {0})
  move_to_final = io >> io >> rename_staging >> io

  unfoldable pub unlink_state : Action BundleError World (Unit {0})
  unlink_state = io >> install in_final (λ _ d. record d { state = none }) >> io

  unfoldable pub publish : Stage2BundleManifest → Action BundleError World (Unit {0})
  publish manifest =
      move_to_final
      >> unlink_state
      >> durable_write in_final (E.manifest_size manifest)
          (λ now d. record d { manifest = some (record { manifest = manifest; modified = now }) })

  -- The handler of the second `try`.
  unfoldable pub recover : Action BundleError World Stage2BundleManifest
  recover w = elim (record_commit_failure w) [
    | returned _ after ↦ raised commit_failed after
    | raised e after ↦ raised unconfirmed after
  ]

  abbrev pub is_os_error : BundleError → Bool
  is_os_error os_error = true
  is_os_error _ = false

  unfoldable pub publish_or_recover :
      Stage2BundleManifest → Action BundleError World Stage2BundleManifest
  publish_or_recover manifest w = elim (publish manifest w) [
    | returned _ after ↦ returned manifest after
    | raised e after ↦ if is_os_error e then recover after else raised e after
  ]

  -- After the validation: the manifest is made, and published.
  unfoldable pub commit_valid :
      Builder → Directory → Text → Bool → Action BundleError World Stage2BundleManifest
  commit_valid builder d identity crash_before_manifest w =
      let manifest : Stage2BundleManifest = record {
        repetition_index = builder.repetition_index;
        source_commit = builder.source_commit;
        created_at_utc = w.clock;
        files = inventory E d;
        reconstruction_sha256 = identity;
      } in
      if crash_before_manifest
      then raised simulated_crash w
      else if not (manifest_is_valid manifest)
      then raised invalid_record w
      else publish_or_recover manifest w

  -- The handler of the first `try`.
  unfoldable pub refuse : BundleError → Action BundleError World Stage2BundleManifest
  refuse e =
      invalidate E (codes "COMMIT_VALIDATION") (codes "RECONSTRUCTION_OR_INVENTORY_INVALID")
        (some (codes "RAW_EVIDENCE_RETAINED"))
      >> raise e

  unfoldable pub commit :
      Builder → Reconstructor → Bool → Action BundleError World Stage2BundleManifest
  commit builder reconstruct crash_before_manifest = require_incomplete E >> (λ w. elim w.staging [
    | none ↦ raised os_error w
    | some d ↦ elim (validate_staging d reconstruct) [
      | ok identity ↦ commit_valid builder d identity crash_before_manifest w
      | err e ↦ refuse e w
    ]
  ])
