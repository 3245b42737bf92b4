-- ===== src/Bundle.antt =====
-- src/llm_inference_systems/stage2_bundle.py: a bundle in its staging and its final directory. A
-- directory holds its two control files, as the records that they parse to, and the evidence files by
-- their paths below it; a file's time of modification is the world's clock. Every operation of the file
-- system and every sync that the code waits for may fail: `faults` says which of the next ones do.
pub mod Paths
pub mod Builder
pub mod Commit
pub mod Validate
pub mod Evidence
pub mod Closed
pub mod Refines
mod Tests
use llm_inference_systems.Prelude.{
  ℕ, Bool, true, ◌&&◌, not, Option, none, some, List, leb, if◌then◌else◌, is_some, length,
}
use llm_inference_systems.Sse.Codec.{Text}

abbrev pub Bytes : Type 0
Bytes = List ℕ

pub data BundleState : Type 0 where
  incomplete invalid committed : BundleState

-- BundleStateRecord: INCOMPLETE or INVALID.
pub record BundleStateRecord : Type 0 where
  pub is_invalid : Bool
  pub phase : Text
  pub reason : Option Text
  pub last_valid_boundary : Option Text
  pub sequence : ℕ

abbrev is_identifier : Text → Bool
is_identifier t = leb 1 (length t) && leb (length t) 160

abbrev is_optional_identifier : Option Text → Bool
is_optional_identifier none = true
is_optional_identifier (some t) = is_identifier t

-- The fields and `validate_reason`.
unfoldable pub state_record_is_valid : BundleStateRecord → Bool
state_record_is_valid r =
    is_identifier r.phase
    && (is_optional_identifier r.reason
        && (is_optional_identifier r.last_valid_boundary
            && (if r.is_invalid then is_some r.reason else not (is_some r.reason))))

abbrev pub state_of : BundleStateRecord → BundleState
state_of r = if r.is_invalid then invalid else incomplete

pub record BundleFileEntry : Type 0 where
  pub path : Text
  pub sha256 : Text
  pub size : ℕ

pub record Stage2BundleManifest : Type 0 where
  pub repetition_index : ℕ
  pub source_commit : Text
  pub created_at_utc : ℕ
  pub files : List BundleFileEntry
  pub reconstruction_sha256 : Text

pub record StoredFile : Type 0 where
  pub path : Text
  pub content : Bytes
  pub modified : ℕ

pub record StoredManifest : Type 0 where
  pub manifest : Stage2BundleManifest
  pub modified : ℕ

pub record Directory : Type 0 where
  pub state : Option BundleStateRecord
  pub manifest : Option StoredManifest
  pub files : List StoredFile

pub record World : Type 0 where
  pub staging : Option Directory
  pub final : Option Directory
  pub sequence : ℕ
  pub clock : ℕ
  pub faults : List Bool

pub data BundleError : Type 0 where
  os_error invalid_record unsafe_name already_exists size_limit no_state not_incomplete :
      BundleError
  unsafe_path wrong_prefix binary_evidence not_utf8 private_material replaced not_a_directory :
      BundleError
  no_staging escaped irreconstructable no_raw no_derived : BundleError
  validation_failed simulated_crash no_directory unconfirmed commit_failed : BundleError
  missing_directory not_committed inventory_differs file_differs manifest_older identity_differs :
      BundleError

pub data Place : Type 0 where
  in_staging in_final : Place
