-- ===== src/Bundle/Builder.antt =====
-- src/llm_inference_systems/stage2_bundle.py: Stage2BundleBuilder, up to its commit. UTF-8, the scan for
-- private material and the hash are parameters; a directory below the bundle is there exactly if a
-- file is below it, and making one does not fail; symbolic links are not modelled.
pub mod Effects
use llm_inference_systems.Prelude.{
  ℕ, ◌+◌, ◌*◌, Bool, true, false, ◌&&◌, ◌||◌, not, Option, none, some, List, [], ◌∷◌, ◌++◌, ltb,
  leb, ◌==◌, if◌then◌else◌, is_some, codes, length, all, any, list_eq, Result, ok, err, Outcome,
  is_prefix, returned, raised, Action, ◌>>◌, lift, modify, raise_if, mem,
}
use llm_inference_systems.Sse.Codec.{Text}
use llm_inference_systems.Bundle.{
  Bytes, BundleState, incomplete, BundleStateRecord, state_record_is_valid, state_of, StoredFile,
  Directory, World, BundleError, os_error, invalid_record, unsafe_name, already_exists, size_limit,
  not_a_directory, no_state, not_incomplete, unsafe_path, wrong_prefix, binary_evidence, not_utf8,
  private_material, replaced, no_staging, Place, in_staging, in_final, Stage2BundleManifest,
}
use llm_inference_systems.Bundle.Paths.{is_safe_relative, first_part, suffix_of}

pub record Environment : Type 0 where
  pub decode_utf8 : Bytes → Option Text
  pub is_private : Text → Bool
  pub sha256_hex : Bytes → Text
  pub identity : List (Text × Text) → Text
  pub state_size : BundleStateRecord → ℕ
  pub manifest_size : Stage2BundleManifest → ℕ

abbrev pub max_stage2_file_bytes : ℕ
max_stage2_file_bytes = 16 * 1024 * 1024

abbrev allowed_text_suffixes : List Text
allowed_text_suffixes =
    codes ".json" ∷ codes ".jsonl" ∷ codes ".log" ∷ codes ".prom" ∷ codes ".txt" ∷ []

-- The first fault is the next operation's, and none is left at the end.
abbrev pub spend : List Bool → World → Outcome BundleError World (Unit {0})
spend [] w = returned tt w
spend (false ∷ faults) w = returned tt (record w { faults = faults })
spend (true ∷ faults) w = raised os_error (record w { faults = faults })

-- One operation of the file system, or one sync.
unfoldable pub io : Action BundleError World (Unit {0})
io w = spend w.faults w

abbrev pub directory_at : Place → World → Option Directory
directory_at in_staging w = w.staging
directory_at in_final w = w.final

abbrev pub put_directory : Place → Directory → World → World
put_directory in_staging d w = record w { staging = some d; clock = w.clock + 1 }
put_directory in_final d w = record w { final = some d; clock = w.clock + 1 }

-- os.replace of the temporary file: a missing directory is an OSError.
unfoldable pub install : Place → (ℕ → Directory → Directory) → Action BundleError World (Unit {0})
install place write w = elim (directory_at place w) [
  | none ↦ raised os_error w
  | some d ↦ returned tt (put_directory place (write w.clock d) w)
]

-- `_durable_write`: the temporary file is written and synced, replaces the file, and the directory is
-- synced. A failure after the replacement leaves the file there.
unfoldable pub durable_write :
    Place → ℕ → (ℕ → Directory → Directory) → Action BundleError World (Unit {0})
durable_write place size write =
    raise_if (ltb max_stage2_file_bytes size) size_limit >> io >> io >> install place write >> io

module _ (E : Environment) where
  -- `_write_state_at`: the sequence grows before anything can fail.
  unfoldable pub write_state_at :
      Place → Bool → Text → Option Text → Option Text → Action BundleError World (Unit {0})
  write_state_at place is_invalid phase reason last w =
      let r : BundleStateRecord = record {
        is_invalid = is_invalid;
        phase = phase;
        reason = reason;
        last_valid_boundary = last;
        sequence = w.sequence + 1;
      } in
      (raise_if (not (state_record_is_valid r)) invalid_record
          >> durable_write place (E.state_size r) (λ _ d. record d { state = some r }))
        (record w { sequence = w.sequence + 1 })

  -- `_require_incomplete`
  unfoldable pub require_incomplete : Action BundleError World (Unit {0})
  require_incomplete w = elim w.staging [
    | none ↦ raised no_state w
    | some d ↦ elim d.state [
      | none ↦ raised no_state w
      | some r ↦ if r.is_invalid then raised not_incomplete w else returned tt w
    ]
  ]

  -- A file at the path, or below it, which makes the path a directory.
  abbrev has_path : Text → StoredFile → Bool
  has_path path f = list_eq f.path path || is_prefix (path ++ codes "/") f.path

  -- Whether the directory has a file or a directory at the path.
  abbrev pub exists_at : Text → Option Directory → Bool
  exists_at path none = false
  exists_at path (some d) = any (has_path path) d.files

  -- Whether a directory above the path is a file.
  abbrev pub parent_is_file : Text → Option Directory → Bool
  parent_is_file path none = false
  parent_is_file path (some d) = any (λ f. is_prefix (f.path ++ codes "/") path) d.files

  abbrev pub add_file : Text → Bytes → ℕ → Directory → Directory
  add_file path content now d = record d {
    files = d.files ++ record { path = path; content = content; modified = now } ∷ [];
  }

  -- The tests of `_write_evidence`, in their order.
  unfoldable pub check_evidence : Text → Bytes → Text → Result BundleError (Unit {0})
  check_evidence relative content prefix =
      if not (is_safe_relative relative)
      then err unsafe_path
      else if not (list_eq (first_part relative) prefix)
      then err wrong_prefix
      else if not (mem list_eq (suffix_of relative) allowed_text_suffixes)
      then err binary_evidence
      else elim (E.decode_utf8 content) [
        | none ↦ err not_utf8
        | some text ↦ if E.is_private text then err private_material else ok tt
      ]

  -- `_write_evidence`
  unfoldable pub write_evidence : Text → Bytes → Text → Action BundleError World (Unit {0})
  write_evidence relative content prefix =
      require_incomplete
      >> lift (check_evidence relative content prefix)
      >> (λ w. raise_if (parent_is_file relative w.staging) not_a_directory w)
      >> (λ w. raise_if (exists_at relative w.staging) replaced w)
      >> durable_write in_staging (length content) (add_file relative content)
      >> write_state_at in_staging false (codes "EVIDENCE_RETAINED") none (some relative)

  unfoldable pub write_raw : Text → Bytes → Action BundleError World (Unit {0})
  write_raw relative content = write_evidence relative content (codes "raw")

  unfoldable pub write_derived : Text → Bytes → Action BundleError World (Unit {0})
  write_derived relative content = write_evidence relative content (codes "derived")

  -- `invalidate`
  unfoldable pub invalidate : Text → Text → Option Text → Action BundleError World (Unit {0})
  invalidate phase reason last =
      (λ w. raise_if (not (is_some w.staging)) no_staging w)
      >> require_incomplete
      >> write_state_at in_staging true phase (some reason) last

  -- [A-Za-z0-9], and [A-Za-z0-9._-]
  abbrev is_alphanumeric : ℕ → Bool
  is_alphanumeric c = leb 48 c && leb c 57 || (leb 65 c && leb c 90 || leb 97 c && leb c 122)

  abbrev is_name_character : ℕ → Bool
  is_name_character c = is_alphanumeric c || (c == 46 || (c == 95 || c == 45))

  -- [A-Za-z0-9][A-Za-z0-9._-]{0,79}
  unfoldable pub bundle_name_is_safe : Text → Bool
  bundle_name_is_safe [] = false
  bundle_name_is_safe (c ∷ rest) =
      is_alphanumeric c && (leb (length rest) 79 && all is_name_character rest)

  -- `__init__`: the directory is made, and its first state is written and synced.
  unfoldable pub create : Text → Action BundleError World (Unit {0})
  create bundle_name =
      raise_if (not (bundle_name_is_safe bundle_name)) unsafe_name
      >> (λ w. raise_if (is_some w.final || is_some w.staging) already_exists w)
      >> io
      >> modify
          (λ w. record w { staging = some (record { state = none; manifest = none; files = [] }) })
      >> write_state_at in_staging false (codes "CREATED") none none
      >> io
      >> io
