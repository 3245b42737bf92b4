-- ===== src/Bundle/Validate.antt =====
-- src/llm_inference_systems/stage2_bundle.py: the inventory and the reconstruction of a directory,
-- inspect_bundle_state and validate_committed_bundle. The hash and the caller's reconstruction are
-- parameters; the reconstruction may raise, and a dict is an association list.
pub mod Entries
use llm_inference_systems.Prelude.{
  ℕ, Bool, true, false, ◌&&◌, ◌||◌, not, Option, none, some, List, [], ◌∷◌, ◌++◌, map, ltb, ◌==◌,
  if◌then◌else◌, codes, length, all, select, list_eq, Result, ok, err, texts_eq,
}
use llm_inference_systems.Sse.Codec.{Text}
use llm_inference_systems.Bundle.{
  Bytes, BundleState, incomplete, committed, state_of, BundleFileEntry, StoredFile, StoredManifest,
  Stage2BundleManifest, Directory, BundleError, missing_directory, not_committed, inventory_differs,
  file_differs, manifest_older, identity_differs, irreconstructable, validation_failed,
}
use llm_inference_systems.Bundle.Paths.{first_part, name_of}
use llm_inference_systems.Bundle.Builder.{Environment}

abbrev pub Dict : Type 0
Dict = List (Text × Bytes)

-- Callable[[dict[str, bytes]], dict[str, bytes]], with none where it raises.
abbrev pub Reconstructor : Type 0
Reconstructor = Dict → Option Dict

abbrev pub dict_get {ℓ} : {A : Type ℓ} → Text → List (Text × A) → Option A
dict_get key [] = none
dict_get key (p ∷ dict) = if list_eq p.0 key then some p.1 else dict_get key dict

abbrev holds : Dict → Text × Bytes → Bool
holds dict p = elim (dict_get p.0 dict) [ none ↦ false | some content ↦ list_eq content p.1 ]

-- The equality of two dicts, whatever the order of their keys.
unfoldable pub dict_eq : Dict → Dict → Bool
dict_eq a b = all (holds b) a && all (holds a) b

-- The order of texts, by code points.
abbrev pub text_leb : Text → Text → Bool
text_leb [] ys = true
text_leb (x ∷ xs) [] = false
text_leb (x ∷ xs) (y ∷ ys) = let rest = text_leb xs ys in if x == y then rest else ltb x y

abbrev pub insert_text : Text → List Text → List Text
insert_text x [] = x ∷ []
insert_text x (y ∷ ys) =
    let rest = insert_text x ys in if text_leb x y then x ∷ y ∷ ys else y ∷ rest

-- sorted(paths)
unfoldable pub sorted_paths : List Text → List Text
sorted_paths [] = []
sorted_paths (x ∷ xs) = insert_text x (sorted_paths xs)

abbrev pub is_control_name : Text → Bool
is_control_name name =
    list_eq name (codes "bundle-state.json") || list_eq name (codes "evidence-manifest.json")

-- {path: bytes} of the files beneath a first part.
abbrev pub beneath : Text → List StoredFile → Dict
beneath prefix files =
    map (λ f. (f.path, f.content)) (select (λ f. list_eq (first_part f.path) prefix) files)

abbrev pub stored_at : Text → List StoredFile → Option StoredFile
stored_at path [] = none
stored_at path (f ∷ files) = if list_eq f.path path then some f else stored_at path files

module _ (E : Environment) where
  -- One entry of `_inventory`; every listed path has a file.
  abbrev pub entry_of : List StoredFile → Text → BundleFileEntry
  entry_of files path = record {
    path = path;
    sha256 = elim (stored_at path files) [ none ↦ [] | some f ↦ E.sha256_hex f.content ];
    size = elim (stored_at path files) [ none ↦ 0 | some f ↦ length f.content ];
  }

  -- `_inventory`
  unfoldable pub inventory : Directory → List BundleFileEntry
  inventory d = map (entry_of d.files) (
      sorted_paths
        (map (λ f. f.path) (select (λ f. not (is_control_name (name_of f.path))) d.files)))

  -- sha256_identity({path: sha256 of the data}), whose JSON sorts the keys.
  abbrev pub reconstruction_identity : Dict → Text
  reconstruction_identity actual = E.identity (map (λ p. (p.0, E.sha256_hex p.1)) actual)

  -- `inspect_bundle_state`; a directory that is missing is an error.
  unfoldable pub inspect_bundle_state : Option Directory → Result BundleError BundleState
  inspect_bundle_state none = err missing_directory
  inspect_bundle_state (some d) = elim d.manifest [
    | some m ↦ ok committed
    | none ↦ elim d.state [ none ↦ ok incomplete | some r ↦ ok (state_of r) ]
  ]

  -- The loop over the manifest's entries.
  unfoldable pub check_entry : List StoredFile → ℕ → BundleFileEntry → Result BundleError (Unit {0})
  check_entry files manifest_mtime entry = elim (stored_at entry.path files) [
    | none ↦ err file_differs
    | some f ↦
        if not (length f.content == entry.size)
          || not (list_eq (E.sha256_hex f.content) entry.sha256)
        then err file_differs
        else if ltb manifest_mtime f.modified
        then err manifest_older
        else ok tt
  ]

  unfoldable pub check_entries :
      List StoredFile → ℕ → List BundleFileEntry → Result BundleError (Unit {0})
  check_entries files manifest_mtime [] = ok tt
  check_entries files manifest_mtime (entry ∷ entries) =
      let rest = check_entries files manifest_mtime entries in
      elim (check_entry files manifest_mtime entry) [ err e ↦ err e | ok _ ↦ rest ]

  -- sorted(...) of every file but the manifest: the state's file counts where it is still there.
  abbrev pub all_paths : Directory → List Text
  all_paths d = sorted_paths (
      elim d.state [ none ↦ [] | some r ↦ codes "bundle-state.json" ∷ [] ]
      ++ map (λ f. f.path)
          (select (λ f. not (list_eq (name_of f.path) (codes "evidence-manifest.json"))) d.files))

  -- The reconstruction of the derived evidence, and its identity.
  unfoldable pub check_reconstruction :
      Directory → Reconstructor → Stage2BundleManifest → Result BundleError Stage2BundleManifest
  check_reconstruction d reconstruct manifest = elim (reconstruct (beneath (codes "raw") d.files)) [
    | none ↦ err validation_failed
    | some expected ↦
        if not (dict_eq expected (beneath (codes "derived") d.files))
        then err irreconstructable
        else if not (
            list_eq (reconstruction_identity (beneath (codes "derived") d.files))
              manifest.reconstruction_sha256)
        then err identity_differs
        else ok manifest
  ]

  unfoldable pub validate_committed_bundle :
      Option Directory → Reconstructor → Result BundleError Stage2BundleManifest
  validate_committed_bundle none reconstruct = err missing_directory
  validate_committed_bundle (some d) reconstruct = elim d.manifest [
    | none ↦ err not_committed
    | some stored ↦
        if not (texts_eq (all_paths d) (map (λ e. e.path) stored.manifest.files))
        then err inventory_differs
        else elim (check_entries d.files stored.modified stored.manifest.files) [
          | err e ↦ err e
          | ok _ ↦ check_reconstruction d reconstruct stored.manifest
        ]
  ]
