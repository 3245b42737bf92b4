-- ===== src/Bundle/Commit/Committed.antt =====
-- src/llm_inference_systems/stage2_bundle.py: a bundle whose commit returned passes
-- validate_committed_bundle.
use llm_inference_systems.Prelude.{
  ℕ, ◌≤◌, ◌≡◌, refl, sym, inl, inr, Bool, true, not, none, some, List, [], ◌∷◌, map, arith, leb,
  Bool-cases, Option-cases, codes, all, list_eq, list_eq_refl, ok, Result-cases, Outcome-cases,
  returned, texts_eq,
}
use llm_inference_systems.Sse.Codec.{Text}
use llm_inference_systems.Bundle.{
  Stage2BundleManifest, StoredManifest, Directory, World, BundleError,
}
use llm_inference_systems.Bundle.Paths.{name_of}
use llm_inference_systems.Bundle.Builder.{Environment, require_incomplete, invalidate}
use llm_inference_systems.Bundle.Validate.{
  Dict, Reconstructor, dict_eq, beneath, inventory, reconstruction_identity, is_control_name,
  check_entries, check_reconstruction, validate_committed_bundle, all_paths,
}
use llm_inference_systems.Bundle.Validate.Entries.{inventory-paths, inventory_ok}
use llm_inference_systems.Bundle.Commit.{
  Builder, validate_reconstruction, validate_staging, commit_valid, publish, publish_or_recover,
  recover, commit, record_commit_failure, check_output, refuse,
}
use llm_inference_systems.Bundle.Commit.Publish.{sealed, publish_returned}

module _ (E : Environment) (builder : Builder) (reconstruct : Reconstructor) where
  -- The manifest that the commit of a directory makes at a time.
  abbrev pub manifest_for : Directory → Text → ℕ → Stage2BundleManifest
  manifest_for d identity now = record {
    repetition_index = builder.repetition_index;
    source_commit = builder.source_commit;
    created_at_utc = now;
    files = inventory E d;
    reconstruction_sha256 = identity;
  }

  commit_valid_returned :
      (d : Directory) (identity : Text) (crash : Bool) (m : Stage2BundleManifest) (w v : World)
      → commit_valid E builder d identity crash w ≡ returned m v
      → publish_or_recover E (manifest_for d identity w.clock) w ≡ returned m v
  unfolding commit_valid
  commit_valid_returned d identity crash m w v e = ground (arith, e)

  recover_raises : (m : Stage2BundleManifest) (w v : World) → recover E w ≡ returned m v → ⊥
  unfolding recover
  recover_raises m w v e = elim (Outcome-cases (record_commit_failure E w)) [
    | inl (_, x, r) ↦ ground (arith, e, r)
    | inr (y, x, r) ↦ ground (arith, e, r)
  ]

  publish_or_recover_returned :
      (manifest m : Stage2BundleManifest) (w v : World)
      → publish_or_recover E manifest w ≡ returned m v
      → (m ≡ manifest) × (publish E manifest w ≡ returned tt v)
  unfolding publish_or_recover
  publish_or_recover_returned manifest m w v e = elim (Outcome-cases (publish E manifest w)) [
    | inl (_, x, r) ↦ ground (arith, e, r)
    | inr (y, x, r) ↦ absurd (recover_raises m x v (ground (arith, e, r)))
  ]

  require_incomplete_same : (w v : World) → require_incomplete E w ≡ returned tt v → v ≡ w
  unfolding require_incomplete
  require_incomplete_same w v e = ground (arith, e)

  refuse_raises :
      (x : BundleError) (m : Stage2BundleManifest) (w v : World) → refuse E x w ≡ returned m v → ⊥
  unfolding refuse
  refuse_raises x m w v e =
      elim (Outcome-cases (
        invalidate E (codes "COMMIT_VALIDATION") (codes "RECONSTRUCTION_OR_INVENTORY_INVALID")
          (some (codes "RAW_EVIDENCE_RETAINED")) w)) [
            | inl (_, y, r) ↦ ground (arith, e, r)
            | inr (z, y, r) ↦ ground (arith, e, r)
          ]

  pub commit_returned :
      (crash : Bool) (m : Stage2BundleManifest) (w v : World)
      → commit E builder reconstruct crash w ≡ returned m v
      → (d : Directory) × (identity : Text) × (w.staging ≡ some d)
        × (validate_staging E d reconstruct ≡ ok identity)
        × (m ≡ manifest_for d identity w.clock)
        × (publish E m w ≡ returned tt v)
  unfolding commit
  commit_returned crash m w v e = elim (Outcome-cases (require_incomplete E w)) [
    | inr (y, x, r) ↦ ground (arith, e, r)
    | inl (_, x, r) ↦
        let same = require_incomplete_same w x r in
        elim (Option-cases w.staging) [
          | inl n ↦ ground (arith, e, r, same, n)
          | inr (d, n) ↦ elim (Result-cases (validate_staging E d reconstruct)) [
            | inr (y, q) ↦ absurd (refuse_raises y m w v (ground (arith, e, r, same, n, q)))
            | inl (identity, q) ↦
                let valid : commit_valid E builder d identity crash w ≡ returned m v =
                  ground (arith, e, r, same, n, q) in
                let (made, published) =
                  publish_or_recover_returned (manifest_for d identity w.clock) m w v
                    (commit_valid_returned d identity crash m w v valid) in
                (d, identity, n, q, made, rw (sym made) at published)
          ]
        ]
  ]

  validate_staging_effect :
      (d : Directory) (identity : Text)
      → validate_staging E d reconstruct ≡ ok identity
      → validate_reconstruction E d reconstruct ≡ ok identity
  unfolding validate_staging
  validate_staging_effect d identity e =
      elim (Result-cases (validate_reconstruction E d reconstruct)) [
        | inr (x, r) ↦ ground (arith, e, r)
        | inl (i, r) ↦ ground (arith, e, r)
      ]

  validate_reconstruction_effect :
      (d : Directory) (identity : Text)
      → validate_reconstruction E d reconstruct ≡ ok identity
      → (expected : Dict) × (reconstruct (beneath (codes "raw") d.files) ≡ some expected)
        × (dict_eq expected (beneath (codes "derived") d.files) ≡ true)
        × (identity ≡ reconstruction_identity E (beneath (codes "derived") d.files))
  unfolding validate_reconstruction
  validate_reconstruction_effect d identity e =
      elim (Option-cases (reconstruct (beneath (codes "raw") d.files))) [
        | inl n ↦ ground (arith, e, n)
        | inr (expected, n) ↦ elim (Result-cases (check_output E expected)) [
          | inr (x, r) ↦ ground (arith, e, n, r)
          | inl (_, r) ↦ elim (Bool-cases (dict_eq expected (beneath (codes "derived") d.files))) [
            | inl b ↦ (expected, n, b, ground (arith, e, n, r, b))
            | inr b ↦ ground (arith, e, n, r, b)
          ]
        ]
      ]

  check_reconstruction_parts :
      (c : Directory) (manifest : Stage2BundleManifest) (expected : Dict)
      → reconstruct (beneath (codes "raw") c.files) ≡ some expected
      → dict_eq expected (beneath (codes "derived") c.files) ≡ true
      → list_eq
          (reconstruction_identity E (beneath (codes "derived") c.files))
          manifest.reconstruction_sha256
        ≡ true
      → check_reconstruction E c reconstruct manifest ≡ ok manifest
  unfolding check_reconstruction
  check_reconstruction_parts c manifest expected n b h = ground (arith, n, b, h)

  check_reconstruction_ok :
      (d : Directory) (identity : Text) (manifest : Stage2BundleManifest) (now : ℕ)
      → validate_staging E d reconstruct ≡ ok identity
      → manifest.reconstruction_sha256 ≡ identity
      → check_reconstruction E (sealed E d manifest now) reconstruct manifest ≡ ok manifest
  check_reconstruction_ok d identity manifest now e hash =
      let (expected, n, b, i) =
        validate_reconstruction_effect d identity (validate_staging_effect d identity e) in
      check_reconstruction_parts (sealed E d manifest now) manifest expected n b (
        rw (hash, i) (list_eq_refl (reconstruction_identity E (beneath (codes "derived") d.files))))

  texts_eq_refl : (xs : List Text) → texts_eq xs xs ≡ true
  texts_eq_refl [] = refl
  texts_eq_refl (x ∷ xs) = rw (list_eq_refl x) (texts_eq_refl xs)

  validate_parts :
      (c : Directory) (manifest : Stage2BundleManifest) (now : ℕ)
      → c.manifest ≡ some (record { manifest = manifest; modified = now })
      → texts_eq (all_paths E c) (map (λ e. e.path) manifest.files) ≡ true
      → check_entries E c.files now manifest.files ≡ ok tt
      → check_reconstruction E c reconstruct manifest ≡ ok manifest
      → validate_committed_bundle E (some c) reconstruct ≡ ok manifest
  unfolding validate_committed_bundle
  validate_parts c manifest now h listed entries rebuilt =
      ground (arith, h, listed, entries, rebuilt)

  validates :
      (d : Directory) (identity : Text) (manifest : Stage2BundleManifest) (now clock : ℕ)
      → manifest.files ≡ inventory E d
      → manifest.reconstruction_sha256 ≡ identity
      → validate_staging E d reconstruct ≡ ok identity
      → all (λ f. not (is_control_name (name_of f.path))) d.files ≡ true
      → all (λ f. leb f.modified clock) d.files ≡ true
      → clock ≤ now
      → validate_committed_bundle E (some (sealed E d manifest now)) reconstruct ≡ ok manifest
  validates d identity manifest now clock files hash e names old le =
      let stored : StoredManifest = record { manifest = manifest; modified = now } in
      let paths = inventory-paths E d (some stored) names in
      validate_parts (sealed E d manifest now) manifest now refl
        (rw (files, paths) (texts_eq_refl (map (λ e. e.path) (inventory E d))))
        (rw files (inventory_ok E d clock now names old le))
        (check_reconstruction_ok d identity manifest now e hash)

  -- A commit that returns has moved the bundle to its final directory, which validate_committed_bundle
  -- accepts with the manifest that was returned, if no evidence file has the name of a control file,
  -- and none was modified later than the clock.
  pub commit-validates :
      (crash : Bool) (m : Stage2BundleManifest) (d : Directory) (w v : World)
      → w.staging ≡ some d
      → all (λ f. not (is_control_name (name_of f.path))) d.files ≡ true
      → all (λ f. leb f.modified w.clock) d.files ≡ true
      → commit E builder reconstruct crash w ≡ returned m v
      → (v.staging ≡ none) × (validate_committed_bundle E v.final reconstruct ≡ ok m)
  commit-validates crash m d w v h names old e =
      let (d', identity, staged, valid, made, published) = commit_returned crash m w v e in
      let same : d' ≡ d = ground (arith, staged, h) in
      let (gone, (now, later, sealed_up)) = publish_returned E m d w v h published in
      let files : m.files ≡ inventory E d = rw (made, same) refl in
      let hash : m.reconstruction_sha256 ≡ identity = rw made refl in
      let accepted =
        validates d identity m now w.clock files hash (rw same at valid) names old later in
      (gone, rw sealed_up accepted)
