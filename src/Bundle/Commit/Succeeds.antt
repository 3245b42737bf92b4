-- ===== src/Bundle/Commit/Succeeds.antt =====
-- src/llm_inference_systems/stage2_bundle.py: without a fault, a bundle that is as it should be is
-- committed.
use llm_inference_systems.Prelude.{
  ℕ, ◌+◌, ◌≤◌, ◌≡◌, refl, true, false, none, some, [], arith, ok, returned,
}
use llm_inference_systems.Sse.Codec.{Text}
use llm_inference_systems.Bundle.{Stage2BundleManifest, Directory, World, in_final}
use llm_inference_systems.Bundle.Builder.{
  Environment, io, install, durable_write, max_stage2_file_bytes, put_directory, require_incomplete,
}
use llm_inference_systems.Bundle.Validate.{Reconstructor}
use llm_inference_systems.Bundle.Commit.{
  Builder, manifest_is_valid, validate_staging, rename_staging, move_to_final, unlink_state,
  publish, publish_or_recover, commit_valid, commit,
}
use llm_inference_systems.Bundle.Commit.Publish.{sealed}
use llm_inference_systems.Bundle.Commit.Committed.{manifest_for}

io_quiet : (w : World) → w.faults ≡ [] → io w ≡ returned tt w
unfolding io
io_quiet w h = rw h refl

module _ (E : Environment) where
  abbrev moved : World → Directory → World
  moved w d = record w { staging = none; final = some d }

  move_succeeds :
      (w : World) (d : Directory)
      → w.faults ≡ []
      → w.staging ≡ some d
      → w.final ≡ none
      → move_to_final E w ≡ returned tt (moved w d)
  unfolding move_to_final rename_staging
  move_succeeds w d h s f = ground (arith, io_quiet w h, s, f, io_quiet (moved w d) h)

  abbrev unlinked : World → Directory → World
  unlinked w d = put_directory in_final (record d { state = none }) (moved w d)

  unlink_succeeds :
      (w : World) (d : Directory)
      → w.faults ≡ []
      → unlink_state E (moved w d) ≡ returned tt (unlinked w d)
  unfolding unlink_state install
  unlink_succeeds w d h = ground (arith, io_quiet (moved w d) h, io_quiet (unlinked w d) h)

  abbrev finished : World → Directory → Stage2BundleManifest → World
  finished w d manifest = put_directory in_final (sealed E d manifest (w.clock + 1)) (unlinked w d)

  durable_write_succeeds :
      (w : World) (d : Directory) (manifest : Stage2BundleManifest) (size : ℕ)
      → w.faults ≡ []
      → size ≤ max_stage2_file_bytes
      → durable_write in_final size
          (λ now d. record d { manifest = some (record { manifest = manifest; modified = now }) })
          (unlinked w d)
        ≡ returned tt (finished w d manifest)
  unfolding durable_write install
  durable_write_succeeds w d manifest size h le =
      ground (arith, io_quiet (unlinked w d) h, io_quiet (finished w d manifest) h, le)

  publish_succeeds :
      (w : World) (d : Directory) (manifest : Stage2BundleManifest)
      → w.faults ≡ []
      → w.staging ≡ some d
      → w.final ≡ none
      → E.manifest_size manifest ≤ max_stage2_file_bytes
      → publish E manifest w ≡ returned tt (finished w d manifest)
  unfolding publish
  publish_succeeds w d manifest h s f le = ground (
    arith,
    move_succeeds w d h s f,
    unlink_succeeds w d h,
    durable_write_succeeds w d manifest (E.manifest_size manifest) h le,
  )

module _ (E : Environment) (builder : Builder) (reconstruct : Reconstructor) where
  commit_valid_succeeds :
      (w v : World) (d : Directory) (identity : Text)
      → manifest_is_valid (manifest_for E builder reconstruct d identity w.clock) ≡ true
      → publish E (manifest_for E builder reconstruct d identity w.clock) w ≡ returned tt v
      → commit_valid E builder d identity false w
        ≡ returned (manifest_for E builder reconstruct d identity w.clock) v
  unfolding commit_valid publish_or_recover
  commit_valid_succeeds w v d identity valid e = ground (arith, valid, e)

  -- If no operation fails, the bundle is incomplete with its final name free, its evidence is valid and
  -- reconstructs, and its manifest is valid and within the size limit, then the commit returns that
  -- manifest, and the final directory holds the evidence with it and without the state's file.
  pub commit-succeeds :
      (w : World) (d : Directory) (identity : Text)
      → w.faults ≡ []
      → w.staging ≡ some d
      → w.final ≡ none
      → require_incomplete E w ≡ returned tt w
      → validate_staging E d reconstruct ≡ ok identity
      → manifest_is_valid (manifest_for E builder reconstruct d identity w.clock) ≡ true
      → E.manifest_size (manifest_for E builder reconstruct d identity w.clock)
        ≤ max_stage2_file_bytes
      → (v : World) × (commit E builder reconstruct false w
          ≡ returned (manifest_for E builder reconstruct d identity w.clock) v)
        × (v.staging ≡ none)
        × (v.final
            ≡ some
                (sealed E d (manifest_for E builder reconstruct d identity w.clock) (w.clock + 1)))
  unfolding commit
  commit-succeeds w d identity h s f begun staged valid le =
      let manifest = manifest_for E builder reconstruct d identity w.clock in
      let v = finished E w d manifest in
      let done =
        commit_valid_succeeds w v d identity valid (publish_succeeds E w d manifest h s f le) in
      (v, ground (arith, begun, s, staged, done), refl, refl)
