-- ===== src/Bundle/Commit/Failed.antt =====
-- src/llm_inference_systems/stage2_bundle.py: a commit that failed, and whose failure was recorded, has
-- left an invalid bundle.
use llm_inference_systems.Prelude.{
  ℕ, ◌≡◌, refl, sym, ◌∙◌, ◌⊎◌, inl, inr, true, Option, none, some, arith, ltb, Bool-cases,
  Option-cases, codes, ok, Outcome-cases, returned, raised,
}
use llm_inference_systems.Bundle.{
  invalid, BundleStateRecord, Stage2BundleManifest, Directory, World, BundleError, os_error,
  commit_failed, Place, in_staging, in_final, size_limit,
}
use llm_inference_systems.Bundle.Builder.{
  Environment, install, durable_write, max_stage2_file_bytes, put_directory, directory_at,
}
use llm_inference_systems.Bundle.Validate.{inspect_bundle_state}
use llm_inference_systems.Bundle.Commit.{
  unlink_manifest, record_commit_failure_at, record_commit_failure, publish, recover,
  publish_or_recover, is_os_error, move_to_final, unlink_state, rename_staging,
}
use llm_inference_systems.Bundle.Builder.Effects.{io-cases, other_at, state_written}
use llm_inference_systems.Bundle.Commit.Publish.{manifest_of, publish_staging}

module _ (E : Environment) where
  unlinked_at :
      (place : Place) (w v : World)
      → unlink_manifest E place w ≡ returned tt v
      → (other_at place v ≡ other_at place w)
        × ((d : Directory) × (d.manifest ≡ none) × (directory_at place v ≡ some d))
  unfolding unlink_manifest install
  unlinked_at in_staging w v e = elim (Option-cases w.staging) [
    | inl n ↦ ground (arith, e, n)
    | inr (d, n) ↦ elim (Option-cases d.manifest) [
      | inl m ↦ (ground (arith, e, n, m), (d, m, ground (arith, e, n, m)))
      | inr (m, k) ↦ elim (io-cases w) [
        | inr (_, r, _) ↦ ground (arith, e, n, k, r)
        | inl (w1, r1, s1) ↦ (
          ground (arith, e, n, k, r1, s1),
          (record d { manifest = none }, refl, ground (arith, e, n, k, r1, s1)),
        )
      ]
    ]
  ]
  unlinked_at in_final w v e = elim (Option-cases w.final) [
    | inl n ↦ ground (arith, e, n)
    | inr (d, n) ↦ elim (Option-cases d.manifest) [
      | inl m ↦ (ground (arith, e, n, m), (d, m, ground (arith, e, n, m)))
      | inr (m, k) ↦ elim (io-cases w) [
        | inr (_, r, _) ↦ ground (arith, e, n, k, r)
        | inl (w1, r1, s1) ↦ (
          ground (arith, e, n, k, r1, s1),
          (record d { manifest = none }, refl, ground (arith, e, n, k, r1, s1)),
        )
      ]
    ]
  ]

  -- A recorded failure: the directory has the state INVALID and no manifest.
  abbrev IsInvalid : Option Directory → Type 0
  IsInvalid o = inspect_bundle_state E o ≡ ok invalid

  state-IsInvalid :
      (d : Directory) (r : BundleStateRecord)
      → d.manifest ≡ none
      → r.is_invalid ≡ true
      → IsInvalid (some (record d { state = some r }))
  unfolding inspect_bundle_state
  state-IsInvalid d r m h = rw (m, h) refl

  recorded_at :
      (place : Place) (w v : World)
      → record_commit_failure_at E place w ≡ returned tt v
      → (other_at place v ≡ other_at place w) × IsInvalid (directory_at place v)
  unfolding record_commit_failure_at
  recorded_at place w v e = elim (Outcome-cases (unlink_manifest E place w)) [
    | inr (x, w1, r) ↦ ground (arith, e, r)
    | inl (_, w1, r) ↦
        let (same, (d, gone, there)) = unlinked_at place w w1 r in
        let (kept, (record_of, flag, wrote)) =
          state_written E place true (codes "COMMIT") (some (codes "DURABILITY_OPERATION_FAILED"))
            (some (codes "RECONSTRUCTION_VALIDATED")) d w1 v there (ground (arith, e, r)) in
        (kept ∙ same, rw wrote (state-IsInvalid d record_of gone flag))
  ]

  -- Where the code records a failure: the final directory if it is there.
  abbrev pub bundle_of : World → Option Directory
  bundle_of w = elim w.final [ none ↦ w.staging | some d ↦ w.final ]

  of_final : (v : World) → IsInvalid v.final → IsInvalid (bundle_of v)
  unfolding inspect_bundle_state
  of_final v h = elim (Option-cases v.final) [
    | inl n ↦ ground (arith, h, n)
    | inr (d, n) ↦ rw n (rw n at h)
  ]

  invalid_manifest : (o : Option Directory) → IsInvalid o → manifest_of o ≡ none
  unfolding inspect_bundle_state
  invalid_manifest none h = refl
  invalid_manifest (some d) h = elim (Option-cases d.manifest) [
    | inl n ↦ n
    | inr (m, n) ↦ ground (arith, h, n)
  ]

  recorded :
      (w v : World)
      → record_commit_failure E w ≡ returned tt v
      → IsInvalid (bundle_of v) × ((v.staging ≡ w.staging) ⊎ (v.final ≡ none))
  unfolding record_commit_failure
  recorded w v e = elim (Option-cases w.final) [
    | inl n ↦
        let (same, bad) = recorded_at in_staging w v (ground (arith, e, n)) in
        (rw (same, n) bad, inr (same ∙ n))
    | inr (d, n) ↦ elim (Outcome-cases (record_commit_failure_at E in_final w)) [
      | inr (x, w1, r) ↦ ground (arith, e, n, r)
      | inl (_, w1, r) ↦ elim (io-cases w1) [
        | inr (w2, q, _) ↦ ground (arith, e, n, r, q)
        | inl (w2, q, (s2, f2, _, _)) ↦
            let (same, bad) = recorded_at in_final w w1 r in
            let end : w2 ≡ v = ground (arith, e, n, r, q) in
            (of_final v (rw (sym end) (rw f2 bad)), inl (rw (sym end) (s2 ∙ same)))
      ]
    ]
  ]

  recover_effect :
      (x : BundleError) (w v : World)
      → recover E w ≡ raised x v
      → x ≡ commit_failed
      → record_commit_failure E w ≡ returned tt v
  unfolding recover
  recover_effect x w v e h = elim (Outcome-cases (record_commit_failure E w)) [
    | inl (_, w1, r) ↦ ground (arith, e, r)
    | inr (y, w1, r) ↦ ground (arith, e, r, h)
  ]

  -- No part of the publication raises the error of the handler.
  move_error : (x : BundleError) (w v : World) → move_to_final E w ≡ raised x v → x ≡ os_error
  unfolding move_to_final rename_staging
  move_error x w v e = elim (io-cases w) [
    | inr (_, r, _) ↦ ground (arith, e, r)
    | inl (w1, r1, _) ↦ elim (io-cases w1) [
      | inr (_, r, _) ↦ ground (arith, e, r1, r)
      | inl (w2, r2, _) ↦ elim (Outcome-cases (rename_staging E w2)) [
        | inr (y, w3, q) ↦ ground (arith, e, r1, r2, q)
        | inl (_, w3, q) ↦ elim (io-cases w3) [
          | inr (_, r, _) ↦ ground (arith, e, r1, r2, q, r)
          | inl (w4, r3, _) ↦ ground (arith, e, r1, r2, q, r3)
        ]
      ]
    ]
  ]

  unlink_error : (x : BundleError) (w v : World) → unlink_state E w ≡ raised x v → x ≡ os_error
  unfolding unlink_state install
  unlink_error x w v e = elim (io-cases w) [
    | inr (_, r, _) ↦ ground (arith, e, r)
    | inl (w1, r1, _) ↦ elim (Option-cases w1.final) [
      | inl n ↦ ground (arith, e, r1, n)
      | inr (d, n) ↦ elim (io-cases (put_directory in_final (record d { state = none }) w1)) [
        | inr (_, r, _) ↦ ground (arith, e, r1, n, r)
        | inl (w2, r2, _) ↦ ground (arith, e, r1, n, r2)
      ]
    ]
  ]

  durable_write_error :
      (size : ℕ) (write : ℕ → Directory → Directory) (x : BundleError) (w v : World)
      → durable_write in_final size write w ≡ raised x v
      → (x ≡ os_error) ⊎ (x ≡ size_limit)
  unfolding durable_write install
  durable_write_error size write x w v e = elim (Bool-cases (ltb max_stage2_file_bytes size)) [
    | inl b ↦ inr (ground (arith, e, b))
    | inr b ↦ elim (io-cases w) [
      | inr (_, r, _) ↦ inl (ground (arith, e, b, r))
      | inl (w1, r1, _) ↦ elim (io-cases w1) [
        | inr (_, r, _) ↦ inl (ground (arith, e, b, r1, r))
        | inl (w2, r2, _) ↦ elim (Option-cases w2.final) [
          | inl n ↦ inl (ground (arith, e, b, r1, r2, n))
          | inr (d, n) ↦ elim (io-cases (put_directory in_final (write w2.clock d) w2)) [
            | inr (_, r, _) ↦ inl (ground (arith, e, b, r1, r2, n, r))
            | inl (w3, r3, _) ↦ inl (ground (arith, e, b, r1, r2, n, r3))
          ]
        ]
      ]
    ]
  ]

  publish_error :
      (manifest : Stage2BundleManifest) (x : BundleError) (w v : World)
      → publish E manifest w ≡ raised x v
      → (x ≡ os_error) ⊎ (x ≡ size_limit)
  unfolding publish
  publish_error manifest x w v e = elim (Outcome-cases (move_to_final E w)) [
    | inr (y, w1, r) ↦ inl (move_error x w v (ground (arith, e, r)))
    | inl (_, w1, r) ↦ elim (Outcome-cases (unlink_state E w1)) [
      | inr (y, w2, q) ↦ inl (unlink_error x w1 v (ground (arith, e, r, q)))
      | inl (_, w2, q) ↦
          durable_write_error (E.manifest_size manifest)
            (λ now d. record d { manifest = some (record { manifest = manifest; modified = now }) })
            x w2 v (ground (arith, e, r, q))
    ]
  ]

  -- What is left in staging has no manifest.
  staging_left :
      (d : Directory) (after v : World)
      → d.manifest ≡ none
      → (after.staging ≡ some d) ⊎ (after.staging ≡ none)
      → (v.staging ≡ after.staging) ⊎ (v.final ≡ none)
      → IsInvalid (bundle_of v)
      → manifest_of v.staging ≡ none
  staging_left d after v m (inl a) (inl s) bad = rw (s, a) m
  staging_left d after v m (inr a) (inl s) bad = rw (s, a) refl
  staging_left d after v m a (inr f) bad = invalid_manifest v.staging (rw f at bad)

  -- When the publication of a bundle without a manifest raises that it failed, its failure has been
  -- recorded: the bundle's directory, the final one if it is there and else the staging one, is INVALID
  -- when inspected, and no manifest is left in staging, whichever operations failed.
  pub publish_or_recover-invalid :
      (manifest : Stage2BundleManifest) (d : Directory) (w v : World)
      → w.staging ≡ some d
      → d.manifest ≡ none
      → publish_or_recover E manifest w ≡ raised commit_failed v
      → (inspect_bundle_state E (bundle_of v) ≡ ok invalid) × (manifest_of v.staging ≡ none)
  unfolding publish_or_recover
  publish_or_recover-invalid manifest d w v h m e = elim (Outcome-cases (publish E manifest w)) [
    | inl (_, w1, r) ↦ ground (arith, e, r)
    | inr (x, w1, r) ↦ elim (Bool-cases (is_os_error E x)) [
      | inr b ↦ absurd (ground (arith, e, r, b, publish_error manifest x w w1 r))
      | inl b ↦
          let (bad, where_from) =
            recorded w1 v (recover_effect commit_failed w1 v (ground (arith, e, r, b)) refl) in
          (bad, staging_left d w1 v m (publish_staging E manifest x d w w1 h r) where_from bad)
    ]
  ]
