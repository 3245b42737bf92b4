-- ===== src/Bundle/Commit/Publish.antt =====
-- src/llm_inference_systems/stage2_bundle.py: what the second `try` of commit leaves, whichever of its
-- operations fails.
use llm_inference_systems.Prelude.{
  ℕ, ◌≤◌, ◌≡◌, ◌∙◌, ◌⊎◌, inl, inr, Option, none, some, arith, ltb, Bool-cases, Option-cases,
  Outcome-cases, returned, raised,
}
use llm_inference_systems.Bundle.{
  Stage2BundleManifest, StoredManifest, Directory, World, BundleError, in_final,
}
use llm_inference_systems.Bundle.Builder.{
  Environment, install, durable_write, max_stage2_file_bytes, put_directory,
}
use llm_inference_systems.Bundle.Commit.{
  is_occupied, rename_staging, publish, move_to_final, unlink_state,
}
use llm_inference_systems.Bundle.Builder.Effects.{io-cases, durable_write_returned}

abbrev pub manifest_of : Option Directory → Option StoredManifest
manifest_of none = none
manifest_of (some d) = d.manifest

module _ (E : Environment) where
  move_returned :
      (d : Directory) (w v : World)
      → w.staging ≡ some d
      → move_to_final E w ≡ returned tt v
      → (v.staging ≡ none) × (v.final ≡ some d) × (v.clock ≡ w.clock)
  unfolding move_to_final rename_staging
  move_returned d w v h e = elim (io-cases w) [
    | inr (_, r, _) ↦ ground (arith, e, r)
    | inl (w1, r1, s1) ↦ elim (io-cases w1) [
      | inr (_, r, _) ↦ ground (arith, e, r1, r)
      | inl (w2, r2, s2) ↦
          let w3 = record w2 { staging = none; final = some d } in
          elim (io-cases w3) [
            | inr (_, r, _) ↦ ground (arith, e, h, r1, r2, s1, s2, r)
            | inl (w4, r3, s3) ↦ ground (arith, e, h, r1, r2, s1, s2, r3, s3)
          ]
    ]
  ]

  unlink_returned :
      (d : Directory) (w v : World)
      → w.final ≡ some d
      → unlink_state E w ≡ returned tt v
      → (v.staging ≡ w.staging) × (v.final ≡ some (record d { state = none })) × (w.clock ≤ v.clock)
  unfolding unlink_state install
  unlink_returned d w v h e = elim (io-cases w) [
    | inr (_, r, _) ↦ ground (arith, e, r)
    | inl (w1, r1, s1) ↦ elim (io-cases (put_directory in_final (record d { state = none }) w1)) [
      | inr (_, r, _) ↦ ground (arith, e, h, r1, s1, r)
      | inl (w2, r2, s2) ↦ ground (arith, e, h, r1, s1, r2, s2)
    ]
  ]

  -- The directory that a commit leaves.
  abbrev pub sealed : Directory → Stage2BundleManifest → ℕ → Directory
  sealed d manifest now = record d {
    state = none;
    manifest = some (record { manifest = manifest; modified = now });
  }

  pub publish_returned :
      (manifest : Stage2BundleManifest) (d : Directory) (w v : World)
      → w.staging ≡ some d
      → publish E manifest w ≡ returned tt v
      → (v.staging ≡ none)
        × ((now : ℕ) × (w.clock ≤ now) × (v.final ≡ some (sealed d manifest now)))
  unfolding publish
  publish_returned manifest d w v h e = elim (Outcome-cases (move_to_final E w)) [
    | inr (x, w1, r) ↦ ground (arith, e, r)
    | inl (_, w1, r) ↦ elim (Outcome-cases (unlink_state E w1)) [
      | inr (x, w2, q) ↦ ground (arith, e, r, q)
      | inl (_, w2, q) ↦
          let (s1, f1, c1) = move_returned d w w1 h r in
          let (s2, f2, c2) = unlink_returned d w1 w2 f1 q in
          let (s3, f3) =
            durable_write_returned (E.manifest_size manifest)
              (λ now d. record d {
                manifest = some (record { manifest = manifest; modified = now });
              })
              (record d { state = none }) w2 v f2 (ground (arith, e, r, q)) in
          (s3 ∙ (s2 ∙ s1), (w2.clock, ground (arith, c1, c2), f3))
    ]
  ]

  -- The staging directory never gets a manifest.
  durable_write_staging :
      (size : ℕ) (write : ℕ → Directory → Directory) (x : BundleError) (w v : World)
      → durable_write in_final size write w ≡ raised x v
      → v.staging ≡ w.staging
  unfolding durable_write install
  durable_write_staging size write x w v e = elim (Bool-cases (ltb max_stage2_file_bytes size)) [
    | inl b ↦ ground (arith, e, b)
    | inr b ↦ elim (io-cases w) [
      | inr (_, r, s) ↦ ground (arith, e, b, r, s)
      | inl (w1, r1, s1) ↦ elim (io-cases w1) [
        | inr (_, r, s) ↦ ground (arith, e, b, r1, s1, r, s)
        | inl (w2, r2, s2) ↦ elim (Option-cases w2.final) [
          | inl n ↦ ground (arith, e, b, r1, r2, s1, s2, n)
          | inr (d, n) ↦ elim (io-cases (put_directory in_final (write w2.clock d) w2)) [
            | inr (_, r, s) ↦ ground (arith, e, b, r1, r2, s1, s2, n, r, s)
            | inl (w3, r3, s3) ↦ ground (arith, e, b, r1, r2, s1, s2, n, r3, s3)
          ]
        ]
      ]
    ]
  ]

  unlink_staging :
      (x : BundleError) (w v : World) → unlink_state E w ≡ raised x v → v.staging ≡ w.staging
  unfolding unlink_state install
  unlink_staging x w v e = elim (io-cases w) [
    | inr (_, r, s) ↦ ground (arith, e, r, s)
    | inl (w1, r1, s1) ↦ elim (Option-cases w1.final) [
      | inl n ↦ ground (arith, e, r1, s1, n)
      | inr (d, n) ↦ elim (io-cases (put_directory in_final (record d { state = none }) w1)) [
        | inr (_, r, s) ↦ ground (arith, e, r1, s1, n, r, s)
        | inl (w2, r2, s2) ↦ ground (arith, e, r1, s1, n, r2, s2)
      ]
    ]
  ]

  unlink_returned_staging : (w v : World) → unlink_state E w ≡ returned tt v → v.staging ≡ w.staging
  unfolding unlink_state install
  unlink_returned_staging w v e = elim (io-cases w) [
    | inr (_, r, s) ↦ ground (arith, e, r)
    | inl (w1, r1, s1) ↦ elim (Option-cases w1.final) [
      | inl n ↦ ground (arith, e, r1, s1, n)
      | inr (d, n) ↦ elim (io-cases (put_directory in_final (record d { state = none }) w1)) [
        | inr (_, r, s) ↦ ground (arith, e, r1, s1, n, r)
        | inl (w2, r2, s2) ↦ ground (arith, e, r1, s1, n, r2, s2)
      ]
    ]
  ]

  move_staging :
      (x : BundleError) (d : Directory) (w v : World)
      → w.staging ≡ some d
      → move_to_final E w ≡ raised x v
      → (v.staging ≡ some d) ⊎ (v.staging ≡ none)
  unfolding move_to_final rename_staging
  move_staging x d w v h e = elim (io-cases w) [
    | inr (_, r, s) ↦ ground (arith, e, h, r, s)
    | inl (w1, r1, s1) ↦ elim (io-cases w1) [
      | inr (_, r, s) ↦ ground (arith, e, h, r1, s1, r, s)
      | inl (w2, r2, s2) ↦ elim (Bool-cases (is_occupied E w2.final)) [
        | inl n ↦ ground (arith, e, h, r1, s1, r2, s2, n)
        | inr n ↦ elim (io-cases (record w2 { staging = none; final = some d })) [
          | inr (_, r, s) ↦ ground (arith, e, h, r1, r2, s1, s2, n, r, s)
          | inl (w4, r3, s3) ↦ ground (arith, e, h, r1, r2, s1, s2, n, r3, s3)
        ]
      ]
    ]
  ]

  -- What is still in staging when the publication fails is what was there.
  pub publish_staging :
      (manifest : Stage2BundleManifest) (x : BundleError) (d : Directory) (w v : World)
      → w.staging ≡ some d
      → publish E manifest w ≡ raised x v
      → (v.staging ≡ some d) ⊎ (v.staging ≡ none)
  unfolding publish
  publish_staging manifest x d w v h e = elim (Outcome-cases (move_to_final E w)) [
    | inr (y, w1, r) ↦ move_staging x d w v h (ground (arith, e, r))
    | inl (_, w1, r) ↦
        let (s1, _, _) = move_returned d w w1 h r in
        elim (Outcome-cases (unlink_state E w1)) [
          | inr (y, w2, q) ↦ inr (unlink_staging x w1 v (ground (arith, e, r, q)) ∙ s1)
          | inl (_, w2, q) ↦ inr (
              durable_write_staging (E.manifest_size manifest)
                (λ now d. record d {
                  manifest = some (record { manifest = manifest; modified = now });
                })
                x w2 v (ground (arith, e, r, q))
              ∙ (unlink_returned_staging w1 w2 q ∙ s1))
        ]
  ]
