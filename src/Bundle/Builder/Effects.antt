-- ===== src/Bundle/Builder/Effects.antt =====
-- src/llm_inference_systems/stage2_bundle.py: what the writes of the builder leave.
use llm_inference_systems.Prelude.{
  ℕ, ◌+◌, ◌≡◌, refl, ◌∙◌, ◌⊎◌, inl, inr, Bool, true, false, Option, some, List, [], ◌∷◌, arith, ltb,
  Bool-cases, returned, raised,
}
use llm_inference_systems.Sse.Codec.{Text}
use llm_inference_systems.Bundle.{
  BundleStateRecord, state_record_is_valid, Directory, World, os_error, Place, in_staging, in_final,
}
use llm_inference_systems.Bundle.Builder.{
  Environment, spend, io, install, durable_write, max_stage2_file_bytes, put_directory,
  write_state_at, directory_at,
}

-- Nothing but the faults differs.
abbrev pub Same : World → World → Type 0
Same w v =
    (v.staging ≡ w.staging) × (v.final ≡ w.final) × (v.sequence ≡ w.sequence) × (v.clock ≡ w.clock)

spend-cases :
    (faults : List Bool) (w : World)
    → ((v : World) × (spend faults w ≡ returned tt v) × Same w v)
      ⊎ ((v : World) × (spend faults w ≡ raised os_error v) × Same w v)
spend-cases [] w = inl (w, refl, (refl, refl, refl, refl))
spend-cases (false ∷ faults) w = inl (record w { faults = faults }, refl, (refl, refl, refl, refl))
spend-cases (true ∷ faults) w = inr (record w { faults = faults }, refl, (refl, refl, refl, refl))

-- An operation fails, or leaves all but the faults as it was.
pub io-cases :
    (w : World)
    → ((v : World) × (io w ≡ returned tt v) × Same w v)
      ⊎ ((v : World) × (io w ≡ raised os_error v) × Same w v)
unfolding io
io-cases w = spend-cases w.faults w

pub durable_write_returned :
    (size : ℕ) (write : ℕ → Directory → Directory) (d : Directory) (w v : World)
    → w.final ≡ some d
    → durable_write in_final size write w ≡ returned tt v
    → (v.staging ≡ w.staging) × (v.final ≡ some (write w.clock d))
unfolding durable_write install
durable_write_returned size write d w v h e = elim (Bool-cases (ltb max_stage2_file_bytes size)) [
  | inl b ↦ ground (arith, e, b)
  | inr b ↦ elim (io-cases w) [
    | inr (_, r, _) ↦ ground (arith, e, b, r)
    | inl (w1, r1, s1) ↦ elim (io-cases w1) [
      | inr (_, r, _) ↦ ground (arith, e, b, r1, r)
      | inl (w2, r2, s2) ↦ elim (io-cases (put_directory in_final (write w2.clock d) w2)) [
        | inr (_, r, _) ↦ ground (arith, e, b, h, r1, r2, s1, s2, r)
        | inl (w3, r3, s3) ↦ ground (arith, e, b, h, r1, r2, s1, s2, r3, s3)
      ]
    ]
  ]
]

abbrev pub other_at : Place → World → Option Directory
other_at in_staging w = w.final
other_at in_final w = w.staging

pub staging_returned :
    (size : ℕ) (write : ℕ → Directory → Directory) (d : Directory) (w v : World)
    → w.staging ≡ some d
    → durable_write in_staging size write w ≡ returned tt v
    → (v.final ≡ w.final) × (v.staging ≡ some (write w.clock d))
unfolding durable_write install
staging_returned size write d w v h e = elim (Bool-cases (ltb max_stage2_file_bytes size)) [
  | inl b ↦ ground (arith, e, b)
  | inr b ↦ elim (io-cases w) [
    | inr (_, r, _) ↦ ground (arith, e, b, r)
    | inl (w1, r1, s1) ↦ elim (io-cases w1) [
      | inr (_, r, _) ↦ ground (arith, e, b, r1, r)
      | inl (w2, r2, s2) ↦ elim (io-cases (put_directory in_staging (write w2.clock d) w2)) [
        | inr (_, r, _) ↦ ground (arith, e, b, h, r1, r2, s1, s2, r)
        | inl (w3, r3, s3) ↦ ground (arith, e, b, h, r1, r2, s1, s2, r3, s3)
      ]
    ]
  ]
]

pub write_returned :
    (place : Place) (size : ℕ) (write : ℕ → Directory → Directory) (d : Directory) (w v : World)
    → directory_at place w ≡ some d
    → durable_write place size write w ≡ returned tt v
    → (other_at place v ≡ other_at place w) × (directory_at place v ≡ some (write w.clock d))
write_returned in_staging size write d w v h e = staging_returned size write d w v h e
write_returned in_final size write d w v h e = durable_write_returned size write d w v h e

pub keeps :
    (place : Place) (w : World) (n : ℕ)
    → directory_at place (record w { sequence = n }) ≡ directory_at place w
keeps in_staging w n = refl
keeps in_final w n = refl

keeps_other :
    (place : Place) (w : World) (n : ℕ)
    → other_at place (record w { sequence = n }) ≡ other_at place w
keeps_other in_staging w n = refl
keeps_other in_final w n = refl

module _ (E : Environment) where
  pub state_written :
      (place : Place) (flag : Bool) (phase : Text) (reason last : Option Text) (d : Directory)
      (w v : World)
      → directory_at place w ≡ some d
      → write_state_at E place flag phase reason last w ≡ returned tt v
      → (other_at place v ≡ other_at place w)
        × ((r : BundleStateRecord) × (r.is_invalid ≡ flag)
            × (directory_at place v ≡ some (record d { state = some r })))
  unfolding write_state_at
  state_written place flag phase reason last d w v h e =
      let r : BundleStateRecord = record {
        is_invalid = flag;
        phase = phase;
        reason = reason;
        last_valid_boundary = last;
        sequence = w.sequence + 1;
      } in
      let w1 = record w { sequence = w.sequence + 1 } in
      elim (Bool-cases (state_record_is_valid r)) [
        | inr b ↦ ground (arith, e, b)
        | inl b ↦
            let (same, wrote) =
              write_returned place (E.state_size r) (λ _ d. record d { state = some r }) d w1 v
                (keeps place w (w.sequence + 1) ∙ h) (ground (arith, e, b)) in
            (same ∙ keeps_other place w (w.sequence + 1), (r, refl, wrote))
      ]
