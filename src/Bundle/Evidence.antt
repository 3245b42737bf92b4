-- ===== src/Bundle/Evidence.antt =====
-- src/llm_inference_systems/stage2_bundle.py: evidence is only ever added, below its own prefix.
use llm_inference_systems.Prelude.{
  ◌≡◌, ap, ◌∙◌, inl, inr, true, false, none, some, [], ◌∷◌, ◌++◌, arith, Bool-cases, Option-cases,
  codes, length, any, list_eq, list_eq-eq, ok, Result-cases, Outcome-cases, returned, ◌||◌,
  is_prefix, refl,
}
use llm_inference_systems.Sse.Codec.{Text}
use llm_inference_systems.Bundle.{
  Bytes, BundleStateRecord, Directory, World, in_staging, List, StoredFile,
}
use llm_inference_systems.Bundle.Paths.{is_safe_relative, first_part}
use llm_inference_systems.Bundle.Builder.{
  Environment, durable_write, require_incomplete, exists_at, check_evidence, write_evidence,
  write_state_at, add_file, parent_is_file,
}
use llm_inference_systems.Bundle.Builder.Effects.{staging_returned, state_written}

module _ (E : Environment) where
  pub incomplete_effect :
      (w v : World)
      → require_incomplete E w ≡ returned tt v
      → (v ≡ w)
        × ((d : Directory) × (r : BundleStateRecord) × (w.staging ≡ some d)
            × (d.state ≡ some r)
            × (r.is_invalid ≡ false))
  unfolding require_incomplete
  incomplete_effect w v e = elim (Option-cases w.staging) [
    | inl n ↦ ground (arith, e, n)
    | inr (d, n) ↦ elim (Option-cases d.state) [
      | inl m ↦ ground (arith, e, n, m)
      | inr (r, m) ↦ (ground (arith, e, n, m), (d, r, n, m, ground (arith, e, n, m)))
    ]
  ]

  evidence_effect :
      (relative : Text) (content : Bytes) (prefix : Text)
      → check_evidence E relative content prefix ≡ ok tt
      → (is_safe_relative relative ≡ true) × (list_eq (first_part relative) prefix ≡ true)
  unfolding check_evidence
  evidence_effect relative content prefix e = ground (arith, e)

  -- What a write that returned has done to the staging directory.
  pub record IsAppended (relative : Text) (content : Bytes) (prefix : Text) (w v : World)
      : Type 0 where
    pub old : Directory
    pub begun : BundleStateRecord
    pub record_now : BundleStateRecord
    pub was_there : w.staging ≡ some old
    pub was_state : old.state ≡ some begun
    pub was_incomplete : begun.is_invalid ≡ false
    pub safe : is_safe_relative relative ≡ true
    pub below : first_part relative ≡ prefix
    pub fresh : any (λ f. list_eq f.path relative) old.files ≡ false
    pub still_incomplete : record_now.is_invalid ≡ false
    pub result :
        v.staging
        ≡ some (record old {
          state = some record_now;
          files =
              old.files ++ record { path = relative; content = content; modified = w.clock } ∷ [];
        })
    pub final_kept : v.final ≡ w.final

  no_file :
      (relative : Text) (files : List StoredFile)
      → any (λ f. list_eq f.path relative || is_prefix (relative ++ codes "/") f.path) files ≡ false
      → any (λ f. list_eq f.path relative) files ≡ false
  no_file relative [] h = refl
  no_file relative (f ∷ files) h = ground (arith, h, no_file relative files)

  append_of :
      (relative : Text) (content : Bytes) (prefix : Text) (d : Directory)
      (begun : BundleStateRecord) (w w1 w2 v : World)
      → w1 ≡ w
      → w.staging ≡ some d
      → d.state ≡ some begun
      → begun.is_invalid ≡ false
      → check_evidence E relative content prefix ≡ ok tt
      → exists_at E relative w1.staging ≡ false
      → durable_write in_staging (length content) (add_file E relative content) w1 ≡ returned tt w2
      → write_state_at E in_staging false (codes "EVIDENCE_RETAINED") none (some relative) w2
        ≡ returned tt v
      → IsAppended relative content prefix w v
  append_of relative content prefix d begun w w1 w2 v same there state flag checked b k last =
      let here = ap (λ x. x.staging) same ∙ there in
      let (final, wrote) =
        staging_returned (length content) (add_file E relative content) d w1 w2 here k in
      let (final_after, (r, incomplete_now, written)) =
        state_written E in_staging false (codes "EVIDENCE_RETAINED") none (some relative)
          (add_file E relative content w1.clock d) w2 v wrote last in
      let (safe, below) = evidence_effect relative content prefix checked in
      record {
        old = d;
        begun = begun;
        record_now = r;
        was_there = there;
        was_state = state;
        was_incomplete = flag;
        safe = safe;
        below = list_eq-eq (first_part relative) prefix below;
        fresh = no_file relative d.files (rw here at b);
        still_incomplete = incomplete_now;
        result = rw written (ground (arith, same));
        final_kept = final_after ∙ (final ∙ ap (λ x. x.final) same);
      }

  -- Evidence that is written goes to an incomplete bundle, under a safe path below its prefix that no
  -- file had: the old evidence is kept as it was with the new file behind it, and the bundle stays
  -- incomplete; the final directory is not touched.
  pub write_evidence-IsAppended :
      (relative : Text) (content : Bytes) (prefix : Text) (w v : World)
      → write_evidence E relative content prefix w ≡ returned tt v
      → IsAppended relative content prefix w v
  unfolding write_evidence
  write_evidence-IsAppended relative content prefix w v e =
      elim (Outcome-cases (require_incomplete E w)) [
        | inr (x, w1, r) ↦ ground (arith, e, r)
        | inl (_, w1, r) ↦
            let (same, (d, begun, there, state, flag)) = incomplete_effect w w1 r in
            elim (Result-cases (check_evidence E relative content prefix)) [
              | inr (x, q) ↦ ground (arith, e, r, q)
              | inl (_, q) ↦ elim (Bool-cases (parent_is_file E relative w1.staging)) [
                | inl p ↦ ground (arith, e, r, q, p)
                | inr p ↦ elim (Bool-cases (exists_at E relative w1.staging)) [
                  | inl b ↦ ground (arith, e, r, q, p, b)
                  | inr b ↦
                      elim (Outcome-cases (
                        durable_write in_staging (length content) (add_file E relative content)
                          w1)) [
                            | inr (x, w2, k) ↦ ground (arith, e, r, q, p, b, k)
                            | inl (_, w2, k) ↦
                                append_of relative content prefix d begun w w1 w2 v same there state
                                  flag q b k (ground (arith, e, r, q, p, b, k))
                          ]
                ]
              ]
            ]
      ]
