-- ===== src/Bundle/Refines.antt =====
-- src/llm_inference_systems/stage2_bundle.py: the life of a bundle as its users see it, a draft that
-- grows until it is dropped or sealed, and the builder as an implementation of it.
use llm_inference_systems.Prelude.{
  ℕ, ◌≡◌, refl, ap, ◌∙◌, inl, inr, true, false, Option, none, some, List, [], ◌∷◌, ◌++◌, map, arith,
  if◌then◌else◌, Option-cases, any, list_eq, Outcome-cases, returned, Action, then_do, pure,
}
use llm_inference_systems.Sse.Codec.{Text}
use llm_inference_systems.Bundle.{
  Bytes, BundleStateRecord, Stage2BundleManifest, StoredFile, Directory, World, BundleError,
  in_staging,
}
use llm_inference_systems.Bundle.Builder.{
  Environment, require_incomplete, write_evidence, invalidate, write_state_at,
}
use llm_inference_systems.Bundle.Builder.Effects.{state_written}
use llm_inference_systems.Bundle.Validate.{Reconstructor}
use llm_inference_systems.Bundle.Commit.{Builder, commit}
use llm_inference_systems.Bundle.Commit.Publish.{sealed, publish_returned}
use llm_inference_systems.Bundle.Commit.Committed.{commit_returned}
use llm_inference_systems.Bundle.Evidence.{incomplete_effect, write_evidence-IsAppended}

abbrev pub Evidence : Type 0
Evidence = List (Text × Bytes)

-- A bundle without its control files, times and sequence numbers.
pub data Life : Type 0 where
  draft : Evidence → Life
  dropped : Life
  sealed_with : Stage2BundleManifest → Evidence → Life

pub data Command : Type 0 where
  write : Text → Bytes → Text → Command
  drop : Text → Text → Option Text → Command
  seal : Command

-- What a command that succeeds may do.
pub data Step : Life → Command → Life → Type 0 where
  grows :
      (evidence : Evidence) (path prefix : Text) (content : Bytes)
      → any (λ p. list_eq p.0 path) evidence ≡ false
      → Step (draft evidence) (write path content prefix) (draft (evidence ++ (path, content) ∷ []))
  ends :
      (evidence : Evidence) (phase reason : Text) (last : Option Text)
      → Step (draft evidence) (drop phase reason last) dropped
  finishes :
      (evidence : Evidence) (manifest : Stage2BundleManifest)
      → Step (draft evidence) seal (sealed_with manifest evidence)

abbrev pub evidence_of : List StoredFile → Evidence
evidence_of = map (λ f. (f.path, f.content))

abbrev of_staging : Directory → Life
of_staging d = elim d.state [
  | none ↦ dropped
  | some r ↦ if r.is_invalid then dropped else draft (evidence_of d.files)
]

abbrev of_final : Directory → Life
of_final d = elim d.manifest [
  | none ↦ dropped
  | some m ↦ sealed_with m.manifest (evidence_of d.files)
]

-- The life that the two directories stand for.
unfoldable pub life : World → Life
life w = elim w.final [
  | some d ↦ of_final d
  | none ↦ elim w.staging [ none ↦ dropped | some d ↦ of_staging d ]
]

evidence_of-append :
    (files : List StoredFile) (f : StoredFile)
    → evidence_of (files ++ f ∷ []) ≡ evidence_of files ++ (f.path, f.content) ∷ []
evidence_of-append [] f = refl
evidence_of-append (g ∷ files) f =
    ap (λ rest. (g.path, g.content) ∷ rest) (evidence_of-append files f)

fresh_path :
    (path : Text) (files : List StoredFile)
    → any (λ f. list_eq f.path path) files ≡ false
    → any (λ p. list_eq p.0 path) (evidence_of files) ≡ false
fresh_path path [] h = refl
fresh_path path (f ∷ files) h = ground (arith, h, fresh_path path files (ground (arith, h)))

life_draft :
    (w : World) (d : Directory) (r : BundleStateRecord)
    → w.final ≡ none
    → w.staging ≡ some d
    → d.state ≡ some r
    → r.is_invalid ≡ false
    → life w ≡ draft (evidence_of d.files)
unfolding life
life_draft w d r f s h i = ground (arith, f, s, h, i)

life_dropped :
    (w : World) (d : Directory) (r : BundleStateRecord)
    → w.final ≡ none
    → w.staging ≡ some d
    → d.state ≡ some r
    → r.is_invalid ≡ true
    → life w ≡ dropped
unfolding life
life_dropped w d r f s h i = ground (arith, f, s, h, i)

module _ (E : Environment) (builder : Builder) (reconstruct : Reconstructor) where
  -- The command of the builder; what a commit returns is not kept.
  unfoldable pub run : Command → Action BundleError World (Unit {0})
  run (write path content prefix) w = write_evidence E path content prefix w
  run (drop phase reason last) w = invalidate E phase reason last w
  run seal w = then_do (commit E builder reconstruct false w) (λ m. pure tt)

  write_refines :
      (path prefix : Text) (content : Bytes) (w v : World)
      → w.final ≡ none
      → write_evidence E path content prefix w ≡ returned tt v
      → Step (life w) (write path content prefix) (life v)
  write_refines path prefix content w v f e =
      let a = write_evidence-IsAppended E path content prefix w v e in
      let before = life_draft w a.old a.begun f a.was_there a.was_state a.was_incomplete in
      let after = life_draft v _ a.record_now (a.final_kept ∙ f) a.result refl a.still_incomplete in
      let fresh = fresh_path path a.old.files a.fresh in
      let grown =
        evidence_of-append a.old.files
          (record { path = path; content = content; modified = w.clock }) in
      rw (before, after, grown) (grows (evidence_of a.old.files) path prefix content fresh)

  drop_effect :
      (phase reason : Text) (last : Option Text) (w v : World)
      → invalidate E phase reason last w ≡ returned tt v
      → (require_incomplete E w ≡ returned tt w)
        × (write_state_at E in_staging true phase (some reason) last w ≡ returned tt v)
  unfolding invalidate
  drop_effect phase reason last w v e = elim (Option-cases w.staging) [
    | inl n ↦ ground (arith, e, n)
    | inr (d, n) ↦ elim (Outcome-cases (require_incomplete E w)) [
      | inr (x, w1, r) ↦ ground (arith, e, n, r)
      | inl (_, w1, r) ↦ let (same, _) = incomplete_effect E w w1 r in ground (arith, e, n, r, same)
    ]
  ]

  drop_refines :
      (phase reason : Text) (last : Option Text) (w v : World)
      → w.final ≡ none
      → invalidate E phase reason last w ≡ returned tt v
      → Step (life w) (drop phase reason last) (life v)
  drop_refines phase reason last w v f e =
      let (begun, wrote) = drop_effect phase reason last w v e in
      let (_, (d, r, there, state, flag)) = incomplete_effect E w w begun in
      let (kept, (now, invalid_now, written)) =
        state_written E in_staging true phase (some reason) last d w v there wrote in
      let before = life_draft w d r f there state flag in
      let after =
        life_dropped v (record d { state = some now }) now (kept ∙ f) written refl invalid_now in
      rw (before, after) (ends (evidence_of d.files) phase reason last)

  commit_begun :
      (m : Stage2BundleManifest) (w v : World)
      → commit E builder reconstruct false w ≡ returned m v
      → require_incomplete E w ≡ returned tt w
  unfolding commit
  commit_begun m w v e = elim (Outcome-cases (require_incomplete E w)) [
    | inr (x, w1, r) ↦ ground (arith, e, r)
    | inl (_, w1, r) ↦ let (same, _) = incomplete_effect E w w1 r in ground (arith, r, same)
  ]

  life-sealed :
      (v : World) (d : Directory) (m : Stage2BundleManifest) (now : ℕ)
      → v.final ≡ some (sealed E d m now)
      → life v ≡ sealed_with m (evidence_of d.files)
  unfolding life
  life-sealed v d m now f = rw f refl

  seal_refines :
      (m : Stage2BundleManifest) (w v : World)
      → w.final ≡ none
      → commit E builder reconstruct false w ≡ returned m v
      → Step (life w) seal (life v)
  seal_refines m w v f e =
      let (_, (d, r, there, state, flag)) = incomplete_effect E w w (commit_begun m w v e) in
      let (d', identity, staged, valid, made, published) =
        commit_returned E builder reconstruct false m w v e in
      let (_, (now, _, final)) = publish_returned E m d w v there published in
      let before = life_draft w d r f there state flag in
      let after = life-sealed v d m now final in
      rw (before, after) (finishes (evidence_of d.files) m)

  sealed_run :
      (w v : World)
      → run seal w ≡ returned tt v
      → (m : Stage2BundleManifest) × (commit E builder reconstruct false w ≡ returned m v)
  unfolding run
  sealed_run w v e = elim (Outcome-cases (commit E builder reconstruct false w)) [
    | inl (m, w1, r) ↦ (m, ground (arith, e, r))
    | inr (x, w1, r) ↦ ground (arith, e, r)
  ]

  -- A call of the builder that returns, with the final name free before it, is a step of the bundle's
  -- life: a write adds the path, which was not there, with its content to the draft, an invalidation
  -- drops it, and a commit seals exactly the evidence of the draft; none of them starts elsewhere.
  pub run-Step :
      (c : Command) (w v : World)
      → w.final ≡ none
      → run c w ≡ returned tt v
      → Step (life w) c (life v)
  unfolding run
  run-Step (write path content prefix) w v f e = write_refines path prefix content w v f e
  run-Step (drop phase reason last) w v f e = drop_refines phase reason last w v f e
  run-Step seal w v f e = let (m, done) = sealed_run w v e in seal_refines m w v f done
