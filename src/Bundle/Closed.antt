-- ===== src/Bundle/Closed.antt =====
-- src/llm_inference_systems/stage2_bundle.py: a bundle that is not incomplete is never changed again.
use llm_inference_systems.Prelude.{
  ◌≡◌, inl, inr, Bool, false, not, Option, none, some, arith, Option-cases, raised, Action,
}
use llm_inference_systems.Sse.Codec.{Text}
use llm_inference_systems.Bundle.{Bytes, World, BundleError, no_staging, no_state, not_incomplete}
use llm_inference_systems.Bundle.Builder.{
  Environment, require_incomplete, write_evidence, invalidate,
}
use llm_inference_systems.Bundle.Validate.{Reconstructor}
use llm_inference_systems.Bundle.Commit.{Builder, commit}

-- The staging directory is there and its state says INCOMPLETE.
abbrev pub is_open : World → Bool
is_open w = elim w.staging [
  | none ↦ false
  | some d ↦ elim d.state [ none ↦ false | some r ↦ not r.is_invalid ]
]

-- A call that raises, and leaves everything as it was.
abbrev pub Refuses {ℓ} : {A : Type ℓ} → Action BundleError World A → World → Type ℓ
Refuses m w = (x : BundleError) × (m w ≡ raised x w)

module _ (E : Environment) where
  require-Refuses : (w : World) → is_open w ≡ false → Refuses (require_incomplete E) w
  unfolding require_incomplete
  require-Refuses w h = elim (Option-cases w.staging) [
    | inl n ↦ (no_state, ground (arith, n))
    | inr (d, n) ↦ elim (Option-cases d.state) [
      | inl m ↦ (no_state, ground (arith, n, m))
      | inr (r, m) ↦ (not_incomplete, ground (arith, h, n, m))
    ]
  ]

  write-Refuses :
      (relative : Text) (content : Bytes) (prefix : Text) (w : World)
      → is_open w ≡ false
      → Refuses (write_evidence E relative content prefix) w
  unfolding write_evidence
  write-Refuses relative content prefix w h =
      let (x, e) = require-Refuses w h in (x, ground (arith, e))

  invalidate-Refuses :
      (phase reason : Text) (last : Option Text) (w : World)
      → is_open w ≡ false
      → Refuses (invalidate E phase reason last) w
  unfolding invalidate
  invalidate-Refuses phase reason last w h =
      let (x, e) = require-Refuses w h in
      elim (Option-cases w.staging) [
        | inl n ↦ (no_staging, ground (arith, n))
        | inr (d, n) ↦ (x, ground (arith, n, e))
      ]

  commit-Refuses :
      (builder : Builder) (reconstruct : Reconstructor) (crash : Bool) (w : World)
      → is_open w ≡ false
      → Refuses (commit E builder reconstruct crash) w
  unfolding commit
  commit-Refuses builder reconstruct crash w h =
      let (x, e) = require-Refuses w h in (x, ground (arith, e))

  -- If the staging directory is missing, as after a commit, or its state is not INCOMPLETE, as after
  -- an invalidation, then a write of evidence, an invalidation and a commit all raise and change
  -- nothing, not even the sequence number.
  pub closed-Refuses :
      (w : World)
      → is_open w ≡ false
      → (relative prefix phase reason : Text) (content : Bytes) (last : Option Text)
        (builder : Builder) (reconstruct : Reconstructor) (crash : Bool)
      → Refuses (write_evidence E relative content prefix) w
        × Refuses (invalidate E phase reason last) w
        × Refuses (commit E builder reconstruct crash) w
  closed-Refuses w h relative prefix phase reason content last builder reconstruct crash = (
    write-Refuses relative content prefix w h,
    invalidate-Refuses phase reason last w h,
    commit-Refuses builder reconstruct crash w h,
  )
