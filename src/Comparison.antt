-- ===== src/Comparison.antt =====
-- src/llm_inference_systems/comparison.py: the compatibility of two run artifacts, and the report that
-- it gates. An artifact is the tree of its fields beside those that the code names itself.
pub mod Report
mod Tests
use llm_inference_systems.Prelude.{
  ℕ, ◌+◌, ◌≡◌, refl, inl, inr, Bool, true, false, ◌&&◌, ◌||◌, not, Option, none, some, List, [],
  ◌∷◌, ◌++◌, arith, leb, ◌==◌, if◌then◌else◌, all, any, list_eq, Result, ok, err, Result-cases, ltb,
}
use llm_inference_systems.Sse.Codec.{Text}

-- A field's value: a leaf in its canonical text, or a nested model.
mutual
  pub data Value : Type 0 where
    leaf : Text → Value
    model : Fields → Value

  pub data Fields : Type 0 where
    end : Fields
    field : Text → Value → Fields → Fields

pub record RunArtifact : Type 0 where
  pub fields : Fields
  pub content_hash_valid : Bool
  pub artifact_content_sha256 : Text
  pub goodput_slo_policy_sha256 : Text
  pub failed_count : ℕ
  pub successful_count : ℕ
  pub sample_counts : List ℕ

pub record ComparisonPolicy : Type 0 where
  pub baseline_artifact_sha256 : Text
  pub candidate_artifact_sha256 : Text
  pub slo_policy_sha256 : Text
  pub fields_required_identical : List (List Text)
  pub fields_allowed_to_differ : List (List Text)
  pub failures_invalidate : Bool
  pub minimum_successful_requests : ℕ
  pub minimum_metric_samples : ℕ

pub data FieldError : Type 0 where
  cannot_be_traversed unknown_field : FieldError

pub data Compared : Type 0 where
  baseline_hash_valid candidate_hash_valid baseline_sha256 candidate_sha256 : Compared
  baseline_slo_policy candidate_slo_policy failed_count : Compared
  at_path : List Text → Compared

pub record Mismatch : Type 0 where
  pub compared : Compared
  pub allowed : Bool

pub record Compatibility : Type 0 where
  pub compatible : Bool
  pub mismatches : List Mismatch
  pub baseline_sample_requirement_met : Bool
  pub candidate_sample_requirement_met : Bool

abbrev child : Text → Fields → Option Value
child name end = none
child name (field key value rest) = if list_eq key name then some value else child name rest

-- `_field_value` over the parts of a dotted path.
unfoldable pub field_value : Value → List Text → Result FieldError Value
field_value value [] = ok value
field_value (leaf text) (part ∷ parts) = err cannot_be_traversed
field_value (model fields) (part ∷ parts) = elim (child part fields) [
  | none ↦ err unknown_field
  | some value ↦ field_value value parts
]

unfoldable mutual
  pub value_eq : Value → Value → Bool
  value_eq (leaf a) (leaf b) = list_eq a b
  value_eq (model a) (model b) = fields_eq a b
  value_eq _ _ = false

  pub fields_eq : Fields → Fields → Bool
  fields_eq end end = true
  fields_eq (field k v a) (field l w b) = list_eq k l && (value_eq v w && fields_eq a b)
  fields_eq _ _ = false

-- `_record_mismatch`, with the outcome of the comparison.
abbrev pub record_mismatch : Bool → Compared → Bool → List Mismatch
record_mismatch same compared allowed =
    if same then [] else (record { compared = compared; allowed = allowed }) ∷ []

abbrev pub minimum_samples_met : RunArtifact → ComparisonPolicy → Bool
minimum_samples_met a p =
    leb p.minimum_successful_requests a.successful_count
    && all (λ n. leb p.minimum_metric_samples n) a.sample_counts

abbrev append_to :
    List Mismatch → Result FieldError (List Mismatch) → Result FieldError (List Mismatch)
append_to ms (ok rest) = ok (ms ++ rest)
append_to ms (err e) = err e

-- One of the two loops over the policy's fields.
unfoldable pub compare_fields :
    Bool → RunArtifact → RunArtifact → List (List Text) → Result FieldError (List Mismatch)
compare_fields allowed a b [] = ok []
compare_fields allowed a b (path ∷ paths) = elim (field_value (model a.fields) path) [
  | err e ↦ err e
  | ok x ↦ elim (field_value (model b.fields) path) [
    | err e ↦ err e
    | ok y ↦
        append_to (record_mismatch (value_eq x y) (at_path path) allowed)
          (compare_fields allowed a b paths)
  ]
]

abbrev identities : RunArtifact → RunArtifact → ComparisonPolicy → List Mismatch
identities a b p =
    record_mismatch a.content_hash_valid baseline_hash_valid false
    ++ (record_mismatch b.content_hash_valid candidate_hash_valid false
        ++ (record_mismatch (list_eq p.baseline_artifact_sha256 a.artifact_content_sha256)
              baseline_sha256 false
            ++ (record_mismatch (list_eq p.candidate_artifact_sha256 b.artifact_content_sha256)
                  candidate_sha256 false
                ++ (record_mismatch (list_eq p.slo_policy_sha256 a.goodput_slo_policy_sha256)
                      baseline_slo_policy false
                    ++ record_mismatch (list_eq p.slo_policy_sha256 b.goodput_slo_policy_sha256)
                        candidate_slo_policy false))))

abbrev failures : RunArtifact → RunArtifact → ComparisonPolicy → List Mismatch
failures a b p =
    if p.failures_invalidate
    then record_mismatch (0 == a.failed_count + b.failed_count) failed_count false
    else []

abbrev is_refused : Mismatch → Bool
is_refused m = not m.allowed

abbrev verdict : RunArtifact → RunArtifact → ComparisonPolicy → List Mismatch → Compatibility
verdict a b p ms = record {
  compatible = minimum_samples_met a p && (minimum_samples_met b p && not (any is_refused ms));
  mismatches = ms;
  baseline_sample_requirement_met = minimum_samples_met a p;
  candidate_sample_requirement_met = minimum_samples_met b p;
}

unfoldable pub check_compatibility :
    RunArtifact → RunArtifact → ComparisonPolicy → Result FieldError Compatibility
check_compatibility a b p = elim (compare_fields false a b p.fields_required_identical) [
  | err e ↦ err e
  | ok required ↦ elim (compare_fields true a b p.fields_allowed_to_differ) [
    | err e ↦ err e
    | ok differing ↦
        ok (verdict a b p (identities a b p ++ (required ++ (differing ++ failures a b p))))
  ]
]

any-append :
    (test : Mismatch → Bool) (xs ys : List Mismatch)
    → any test (xs ++ ys) ≡ (any test xs || any test ys)
any-append test [] ys = refl
any-append test (x ∷ xs) ys = ground (arith, any-append test xs ys)

-- Every path of the policy leads to equal values in both artifacts.
abbrev pub same_at : RunArtifact → RunArtifact → List Text → Bool
same_at a b path = elim (field_value (model a.fields) path) [
  | err e ↦ false
  | ok x ↦ elim (field_value (model b.fields) path) [ err e ↦ false | ok y ↦ value_eq x y ]
]

-- One path of a loop that returned.
record Stepped (allowed : Bool) (a b : RunArtifact) (path : List Text) (paths : List (List Text))
    (ms : List Mismatch) : Type 0 where
  x : Value
  y : Value
  rest : List Mismatch
  in_a : field_value (model a.fields) path ≡ ok x
  in_b : field_value (model b.fields) path ≡ ok y
  later : compare_fields allowed a b paths ≡ ok rest
  parts : ms ≡ record_mismatch (value_eq x y) (at_path path) allowed ++ rest

steps_of :
    (allowed : Bool) (a b : RunArtifact) (path : List Text) (paths : List (List Text))
    (ms : List Mismatch)
    → compare_fields allowed a b (path ∷ paths) ≡ ok ms
    → Stepped allowed a b path paths ms
unfolding compare_fields
steps_of allowed a b path paths ms e = elim (Result-cases (field_value (model a.fields) path)) [
  | inr (x, r) ↦ ground (arith, e, r)
  | inl (x, r) ↦ elim (Result-cases (field_value (model b.fields) path)) [
    | inr (y, q) ↦ ground (arith, e, r, q)
    | inl (y, q) ↦ elim (Result-cases (compare_fields allowed a b paths)) [
      | inr (z, l) ↦ ground (arith, e, r, q, l)
      | inl (rest, l) ↦ record {
        x = x;
        y = y;
        rest = rest;
        in_a = r;
        in_b = q;
        later = l;
        parts = ground (arith, e, r, q, l);
      }
    ]
  ]
]

same_at-both :
    (a b : RunArtifact) (path : List Text) (x y : Value)
    → field_value (model a.fields) path ≡ ok x
    → field_value (model b.fields) path ≡ ok y
    → same_at a b path ≡ value_eq x y
same_at-both a b path x y r q = ground (arith, r, q)

required_fields :
    (a b : RunArtifact) (paths : List (List Text)) (ms : List Mismatch)
    → compare_fields false a b paths ≡ ok ms
    → any is_refused ms ≡ not (all (same_at a b) paths)
required_fields a b [] ms e = unfold compare_fields in ground (arith, e)
required_fields a b (path ∷ paths) ms e =
    let s = steps_of false a b path paths ms e in
    let ih = required_fields a b paths s.rest s.later in
    rw
      (
        s.parts,
        any-append is_refused (record_mismatch (value_eq s.x s.y) (at_path path) false) s.rest,
        same_at-both a b path s.x s.y s.in_a s.in_b,
        ih,
      )
      (either (value_eq s.x s.y) (all (same_at a b) paths) path)
  where
    either :
        (same rest : Bool) (path : List Text)
        → (any is_refused (record_mismatch same (at_path path) false) || not rest)
          ≡ not (same && rest)
    either true rest path = refl
    either false rest path = refl

allowed_fields :
    (a b : RunArtifact) (paths : List (List Text)) (ms : List Mismatch)
    → compare_fields true a b paths ≡ ok ms
    → any is_refused ms ≡ false
allowed_fields a b [] ms e = unfold compare_fields in ground (arith, e)
allowed_fields a b (path ∷ paths) ms e =
    let s = steps_of true a b path paths ms e in
    let ih = allowed_fields a b paths s.rest s.later in
    rw
      (
        s.parts,
        any-append is_refused (record_mismatch (value_eq s.x s.y) (at_path path) true) s.rest,
        ih,
      )
      (never (value_eq s.x s.y) path)
  where
    never :
        (same : Bool) (path : List Text)
        → (any is_refused (record_mismatch same (at_path path) true) || false) ≡ false
    never true path = refl
    never false path = refl

-- An artifact with enough requests and, of every metric, enough samples.
abbrev pub has_enough : RunArtifact → ComparisonPolicy → Bool
has_enough a p =
    leb p.minimum_successful_requests a.successful_count
    && not (any (λ n. ltb n p.minimum_metric_samples) a.sample_counts)

-- An artifact with a valid content hash, which is the one that the policy names, under its SLO policy.
abbrev pub is_expected : RunArtifact → Text → ComparisonPolicy → Bool
is_expected a expected p =
    a.content_hash_valid
    && (list_eq expected a.artifact_content_sha256
        && list_eq p.slo_policy_sha256 a.goodput_slo_policy_sha256)

-- What the two artifacts must fulfil.
abbrev pub may_compare : RunArtifact → RunArtifact → ComparisonPolicy → Bool
may_compare a b p =
    (has_enough a p && has_enough b p)
    && ((is_expected a p.baseline_artifact_sha256 p && is_expected b p.candidate_artifact_sha256 p)
        && (all (same_at a b) p.fields_required_identical
            && (not p.failures_invalidate || (a.failed_count == 0 && b.failed_count == 0))))

samples-enough :
    (least : ℕ) (counts : List ℕ)
    → all (λ n. leb least n) counts ≡ not (any (λ n. ltb n least) counts)
samples-enough least [] = refl
samples-enough least (n ∷ counts) = ground (arith, samples-enough least counts)

minimum_samples_met-has_enough :
    (a : RunArtifact) (p : ComparisonPolicy) → minimum_samples_met a p ≡ has_enough a p
minimum_samples_met-has_enough a p =
    rw (samples-enough p.minimum_metric_samples a.sample_counts) refl

identities-is_expected :
    (a b : RunArtifact) (p : ComparisonPolicy)
    → not (any is_refused (identities a b p))
      ≡ (is_expected a p.baseline_artifact_sha256 p && is_expected b p.candidate_artifact_sha256 p)
identities-is_expected a b p = ground arith

failures-none :
    (a b : RunArtifact) (p : ComparisonPolicy)
    → not (any is_refused (failures a b p))
      ≡ (not p.failures_invalidate || (a.failed_count == 0 && b.failed_count == 0))
failures-none a b p = ground arith

-- When the policy's paths exist in both artifacts, they are compatible exactly if each has enough
-- requests and samples, a valid content hash, which is the one that the policy names for it, and the
-- policy's SLO hash, every required field is identical, and, where the policy says so, neither has a
-- failed request; the fields that may differ never decide.
pub check_compatibility-decides :
    (a b : RunArtifact) (p : ComparisonPolicy) (c : Compatibility)
    → check_compatibility a b p ≡ ok c
    → c.compatible ≡ may_compare a b p
check_compatibility-decides a b p c e =
    elim (Result-cases (compare_fields false a b p.fields_required_identical)) [
      | inr (x, r) ↦ unfold check_compatibility in ground (arith, e, r)
      | inl (required, r) ↦
          elim (Result-cases (compare_fields true a b p.fields_allowed_to_differ)) [
            | inr (y, q) ↦ unfold check_compatibility in ground (arith, e, r, q)
            | inl (differing, q) ↦
                let same : c
                    ≡ verdict a b p
                        (identities a b p ++ (required ++ (differing ++ failures a b p))) =
                  unfold check_compatibility in ground (arith, e, r, q) in
                rw
                  (
                    same,
                    any-append is_refused (identities a b p)
                        (required ++ (differing ++ failures a b p)),
                    any-append is_refused required (differing ++ failures a b p),
                    any-append is_refused differing (failures a b p),
                    required_fields a b p.fields_required_identical required r,
                    allowed_fields a b p.fields_allowed_to_differ differing q,
                  )
                  (decided (any is_refused (identities a b p))
                    (all (same_at a b) p.fields_required_identical)
                    (any is_refused (failures a b p)) (minimum_samples_met-has_enough a p)
                    (minimum_samples_met-has_enough b p) (identities-is_expected a b p)
                    (failures-none a b p))
          ]
    ]
  where
    decided :
        {m n m2 n2 i2 f2 : Bool} (i s f : Bool)
        → m ≡ m2
        → n ≡ n2
        → not i ≡ i2
        → not f ≡ f2
        → (m && (n && not (i || (not s || (false || f))))) ≡ ((m2 && n2) && (i2 && (s && f2)))
    decided i s f hm hn hi hf = ground arith
