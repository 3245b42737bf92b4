-- ===== src/Comparison/Report.antt =====
-- src/llm_inference_systems/comparison.py: the metric deltas, and the report that has them only of
-- compatible artifacts. Python's floating-point numbers are the parameter Floats; the report's
-- identities, times and content hash are left out.
use llm_inference_systems.Prelude.{
  ◌≡◌, refl, inl, inr, Bool, true, false, ◌&&◌, Option, none, some, List, [], ◌∷◌, ◌++◌, map, arith,
  if◌then◌else◌, is_some, ◌⊎◌, ◌∙◌, codes, list_eq, select, Bool-cases, Result, ok, err,
  Result-cases,
}
use llm_inference_systems.Sse.Codec.{Text}
use llm_inference_systems.Stage2.Prometheus.{Floats}
use llm_inference_systems.Comparison.{
  RunArtifact, ComparisonPolicy, Compatibility, FieldError, check_compatibility, may_compare,
  check_compatibility-decides,
}

abbrev pub metric_names : List Text
metric_names =
    codes "successful_request_throughput"
    ∷ codes "goodput"
    ∷ codes "failure_rate"
    ∷ codes "timeout_rate"
    ∷ codes "ttft.p50"
    ∷ codes "ttft.p95"
    ∷ codes "ttft.p99"
    ∷ codes "end_to_end_success.p50"
    ∷ codes "end_to_end_success.p95"
    ∷ codes "end_to_end_success.p99"
    ∷ codes "tpot.p50"
    ∷ codes "tpot.p95"
    ∷ codes "tpot.p99"
    ∷ codes "itl.p50"
    ∷ codes "itl.p95"
    ∷ codes "itl.p99"
    ∷ []

module _ (F : Floats) (divide : F.number → F.number → F.number) where
  pub record MetricDelta : Type 0 where
    pub metric : Text
    pub baseline_value : F.number
    pub candidate_value : F.number
    pub absolute_delta : F.number
    pub relative_delta : Option F.number

  pub record Distribution : Type 0 where
    pub p50 : Option F.number
    pub p95 : Option F.number
    pub p99 : Option F.number

  -- The floating-point part of an artifact's summary.
  pub record Summary : Type 0 where
    pub successful_request_throughput : F.number
    pub goodput : F.number
    pub failure_rate : F.number
    pub timeout_rate : F.number
    pub ttft : Distribution
    pub end_to_end_success : Distribution
    pub tpot : Distribution
    pub itl : Distribution

  pub record Artifact : Type 0 where
    pub run : RunArtifact
    pub summary : Summary

  unfoldable pub delta : Text → F.number → F.number → MetricDelta
  delta metric baseline candidate =
      let absolute = F.minus candidate baseline in
      record {
        metric = metric;
        baseline_value = baseline;
        candidate_value = candidate;
        absolute_delta = absolute;
        relative_delta =
            if F.equal baseline (F.of_nat 0) then none else some (divide absolute baseline);
      }

  -- One round of the inner loop, before the deltas of the later ones.
  abbrev both : Text → Option F.number → Option F.number → List MetricDelta → List MetricDelta
  both name (some a) (some b) later = delta name a b ∷ later
  both name _ _ later = later

  abbrev percentiles : Text → Distribution → Distribution → List MetricDelta → List MetricDelta
  percentiles name a b later =
      both (name ++ codes ".p50") a.p50 b.p50
        (both (name ++ codes ".p95") a.p95 b.p95 (both (name ++ codes ".p99") a.p99 b.p99 later))

  unfoldable pub metric_deltas : Summary → Summary → List MetricDelta
  metric_deltas a b =
      delta (codes "successful_request_throughput") a.successful_request_throughput
        b.successful_request_throughput
      ∷ delta (codes "goodput") a.goodput b.goodput
      ∷ delta (codes "failure_rate") a.failure_rate b.failure_rate
      ∷ delta (codes "timeout_rate") a.timeout_rate b.timeout_rate
      ∷ percentiles (codes "ttft") a.ttft b.ttft (
          percentiles (codes "end_to_end_success") a.end_to_end_success b.end_to_end_success
            (percentiles (codes "tpot") a.tpot b.tpot (percentiles (codes "itl") a.itl b.itl [])))

  pub record ComparisonReport : Type 0 where
    pub compatibility : Compatibility
    pub deltas : List MetricDelta

  unfoldable pub create_comparison_report :
      Artifact → Artifact → ComparisonPolicy → Result FieldError ComparisonReport
  create_comparison_report a b p = elim (check_compatibility a.run b.run p) [
    | err e ↦ err e
    | ok c ↦ ok (record {
      compatibility = c;
      deltas = if c.compatible then metric_deltas a.summary b.summary else [];
    })
  ]

  abbrev find : Text → List (Text × Option F.number) → Option F.number
  find name [] = none
  find name (p ∷ rest) = if list_eq p.0 name then p.1 else find name rest

  -- The value of a metric by its name, where the summary has one.
  unfoldable pub value_of : Summary → Text → Option F.number
  value_of s name = find name (
      (codes "successful_request_throughput", some s.successful_request_throughput)
      ∷ (codes "goodput", some s.goodput)
      ∷ (codes "failure_rate", some s.failure_rate)
      ∷ (codes "timeout_rate", some s.timeout_rate)
      ∷ (codes "ttft.p50", s.ttft.p50)
      ∷ (codes "ttft.p95", s.ttft.p95)
      ∷ (codes "ttft.p99", s.ttft.p99)
      ∷ (codes "end_to_end_success.p50", s.end_to_end_success.p50)
      ∷ (codes "end_to_end_success.p95", s.end_to_end_success.p95)
      ∷ (codes "end_to_end_success.p99", s.end_to_end_success.p99)
      ∷ (codes "tpot.p50", s.tpot.p50)
      ∷ (codes "tpot.p95", s.tpot.p95)
      ∷ (codes "tpot.p99", s.tpot.p99)
      ∷ (codes "itl.p50", s.itl.p50)
      ∷ (codes "itl.p95", s.itl.p95)
      ∷ (codes "itl.p99", s.itl.p99)
      ∷ [])

  abbrev pub in_both : Summary → Summary → Text → Bool
  in_both a b name = is_some (value_of a name) && is_some (value_of b name)

  -- A delta has the values of its metric in both summaries, and what lies between them.
  pub record IsDelta (a b : Summary) (d : MetricDelta) : Type 0 where
    pub baseline : value_of a d.metric ≡ some d.baseline_value
    pub candidate : value_of b d.metric ≡ some d.candidate_value
    pub absolute : d.absolute_delta ≡ F.minus d.candidate_value d.baseline_value
    pub relative : d.relative_delta ≡ (
        if F.equal d.baseline_value (F.of_nat 0)
        then none
        else some (divide d.absolute_delta d.baseline_value))

  abbrev pub Deltas : Summary → Summary → List MetricDelta → Type 0
  Deltas a b [] = Unit
  Deltas a b (d ∷ ds) = IsDelta a b d × Deltas a b ds

  -- The deltas are those of the names that both summaries have a value of, in the order of the names.
  pub record Covers (a b : Summary) (names : List Text) (ds : List MetricDelta) : Type 0 where
    pub names_in_order : map (λ d. d.metric) ds ≡ select (in_both a b) names
    pub each : Deltas a b ds

  delta-IsDelta :
      (a b : Summary) (name : Text) (x y : F.number)
      → value_of a name ≡ some x
      → value_of b name ≡ some y
      → IsDelta a b (delta name x y)
  unfolding delta
  delta-IsDelta a b name x y p q = record {
    baseline = p;
    candidate = q;
    absolute = refl;
    relative = refl;
  }

  scalar-Covers :
      (a b : Summary) (name : Text) (x y : F.number) (names : List Text) (ds : List MetricDelta)
      → value_of a name ≡ some x
      → value_of b name ≡ some y
      → Covers a b names ds
      → Covers a b (name ∷ names) (delta name x y ∷ ds)
  unfolding delta
  scalar-Covers a b name x y names ds p q c = record {
    names_in_order = rw (p, q, c.names_in_order) refl;
    each = (delta-IsDelta a b name x y p q, c.each);
  }

  both-Covers :
      (a b : Summary) (name : Text) (x y : Option F.number) (names : List Text)
      (ds : List MetricDelta)
      → value_of a name ≡ x
      → value_of b name ≡ y
      → Covers a b names ds
      → Covers a b (name ∷ names) (both name x y ds)
  both-Covers a b name (some x) (some y) names ds p q c = scalar-Covers a b name x y names ds p q c
  both-Covers a b name none y names ds p q c = record {
    names_in_order = rw (p, c.names_in_order) refl;
    each = c.each;
  }
  both-Covers a b name (some x) none names ds p q c = record {
    names_in_order = rw (p, q, c.names_in_order) refl;
    each = c.each;
  }

  -- The three percentiles of a distribution.
  percentiles-Covers :
      (a b : Summary) (n50 n95 n99 : Text) (x y : Distribution) (names : List Text)
      (ds : List MetricDelta)
      → (value_of a n50 ≡ x.p50) × (value_of b n50 ≡ y.p50)
      → (value_of a n95 ≡ x.p95) × (value_of b n95 ≡ y.p95)
      → (value_of a n99 ≡ x.p99) × (value_of b n99 ≡ y.p99)
      → Covers a b names ds
      → Covers a b
          (n50 ∷ n95 ∷ n99 ∷ names)
          (both n50 x.p50 y.p50 (both n95 x.p95 y.p95 (both n99 x.p99 y.p99 ds)))
  percentiles-Covers a b n50 n95 n99 x y names ds (p, q) (r, s) (t, u) c =
      both-Covers a b n50 x.p50 y.p50 _ _ p q
        (both-Covers a b n95 x.p95 y.p95 _ _ r s (both-Covers a b n99 x.p99 y.p99 names ds t u c))

  metric_deltas-Covers : (a b : Summary) → Covers a b metric_names (metric_deltas a b)
  unfolding metric_deltas value_of
  metric_deltas-Covers a b =
      scalar-Covers a b (codes "successful_request_throughput") a.successful_request_throughput
        b.successful_request_throughput _ _ refl refl
        (scalar-Covers a b (codes "goodput") a.goodput b.goodput _ _ refl refl (
          scalar-Covers a b (codes "failure_rate") a.failure_rate b.failure_rate _ _ refl refl (
            scalar-Covers a b (codes "timeout_rate") a.timeout_rate b.timeout_rate _ _ refl refl (
              percentiles-Covers a b (codes "ttft.p50") (codes "ttft.p95") (codes "ttft.p99") a.ttft
                b.ttft _ _ (refl, refl) (refl, refl) (refl, refl)
                (percentiles-Covers a b (codes "end_to_end_success.p50")
                  (codes "end_to_end_success.p95") (codes "end_to_end_success.p99")
                  a.end_to_end_success b.end_to_end_success _ _ (refl, refl) (refl, refl)
                  (refl, refl)
                  (percentiles-Covers a b (codes "tpot.p50") (codes "tpot.p95") (codes "tpot.p99")
                    a.tpot b.tpot _ _ (refl, refl) (refl, refl) (refl, refl)
                    (percentiles-Covers a b (codes "itl.p50") (codes "itl.p95") (codes "itl.p99")
                      a.itl b.itl _ _ (refl, refl) (refl, refl) (refl, refl)
                      (record { names_in_order = refl; each = tt }))))))))

  -- A report that is returned has no deltas if the artifacts may not be compared. If they may, its
  -- deltas are of exactly those of the sixteen metrics that both summaries have a value of, in their
  -- order, and each has both values, their difference, and its quotient by a baseline that is not zero.
  pub create_comparison_report-gates :
      (a b : Artifact) (p : ComparisonPolicy) (r : ComparisonReport)
      → create_comparison_report a b p ≡ ok r
      → ((may_compare a.run b.run p ≡ false) × (r.deltas ≡ []))
        ⊎ ((may_compare a.run b.run p ≡ true) × Covers a.summary b.summary metric_names r.deltas)
  create_comparison_report-gates a b p r e =
      elim (Result-cases (check_compatibility a.run b.run p)) [
        | inr (x, q) ↦ unfold create_comparison_report in ground (arith, e, q)
        | inl (c, q) ↦
            let same : r ≡ record {
              compatibility = c;
              deltas = if c.compatible then metric_deltas a.summary b.summary else [];
            } =
              unfold create_comparison_report in ground (arith, e, q) in
            let decided = check_compatibility-decides a.run b.run p c q in
            elim (Bool-cases (may_compare a.run b.run p)) [
              | inr refused ↦ inl (refused, rw (same, decided ∙ refused) refl)
              | inl may ↦
                  inr (may, rw (same, decided ∙ may) (metric_deltas-Covers a.summary b.summary))
            ]
      ]
