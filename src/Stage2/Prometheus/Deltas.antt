-- ===== src/Stage2/Prometheus/Deltas.antt =====
-- src/llm_inference_systems/stage2_prometheus.py: what a counter delta says of its two snapshots.
use llm_inference_systems.Prelude.{
  ◌<◌, ◌≡◌, refl, inl, inr, true, false, Option, [], ◌∷◌, arith, leb, select, list_eq, list_eq-eq,
  list_eq_refl, ok, err, Result-cases, mem,
}
use llm_inference_systems.Sse.Codec.{Text}
use llm_inference_systems.Stage2.Prometheus.{
  Floats, counter_names, stale_or_reordered, Sample, Snapshot, CounterDelta, matches,
  select_exact_series, subtract, derive_counter_delta,
}

module _ (F : Floats) where
  -- `s` is the one sample of the series.
  abbrev pub IsOnly : Snapshot F → Text → Option Text → Sample F → Type 0
  IsOnly snapshot name reason s = select (matches F name reason) snapshot.samples ≡ s ∷ []

  pub record IsDelta (before after : Snapshot F) (name : Text) (reason : Option Text)
      (d : CounterDelta F) : Type 0 where
    pub counter : mem list_eq name counter_names ≡ true
    pub one_process : before.process_start_id ≡ after.process_start_id
    pub later : before.scrape_monotonic_offset_ns < after.scrape_monotonic_offset_ns
    pub first : Sample F
    pub second : Sample F
    pub first_only : IsOnly before name reason first
    pub second_only : IsOnly after name reason second
    pub not_less : F.less second.value first.value ≡ false
    pub result : d ≡ record {
      metric = name;
      labels = first.labels;
      before = first.value;
      after = second.value;
      delta = F.minus second.value first.value;
    }

  select_effect :
      (snapshot : Snapshot F) (name : Text) (reason : Option Text) (s : Sample F)
      → select_exact_series F snapshot name reason ≡ ok s
      → IsOnly snapshot name reason s
  unfolding select_exact_series
  select_effect snapshot name reason s e = ground (arith, e)

  subtract_effect :
      (name : Text) (first second : Sample F) (d : CounterDelta F)
      → subtract F name first second ≡ ok d
      → (F.less second.value first.value ≡ false)
        × (d ≡ record {
          metric = name;
          labels = first.labels;
          before = first.value;
          after = second.value;
          delta = F.minus second.value first.value;
        })
  unfolding subtract
  subtract_effect name first second d e = ground (arith, e)

  gates :
      (before after : Snapshot F) (name : Text) (reason : Option Text) (d : CounterDelta F)
      → derive_counter_delta F before after name reason ≡ ok d
      → (mem list_eq name counter_names ≡ true)
        × (list_eq before.process_start_id after.process_start_id ≡ true)
        × (before.scrape_monotonic_offset_ns < after.scrape_monotonic_offset_ns)
  unfolding derive_counter_delta
  gates before after name reason d e = ground (arith, e)

  samples_of :
      (before after : Snapshot F) (name : Text) (reason : Option Text) (d : CounterDelta F)
      → derive_counter_delta F before after name reason ≡ ok d
      → (first : Sample F) × (second : Sample F) × (select_exact_series F before name reason
          ≡ ok first)
        × (select_exact_series F after name reason ≡ ok second)
        × (subtract F name first second ≡ ok d)
  unfolding derive_counter_delta
  samples_of before after name reason d e =
      elim (Result-cases (select_exact_series F before name reason)) [
        | inr (x, r) ↦ ground (arith, e, r)
        | inl (first, r) ↦ elim (Result-cases (select_exact_series F after name reason)) [
          | inr (y, q) ↦ ground (arith, e, r, q)
          | inl (second, q) ↦ (first, second, r, q, ground (arith, e, r, q))
        ]
      ]

  -- A delta that is returned is of a contract counter in two scrapes of one process, the second strictly
  -- later, each with exactly one sample of the series: it holds their values, which do not decrease, and
  -- their difference.
  pub derive_counter_delta-IsDelta :
      (before after : Snapshot F) (name : Text) (reason : Option Text) (d : CounterDelta F)
      → derive_counter_delta F before after name reason ≡ ok d
      → IsDelta before after name reason d
  derive_counter_delta-IsDelta before after name reason d e =
      let (counter, process, later) = gates before after name reason d e in
      let (first, second, r, q, made) = samples_of before after name reason d e in
      let (not_less, result) = subtract_effect name first second d made in
      record {
        counter = counter;
        one_process = list_eq-eq before.process_start_id after.process_start_id process;
        later = later;
        first = first;
        second = second;
        first_only = select_effect before name reason first r;
        second_only = select_effect after name reason second q;
        not_less = not_less;
        result = result;
      }

  refused_back :
      (before after : Snapshot F) (name : Text) (reason : Option Text)
      → mem list_eq name counter_names ≡ true
      → list_eq after.process_start_id before.process_start_id ≡ true
      → before.scrape_monotonic_offset_ns < after.scrape_monotonic_offset_ns
      → derive_counter_delta F after before name reason ≡ err stale_or_reordered
  unfolding derive_counter_delta
  refused_back before after name reason counter same later =
      let stale : leb before.scrape_monotonic_offset_ns after.scrape_monotonic_offset_ns ≡ true =
        ground arith in
      rw (counter, derive_counter_delta, same, stale) refl

  -- Of two snapshots that gave a delta, the other order is refused as reordered.
  pub derive_counter_delta-refuses :
      (before after : Snapshot F) (name : Text) (reason : Option Text) (d : CounterDelta F)
      → derive_counter_delta F before after name reason ≡ ok d
      → derive_counter_delta F after before name reason ≡ err stale_or_reordered
  derive_counter_delta-refuses before after name reason d e =
      let (counter, process, later) = gates before after name reason d e in
      let same = list_eq-eq before.process_start_id after.process_start_id process in
      refused_back before after name reason counter (rw same (list_eq_refl after.process_start_id))
        later
