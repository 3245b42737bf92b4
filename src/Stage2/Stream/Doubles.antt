-- ===== src/Stage2/Stream/Doubles.antt =====
-- src/llm_inference_systems/stage2_protocol.py and stage2_contracts.py: the metrics that the builder
-- takes in doubles are those of the contract, for offsets up to 2 ^ 53 nanoseconds.
use llm_inference_systems.Prelude.{
  ℕ, suc, ◌+◌, ◌-◌, ◌^◌, ◌≤◌, ◌<◌, ◌≡◌, refl, inl, inr, Bool, true, false, ◌&&◌, some, List, [],
  ◌∷◌, map, arith, leb, if◌then◌else◌, Bool-cases, length, all, any, sum, sym, ap, ◌∙◌,
  Option-cases, ok, ℤ, pos, sub_ℕ, ◌+ℤ◌, sub_ℕ-exact, is_sorted, Option-cases,
}
use llm_inference_systems.Stage2.Evidence.{
  Library, TokenEvent, Metric, value, grouped_token_event, nonempty, token_bearing, offsets,
  gaps_from, gaps, is_grouped, sum_int, floats, metric_is, metric_is_grouped,
}
use llm_inference_systems.Stage2.Stream.Close.{tpot_and_itl, mean_gap}

-- What doubles do with integers up to 2 ^ 53, which they hold exactly: a quotient is a double of its
-- own, and naturals with a sum up to there have the sum of their doubles, divided by their number, as
-- the quotient of the integers.
pub record IsExact (L : Library) : Type 0 where
  pub quotient :
      (n d : ℕ)
      → n ≤ 2 ^ 53
      → 0 < d
      → (q : ℕ) × (L.int_divide (pos n) d ≡ some q)
        × (L.is_nonnegative q ≡ true)
        × (L.double_eq q q ≡ true)
  pub mean :
      (ns : List ℕ) (count : ℕ)
      → length ns ≡ count
      → sum ns ≤ 2 ^ 53
      → 0 < count
      → (ds : List ℕ) × (q : ℕ) × (floats L (map pos ns) ≡ some ds)
        × (L.int_divide (pos (sum ns)) count ≡ some q)
        × (L.double_eq (L.float_divide (L.float_sum ds) count) q ≡ true)
        × (L.is_nonnegative (L.float_divide (L.float_sum ds) count) ≡ true)

floats-length :
    (L : Library) (ns : List ℤ) (ds : List ℕ) → floats L ns ≡ some ds → length ds ≡ length ns
unfolding floats
floats-length L [] ds e = ground (arith, e)
floats-length L (n ∷ ns) ds e = elim (Option-cases (L.float n)) [
  | inl f ↦ ground (arith, e, f)
  | inr (d, f) ↦ elim (Option-cases (floats L ns)) [
    | inl g ↦ ground (arith, e, f, g)
    | inr (rest, g) ↦ ground (arith, e, f, g, floats-length L ns rest g)
  ]
]

sorted_below :
    (left o : ℕ) (xs : List ℕ) → left ≤ o → is_sorted (o ∷ xs) ≡ true → is_sorted (left ∷ xs) ≡ true
sorted_below left o [] b s = refl
sorted_below left o (x ∷ xs) b s = ground (arith, b, s)

sorted_tail : (o : ℕ) (xs : List ℕ) → is_sorted (o ∷ xs) ≡ true → is_sorted xs ≡ true
sorted_tail o [] s = refl
sorted_tail o (x ∷ xs) s = ground (arith, s)

-- The events that bear tokens are sorted where all are.
bearing_sorted :
    (left : ℕ) (events : List TokenEvent)
    → is_sorted (left ∷ offsets events) ≡ true
    → is_sorted (left ∷ offsets (token_bearing events)) ≡ true
bearing_sorted left [] s = refl
bearing_sorted left (e ∷ events) s = elim (Bool-cases (nonempty e.output_token_ids)) [
  | inl h ↦
      let first : left ≤ e.observation_offset_ns = ground (arith, s) in
      let rest = bearing_sorted e.observation_offset_ns events (ground (arith, s)) in
      ground (arith, h, first, rest)
  | inr h ↦
      let first : left ≤ e.observation_offset_ns = ground (arith, s) in
      let rest =
        bearing_sorted left events
          (sorted_below left e.observation_offset_ns (offsets events) first (ground (arith, s))) in
      ground (arith, h, rest)
]

pub token_bearing-below :
    (high : ℕ) (events : List TokenEvent)
    → all (λ o. leb o high) (offsets events) ≡ true
    → all (λ o. leb o high) (offsets (token_bearing events)) ≡ true
token_bearing-below high [] s = refl
token_bearing-below high (e ∷ events) s = elim (Bool-cases (nonempty e.output_token_ids)) [
  | inl h ↦ ground (arith, h, s, token_bearing-below high events (ground (arith, s)))
  | inr h ↦ ground (arith, h, s, token_bearing-below high events (ground (arith, s)))
]

pub token_bearing-sorted :
    (events : List TokenEvent)
    → is_sorted (offsets events) ≡ true
    → is_sorted (offsets (token_bearing events)) ≡ true
token_bearing-sorted [] s = refl
token_bearing-sorted (e ∷ events) s = elim (Bool-cases (nonempty e.output_token_ids)) [
  | inl h ↦ let rest = bearing_sorted e.observation_offset_ns events s in rw h rest
  | inr h ↦
      rw h (token_bearing-sorted events (sorted_tail e.observation_offset_ns (offsets events) s))
]

-- Naturals with the gaps of sorted events, which end no later than the last of them.
record NaturalGaps (left high : ℕ) (events : List TokenEvent) : Type 0 where
  naturals : List ℕ
  same : gaps_from left events ≡ map pos naturals
  total : sum naturals + left ≤ high

gaps_from-NaturalGaps :
    (left high : ℕ) (events : List TokenEvent)
    → left ≤ high
    → is_sorted (left ∷ offsets events) ≡ true
    → all (λ o. leb o high) (offsets events) ≡ true
    → NaturalGaps left high events
gaps_from-NaturalGaps left high [] b s d = record {
  naturals = [];
  same = refl;
  total = omega (arith, b);
}
gaps_from-NaturalGaps left high (e ∷ events) b s d =
    let at = e.observation_offset_ns in
    let first : left ≤ at = ground (arith, s) in
    let rest =
      gaps_from-NaturalGaps at high events (ground (arith, d)) (ground (arith, s))
        (ground (arith, d)) in
    record {
      naturals = (at - left) ∷ rest.naturals;
      same = rw (sub_ℕ-exact at left first, rest.same) refl;
      total = omega (arith, first, rest.total);
    }

sum_int-pos : (ns : List ℕ) → sum_int (map pos ns) ≡ pos (sum ns)
unfolding sum_int ◌+ℤ◌
sum_int-pos [] = refl
sum_int-pos (n ∷ ns) = rw (sum_int-pos ns) (ground arith)

abbrev pub metrics_fit : Library → ℕ → TokenEvent → List TokenEvent → Metric × Metric → Bool
metrics_fit L generation first rest m =
    if any is_grouped (first ∷ rest)
    then metric_is_grouped m.0 && metric_is_grouped m.1
    else metric_is L m.0 (L.int_divide (sub_ℕ generation first.observation_offset_ns) 31)
      && metric_is L m.1
          (L.int_divide (sum_int (gaps (first ∷ rest))) (length (gaps (first ∷ rest))))

length-pos : (ns : List ℕ) → length (map pos ns) ≡ length ns
length-pos [] = refl
length-pos (n ∷ ns) = ap (λ k. suc k) (length-pos ns)

mean_gap-made :
    (L : Library) (ints : List ℤ) (ds : List ℕ)
    → floats L ints ≡ some ds
    → length ds ≡ 31
    → L.is_nonnegative (L.float_divide (L.float_sum ds) 31) ≡ true
    → mean_gap L ints ≡ ok (value (L.float_divide (L.float_sum ds) 31))
unfolding mean_gap
mean_gap-made L ints ds converted count positive = rw (mean_gap, converted, count, positive) refl

mean_gap-ok :
    (L : Library)
    → IsExact L
    → (ints : List ℤ) (ns : List ℕ) → ints ≡ map pos ns
    → sum ns ≤ 2 ^ 53
    → length ints ≡ 31
    → (m : Metric) × (mean_gap L ints ≡ ok m)
      × (metric_is L m (L.int_divide (sum_int ints) (length ints)) ≡ true)
mean_gap-ok L exact ints ns same bound full =
    let size : length ns ≡ 31 = sym (length-pos ns) ∙ (ap length (sym same) ∙ full) in
    let (ds, q, converted, divided, equal, positive) = exact.mean ns 31 size bound (omega arith) in
    let count : length ds ≡ 31 =
      floats-length L (map pos ns) ds converted ∙ (length-pos ns ∙ size) in
    let total : sum_int ints ≡ pos (sum ns) = ap sum_int same ∙ sum_int-pos ns in
    (
      value (L.float_divide (L.float_sum ds) 31),
      mean_gap-made L ints ds (rw same converted) count positive,
      rw (full, total, divided) equal,
    )

-- The two metrics exist, since a stream of single tokens has 31 gaps, and are those of the contract.
pub metrics_of :
    (L : Library)
    → IsExact L
    → (generation : ℕ) (first : TokenEvent) (rest : List TokenEvent)
    → first.observation_offset_ns ≤ generation
    → generation ≤ 2 ^ 53
    → is_sorted (offsets (first ∷ rest)) ≡ true
    → all (λ o. leb o (2 ^ 53)) (offsets (first ∷ rest)) ≡ true
    → (any is_grouped (first ∷ rest) ≡ false → length (gaps (first ∷ rest)) ≡ 31)
    → (m : Metric × Metric) × (tpot_and_itl L generation (first ∷ rest) first.observation_offset_ns
        ≡ ok m)
      × (metrics_fit L generation first rest m ≡ true)
unfolding tpot_and_itl
metrics_of L exact generation first rest below high sorted dated full =
    elim (Bool-cases (any is_grouped (first ∷ rest))) [
      | inl grouped ↦ ((grouped_token_event, grouped_token_event), rw grouped, rw grouped)
      | inr single ↦
          let (q, divided, positive, itself) =
            exact.quotient (generation - first.observation_offset_ns) 31 (omega (arith, high))
              (omega arith) in
          let tpot : L.int_divide (sub_ℕ generation first.observation_offset_ns) 31 ≡ some q =
            rw (sub_ℕ-exact generation first.observation_offset_ns below) divided in
          let g =
            gaps_from-NaturalGaps first.observation_offset_ns (2 ^ 53) rest
              (omega (arith, below, high)) sorted (ground (arith, dated)) in
          let (itl, made, fits) =
            mean_gap-ok L exact (gaps (first ∷ rest)) g.naturals g.same (omega (arith, g.total))
              (full single) in
          (
            (value q, itl),
            rw (single, tpot, positive, made) refl,
            rw (single, tpot, itself, fits) refl,
          )
    ]
