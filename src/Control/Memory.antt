-- ===== src/Control/Memory.antt =====
-- src/llm_inference_systems/stage2_runtime.py: the stability of the GPU's memory.
use llm_inference_systems.Prelude.{
  ℕ, ◌+◌, ◌-◌, ◌/◌, ◌≤◌, ◌≡◌, refl, Bool, true, ◌&&◌, not, List, [], ◌∷◌, arith, ltb, leb, ◌==◌,
  if◌then◌else◌, length, all, Result, ok, err, pairs_hold,
}

pub record GpuMemorySample : Type 0 where
  pub observation_offset_ns : ℕ
  pub allocated_bytes : ℕ

pub data MemoryError : Type 0 where
  not_five_samples too_close unstable : MemoryError

abbrev max : ℕ → ℕ → ℕ
max a b = if ltb a b then b else a

abbrev min : ℕ → ℕ → ℕ
min a b = if ltb a b then a else b

abbrev greatest : ℕ → List GpuMemorySample → ℕ
greatest m [] = m
greatest m (s ∷ samples) = greatest (max m s.allocated_bytes) samples

abbrev least : ℕ → List GpuMemorySample → ℕ
least m [] = m
least m (s ∷ samples) = least (min m s.allocated_bytes) samples

unfoldable pub gpu_memory_tolerance_bytes : List GpuMemorySample → Result MemoryError ℕ
gpu_memory_tolerance_bytes [] = err not_five_samples
gpu_memory_tolerance_bytes (s ∷ samples) =
    if length (s ∷ samples) == 5
    then ok (max ((s.allocated_bytes + 99) / 100) 67108864)
    else err not_five_samples

abbrev pub spaced : GpuMemorySample → GpuMemorySample → Bool
spaced left right = leb (left.observation_offset_ns + 200000000) right.observation_offset_ns

unfoldable pub check_stability : ℕ → List GpuMemorySample → Result MemoryError ℕ
check_stability tolerance [] = err not_five_samples
check_stability tolerance (s ∷ samples) =
    if not (pairs_hold spaced (s ∷ samples))
    then err too_close
    else if ltb tolerance (greatest s.allocated_bytes samples - least s.allocated_bytes samples)
    then err unstable
    else ok tolerance

unfoldable pub validate_gpu_memory_stability : List GpuMemorySample → Result MemoryError ℕ
validate_gpu_memory_stability samples = elim (gpu_memory_tolerance_bytes samples) [
  | err e ↦ err e
  | ok tolerance ↦ check_stability tolerance samples
]

abbrev pub within_bounds : ℕ → ℕ → GpuMemorySample → Bool
within_bounds low high s = leb low s.allocated_bytes && leb s.allocated_bytes high

greatest-bound : (m : ℕ) (samples : List GpuMemorySample) → m ≤ greatest m samples
greatest-bound m [] = omega arith
greatest-bound m (s ∷ samples) = ground (arith, greatest-bound (max m s.allocated_bytes) samples)

least-bound : (m : ℕ) (samples : List GpuMemorySample) → least m samples ≤ m
least-bound m [] = omega arith
least-bound m (s ∷ samples) = ground (arith, least-bound (min m s.allocated_bytes) samples)

all_within :
    (low high : ℕ) (samples : List GpuMemorySample)
    → all (within_bounds (least low samples) (greatest high samples)) samples ≡ true
all_within low high [] = refl
all_within low high (s ∷ samples) =
    let upper = greatest-bound (max high s.allocated_bytes) samples in
    let lower = least-bound (min low s.allocated_bytes) samples in
    ground (
      arith,
      all_within (min low s.allocated_bytes) (max high s.allocated_bytes) samples,
      upper,
      lower,
    )

-- Five samples, each 200 milliseconds after the one before, and their bytes in an interval no wider
-- than the tolerance.
pub record IsStable (samples : List GpuMemorySample) (tolerance : ℕ) : Type 0 where
  pub five : length samples ≡ 5
  pub apart : pairs_hold spaced samples ≡ true
  pub at_least : 67108864 ≤ tolerance
  pub low : ℕ
  pub high : ℕ
  pub narrow : high - low ≤ tolerance
  pub inside : all (within_bounds low high) samples ≡ true

stability_effect :
    (s : GpuMemorySample) (samples : List GpuMemorySample) (t : ℕ)
    → validate_gpu_memory_stability (s ∷ samples) ≡ ok t
    → (length (s ∷ samples) ≡ 5)
      × (pairs_hold spaced (s ∷ samples) ≡ true)
      × (67108864 ≤ t)
      × (greatest s.allocated_bytes samples - least s.allocated_bytes samples ≤ t)
unfolding validate_gpu_memory_stability gpu_memory_tolerance_bytes check_stability
stability_effect s samples t e = ground (arith, e)

-- Samples that the validator accepts are stable within the tolerance that it returns.
pub validate_gpu_memory_stability-IsStable :
    (samples : List GpuMemorySample) (t : ℕ)
    → validate_gpu_memory_stability samples ≡ ok t
    → IsStable samples t
validate_gpu_memory_stability-IsStable [] t e =
    unfold validate_gpu_memory_stability gpu_memory_tolerance_bytes in cc
validate_gpu_memory_stability-IsStable (s ∷ samples) t e =
    let (five, apart, at_least, narrow) = stability_effect s samples t e in
    let upper = greatest-bound s.allocated_bytes samples in
    let lower = least-bound s.allocated_bytes samples in
    record {
      five = five;
      apart = apart;
      at_least = at_least;
      low = least s.allocated_bytes samples;
      high = greatest s.allocated_bytes samples;
      narrow = narrow;
      inside = ground (arith, all_within s.allocated_bytes s.allocated_bytes samples, upper, lower);
    }
