-- ===== src/Benchmark/Chosen.antt =====
-- What a benchmark of the layouts gives, on every path.
use topo_llvm.Prelude.{false, none, ◌↔◌, ◌≡◌, ◌⊎◌, ℕ, ◌≤◌, true, Option, some, arith}
use topo_llvm.Prelude.Doubles.{Doubles}
use topo_llvm.Prelude.Int.{ℤ}
use topo_llvm.Sema.{CardinalityHint, AccessPattern}
use topo_llvm.Benchmark.Lab.{Lab}
use topo_llvm.Benchmark.Layout.{
  LayoutBenchmarkResult, LayoutVariantPair, aos, soa, positive_or, ordered, representative,
  compute_buffer_elements,
}

representative_bounds :
    (mean : ℕ → ℕ → ℕ) (m : ℕ) → (1 ≤ representative mean m) × (representative mean m ≤ 262144)
unfolding representative
representative_bounds mean m = ground arith

-- A hint with a positive bound gives a number of elements from 1 to 2^18, whatever the root comes to.
pub compute_buffer_elements_bounds :
    (mean : ℕ → ℕ → ℕ) (hint : CardinalityHint) (n : ℕ)
    → compute_buffer_elements mean (some hint) ≡ some n
    → (1 ≤ n) × (n ≤ 262144)
unfolding compute_buffer_elements
compute_buffer_elements_bounds mean hint n h =
    let lo : ℕ = positive_or hint.min 1 in
    grind (arith, representative_bounds mean (ordered mean lo (positive_or hint.max lo)))

module _ (D : Doubles) (lab : Lab D) (mean : ℕ → ℕ → ℕ)
    (estimate : lab.Ir
      → LayoutVariantPair
      → Option CardinalityHint
      → AccessPattern
      → Option (LayoutBenchmarkResult D.Double))
    (warmup iterations : ℤ) where
  abbrev pub elements_of : Option CardinalityHint → Option ℕ
  elements_of hint = compute_buffer_elements mean hint

  -- The times of the two layouts; that of the structure of arrays is taken after the other.
  abbrev pub aos_time :
      lab.Ir → LayoutVariantPair → Option CardinalityHint → lab.World → Option D.Double × lab.World
  aos_time ir v hint w = lab.measure ir v.aos_fn warmup iterations 2 (elements_of hint) w

  abbrev pub soa_time :
      lab.Ir → LayoutVariantPair → Option CardinalityHint → lab.World → Option D.Double × lab.World
  soa_time ir v hint w =
      lab.measure ir v.soa_fn warmup iterations 2 (elements_of hint) (aos_time ir v hint w).1

  -- No benchmark: another target, or one of the two was not measured.
  abbrev pub IsUnmeasured : lab.Ir → LayoutVariantPair → Option CardinalityHint → lab.World → Type 0
  IsUnmeasured ir v hint w =
      (lab.is_native_target ir ≡ false)
      ⊎ (((aos_time ir v hint w).0 ≡ none) ⊎ ((soa_time ir v hint w).0 ≡ none))

  -- The array of structures is kept, as no better and no worse.
  abbrev pub IsKept : LayoutBenchmarkResult D.Double → Type 0
  IsKept r = (r.winner ≡ aos) × (r.speedup ≡ D.one)

  -- The benchmark could not be had, and the cost model's result is taken, or the array of structures
  -- is kept where that has none.
  abbrev pub FromModel :
      lab.Ir
      → LayoutVariantPair
      → Option CardinalityHint
      → AccessPattern
      → lab.World
      → LayoutBenchmarkResult D.Double
      → Type 0
  FromModel ir v hint access w r =
      IsUnmeasured ir v hint w
      × ((estimate ir v hint access ≡ some r) ⊎ ((estimate ir v hint access ≡ none) × IsKept r))

  -- The speedup is the time of the array of structures over the other's, and the structure of arrays wins
  -- exactly if that is over 1.1.
  abbrev pub IsRatio : D.Double → D.Double → LayoutBenchmarkResult D.Double → Type 0
  IsRatio a s r =
      (r.aos_median_ns ≡ a)
      × (r.soa_median_ns ≡ s)
      × (r.speedup ≡ D.divide a s)
      × ((r.winner ≡ soa) ↔ (D.less D.eleven_tenths (D.divide a s) ≡ true))

  abbrev pub IsDegenerate : D.Double → D.Double → Type 0
  IsDegenerate a s =
      (D.less_equal a (D.of_unsigned 0) ≡ true) ⊎ (D.less_equal s (D.of_unsigned 0) ≡ true)

  -- Both were measured; a time that is not positive keeps the array of structures.
  abbrev pub FromTimes :
      lab.Ir
      → LayoutVariantPair
      → Option CardinalityHint
      → lab.World
      → LayoutBenchmarkResult D.Double
      → Type 0
  FromTimes ir v hint w r =
      (a : D.Double) × (s : D.Double) × (lab.is_native_target ir ≡ true)
      × ((aos_time ir v hint w).0 ≡ some a)
      × ((soa_time ir v hint w).0 ≡ some s)
      × ((IsDegenerate a s × IsKept r) ⊎ IsRatio a s r)

  abbrev pub Answers :
      lab.Ir
      → LayoutVariantPair
      → Option CardinalityHint
      → AccessPattern
      → lab.World
      → Option (LayoutBenchmarkResult D.Double)
      → Type 0
  Answers ir v hint access w o =
      (r : LayoutBenchmarkResult D.Double) × (o ≡ some r)
      × (FromModel ir v hint access w r ⊎ FromTimes ir v hint w r)
