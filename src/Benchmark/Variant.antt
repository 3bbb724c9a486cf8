-- ===== src/Benchmark/Variant.antt =====
-- `VariantBenchmark::run`, with a cache of baselines and without.
use topo_llvm.Prelude.{ℕ, ◌||◌, Option, none, some, List, ◌∷◌, ◌>>=◌, if◌then◌else◌, Bytes}
use topo_llvm.Prelude.Doubles.{Doubles}
use topo_llvm.Prelude.Int.{ℤ}
use topo_llvm.Sema.{find_entry}
use topo_llvm.Benchmark.Lab.{Lab}

pub data Winner : Type 0 where
  baseline variant : Winner

pub record BenchmarkResult (Double : Type 0) : Type 0 where
  pub winner : Winner
  pub baseline_median_ns : Double
  pub variant_median_ns : Double
  pub speedup : Double

abbrev pub BaselineCache : Type 0 → Type 0
BaselineCache Double = List (Bytes × Double)

module _ (D : Doubles) where
  open D use {Double, of_unsigned, eleven_tenths, divide, less, less_equal}

  -- A variant wins if it is over a tenth faster.
  unfoldable pub verdict : Double → Double → Option (BenchmarkResult Double)
  verdict base time =
      if less_equal base (of_unsigned 0) || less_equal time (of_unsigned 0)
      then none
      else some (record {
        winner = if less eleven_tenths (divide base time) then variant else baseline;
        baseline_median_ns = base;
        variant_median_ns = time;
        speedup = divide base time;
      })

  module _ (lab : Lab D) (warmup iterations : ℤ) (level : ℕ) where
    open lab use {Ir, World, is_native_target, clone, measure}

    unfoldable pub time_of : Ir → Bytes → World → Option Double × World
    time_of ir func = measure ir func warmup iterations level none

    unfoldable pub measure_clone :
        Bytes → (Ir → Ir) → Double → World → Option Ir → Option (BenchmarkResult Double) × World
    unfolding verdict time_of
    measure_clone func apply_variant base w none = (none, w)
    measure_clone func apply_variant base w (some cloned) =
        let (time, w') = time_of (apply_variant cloned) func w in (time >>= verdict base, w')

    -- The variant is made in a clone of the module.
    unfoldable pub measure_variant :
        Ir → Bytes → (Ir → Ir) → Double → World → Option (BenchmarkResult Double) × World
    unfolding measure_clone
    measure_variant ir func apply_variant base w =
        measure_clone func apply_variant base w (clone ir)

    unfoldable pub with_baseline :
        Ir → Bytes → (Ir → Ir) → Option Double × World → Option (BenchmarkResult Double) × World
    unfolding measure_variant
    with_baseline ir func apply_variant (none, w) = (none, w)
    with_baseline ir func apply_variant (some base, w) =
        measure_variant ir func apply_variant base w

    unfoldable pub run : Ir → Bytes → (Ir → Ir) → World → Option (BenchmarkResult Double) × World
    unfolding with_baseline
    run ir func apply_variant w =
        if is_native_target ir
        then with_baseline ir func apply_variant (time_of ir func w)
        else (none, w)

    unfoldable pub remember :
        Bytes
        → BaselineCache Double
        → Option Double × World
        → (Option Double × World) × BaselineCache Double
    remember func cache (none, w) = ((none, w), cache)
    remember func cache (some base, w) = ((some base, w), (func, base) ∷ cache)

    unfoldable pub cached_time_of :
        BaselineCache Double → Ir → Bytes → World → (Option Double × World) × BaselineCache Double
    unfolding time_of remember
    cached_time_of cache ir func w = elim (find_entry func cache) [
      | some base ↦ ((some base, w), cache)
      | none ↦ remember func cache (time_of ir func w)
    ]

    -- A baseline that is in the cache is not measured.
    unfoldable pub run_cached :
        BaselineCache Double
        → Ir
        → Bytes
        → (Ir → Ir)
        → World
        → Option (BenchmarkResult Double) × World × BaselineCache Double
    unfolding cached_time_of with_baseline
    run_cached cache ir func apply_variant w =
        if is_native_target ir
        then (let (timed, cache') = cached_time_of cache ir func w in
            let (result, w') = with_baseline ir func apply_variant timed in (result, w', cache'))
        else (none, w, cache)
