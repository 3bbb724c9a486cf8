-- ===== src/Benchmark/Tests.antt =====
-- Runs with modules and times that are numbers: a function takes as long as its module's number.
use topo_llvm.Prelude.{◌≡◌, refl, ℕ, ◌*◌, ◌+◌, ◌≤◌, true, Option, some, none, [], ◌∷◌, codes, same}
use topo_llvm.Prelude.Doubles.{thousandths}
use topo_llvm.Prelude.Int.{pos}
use topo_llvm.Sema.{CardinalityHint, AccessPattern, find_entry}
use topo_llvm.Benchmark.Lab.{Lab}
use topo_llvm.Benchmark.Variant.{BenchmarkResult, baseline, variant, run, run_cached}
use topo_llvm.Benchmark.Layout.{LayoutBenchmarkResult, LayoutVariantPair, compute_buffer_elements}
use topo_llvm.Benchmark.Cached.{kept_or, run_cached_baselines}
use topo_llvm.Benchmark.Chosen.{compute_buffer_elements_bounds}

-- The world counts the measurements.
abbrev counting : Lab thousandths
counting = record {
  Ir = ℕ;
  World = ℕ;
  is_native_target = λ ir. true;
  clone = λ ir. some ir;
  measure = λ ir f warmup iterations level elements w. (some (ir * 1000), w + 1);
}

abbrev halved : BenchmarkResult ℕ
halved = record {
  winner = variant;
  baseline_median_ns = 8000;
  variant_median_ns = 4000;
  speedup = 2000;
}

-- The cache is empty, and the baseline of `f` is measured and put into it.
run_cached_baselines_example :
    let after =
      (run_cached thousandths counting (pos 3) (pos 7) 2 [] 8 (codes "f") (λ ir. 4) 0).2 in
    (find_entry (codes "f") after ≡ kept_or thousandths true 8000 none)
    × (find_entry (codes "f") after ≡ some 8000)
unfolding run_cached same
run_cached_baselines_example =
    run_cached_baselines thousandths counting (pos 3) (pos 7) 2 [] 8 (codes "f") (λ ir. 4) 0
      (codes "f") halved refl

fresh_baseline :
    (run thousandths counting (pos 3) (pos 7) 2 8 (codes "f") (λ ir. 4) 0).0 ≡ some halved
unfolding run
fresh_baseline = refl

-- A baseline that was measured before the module became slower makes the same variant lose.
stale_baseline :
    (run_cached thousandths counting
      (pos 3)
      (pos 7)
      2
      ((codes "f", 2000) ∷ [])
      8
      (codes "f")
      (λ ir. 4)
      0).0
    ≡ some (record {
      winner = baseline;
      baseline_median_ns = 2000;
      variant_median_ns = 4000;
      speedup = 500;
    })
unfolding run_cached same
stale_baseline = refl

abbrev small_hint : CardinalityHint
small_hint = record { min = pos 10; max = pos 90 }

compute_buffer_elements_bounds_example : (1 ≤ 900) × (900 ≤ 262144)
unfolding compute_buffer_elements
compute_buffer_elements_bounds_example =
    compute_buffer_elements_bounds (λ lo hi. lo * hi) small_hint 900 refl

abbrev some_pair : LayoutVariantPair
some_pair = record { aos_fn = codes "f"; soa_fn = codes "f.soa"; pipeline_name = codes "p" }

abbrev no_estimate :
    ℕ
    → LayoutVariantPair
    → Option CardinalityHint
    → AccessPattern
    → Option (LayoutBenchmarkResult ℕ)
no_estimate ir v hint access = none
