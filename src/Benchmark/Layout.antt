-- ===== src/Benchmark/Layout.antt =====
-- `LayoutBenchmark::run`: an array of structures against a structure of arrays.
use topo_llvm.Prelude.{ℕ, suc, min, ◌||◌, ◌&&◌, Option, none, some, if◌then◌else◌, ltb, ◌==◌, Bytes}
use topo_llvm.Prelude.Doubles.{Doubles}
use topo_llvm.Prelude.Int.{ℤ, pos, below}
use topo_llvm.Sema.{CardinalityHint, AccessPattern}
use topo_llvm.Benchmark.Lab.{Lab}

pub data Layout : Type 0 where
  aos soa : Layout

pub record LayoutBenchmarkResult (Double : Type 0) : Type 0 where
  pub winner : Layout
  pub aos_median_ns : Double
  pub soa_median_ns : Double
  pub speedup : Double

-- The two functions are known by their names.
pub record LayoutVariantPair : Type 0 where
  pub aos_fn : Bytes
  pub soa_fn : Bytes
  pub pipeline_name : Bytes

-- A bound that is not positive is left out: the lower one is 1, and the upper one the lower.
abbrev pub positive_or : ℤ → ℕ → ℕ
positive_or (pos (suc n)) other = suc n
positive_or _ other = other

abbrev pub ordered : {A : Type 0} → (ℕ → ℕ → A) → ℕ → ℕ → A
ordered f lo hi = if ltb hi lo then f hi lo else f lo hi

-- `mean lo hi` is the root of the product, computed in `double` and cut to an integer.
module _ (mean : ℕ → ℕ → ℕ) where
  unfoldable pub representative : ℕ → ℕ
  representative m = min (if m == 0 then 1 else m) 262144

  unfoldable pub compute_buffer_elements : Option CardinalityHint → Option ℕ
  unfolding representative
  compute_buffer_elements none = none
  compute_buffer_elements (some hint) =
      if below hint.min 1 && below hint.max 1
      then none
      else (let lo = positive_or hint.min 1 in
          some (representative (ordered mean lo (positive_or hint.max lo))))

module _ (D : Doubles) where
  open D use {Double, of_unsigned, one, eleven_tenths, divide, less, less_equal}

  unfoldable pub conservative : LayoutBenchmarkResult Double
  conservative = record {
    winner = aos;
    aos_median_ns = of_unsigned 0;
    soa_median_ns = of_unsigned 0;
    speedup = one;
  }

  unfoldable pub measured_verdict : Double → Double → LayoutBenchmarkResult Double
  measured_verdict a s = record {
    winner = if less eleven_tenths (divide a s) then soa else aos;
    aos_median_ns = a;
    soa_median_ns = s;
    speedup = divide a s;
  }

  unfoldable pub layout_verdict : Double → Double → LayoutBenchmarkResult Double
  unfolding conservative measured_verdict
  layout_verdict a s =
      if less_equal a (of_unsigned 0) || less_equal s (of_unsigned 0)
      then conservative
      else measured_verdict a s

  -- `estimate` is the static cost model.
  module _ (lab : Lab D) (mean : ℕ → ℕ → ℕ)
      (estimate : lab.Ir
        → LayoutVariantPair
        → Option CardinalityHint
        → AccessPattern
        → Option (LayoutBenchmarkResult Double))
      (warmup iterations : ℤ) where
    open lab use {Ir, World, is_native_target, measure}

    -- The two cost models, and what is assumed where neither gives a result.
    unfoldable pub estimated :
        Ir
        → LayoutVariantPair
        → Option CardinalityHint
        → AccessPattern
        → Option (LayoutBenchmarkResult Double)
    unfolding conservative
    estimated ir v hint access = elim (estimate ir v hint access) [
      | some result ↦ some result
      | none ↦ some conservative
    ]

    unfoldable pub run_layout :
        Ir
        → LayoutVariantPair
        → Option CardinalityHint
        → AccessPattern
        → World
        → Option (LayoutBenchmarkResult Double) × World
    unfolding estimated compute_buffer_elements layout_verdict
    run_layout ir v hint access w =
        if is_native_target ir
        then (let elements = compute_buffer_elements mean hint in
            let (a, w₁) = measure ir v.aos_fn warmup iterations 2 elements w in
            elim a [
              | none ↦ (estimated ir v hint access, w₁)
              | some a' ↦
                  (let (s, w₂) = measure ir v.soa_fn warmup iterations 2 elements w₁ in
                    elim s [
                      | none ↦ (estimated ir v hint access, w₂)
                      | some s' ↦ (some (layout_verdict a' s'), w₂)
                    ])
            ])
        else (estimated ir v hint access, w)
