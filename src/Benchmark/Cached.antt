-- ===== src/Benchmark/Cached.antt =====
-- What the cache of baselines holds.
use mathlib.Core.Option.{some-injective}
use topo_llvm.Prelude.{
  Bool, true, false, refl, ◌≡◌, sym, ◌∙◌, ap, ℕ, Bool-cases, inl, inr, Option, none, some,
  Option-cases, subst, ◌∷◌, ◌>>=◌, Bytes, same, same_refl, same→eq, arith,
}
use topo_llvm.Prelude.Doubles.{Doubles}
use topo_llvm.Prelude.Int.{ℤ}
use topo_llvm.Sema.{find_entry}
use topo_llvm.Benchmark.Lab.{Lab}
use topo_llvm.Benchmark.Variant.{
  BenchmarkResult, BaselineCache, verdict, measure_clone, measure_variant, with_baseline, remember,
  cached_time_of, run_cached,
}

module _ (D : Doubles) where
  open D use {Double, of_unsigned, less_equal}

  -- The entry of a key after a baseline was timed: what was there, and else the time if the key is
  -- the function that was timed.
  abbrev pub kept_or : Bool → Double → Option Double → Option Double
  kept_or timed base (some time) = some time
  kept_or true base none = some base
  kept_or false base none = none

  verdict-baseline :
      (base time : Double) (r : BenchmarkResult Double)
      → verdict D base time ≡ some r
      → r.baseline_median_ns ≡ base
  unfolding verdict
  verdict-baseline base time r h = ground arith

  bind-baseline :
      (base : Double) (time : Option Double) (r : BenchmarkResult Double)
      → (time >>= verdict D base) ≡ some r
      → r.baseline_median_ns ≡ base
  bind-baseline base none r h = absurd cc
  bind-baseline base (some time) r h = verdict-baseline base time r h

  kept_or-false : (base : Double) (o : Option Double) → o ≡ kept_or false base o
  kept_or-false base none = refl
  kept_or-false base (some time) = refl

  kept_or-some :
      (timed : Bool) (base time : Double) (o : Option Double)
      → o ≡ some time
      → o ≡ kept_or timed base o
  kept_or-some timed base time none h = absurd cc
  kept_or-some timed base time (some x) h = refl

  -- A function that was not in the cache is added.
  added_entry :
      (key func : Bytes) (base : Double) (cache : BaselineCache Double)
      → find_entry func cache ≡ none
      → find_entry key ((func, base) ∷ cache) ≡ kept_or (same func key) base (find_entry key cache)
  added_entry key func base cache absent = elim (Bool-cases (same func key)) [
    | inl e ↦
        let key_absent : find_entry key cache ≡ none =
          subst (λ k. find_entry k cache ≡ none) (same→eq func key e) absent in
        rw (e, key_absent) refl
    | inr e ↦ rw e (kept_or-false base (find_entry key cache))
  ]

  -- One that was there has its time already.
  same_entry :
      (key func : Bytes) (base : Double) (cache : BaselineCache Double)
      → find_entry func cache ≡ some base
      → find_entry key cache ≡ kept_or (same func key) base (find_entry key cache)
  same_entry key func base cache found = elim (Bool-cases (same func key)) [
    | inl e ↦
        kept_or-some (same func key) base base (find_entry key cache)
          (subst (λ k. find_entry k cache ≡ some base) (same→eq func key e) found)
    | inr e ↦ rw e (kept_or-false base (find_entry key cache))
  ]

  module _ (lab : Lab D) (warmup iterations : ℤ) (level : ℕ) where
    open lab use {Ir, World, is_native_target, clone, measure}

    clone-baseline :
        (func : Bytes) (f : Ir → Ir) (base : Double) (w : World) (c : Option Ir)
        (r : BenchmarkResult Double)
        → (measure_clone D lab warmup iterations level func f base w c).0 ≡ some r
        → r.baseline_median_ns ≡ base
    unfolding measure_clone
    clone-baseline func f base w none r h = absurd cc
    clone-baseline func f base w (some c) r h =
        bind-baseline base (measure (f c) func warmup iterations level none w).0 r h

    with_baseline-baseline :
        (ir : Ir) (func : Bytes) (f : Ir → Ir) (timed : Option Double × World)
        (r : BenchmarkResult Double)
        → (with_baseline D lab warmup iterations level ir func f timed).0 ≡ some r
        → timed.0 ≡ some r.baseline_median_ns
    unfolding with_baseline measure_variant
    with_baseline-baseline ir func f (none, w) r h = absurd cc
    with_baseline-baseline ir func f (some base, w) r h =
        ap some (sym (clone-baseline func f base w (clone ir) r h))

    -- What is found for the function afterwards is what was timed.
    remember_found :
        (func : Bytes) (cache : BaselineCache Double) (timed : Option Double × World)
        (base : Double)
        → (remember D lab warmup iterations level func cache timed).0.0 ≡ some base
        → find_entry func (remember D lab warmup iterations level func cache timed).1 ≡ some base
    unfolding remember
    remember_found func cache (none, w) base h = absurd cc
    remember_found func cache (some b, w) base h = rw (same_refl func) h

    remember_entry :
        (key func : Bytes) (cache : BaselineCache Double) (timed : Option Double × World)
        (base : Double)
        → find_entry func cache ≡ none
        → (remember D lab warmup iterations level func cache timed).0.0 ≡ some base
        → find_entry key (remember D lab warmup iterations level func cache timed).1
          ≡ kept_or (same func key) base (find_entry key cache)
    unfolding remember
    remember_entry key func cache (none, w) base absent h = absurd cc
    remember_entry key func cache (some b, w) base absent h =
        subst
          (λ x.
            find_entry key ((func, b) ∷ cache) ≡ kept_or (same func key) x (find_entry key cache))
          (some-injective b base h) (added_entry key func b cache absent)

    cached_entries :
        (key : Bytes) (cache : BaselineCache Double) (ir : Ir) (func : Bytes) (w : World)
        (base : Double)
        → let (timed, after) = cached_time_of D lab warmup iterations level cache ir func w in
          timed.0 ≡ some base
          → (find_entry key after ≡ kept_or (same func key) base (find_entry key cache))
            × (find_entry func after ≡ some base)
    unfolding cached_time_of
    cached_entries key cache ir func w base = elim (Option-cases (find_entry func cache)) [
      | inl e ↦
          let timed = measure ir func warmup iterations level none w in
          rw (e, cached_time_of)
            (λ h. (
              remember_entry key func cache timed base e h,
              remember_found func cache timed base h,
            ))
      | inr (t, e) ↦ rw (e, cached_time_of) (λ h. (same_entry key func base cache (e ∙ h), e ∙ h))
    ]

    -- After a run that gives a result, whatever the cache held before, an empty one included: the
    -- function's baseline in the cache is the one that the result was made from, every entry that was
    -- there before is the same, and no other entry was added.
    pub run_cached_baselines :
        (cache : BaselineCache Double) (ir : Ir) (func : Bytes) (f : Ir → Ir) (w : World)
        (key : Bytes) (r : BenchmarkResult Double)
        → (run_cached D lab warmup iterations level cache ir func f w).0 ≡ some r
        → let after = (run_cached D lab warmup iterations level cache ir func f w).2 in
          (find_entry key after
            ≡ kept_or (same func key) r.baseline_median_ns (find_entry key cache))
          × (find_entry func after ≡ some r.baseline_median_ns)
    unfolding run_cached
    run_cached_baselines cache ir func f w key r h =
        let timed : Option Double × World =
          (cached_time_of D lab warmup iterations level cache ir func w).0 in
        elim (Bool-cases (is_native_target ir)) [
          | inl e ↦
              let result : (with_baseline D lab warmup iterations level ir func f timed).0
                  ≡ some r =
                rw e at h in
              rw e (
                cached_entries key cache ir func w r.baseline_median_ns
                  (with_baseline-baseline ir func f timed r result))
          | inr e ↦ let no : none ≡ some r = rw e at h in absurd cc
        ]
