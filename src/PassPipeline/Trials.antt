-- ===== src/PassPipeline/Trials.antt =====
-- What the trial of a pass in auto mode finds.
use topo_llvm.Prelude.{
  ◌≡◌, refl, ap, ◌⊎◌, Bool, true, false, Option-cases, inl, inr, List, [], ◌∷◌, ◌++◌, Bytes, All,
  All-append,
}
use topo_llvm.Prelude.Doubles.{Doubles}
use topo_llvm.Benchmark.Lab.{Lab}
use topo_llvm.Benchmark.Variant.{BenchmarkResult, BaselineCache, Winner, baseline, variant}
use topo_llvm.PassPipeline.Config.{Feature}
use topo_llvm.PassPipeline.Auto.{Trial, is_variant, noted, benchmark, try_targets, trial_of}

abbrev pub Candidates : Type 0 → Type 0
Candidates Double = List (Bytes × BenchmarkResult Double)

abbrev pub Loses : {Double : Type 0} → Bytes × BenchmarkResult Double → Type 0
Loses (label, b) = b.winner ≡ baseline

abbrev pub is_some_candidate : {Double : Type 0} → Candidates Double → Bool
is_some_candidate [] = false
is_some_candidate (c ∷ cs) = true

module _ (D : Doubles) (lab : Lab D) where
  -- Either every result was a loss, or the last one was the first win.
  abbrev pub IsDecided : Trial D lab → Type 0
  IsDecided t =
      (t.any_succeeded ≡ is_some_candidate t.candidates)
      × (((t.beneficial ≡ false) × All Loses t.candidates)
          ⊎ ((t.beneficial ≡ true)
              × ((before : Candidates D.Double) × (last : Bytes × BenchmarkResult D.Double)
                  × (t.candidates ≡ before ++ (last ∷ []))
                  × All Loses before
                  × (last.1.winner ≡ variant))))

  -- No win yet.
  abbrev IsOpen : Trial D lab → Type 0
  IsOpen t =
      (t.any_succeeded ≡ is_some_candidate t.candidates)
      × (t.beneficial ≡ false)
      × All Loses t.candidates

  some-append :
      (cs : Candidates D.Double) (c : Bytes × BenchmarkResult D.Double)
      → true ≡ is_some_candidate (cs ++ (c ∷ []))
  some-append [] c = refl
  some-append (x ∷ cs) c = refl

  module _ {Settings : Type 0} (c : Feature Settings) (apply_pass : lab.Ir → lab.Ir)
      (ir : lab.Ir) where
    -- One result, and what follows.
    after_result :
        (label : Bytes) (rest : List (Bytes × Bytes)) (t : Trial D lab)
        (b : BenchmarkResult D.Double) (w : Winner)
        → b.winner ≡ w
        → IsOpen t
        → ((u : Trial D lab) → IsOpen u → IsDecided (try_targets D lab c apply_pass ir rest u))
        → IsDecided (elim w [
          | variant ↦ noted D lab label b t
          | baseline ↦ try_targets D lab c apply_pass ir rest (noted D lab label b t)
        ])
    unfolding noted
    after_result label rest t b variant e (any, no_win, losses) next = (
      some-append t.candidates (label, b),
      inr (ap is_variant e, (t.candidates, (label, b), refl, losses, e)),
    )
    after_result label rest t b baseline e (any, no_win, losses) next =
        next (noted D lab label b t) (
          some-append t.candidates (label, b),
          ap is_variant e,
          All-append Loses t.candidates ((label, b) ∷ []) losses (e, tt),
        )

    try_targets-IsDecided :
        (targets : List (Bytes × Bytes)) (t : Trial D lab)
        → IsOpen t
        → IsDecided (try_targets D lab c apply_pass ir targets t)
    unfolding try_targets
    try_targets-IsDecided [] t (any, no_win, losses) = (any, inl (no_win, losses))
    try_targets-IsDecided ((label, func) ∷ rest) t open_trial =
        let (result, w, cache) = benchmark D lab c apply_pass ir func t in
        let u : Trial D lab = record t { cache = cache; world = w } in
        elim (Option-cases result) [
          | inl e ↦ rw (e, try_targets) (try_targets-IsDecided rest u open_trial)
          | inr (b, e) ↦
              rw (e, try_targets)
                (after_result label rest u b b.winner refl open_trial (try_targets-IsDecided rest))
        ]

    -- The trial of a pass finds it beneficial exactly where its last result is a win, and then every result
    -- before is a loss; it has succeeded at all exactly where it has a result.
    pub trial_of-IsDecided :
        (targets : List (Bytes × Bytes)) (cache : BaselineCache D.Double) (w : lab.World)
        → IsDecided (trial_of D lab c apply_pass ir targets cache w)
    unfolding trial_of
    trial_of-IsDecided targets cache w =
        try_targets-IsDecided targets
          (record {
            beneficial = false;
            any_succeeded = false;
            candidates = [];
            cache = cache;
            world = w;
          })
          (refl, refl, tt)
