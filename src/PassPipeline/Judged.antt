-- ===== src/PassPipeline/Judged.antt =====
-- The three passes that the auto mode judges by a benchmark.
use topo_llvm.Prelude.{
  true, false, Option, none, some, List, [], ◌∷◌, ◌++◌, map, Bytes, codes, same, if◌then◌else◌,
}
use topo_llvm.Prelude.Doubles.{Doubles}
use topo_llvm.Prelude.Int.{ℤ, pos, ◌+ℤ◌}
use topo_llvm.SymbolMapper.{SymbolMapping, rebind}
use topo_llvm.Sidecar.Reports.{PassReports, TopoParallelCandidate, LifetimeArenaCandidate}
use topo_llvm.Benchmark.Lab.{Lab}
use topo_llvm.Benchmark.Variant.{BenchmarkResult}
use topo_llvm.PassPipeline.Names.{Pass}
use topo_llvm.PassPipeline.Config.{
  Passes, Feature, FeatureMode, Given, IndirectionStats, PassPipelineConfig,
}
use topo_llvm.PassPipeline.State.{
  State, Verdict, is_positive, edit_reports, report_pass, report_idle,
}
use topo_llvm.PassPipeline.Auto.{
  Trial, Outcome, is_variant, pipeline_targets, pipeline_names, trial_of, auto_outcome,
  forced_outcome,
}
use topo_llvm.PassPipeline.Plain.{gated}

abbrev pub no_stats : IndirectionStats
no_stats = record {
  unique_ptr_promoted = pos 0;
  shared_ptr_optimized = pos 0;
  shared_ptr_dereferenced = pos 0;
  refcount_eliminated = pos 0;
  vector_lowered = pos 0;
  pointer_attrs_added = pos 0;
  calls_devirtualized = pos 0;
  vtable_constants_annotated = pos 0;
}

unfoldable pub total : IndirectionStats → ℤ
total s =
    s.unique_ptr_promoted +ℤ s.shared_ptr_optimized +ℤ s.shared_ptr_dereferenced
    +ℤ s.refcount_eliminated +ℤ s.vector_lowered +ℤ s.pointer_attrs_added +ℤ s.calls_devirtualized
    +ℤ s.vtable_constants_annotated

module _ (D : Doubles) where
  open D use {Double, one}

  unfoldable pub set_stats : IndirectionStats → PassReports Double → PassReports Double
  set_stats x r = record r {
    indirection = record r.indirection {
      unique_ptr_promoted = x.unique_ptr_promoted;
      shared_ptr_optimized = x.shared_ptr_optimized;
      shared_ptr_dereferenced = x.shared_ptr_dereferenced;
      refcount_eliminated = x.refcount_eliminated;
      vector_lowered = x.vector_lowered;
      pointer_attrs_added = x.pointer_attrs_added;
      calls_devirtualized = x.calls_devirtualized;
      vtable_constants_annotated = x.vtable_constants_annotated;
    };
  }

  unfoldable pub parallel_candidate :
      (Double → ℤ) → Bytes × BenchmarkResult Double → TopoParallelCandidate Double
  parallel_candidate truncated (name, b) = record {
    pipeline_name = name;
    baseline_ns = truncated b.baseline_median_ns;
    variant_ns = truncated b.variant_median_ns;
    speedup = b.speedup;
    winner = if is_variant b.winner then codes "parallel" else codes "serial";
    applied = false;
  }

  unfoldable pub apply_parallel : TopoParallelCandidate Double → TopoParallelCandidate Double
  apply_parallel c = if same c.winner (codes "parallel") then record c { applied = true } else c

  unfoldable pub forced_parallel : Bytes → TopoParallelCandidate Double
  forced_parallel name = record {
    pipeline_name = name;
    baseline_ns = pos 0;
    variant_ns = pos 0;
    speedup = one;
    winner = codes "forced";
    applied = true;
  }

  unfoldable pub edit_parallel :
      (List (TopoParallelCandidate Double) → List (TopoParallelCandidate Double))
      → PassReports Double
      → PassReports Double
  edit_parallel f r = record r {
    topo_parallel = record r.topo_parallel { candidates = f r.topo_parallel.candidates };
  }

  unfoldable pub lifetime_candidate :
      (Double → ℤ) → Bytes × BenchmarkResult Double → LifetimeArenaCandidate Double
  lifetime_candidate truncated (name, b) = record {
    owner_name = name;
    baseline_ns = truncated b.baseline_median_ns;
    variant_ns = truncated b.variant_median_ns;
    speedup = b.speedup;
    winner = if is_variant b.winner then codes "arena" else codes "heap";
    applied = false;
  }

  unfoldable pub apply_lifetime : LifetimeArenaCandidate Double → LifetimeArenaCandidate Double
  apply_lifetime c = if same c.winner (codes "arena") then record c { applied = true } else c

  unfoldable pub forced_lifetime : Bytes → LifetimeArenaCandidate Double
  forced_lifetime name = record {
    owner_name = name;
    baseline_ns = pos 0;
    variant_ns = pos 0;
    speedup = one;
    winner = codes "forced";
    applied = true;
  }

  unfoldable pub edit_lifetime :
      (List (LifetimeArenaCandidate Double) → List (LifetimeArenaCandidate Double))
      → PassReports Double
      → PassReports Double
  edit_lifetime f r = record r {
    lifetime_arena = record r.lifetime_arena { candidates = f r.lifetime_arena.candidates };
  }

  module _ (lab : Lab D) (P : Passes D lab) (cfg : PassPipelineConfig P.Settings) (g : Given) where
    open lab use {Ir}

    abbrev pub rebound : Ir → SymbolMapping
    rebound ir = rebind (P.function_names ir) g.mapping

    abbrev pub pipelines : List (Bytes × Bytes)
    pipelines = pipeline_targets g.mapping.matched g.symbols.logic_blocks

    abbrev pub with_trial : Trial D lab → State D lab → State D lab
    with_trial t s = record s { cache = t.cache; world = t.world }

    -- In auto mode by the trial, and in every other mode without one.
    unfoldable pub outcome_in :
        {E : Type 0}
        → FeatureMode
        → Pass
        → (Ir → Ir × ℤ × E)
        → Verdict
        → Bytes
        → Bytes
        → E
        → Trial D lab
        → State D lab
        → Outcome D lab E
    unfolding auto_outcome forced_outcome
    outcome_in FeatureMode.auto p pass won no_gain forced_reason idle t s =
        auto_outcome D lab p pass won no_gain idle t (with_trial t s)
    outcome_in _ p pass won no_gain forced_reason idle t s =
        forced_outcome D lab p pass forced_reason s

    module _ (c : Feature P.Settings) where
      unfoldable pub indirection_on : SymbolMapping → Ir → Ir × ℤ × IndirectionStats
      unfolding total
      indirection_on mapping ir =
          let (ir', stats) = P.indirection g.entries g.symbols mapping c.settings ir in
          (ir', total stats, stats)

      unfoldable pub indirection_outcome : State D lab → Outcome D lab IndirectionStats
      indirection_outcome s =
          outcome_in c.mode Pass.indirection (indirection_on g.mapping)
            (codes "auto_applied", codes "benchmark showed indirection optimisations beneficial")
            (codes "benchmark showed no improvement from indirection optimisations")
            (codes "[optimize.indirection].mode = force") no_stats
            (trial_of D lab c (λ ir. (indirection_on (rebound ir) ir).0) s.ir pipelines s.cache
              s.world)
            s

      unfoldable pub apply_indirection : State D lab → State D lab
      apply_indirection s =
          let (t₀, w) = P.now s.world in
          let o = indirection_outcome (record s { world = w }) in
          report_pass D lab P Pass.indirection o.fired o.verdict t₀
            (edit_reports D lab (set_stats o.found) o.state)

      abbrev pub without_report : (Ir → Ir × ℤ) → Ir → Ir × ℤ × Unit {0}
      without_report pass ir = let (ir', n) = pass ir in (ir', n, tt)

      unfoldable pub parallel_trial : State D lab → Trial D lab
      unfolding trial_of
      parallel_trial s =
          trial_of D lab c (λ ir. (P.topo_parallel g.symbols (rebound ir) c.settings ir).0) s.ir
            pipelines s.cache s.world

      unfoldable pub parallel_outcome : State D lab → Outcome D lab (Unit {0})
      parallel_outcome s =
          outcome_in c.mode Pass.topo_parallel
            (without_report (P.topo_parallel g.symbols g.mapping c.settings))
            (codes "auto_parallel", codes "benchmark showed parallelisation beneficial")
            (codes "benchmark showed no improvement from parallelisation")
            (codes "[parallel].mode = force") tt (parallel_trial s) s

      -- What the candidates become: those of the trial, or in force mode every declared pipeline.
      unfoldable pub parallel_candidates :
          FeatureMode
          → ℤ
          → Trial D lab
          → List (TopoParallelCandidate Double)
          → List (TopoParallelCandidate Double)
      parallel_candidates FeatureMode.auto n t cs =
          let all = cs ++ map (parallel_candidate P.truncated) t.candidates in
          if t.beneficial then map apply_parallel all else all
      parallel_candidates _ n t cs =
          if is_positive n
          then cs ++ map forced_parallel (pipeline_names g.symbols.logic_blocks)
          else cs

      unfoldable pub apply_topo_parallel : State D lab → State D lab
      apply_topo_parallel s =
          let (t₀, w) = P.now s.world in
          let started : State D lab = record s { world = w } in
          let o = parallel_outcome started in
          report_pass D lab P Pass.topo_parallel o.fired o.verdict t₀ (
            edit_reports D lab
              (edit_parallel (parallel_candidates c.mode o.fired (parallel_trial started))) o.state)

      unfoldable pub owners : Ir → List (Bytes × Bytes)
      owners ir = map (λ name. (name, name)) (P.owner_functions g.symbols g.mapping ir)

      unfoldable pub lifetime_trial : State D lab → Trial D lab
      unfolding trial_of owners
      lifetime_trial s =
          trial_of D lab c (λ ir. (P.lifetime_arena g.symbols (rebound ir) c.settings ir).0) s.ir
            (owners s.ir) s.cache s.world

      unfoldable pub lifetime_outcome : State D lab → Outcome D lab (Unit {0})
      lifetime_outcome s =
          outcome_in c.mode Pass.lifetime_arena
            (without_report (P.lifetime_arena g.symbols g.mapping c.settings))
            (codes "auto_arena", codes "benchmark showed arena allocation beneficial")
            (codes "benchmark showed no improvement from arena allocation")
            (codes "[lifetime].mode = force") tt (lifetime_trial s) s

      -- In force mode the owners are those of the changed module.
      unfoldable pub lifetime_candidates :
          FeatureMode
          → ℤ
          → Ir
          → Trial D lab
          → List (LifetimeArenaCandidate Double)
          → List (LifetimeArenaCandidate Double)
      lifetime_candidates FeatureMode.auto n ir t cs =
          let all = cs ++ map (lifetime_candidate P.truncated) t.candidates in
          if t.beneficial then map apply_lifetime all else all
      lifetime_candidates _ n ir t cs =
          if is_positive n
          then cs ++ map forced_lifetime (P.owner_functions g.symbols g.mapping ir)
          else cs

      unfoldable pub apply_lifetime_arena : State D lab → State D lab
      apply_lifetime_arena s =
          let (t₀, w) = P.now s.world in
          let started : State D lab = record s { world = w } in
          let o = lifetime_outcome started in
          report_pass D lab P Pass.lifetime_arena o.fired o.verdict t₀ (
            edit_reports D lab
              (edit_lifetime
                (lifetime_candidates c.mode o.fired o.state.ir (lifetime_trial started)))
              o.state)

    -- Without a configuration the pass only warns.
    unfoldable pub idle_indirection : State D lab → State D lab
    idle_indirection = report_idle D lab P Pass.indirection (
        if cfg.indirection_explicit
        then (codes "disabled", codes "[optimize.indirection].mode = off")
        else (
          codes "diagnostic_only",
          codes "no [optimize.indirection] config "
              ++ (0xE2 ∷ 0x80 ∷ 0x94 ∷ [])
              ++ codes " Pass ran in diagnose-only mode",
        ))

    unfoldable pub run_indirection_if : Option (Feature P.Settings) → State D lab → State D lab
    run_indirection_if none s = idle_indirection s
    run_indirection_if (some c) s = if c.enabled then apply_indirection c s else idle_indirection s

    unfoldable pub run_topo_parallel : State D lab → State D lab
    run_topo_parallel =
        gated D lab P Pass.topo_parallel (codes "[parallel].mode = off")
          (codes "no [parallel] config") cfg.parallel_cfg apply_topo_parallel

    unfoldable pub run_lifetime_arena : State D lab → State D lab
    run_lifetime_arena =
        gated D lab P Pass.lifetime_arena (codes "[lifetime].mode = off")
          (codes "no [lifetime] config") cfg.lifetime_cfg apply_lifetime_arena
