-- ===== src/PassPipeline/Plain.antt =====
-- The passes that run where they are enabled and report the number of their changes.
use topo_llvm.Prelude.{◌+◌, Bool, true, Option, none, some, List, ◌++◌, Bytes, codes, if◌then◌else◌}
use topo_llvm.Prelude.Doubles.{Doubles}
use topo_llvm.Prelude.Int.{ℤ}
use topo_llvm.Sidecar.Reports.{
  PassReports, ContainmentInterceptionEntry, ReturnSpecializationEntry, TopoInlineEntry,
  PrefetchEntry, LoopParallelizeEntry, AdaptiveDispatchEntry,
}
use topo_llvm.Benchmark.Lab.{Lab}
use topo_llvm.PassPipeline.Names.{Pass}
use topo_llvm.PassPipeline.Config.{
  Passes, Feature, FeatureMode, Given, OptLevel, PassPipelineConfig,
}
use topo_llvm.PassPipeline.State.{
  State, Verdict, unsigned_of, is_positive, mark_pass_fired, edit_reports, report_pass, report_idle,
}

abbrev pub if_any : Bytes → Bytes → Bytes → Bytes → ℤ → Verdict
if_any some_decision none_decision some_reason none_reason n =
    if is_positive n then (some_decision, some_reason) else (none_decision, none_reason)

module _ (D : Doubles) where
  abbrev pub Adds : Type 0 → Type 0
  Adds E = List E → PassReports D.Double → PassReports D.Double

  unfoldable pub add_containment : Adds ContainmentInterceptionEntry
  add_containment es r = record r {
    containment_interception = record r.containment_interception {
      entries = r.containment_interception.entries ++ es;
    };
  }

  unfoldable pub add_return_specialization : Adds ReturnSpecializationEntry
  add_return_specialization es r = record r {
    return_specialization = record r.return_specialization {
      entries = r.return_specialization.entries ++ es;
    };
  }

  unfoldable pub add_inline : Adds TopoInlineEntry
  add_inline es r = record r {
    topo_inline = record r.topo_inline { entries = r.topo_inline.entries ++ es };
  }

  unfoldable pub add_prefetch : Adds PrefetchEntry
  add_prefetch es r = record r {
    prefetch = record r.prefetch { entries = r.prefetch.entries ++ es };
  }

  unfoldable pub add_loop_parallelize : Adds LoopParallelizeEntry
  add_loop_parallelize es r = record r {
    loop_parallelize = record r.loop_parallelize { entries = r.loop_parallelize.entries ++ es };
  }

  unfoldable pub add_adaptive_dispatch : Adds AdaptiveDispatchEntry
  add_adaptive_dispatch es r = record r {
    adaptive_dispatch = record r.adaptive_dispatch { entries = r.adaptive_dispatch.entries ++ es };
  }

  unfoldable pub add_flatten : Adds Bytes
  add_flatten es r = record r {
    topo_flatten = record r.topo_flatten {
      demoted_functions = r.topo_flatten.demoted_functions ++ es;
    };
  }

  module _ (lab : Lab D) (P : Passes D lab) where
    open lab use {Ir, World}
    open P use {Settings, now}

    abbrev pub Stage : Type 0
    Stage = State D lab → State D lab

    -- A pass without a report.
    unfoldable pub counted : Pass → (Ir → Ir × ℤ) → Stage
    counted p pass s =
        let (ir, n) = pass s.ir in mark_pass_fired D lab p (unsigned_of n) (record s { ir = ir })

    unfoldable pub timed :
        {E : Type 0} → Pass → (Ir → Ir × ℤ × List E) → (ℤ → Verdict) → Adds E → Stage
    timed p pass verdict add s =
        let (t₀, w) = now s.world in
        let (ir, n, found) = pass s.ir in
        report_pass D lab P p n (verdict n) t₀ (
          edit_reports D lab (add found)
            (mark_pass_fired D lab p (unsigned_of n) (record s { ir = ir; world = w })))

    -- A pass that a configuration gates, with the reasons where that is off or absent.
    unfoldable pub gated :
        Pass → Bytes → Bytes → Option (Feature Settings) → (Feature Settings → Stage) → Stage
    gated p off_reason no_reason none run s = report_idle D lab P p (codes "disabled", no_reason) s
    gated p off_reason no_reason (some c) run s =
        if c.enabled then run c s else report_idle D lab P p (codes "disabled", off_reason) s

    module _ (cfg : PassPipelineConfig Settings) (g : Given) (level : OptLevel) where
      unfoldable pub run_containment : Stage
      run_containment =
          gated Pass.containment_interception (codes "[containment].mode = off")
            (codes "no [containment] config") cfg.containment_cfg
            (λ c.
              timed Pass.containment_interception (P.containment g.symbols g.mapping)
                (if_any (codes "intercepted") (codes "no_targets")
                  (codes "wrapped restricted-API call sites in __topo_containment_violation")
                  (codes "no calls to restricted APIs"))
                add_containment)

      unfoldable pub runs_code_gen : Option (Feature Settings) → Bool
      runs_code_gen none = true
      runs_code_gen (some c) = c.enabled

      unfoldable pub run_code_gen : Stage
      run_code_gen s =
          if runs_code_gen cfg.pipeline_cfg
          then counted Pass.pipeline_code_gen (P.code_gen g.symbols g.mapping) s
          else s

      unfoldable pub run_return_specialization : Stage
      run_return_specialization =
          timed Pass.return_specialization
            (P.return_specialization g.entries g.mapping (some g.symbols))
            (if_any (codes "eliminated") (codes "no_eliminations")
              (codes "dead return-struct fields removed")
              (codes "no unused fields on sret/direct returns"))
            add_return_specialization

      unfoldable pub run_inline : Stage
      run_inline =
          timed Pass.topo_inline
            (P.topo_inline level g.entries g.mapping (some g.symbols) cfg.inline_cfg)
            (if_any (codes "marked_alwaysinline") (codes "no_inlines")
              (codes "private / protected / pipeline-functor callees marked alwaysinline")
              (codes "no callees eligible for forced inlining"))
            add_inline

      unfoldable pub run_prefetch : Stage
      run_prefetch =
          gated Pass.prefetch (codes "[prefetch].mode = off") (codes "no [prefetch] config")
            cfg.prefetch_cfg
            (λ c.
              timed Pass.prefetch (P.prefetch g.symbols g.mapping c.settings)
                (if_any (codes "inserted") (codes "no_streaming_loops")
                  (codes "llvm.prefetch intrinsics inserted at streaming/tiled loop heads")
                  (codes "no functions with access(streaming|tiled) attribute"))
                add_prefetch)

      unfoldable pub run_loop_parallelize : Stage
      run_loop_parallelize =
          gated Pass.loop_parallelize (codes "[loop_parallel].mode = off")
            (codes "no [loop_parallel] config") cfg.loop_parallel_cfg
            (λ c.
              timed Pass.loop_parallelize (P.loop_parallelize g.symbols g.mapping c.settings)
                (if_any (codes "annotated") (codes "no_targets")
                  (codes "loop metadata (parallel_accesses + unroll) injected")
                  (codes "no eligible loops"))
                add_loop_parallelize)

      unfoldable pub count_auto : FeatureMode → Stage
      count_auto FeatureMode.auto s = record s { applied = s.applied + 1 }
      count_auto _ s = s

      unfoldable pub run_adaptive_dispatch : Stage
      run_adaptive_dispatch =
          gated Pass.adaptive_dispatch (codes "[adaptive].mode = off")
            (codes "no [adaptive] config") cfg.adaptive_cfg
            (λ c s.
              timed Pass.adaptive_dispatch
                (P.adaptive_dispatch g.symbols g.mapping c.settings cfg.parallel_cfg)
                (if_any (codes "instrumented") (codes "no_targets")
                  (codes "JIT dispatch pointer + cost_begin/end inserted at pipeline entries")
                  (codes "no pipeline entries to instrument"))
                add_adaptive_dispatch (count_auto c.mode s))

      unfoldable pub run_observability_if : Option (Feature Settings) → Stage
      run_observability_if none s = s
      run_observability_if (some c) s =
          if c.enabled
          then counted Pass.observability (P.observability g.symbols g.mapping c.settings) s
          else s

      unfoldable pub run_flatten : Stage
      run_flatten =
          timed Pass.topo_flatten (P.topo_flatten g.entries g.mapping cfg.mode)
            (if_any (codes "demoted") (codes "no_targets")
              (codes "private/protected functions demoted to internal linkage for GlobalDCE")
              (codes "no functions eligible for linkage demotion"))
            add_flatten
