-- ===== src/PassPipeline/Run.antt =====
-- `PassPipeline::run`: the passes in their order, LLVM's pipelines between them, and the fallback headers.
use topo_llvm.Prelude.{Bool, true, false, Option, some, none, List, [], ◌∷◌, codes, if◌then◌else◌}
use topo_llvm.Prelude.Doubles.{Doubles}
use topo_llvm.Prelude.Int.{pos}
use topo_llvm.Sema.{SymbolTable}
use topo_llvm.SymbolMapper.{SymbolMapping, VisibilityEntry}
use topo_llvm.SymbolMapper.Keys.{is_empty}
use topo_llvm.Sidecar.Reports.{PassReportHeader}
use topo_llvm.Benchmark.Lab.{Lab}
use topo_llvm.PassPipeline.Names.{Pass, edit_header}
use topo_llvm.PassPipeline.Config.{Passes, PassPipelineConfig, Given, OptLevel, BuildMode}
use topo_llvm.PassPipeline.State.{State, stamp_header, edit_reports}
use topo_llvm.PassPipeline.Plain.{
  counted, run_containment, run_code_gen, run_return_specialization, run_inline, run_prefetch,
  run_loop_parallelize, run_adaptive_dispatch, run_observability_if, run_flatten,
}
use topo_llvm.PassPipeline.Judged.{run_indirection_if, run_topo_parallel, run_lifetime_arena}
use topo_llvm.PassPipeline.DataLayout.{run_data_layout}

abbrev pub judging_passes : List Pass
judging_passes =
    Pass.indirection ∷ Pass.topo_parallel ∷ Pass.lifetime_arena ∷ Pass.return_specialization
    ∷ Pass.topo_inline ∷ Pass.topo_flatten ∷ Pass.adaptive_dispatch ∷ Pass.prefetch
    ∷ Pass.containment_interception ∷ Pass.loop_parallelize ∷ []

abbrev pub is_optimized : OptLevel → Bool
is_optimized OptLevel.o0 = false
is_optimized _ = true

module _ (D : Doubles) (lab : Lab D) (P : Passes D lab) where
  open lab use {Ir}

  abbrev pub with_ir : (Ir → Ir) → State D lab → State D lab
  with_ir f s = record s { ir = f s.ir }

  abbrev pub synced : Option P.Machine → Ir → Ir
  synced none ir = ir
  synced (some m) ir = P.set_data_layout m ir

  abbrev pub is_aggressive : BuildMode → Bool
  is_aggressive BuildMode.aggressive = true
  is_aggressive _ = false

  unfoldable pub run_standard_pipeline : OptLevel → BuildMode → Ir → Ir
  run_standard_pipeline level mode ir =
      let machine = P.create_target_machine ir in
      if is_aggressive mode
      then P.thin_lto_pipeline machine level (synced machine ir)
      else P.per_module_pipeline machine level (synced machine ir)

  unfoldable pub stamp_fallback : Pass → PassReportHeader → PassReportHeader
  unfolding stamp_header
  stamp_fallback p h =
      if is_empty h.pass_name
      then stamp_header D lab P p (pos 0)
          (codes "not_yet_reported", codes "Pass executed but detail capture not yet implemented")
          (pos 0) h
      else h

  unfoldable pub stamp_fallbacks : List Pass → State D lab → State D lab
  unfolding stamp_fallback
  stamp_fallbacks [] s = s
  stamp_fallbacks (p ∷ ps) s =
      stamp_fallbacks ps (edit_reports D lab (edit_header p (stamp_fallback p)) s)

  module _ (level : OptLevel) (cfg : PassPipelineConfig P.Settings) where
    -- The passes before the standard pipeline.
    unfoldable pub run_given : Given → State D lab → State D lab
    run_given g s =
        let s₁ = run_containment D lab P cfg g level s in
        let s₂ = run_code_gen D lab P cfg g level s₁ in
        let s₃ = run_return_specialization D lab P cfg g level s₂ in
        let s₄ = run_inline D lab P cfg g level s₃ in
        let s₅ = run_prefetch D lab P cfg g level s₄ in
        let s₆ : State D lab = with_ir (λ ir. P.always_inline (P.create_target_machine ir) ir) s₅ in
        let s₇ = run_data_layout D lab P cfg g s₆ in
        let s₈ = run_indirection_if D lab P cfg g cfg.indirection_cfg s₇ in
        let s₉ = run_topo_parallel D lab P cfg g s₈ in
        let s₁₀ = run_loop_parallelize D lab P cfg g level s₉ in
        let s₁₁ = run_adaptive_dispatch D lab P cfg g level s₁₀ in
        let s₁₂ = run_observability_if D lab P cfg g level cfg.observability_cfg s₁₁ in
        let s₁₃ = run_lifetime_arena D lab P cfg g s₁₂ in run_flatten D lab P cfg g level s₁₃

    -- Without a symbol table three passes run, and none reports.
    unfoldable pub run_without_symbols :
        List VisibilityEntry → SymbolMapping → State D lab → State D lab
    run_without_symbols entries mapping s =
        let s₁ =
          counted D lab P Pass.return_specialization
            (λ ir.
              let (ir', n, found) = P.return_specialization entries mapping none ir in (ir', n))
            s in
        let s₂ =
          counted D lab P Pass.topo_inline
            (λ ir.
              let (ir', n, found) = P.topo_inline level entries mapping none cfg.inline_cfg ir in
              (ir', n))
            s₁ in
        counted D lab P Pass.topo_flatten
          (λ ir. let (ir', n, found) = P.topo_flatten entries mapping cfg.mode ir in (ir', n)) s₂

    -- The passes that need the stages, before the standard pipeline and after it.
    unfoldable pub run_around :
        Option SymbolTable → Option SymbolMapping → State D lab → State D lab
    run_around (some symbols) (some mapping) s =
        counted D lab P Pass.topo_layout (P.topo_layout symbols mapping) (
          with_ir (run_standard_pipeline level cfg.mode)
            (counted D lab P Pass.topo_reorder (P.topo_reorder symbols mapping) s))
    run_around _ _ s = with_ir (run_standard_pipeline level cfg.mode) s

    unfoldable pub run_topo :
        Option (List VisibilityEntry)
        → Option SymbolMapping
        → Option SymbolTable
        → State D lab
        → State D lab
    run_topo (some entries) (some mapping) (some symbols) s =
        run_given (record { entries = entries; mapping = mapping; symbols = symbols }) s
    run_topo (some entries) (some mapping) none s = run_without_symbols entries mapping s
    run_topo _ _ _ s = s

    unfoldable pub run_optimized : State D lab → State D lab
    run_optimized s = stamp_fallbacks judging_passes (
        run_around cfg.symbols cfg.mapping
          (with_ir P.strip_no_inline (run_topo cfg.entries cfg.mapping cfg.symbols s)))

  -- The counts of the summary start at 0, and the cache of baselines is a local of the run.
  abbrev pub fresh : State D lab → State D lab
  fresh s = record s { cache = []; applied = 0; skipped_no_benefit = 0; skipped_bench_fail = 0 }

  unfoldable pub run : OptLevel → PassPipelineConfig P.Settings → State D lab → State D lab
  run level cfg s = if is_optimized level then run_optimized level cfg (fresh s) else s
