-- ===== src/PassPipeline/Tests.antt =====
-- A run of the pipeline with modules that are numbers, where every pass makes one change.
use topo_llvm.Prelude.{
  ◌≡◌, refl, ℕ, ◌+◌, ◌*◌, ◌≤◌, true, false, some, none, [], ◌∷◌, codes, is_some,
}
use topo_llvm.Prelude.Doubles.{thousandths}
use topo_llvm.Prelude.Int.{pos}
use topo_llvm.Sema.{SymbolTable}
use topo_llvm.SymbolMapper.{SymbolMapping}
use topo_llvm.Sidecar.Reports.{PassReportHeader, PassReports}
use topo_llvm.Benchmark.Lab.{Lab}
use topo_llvm.PassPipeline.Names.{Pass, name_of, header_of, edit_header}
use topo_llvm.PassPipeline.Config.{
  Passes, Feature, FeatureMode, OptLevel, BuildMode, PassPipelineConfig,
}
use topo_llvm.PassPipeline.State.{
  State, unsigned_of, mark_pass_fired, edit_reports, stamp_header, report_pass, report_idle,
}
use topo_llvm.PassPipeline.Plain
use topo_llvm.PassPipeline.Judged
use topo_llvm.PassPipeline.Auto
use topo_llvm.PassPipeline.DataLayout
use topo_llvm.PassPipeline.Run
use topo_llvm.PassPipeline.Frame.{tally, IsReported}
use topo_llvm.PassPipeline.Trials.{IsDecided, trial_of-IsDecided}
use topo_llvm.PassPipeline.Reported.{auto_passes}
use topo_llvm.PassPipeline.Finished.{run-IsReported, run-tally}

-- A function takes as long as its module's number.
abbrev counting : Lab thousandths
counting = record {
  Ir = ℕ;
  World = ℕ;
  is_native_target = λ ir. true;
  clone = λ ir. some ir;
  measure = λ ir f warmup iterations level elements w. (some (ir * 1000), w + 1);
}

abbrev one_change : Passes thousandths counting
one_change = record {
  Settings = ℕ;
  Machine = ℕ;
  Time = ℕ;
  now = λ w. (w, w + 1);
  elapsed_ns = λ a b. pos 1;
  category_of = λ name. some (codes "OPT");
  truncated = λ x. pos x;
  mean = λ lo hi. lo * hi;
  estimate = λ ir v hint access. none;
  function_names = λ ir. [];
  create_target_machine = λ ir. none;
  set_data_layout = λ m ir. ir;
  thin_lto_pipeline = λ m level ir. ir;
  per_module_pipeline = λ m level ir. ir;
  always_inline = λ m ir. ir;
  strip_no_inline = λ ir. ir;
  containment = λ t m ir. (ir + 1, pos 1, []);
  code_gen = λ t m ir. (ir + 1, pos 1);
  return_specialization = λ e m t ir. (ir + 1, pos 1, []);
  topo_inline = λ level e m t cfg ir. (ir + 1, pos 1, []);
  prefetch = λ t m cfg ir. (ir + 1, pos 1, []);
  generate_variants = λ t m cfg ir. (ir, []);
  run_force_soa = λ cfg ir. (ir + 1, pos 1);
  take_soa = λ v ir. ir;
  erase_soa = λ v ir. ir;
  indirection = λ e t m cfg ir. (ir + 1, Judged.no_stats);
  topo_parallel = λ t m cfg ir. (ir + 1, pos 1);
  loop_parallelize = λ t m cfg ir. (ir + 1, pos 1, []);
  adaptive_dispatch = λ t m cfg parallel ir. (ir + 1, pos 1, []);
  observability = λ t m cfg ir. (ir + 1, pos 1);
  lifetime_arena = λ t m cfg ir. (ir + 1, pos 1);
  owner_functions = λ t m ir. [];
  topo_flatten = λ e m mode ir. (ir + 1, pos 1, []);
  topo_reorder = λ t m ir. (ir, pos 1);
  topo_layout = λ t m ir. (ir, pos 1);
}

abbrev no_symbols : SymbolTable
no_symbols = record {
  functions = [];
  class_symbols = [];
  logic_blocks = [];
  instantiates = [];
  type_aliases = [];
  constraints = [];
  adapts = [];
}

abbrev no_mapping : SymbolMapping
no_mapping = record { matched = []; unmatched_topo = []; unmatched_ir = [] }

abbrev in_auto_mode : Feature ℕ
in_auto_mode = record {
  enabled = true;
  mode = FeatureMode.auto;
  warmup = pos 3;
  iterations = pos 7;
  settings = 0;
}

abbrev adaptive_only : PassPipelineConfig ℕ
adaptive_only = record {
  entries = some [];
  mapping = some no_mapping;
  symbols = some no_symbols;
  mode = BuildMode.dev;
  parallel_cfg = none;
  adaptive_cfg = some in_auto_mode;
  data_layout_cfg = none;
  indirection_cfg = none;
  indirection_explicit = true;
  observability_cfg = none;
  lifetime_cfg = none;
  loop_parallel_cfg = none;
  prefetch_cfg = none;
  inline_cfg = none;
  pipeline_cfg = none;
  containment_cfg = none;
}

abbrev blank : PassReportHeader
blank = record {
  pass_name = [];
  category = [];
  fired = false;
  fired_count = pos 0;
  decision = [];
  reason = [];
  elapsed_ns = pos 0;
}

abbrev blank_reports : PassReports ℕ
blank_reports = record {
  data_layout = record { header = blank; candidates = [] };
  indirection = record {
    header = blank;
    unique_ptr_promoted = pos 0;
    shared_ptr_optimized = pos 0;
    shared_ptr_dereferenced = pos 0;
    refcount_eliminated = pos 0;
    vector_lowered = pos 0;
    pointer_attrs_added = pos 0;
    calls_devirtualized = pos 0;
    vtable_constants_annotated = pos 0;
  };
  topo_parallel = record { header = blank; candidates = [] };
  lifetime_arena = record { header = blank; candidates = [] };
  return_specialization = record { header = blank; entries = [] };
  topo_inline = record { header = blank; entries = [] };
  topo_flatten = record { header = blank; demoted_functions = [] };
  adaptive_dispatch = record { header = blank; entries = [] };
  prefetch = record { header = blank; entries = [] };
  containment_interception = record { header = blank; entries = [] };
  loop_parallelize = record { header = blank; entries = [] };
}

abbrev unmarked : State thousandths counting
unmarked = record {
  ir = 8;
  world = 0;
  markers = λ p. 0;
  cache = [];
  applied = 0;
  skipped_no_benefit = 0;
  skipped_bench_fail = 0;
  reports = some blank_reports;
}

abbrev finished : State thousandths counting
finished = Run.run thousandths counting one_change OptLevel.o2 adaptive_only unmarked

abbrev adaptive_header : PassReportHeader
adaptive_header = record {
  pass_name = codes "AdaptiveDispatchPass";
  category = codes "OPT";
  fired = true;
  fired_count = pos 1;
  decision = codes "instrumented";
  reason = codes "JIT dispatch pointer + cost_begin/end inserted at pipeline entries";
  elapsed_ns = pos 1;
}

-- The name, the marker and the flag of the adaptive dispatch pass.
run-IsReported_example :
    IsReported thousandths counting Pass.adaptive_dispatch
      (finished.markers Pass.adaptive_dispatch)
      adaptive_header
unfolding header_of edit_header name_of Run.run Run.run_optimized Run.run_topo Run.run_given
    Run.run_around Run.stamp_fallbacks Run.stamp_fallback Plain.run_containment Plain.run_code_gen
    Plain.run_return_specialization Plain.run_inline Plain.run_prefetch Plain.run_loop_parallelize
    Plain.run_adaptive_dispatch Plain.run_observability_if Plain.run_flatten Plain.counted
    Plain.timed Plain.gated Plain.count_auto Plain.add_return_specialization Plain.add_inline
    Plain.add_adaptive_dispatch Plain.add_flatten Judged.run_indirection_if Judged.idle_indirection
    Judged.run_topo_parallel Judged.run_lifetime_arena DataLayout.run_data_layout mark_pass_fired
    edit_reports stamp_header report_pass report_idle unsigned_of Plain.runs_code_gen
run-IsReported_example =
    run-IsReported thousandths counting one_change OptLevel.o2 adaptive_only [] no_mapping
      no_symbols unmarked Pass.adaptive_dispatch adaptive_header refl refl refl refl (λ p. refl)
      refl

-- One pass is in auto mode.
run-tally_example :
    (tally thousandths counting finished ≡ auto_passes adaptive_only)
    × (tally thousandths counting finished ≤ 4)
    × (is_some finished.reports ≡ true)
run-tally_example =
    run-tally thousandths counting one_change OptLevel.o2 adaptive_only [] no_mapping no_symbols
      unmarked refl refl refl refl (λ p. refl)

-- `f` is not faster than its baseline in the cache, and `g` is faster than the one that is measured.
trial_of-IsDecided_example : IsDecided thousandths counting (
    Auto.trial_of thousandths counting in_auto_mode
      (λ ir. 4)
      8
      ((codes "p", codes "f") ∷ (codes "q", codes "g") ∷ [])
      ((codes "f", 2000) ∷ [])
      0)
trial_of-IsDecided_example =
    trial_of-IsDecided thousandths counting in_auto_mode (λ ir. 4) 8
      ((codes "p", codes "f") ∷ (codes "q", codes "g") ∷ []) ((codes "f", 2000) ∷ []) 0
