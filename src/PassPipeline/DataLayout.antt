-- ===== src/PassPipeline/DataLayout.antt =====
-- The data layout pass: in auto mode the layouts' benchmark decides on each candidate.
use topo_llvm.Prelude.{
  ℕ, ◌+◌, ◌-◌, ◌%◌, ◌^◌, ◌==◌, ltb, Bool, true, false, Option, none, some, List, [], ◌∷◌, ◌++◌,
  Bytes, codes, if◌then◌else◌, length,
}
use topo_llvm.Prelude.Doubles.{Doubles}
use topo_llvm.Prelude.Decimal.{decimal}
use topo_llvm.Prelude.Int.{ℤ, pos, negsuc}
use topo_llvm.Sema.{
  SymbolTable, LogicBlock, FunctionSymbol, CardinalityHint, AccessPattern, find_entry,
}
use topo_llvm.Sidecar.Reports.{PassReports, DataLayoutCandidate}
use topo_llvm.Benchmark.Lab.{Lab}
use topo_llvm.Benchmark.Layout.{
  Layout, aos, soa, LayoutVariantPair, LayoutBenchmarkResult, run_layout,
}
use topo_llvm.PassPipeline.Names.{Pass}
use topo_llvm.PassPipeline.Config.{Passes, Feature, FeatureMode, Given, PassPipelineConfig}
use topo_llvm.PassPipeline.State.{
  State, Verdict, unsigned_of, is_positive, mark_pass_fired, edit_reports, report_pass,
}
use topo_llvm.PassPipeline.Plain.{gated}

abbrev pub is_soa : Layout → Bool
is_soa soa = true
is_soa aos = false

-- `static_cast<int>` of an `unsigned`.
unfoldable pub signed_of : ℕ → ℤ
signed_of n =
    if ltb (n % 2 ^ 32) (2 ^ 31) then pos (n % 2 ^ 32) else negsuc (2 ^ 32 - 1 - n % 2 ^ 32)

-- The first hint and the first access pattern among the functions that a pipeline calls.
abbrev pub Hints : Type 0
Hints = Option CardinalityHint × AccessPattern

abbrev pub first_hint : Option CardinalityHint → Option CardinalityHint → Option CardinalityHint
first_hint (some h) other = some h
first_hint none other = other

abbrev pub first_pattern : AccessPattern → AccessPattern → AccessPattern
first_pattern AccessPattern.unknown other = other
first_pattern pattern other = pattern

unfoldable pub hints_from : List (Bytes × FunctionSymbol) → List Bytes → Hints → Hints
hints_from functions [] h = h
hints_from functions (name ∷ names) (hint, access) =
    hints_from functions names (elim (find_entry name functions) [
      | none ↦ (hint, access)
      | some f ↦ (first_hint hint f.cardinality, first_pattern access f.access_pattern)
    ])

abbrev pub called_by : Option LogicBlock → List Bytes
called_by none = []
called_by (some lb) = lb.called_functions

unfoldable pub hints_of : SymbolTable → Bytes → Hints
unfolding hints_from
hints_of symbols pipeline =
    hints_from symbols.functions (called_by (find_entry pipeline symbols.logic_blocks))
      (none, AccessPattern.unknown)

-- The decision on `count` candidates, of which `accepted` were taken.
unfoldable pub layout_decision : ℕ → ℕ → Verdict
layout_decision count accepted =
    if count == 0
    then (codes "no_candidates", codes "no pipeline with topo::array<Struct, N> found")
    else if accepted == count
    then (codes "auto_soa", codes "benchmark selected SoA for every candidate")
    else if accepted == 0
    then (codes "auto_aos", codes "benchmark kept AoS for every candidate")
    else (
      codes "auto_mixed",
      codes "benchmark selected SoA for "
          ++ decimal accepted
          ++ codes " of "
          ++ decimal count
          ++ codes " candidates",
    )

module _ (D : Doubles) where
  open D use {Double, one}

  unfoldable pub layout_candidate :
      (Double → ℤ) → Bytes → Option (LayoutBenchmarkResult Double) → DataLayoutCandidate Double
  layout_candidate truncated name none = record {
    pipeline_name = name;
    wrapper_ir_type = [];
    element_ir_type = [];
    array_size = 0;
    baseline_ns = pos 0;
    variant_ns = pos 0;
    speedup = one;
    winner = codes "benchmark_failed";
    applied = false;
  }
  layout_candidate truncated name (some r) = record {
    pipeline_name = name;
    wrapper_ir_type = [];
    element_ir_type = [];
    array_size = 0;
    baseline_ns = truncated r.aos_median_ns;
    variant_ns = truncated r.soa_median_ns;
    speedup = r.speedup;
    winner = if is_soa r.winner then codes "soa" else codes "aos";
    applied = is_soa r.winner;
  }

  unfoldable pub add_layout : DataLayoutCandidate Double → PassReports Double → PassReports Double
  add_layout c r = record r {
    data_layout = record r.data_layout { candidates = r.data_layout.candidates ++ (c ∷ []) };
  }

  unfoldable pub forced_candidate : ℤ → DataLayoutCandidate Double
  unfolding layout_candidate
  forced_candidate n = record (layout_candidate (λ x. pos 0) (codes "<module-wide>") none) {
    winner = codes "forced_soa";
    applied = is_positive n;
  }

  abbrev pub soa_wins : Option (LayoutBenchmarkResult Double) → Bool
  soa_wins none = false
  soa_wins (some r) = is_soa r.winner

  module _ (lab : Lab D) (P : Passes D lab) (cfg : PassPipelineConfig P.Settings) (g : Given)
      (c : Feature P.Settings) where
    -- The variant takes the original's place, or is dropped.
    unfoldable pub settle_variant :
        LayoutVariantPair → Option (LayoutBenchmarkResult Double) → State D lab → State D lab
    settle_variant v result s =
        edit_reports D lab (add_layout (layout_candidate P.truncated v.pipeline_name result))
          (record s { ir = if soa_wins result then P.take_soa v s.ir else P.erase_soa v s.ir })

    unfoldable pub judge_variant :
        LayoutVariantPair → State D lab → Option (LayoutBenchmarkResult Double) × State D lab
    judge_variant v s =
        let (hint, access) = hints_of g.symbols v.pipeline_name in
        let (result, w) =
          run_layout D lab P.mean P.estimate c.warmup c.iterations s.ir v hint access s.world in
        (result, record s { world = w })

    -- The number of accepted variants, with what the decisions leave.
    unfoldable pub judge_variants : List LayoutVariantPair → ℕ → State D lab → ℕ × State D lab
    judge_variants [] accepted s = (accepted, s)
    judge_variants (v ∷ vs) accepted s =
        let (result, s') = judge_variant v s in
        judge_variants vs (if soa_wins result then accepted + 1 else accepted)
          (settle_variant v result s')

    unfoldable pub auto_layout : P.Time → State D lab → State D lab
    auto_layout t₀ s =
        let (ir, variants) = P.generate_variants g.symbols g.mapping c.settings s.ir in
        let (accepted, s') = judge_variants variants 0 (record s { ir = ir }) in
        report_pass D lab P Pass.data_layout (signed_of accepted)
          (layout_decision (length variants) accepted) t₀
          (mark_pass_fired D lab Pass.data_layout (accepted % 2 ^ 32) s')

    unfoldable pub forced_layout : P.Time → State D lab → State D lab
    forced_layout t₀ s =
        let (ir, n) = P.run_force_soa c.settings s.ir in
        report_pass D lab P Pass.data_layout n
          (codes "forced_soa", codes "[optimize.data-layout].mode = force") t₀
          (edit_reports D lab (add_layout (forced_candidate n))
            (mark_pass_fired D lab Pass.data_layout (unsigned_of n) (record s { ir = ir })))

    unfoldable pub layout_in : FeatureMode → P.Time → State D lab → State D lab
    layout_in FeatureMode.auto t₀ s = auto_layout t₀ s
    layout_in FeatureMode.force t₀ s = forced_layout t₀ s
    layout_in FeatureMode.off t₀ s = report_pass D lab P Pass.data_layout (pos 0) ([], []) t₀ s

    unfoldable pub apply_data_layout : State D lab → State D lab
    apply_data_layout s =
        let (t₀, w) = P.now s.world in layout_in c.mode t₀ (record s { world = w })

  unfoldable pub run_data_layout :
      (lab : Lab D) (P : Passes D lab)
      → PassPipelineConfig P.Settings
      → Given
      → State D lab
      → State D lab
  run_data_layout lab P cfg g =
      gated D lab P Pass.data_layout (codes "[optimize.data-layout].mode = off")
        (codes "no [optimize.data-layout] config") cfg.data_layout_cfg
        (apply_data_layout lab P cfg g)
