-- ===== src/PassPipeline/Config.antt =====
-- What the pipeline is given: its configuration, and the passes and LLVM's own pipelines as an interface.
use topo_llvm.Prelude.{ℕ, Bool, Option, List, Bytes}
use topo_llvm.Prelude.Doubles.{Doubles}
use topo_llvm.Prelude.Int.{ℤ}
use topo_llvm.Sema.{SymbolTable, CardinalityHint, AccessPattern}
use topo_llvm.SymbolMapper.{SymbolMapping, VisibilityEntry}
use topo_llvm.Sidecar.Reports.{
  ReturnSpecializationEntry, TopoInlineEntry, AdaptiveDispatchEntry, PrefetchEntry,
  ContainmentInterceptionEntry, LoopParallelizeEntry,
}
use topo_llvm.Benchmark.Lab.{Lab}
use topo_llvm.Benchmark.Layout.{LayoutVariantPair, LayoutBenchmarkResult}

pub data OptLevel : Type 0 where
  o0 o1 o2 o3 : OptLevel

pub data BuildMode : Type 0 where
  dev aggressive other_build : BuildMode

pub data FeatureMode : Type 0 where
  off auto force : FeatureMode

-- `enabled` is the answer of `isEnabled`, and `settings` the rest of the configuration.
pub record Feature (Settings : Type 0) : Type 0 where
  pub enabled : Bool
  pub mode : FeatureMode
  pub warmup : ℤ
  pub iterations : ℤ
  pub settings : Settings

pub record PassPipelineConfig (Settings : Type 0) : Type 0 where
  pub entries : Option (List VisibilityEntry)
  pub mapping : Option SymbolMapping
  pub symbols : Option SymbolTable
  pub mode : BuildMode
  pub parallel_cfg : Option (Feature Settings)
  pub adaptive_cfg : Option (Feature Settings)
  pub data_layout_cfg : Option (Feature Settings)
  pub indirection_cfg : Option (Feature Settings)
  pub indirection_explicit : Bool
  pub observability_cfg : Option (Feature Settings)
  pub lifetime_cfg : Option (Feature Settings)
  pub loop_parallel_cfg : Option (Feature Settings)
  pub prefetch_cfg : Option (Feature Settings)
  pub inline_cfg : Option Settings
  pub pipeline_cfg : Option (Feature Settings)
  pub containment_cfg : Option (Feature Settings)

-- What the passes work with where all three parts are there.
pub record Given : Type 0 where
  pub entries : List VisibilityEntry
  pub mapping : SymbolMapping
  pub symbols : SymbolTable

pub record IndirectionStats : Type 0 where
  pub unique_ptr_promoted : ℤ
  pub shared_ptr_optimized : ℤ
  pub shared_ptr_dereferenced : ℤ
  pub refcount_eliminated : ℤ
  pub vector_lowered : ℤ
  pub pointer_attrs_added : ℤ
  pub calls_devirtualized : ℤ
  pub vtable_constants_annotated : ℤ

-- A pass gives the changed module, the number of its changes, and what it adds to its report. `now` reads
-- the clock, `mean` and `estimate` are those of the layouts' benchmark, and `truncated` is a cast to
-- `int64_t`.
pub record Passes (D : Doubles) (lab : Lab D) : Type 1 where
  pub Settings : Type 0
  pub Machine : Type 0
  pub Time : Type 0
  pub now : lab.World → Time × lab.World
  pub elapsed_ns : Time → Time → ℤ
  pub category_of : Bytes → Option Bytes
  pub truncated : D.Double → ℤ
  pub mean : ℕ → ℕ → ℕ
  pub estimate :
      lab.Ir
      → LayoutVariantPair
      → Option CardinalityHint
      → AccessPattern
      → Option (LayoutBenchmarkResult D.Double)
  pub function_names : lab.Ir → List Bytes
  pub create_target_machine : lab.Ir → Option Machine
  pub set_data_layout : Machine → lab.Ir → lab.Ir
  pub thin_lto_pipeline : Option Machine → OptLevel → lab.Ir → lab.Ir
  pub per_module_pipeline : Option Machine → OptLevel → lab.Ir → lab.Ir
  -- The always-inliner and the promotion of allocations to registers.
  pub always_inline : Option Machine → lab.Ir → lab.Ir
  pub strip_no_inline : lab.Ir → lab.Ir
  pub containment :
      SymbolTable → SymbolMapping → lab.Ir → lab.Ir × ℤ × List ContainmentInterceptionEntry
  pub code_gen : SymbolTable → SymbolMapping → lab.Ir → lab.Ir × ℤ
  pub return_specialization :
      List VisibilityEntry
      → SymbolMapping
      → Option SymbolTable
      → lab.Ir
      → lab.Ir × ℤ × List ReturnSpecializationEntry
  pub topo_inline :
      OptLevel
      → List VisibilityEntry
      → SymbolMapping
      → Option SymbolTable
      → Option Settings
      → lab.Ir
      → lab.Ir × ℤ × List TopoInlineEntry
  pub prefetch : SymbolTable → SymbolMapping → Settings → lab.Ir → lab.Ir × ℤ × List PrefetchEntry
  pub generate_variants :
      SymbolTable → SymbolMapping → Settings → lab.Ir → lab.Ir × List LayoutVariantPair
  pub run_force_soa : Settings → lab.Ir → lab.Ir × ℤ
  -- The structure of arrays takes the place and the name of the original, or is erased.
  pub take_soa : LayoutVariantPair → lab.Ir → lab.Ir
  pub erase_soa : LayoutVariantPair → lab.Ir → lab.Ir
  pub indirection :
      List VisibilityEntry
      → SymbolTable
      → SymbolMapping
      → Settings
      → lab.Ir
      → lab.Ir × IndirectionStats
  pub topo_parallel : SymbolTable → SymbolMapping → Settings → lab.Ir → lab.Ir × ℤ
  pub loop_parallelize :
      SymbolTable → SymbolMapping → Settings → lab.Ir → lab.Ir × ℤ × List LoopParallelizeEntry
  pub adaptive_dispatch :
      SymbolTable
      → SymbolMapping
      → Settings
      → Option (Feature Settings)
      → lab.Ir
      → lab.Ir × ℤ × List AdaptiveDispatchEntry
  pub observability : SymbolTable → SymbolMapping → Settings → lab.Ir → lab.Ir × ℤ
  pub lifetime_arena : SymbolTable → SymbolMapping → Settings → lab.Ir → lab.Ir × ℤ
  pub owner_functions : SymbolTable → SymbolMapping → lab.Ir → List Bytes
  pub topo_flatten :
      List VisibilityEntry → SymbolMapping → BuildMode → lab.Ir → lab.Ir × ℤ × List Bytes
  pub topo_reorder : SymbolTable → SymbolMapping → lab.Ir → lab.Ir × ℤ
  pub topo_layout : SymbolTable → SymbolMapping → lab.Ir → lab.Ir × ℤ
