-- ===== src/Sidecar/Reports.antt =====
-- include/topo/Backend/PassReports.h: what each pass reports. `Double` stands for the type `double`.
use topo_llvm.Prelude.{ℕ, Bool, List, Bytes}
use topo_llvm.Prelude.Int.{ℤ}

pub record PassReportHeader : Type 0 where
  pub pass_name : Bytes
  pub category : Bytes
  pub fired : Bool
  pub fired_count : ℤ
  pub decision : Bytes
  pub reason : Bytes
  pub elapsed_ns : ℤ

pub record DataLayoutCandidate (Double : Type 0) : Type 0 where
  pub pipeline_name : Bytes
  pub wrapper_ir_type : Bytes
  pub element_ir_type : Bytes
  pub array_size : ℕ
  pub baseline_ns : ℤ
  pub variant_ns : ℤ
  pub speedup : Double
  pub winner : Bytes
  pub applied : Bool

pub record DataLayoutReport (Double : Type 0) : Type 0 where
  pub header : PassReportHeader
  pub candidates : List (DataLayoutCandidate Double)

pub record IndirectionReport : Type 0 where
  pub header : PassReportHeader
  pub unique_ptr_promoted : ℤ
  pub shared_ptr_optimized : ℤ
  pub shared_ptr_dereferenced : ℤ
  pub refcount_eliminated : ℤ
  pub vector_lowered : ℤ
  pub pointer_attrs_added : ℤ
  pub calls_devirtualized : ℤ
  pub vtable_constants_annotated : ℤ

pub record TopoParallelCandidate (Double : Type 0) : Type 0 where
  pub pipeline_name : Bytes
  pub baseline_ns : ℤ
  pub variant_ns : ℤ
  pub speedup : Double
  pub winner : Bytes
  pub applied : Bool

pub record TopoParallelReport (Double : Type 0) : Type 0 where
  pub header : PassReportHeader
  pub candidates : List (TopoParallelCandidate Double)

pub record LifetimeArenaCandidate (Double : Type 0) : Type 0 where
  pub owner_name : Bytes
  pub baseline_ns : ℤ
  pub variant_ns : ℤ
  pub speedup : Double
  pub winner : Bytes
  pub applied : Bool

pub record LifetimeArenaReport (Double : Type 0) : Type 0 where
  pub header : PassReportHeader
  pub candidates : List (LifetimeArenaCandidate Double)

pub record ReturnSpecializationEntry : Type 0 where
  pub host_function : Bytes
  pub eliminated_field_indices : List ℤ
  pub kept_field_indices : List ℤ

pub record ReturnSpecializationReport : Type 0 where
  pub header : PassReportHeader
  pub entries : List ReturnSpecializationEntry

pub record TopoInlineEntry : Type 0 where
  pub callee : Bytes
  pub reason : Bytes

pub record TopoInlineReport : Type 0 where
  pub header : PassReportHeader
  pub entries : List TopoInlineEntry

pub record TopoFlattenReport : Type 0 where
  pub header : PassReportHeader
  pub demoted_functions : List Bytes

pub record AdaptiveDispatchEntry : Type 0 where
  pub stage_name : Bytes
  pub default_variant : Bytes

pub record AdaptiveDispatchReport : Type 0 where
  pub header : PassReportHeader
  pub entries : List AdaptiveDispatchEntry

pub record PrefetchEntry : Type 0 where
  pub host_function : Bytes
  pub inserted_hints : ℤ
  pub distance : ℤ

pub record PrefetchReport : Type 0 where
  pub header : PassReportHeader
  pub entries : List PrefetchEntry

pub record ContainmentInterceptionEntry : Type 0 where
  pub caller_function : Bytes
  pub intercepted_callee : Bytes

pub record ContainmentInterceptionReport : Type 0 where
  pub header : PassReportHeader
  pub entries : List ContainmentInterceptionEntry

pub record LoopParallelizeEntry : Type 0 where
  pub host_function : Bytes
  pub annotated_loops : ℤ

pub record LoopParallelizeReport : Type 0 where
  pub header : PassReportHeader
  pub entries : List LoopParallelizeEntry

pub record PassReports (Double : Type 0) : Type 0 where
  pub data_layout : DataLayoutReport Double
  pub indirection : IndirectionReport
  pub topo_parallel : TopoParallelReport Double
  pub lifetime_arena : LifetimeArenaReport Double
  pub return_specialization : ReturnSpecializationReport
  pub topo_inline : TopoInlineReport
  pub topo_flatten : TopoFlattenReport
  pub adaptive_dispatch : AdaptiveDispatchReport
  pub prefetch : PrefetchReport
  pub containment_interception : ContainmentInterceptionReport
  pub loop_parallelize : LoopParallelizeReport
