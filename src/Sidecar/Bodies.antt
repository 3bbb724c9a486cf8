-- ===== src/Sidecar/Bodies.antt =====
-- The JSON of each report.
use topo_llvm.Prelude.{[], ◌∷◌, codes}
use topo_llvm.Prelude.Int.{pos}
use topo_llvm.Json.Value.{Value, boolean, integer, floating, text, object_of, array_of}
use topo_llvm.Sidecar.Reports.{
  PassReportHeader, DataLayoutCandidate, DataLayoutReport, IndirectionReport, TopoParallelCandidate,
  TopoParallelReport, LifetimeArenaCandidate, LifetimeArenaReport, ReturnSpecializationEntry,
  ReturnSpecializationReport, TopoInlineEntry, TopoInlineReport, TopoFlattenReport,
  AdaptiveDispatchEntry, AdaptiveDispatchReport, PrefetchEntry, PrefetchReport,
  ContainmentInterceptionEntry, ContainmentInterceptionReport, LoopParallelizeEntry,
  LoopParallelizeReport,
}

module _ {Double : Type 0} where
  unfoldable pub header_to_json : PassReportHeader → Value Double
  unfolding object_of array_of
  header_to_json h = object_of (
      (codes "pass", text h.pass_name)
      ∷ (codes "category", text h.category)
      ∷ (codes "fired", boolean h.fired)
      ∷ (codes "fired_count", integer h.fired_count)
      ∷ (codes "decision", text h.decision)
      ∷ (codes "reason", text h.reason)
      ∷ (codes "elapsed_ns", integer h.elapsed_ns)
      ∷ [])

  abbrev pub data_layout_entry : DataLayoutCandidate Double → Value Double
  data_layout_entry c = object_of (
      (codes "pipeline", text c.pipeline_name)
      ∷ (codes "wrapper_ir_type", text c.wrapper_ir_type)
      ∷ (codes "element_ir_type", text c.element_ir_type)
      ∷ (codes "array_size", integer (pos c.array_size))
      ∷ (codes "baseline_ns", integer c.baseline_ns)
      ∷ (codes "variant_ns", integer c.variant_ns)
      ∷ (codes "speedup", floating c.speedup)
      ∷ (codes "winner", text c.winner)
      ∷ (codes "applied", boolean c.applied)
      ∷ [])

  unfoldable pub data_layout_to_json : DataLayoutReport Double → Value Double
  unfolding object_of array_of header_to_json
  data_layout_to_json r = object_of (
      (codes "header", header_to_json r.header)
      ∷ (codes "candidates", array_of data_layout_entry r.candidates)
      ∷ [])

  unfoldable pub indirection_to_json : IndirectionReport → Value Double
  unfolding object_of array_of header_to_json
  indirection_to_json r = object_of (
      (codes "header", header_to_json r.header)
      ∷ (
        codes "stats",
        object_of (
            (codes "unique_ptr_promoted", integer r.unique_ptr_promoted)
            ∷ (codes "shared_ptr_optimized", integer r.shared_ptr_optimized)
            ∷ (codes "shared_ptr_dereferenced", integer r.shared_ptr_dereferenced)
            ∷ (codes "refcount_eliminated", integer r.refcount_eliminated)
            ∷ (codes "vector_lowered", integer r.vector_lowered)
            ∷ (codes "pointer_attrs_added", integer r.pointer_attrs_added)
            ∷ (codes "calls_devirtualized", integer r.calls_devirtualized)
            ∷ (codes "vtable_constants_annotated", integer r.vtable_constants_annotated)
            ∷ []),
      )
      ∷ [])

  abbrev pub topo_parallel_entry : TopoParallelCandidate Double → Value Double
  topo_parallel_entry c = object_of (
      (codes "pipeline", text c.pipeline_name)
      ∷ (codes "baseline_ns", integer c.baseline_ns)
      ∷ (codes "variant_ns", integer c.variant_ns)
      ∷ (codes "speedup", floating c.speedup)
      ∷ (codes "winner", text c.winner)
      ∷ (codes "applied", boolean c.applied)
      ∷ [])

  unfoldable pub topo_parallel_to_json : TopoParallelReport Double → Value Double
  unfolding object_of array_of header_to_json
  topo_parallel_to_json r = object_of (
      (codes "header", header_to_json r.header)
      ∷ (codes "candidates", array_of topo_parallel_entry r.candidates)
      ∷ [])

  abbrev pub lifetime_arena_entry : LifetimeArenaCandidate Double → Value Double
  lifetime_arena_entry c = object_of (
      (codes "owner", text c.owner_name)
      ∷ (codes "baseline_ns", integer c.baseline_ns)
      ∷ (codes "variant_ns", integer c.variant_ns)
      ∷ (codes "speedup", floating c.speedup)
      ∷ (codes "winner", text c.winner)
      ∷ (codes "applied", boolean c.applied)
      ∷ [])

  unfoldable pub lifetime_arena_to_json : LifetimeArenaReport Double → Value Double
  unfolding object_of array_of header_to_json
  lifetime_arena_to_json r = object_of (
      (codes "header", header_to_json r.header)
      ∷ (codes "candidates", array_of lifetime_arena_entry r.candidates)
      ∷ [])

  abbrev pub return_specialization_entry : ReturnSpecializationEntry → Value Double
  return_specialization_entry e = object_of (
      (codes "host_function", text e.host_function)
      ∷ (codes "eliminated_field_indices", array_of integer e.eliminated_field_indices)
      ∷ (codes "kept_field_indices", array_of integer e.kept_field_indices)
      ∷ [])

  unfoldable pub return_specialization_to_json : ReturnSpecializationReport → Value Double
  unfolding object_of array_of header_to_json
  return_specialization_to_json r = object_of (
      (codes "header", header_to_json r.header)
      ∷ (codes "entries", array_of return_specialization_entry r.entries)
      ∷ [])

  abbrev pub topo_inline_entry : TopoInlineEntry → Value Double
  topo_inline_entry e =
      object_of ((codes "callee", text e.callee) ∷ (codes "reason", text e.reason) ∷ [])

  unfoldable pub topo_inline_to_json : TopoInlineReport → Value Double
  unfolding object_of array_of header_to_json
  topo_inline_to_json r = object_of (
      (codes "header", header_to_json r.header)
      ∷ (codes "entries", array_of topo_inline_entry r.entries)
      ∷ [])

  unfoldable pub topo_flatten_to_json : TopoFlattenReport → Value Double
  unfolding object_of array_of header_to_json
  topo_flatten_to_json r = object_of (
      (codes "header", header_to_json r.header)
      ∷ (codes "demoted_functions", array_of text r.demoted_functions)
      ∷ [])

  abbrev pub adaptive_dispatch_entry : AdaptiveDispatchEntry → Value Double
  adaptive_dispatch_entry e =
      object_of (
        (codes "stage", text e.stage_name) ∷ (codes "default_variant", text e.default_variant) ∷ [])

  unfoldable pub adaptive_dispatch_to_json : AdaptiveDispatchReport → Value Double
  unfolding object_of array_of header_to_json
  adaptive_dispatch_to_json r = object_of (
      (codes "header", header_to_json r.header)
      ∷ (codes "entries", array_of adaptive_dispatch_entry r.entries)
      ∷ [])

  abbrev pub prefetch_entry : PrefetchEntry → Value Double
  prefetch_entry e = object_of (
      (codes "host_function", text e.host_function)
      ∷ (codes "inserted_hints", integer e.inserted_hints)
      ∷ (codes "distance", integer e.distance)
      ∷ [])

  unfoldable pub prefetch_to_json : PrefetchReport → Value Double
  unfolding object_of array_of header_to_json
  prefetch_to_json r = object_of (
      (codes "header", header_to_json r.header)
      ∷ (codes "entries", array_of prefetch_entry r.entries)
      ∷ [])

  abbrev pub containment_interception_entry : ContainmentInterceptionEntry → Value Double
  containment_interception_entry e = object_of (
      (codes "caller", text e.caller_function)
      ∷ (codes "intercepted_callee", text e.intercepted_callee)
      ∷ [])

  unfoldable pub containment_interception_to_json : ContainmentInterceptionReport → Value Double
  unfolding object_of array_of header_to_json
  containment_interception_to_json r = object_of (
      (codes "header", header_to_json r.header)
      ∷ (codes "entries", array_of containment_interception_entry r.entries)
      ∷ [])

  abbrev pub loop_parallelize_entry : LoopParallelizeEntry → Value Double
  loop_parallelize_entry e = object_of (
      (codes "host_function", text e.host_function)
      ∷ (codes "annotated_loops", integer e.annotated_loops)
      ∷ [])

  unfoldable pub loop_parallelize_to_json : LoopParallelizeReport → Value Double
  unfolding object_of array_of header_to_json
  loop_parallelize_to_json r = object_of (
      (codes "header", header_to_json r.header)
      ∷ (codes "entries", array_of loop_parallelize_entry r.entries)
      ∷ [])
