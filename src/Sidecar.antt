-- ===== src/Sidecar.antt =====
-- lib/Backend/PassReportsSidecar.cpp: the files that tell what each pass did. What a value looks like as
-- text, `ordered_json::dump(2)`, and what `parse` makes of `dump()`, are parameters; so are the answers
-- of the operating system.
pub mod Reports
pub mod Bodies
pub mod Sorting
pub mod Files
mod Atomic
mod Views
mod Tests
use topo_llvm.Prelude.{Bool, true, false, List, [], ◌∷◌, ◌++◌, if◌then◌else◌, Bytes, codes}
use topo_llvm.Json.Value.{Value}
use topo_llvm.Sidecar.Reports.{PassReports}
use topo_llvm.Sidecar.Bodies.{
  data_layout_to_json, indirection_to_json, topo_parallel_to_json, lifetime_arena_to_json,
  return_specialization_to_json, topo_inline_to_json, topo_flatten_to_json,
  adaptive_dispatch_to_json, prefetch_to_json, containment_interception_to_json,
  loop_parallelize_to_json,
}
use topo_llvm.Sidecar.Sorting.{sort_keys}
use topo_llvm.Sidecar.Files.{Answer, FileSystem, Trace, atomic_write}

-- The file of a report.
abbrev pub report_path : Bytes → Bytes → Bytes
report_path dir name = (dir ++ (codes "/" ++ name)) ++ codes ".json"

-- The writes of the reports, one after the other; `printed` holds the names with the texts.
module _ (answer : Bytes → Answer) (dir : Bytes) where
  unfoldable pub write_all : List (Bytes × Bytes) → FileSystem → Trace
  unfolding atomic_write
  write_all [] fs = record { states = []; last = fs; succeeds = true }
  write_all ((name, printed) ∷ rest) fs =
      let t = atomic_write (answer name) (report_path dir name) printed fs in
      let u = write_all rest t.last in
      record {
        states = t.states ++ u.states;
        last = u.last;
        succeeds = if t.succeeds then u.succeeds else false;
      }

module _ {Double : Type 0} (reparse : Value Double → Value Double)
    (dump : Value Double → Bytes) where
  abbrev pub printed : Value Double → Bytes
  printed v = dump (sort_keys (reparse v))

  unfoldable pub printed_reports : PassReports Double → List (Bytes × Bytes)
  unfolding sort_keys data_layout_to_json indirection_to_json topo_parallel_to_json
      lifetime_arena_to_json return_specialization_to_json topo_inline_to_json topo_flatten_to_json
      adaptive_dispatch_to_json prefetch_to_json containment_interception_to_json
      loop_parallelize_to_json
  printed_reports r =
      (codes "DataLayoutPass", printed (data_layout_to_json r.data_layout))
      ∷ (codes "IndirectionPass", printed (indirection_to_json r.indirection))
      ∷ (codes "TopoParallelPass", printed (topo_parallel_to_json r.topo_parallel))
      ∷ (codes "LifetimeArenaPass", printed (lifetime_arena_to_json r.lifetime_arena))
      ∷ (
        codes "ReturnSpecializationPass",
        printed (return_specialization_to_json r.return_specialization),
      )
      ∷ (codes "TopoInlinePass", printed (topo_inline_to_json r.topo_inline))
      ∷ (codes "TopoFlattenPass", printed (topo_flatten_to_json r.topo_flatten))
      ∷ (codes "AdaptiveDispatchPass", printed (adaptive_dispatch_to_json r.adaptive_dispatch))
      ∷ (codes "PrefetchPass", printed (prefetch_to_json r.prefetch))
      ∷ (
        codes "ContainmentInterceptionPass",
        printed (containment_interception_to_json r.containment_interception),
      )
      ∷ (codes "LoopParallelizePass", printed (loop_parallelize_to_json r.loop_parallelize))
      ∷ []

  -- `creates` is the answer to `create_directories`.
  unfoldable pub write_pass_reports_sidecar :
      (Bytes → Answer) → Bool → PassReports Double → Bytes → FileSystem → Trace
  unfolding write_all printed_reports
  write_pass_reports_sidecar answer creates reports output_path fs =
      if creates
      then write_all answer (output_path ++ codes ".topo-passes") (printed_reports reports) fs
      else record { states = fs ∷ []; last = fs; succeeds = false }
