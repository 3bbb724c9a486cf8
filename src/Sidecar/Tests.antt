-- ===== src/Sidecar/Tests.antt =====
-- One run of the writer, whose first two writes fail.
use topo_llvm.Prelude.{
  ◌≡◌, refl, true, false, none, [], ◌∷◌, ◌++◌, if◌then◌else◌, ℕ, Bytes, codes, same, All,
}
use topo_llvm.Prelude.Int.{pos}
use topo_llvm.Json.Value.{boolean, object, then_member, no_members, key_less, set_ordered}
use topo_llvm.Sidecar.{printed_reports, write_pass_reports_sidecar}
use topo_llvm.Sidecar.Reports.{PassReportHeader, PassReports}
use topo_llvm.Sidecar.Files.{Answer, FileSystem}
use topo_llvm.Sidecar.Sorting.{sort_keys}
use topo_llvm.Sidecar.Atomic.{AtomicView, AllComplete}
use topo_llvm.Sidecar.Views.{write_pass_reports_sidecar-AtomicView}

sorted_keys :
    sort_keys {Double = ℕ} (
      object (
        then_member
          (codes "b")
          (boolean true)
          (then_member (codes "a") (boolean false) no_members)))
    ≡ object (
        then_member (codes "a") (boolean false) (then_member (codes "b") (boolean true) no_members))
unfolding sort_keys same key_less set_ordered
sorted_keys = refl

abbrev idle_header : PassReportHeader
idle_header = record {
  pass_name = codes "Pass";
  category = codes "OPT";
  fired = false;
  fired_count = pos 0;
  decision = codes "disabled";
  reason = [];
  elapsed_ns = pos 0;
}

abbrev idle_reports : PassReports ℕ
idle_reports = record {
  data_layout = record { header = idle_header; candidates = [] };
  indirection = record {
    header = idle_header;
    unique_ptr_promoted = pos 0;
    shared_ptr_optimized = pos 0;
    shared_ptr_dereferenced = pos 0;
    refcount_eliminated = pos 0;
    vector_lowered = pos 0;
    pointer_attrs_added = pos 0;
    calls_devirtualized = pos 0;
    vtable_constants_annotated = pos 0;
  };
  topo_parallel = record { header = idle_header; candidates = [] };
  lifetime_arena = record { header = idle_header; candidates = [] };
  return_specialization = record { header = idle_header; entries = [] };
  topo_inline = record { header = idle_header; entries = [] };
  topo_flatten = record { header = idle_header; demoted_functions = [] };
  adaptive_dispatch = record { header = idle_header; entries = [] };
  prefetch = record { header = idle_header; entries = [] };
  containment_interception = record { header = idle_header; entries = [] };
  loop_parallelize = record { header = idle_header; entries = [] };
}

-- The disk is full for one file, and another cannot be renamed.
abbrev bad_disk : Bytes → Answer
bad_disk name = record {
  opens = true;
  parts = 1 ∷ [];
  writes = if same name (codes "DataLayoutPass") then false else true;
  syncs = true;
  renames = if same name (codes "IndirectionPass") then false else true;
}

abbrev empty_disk : FileSystem
empty_disk path = none

write_pass_reports_sidecar-AtomicView_example :
    All
      (AtomicView bad_disk
        (codes "out" ++ codes ".topo-passes")
        (printed_reports (λ v. v) (λ v. codes "{}") idle_reports)
        empty_disk)
      (write_pass_reports_sidecar
        (λ v. v)
        (λ v. codes "{}")
        bad_disk
        true
        idle_reports
        (codes "out")
        empty_disk).states
    × ((write_pass_reports_sidecar
            (λ v. v)
            (λ v. codes "{}")
            bad_disk
            true
            idle_reports
            (codes "out")
            empty_disk).succeeds
          ≡ true
        → AllComplete bad_disk
            (codes "out" ++ codes ".topo-passes")
            (printed_reports (λ v. v) (λ v. codes "{}") idle_reports)
            (write_pass_reports_sidecar
              (λ v. v)
              (λ v. codes "{}")
              bad_disk
              true
              idle_reports
              (codes "out")
              empty_disk).last
            (printed_reports (λ v. v) (λ v. codes "{}") idle_reports))
write_pass_reports_sidecar-AtomicView_example =
    write_pass_reports_sidecar-AtomicView (λ v. v) (λ v. codes "{}") bad_disk true idle_reports
      (codes "out") empty_disk
