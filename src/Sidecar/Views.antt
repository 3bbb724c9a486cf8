-- ===== src/Sidecar/Views.antt =====
-- The whole writer: what a reader of the directory can meet.
use topo_llvm.Prelude.{◌≡◌, refl, inl, Bool, true, ◌++◌, Bytes, codes, All, if_cases}
use topo_llvm.Json.Value.{Value}
use topo_llvm.Sidecar.{printed_reports, write_pass_reports_sidecar}
use topo_llvm.Sidecar.Reports.{PassReports}
use topo_llvm.Sidecar.Files.{Answer, FileSystem, Trace}
use topo_llvm.Sidecar.Atomic.{AtomicView, AllComplete, write_all-views}

module _ {Double : Type 0} (reparse : Value Double → Value Double)
    (dump : Value Double → Bytes) where
  -- Whatever the system answers, in every state of the writer each file that is not temporary is as it
  -- was before, or holds the whole text of a report under its path; and where the writer answers that
  -- it succeeded, the file of every report is complete.
  pub write_pass_reports_sidecar-AtomicView :
      (answer : Bytes → Answer) (creates : Bool) (reports : PassReports Double)
      (output_path : Bytes) (fs : FileSystem)
      → All
          (AtomicView answer
            (output_path ++ codes ".topo-passes")
            (printed_reports reparse dump reports)
            fs)
          (write_pass_reports_sidecar reparse dump answer creates reports output_path fs).states
        × ((write_pass_reports_sidecar reparse dump answer creates reports output_path fs).succeeds
              ≡ true
            → AllComplete answer
                (output_path ++ codes ".topo-passes")
                (printed_reports reparse dump reports)
                (write_pass_reports_sidecar reparse dump answer creates reports output_path fs).last
                (printed_reports reparse dump reports))
  unfolding write_pass_reports_sidecar
  write_pass_reports_sidecar-AtomicView answer creates reports output_path fs =
      let dir = output_path ++ codes ".topo-passes" in
      let rs = printed_reports reparse dump reports in
      let views = write_all-views answer dir rs rs fs (λ r m. m) in
      if_cases
        (λ (t : Trace).
          All (AtomicView answer dir rs fs) t.states
          × (t.succeeds ≡ true → AllComplete answer dir rs t.last rs))
        creates _ _ (λ e. (views.0, views.2)) (λ e. (((λ p l. inl refl), tt), (λ h. absurd cc)))
