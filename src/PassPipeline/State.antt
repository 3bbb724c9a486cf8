-- ===== src/PassPipeline/State.antt =====
-- The state of a run: the module with its `topo.fired` markers, the counts of the summary and the reports.
use topo_llvm.Prelude.{ℕ, ◌+◌, ◌-◌, ◌%◌, ◌^◌, Bool, ◌==◌, Option, none, some, Bytes, if◌then◌else◌}
use topo_llvm.Prelude.Doubles.{Doubles}
use topo_llvm.Prelude.Int.{ℤ, pos, negsuc, less}
use topo_llvm.Sidecar.Reports.{PassReportHeader, PassReports}
use topo_llvm.Benchmark.Lab.{Lab}
use topo_llvm.Benchmark.Variant.{BaselineCache}
use topo_llvm.PassPipeline.Names.{Pass, name_of, same_pass, edit_header}
use topo_llvm.PassPipeline.Config.{Passes}

-- `static_cast<unsigned>` of an `int`.
unfoldable pub unsigned_of : ℤ → ℕ
unsigned_of (pos n) = n % 2 ^ 32
unsigned_of (negsuc n) = (2 ^ 32 - 1 - n % 2 ^ 32) % 2 ^ 32

abbrev pub is_positive : ℤ → Bool
is_positive n = less (pos 0) n

-- The decision and its reason.
abbrev pub Verdict : Type 0
Verdict = Bytes × Bytes

-- A marker is the count that it holds, and 0 where there is none.
pub record State (D : Doubles) (lab : Lab D) : Type 0 where
  pub ir : lab.Ir
  pub world : lab.World
  pub markers : Pass → ℕ
  pub cache : BaselineCache D.Double
  pub applied : ℕ
  pub skipped_no_benefit : ℕ
  pub skipped_bench_fail : ℕ
  pub reports : Option (PassReports D.Double)

module _ (D : Doubles) (lab : Lab D) where
  -- Sums into a marker that is there.
  unfoldable pub mark_pass_fired : Pass → ℕ → State D lab → State D lab
  mark_pass_fired p count s = record s {
    markers = λ q.
        if same_pass q p
        then (if count == 0 then s.markers p else (s.markers p + count) % 2 ^ 32)
        else s.markers q;
  }

  abbrev pub edited :
      (PassReports D.Double → PassReports D.Double)
      → Option (PassReports D.Double)
      → Option (PassReports D.Double)
  edited f none = none
  edited f (some r) = some (f r)

  unfoldable pub edit_reports :
      (PassReports D.Double → PassReports D.Double) → State D lab → State D lab
  edit_reports f s = record s { reports = edited f s.reports }

  module _ (P : Passes D lab) where
    open P use {Time, now, elapsed_ns, category_of}

    unfoldable pub stamp_header : Pass → ℤ → Verdict → ℤ → PassReportHeader → PassReportHeader
    stamp_header p n verdict ns h = record {
      pass_name = name_of p;
      category = elim (category_of (name_of p)) [ some c ↦ c | none ↦ h.category ];
      fired = is_positive n;
      fired_count = n;
      decision = verdict.0;
      reason = verdict.1;
      elapsed_ns = ns;
    }

    -- The clock is read where there is a report to stamp.
    unfoldable pub report_pass : Pass → ℤ → Verdict → Time → State D lab → State D lab
    unfolding stamp_header edit_reports
    report_pass p n verdict t₀ s =
        let (t₁, w) = now s.world in
        record (edit_reports (edit_header p (stamp_header p n verdict (elapsed_ns t₀ t₁))) s) {
          world = elim s.reports [ none ↦ s.world | some r ↦ w ];
        }

    -- The header of a pass that did not run.
    unfoldable pub report_idle : Pass → Verdict → State D lab → State D lab
    unfolding stamp_header edit_reports
    report_idle p verdict s =
        edit_reports (edit_header p (stamp_header p (pos 0) verdict (pos 0))) s
