-- ===== src/PassPipeline/Frame.antt =====
-- What a stage leaves alone, and what it records of its own pass.
use mathlib.Core.Option.{some-injective}
use topo_llvm.Prelude.{
  ◌≡◌, refl, sym, ◌∙◌, ap, subst, ℕ, ◌+◌, ◌%◌, ◌<◌, ◌^◌, true, false, ◌==◌, Option, some, none,
  ◌>>=◌, if◌then◌else◌, is_some, arith,
}
use topo_llvm.Prelude.Doubles.{Doubles}
use topo_llvm.Prelude.Int.{ℤ, pos, negsuc}
use topo_llvm.Sidecar.Reports.{PassReportHeader, PassReports}
use topo_llvm.Benchmark.Lab.{Lab}
use topo_llvm.PassPipeline.Names.{
  Pass, name_of, same_pass, header_of, edit_header, header_of-edit_header_self,
  header_of-edit_header_other,
}
use topo_llvm.PassPipeline.Config.{Passes}
use topo_llvm.PassPipeline.State.{
  State, Verdict, unsigned_of, is_positive, mark_pass_fired, edited, edit_reports, stamp_header,
  report_pass, report_idle,
}

same_pass_refl : (p : Pass) → same_pass p p ≡ true
same_pass_refl p = ground arith

unsigned_of-lt : (n : ℤ) → unsigned_of n < 4294967296
unfolding unsigned_of
unsigned_of-lt (pos n) = omega arith
unsigned_of-lt (negsuc n) = omega arith

total_of :
    (before count : ℕ)
    → count < 4294967296
    → before ≡ 0
    → (if count == 0 then before else (before + count) % 2 ^ 32) ≡ count
total_of before count h e = ground arith

module _ (D : Doubles) (lab : Lab D) where
  abbrev pub header_at : Pass → State D lab → Option PassReportHeader
  header_at p s = s.reports >>= header_of p

  -- How many passes in auto mode the summary counts.
  abbrev pub tally : State D lab → ℕ
  tally s = s.applied + s.skipped_no_benefit + s.skipped_bench_fail

  -- The report is the pass's own, and its count is the one in the marker.
  abbrev pub IsReported : Pass → ℕ → PassReportHeader → Type 0
  IsReported p marker h =
      (h.pass_name ≡ name_of p)
      × (unsigned_of h.fired_count ≡ marker)
      × (h.fired ≡ is_positive h.fired_count)

  -- Only the pass's marker and the summary have changed; `n` changes and `k` passes were counted.
  pub record Prepared (p : Pass) (n : ℤ) (k : ℕ) (s t : State D lab) : Type 0 where
    pub marks : (q : Pass) → same_pass q p ≡ false → t.markers q ≡ s.markers q
    pub marked : s.markers p ≡ 0 → t.markers p ≡ unsigned_of n
    pub heads : (q : Pass) → header_at q t ≡ header_at q s
    pub keeps : is_some t.reports ≡ is_some s.reports
    pub counts : tally t ≡ tally s + k

  -- The pass's report is stamped too.
  pub record Touches (p : Pass) (k : ℕ) (s t : State D lab) : Type 0 where
    pub marks : (q : Pass) → same_pass q p ≡ false → t.markers q ≡ s.markers q
    pub heads : (q : Pass) → same_pass q p ≡ false → header_at q t ≡ header_at q s
    pub stamped :
        (h : PassReportHeader)
        → s.markers p ≡ 0
        → header_at p t ≡ some h
        → IsReported p (t.markers p) h
    pub keeps : is_some t.reports ≡ is_some s.reports
    pub counts : tally t ≡ tally s + k

  pub idle-Prepared : (p : Pass) (s : State D lab) → Prepared p (pos 0) 0 s s
  unfolding unsigned_of
  idle-Prepared p s = record {
    marks = λ q h. refl;
    marked = λ h. h;
    heads = λ q. refl;
    keeps = refl;
    counts = omega arith;
  }

  pub mark-Prepared :
      (p : Pass) (n : ℤ) (k : ℕ) (s u : State D lab)
      → u.markers ≡ s.markers
      → u.reports ≡ s.reports
      → tally u ≡ tally s + k
      → Prepared p n k s (mark_pass_fired D lab p (unsigned_of n) u)
  unfolding mark_pass_fired
  mark-Prepared p n k s u m r c = record {
    marks = λ q h. rw h (ap (λ f. f q) m);
    marked = λ h.
        rw (same_pass_refl p)
          (total_of (u.markers p) (unsigned_of n) (unsigned_of-lt n) (ap (λ f. f p) m ∙ h));
    heads = λ q. ap (λ o. o >>= header_of q) r;
    keeps = ap is_some r;
    counts = c;
  }

  edited-heads :
      (q : Pass) (f : PassReports D.Double → PassReports D.Double)
      (o : Option (PassReports D.Double))
      → ((r : PassReports D.Double) → header_of q (f r) ≡ header_of q r)
      → (edited D lab f o >>= header_of q) ≡ (o >>= header_of q)
  edited-heads q f none same = refl
  edited-heads q f (some r) same = same r

  edited-some :
      (f : PassReports D.Double → PassReports D.Double) (o : Option (PassReports D.Double))
      → is_some (edited D lab f o) ≡ is_some o
  edited-some f none = refl
  edited-some f (some r) = refl

  -- An edit that keeps the headers.
  pub edit-Prepared :
      (p : Pass) (n : ℤ) (k : ℕ) (f : PassReports D.Double → PassReports D.Double)
      (s t : State D lab)
      → ((q : Pass) (r : PassReports D.Double) → header_of q (f r) ≡ header_of q r)
      → Prepared p n k s t
      → Prepared p n k s (edit_reports D lab f t)
  unfolding edit_reports
  edit-Prepared p n k f s t same h = record {
    marks = h.marks;
    marked = h.marked;
    heads = λ q. edited-heads q f t.reports (same q) ∙ h.heads q;
    keeps = edited-some f t.reports ∙ h.keeps;
    counts = h.counts;
  }

  -- Without a report of its own, the marker and the summary are all there is.
  pub Touches-unreported :
      (p : Pass) (n : ℤ) (k : ℕ) (s t : State D lab)
      → ((r : PassReports D.Double) → header_of p r ≡ none)
      → Prepared p n k s t
      → Touches p k s t
  Touches-unreported p n k s t absent h = record {
    marks = h.marks;
    heads = λ q e. h.heads q;
    stamped = λ g z e. absurd (no_header t.reports g absent e);
    keeps = h.keeps;
    counts = h.counts;
  }
    where
      no_header :
          (o : Option (PassReports D.Double)) (g : PassReportHeader)
          → ((r : PassReports D.Double) → header_of p r ≡ none)
          → (o >>= header_of p) ≡ some g
          → ⊥
      no_header none g absent e = cc
      no_header (some r) g absent e = cc (absent r)

  module _ (P : Passes D lab) where
    stamped-IsReported :
        (p : Pass) (n : ℤ) (v : Verdict) (ns : ℤ) (o : Option PassReportHeader)
        (h : PassReportHeader)
        → (o >>= λ g. some (stamp_header D lab P p n v ns g)) ≡ some h
        → IsReported p (unsigned_of n) h
    unfolding stamp_header
    stamped-IsReported p n v ns none h e = absurd cc
    stamped-IsReported p n v ns (some g) h e =
        subst (IsReported p (unsigned_of n)) (some-injective (stamp_header D lab P p n v ns g) h e)
          (refl, refl, refl)

    edited-IsReported :
        (p : Pass) (n : ℤ) (v : Verdict) (ns : ℤ) (o : Option (PassReports D.Double))
        (h : PassReportHeader)
        → (edited D lab (edit_header p (stamp_header D lab P p n v ns)) o >>= header_of p) ≡ some h
        → IsReported p (unsigned_of n) h
    edited-IsReported p n v ns none h e = absurd cc
    edited-IsReported p n v ns (some r) h e =
        stamped-IsReported p n v ns (header_of p r) h
          (sym (header_of-edit_header_self p (stamp_header D lab P p n v ns) r) ∙ e)

    pub Touches-edit_header :
        (p : Pass) (n : ℤ) (k : ℕ) (v : Verdict) (ns : ℤ) (s t : State D lab)
        → Prepared p n k s t
        → Touches p k s (edit_reports D lab (edit_header p (stamp_header D lab P p n v ns)) t)
    unfolding edit_reports
    Touches-edit_header p n k v ns s t h = record {
      marks = h.marks;
      heads = λ q e.
          edited-heads q (edit_header p (stamp_header D lab P p n v ns)) t.reports
            (λ r. header_of-edit_header_other p q (stamp_header D lab P p n v ns) r e)
          ∙ h.heads q;
      stamped = λ g z e.
          subst (λ m. IsReported p m g) (sym (h.marked z))
            (edited-IsReported p n v ns t.reports g e);
      keeps = edited-some (edit_header p (stamp_header D lab P p n v ns)) t.reports ∙ h.keeps;
      counts = h.counts;
    }

    pub Touches-report_pass :
        (p : Pass) (n : ℤ) (k : ℕ) (v : Verdict) (t₀ : P.Time) (s t : State D lab)
        → Prepared p n k s t
        → Touches p k s (report_pass D lab P p n v t₀ t)
    unfolding report_pass
    Touches-report_pass p n k v t₀ s t h =
        let stamped = Touches-edit_header p n k v (P.elapsed_ns t₀ (P.now t.world).0) s t h in
        record {
          marks = stamped.marks;
          heads = stamped.heads;
          stamped = stamped.stamped;
          keeps = stamped.keeps;
          counts = stamped.counts;
        }

    pub Touches-report_idle :
        (p : Pass) (v : Verdict) (s : State D lab) → Touches p 0 s (report_idle D lab P p v s)
    unfolding report_idle
    Touches-report_idle p v s = Touches-edit_header p (pos 0) 0 v (pos 0) s s (idle-Prepared p s)
