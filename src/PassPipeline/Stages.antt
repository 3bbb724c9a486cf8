-- ===== src/PassPipeline/Stages.antt =====
-- Every stage touches the marker and the report of its own pass alone.
use topo_llvm.Prelude.{
  ◌≡◌, refl, ◌∙◌, ap, ℕ, ◌+◌, Bool, true, false, Option, some, none, List, Bytes, if◌then◌else◌,
  if_cases, is_some, ◌>>=◌, arith,
}
use topo_llvm.Prelude.Doubles.{Doubles}
use topo_llvm.Prelude.Int.{ℤ, pos}
use topo_llvm.Benchmark.Lab.{Lab}
use topo_llvm.PassPipeline.Names.{Pass, header_of}
use topo_llvm.PassPipeline.Config.{Passes, Feature, FeatureMode}
use topo_llvm.PassPipeline.State.{State, Verdict, unsigned_of}
use topo_llvm.PassPipeline.Plain.{Adds, counted, timed, gated}
use topo_llvm.PassPipeline.Auto.{Trial, Outcome, applied_outcome, auto_outcome}
use topo_llvm.PassPipeline.Headers.{KeepsHeaders}
use topo_llvm.PassPipeline.Frame.{
  Prepared, Touches, tally, mark-Prepared, edit-Prepared, Touches-report_pass, Touches-report_idle,
}

-- How often the summary counts a pass: where it is enabled, by its mode.
abbrev pub weight_of : {Settings : Type 0} → (FeatureMode → ℕ) → Option (Feature Settings) → ℕ
weight_of weight none = 0
weight_of weight (some c) = if c.enabled then weight c.mode else 0

module _ (D : Doubles) (lab : Lab D) (P : Passes D lab) where
  pub counted-Prepared :
      (p : Pass) (pass : lab.Ir → lab.Ir × ℤ) (s : State D lab)
      → Prepared D lab p (pass s.ir).1 0 s (counted D lab P p pass s)
  unfolding counted
  counted-Prepared p pass s =
      mark-Prepared D lab p (pass s.ir).1 0 s (record s { ir = (pass s.ir).0 }) refl refl
        (omega arith)

  pub Touches-timed :
      {E : Type 0} (p : Pass) (pass : lab.Ir → lab.Ir × ℤ × List E) (verdict : ℤ → Verdict)
      (add : Adds D E) (k : ℕ) (s u : State D lab)
      → ((es : List E) → KeepsHeaders D (add es))
      → u.markers ≡ s.markers
      → u.reports ≡ s.reports
      → tally D lab u ≡ tally D lab s + k
      → Touches D lab p k s (timed D lab P p pass verdict add u)
  unfolding timed
  Touches-timed p pass verdict add k s u same m r t =
      let (ir, n, found) = pass u.ir in
      let (t₀, w) = P.now u.world in
      Touches-report_pass D lab P p n k (verdict n) t₀ s _ (
        edit-Prepared D lab p n k (add found) s _ (same found)
          (mark-Prepared D lab p n k s (record u { ir = ir; world = w }) m r t))

  pub Touches-if :
      (p : Pass) (b : Bool) (k : ℕ) (s t u : State D lab)
      → Touches D lab p k s t
      → Touches D lab p 0 s u
      → Touches D lab p (if b then k else 0) s (if b then t else u)
  Touches-if p true k s t u h i = h
  Touches-if p false k s t u h i = i

  pub Touches-gated :
      (p : Pass) (a b : Bytes) (o : Option (Feature P.Settings))
      (run : Feature P.Settings → State D lab → State D lab) (weight : FeatureMode → ℕ)
      (s : State D lab)
      → ((c : Feature P.Settings) → Touches D lab p (weight c.mode) s (run c s))
      → Touches D lab p (weight_of weight o) s (gated D lab P p a b o run s)
  unfolding gated
  Touches-gated p a b none run weight s h = Touches-report_idle D lab P p _ s
  Touches-gated p a b (some c) run weight s h =
      Touches-if p c.enabled (weight c.mode) s _ _ (h c) (Touches-report_idle D lab P p _ s)

  pub skipped-Prepared :
      (p : Pass) (s u : State D lab)
      → u.markers ≡ s.markers
      → u.reports ≡ s.reports
      → tally D lab u ≡ tally D lab s + 1
      → Prepared D lab p (pos 0) 1 s u
  unfolding unsigned_of
  skipped-Prepared p s u m r c = record {
    marks = λ q e. ap (λ f. f q) m;
    marked = λ e. ap (λ f. f p) m ∙ e;
    heads = λ q. ap (λ o. o >>= header_of q) r;
    keeps = ap is_some r;
    counts = c;
  }

  module _ {E : Type 0} (p : Pass) (pass : lab.Ir → lab.Ir × ℤ × E) where
    abbrev pub IsPrepared : ℕ → State D lab → Outcome D lab E → Type 0
    IsPrepared k s o = Prepared D lab p o.fired k s o.state

    pub applied-IsPrepared :
        (v : Verdict) (k : ℕ) (s u : State D lab)
        → u.markers ≡ s.markers
        → u.reports ≡ s.reports
        → tally D lab u ≡ tally D lab s + k
        → IsPrepared k s (applied_outcome D lab p pass v u)
    unfolding applied_outcome
    applied-IsPrepared v k s u m r t =
        mark-Prepared D lab p (pass u.ir).1 k s (record u { ir = (pass u.ir).0 }) m r t

    pub auto-IsPrepared :
        (won : Verdict) (no_gain : Bytes) (idle : E) (t : Trial D lab) (s u : State D lab)
        → u.markers ≡ s.markers
        → u.reports ≡ s.reports
        → tally D lab u ≡ tally D lab s
        → IsPrepared 1 s (auto_outcome D lab p pass won no_gain idle t u)
    unfolding auto_outcome
    auto-IsPrepared won no_gain idle t s u m r c =
        if_cases (IsPrepared 1 s) t.beneficial _ _
          (λ _.
            applied-IsPrepared won 1 s (record u { applied = u.applied + 1 }) m r
              (omega (arith, c)))
          (λ _.
            if_cases (IsPrepared 1 s) t.any_succeeded _ _
              (λ _. skipped-Prepared p s _ m r (omega (arith, c)))
              (λ _. skipped-Prepared p s _ m r (omega (arith, c))))
