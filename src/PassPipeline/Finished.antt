-- ===== src/PassPipeline/Finished.antt =====
-- The whole run: the passes behind the standard pipeline, and the fallback headers.
use topo_llvm.Prelude.{
  ◌≡◌, refl, sym, ◌∙◌, subst, ℕ, ◌≤◌, true, false, Bool-cases, inl, inr, Option, some, none, List,
  [], ◌∷◌, ◌>>=◌, is_some, if_cases, arith,
}
use topo_llvm.Prelude.Doubles.{Doubles}
use topo_llvm.Sema.{SymbolTable}
use topo_llvm.SymbolMapper.{SymbolMapping, VisibilityEntry}
use topo_llvm.SymbolMapper.Keys.{is_empty}
use topo_llvm.Sidecar.Reports.{PassReportHeader, PassReports}
use topo_llvm.Benchmark.Lab.{Lab}
use topo_llvm.PassPipeline.Names.{
  Pass, name_of, same_pass, header_of, edit_header, header_of-edit_header_self,
  header_of-edit_header_other, same_pass→eq,
}
use topo_llvm.PassPipeline.Config.{
  Passes, Feature, FeatureMode, Given, OptLevel, PassPipelineConfig,
}
use topo_llvm.PassPipeline.State.{State, edited, edit_reports}
use topo_llvm.PassPipeline.Run.{
  run_topo, run_around, run_optimized, run, fresh, is_optimized, with_ir, stamp_fallback,
  stamp_fallbacks, judging_passes, run_standard_pipeline,
}
use topo_llvm.PassPipeline.Frame.{header_at, tally, IsReported}
use topo_llvm.PassPipeline.Each.{in_auto, Touches-counted}
use topo_llvm.PassPipeline.Stages.{weight_of}
use topo_llvm.PassPipeline.Reported.{
  among, Done, Done-ir, Done-next, auto_passes, reported_passes, run_given-Done,
}

name_of-is_empty : (p : Pass) → is_empty (name_of p) ≡ false
unfolding name_of
name_of-is_empty Pass.containment_interception = refl
name_of-is_empty p = refl

in_auto_bound : (m : FeatureMode) → in_auto m ≤ 1
in_auto_bound FeatureMode.auto = omega arith
in_auto_bound FeatureMode.off = omega arith
in_auto_bound FeatureMode.force = omega arith

module _ (D : Doubles) (lab : Lab D) (P : Passes D lab) where
  abbrev IsNamed : Option PassReportHeader → Type 0
  IsNamed none = Unit
  IsNamed (some h) = is_empty h.pass_name ≡ false

  unchanged :
      (p : Pass) (o : Option PassReportHeader)
      → IsNamed o
      → (o >>= λ h. some (stamp_fallback D lab P p h)) ≡ o
  unfolding stamp_fallback
  unchanged p none n = refl
  unchanged p (some h) n = rw n refl

  fallback-heads :
      (p q : Pass) (o : Option (PassReports D.Double))
      → IsNamed (o >>= header_of p)
      → (edited D lab (edit_header p (stamp_fallback D lab P p)) o >>= header_of q)
        ≡ (o >>= header_of q)
  fallback-heads p q none n = refl
  fallback-heads p q (some r) n = elim (Bool-cases (same_pass q p)) [
    | inl e ↦
        subst (λ x. header_of x (edit_header p (stamp_fallback D lab P p) r) ≡ header_of x r)
          (sym (same_pass→eq q p e))
          (header_of-edit_header_self p (stamp_fallback D lab P p) r
            ∙ unchanged p (header_of p r) n)
    | inr e ↦ header_of-edit_header_other p q (stamp_fallback D lab P p) r e
  ]

  edited-is_some :
      (f : PassReports D.Double → PassReports D.Double) (o : Option (PassReports D.Double))
      → is_some (edited D lab f o) ≡ is_some o
  edited-is_some f none = refl
  edited-is_some f (some r) = refl

  -- Where every report has its name, the fallback changes nothing.
  fallbacks-Done :
      (passes ps : List Pass) (n : ℕ) (s t : State D lab)
      → ((p : Pass) → IsNamed (header_at D lab p t))
      → Done D lab ps n s t
      → Done D lab ps n s (stamp_fallbacks D lab P passes t)
  unfolding stamp_fallbacks edit_reports
  fallbacks-Done [] ps n s t named d = d
  fallbacks-Done (p ∷ passes) ps n s t named d =
      let heads = λ (q : Pass). fallback-heads p q t.reports (named p) in
      fallbacks-Done passes ps n s _ (λ q. subst IsNamed (sym (heads q)) (named q))
        (record {
          marks = d.marks;
          reported = λ q h e z a. d.reported q h e z (sym (heads q) ∙ a);
          keeps = edited-is_some _ t.reports ∙ d.keeps;
          counts = d.counts;
        })

  Done-IsNamed :
      (ps : List Pass) (n : ℕ) (s t : State D lab)
      → ((q : Pass) → among q ps ≡ true)
      → ((q : Pass) → s.markers q ≡ 0)
      → Done D lab ps n s t
      → (p : Pass) (o : Option PassReportHeader) → header_at D lab p t ≡ o
      → IsNamed o
  Done-IsNamed ps n s t all zero d p none e = tt
  Done-IsNamed ps n s t all zero d p (some h) e =
      subst (λ x. is_empty x ≡ false) (sym (d.reported p h (all p) (zero p) e).0)
        (name_of-is_empty p)

  module _ (level : OptLevel) (cfg : PassPipelineConfig P.Settings) where
    -- The run with all three parts of what is given.
    abbrev finished :
        Option (List VisibilityEntry)
        → Option SymbolMapping
        → Option SymbolTable
        → State D lab
        → State D lab
    finished entries mapping symbols s = stamp_fallbacks D lab P judging_passes (
        run_around D lab P level cfg symbols mapping (
          with_ir D lab P P.strip_no_inline (run_topo D lab P level cfg entries mapping symbols s)))

    abbrev every_pass : List Pass
    every_pass = Pass.topo_layout ∷ Pass.topo_reorder ∷ reported_passes

    among-every_pass : (q : Pass) → among q every_pass ≡ true
    among-every_pass Pass.topo_layout = refl
    among-every_pass q = refl

    finished-Done :
        (g : Given) (s : State D lab)
        → ((q : Pass) → s.markers q ≡ 0)
        → (n : ℕ) × (n ≡ auto_passes cfg)
          × Done D lab every_pass n s
              (finished (some g.entries) (some g.mapping) (some g.symbols) s)
    unfolding run_topo run_around header_of
    finished-Done g s zero =
        let (n, count, d) = run_given-Done D lab P level cfg g s in
        let d₁ = Done-ir D lab reported_passes n s _ P.strip_no_inline d in
        let d₂ =
          Done-next D lab _ _ Pass.topo_reorder 0 s _ _ d₁ refl
            (Touches-counted D lab P cfg g level Pass.topo_reorder _ _ (λ r. refl)) in
        let d₃ = Done-ir D lab _ _ s _ (run_standard_pipeline D lab P level cfg.mode) d₂ in
        let d₄ =
          Done-next D lab _ _ Pass.topo_layout 0 s _ _ d₃ refl
            (Touches-counted D lab P cfg g level Pass.topo_layout _ _ (λ r. refl)) in
        (
          _,
          omega (arith, count),
          fallbacks-Done judging_passes every_pass _ s _
              (λ p. Done-IsNamed every_pass _ s _ among-every_pass zero d₄ p _ refl) d₄,
        )

    run-Done :
        (entries : List VisibilityEntry) (mapping : SymbolMapping) (symbols : SymbolTable)
        (s : State D lab)
        → is_optimized level ≡ true
        → cfg.entries ≡ some entries
        → cfg.mapping ≡ some mapping
        → cfg.symbols ≡ some symbols
        → ((q : Pass) → s.markers q ≡ 0)
        → (n : ℕ) × (n ≡ auto_passes cfg)
          × Done D lab every_pass n (fresh D lab P s) (run D lab P level cfg s)
    unfolding run run_optimized
    run-Done entries mapping symbols s opt e₁ e₂ e₃ zero =
        let done =
          finished-Done (record { entries = entries; mapping = mapping; symbols = symbols })
            (fresh D lab P s) zero in
        let optimized : run D lab P level cfg s
            ≡ finished (some entries) (some mapping) (some symbols) (fresh D lab P s) =
          rw opt (λ i. finished (e₁ i) (e₂ i) (e₃ i) (fresh D lab P s)) in
        subst (λ t. (n : ℕ) × (n ≡ auto_passes cfg) × Done D lab every_pass n (fresh D lab P s) t)
          (sym optimized) done

    -- Given visibility entries, a mapping and symbols, a run above O0 on a module without markers leaves
    -- each report with the name of its pass, the count that is in the module's marker of that pass, as an
    -- unsigned word, and the flag that says whether the count is positive.
    pub run-IsReported :
        (entries : List VisibilityEntry) (mapping : SymbolMapping) (symbols : SymbolTable)
        (s : State D lab) (q : Pass) (h : PassReportHeader)
        → is_optimized level ≡ true
        → cfg.entries ≡ some entries
        → cfg.mapping ≡ some mapping
        → cfg.symbols ≡ some symbols
        → ((p : Pass) → s.markers p ≡ 0)
        → header_at D lab q (run D lab P level cfg s) ≡ some h
        → IsReported D lab q ((run D lab P level cfg s).markers q) h
    run-IsReported entries mapping symbols s q h opt e₁ e₂ e₃ zero found =
        let (n, count, d) = run-Done entries mapping symbols s opt e₁ e₂ e₃ zero in
        d.reported q h (among-every_pass q) (zero q) found

    weight_bound : (o : Option (Feature P.Settings)) → weight_of in_auto o ≤ 1
    weight_bound none = omega arith
    weight_bound (some c) =
        if_cases (λ n. n ≤ 1) c.enabled (in_auto c.mode) 0 (λ _. in_auto_bound c.mode)
          (λ _. omega arith)

    -- Under the same conditions the summary counts exactly the passes that are enabled in auto mode, of the
    -- four that it speaks of, and none twice; a report sink that was given is still there.
    pub run-tally :
        (entries : List VisibilityEntry) (mapping : SymbolMapping) (symbols : SymbolTable)
        (s : State D lab)
        → is_optimized level ≡ true
        → cfg.entries ≡ some entries
        → cfg.mapping ≡ some mapping
        → cfg.symbols ≡ some symbols
        → ((p : Pass) → s.markers p ≡ 0)
        → let t = run D lab P level cfg s in
          (tally D lab t ≡ auto_passes cfg)
          × (tally D lab t ≤ 4)
          × (is_some t.reports ≡ is_some s.reports)
    run-tally entries mapping symbols s opt e₁ e₂ e₃ zero =
        let (n, count, d) = run-Done entries mapping symbols s opt e₁ e₂ e₃ zero in
        (
          omega (arith, d.counts, count),
          omega (
            arith,
            d.counts,
            count,
            weight_bound cfg.indirection_cfg,
            weight_bound cfg.parallel_cfg,
            weight_bound cfg.adaptive_cfg,
            weight_bound cfg.lifetime_cfg,
          ),
          d.keeps,
        )
