-- ===== src/PassPipeline/Layouts.antt =====
-- What the data layout pass touches.
use topo_llvm.Prelude.{◌≡◌, refl, ◌∙◌, ap, subst, ℕ, ◌+◌, ◌%◌, ◌^◌, List, [], ◌∷◌, is_some, arith}
use topo_llvm.Prelude.Doubles.{Doubles}
use topo_llvm.Prelude.Int.{ℤ, pos}
use topo_llvm.Sidecar.Reports.{PassReports}
use topo_llvm.Benchmark.Lab.{Lab}
use topo_llvm.Benchmark.Layout.{LayoutVariantPair}
use topo_llvm.PassPipeline.Names.{Pass, header_of}
use topo_llvm.PassPipeline.Config.{Passes, Feature, FeatureMode, Given, PassPipelineConfig}
use topo_llvm.PassPipeline.State.{State, unsigned_of, mark_pass_fired, edit_reports}
use topo_llvm.PassPipeline.DataLayout.{
  signed_of, settle_variant, judge_variant, judge_variants, auto_layout, forced_layout, layout_in,
  apply_data_layout, run_data_layout,
}
use topo_llvm.PassPipeline.Frame.{
  header_at, Prepared, Touches, tally, idle-Prepared, mark-Prepared, edit-Prepared,
  Touches-report_pass,
}
use topo_llvm.PassPipeline.Headers.{add_layout-KeepsHeaders}
use topo_llvm.PassPipeline.Stages.{weight_of, Touches-gated}

unsigned_of-signed_of : (n : ℕ) → unsigned_of (signed_of n) ≡ n % 2 ^ 32
unfolding unsigned_of signed_of
unsigned_of-signed_of n = ground arith

module _ (D : Doubles) (lab : Lab D) (P : Passes D lab) (cfg : PassPipelineConfig P.Settings)
    (g : Given) where
  -- No marker, header or count has changed.
  record Still (s t : State D lab) : Type 0 where
    marks : t.markers ≡ s.markers
    heads : (q : Pass) → header_at D lab q t ≡ header_at D lab q s
    keeps : is_some t.reports ≡ is_some s.reports
    counts : tally D lab t ≡ tally D lab s

  Still-Prepared :
      (p : Pass) (n : ℤ) (s t u : State D lab)
      → Still s t
      → Prepared D lab p n 0 t u
      → Prepared D lab p n 0 s u
  Still-Prepared p n s t u a b = record {
    marks = λ q e. b.marks q e ∙ ap (λ f. f q) a.marks;
    marked = λ z. b.marked (ap (λ f. f p) a.marks ∙ z);
    heads = λ q. b.heads q ∙ a.heads q;
    keeps = b.keeps ∙ a.keeps;
    counts = b.counts ∙ ap (λ m. m + 0) a.counts;
  }

  Still-edit :
      (s t : State D lab) (f : PassReports D.Double → PassReports D.Double)
      → ((q : Pass) (r : PassReports D.Double) → header_of q (f r) ≡ header_of q r)
      → Still s t
      → Still s (edit_reports D lab f t)
  unfolding edit_reports
  Still-edit s t f same a =
      let edit =
        edit-Prepared D lab Pass.data_layout (pos 0) 0 f t t same (idle-Prepared D lab _ t) in
      record {
        marks = a.marks;
        heads = λ q. edit.heads q ∙ a.heads q;
        keeps = edit.keeps ∙ a.keeps;
        counts = a.counts;
      }

  module _ (c : Feature P.Settings) where
    judge_variants-Still :
        (vs : List LayoutVariantPair) (n : ℕ) (s t : State D lab)
        → Still s t
        → Still s (judge_variants D lab P cfg g c vs n t).1
    unfolding judge_variants judge_variant settle_variant
    judge_variants-Still [] n s t a = a
    judge_variants-Still (v ∷ vs) n s t a = judge_variants-Still vs _ s _ (
        Still-edit s _ _ (add_layout-KeepsHeaders D _)
          (record { marks = a.marks; heads = a.heads; keeps = a.keeps; counts = a.counts }))

    Touches-auto_layout :
        (t₀ : P.Time) (s : State D lab)
        → Touches D lab Pass.data_layout 0 s (auto_layout D lab P cfg g c t₀ s)
    unfolding auto_layout
    Touches-auto_layout t₀ s =
        let (ir, variants) = P.generate_variants g.symbols g.mapping c.settings s.ir in
        let (accepted, s') = judge_variants D lab P cfg g c variants 0 (record s { ir = ir }) in
        let still =
          judge_variants-Still variants 0 s (record s { ir = ir })
            (record { marks = refl; heads = λ q. refl; keeps = refl; counts = refl }) in
        Touches-report_pass D lab P Pass.data_layout (signed_of accepted) 0 _ t₀ s _ (
          Still-Prepared Pass.data_layout (signed_of accepted) s s' _ still (
            subst
              (λ m.
                Prepared D lab Pass.data_layout (signed_of accepted) 0 s'
                  (mark_pass_fired D lab Pass.data_layout m s'))
              (unsigned_of-signed_of accepted)
              (mark-Prepared D lab Pass.data_layout (signed_of accepted) 0 s' s' refl refl
                (omega arith))))

    Touches-forced_layout :
        (t₀ : P.Time) (s : State D lab)
        → Touches D lab Pass.data_layout 0 s (forced_layout D lab P cfg g c t₀ s)
    unfolding forced_layout
    Touches-forced_layout t₀ s =
        let (ir, n) = P.run_force_soa c.settings s.ir in
        Touches-report_pass D lab P Pass.data_layout n 0 _ t₀ s _ (
          edit-Prepared D lab Pass.data_layout n 0 _ s _ (add_layout-KeepsHeaders D _) (
            mark-Prepared D lab Pass.data_layout n 0 s (record s { ir = ir }) refl refl
              (omega arith)))

    Touches-layout_in :
        (m : FeatureMode) (t₀ : P.Time) (s : State D lab)
        → Touches D lab Pass.data_layout 0 s (layout_in D lab P cfg g c m t₀ s)
    unfolding layout_in
    Touches-layout_in FeatureMode.auto t₀ s = Touches-auto_layout t₀ s
    Touches-layout_in FeatureMode.force t₀ s = Touches-forced_layout t₀ s
    Touches-layout_in FeatureMode.off t₀ s =
        Touches-report_pass D lab P Pass.data_layout (pos 0) 0 _ t₀ s s
          (idle-Prepared D lab Pass.data_layout s)

    Touches-apply_data_layout :
        (s : State D lab) → Touches D lab Pass.data_layout 0 s (apply_data_layout D lab P cfg g c s)
    unfolding apply_data_layout
    Touches-apply_data_layout s =
        let (t₀, w) = P.now s.world in
        let h = Touches-layout_in c.mode t₀ (record s { world = w }) in
        record {
          marks = h.marks;
          heads = h.heads;
          stamped = h.stamped;
          keeps = h.keeps;
          counts = h.counts;
        }

  pub Touches-run_data_layout :
      (s : State D lab)
      → Touches D lab Pass.data_layout
          (weight_of (λ m. 0) cfg.data_layout_cfg)
          s
          (run_data_layout D lab P cfg g s)
  unfolding run_data_layout
  Touches-run_data_layout s =
      Touches-gated D lab P Pass.data_layout _ _ cfg.data_layout_cfg _ (λ m. 0) s
        (λ c. Touches-apply_data_layout c s)
