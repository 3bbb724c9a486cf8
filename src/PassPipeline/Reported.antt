-- ===== src/PassPipeline/Reported.antt =====
-- What the whole run leaves in the markers, the reports and the summary.
use topo_llvm.Prelude.{
  ◌≡◌, refl, sym, ◌∙◌, subst, ℕ, ◌+◌, Bool, true, false, ◌||◌, ◌⊎◌, inl, inr, Option, some, none,
  List, [], ◌∷◌, is_some, arith,
}
use topo_llvm.Prelude.Doubles.{Doubles}
use topo_llvm.Sidecar.Reports.{PassReportHeader}
use topo_llvm.Benchmark.Lab.{Lab}
use topo_llvm.PassPipeline.Names.{Pass, same_pass, same_pass→eq}
use topo_llvm.PassPipeline.Config.{Passes, Feature, Given, OptLevel, PassPipelineConfig}
use topo_llvm.PassPipeline.State.{State}
use topo_llvm.PassPipeline.Run.{run_given}
use topo_llvm.PassPipeline.Frame.{header_at, Touches, tally, IsReported}
use topo_llvm.PassPipeline.Stages.{weight_of}
use topo_llvm.PassPipeline.Each
use topo_llvm.PassPipeline.Layouts.{Touches-run_data_layout}

abbrev pub among : Pass → List Pass → Bool
among p [] = false
among p (q ∷ qs) = same_pass p q || among p qs

either : (a b : Bool) → (a || b) ≡ true → (a ≡ true) ⊎ ((a ≡ false) × (b ≡ true))
either true b h = inl refl
either false b h = inr (refl, h)

neither : (a b : Bool) → (a || b) ≡ false → (a ≡ false) × (b ≡ false)
neither true b h = absurd cc
neither false b h = (refl, h)

module _ (D : Doubles) (lab : Lab D) where
  -- These passes ran, each once, and the summary counted `n` of them.
  pub record Done (ps : List Pass) (n : ℕ) (s t : State D lab) : Type 0 where
    pub marks : (q : Pass) → among q ps ≡ false → t.markers q ≡ s.markers q
    pub reported :
        (q : Pass) (h : PassReportHeader)
        → among q ps ≡ true
        → s.markers q ≡ 0
        → header_at D lab q t ≡ some h
        → IsReported D lab q (t.markers q) h
    pub keeps : is_some t.reports ≡ is_some s.reports
    pub counts : tally D lab t ≡ tally D lab s + n

  Done-start : (s : State D lab) → Done [] 0 s s
  Done-start s = record {
    marks = λ q e. refl;
    reported = λ q h e. absurd cc;
    keeps = refl;
    counts = omega arith;
  }

  pub Done-ir :
      (ps : List Pass) (n : ℕ) (s t : State D lab) (f : lab.Ir → lab.Ir)
      → Done ps n s t
      → Done ps n s (record t { ir = f t.ir })
  Done-ir ps n s t f d = record {
    marks = d.marks;
    reported = d.reported;
    keeps = d.keeps;
    counts = d.counts;
  }

  pub Done-next :
      (ps : List Pass) (n : ℕ) (p : Pass) (k : ℕ) (s t u : State D lab)
      → Done ps n s t
      → among p ps ≡ false
      → Touches D lab p k t u
      → Done (p ∷ ps) (n + k) s u
  Done-next ps n p k s t u d fresh h = record {
    marks = λ q e.
        let (other, before) = neither (same_pass q p) (among q ps) e in
        h.marks q other ∙ d.marks q before;
    reported = λ q g e z a. elim (either (same_pass q p) (among q ps) e) [
      | inl this ↦
          let stamped : IsReported D lab p (u.markers p) g =
            h.stamped g (d.marks p fresh ∙ subst (λ x. s.markers x ≡ 0) (same_pass→eq q p this) z)
              (subst (λ x. header_at D lab x u ≡ some g) (same_pass→eq q p this) a) in
          subst (λ x. IsReported D lab x (u.markers x) g) (sym (same_pass→eq q p this)) stamped
      | inr (other, before) ↦
          subst (λ m. IsReported D lab q m g) (sym (h.marks q other))
            (d.reported q g before z (sym (h.heads q other) ∙ a))
    ];
    keeps = h.keeps ∙ d.keeps;
    counts = omega (arith, h.counts, d.counts);
  }

-- How many of the four passes that the summary speaks of are enabled in auto mode.
abbrev pub auto_passes : {Settings : Type 0} → PassPipelineConfig Settings → ℕ
auto_passes cfg =
    weight_of Each.in_auto cfg.indirection_cfg
    + weight_of Each.in_auto cfg.parallel_cfg
    + weight_of Each.in_auto cfg.adaptive_cfg
    + weight_of Each.in_auto cfg.lifetime_cfg

weight_of-zero : {S : Type 0} (o : Option (Feature S)) → weight_of (λ m. 0) o ≡ 0
weight_of-zero none = refl
weight_of-zero (some c) = ground arith

abbrev pub reported_passes : List Pass
reported_passes =
    Pass.topo_flatten ∷ Pass.lifetime_arena ∷ Pass.observability ∷ Pass.adaptive_dispatch
    ∷ Pass.loop_parallelize ∷ Pass.topo_parallel ∷ Pass.indirection ∷ Pass.data_layout
    ∷ Pass.prefetch ∷ Pass.topo_inline ∷ Pass.return_specialization ∷ Pass.pipeline_code_gen
    ∷ Pass.containment_interception ∷ []

module _ (D : Doubles) (lab : Lab D) (P : Passes D lab) (level : OptLevel)
    (cfg : PassPipelineConfig P.Settings) where
  pub run_given-Done :
      (g : Given) (s : State D lab)
      → (n : ℕ) × (n ≡ auto_passes cfg)
        × Done D lab reported_passes n s (run_given D lab P level cfg g s)
  unfolding run_given
  run_given-Done g s =
      let d₁ =
        Done-next D lab [] 0 Pass.containment_interception _ s s _ (Done-start D lab s) refl
          (Each.Touches-run_containment D lab P cfg g level s) in
      let d₂ =
        Done-next D lab _ _ Pass.pipeline_code_gen 0 s _ _ d₁ refl
          (Each.Touches-run_code_gen D lab P cfg g level _) in
      let d₃ =
        Done-next D lab _ _ Pass.return_specialization 0 s _ _ d₂ refl
          (Each.Touches-run_return_specialization D lab P cfg g level _) in
      let d₄ =
        Done-next D lab _ _ Pass.topo_inline 0 s _ _ d₃ refl
          (Each.Touches-run_inline D lab P cfg g level _) in
      let d₅ =
        Done-next D lab _ _ Pass.prefetch _ s _ _ d₄ refl
          (Each.Touches-run_prefetch D lab P cfg g level _) in
      let d₆ = Done-ir D lab _ _ s _ (λ ir. P.always_inline (P.create_target_machine ir) ir) d₅ in
      let d₇ =
        Done-next D lab _ _ Pass.data_layout _ s _ _ d₆ refl
          (Touches-run_data_layout D lab P cfg g _) in
      let d₈ =
        Done-next D lab _ _ Pass.indirection _ s _ _ d₇ refl
          (Each.Touches-run_indirection_if D lab P cfg g level cfg.indirection_cfg _) in
      let d₉ =
        Done-next D lab _ _ Pass.topo_parallel _ s _ _ d₈ refl
          (Each.Touches-run_topo_parallel D lab P cfg g level _) in
      let d₁₀ =
        Done-next D lab _ _ Pass.loop_parallelize _ s _ _ d₉ refl
          (Each.Touches-run_loop_parallelize D lab P cfg g level _) in
      let d₁₁ =
        Done-next D lab _ _ Pass.adaptive_dispatch _ s _ _ d₁₀ refl
          (Each.Touches-run_adaptive_dispatch D lab P cfg g level _) in
      let d₁₂ =
        Done-next D lab _ _ Pass.observability 0 s _ _ d₁₁ refl
          (Each.Touches-run_observability_if D lab P cfg g level cfg.observability_cfg _) in
      let d₁₃ =
        Done-next D lab _ _ Pass.lifetime_arena _ s _ _ d₁₂ refl
          (Each.Touches-run_lifetime_arena D lab P cfg g level _) in
      let d₁₄ =
        Done-next D lab _ _ Pass.topo_flatten 0 s _ _ d₁₃ refl
          (Each.Touches-run_flatten D lab P cfg g level _) in
      (
        _,
        omega (
          arith,
          weight_of-zero cfg.containment_cfg,
          weight_of-zero cfg.prefetch_cfg,
          weight_of-zero cfg.data_layout_cfg,
          weight_of-zero cfg.loop_parallel_cfg,
        ),
        d₁₄,
      )
