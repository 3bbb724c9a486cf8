-- ===== src/PassPipeline/Each.antt =====
-- What each stage of the pipeline touches, and what it adds to the summary.
use topo_llvm.Prelude.{
  ◌≡◌, refl, ℕ, ◌+◌, Option, some, none, Bytes, codes, if◌then◌else◌, if_cases, arith,
}
use topo_llvm.Prelude.Doubles.{Doubles}
use topo_llvm.Prelude.Int.{ℤ, pos}
use topo_llvm.Sidecar.Reports.{PassReports}
use topo_llvm.Benchmark.Lab.{Lab}
use topo_llvm.PassPipeline.Names.{Pass, header_of}
use topo_llvm.PassPipeline.Config.{
  Passes, Feature, FeatureMode, Given, OptLevel, PassPipelineConfig,
}
use topo_llvm.PassPipeline.State.{State, Verdict, is_positive}
use topo_llvm.PassPipeline.Plain
use topo_llvm.PassPipeline.Judged
use topo_llvm.PassPipeline.Auto.{Trial, forced_outcome}
use topo_llvm.PassPipeline.Frame.{
  Touches, tally, idle-Prepared, edit-Prepared, Touches-report_pass, Touches-report_idle,
  Touches-unreported,
}
use topo_llvm.PassPipeline.Headers.{
  add_containment-KeepsHeaders, add_return_specialization-KeepsHeaders, add_inline-KeepsHeaders,
  add_prefetch-KeepsHeaders, add_loop_parallelize-KeepsHeaders, add_adaptive_dispatch-KeepsHeaders,
  add_flatten-KeepsHeaders, set_stats-KeepsHeaders, edit_parallel-KeepsHeaders,
  edit_lifetime-KeepsHeaders,
}
use topo_llvm.PassPipeline.Stages.{
  weight_of, counted-Prepared, Touches-timed, Touches-gated, Touches-if, IsPrepared,
  applied-IsPrepared, auto-IsPrepared,
}

abbrev pub in_auto : FeatureMode → ℕ
in_auto FeatureMode.auto = 1
in_auto _ = 0

module _ (D : Doubles) (lab : Lab D) (P : Passes D lab) (cfg : PassPipelineConfig P.Settings)
    (g : Given) (level : OptLevel) where
  pub Touches-run_containment :
      (s : State D lab)
      → Touches D lab Pass.containment_interception
          (weight_of (λ m. 0) cfg.containment_cfg)
          s
          (Plain.run_containment D lab P cfg g level s)
  unfolding Plain.run_containment
  Touches-run_containment s =
      Touches-gated D lab P Pass.containment_interception _ _ cfg.containment_cfg _ (λ m. 0) s
        (λ c.
          Touches-timed D lab P _ _ _ _ 0 s s (add_containment-KeepsHeaders D) refl refl
            (omega arith))

  pub Touches-run_return_specialization :
      (s : State D lab)
      → Touches D lab Pass.return_specialization 0 s
          (Plain.run_return_specialization D lab P cfg g level s)
  unfolding Plain.run_return_specialization
  Touches-run_return_specialization s =
      Touches-timed D lab P _ _ _ _ 0 s s (add_return_specialization-KeepsHeaders D) refl refl
        (omega arith)

  pub Touches-run_inline :
      (s : State D lab)
      → Touches D lab Pass.topo_inline 0 s (Plain.run_inline D lab P cfg g level s)
  unfolding Plain.run_inline
  Touches-run_inline s =
      Touches-timed D lab P _ _ _ _ 0 s s (add_inline-KeepsHeaders D) refl refl (omega arith)

  pub Touches-run_prefetch :
      (s : State D lab)
      → Touches D lab Pass.prefetch
          (weight_of (λ m. 0) cfg.prefetch_cfg)
          s
          (Plain.run_prefetch D lab P cfg g level s)
  unfolding Plain.run_prefetch
  Touches-run_prefetch s =
      Touches-gated D lab P Pass.prefetch _ _ cfg.prefetch_cfg _ (λ m. 0) s
        (λ c.
          Touches-timed D lab P _ _ _ _ 0 s s (add_prefetch-KeepsHeaders D) refl refl (omega arith))

  pub Touches-run_loop_parallelize :
      (s : State D lab)
      → Touches D lab Pass.loop_parallelize
          (weight_of (λ m. 0) cfg.loop_parallel_cfg)
          s
          (Plain.run_loop_parallelize D lab P cfg g level s)
  unfolding Plain.run_loop_parallelize
  Touches-run_loop_parallelize s =
      Touches-gated D lab P Pass.loop_parallelize _ _ cfg.loop_parallel_cfg _ (λ m. 0) s
        (λ c.
          Touches-timed D lab P _ _ _ _ 0 s s (add_loop_parallelize-KeepsHeaders D) refl refl
            (omega arith))

  pub Touches-run_flatten :
      (s : State D lab)
      → Touches D lab Pass.topo_flatten 0 s (Plain.run_flatten D lab P cfg g level s)
  unfolding Plain.run_flatten
  Touches-run_flatten s =
      Touches-timed D lab P _ _ _ _ 0 s s (add_flatten-KeepsHeaders D) refl refl (omega arith)

  Touches-nothing :
      (p : Pass) (s : State D lab)
      → ((r : PassReports D.Double) → header_of p r ≡ none)
      → Touches D lab p 0 s s
  Touches-nothing p s absent =
      Touches-unreported D lab p (pos 0) 0 s s absent (idle-Prepared D lab p s)

  pub Touches-counted :
      (p : Pass) (pass : lab.Ir → lab.Ir × ℤ) (s : State D lab)
      → ((r : PassReports D.Double) → header_of p r ≡ none)
      → Touches D lab p 0 s (Plain.counted D lab P p pass s)
  Touches-counted p pass s absent =
      Touches-unreported D lab p (pass s.ir).1 0 s _ absent (counted-Prepared D lab P p pass s)

  pub Touches-run_code_gen :
      (s : State D lab)
      → Touches D lab Pass.pipeline_code_gen 0 s (Plain.run_code_gen D lab P cfg g level s)
  unfolding Plain.run_code_gen header_of
  Touches-run_code_gen s =
      if_cases (Touches D lab Pass.pipeline_code_gen 0 s)
        (Plain.runs_code_gen D lab P cfg g level cfg.pipeline_cfg)
        (Plain.counted D lab P Pass.pipeline_code_gen (P.code_gen g.symbols g.mapping) s) s
        (λ _. Touches-counted Pass.pipeline_code_gen (P.code_gen g.symbols g.mapping) s (λ r. refl))
        (λ _. Touches-nothing Pass.pipeline_code_gen s (λ r. refl))

  pub Touches-run_observability_if :
      (o : Option (Feature P.Settings)) (s : State D lab)
      → Touches D lab Pass.observability 0 s (Plain.run_observability_if D lab P cfg g level o s)
  unfolding Plain.run_observability_if header_of
  Touches-run_observability_if none s = Touches-nothing Pass.observability s (λ r. refl)
  Touches-run_observability_if (some c) s =
      if_cases (Touches D lab Pass.observability 0 s) c.enabled
        (Plain.counted D lab P Pass.observability (P.observability g.symbols g.mapping c.settings)
          s)
        s
        (λ _.
          Touches-counted Pass.observability (P.observability g.symbols g.mapping c.settings) s
            (λ r. refl))
        (λ _. Touches-nothing Pass.observability s (λ r. refl))

  count_auto_lem :
      (m : FeatureMode) (s : State D lab)
      → let u = Plain.count_auto D lab P cfg g level m s in
        (u.markers ≡ s.markers)
        × (u.reports ≡ s.reports)
        × (tally D lab u ≡ tally D lab s + in_auto m)
  unfolding Plain.count_auto
  count_auto_lem FeatureMode.auto s = (refl, refl, omega arith)
  count_auto_lem FeatureMode.off s = (refl, refl, omega arith)
  count_auto_lem FeatureMode.force s = (refl, refl, omega arith)

  pub Touches-run_adaptive_dispatch :
      (s : State D lab)
      → Touches D lab Pass.adaptive_dispatch
          (weight_of in_auto cfg.adaptive_cfg)
          s
          (Plain.run_adaptive_dispatch D lab P cfg g level s)
  unfolding Plain.run_adaptive_dispatch
  Touches-run_adaptive_dispatch s =
      Touches-gated D lab P Pass.adaptive_dispatch _ _ cfg.adaptive_cfg _ in_auto s (λ c.
        let (m, r, t) = count_auto_lem c.mode s in
        Touches-timed D lab P _ _ _ _ (in_auto c.mode) s _ (add_adaptive_dispatch-KeepsHeaders D) m
          r t)

  forced-IsPrepared :
      {E : Type 0} (p : Pass) (pass : lab.Ir → lab.Ir × ℤ × E) (reason : Bytes) (s u : State D lab)
      → u.markers ≡ s.markers
      → u.reports ≡ s.reports
      → tally D lab u ≡ tally D lab s
      → IsPrepared D lab P p pass 0 s (forced_outcome D lab p pass reason u)
  unfolding forced_outcome
  forced-IsPrepared p pass reason s u m r c =
      applied-IsPrepared D lab P p pass
        (
          if is_positive (pass u.ir).1 then codes "forced_applied" else codes "forced_no_targets",
          reason,
        )
        0 s u m r (omega (arith, c))

  outcome_in-IsPrepared :
      {E : Type 0} (mode : FeatureMode) (p : Pass) (pass : lab.Ir → lab.Ir × ℤ × E) (won : Verdict)
      (no_gain forced : Bytes) (idle : E) (t : Trial D lab) (s u : State D lab)
      → u.markers ≡ s.markers
      → u.reports ≡ s.reports
      → tally D lab u ≡ tally D lab s
      → IsPrepared D lab P p pass
          (in_auto mode)
          s
          (Judged.outcome_in D lab P cfg g mode p pass won no_gain forced idle t u)
  unfolding Judged.outcome_in
  outcome_in-IsPrepared FeatureMode.auto p pass won no_gain forced idle t s u m r c =
      auto-IsPrepared D lab P p pass won no_gain idle t s _ m r c
  outcome_in-IsPrepared FeatureMode.off p pass won no_gain forced idle t s u m r c =
      forced-IsPrepared p pass forced s u m r c
  outcome_in-IsPrepared FeatureMode.force p pass won no_gain forced idle t s u m r c =
      forced-IsPrepared p pass forced s u m r c

  Touches-run_indirection_on :
      (c : Feature P.Settings) (s : State D lab)
      → Touches D lab Pass.indirection
          (in_auto c.mode)
          s
          (Judged.apply_indirection D lab P cfg g c s)
  unfolding Judged.apply_indirection Judged.indirection_outcome
  Touches-run_indirection_on c s =
      Touches-report_pass D lab P Pass.indirection _ (in_auto c.mode) _ _ s _ (
        edit-Prepared D lab Pass.indirection _ (in_auto c.mode) _ s _ (set_stats-KeepsHeaders D _)
          (outcome_in-IsPrepared c.mode Pass.indirection _ _ _ _ _ _ s _ refl refl refl))

  pub Touches-run_indirection_if :
      (o : Option (Feature P.Settings)) (s : State D lab)
      → Touches D lab Pass.indirection
          (weight_of in_auto o)
          s
          (Judged.run_indirection_if D lab P cfg g o s)
  unfolding Judged.run_indirection_if Judged.idle_indirection
  Touches-run_indirection_if none s = Touches-report_idle D lab P Pass.indirection _ s
  Touches-run_indirection_if (some c) s =
      Touches-if D lab P Pass.indirection c.enabled (in_auto c.mode) s _ _
        (Touches-run_indirection_on c s) (Touches-report_idle D lab P Pass.indirection _ s)

  pub Touches-run_topo_parallel :
      (s : State D lab)
      → Touches D lab Pass.topo_parallel
          (weight_of in_auto cfg.parallel_cfg)
          s
          (Judged.run_topo_parallel D lab P cfg g s)
  unfolding Judged.run_topo_parallel Judged.apply_topo_parallel Judged.parallel_outcome
  Touches-run_topo_parallel s =
      Touches-gated D lab P Pass.topo_parallel _ _ cfg.parallel_cfg _ in_auto s (λ c.
        Touches-report_pass D lab P Pass.topo_parallel _ (in_auto c.mode) _ _ s _ (
          edit-Prepared D lab Pass.topo_parallel _ (in_auto c.mode) _ s _
            (edit_parallel-KeepsHeaders D _)
            (outcome_in-IsPrepared c.mode Pass.topo_parallel _ _ _ _ _ _ s _ refl refl refl)))

  pub Touches-run_lifetime_arena :
      (s : State D lab)
      → Touches D lab Pass.lifetime_arena
          (weight_of in_auto cfg.lifetime_cfg)
          s
          (Judged.run_lifetime_arena D lab P cfg g s)
  unfolding Judged.run_lifetime_arena Judged.apply_lifetime_arena Judged.lifetime_outcome
  Touches-run_lifetime_arena s =
      Touches-gated D lab P Pass.lifetime_arena _ _ cfg.lifetime_cfg _ in_auto s (λ c.
        Touches-report_pass D lab P Pass.lifetime_arena _ (in_auto c.mode) _ _ s _ (
          edit-Prepared D lab Pass.lifetime_arena _ (in_auto c.mode) _ s _
            (edit_lifetime-KeepsHeaders D _)
            (outcome_in-IsPrepared c.mode Pass.lifetime_arena _ _ _ _ _ _ s _ refl refl refl)))
