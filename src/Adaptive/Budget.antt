-- ===== src/Adaptive/Budget.antt =====
-- The re-specialization budget and the ownership of futures, for every pipeline.
use topo_llvm.Prelude.{
  ℕ, ◌≤◌, ◌<◌, ◌≡◌, refl, inl, inr, Bool-cases, Option-cases, true, Option, none, some, List, [],
  ◌∷◌, arith, same, Bytes, All, All-append,
}
use topo_llvm.Prelude.Doubles.{Doubles}
use topo_llvm.Adaptive.{
  Phase, warmup, monitoring, specializing, verifying, active, Entry, Costs, Job, Shared, Global,
}
use topo_llvm.Adaptive.Monitor.{
  start_job, install, deoptimize, step_warmup, step_monitoring, step_specializing, judge,
  step_verifying, step_active, step_phase, step_all, wake_up,
}
use topo_llvm.Adaptive.Force.{
  find_pipeline, in_flight, may_specialize, commit, finish_first, force_finish, force_begin,
}
use topo_llvm.Adaptive.Lifecycle.{new_entry, register}

-- A future is held exactly while specializing, and then there is budget left for its result.
abbrev pub PhaseOk : ℕ → Phase → ℕ → Option ℕ → Type 0
PhaseOk limit warmup versions future = (versions ≤ limit) × (future ≡ none)
PhaseOk limit monitoring versions future = (versions ≤ limit) × (future ≡ none)
PhaseOk limit specializing versions future = (versions < limit) × ((j : ℕ) × (future ≡ some j))
PhaseOk limit verifying versions future = (versions ≤ limit) × (future ≡ none)
PhaseOk limit active versions future = (versions ≤ limit) × (future ≡ none)

abbrev pub EntryOk : ℕ → Entry → Type 0
EntryOk limit e = PhaseOk limit e.phase e.jit_versions e.jit_future

module _ (d : Doubles) where
  -- The limit is that of the configuration in force.
  pub record InBudget (g : Global d) : Type 0 where
    pub entries : All (EntryOk g.shared.config.max_versions) g.pipelines

  step_phase-EntryOk :
      (p : Phase) (costs : Costs) (poll : ℕ → Option ℕ) (e : Entry) (s : Shared d) (limit : ℕ)
      → e.phase ≡ p
      → s.config.max_versions ≡ limit
      → PhaseOk limit p e.jit_versions e.jit_future
      → EntryOk limit (step_phase d p costs poll e s).0
  unfolding step_phase step_warmup step_monitoring step_specializing step_verifying step_active
      judge install deoptimize start_job
  step_phase-EntryOk warmup costs poll e s limit h m ok = rw h (ground arith)
  step_phase-EntryOk monitoring costs poll e s limit h m ok = rw h (ground arith)
  step_phase-EntryOk specializing costs poll e s limit h m ok = rw h (ground arith)
  step_phase-EntryOk verifying costs poll e s limit h m ok = rw h (ground arith)
  step_phase-EntryOk active costs poll e s limit h m ok = rw h (ground arith)

  step_phase-config :
      (p : Phase) (costs : Costs) (poll : ℕ → Option ℕ) (e : Entry) (s : Shared d)
      → (step_phase d p costs poll e s).1.config ≡ s.config
  unfolding step_phase step_warmup step_monitoring step_specializing step_verifying step_active
      judge install deoptimize start_job
  step_phase-config warmup costs poll e s = ground arith
  step_phase-config monitoring costs poll e s = ground arith
  step_phase-config specializing costs poll e s = ground arith
  step_phase-config verifying costs poll e s = ground arith
  step_phase-config active costs poll e s = ground arith

  step_all-EntryOk :
      (costs : Costs) (poll : ℕ → Option ℕ) (es : List Entry) (s : Shared d) (limit : ℕ)
      → s.config.max_versions ≡ limit
      → All (EntryOk limit) es
      → All (EntryOk limit) (step_all d costs poll es s).0
        × ((step_all d costs poll es s).1.config.max_versions ≡ limit)
  unfolding step_all
  step_all-EntryOk costs poll [] s limit h ok = (tt, h)
  step_all-EntryOk costs poll (e ∷ es) s limit h ok =
      let r = step_phase d e.phase costs poll e s in
      let kept : r.1.config.max_versions ≡ limit =
        rw (step_phase-config e.phase costs poll e s) h in
      let rest = step_all-EntryOk costs poll es r.1 limit kept ok.1 in
      let step = step_phase-EntryOk e.phase costs poll e s limit refl h ok.0 in
      ((step, rest.0), rest.1)

  -- A wake-up of the monitor.
  pub wake_up-InBudget :
      (costs : Costs) (poll : ℕ → Option ℕ) (g : Global d)
      → InBudget g
      → InBudget (wake_up d costs poll g)
        × ((wake_up d costs poll g).shared.config.max_versions ≡ g.shared.config.max_versions)
  unfolding wake_up
  wake_up-InBudget costs poll g v =
      let all =
        step_all-EntryOk costs poll g.pipelines g.shared g.shared.config.max_versions refl
          v.entries in
      elim (Bool-cases g.shutdown_flag) [
        | inl stop ↦ rw stop (record { entries = v.entries }, refl)
        | inr run ↦ rw run (record { entries = rw all.1 all.0 }, all.1)
      ]

  commit-EntryOk :
      (p : Phase) (e : Entry) (ptr : ℕ) (s : Shared d)
      → e.phase ≡ p
      → may_specialize d s e ≡ true
      → PhaseOk s.config.max_versions p e.jit_versions e.jit_future
      → EntryOk s.config.max_versions (commit d e ptr s).0
        × ((commit d e ptr s).1.config ≡ s.config)
  unfolding commit may_specialize in_flight
  commit-EntryOk warmup e ptr s h may ok = rw h (ground arith)
  commit-EntryOk monitoring e ptr s h may ok = rw h (ground arith)
  commit-EntryOk specializing e ptr s h may ok = absurd (ground arith)
  commit-EntryOk verifying e ptr s h may ok = rw h (ground arith)
  commit-EntryOk active e ptr s h may ok = rw h (ground arith)

  finish_first-EntryOk :
      (name : Bytes) (ptr : ℕ) (es : List Entry) (s : Shared d)
      → All (EntryOk s.config.max_versions) es
      → All (EntryOk s.config.max_versions) (finish_first d name ptr es s).0
        × ((finish_first d name ptr es s).1.config ≡ s.config)
  unfolding finish_first
  finish_first-EntryOk name ptr [] s ok = (tt, refl)
  finish_first-EntryOk name ptr (e ∷ es) s ok =
      let rest = finish_first-EntryOk name ptr es s ok.1 in
      elim (Bool-cases (same e.pipeline_name name)) [
        | inr other ↦ rw other ((ok.0, rest.0), rest.1)
        | inl here ↦ elim (Bool-cases (may_specialize d s e)) [
          | inr refused ↦ rw (here, refused) (ok, refl)
          | inl allowed ↦
              let done = commit-EntryOk e.phase e ptr s refl allowed ok.0 in
              rw (here, allowed) ((done.0, ok.1), done.1)
        ]
      ]

  pub force_finish-InBudget :
      (name : Bytes) (ptr : ℕ) (g : Global d)
      → InBudget g
      → InBudget (force_finish d name ptr g)
        × ((force_finish d name ptr g).shared.config.max_versions ≡ g.shared.config.max_versions)
  unfolding force_finish
  force_finish-InBudget name ptr g v =
      let all = finish_first-EntryOk name ptr g.pipelines g.shared v.entries in
      let same_limit : (finish_first d name ptr g.pipelines g.shared).1.config.max_versions
          ≡ g.shared.config.max_versions =
        rw all.1 refl in
      (record { entries = rw same_limit all.0 }, same_limit)

  pub force_begin-InBudget :
      (job : Entry → Job) (name : Bytes) (g : Global d)
      → InBudget g
      → InBudget (force_begin d job name g).1
        × ((force_begin d job name g).1.shared.config.max_versions ≡ g.shared.config.max_versions)
  unfolding force_begin
  force_begin-InBudget job name g v = elim (Option-cases (find_pipeline name g.pipelines)) [
    | inl missing ↦ rw (missing, force_begin) (v, refl)
    | inr (e, found) ↦ elim (Bool-cases (may_specialize d g.shared e)) [
      | inl allowed ↦ rw (found, force_begin) (rw allowed (record { entries = v.entries }, refl))
      | inr refused ↦ rw (found, force_begin) (rw refused (v, refl))
    ]
  ]

  pub register-InBudget :
      (mangled name : Bytes) (slot cost : ℕ) (g : Global d)
      → InBudget g
      → InBudget (register d mangled name slot cost g)
  unfolding register new_entry
  register-InBudget mangled name slot cost g v = record {
    entries =
        All-append (EntryOk g.shared.config.max_versions) g.pipelines
          (new_entry mangled name slot cost ∷ []) v.entries ((omega arith, refl), tt);
  }
