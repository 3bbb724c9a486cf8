-- ===== src/Adaptive/Counter.antt =====
-- `active_jit` against the pipelines whose JIT pointer is live.
use topo_llvm.Prelude.{
  ℕ, ◌+◌, ◌<◌, ◌≡◌, ◌≢◌, refl, inl, inr, Bool-cases, true, Option, some, List, [], ◌∷◌, arith, same,
  Bytes,
}
use topo_llvm.Prelude.Doubles.{Doubles}
use topo_llvm.Adaptive.{
  u32, Phase, warmup, monitoring, specializing, verifying, active, Entry, Costs, Shared, Global,
}
use topo_llvm.Adaptive.Force.{
  in_flight, find_pipeline, may_specialize, is_active, commit, finish_first, force_finish,
}
use topo_llvm.Adaptive.Monitor.{
  start_job, install, deoptimize, step_warmup, step_monitoring, step_specializing, judge,
  step_verifying, step_active, step_phase, step_all, wake_up,
}

-- 1 for a pipeline that calls JIT code.
abbrev pub live : Phase → ℕ
live warmup = 0
live monitoring = 0
live specializing = 0
live verifying = 1
live active = 1

abbrev pub total_live : List Entry → ℕ
total_live [] = 0
total_live (e ∷ es) = live e.phase + total_live es

module _ (d : Doubles) where
  -- The counter and the phases agree after a step of one pipeline, given `k` live ones elsewhere.
  abbrev Counts : ℕ → Entry × Shared d → Type 0
  Counts k (e, s) = s.active_jit ≡ u32 (k + live e.phase)

  step_phase-Counts :
      (p : Phase) (costs : Costs) (poll : ℕ → Option ℕ) (e : Entry) (s : Shared d) (k : ℕ)
      → e.phase ≡ p
      → Counts k (e, s)
      → Counts k (step_phase d p costs poll e s)
  unfolding step_phase step_warmup step_monitoring step_specializing step_verifying step_active
      judge install deoptimize start_job
  step_phase-Counts warmup costs poll e s k h c = ground arith
  step_phase-Counts monitoring costs poll e s k h c = ground arith
  step_phase-Counts specializing costs poll e s k h c = ground arith
  step_phase-Counts verifying costs poll e s k h c = ground arith
  step_phase-Counts active costs poll e s k h c = ground arith

  step_all-Counts :
      (costs : Costs) (poll : ℕ → Option ℕ) (es : List Entry) (s : Shared d) (k : ℕ)
      → s.active_jit ≡ u32 (k + total_live es)
      → let (es', s') = step_all d costs poll es s in s'.active_jit ≡ u32 (k + total_live es')
  unfolding step_all
  step_all-Counts costs poll [] s k c = c
  step_all-Counts costs poll (e ∷ es) s k c =
      let step = step_phase-Counts e.phase costs poll e s (k + total_live es) refl (omega arith) in
      let r = step_phase d e.phase costs poll e s in
      omega (arith, step_all-Counts costs poll es r.1 (k + live (r.0).phase) (omega (arith, step)))

  -- `active_jit` is the number of pipelines in a phase that calls JIT code, modulo 2 ^ 32.
  pub record CountsLive (g : Global d) : Type 0 where
    pub exact : g.shared.active_jit ≡ u32 (total_live g.pipelines)

  -- A wake-up of the monitor keeps the counter exact, whatever the costs and the finished jobs.
  pub wake_up-CountsLive :
      (costs : Costs) (poll : ℕ → Option ℕ) (g : Global d)
      → CountsLive g
      → CountsLive (wake_up d costs poll g)
  unfolding wake_up
  wake_up-CountsLive costs poll g c = elim (Bool-cases g.shutdown_flag) [
    | inl stop ↦ rw stop (record { exact = c.exact })
    | inr run ↦ rw run (record {
      exact =
          omega (arith, step_all-Counts costs poll g.pipelines g.shared 0 (omega (arith, c.exact)));
    })
  ]

  commit-Counts :
      (p : Phase) (e : Entry) (ptr : ℕ) (s : Shared d) (k : ℕ)
      → e.phase ≡ p
      → p ≢ verifying
      → Counts k (e, s)
      → Counts k (commit d e ptr s)
  unfolding commit is_active
  commit-Counts warmup e ptr s k h q c = ground arith
  commit-Counts monitoring e ptr s k h q c = ground arith
  commit-Counts specializing e ptr s k h q c = ground arith
  commit-Counts verifying e ptr s k h q c = absurd (q refl)
  commit-Counts active e ptr s k h q c = ground arith

  commit_verifying :
      (e : Entry) (ptr : ℕ) (s : Shared d) (k : ℕ)
      → e.phase ≡ verifying
      → ptr ≢ 0
      → Counts k (e, s)
      → (commit d e ptr s).1.active_jit ≡ u32 (k + live ((commit d e ptr s).0).phase + 1)
  unfolding commit is_active
  commit_verifying e ptr s k h q c = ground arith

  finish_first-Counts :
      (name : Bytes) (ptr : ℕ) (es : List Entry) (s : Shared d) (k : ℕ) (x : Entry)
      → find_pipeline name es ≡ some x
      → x.phase ≢ verifying
      → s.active_jit ≡ u32 (k + total_live es)
      → let (es', s') = finish_first d name ptr es s in s'.active_jit ≡ u32 (k + total_live es')
  unfolding finish_first find_pipeline
  finish_first-Counts name ptr [] s k x found quiet c = c
  finish_first-Counts name ptr (e ∷ es) s k x found quiet c =
      elim (Bool-cases (same e.pipeline_name name)) [
        | inr other ↦ rw other (
            let rest =
              finish_first-Counts name ptr es s (k + live e.phase) x (ground arith) quiet
                (omega arith) in
            omega (arith, rest))
        | inl here ↦ elim (Bool-cases (may_specialize d s e)) [
          | inr refused ↦ rw (here, refused) c
          | inl allowed ↦
              rw (here, allowed)
                (let same_entry : e ≡ x = ground arith in
                  let step =
                    commit-Counts e.phase e ptr s (k + total_live es) refl (rw same_entry quiet)
                      (omega arith) in
                  omega (arith, step))
        ]
      ]

  finish_first-over :
      (name : Bytes) (ptr : ℕ) (es : List Entry) (s : Shared d) (k : ℕ) (x : Entry)
      → find_pipeline name es ≡ some x
      → x.phase ≡ verifying
      → may_specialize d s x ≡ true
      → ptr ≢ 0
      → s.active_jit ≡ u32 (k + total_live es)
      → let (es', s') = finish_first d name ptr es s in s'.active_jit ≡ u32 (k + total_live es' + 1)
  unfolding finish_first find_pipeline
  finish_first-over name ptr [] s k x found p may q c = cc
  finish_first-over name ptr (e ∷ es) s k x found p may q c =
      elim (Bool-cases (same e.pipeline_name name)) [
        | inr other ↦ rw other (
            let rest =
              finish_first-over name ptr es s (k + live e.phase) x (ground arith) p may q
                (omega arith) in
            omega (arith, rest))
        | inl here ↦
            let same_entry : e ≡ x = ground arith in
            let allowed : may_specialize d s e ≡ true = rw same_entry may in
            rw (here, allowed)
              (let step =
                  commit_verifying e ptr s (k + total_live es) (rw same_entry p) q (omega arith) in
                omega (arith, step))
      ]

  -- A forced specialization keeps the counter exact where the pipeline that it finds after the
  -- compile is not under verification.
  pub force_finish-CountsLive :
      (name : Bytes) (ptr : ℕ) (g : Global d) (e : Entry)
      → find_pipeline name g.pipelines ≡ some e
      → e.phase ≢ verifying
      → CountsLive g
      → CountsLive (force_finish d name ptr g)
  unfolding force_finish
  force_finish-CountsLive name ptr g e found quiet c = record {
    exact = omega (
      arith,
      finish_first-Counts name ptr g.pipelines g.shared 0 e found quiet (omega (arith, c.exact)),
    );
  }

  -- The counting bug: where the monitor has made the pipeline's JIT pointer live and is still
  -- verifying it, a forced specialization that gets a pointer within the budget counts the
  -- pipeline once more, so `active_jit` is one too many.
  pub force_finish_overcounts :
      (name : Bytes) (ptr : ℕ) (g : Global d) (e : Entry)
      → find_pipeline name g.pipelines ≡ some e
      → e.phase ≡ verifying
      → e.jit_versions < g.shared.config.max_versions
      → ptr ≢ 0
      → CountsLive g
      → let g' = force_finish d name ptr g in
        g'.shared.active_jit ≡ u32 (total_live g'.pipelines + 1)
  unfolding force_finish may_specialize in_flight
  force_finish_overcounts name ptr g e found p budget q c = omega (
    arith,
    finish_first-over name ptr g.pipelines g.shared 0 e found p (ground arith) q
        (omega (arith, c.exact)),
  )
