-- ===== src/Adaptive/Monitor.antt =====
-- The body of `monitorLoop` for one wake-up: each pipeline takes one step of its state machine.
use topo_llvm.Prelude.{
  ℕ, ◌+◌, ◌-◌, ◌/◌, ◌^◌, max, Bool, false, Option, none, some, List, [], ◌∷◌, ◌&&◌, ◌||◌, ltb, leb,
  ◌==◌, if◌then◌else◌, length,
}
use topo_llvm.Prelude.Doubles.{Doubles}
use topo_llvm.Adaptive.{
  u32, Phase, warmup, monitoring, specializing, verifying, active, Entry, Costs, find_cost, Config,
  embedded, Shared, Global, aot_to_jit, jit_to_aot, store,
}
use topo_llvm.Adaptive.Constraints.{build_constraints}

module _ (d : Doubles) where
  -- `shouldRespecialize`.
  unfoldable pub should_respecialize : Config d → Entry → Costs → Bool
  should_respecialize c e costs = elim (find_cost e.pipeline_name costs) [
    | none ↦ false
    | some ns ↦
        if e.jit_versions == 0
        then ltb c.min_trigger_ns ns
        else if ltb 0 e.aot_baseline_ns
        then (let ratio = d.divide (d.of_unsigned ns) (d.of_unsigned e.aot_baseline_ns) in
            d.less c.deviation_ratio ratio || d.less ratio (d.divide d.one c.deviation_ratio))
        else false
  ]

  -- A JIT job is started, and the entry holds its future.
  unfoldable pub start_job : Entry → Costs → Shared d → Entry × Shared d
  start_job e costs s = (
    record e { phase = specializing; jit_future = some (length s.jobs) },
    record s { jobs = embedded e.pipeline_name (build_constraints d e costs) ∷ s.jobs },
  )

  -- The pointer of a finished job goes live.
  unfoldable pub install : Entry → ℕ → Shared d → Entry × Shared d
  install e ptr s = (
    record e {
      phase = verifying;
      jit_versions = u32 (e.jit_versions + 1);
      verify_count = 0;
      jit_future = none;
    },
    record s {
      slots = store s.slots e.jit_slot ptr;
      specializations = u32 (s.specializations + 1);
      active_jit = u32 (s.active_jit + 1);
      switches = aot_to_jit e.pipeline_name ∷ s.switches;
      resets = e.pipeline_name ∷ s.resets;
    },
  )

  -- Back to the ahead-of-time code.
  unfoldable pub deoptimize : Entry → Shared d → Entry × Shared d
  deoptimize e s = (
    record e { phase = monitoring },
    record s {
      slots = store s.slots e.jit_slot 0;
      deoptimizations = u32 (s.deoptimizations + 1);
      active_jit = u32 (s.active_jit + 2 ^ 32 - 1);
      switches = jit_to_aot e.pipeline_name ∷ s.switches;
    },
  )

  unfoldable pub step_warmup : Costs → Entry → Shared d → Entry × Shared d
  step_warmup costs e s = elim (find_cost e.pipeline_name costs) [
    | none ↦ (e, s)
    | some ns ↦
        if ltb 0 ns then (record e { aot_baseline_ns = ns; phase = monitoring }, s) else (e, s)
  ]

  unfoldable pub step_monitoring : Costs → Entry → Shared d → Entry × Shared d
  step_monitoring costs e s =
      if leb s.config.max_versions e.jit_versions
      then (e, s)
      else if should_respecialize s.config e costs
      then start_job e costs s
      else (e, s)

  -- `poll j` is `none` while job `j` runs, and then its result, 0 for null.
  unfoldable pub step_specializing : (ℕ → Option ℕ) → Entry → Shared d → Entry × Shared d
  step_specializing poll e s = elim e.jit_future [
    | none ↦ (e, s)
    | some j ↦ elim (poll j) [
      | none ↦ (e, s)
      | some ptr ↦
          if ptr == 0
          then (record e { phase = monitoring; jit_future = none }, s)
          else install e ptr s
    ]
  ]

  -- `max(1, (verify_calls + 9) / 10)`, in `unsigned`.
  unfoldable pub required_cycles : Config d → ℕ
  required_cycles c = max 1 (u32 (c.verify_calls + 9) / 10)

  unfoldable pub judge : Entry → Shared d → Entry × Shared d
  judge e s =
      if ltb 0 e.aot_baseline_ns && ltb 0 e.jit_baseline_ns
      then (if d.less_equal s.config.deopt_ratio
            (d.divide (d.of_unsigned e.jit_baseline_ns) (d.of_unsigned e.aot_baseline_ns))
          then deoptimize e s
          else (record e { phase = active }, s))
      else (record e { phase = active }, s)

  unfoldable pub step_verifying : Costs → Entry → Shared d → Entry × Shared d
  step_verifying costs e s = elim (find_cost e.pipeline_name costs) [
    | none ↦ (e, s)
    | some ns ↦
        let e' : Entry = record e {
          jit_baseline_ns = ns;
          verify_count = u32 (e.verify_count + 1);
        } in
        if ltb e'.verify_count (required_cycles s.config) then (e', s) else judge e' s
  ]

  unfoldable pub step_active : Costs → Entry → Shared d → Entry × Shared d
  step_active costs e s = elim (find_cost e.pipeline_name costs) [
    | none ↦ (e, s)
    | some ns ↦
        if ltb 0 e.jit_baseline_ns
          && d.less s.config.deviation_ratio
              (d.divide (d.of_unsigned ns) (d.of_unsigned e.jit_baseline_ns))
        then deoptimize e s
        else (e, s)
  ]

  -- The `switch`.
  unfoldable pub step_phase : Phase → Costs → (ℕ → Option ℕ) → Entry → Shared d → Entry × Shared d
  step_phase warmup costs poll e s = step_warmup costs e s
  step_phase monitoring costs poll e s = step_monitoring costs e s
  step_phase specializing costs poll e s = step_specializing poll e s
  step_phase verifying costs poll e s = step_verifying costs e s
  step_phase active costs poll e s = step_active costs e s

  -- The loop over the pipelines.
  unfoldable pub step_all : Costs → (ℕ → Option ℕ) → List Entry → Shared d → List Entry × Shared d
  step_all costs poll [] s = ([], s)
  step_all costs poll (e ∷ es) s =
      let (e', s') = step_phase e.phase costs poll e s in
      let (es', s'') = step_all costs poll es s' in (e' ∷ es', s'')

  -- One wake-up; a shutdown that was asked for ends the loop instead. The flag is read first, so a
  -- shutdown that comes after that is seen at the next wake-up.
  unfoldable pub wake_up : Costs → (ℕ → Option ℕ) → Global d → Global d
  wake_up costs poll g =
      let (es, s) = step_all costs poll g.pipelines g.shared in
      if g.shutdown_flag
      then record g { monitor_running = false }
      else record g { pipelines = es; shared = s }
