-- ===== src/Adaptive/Force.antt =====
-- `force_specialize` and `force_specialize_bytes`. The lock is dropped while the JIT compiles, so
-- each is two operations, and other calls may run between them.
use topo_llvm.Prelude.{
  ℕ, ◌+◌, Bool, true, false, Option, none, some, List, [], ◌∷◌, leb, ◌==◌, if◌then◌else◌, length,
  Bytes, same,
}
use topo_llvm.Prelude.Doubles.{Doubles}
use topo_llvm.Adaptive.{
  u32, Phase, specializing, active, Entry, Costs, Job, embedded, from_bytes, Shared, Global,
  aot_to_jit, store,
}
use topo_llvm.Adaptive.Constraints.{build_constraints}

-- `findPipeline`: the first entry of that name.
unfoldable pub find_pipeline : Bytes → List Entry → Option Entry
find_pipeline name [] = none
find_pipeline name (e ∷ es) = if same e.pipeline_name name then some e else find_pipeline name es

unfoldable pub is_specializing : Phase → Bool
is_specializing specializing = true
is_specializing _ = false

unfoldable pub is_active : Phase → Bool
is_active active = true
is_active _ = false

unfoldable pub is_valid : Option ℕ → Bool
is_valid none = false
is_valid (some j) = true

-- `monitorSpecializationInFlight`.
unfoldable pub in_flight : Entry → Bool
unfolding is_specializing is_valid
in_flight e = if is_specializing e.phase then is_valid e.jit_future else false

module _ (d : Doubles) where
  -- The guards that stand before the compile and are made again after it.
  unfoldable pub may_specialize : Shared d → Entry → Bool
  may_specialize s e =
      if leb s.config.max_versions e.jit_versions
      then false
      else if in_flight e
      then false
      else true

  -- Up to the unlock: the number of the job to wait for, if one is started.
  unfoldable pub force_begin : (Entry → Job) → Bytes → Global d → Option ℕ × Global d
  force_begin job name g = elim (find_pipeline name g.pipelines) [
    | none ↦ (none, g)
    | some e ↦
        let s = g.shared in
        if may_specialize s e
        then (some (length s.jobs), record g { shared = record s { jobs = job e ∷ s.jobs } })
        else (none, g)
  ]

  unfoldable pub force_specialize : Bytes → Costs → Global d → Option ℕ × Global d
  unfolding force_begin
  force_specialize name costs =
      force_begin (λ e. embedded e.pipeline_name (build_constraints d e costs)) name

  unfoldable pub force_specialize_bytes :
      Bytes → List ℕ → Bytes → Costs → Global d → Option ℕ × Global d
  unfolding force_begin
  force_specialize_bytes name ir meta costs =
      force_begin (λ e. from_bytes e.pipeline_name ir meta (build_constraints d e costs)) name

  -- `commitSpecialization`.
  unfoldable pub commit : Entry → ℕ → Shared d → Entry × Shared d
  commit e ptr s = if ptr == 0 then (e, s) else (
    record e { phase = active; jit_versions = u32 (e.jit_versions + 1) },
    record s {
      slots = store s.slots e.jit_slot ptr;
      specializations = u32 (s.specializations + 1);
      active_jit = if is_active e.phase then s.active_jit else u32 (s.active_jit + 1);
      switches = aot_to_jit e.pipeline_name ∷ s.switches;
    },
  )

  -- After the lock is taken again, on the first entry of that name.
  unfoldable pub finish_first : Bytes → ℕ → List Entry → Shared d → List Entry × Shared d
  finish_first name ptr [] s = ([], s)
  finish_first name ptr (e ∷ es) s =
      let (es', s') = finish_first name ptr es s in
      let (e', s'') = commit e ptr s in
      if same e.pipeline_name name
      then (if may_specialize s e then (e' ∷ es, s'') else (e ∷ es, s))
      else (e ∷ es', s')

  unfoldable pub force_finish : Bytes → ℕ → Global d → Global d
  force_finish name ptr g =
      let (es, s) = finish_first name ptr g.pipelines g.shared in
      record g { pipelines = es; shared = s }
