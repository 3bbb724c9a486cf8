-- ===== src/Adaptive/Slots.antt =====
-- The JIT pointers against the phases: a pipeline's slot is set exactly while its phase says so.
use topo_llvm.Prelude.{
  ℕ, ◌≡◌, ◌≢◌, refl, inl, inr, Bool-cases, Option, List, [], ◌∷◌, map, ap, ap₂, sym, ◌∙◌, subst,
  arith, same, Bytes, All, ◌==◌,
}
use topo_llvm.Prelude.Doubles.{Doubles}
use topo_llvm.Adaptive.{
  Phase, warmup, monitoring, specializing, verifying, active, Entry, Costs, Shared, Global, store,
}
use topo_llvm.Adaptive.Monitor.{
  start_job, install, deoptimize, step_warmup, step_monitoring, step_specializing, judge,
  step_verifying, step_active, step_phase, step_all, wake_up,
}
use topo_llvm.Adaptive.Force.{may_specialize, commit, finish_first, force_finish}

-- What the slot of a pipeline in this phase holds: a JIT function, or null.
abbrev pub SlotOk : Phase → ℕ → Type 0
SlotOk warmup a = a ≡ 0
SlotOk monitoring a = a ≡ 0
SlotOk specializing a = a ≡ 0
SlotOk verifying a = a ≢ 0
SlotOk active a = a ≢ 0

abbrev pub addresses : List Entry → List ℕ
addresses = map (λ e. e.jit_slot)

abbrev pub Distinct : List ℕ → Type 0
Distinct [] = Unit
Distinct (a ∷ as') = All (λ b. a ≢ b) as' × Distinct as'

abbrev pub SlotsOk : (ℕ → ℕ) → List Entry → Type 0
SlotsOk slots = All (λ e. SlotOk e.phase (slots e.jit_slot))

module _ (d : Doubles) where
  step_phase-own :
      (p : Phase) (costs : Costs) (poll : ℕ → Option ℕ) (e : Entry) (s : Shared d)
      → e.phase ≡ p
      → SlotOk p (s.slots e.jit_slot)
      → let r = step_phase d p costs poll e s in
        SlotOk (r.0).phase (r.1.slots e.jit_slot) × ((r.0).jit_slot ≡ e.jit_slot)
  unfolding step_phase step_warmup step_monitoring step_specializing step_verifying step_active
      judge install deoptimize start_job store
  step_phase-own warmup costs poll e s h ok = rw h (ground arith)
  step_phase-own monitoring costs poll e s h ok = rw h (ground arith)
  step_phase-own specializing costs poll e s h ok = rw h (ground arith)
  step_phase-own verifying costs poll e s h ok = rw h (ground arith)
  step_phase-own active costs poll e s h ok = rw h (ground arith)

  step_phase-others :
      (p : Phase) (costs : Costs) (poll : ℕ → Option ℕ) (e : Entry) (s : Shared d) (a : ℕ)
      → e.jit_slot ≢ a
      → (step_phase d p costs poll e s).1.slots a ≡ s.slots a
  unfolding step_phase step_warmup step_monitoring step_specializing step_verifying step_active
      judge install deoptimize start_job store
  step_phase-others warmup costs poll e s a ne = ground arith
  step_phase-others monitoring costs poll e s a ne = ground arith
  step_phase-others specializing costs poll e s a ne = ground arith
  step_phase-others verifying costs poll e s a ne = ground arith
  step_phase-others active costs poll e s a ne = ground arith

  -- A change of one slot leaves the pipelines with other slots as they are.
  frame :
      (a : ℕ) (es : List Entry) (before after : ℕ → ℕ)
      → ((b : ℕ) → a ≢ b → after b ≡ before b)
      → All (λ b. a ≢ b) (addresses es)
      → SlotsOk before es
      → SlotsOk after es
  frame a [] before after same_elsewhere ne ok = tt
  frame a (e ∷ es) before after same_elsewhere ne ok = (
    subst (SlotOk e.phase) (sym (same_elsewhere e.jit_slot ne.0)) ok.0,
    frame a es before after same_elsewhere ne.1 ok.1,
  )

  step_all-others :
      (costs : Costs) (poll : ℕ → Option ℕ) (es : List Entry) (s : Shared d) (a : ℕ)
      → All (λ b. a ≢ b) (addresses es)
      → (step_all d costs poll es s).1.slots a ≡ s.slots a
  unfolding step_all
  step_all-others costs poll [] s a ne = refl
  step_all-others costs poll (e ∷ es) s a ne =
      step_all-others costs poll es (step_phase d e.phase costs poll e s).1 a ne.1
      ∙ step_phase-others e.phase costs poll e s a (λ q. ne.0 (sym q))

  step_all-addresses :
      (costs : Costs) (poll : ℕ → Option ℕ) (es : List Entry) (s : Shared d)
      → SlotsOk s.slots es
      → Distinct (addresses es)
      → (addresses (step_all d costs poll es s).0 ≡ addresses es)
        × SlotsOk (step_all d costs poll es s).1.slots (step_all d costs poll es s).0
  unfolding step_all
  step_all-addresses costs poll [] s ok dist = (refl, tt)
  step_all-addresses costs poll (e ∷ es) s ok dist =
      let r = step_phase d e.phase costs poll e s in
      let own = step_phase-own e.phase costs poll e s refl ok.0 in
      let moved =
        frame e.jit_slot es s.slots r.1.slots (step_phase-others e.phase costs poll e s) dist.0
          ok.1 in
      let rest = step_all-addresses costs poll es r.1 moved dist.1 in
      let kept = step_all-others costs poll es r.1 e.jit_slot dist.0 in
      (ap₂ ◌∷◌ own.1 rest.0, (rw own.1 (subst (SlotOk (r.0).phase) (sym kept) own.0), rest.1))

  -- The slots are distinct, and each is set exactly while its pipeline's phase says so.
  pub record SlotsMatch (g : Global d) : Type 0 where
    pub distinct : Distinct (addresses g.pipelines)
    pub ok : SlotsOk g.shared.slots g.pipelines

  -- A wake-up of the monitor keeps pointers and phases in step, for every pipeline.
  pub wake_up-SlotsMatch :
      (costs : Costs) (poll : ℕ → Option ℕ) (g : Global d)
      → SlotsMatch g
      → SlotsMatch (wake_up d costs poll g)
  unfolding wake_up
  wake_up-SlotsMatch costs poll g v =
      let all = step_all-addresses costs poll g.pipelines g.shared v.ok v.distinct in
      elim (Bool-cases g.shutdown_flag) [
        | inl stop ↦ rw stop (record { distinct = v.distinct; ok = v.ok })
        | inr run ↦ rw run (record { distinct = rw all.0 v.distinct; ok = all.1 })
      ]

  commit-own :
      (e : Entry) (ptr : ℕ) (s : Shared d)
      → SlotOk e.phase (s.slots e.jit_slot)
      → let r = commit d e ptr s in
        SlotOk (r.0).phase (r.1.slots e.jit_slot) × ((r.0).jit_slot ≡ e.jit_slot)
  unfolding commit store
  commit-own e ptr s ok = elim (Bool-cases (ptr == 0)) [
    | inl null ↦ rw null (ok, refl)
    | inr some_code ↦ rw some_code (ground arith)
  ]

  commit-others :
      (e : Entry) (ptr : ℕ) (s : Shared d) (a : ℕ)
      → e.jit_slot ≢ a
      → (commit d e ptr s).1.slots a ≡ s.slots a
  unfolding commit store
  commit-others e ptr s a ne = ground arith

  finish_first-others :
      (name : Bytes) (ptr : ℕ) (es : List Entry) (s : Shared d) (a : ℕ)
      → All (λ b. a ≢ b) (addresses es)
      → (finish_first d name ptr es s).1.slots a ≡ s.slots a
  unfolding finish_first
  finish_first-others name ptr [] s a ne = refl
  finish_first-others name ptr (e ∷ es) s a ne =
      ground (
        arith,
        commit-others e ptr s a (λ q. ne.0 (sym q)),
        finish_first-others name ptr es s a ne.1,
      )

  finish_first-addresses :
      (name : Bytes) (ptr : ℕ) (es : List Entry) (s : Shared d)
      → SlotsOk s.slots es
      → Distinct (addresses es)
      → (addresses (finish_first d name ptr es s).0 ≡ addresses es)
        × SlotsOk (finish_first d name ptr es s).1.slots (finish_first d name ptr es s).0
  unfolding finish_first
  finish_first-addresses name ptr [] s ok dist = (refl, tt)
  finish_first-addresses name ptr (e ∷ es) s ok dist =
      elim (Bool-cases (same e.pipeline_name name)) [
        | inr other ↦
            let rest = finish_first-addresses name ptr es s ok.1 dist.1 in
            let kept = finish_first-others name ptr es s e.jit_slot dist.0 in
            rw other (ap (◌∷◌ e.jit_slot) rest.0, (subst (SlotOk e.phase) (sym kept) ok.0, rest.1))
        | inl here ↦ elim (Bool-cases (may_specialize d s e)) [
          | inr refused ↦ rw (here, refused) (refl, ok)
          | inl allowed ↦
              let r = commit d e ptr s in
              let own = commit-own e ptr s ok.0 in
              let moved =
                frame e.jit_slot es s.slots r.1.slots (commit-others e ptr s) dist.0 ok.1 in
              rw (here, allowed) (ap (λ a. a ∷ addresses es) own.1, (rw own.1 own.0, moved))
        ]
      ]

  -- So does the second half of a forced specialization, for any JIT result.
  pub force_finish-SlotsMatch :
      (name : Bytes) (ptr : ℕ) (g : Global d)
      → SlotsMatch g
      → SlotsMatch (force_finish d name ptr g)
  unfolding force_finish
  force_finish-SlotsMatch name ptr g v =
      let all = finish_first-addresses name ptr g.pipelines g.shared v.ok v.distinct in
      record { distinct = rw all.0 v.distinct; ok = all.1 }
