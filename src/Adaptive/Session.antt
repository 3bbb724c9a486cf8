-- ===== src/Adaptive/Session.antt =====
-- Histories of the runtime between an `init` and a `shutdown`: the monitor, the registrations and
-- the two halves of each forced specialization run in any order, with any costs and JIT results.
use topo_llvm.Prelude.{
  ℕ, ◌≡◌, refl, Option, Bytes, List, [], ◌∙◌, Bool-cases, inl, inr, true, false,
}
use topo_llvm.Prelude.Doubles.{Doubles}
use topo_llvm.Adaptive.{Costs, Config, Global}
use topo_llvm.Adaptive.Monitor.{wake_up}
use topo_llvm.Adaptive.Force.{force_specialize, force_specialize_bytes, force_finish}
use topo_llvm.Adaptive.Lifecycle.{register, init, shutdown}
use topo_llvm.Adaptive.Budget.{
  InBudget, wake_up-InBudget, force_begin-InBudget, force_finish-InBudget, register-InBudget,
}

module _ (d : Doubles) where
  pub data Step (g h : Global d) : Type 0 where
    wakes : (costs : Costs) (poll : ℕ → Option ℕ) → h ≡ wake_up d costs poll g → Step g h
    registers :
        (mangled name : Bytes) (slot cost : ℕ) → h ≡ register d mangled name slot cost g → Step g h
    begins : (name : Bytes) (costs : Costs) → h ≡ (force_specialize d name costs g).1 → Step g h
    begins_bytes :
        (name : Bytes) (ir : List ℕ) (meta : Bytes) (costs : Costs)
        → h ≡ (force_specialize_bytes d name ir meta costs g).1
        → Step g h
    finishes : (name : Bytes) (ptr : ℕ) → h ≡ force_finish d name ptr g → Step g h

  pub data Reach (g : Global d) : Global d → Type 0 where
    here : Reach g g
    next : {h k : Global d} → Reach g h → Step h k → Reach g k

  abbrev Keeps : Global d → Global d → Type 0
  Keeps g h = InBudget d h × (h.shared.config.max_versions ≡ g.shared.config.max_versions)

  Step-Keeps : (g h : Global d) → Step g h → InBudget d g → Keeps g h
  unfolding force_specialize force_specialize_bytes register
  Step-Keeps g h (wakes costs poll e) v = rw e (wake_up-InBudget d costs poll g v)
  Step-Keeps g h (registers mangled name slot cost e) v =
      rw e (register-InBudget d mangled name slot cost g v, refl)
  Step-Keeps g h (begins name costs e) v = rw e (force_begin-InBudget d _ name g v)
  Step-Keeps g h (begins_bytes name ir meta costs e) v = rw e (force_begin-InBudget d _ name g v)
  Step-Keeps g h (finishes name ptr e) v = rw e (force_finish-InBudget d name ptr g v)

  -- In every history from a state within budget, each pipeline stays within the budget of the
  -- unchanged configuration, and holds a future exactly while it is specializing.
  pub Reach-InBudget :
      (g h : Global d)
      → Reach g h
      → InBudget d g
      → InBudget d h × (h.shared.config.max_versions ≡ g.shared.config.max_versions)
  Reach-InBudget g h here v = (v, refl)
  Reach-InBudget g h (next {h = k} r st) v =
      let before = Reach-InBudget g k r v in
      let after = Step-Keeps k h st before.0 in (after.0, after.1 ∙ before.1)

  -- A shutdown leaves no pipeline, no live count and no monitor, where the monitor ran only if
  -- initialized; the JIT pointers and the configuration stay as they were. Another shutdown
  -- changes nothing, and a later `init` starts a monitor with the given configuration, within
  -- budget.
  pub shutdown-init :
      (c : Config d) (g : Global d)
      → (g.initialized ≡ false → g.monitor_running ≡ false)
      → let h = shutdown d g in
        let s = init d c h in
        (shutdown d h ≡ h)
        × (h.pipelines ≡ [])
        × (h.monitor_running ≡ false)
        × (h.shared.active_jit ≡ 0)
        × (h.shared.slots ≡ g.shared.slots)
        × (h.shared.config ≡ g.shared.config)
        × InBudget d s
        × (s.shared.config ≡ c)
        × (s.initialized ≡ true)
        × (s.shutdown_flag ≡ false)
        × (s.monitor_running ≡ true)
  unfolding shutdown init
  shutdown-init c g idle = elim (Bool-cases g.initialized) [
    | inl e ↦
        rw e (refl, refl, refl, refl, refl, refl, record { entries = tt }, refl, refl, refl, refl)
    | inr e ↦
        let still = idle e in
        rw e (refl, refl, still, refl, refl, refl, record { entries = tt }, refl, refl, refl, refl)
  ]
