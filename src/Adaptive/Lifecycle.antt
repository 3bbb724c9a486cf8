-- ===== src/Adaptive/Lifecycle.antt =====
-- `topo_adaptive_register`, `init`, `shutdown` and `stats`.
use topo_llvm.Prelude.{ℕ, true, false, none, [], ◌∷◌, ◌++◌, if◌then◌else◌, Bytes}
use topo_llvm.Prelude.Doubles.{Doubles}
use topo_llvm.Adaptive.{warmup, Entry, Config, Global}

unfoldable pub new_entry : Bytes → Bytes → ℕ → ℕ → Entry
new_entry mangled name slot cost = record {
  mangled_name = mangled;
  pipeline_name = name;
  jit_slot = slot;
  aot_tti_cost = cost;
  phase = warmup;
  jit_versions = 0;
  aot_baseline_ns = 0;
  jit_baseline_ns = 0;
  verify_count = 0;
  jit_future = none;
}

pub record Stats : Type 0 where
  pub specializations : ℕ
  pub deoptimizations : ℕ
  pub active_jit : ℕ

module _ (d : Doubles) where
  unfoldable pub register : Bytes → Bytes → ℕ → ℕ → Global d → Global d
  unfolding new_entry
  register mangled name slot cost g = record g {
    pipelines = g.pipelines ++ new_entry mangled name slot cost ∷ [];
  }

  -- A second call changes nothing. The monitor thread starts.
  unfoldable pub init : Config d → Global d → Global d
  init c g = if g.initialized then g else record g {
    initialized = true;
    shutdown_flag = false;
    shared = record (g.shared) { config = c };
    monitor_running = true;
  }

  -- The locked part that stops the monitor, which is then joined.
  unfoldable pub stop_monitor : Global d → Global d
  stop_monitor g =
      if g.initialized
      then record g { shutdown_flag = true; initialized = false; monitor_running = false }
      else g

  -- `shutdown`. The pointers in the slots stay as they are.
  unfoldable pub shutdown : Global d → Global d
  unfolding stop_monitor
  shutdown g =
      let g' = stop_monitor g in
      let s = g'.shared in
      record g' {
        pipelines = [];
        shared = record s { specializations = 0; deoptimizations = 0; active_jit = 0 };
      }

  unfoldable pub stats : Global d → Stats
  stats g = record {
    specializations = g.shared.specializations;
    deoptimizations = g.shared.deoptimizations;
    active_jit = g.shared.active_jit;
  }
