-- ===== src/Adaptive/Tests.antt =====
-- Runs of the adaptive runtime with two pipelines, and its theorems at such states.
use topo_llvm.Prelude.{
  ℕ, zero, suc, ◌+◌, ◌≡◌, ◌↔◌, refl, true, false, Option, none, some, [], ◌∷◌, arith, codes, same,
  Among,
}
use topo_llvm.Prelude.Doubles.{thousandths}
use topo_llvm.Adaptive.{
  u32, specializing, verifying, Entry, Costs, find_cost, Config, Global, store,
}
use topo_llvm.Adaptive.Constraints.{build_constraints}
use topo_llvm.Adaptive.Pruning.{mean_tenth, build_constraints-prunes}
use topo_llvm.Adaptive.Monitor.{
  wake_up, step_all, step_phase, step_verifying, step_specializing, judge, deoptimize, install,
  required_cycles,
}
use topo_llvm.Adaptive.Force.{find_pipeline, force_finish}
use topo_llvm.Adaptive.Lifecycle.{init, shutdown}
use topo_llvm.Adaptive.Counter.{
  CountsLive, total_live, wake_up-CountsLive, force_finish-CountsLive, force_finish_overcounts,
}
use topo_llvm.Adaptive.Budget.{InBudget}
use topo_llvm.Adaptive.Slots.{SlotsMatch, wake_up-SlotsMatch, force_finish-SlotsMatch}
use topo_llvm.Adaptive.Session.{Reach, Step, Reach-InBudget, shutdown-init}

abbrev config : Config thousandths
config = record {
  min_trigger_ns = 10;
  deviation_ratio = 2000;
  deopt_ratio = 900;
  max_versions = 3;
  verify_calls = 10;
}

abbrev pipe : Entry
pipe = record {
  mangled_name = codes "_p";
  pipeline_name = codes "p";
  jit_slot = 1;
  aot_tti_cost = 7;
  phase = verifying;
  jit_versions = 1;
  aot_baseline_ns = 100;
  jit_baseline_ns = 0;
  verify_count = 0;
  jit_future = none;
}

abbrev queue : Entry
queue = record pipe {
  pipeline_name = codes "q";
  jit_slot = 2;
  phase = specializing;
  jit_versions = 0;
  jit_future = some 4;
}

abbrev slots : ℕ → ℕ
slots zero = 0
slots (suc zero) = 500
slots (suc (suc n)) = 0

abbrev running : Global thousandths
running = record {
  shared = record {
    config = config;
    specializations = 1;
    deoptimizations = 0;
    active_jit = 1;
    slots = slots;
    jobs = [];
    switches = [];
    resets = [];
  };
  pipelines = pipe ∷ queue ∷ [];
  initialized = true;
  shutdown_flag = false;
  monitor_running = true;
}

abbrev costs : Costs
costs = (codes "p", 95) ∷ (codes "p::a", 200) ∷ (codes "p::b", 1) ∷ []

abbrev all_done : ℕ → Option ℕ
all_done j = some (j + 600)

-- `p` is no better under the JIT and goes back; the job of `q` ends and goes live.
two_switches :
    let g = wake_up thousandths costs all_done running in
    (g.shared.slots 1 ≡ 0) × (g.shared.slots 2 ≡ 604) × (g.shared.active_jit ≡ 1)
unfolding wake_up find_cost same step_all step_phase step_verifying step_specializing judge
    deoptimize install required_cycles store
two_switches = (refl, refl, refl)

running-CountsLive : CountsLive thousandths running
running-CountsLive = record { exact = refl }

running-InBudget : InBudget thousandths running
running-InBudget = record { entries = ((omega arith, refl), ((omega arith, (4, refl)), tt)) }

running-SlotsMatch : SlotsMatch thousandths running
running-SlotsMatch = record {
  distinct = ((omega arith, tt), (tt, tt));
  ok = ((omega arith, (refl, tt)));
}

build_constraints-prunes_example :
    Among (codes "*", codes "b") (build_constraints thousandths pipe costs).pruned_edges ↔ (
      (ns : ℕ) × Among (codes "p::b", ns) costs
      × (thousandths.less (thousandths.of_unsigned ns) (mean_tenth thousandths (codes "p::") costs)
          ≡ true))
build_constraints-prunes_example = build_constraints-prunes thousandths pipe costs (codes "b")

wake_up-CountsLive_example : CountsLive thousandths (wake_up thousandths costs all_done running)
wake_up-CountsLive_example =
    wake_up-CountsLive thousandths costs all_done running running-CountsLive

find_queue : find_pipeline (codes "q") running.pipelines ≡ some queue
unfolding find_pipeline same
find_queue = refl

force_finish-CountsLive_example :
    CountsLive thousandths (force_finish thousandths (codes "q") 700 running)
force_finish-CountsLive_example =
    force_finish-CountsLive thousandths (codes "q") 700 running queue find_queue (λ e. cc)
      running-CountsLive

find_pipe : find_pipeline (codes "p") running.pipelines ≡ some pipe
unfolding find_pipeline same
find_pipe = refl

force_finish_overcounts_example :
    let g = force_finish thousandths (codes "p") 700 running in
    g.shared.active_jit ≡ u32 (total_live g.pipelines + 1)
force_finish_overcounts_example =
    force_finish_overcounts thousandths (codes "p") 700 running pipe find_pipe refl (omega arith)
      (omega arith) running-CountsLive

wake_up-SlotsMatch_example : SlotsMatch thousandths (wake_up thousandths costs all_done running)
wake_up-SlotsMatch_example =
    wake_up-SlotsMatch thousandths costs all_done running running-SlotsMatch

force_finish-SlotsMatch_example :
    SlotsMatch thousandths (force_finish thousandths (codes "p") 700 running)
force_finish-SlotsMatch_example =
    force_finish-SlotsMatch thousandths (codes "p") 700 running running-SlotsMatch

Reach-InBudget_example :
    InBudget thousandths
      (force_finish thousandths (codes "p") 700 (wake_up thousandths costs all_done running))
    × ((force_finish thousandths
          (codes "p")
          700
          (wake_up thousandths costs all_done running)).shared.config.max_versions
        ≡ 3)
Reach-InBudget_example =
    Reach-InBudget thousandths running _
      (Reach.next (Reach.next Reach.here (Step.wakes costs all_done refl))
        (Step.finishes (codes "p") 700 refl))
      running-InBudget

shutdown-init_example :
    let h = shutdown thousandths running in
    let s = init thousandths config h in
    (shutdown thousandths h ≡ h)
    × (h.pipelines ≡ [])
    × (h.monitor_running ≡ false)
    × (h.shared.active_jit ≡ 0)
    × (h.shared.slots ≡ slots)
    × (h.shared.config ≡ config)
    × InBudget thousandths s
    × (s.shared.config ≡ config)
    × (s.initialized ≡ true)
    × (s.shutdown_flag ≡ false)
    × (s.monitor_running ≡ true)
shutdown-init_example = shutdown-init thousandths config running (λ e. cc)
