-- ===== src/Adaptive.antt =====
-- runtime/topo_adaptive.cpp, topo_adaptive_internal.h and topo_adaptive_register.cpp: the state
-- of the adaptive runtime. The function pointers `*jit_ptr` are a store from slots to addresses,
-- with 0 for null; a future is the number of the JIT job behind it.
pub mod Constraints
pub mod Pruning
pub mod Monitor
pub mod Force
pub mod Lifecycle
pub mod Budget
pub mod Counter
pub mod Slots
pub mod Session
pub mod Tests
use topo_llvm.Prelude.{
  ℕ, ◌+◌, ◌-◌, ◌%◌, ◌^◌, Bool, true, false, Option, none, some, List, [], ◌∷◌, ◌++◌, ◌==◌,
  if◌then◌else◌, Bytes, same,
}
use topo_llvm.Prelude.Doubles.{Doubles}

abbrev pub u32 : ℕ → ℕ
u32 n = n % 2 ^ 32

-- `PipelineState`.
pub data Phase : Type 0 where
  warmup monitoring specializing verifying active : Phase

-- `PipelineEntry`, but for the call count, which nothing reads.
pub record Entry : Type 0 where
  pub mangled_name : Bytes
  pub pipeline_name : Bytes
  pub jit_slot : ℕ
  pub aot_tti_cost : ℕ
  pub phase : Phase
  pub jit_versions : ℕ
  pub aot_baseline_ns : ℕ
  pub jit_baseline_ns : ℕ
  pub verify_count : ℕ
  pub jit_future : Option ℕ

-- The cost samples of topo-parallel, by name.
abbrev pub Costs : Type 0
Costs = List (Bytes × ℕ)

unfoldable pub find_cost : Bytes → Costs → Option ℕ
find_cost k [] = none
find_cost k ((name, ns) ∷ cs) = if same name k then some ns else find_cost k cs

-- `jit::Context`, as far as this runtime fills it.
pub record Context : Type 0 where
  pub pruned_edges : List (Bytes × Bytes)
  pub params : List (Bytes × Bytes)

-- What the engine is asked to compile: the embedded module, or one handed over as bytes.
pub data Job : Type 0 where
  embedded : Bytes → Context → Job
  from_bytes : Bytes → List ℕ → Bytes → Context → Job

-- A flip of a jit pointer, as `emitVariantSwitch` reports it.
pub data Switch : Type 0 where
  aot_to_jit jit_to_aot : Bytes → Switch

module _ (d : Doubles) where
  -- `adaptive::Config`.
  pub record Config : Type 0 where
    pub min_trigger_ns : ℕ
    pub deviation_ratio : d.Double
    pub deopt_ratio : d.Double
    pub max_versions : ℕ
    pub verify_calls : ℕ

  -- The globals that the monitor and the API share, but for the pipelines.
  pub record Shared : Type 0 where
    pub config : Config
    pub specializations : ℕ
    pub deoptimizations : ℕ
    pub active_jit : ℕ
    pub slots : ℕ → ℕ
    -- JIT jobs started, newest first; a job's number is the count of those before it.
    pub jobs : List Job
    pub switches : List Switch
    -- The pipelines whose cost samples were reset, newest first.
    pub resets : List Bytes

  pub record Global : Type 0 where
    pub shared : Shared
    pub pipelines : List Entry
    pub initialized : Bool
    pub shutdown_flag : Bool
    pub monitor_running : Bool

-- A store of an atomic function pointer.
unfoldable pub store : (ℕ → ℕ) → ℕ → ℕ → ℕ → ℕ
store slots a v b = if a == b then v else slots b
