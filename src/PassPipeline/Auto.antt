-- ===== src/PassPipeline/Auto.antt =====
-- The auto mode: a pass is applied if it makes one of its targets faster.
use topo_llvm.Prelude.{
  ◌+◌, Bool, true, false, Option, none, some, List, [], ◌∷◌, ◌++◌, Bytes, codes, if◌then◌else◌,
}
use topo_llvm.Prelude.Doubles.{Doubles}
use topo_llvm.Prelude.Int.{ℤ, pos}
use topo_llvm.Sema.{LogicBlock}
use topo_llvm.SymbolMapper.{NameMap, find}
use topo_llvm.Benchmark.Lab.{Lab}
use topo_llvm.Benchmark.Variant.{
  BenchmarkResult, BaselineCache, Winner, baseline, variant, run_cached,
}
use topo_llvm.PassPipeline.Names.{Pass}
use topo_llvm.PassPipeline.Config.{Feature}
use topo_llvm.PassPipeline.State.{State, Verdict, unsigned_of, is_positive, mark_pass_fired}

abbrev pub is_variant : Winner → Bool
is_variant variant = true
is_variant baseline = false

-- The pipelines whose functions are in the module: the block's name and the function's.
unfoldable pub pipeline_targets : NameMap → List (Bytes × LogicBlock) → List (Bytes × Bytes)
unfolding find
pipeline_targets matched [] = []
pipeline_targets matched ((name, lb) ∷ blocks) =
    let rest = pipeline_targets matched blocks in
    if lb.is_pipeline
    then elim (find lb.qualified_name matched) [ none ↦ rest | some f ↦ (name, f) ∷ rest ]
    else rest

-- All the pipelines, whether or not their functions are in the module.
unfoldable pub pipeline_names : List (Bytes × LogicBlock) → List Bytes
pipeline_names [] = []
pipeline_names ((name, lb) ∷ blocks) =
    let rest = pipeline_names blocks in if lb.is_pipeline then name ∷ rest else rest

module _ (D : Doubles) (lab : Lab D) where
  open lab use {Ir, World}

  pub record Trial : Type 0 where
    pub beneficial : Bool
    pub any_succeeded : Bool
    pub candidates : List (Bytes × BenchmarkResult D.Double)
    pub cache : BaselineCache D.Double
    pub world : World

  -- A result is noted, and the benchmarks end with the first win.
  unfoldable pub noted : Bytes → BenchmarkResult D.Double → Trial → Trial
  noted label b t = record t {
    beneficial = is_variant b.winner;
    any_succeeded = true;
    candidates = t.candidates ++ ((label, b) ∷ []);
  }

  module _ {Settings : Type 0} (c : Feature Settings) (apply_pass : Ir → Ir) (ir : Ir) where
    unfoldable pub benchmark :
        Bytes → Trial → Option (BenchmarkResult D.Double) × World × BaselineCache D.Double
    unfolding run_cached
    benchmark func t = run_cached D lab c.warmup c.iterations 2 t.cache ir func apply_pass t.world

    unfoldable pub try_targets : List (Bytes × Bytes) → Trial → Trial
    unfolding benchmark noted
    try_targets [] t = t
    try_targets ((label, func) ∷ rest) t =
        let (result, w, cache) = benchmark func t in
        let t' : Trial = record t { cache = cache; world = w } in
        elim result [
          | none ↦ try_targets rest t'
          | some b ↦ elim b.winner [
            | variant ↦ noted label b t'
            | baseline ↦ try_targets rest (noted label b t')
          ]
        ]

    unfoldable pub trial_of : List (Bytes × Bytes) → BaselineCache D.Double → World → Trial
    unfolding try_targets
    trial_of targets cache w = try_targets targets (record {
      beneficial = false;
      any_succeeded = false;
      candidates = [];
      cache = cache;
      world = w;
    })

  -- `found` is what the pass gives for its report.
  pub record Outcome (E : Type 0) : Type 0 where
    pub state : State D lab
    pub fired : ℤ
    pub verdict : Verdict
    pub found : E

  module _ {E : Type 0} (p : Pass) (pass : Ir → Ir × ℤ × E) where
    unfoldable pub applied_outcome : Verdict → State D lab → Outcome E
    applied_outcome v s =
        let (ir, n, found) = pass s.ir in
        record {
          state = mark_pass_fired D lab p (unsigned_of n) (record s { ir = ir });
          fired = n;
          verdict = v;
          found = found;
        }

    unfoldable pub auto_outcome : Verdict → Bytes → E → Trial → State D lab → Outcome E
    unfolding applied_outcome
    auto_outcome won no_gain idle t s =
        if t.beneficial
        then applied_outcome won (record s { applied = s.applied + 1 })
        else if t.any_succeeded
        then record {
          state = record s { skipped_no_benefit = s.skipped_no_benefit + 1 };
          fired = pos 0;
          verdict = (codes "auto_skipped_no_benefit", no_gain);
          found = idle;
        }
        else record {
          state = record s { skipped_bench_fail = s.skipped_bench_fail + 1 };
          fired = pos 0;
          verdict =
              (codes "auto_skipped_bench_fail", codes "benchmark could not run to completion");
          found = idle;
        }

    unfoldable pub forced_outcome : Bytes → State D lab → Outcome E
    unfolding applied_outcome
    forced_outcome reason s =
        let n = (pass s.ir).1 in
        applied_outcome
          (if is_positive n then codes "forced_applied" else codes "forced_no_targets", reason) s
