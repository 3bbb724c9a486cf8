-- ===== src/Adaptive/Constraints.antt =====
-- `buildConstraintsFromCosts`: the edges into cold stages are pruned.
use topo_llvm.Prelude.{
  ℕ, ◌+◌, ◌%◌, ◌^◌, none, some, List, [], ◌∷◌, ◌++◌, if◌then◌else◌, Bytes, codes, strip_prefix,
  length,
}
use topo_llvm.Prelude.Decimal.{decimal}
use topo_llvm.Prelude.Doubles.{Doubles}
use topo_llvm.Adaptive.{Entry, Costs, find_cost, Context}

-- The stages of a pipeline with their costs: the keys "<pipeline>::<stage>".
unfoldable pub stage_costs : Bytes → Costs → Costs
stage_costs prefix [] = []
stage_costs prefix ((name, ns) ∷ cs) = elim (strip_prefix prefix name) [
  | none ↦ stage_costs prefix cs
  | some stage ↦ (stage, ns) ∷ stage_costs prefix cs
]

-- A `uint64_t` sum.
unfoldable pub total_cost : Costs → ℕ
total_cost [] = 0
total_cost ((name, ns) ∷ cs) = (ns + total_cost cs) % 2 ^ 64

-- The parameters that the engine gets beside the edges.
unfoldable pub cost_params : Entry → Costs → List (Bytes × Bytes)
cost_params e costs =
    (codes "aot_tti_cost", decimal e.aot_tti_cost) ∷ elim (find_cost e.pipeline_name costs) [
      | none ↦ []
      | some ns ↦ (codes "runtime_cost_ns", decimal ns) ∷ []
    ]

module _ (d : Doubles) where
  -- A stage is cold below a tenth of the mean.
  unfoldable pub cold_threshold : Costs → d.Double
  cold_threshold stages =
      d.times (d.divide (d.of_unsigned (total_cost stages)) (d.of_unsigned (length stages))) d.tenth

  unfoldable pub cold_edges : d.Double → Costs → List (Bytes × Bytes)
  cold_edges threshold [] = []
  cold_edges threshold ((stage, ns) ∷ cs) =
      if d.less (d.of_unsigned ns) threshold
      then (codes "*", stage) ∷ cold_edges threshold cs
      else cold_edges threshold cs

  unfoldable pub context_of : Entry → Costs → Costs → Context
  context_of e costs [] = record { pruned_edges = []; params = [] }
  context_of e costs (s ∷ ss) = record {
    pruned_edges = cold_edges (cold_threshold (s ∷ ss)) (s ∷ ss);
    params = cost_params e costs;
  }

  unfoldable pub build_constraints : Entry → Costs → Context
  unfolding context_of
  build_constraints e costs = context_of e costs (stage_costs (e.pipeline_name ++ codes "::") costs)
