-- ===== src/JitEngine/Tests.antt =====
-- A pipeline `in` → `a` → `out`, and `in` → `b` → `out`, whose edges into `b` are pruned.
use topo_llvm.Prelude.{
  false, ◌≡◌, refl, ◌↔◌, Option, none, some, List, [], ◌∷◌, ◌>>=◌, ℕ, Bytes, codes, same, Among,
}
use Prim.Native.String.{String}
use topo_llvm.Prelude.Int.{ℤ, pos}
use topo_llvm.Json.Value.{Value, null, integer, object, array, then_member, no_members}
use topo_llvm.JitEngine.Metadata.{PipelineMeta, ContextData}
use topo_llvm.JitEngine.Constraints.{constrain, narrow_all, edge_matches}
use topo_llvm.JitEngine.Reach.{PipelineEdge}
use topo_llvm.JitEngine.Pipeline.{LogicBlockEntry, logic_block, pipeline_edge}
use topo_llvm.JitEngine.Closure.{Reached}
use topo_llvm.JitEngine.Specialized.{edge_values, survivors, specialized_stages}

abbrev edge : String → String → PipelineEdge
edge a b = record { source = codes a; target = codes b }

abbrev two_ways : List PipelineEdge
two_ways = edge "in" "a" ∷ edge "in" "b" ∷ edge "a" "out" ∷ edge "b" "out" ∷ []

abbrev two_ways_meta : PipelineMeta ℕ
two_ways_meta = record {
  name = codes "p::main";
  stages = object (
      then_member (codes "a") (integer (pos 1))
        (then_member (codes "b") (integer (pos 1)) no_members));
  edges = array (edge_values two_ways);
  demand = object no_members;
  source_nodes = codes "in" ∷ [];
  terminal_node = codes "out";
  terminal_type = codes "int";
  called_functions = [];
}

abbrev without_b : ContextData
without_b = record {
  pruned_edges = record { source = codes "*"; target = codes "b" } ∷ [];
  narrowed_returns = [];
}

abbrev integer_of : Value ℕ → Option ℤ
integer_of (integer z) = some z
integer_of v = none

specialized_stages_example :
    (block : LogicBlockEntry) × ((constrain without_b two_ways_meta >>= logic_block integer_of)
      ≡ some block)
    × (block.edges ≡ survivors without_b.pruned_edges two_ways)
    × ((item : Bytes × ℤ)
        → Among item block.analysis.stages ↔ (
            Among item ((codes "a", pos 1) ∷ (codes "b", pos 1) ∷ [])
            × Reached two_ways_meta.source_nodes
                (survivors without_b.pruned_edges two_ways)
                item.0))
unfolding narrow_all
specialized_stages_example =
    specialized_stages integer_of without_b two_ways_meta two_ways
      ((codes "a", pos 1) ∷ (codes "b", pos 1) ∷ []) [] refl refl refl

-- An edge without a source gets one that is null, and cannot be read any more.
sourceless_edge :
    edge_matches {Double = ℕ}
      (record { source = codes "in"; target = codes "*" })
      (object no_members)
    ≡ some (false, object (then_member (codes "source") null no_members))
unfolding edge_matches same
sourceless_edge = refl

null_source :
    pipeline_edge {Double = ℕ} (object (then_member (codes "source") null no_members)) ≡ none
unfolding pipeline_edge same
null_source = refl
