-- ===== src/JitEngine/Pipeline.antt =====
-- The steps of `doSpecializeImpl` before LLVM compiles: the function to specialize, the mapping, and what
-- the passes are told of each pipeline and of parallel execution. `demangle` is `llvm::demangle`.
use topo_llvm.Prelude.{
  Bool, true, false, Option, none, some, List, [], ◌∷◌, ◌++◌, ◌>>=◌, if◌then◌else◌, Bytes, codes,
  same,
}
use topo_llvm.Prelude.Int.{ℤ}
use topo_llvm.Json.Value.{Value, null, array, object, no_values, no_members}
use topo_llvm.SymbolMapper.{IrFunction, NameMap, store}
use topo_llvm.SymbolMapper.Keys.{last_split, cut_at, trim_end, begins_name}
use topo_llvm.JitEngine.Access.{get_text, get_bool, value_of, elements, each, texts_under}
use topo_llvm.JitEngine.Metadata.{PipelineMeta, items, metadata_of, context_in}
use topo_llvm.JitEngine.Constraints.{apply_constraints}
use topo_llvm.JitEngine.Reach.{PipelineEdge, reachable_nodes, keep_reachable}

-- The name after the last space, if it can begin one.
unfoldable pub after_last_space : Bytes → Bytes
unfolding last_split begins_name
after_last_space s = elim (last_split (codes " ") s) [
  | none ↦ s
  | some (before, candidate) ↦ if begins_name candidate then candidate else s
]

module _ (demangle : Bytes → Bytes) where
  unfoldable pub demangle_qualified : Bytes → Bytes
  unfolding cut_at trim_end after_last_space
  demangle_qualified mangled =
      if same (demangle mangled) mangled
      then []
      else after_last_space (trim_end (cut_at (codes "(") (demangle mangled)))

  -- The first definition with the name.
  unfoldable pub find_mangled : Bytes → List IrFunction → Option Bytes
  unfolding demangle_qualified
  find_mangled name [] = none
  find_mangled name (f ∷ fs) =
      let rest = find_mangled name fs in
      if f.is_declaration
      then rest
      else if same (demangle_qualified f.name) name
      then some f.name
      else rest

  abbrev pub store_named : Bytes → Bytes → NameMap → NameMap
  unfolding store
  store_named [] func m = m
  store_named (c ∷ name) func m = store (c ∷ name) func m

  unfoldable pub jit_mapping : List IrFunction → NameMap → NameMap
  unfolding demangle_qualified store_named
  jit_mapping [] m = m
  jit_mapping (f ∷ fs) m = jit_mapping fs (store_named (demangle_qualified f.name) f.name m)

pub record PipelineAnalysis : Type 0 where
  pub stages : List (Bytes × ℤ)
  pub source_nodes : List Bytes
  pub terminal_node : Bytes
  pub terminal_type : Bytes
  pub demand : List (Bytes × List Bytes)

-- The entry of the synthetic symbol table.
pub record LogicBlockEntry : Type 0 where
  pub qualified_name : Bytes
  pub simple_name : Bytes
  pub called_functions : List Bytes
  pub edges : List PipelineEdge
  pub analysis : PipelineAnalysis

pub record ParallelConfig : Type 0 where
  pub is_auto : Bool
  pub instrument : Bool
  pub exclude : List Bytes

abbrev pub simple_name_of : Bytes → Bytes
unfolding last_split
simple_name_of name = elim (last_split (codes "::") name) [
  | none ↦ name
  | some (scope, simple) ↦ simple
]

module _ {Double : Type 0} where
  unfoldable pub pipeline_edge : Value Double → Option PipelineEdge
  unfolding value_of
  pipeline_edge e = do
    source ← value_of get_text (codes "source") [] e
    target ← value_of get_text (codes "target") [] e
    some (record { source = source; target = target })

  abbrev pub demand_item : Bytes × Value Double → Option (Bytes × List Bytes)
  demand_item (node, fields) = do names ← each get_text (elements fields); some (node, names)

  -- `empty()` of a JSON value.
  abbrev pub is_empty_value : Value Double → Bool
  is_empty_value null = true
  is_empty_value (array no_values) = true
  is_empty_value (object no_members) = true
  is_empty_value v = false

  unfoldable pub given_config : ParallelConfig → Value Double → Option ParallelConfig
  unfolding value_of texts_under
  given_config default v = do
    enabled ← value_of get_bool (codes "enabled") true v
    instrument ← value_of get_bool (codes "instrument") true v
    exclude ← texts_under (codes "exclude") v
    some (record {
      is_auto = enabled;
      instrument = instrument;
      exclude = default.exclude ++ exclude;
    })

  -- A configuration that is not given is the default one, a parameter.
  unfoldable pub parallel_config : ParallelConfig → Value Double → Option ParallelConfig
  unfolding given_config
  parallel_config default v = if is_empty_value v then some default else given_config default v

module _ {Double : Type 0} (get_int : Value Double → Option ℤ) where
  abbrev pub stage_item : Bytes × Value Double → Option (Bytes × ℤ)
  stage_item (node, stage) = do n ← get_int stage; some (node, n)

  unfoldable pub logic_block : PipelineMeta Double → Option LogicBlockEntry
  unfolding pipeline_edge stage_item demand_item simple_name_of reachable_nodes keep_reachable
  logic_block meta = do
    edges ← each pipeline_edge (elements meta.edges)
    stages ← each stage_item (items meta.stages)
    demand ← each demand_item (items meta.demand)
    reachable ← reachable_nodes meta.source_nodes edges
    some (record {
      qualified_name = meta.name;
      simple_name = simple_name_of meta.name;
      called_functions = meta.called_functions;
      edges = edges;
      analysis = record {
        stages = keep_reachable reachable stages;
        source_nodes = meta.source_nodes;
        terminal_node = meta.terminal_node;
        terminal_type = meta.terminal_type;
        demand = demand;
      };
    })

  -- What the passes get from the metadata and the context of one call.
  unfoldable pub prepare :
      Option (Value Double) → Option (Value Double) → Option (List LogicBlockEntry × Value Double)
  unfolding metadata_of context_in apply_constraints logic_block
  prepare meta ctx = do
    context ← context_in ctx
    found ← metadata_of meta
    pipelines ← apply_constraints context found.0
    blocks ← each logic_block pipelines
    some (blocks, found.1)
