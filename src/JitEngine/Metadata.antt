-- ===== src/JitEngine/Metadata.antt =====
-- `parseMetadata`, `deserializeContext` and `deserializeCosts`.
use topo_llvm.Prelude.{ℕ, suc, Option, none, some, List, [], ◌∷◌, ◌>>=◌, Bytes, codes}
use topo_llvm.Prelude.Int.{pos}
use topo_llvm.Prelude.Decimal.{decimal}
use topo_llvm.Json.Value.{
  Value, null, integer, array, object, Values, no_values, then_value, Members, no_members,
  then_member,
}
use topo_llvm.JitEngine.Access.{get_text, value_of, each, texts_under, elements_under, find_member}

pub record PipelineMeta (Double : Type 0) : Type 0 where
  pub name : Bytes
  pub stages : Value Double
  pub edges : Value Double
  pub demand : Value Double
  pub source_nodes : List Bytes
  pub terminal_node : Bytes
  pub terminal_type : Bytes
  pub called_functions : List Bytes

pub record PrunedEdge : Type 0 where
  pub source : Bytes
  pub target : Bytes

pub record NarrowedReturn : Type 0 where
  pub func : Bytes
  pub fields : List Bytes

pub record ContextData : Type 0 where
  pub pruned_edges : List PrunedEdge
  pub narrowed_returns : List NarrowedReturn

module _ {Double : Type 0} where
  abbrev empty_object : Value Double
  empty_object = object no_members

  abbrev empty_array : Value Double
  empty_array = array no_values

  unfoldable pub pipeline_meta : Value Double → Option (PipelineMeta Double)
  unfolding value_of texts_under
  pipeline_meta p = do
    name ← value_of get_text (codes "name") [] p
    stages ← value_of some (codes "stages") empty_object p
    edges ← value_of some (codes "edges") empty_array p
    demand ← value_of some (codes "demand") empty_object p
    terminal_node ← value_of get_text (codes "terminalNode") [] p
    terminal_type ← value_of get_text (codes "terminalType") [] p
    source_nodes ← texts_under (codes "sourceNodes") p
    called_functions ← texts_under (codes "calledFunctions") p
    some (record {
      name = name;
      stages = stages;
      edges = edges;
      demand = demand;
      source_nodes = source_nodes;
      terminal_node = terminal_node;
      terminal_type = terminal_type;
      called_functions = called_functions;
    })

  -- `doc["parallel"]`, null where it is not there.
  abbrev pub parallel_of : Value Double → Value Double
  unfolding find_member
  parallel_of (object m) = elim (find_member (codes "parallel") m) [ none ↦ null | some v ↦ v ]
  parallel_of v = null

  -- The pipelines and the configuration; none of them where the text is no JSON.
  unfoldable pub metadata_of :
      Option (Value Double) → Option (List (PipelineMeta Double) × Value Double)
  unfolding pipeline_meta elements_under parallel_of
  metadata_of none = some ([], null)
  metadata_of (some doc) = do
    pipelines ← each pipeline_meta (elements_under (codes "pipelines") doc)
    some (pipelines, parallel_of doc)

  unfoldable pub pruned_edge : Value Double → Option PrunedEdge
  unfolding value_of
  pruned_edge e = do
    source ← value_of get_text (codes "source") [] e
    target ← value_of get_text (codes "target") [] e
    some (record { source = source; target = target })

  unfoldable pub narrowed_return : Value Double → Option NarrowedReturn
  unfolding value_of texts_under
  narrowed_return nr = do
    func ← value_of get_text (codes "func") [] nr
    fields ← texts_under (codes "fields") nr
    some (record { func = func; fields = fields })

  unfoldable pub context_in : Option (Value Double) → Option ContextData
  unfolding pruned_edge narrowed_return elements_under
  context_in none = some (record { pruned_edges = []; narrowed_returns = [] })
  context_in (some doc) = do
    pruned ← each pruned_edge (elements_under (codes "prunedEdges") doc)
    narrowed ← each narrowed_return (elements_under (codes "narrowedReturns") doc)
    some (record { pruned_edges = pruned; narrowed_returns = narrowed })

  -- `items()`: the index is the key of an array's element, and a scalar has the empty key.
  abbrev pub indexed : ℕ → Values Double → List (Bytes × Value Double)
  indexed i no_values = []
  indexed i (then_value v vs) = (decimal i, v) ∷ indexed (suc i) vs

  abbrev pub keyed : Members Double → List (Bytes × Value Double)
  keyed no_members = []
  keyed (then_member k v m) = (k, v) ∷ keyed m

  abbrev pub items : Value Double → List (Bytes × Value Double)
  items null = []
  items (array vs) = indexed 0 vs
  items (object m) = keyed m
  items v = ([], v) ∷ []

  -- A number without a sign is unsigned.
  abbrev pub cost_then : Bytes → Value Double → List (Bytes × ℕ) → List (Bytes × ℕ)
  cost_then key (integer (pos n)) costs = (key, n) ∷ costs
  cost_then key v costs = costs

  abbrev pub costs_in : List (Bytes × Value Double) → List (Bytes × ℕ)
  costs_in [] = []
  costs_in ((key, v) ∷ rest) = cost_then key v (costs_in rest)

  unfoldable pub costs_of : Option (Value Double) → List (Bytes × ℕ)
  costs_of none = []
  costs_of (some doc) = costs_in (items doc)

  module _ (parse : Bytes → Option (Value Double)) where
    unfoldable pub parse_metadata : Bytes → Option (List (PipelineMeta Double) × Value Double)
    unfolding metadata_of
    parse_metadata json = metadata_of (parse json)

    unfoldable pub deserialize_context : Bytes → Option ContextData
    unfolding context_in
    deserialize_context json = context_in (parse json)

    unfoldable pub deserialize_costs : Bytes → List (Bytes × ℕ)
    unfolding costs_of
    deserialize_costs json = costs_of (parse json)
