-- ===== src/JitEngine/Constraints.antt =====
-- `applyConstraints`: pruned edges are taken out of a pipeline, and narrowed returns change its demand.
use topo_llvm.Prelude.{
  Bool, true, false, ◌&&◌, Option, none, some, List, [], ◌∷◌, ◌>>=◌, if◌then◌else◌, Bytes, codes,
  same,
}
use topo_llvm.Json.Value.{
  Value, null, text, array, object, Values, no_values, then_value, Members, no_members, then_member,
  set_sorted, array_of,
}
use topo_llvm.JitEngine.Access.{find_member, has_member, each}
use topo_llvm.JitEngine.Metadata.{PipelineMeta, PrunedEdge, NarrowedReturn, ContextData}

module _ {Double : Type 0} where
  -- `e[key]` on an edge that may change: a key that is missing is added with a null, and null becomes an
  -- object; any other value is an exception. The value, and the changed edge.
  abbrev pub touch_member :
      Bytes → Members Double → Option (Value Double) → Value Double × Value Double
  touch_member key m none = (null, object (set_sorted key null m))
  touch_member key m (some v) = (v, object m)

  unfoldable pub touch : Bytes → Value Double → Option (Value Double × Value Double)
  unfolding find_member set_sorted
  touch key null = some (null, object (then_member key null no_members))
  touch key (object m) = some (touch_member key m (find_member key m))
  touch key v = none

  abbrev pub is_text : Bytes → Value Double → Bool
  is_text s (text t) = same t s
  is_text s v = false

  -- `pattern == "*" || e[key] == pattern`
  unfoldable pub end_matches : Bytes → Bytes → Value Double → Option (Bool × Value Double)
  unfolding touch
  end_matches key pattern e =
      let looked = touch key e >>= (λ t. some (is_text pattern t.0, t.1)) in
      if same pattern (codes "*") then some (true, e) else looked

  -- Whether the edge is pruned, and the edge as it is afterwards.
  unfoldable pub edge_matches : PrunedEdge → Value Double → Option (Bool × Value Double)
  unfolding end_matches
  edge_matches p e = do
    source ← end_matches (codes "source") p.source e
    target ← end_matches (codes "target") p.target source.1
    some (source.0 && target.0, target.1)

  unfoldable pub prune_values : PrunedEdge → Values Double → Option (Values Double)
  unfolding edge_matches
  prune_values p no_values = some no_values
  prune_values p (then_value e es) = do
    found ← edge_matches p e
    rest ← prune_values p es
    some (if found.0 then rest else then_value found.1 rest)

  unfoldable pub prune_members : PrunedEdge → Members Double → Option (Members Double)
  unfolding edge_matches
  prune_members p no_members = some no_members
  prune_members p (then_member k e es) = do
    found ← edge_matches p e
    rest ← prune_members p es
    some (if found.0 then rest else then_member k found.1 rest)

  -- A scalar is met once, and erasing it leaves null.
  abbrev pub prune_scalar : PrunedEdge → Value Double → Option (Value Double)
  prune_scalar p v = do found ← edge_matches p v; some (if found.0 then null else found.1)

  unfoldable pub prune_edges : PrunedEdge → Value Double → Option (Value Double)
  unfolding prune_values prune_members
  prune_edges p null = some null
  prune_edges p (array es) = do kept ← prune_values p es; some (array kept)
  prune_edges p (object m) = do kept ← prune_members p m; some (object kept)
  prune_edges p v = prune_scalar p v

  unfoldable pub prune_all : List PrunedEdge → Value Double → Option (Value Double)
  unfolding prune_edges
  prune_all [] edges = some edges
  prune_all (p ∷ ps) edges = prune_edges p edges >>= prune_all ps

  abbrev pub set_demand : Bytes → List Bytes → Value Double → Value Double
  unfolding set_sorted array_of
  set_demand func fields (object m) = object (set_sorted func (array_of text fields) m)
  set_demand func fields v = v

  unfoldable pub narrow_all : List NarrowedReturn → Value Double → Value Double
  unfolding has_member set_demand
  narrow_all [] demand = demand
  narrow_all (n ∷ ns) demand =
      narrow_all ns (if has_member n.func demand then set_demand n.func n.fields demand else demand)

  unfoldable pub constrain : ContextData → PipelineMeta Double → Option (PipelineMeta Double)
  unfolding prune_all narrow_all
  constrain ctx p = do
    edges ← prune_all ctx.pruned_edges p.edges
    some (record p { edges = edges; demand = narrow_all ctx.narrowed_returns p.demand })

  unfoldable pub apply_constraints :
      ContextData → List (PipelineMeta Double) → Option (List (PipelineMeta Double))
  unfolding constrain
  apply_constraints ctx pipelines = each (constrain ctx) pipelines
