-- ===== src/JitEngine/Specialized.antt =====
-- What a context leaves of a pipeline: the edges that no pruned edge matches, and the stages of the
-- nodes that these edges lead to.
use topo_llvm.Prelude.{
  ◌≡◌, refl, sym, ap, subst, ◌∙◌, inl, inr, ◌↔◌, Bool, true, false, Bool-cases, ◌&&◌, Option, some,
  List, [], ◌∷◌, ◌>>=◌, if◌then◌else◌, Bytes, codes, same, arith, Among,
}
use topo_llvm.Prelude.Int.{ℤ}
use topo_llvm.Json.Value.{
  Value, text, array, object, Values, no_values, then_value, no_members, then_member,
}
use topo_llvm.SymbolMapper.{contains_name}
use topo_llvm.JitEngine.Access.{find_member, value_of, each, list_values}
use topo_llvm.JitEngine.Metadata.{PipelineMeta, PrunedEdge, ContextData, items}
use topo_llvm.JitEngine.Constraints.{
  touch, end_matches, edge_matches, prune_values, prune_edges, prune_all, narrow_all, constrain,
}
use topo_llvm.JitEngine.Reach.{PipelineEdge, keep_reachable}
use topo_llvm.JitEngine.Pipeline.{
  simple_name_of, LogicBlockEntry, pipeline_edge, stage_item, demand_item, logic_block,
}
use topo_llvm.JitEngine.Closure.{Reached, reachable_nodes-IsReachable}

-- The JSON of edges.
module _ {Double : Type 0} where
  abbrev pub edge_value : PipelineEdge → Value Double
  edge_value e = object (
      then_member (codes "source") (text e.source)
        (then_member (codes "target") (text e.target) no_members))

  abbrev pub edge_values : List PipelineEdge → Values Double
  edge_values [] = no_values
  edge_values (e ∷ es) = then_value (edge_value e) (edge_values es)

-- The pattern is the name, or the wildcard.
abbrev pub fits : Bytes → Bytes → Bool
fits pattern name = if same pattern (codes "*") then true else same name pattern

abbrev pub cuts : PrunedEdge → PipelineEdge → Bool
cuts p e = fits p.source e.source && fits p.target e.target

abbrev pub left_by : PrunedEdge → List PipelineEdge → List PipelineEdge
left_by p [] = []
left_by p (e ∷ es) = if cuts p e then left_by p es else e ∷ left_by p es

-- The edges that no pruned edge matches.
abbrev pub survivors : List PrunedEdge → List PipelineEdge → List PipelineEdge
survivors [] es = es
survivors (p ∷ ps) es = survivors ps (left_by p es)

module _ {Double : Type 0} where
  source_matches :
      (pattern : Bytes) (e : PipelineEdge)
      → end_matches {Double = Double} (codes "source") pattern (edge_value e)
        ≡ some (fits pattern e.source, edge_value e)
  unfolding end_matches touch find_member same
  source_matches pattern e = elim (Bool-cases (same pattern (codes "*"))) [
    | inl f ↦ rw f refl
    | inr f ↦ rw f refl
  ]

  target_matches :
      (pattern : Bytes) (e : PipelineEdge)
      → end_matches {Double = Double} (codes "target") pattern (edge_value e)
        ≡ some (fits pattern e.target, edge_value e)
  unfolding end_matches touch find_member same
  target_matches pattern e = elim (Bool-cases (same pattern (codes "*"))) [
    | inl f ↦ rw f refl
    | inr f ↦ rw f refl
  ]

  edge_matches_lem :
      (p : PrunedEdge) (e : PipelineEdge)
      → edge_matches {Double = Double} p (edge_value e) ≡ some (cuts p e, edge_value e)
  unfolding edge_matches
  edge_matches_lem p e = rw (source_matches p.source e, target_matches p.target e) refl

  if_values :
      (b : Bool) (e : PipelineEdge) (es : List PipelineEdge)
      → (if b then edge_values {Double = Double} es else then_value (edge_value e) (edge_values es))
        ≡ edge_values (if b then es else e ∷ es)
  if_values true e es = refl
  if_values false e es = refl

  prune_values_lem :
      (p : PrunedEdge) (es : List PipelineEdge)
      → prune_values {Double = Double} p (edge_values es) ≡ some (edge_values (left_by p es))
  unfolding prune_values
  prune_values_lem p [] = refl
  prune_values_lem p (e ∷ es) =
      rw (edge_matches_lem p e, prune_values_lem p es)
        (ap some (if_values (cuts p e) e (left_by p es)))

  prune_all_lem :
      (ps : List PrunedEdge) (es : List PipelineEdge)
      → prune_all {Double = Double} ps (array (edge_values es))
        ≡ some (array (edge_values (survivors ps es)))
  unfolding prune_all prune_edges
  prune_all_lem [] es = refl
  prune_all_lem (p ∷ ps) es = rw (prune_values_lem p es) (prune_all_lem ps (left_by p es))

read_edge :
    (Double : Type 0) (e : PipelineEdge)
    → pipeline_edge {Double = Double} (edge_value {Double = Double} e) ≡ some e
unfolding pipeline_edge value_of find_member same
read_edge Double e = refl

read_edges :
    (Double : Type 0) (es : List PipelineEdge)
    → each (pipeline_edge {Double = Double}) (list_values (edge_values {Double = Double} es))
      ≡ some es
read_edges Double [] = refl
read_edges Double (e ∷ es) = rw (read_edge Double e, read_edges Double es) refl

-- A stage is kept exactly if its node is in the set.
keep_reachable-Among :
    (names : List Bytes) (item : Bytes × ℤ) (stages : List (Bytes × ℤ))
    → Among item (keep_reachable names stages)
      ↔ (Among item stages × (contains_name item.0 names ≡ true))
unfolding keep_reachable
keep_reachable-Among names item [] = ((λ m. elim m [ ]), (λ m. m.0))
keep_reachable-Among names item ((node, stage) ∷ stages) =
    let rest = keep_reachable-Among names item stages in
    elim (Bool-cases (contains_name node names)) [
      | inl e ↦ rw e (
        (λ m. elim m [
          | inl k ↦ (inl k, subst (λ x. contains_name x.0 names ≡ true) (sym k) e)
          | inr k ↦ let r = rest.0 k in (inr r.0, r.1)
        ]),
        (λ h. elim h.0 [ inl k ↦ inl k | inr k ↦ inr (rest.1 (k, h.1)) ]),
      )
      | inr e ↦ rw e (
        (λ m. let r = rest.0 m in (inr r.0, r.1)),
        (λ h. elim h.0 [
          | inl k ↦
              let clash : contains_name node names ≡ true =
                subst (λ x. contains_name x.0 names ≡ true) k h.1 in
              absurd (ground (arith, clash, e))
          | inr k ↦ rest.1 (k, h.1)
        ]),
      )
    ]

module _ {Double : Type 0} (get_int : Value Double → Option ℤ) where
  -- A pipeline whose edges are given as objects with a source and a target, whose stages are numbers and
  -- whose demand, once narrowed, is lists of texts, is specialized to a block with the edges that no pruned
  -- edge of the context matches, and with exactly the stages of the nodes that these edges lead to from
  -- the pipeline's sources.
  pub specialized_stages :
      (ctx : ContextData) (meta : PipelineMeta Double) (es : List PipelineEdge)
      (stages : List (Bytes × ℤ)) (demand : List (Bytes × List Bytes))
      → meta.edges ≡ array (edge_values es)
      → each (stage_item get_int) (items meta.stages) ≡ some stages
      → each (demand_item) (items (narrow_all ctx.narrowed_returns meta.demand)) ≡ some demand
      → (block : LogicBlockEntry) × ((constrain ctx meta >>= logic_block get_int) ≡ some block)
        × (block.edges ≡ survivors ctx.pruned_edges es)
        × ((item : Bytes × ℤ)
            → Among item block.analysis.stages ↔ (
                Among item stages
                × Reached meta.source_nodes (survivors ctx.pruned_edges es) item.0))
  unfolding constrain logic_block
  specialized_stages ctx meta es stages demand e f g =
      let left = survivors ctx.pruned_edges es in
      let (names, found, exact) = reachable_nodes-IsReachable meta.source_nodes left in
      let pruned = ap (prune_all ctx.pruned_edges) e ∙ prune_all_lem ctx.pruned_edges es in
      let block : LogicBlockEntry = record {
        qualified_name = meta.name;
        simple_name = simple_name_of meta.name;
        called_functions = meta.called_functions;
        edges = left;
        analysis = record {
          stages = keep_reachable names stages;
          source_nodes = meta.source_nodes;
          terminal_node = meta.terminal_node;
          terminal_type = meta.terminal_type;
          demand = demand;
        };
      } in
      (
        block,
        rw (pruned, read_edges Double left, f, g, found) refl,
        refl,
        (λ item.
            let kept = keep_reachable-Among names item stages in
            (
              (λ m. let r = kept.0 m in (r.0, (exact item.0).0 r.1)),
              (λ m. kept.1 (m.0, (exact item.0).1 m.1)),
            )),
      )
