-- ===== src/JitEngine/Reach.antt =====
-- The pruning of unreachable nodes: the worklist over the edges that are left.
use topo_llvm.Prelude.{
  ℕ, zero, suc, ◌+◌, not, ◌&&◌, Option, none, some, List, [], ◌∷◌, if◌then◌else◌, length, Bytes,
  same,
}
use topo_llvm.SymbolMapper.{contains_name}
use topo_llvm.Prelude.Int.{ℤ}

pub record PipelineEdge : Type 0 where
  pub source : Bytes
  pub target : Bytes

-- The set of the nodes found, and the worklist, whose back stands first.
pub record Search : Type 0 where
  pub reachable : List Bytes
  pub worklist : List Bytes

abbrev pub found : Bytes → Search → Search
found node s = record { reachable = node ∷ s.reachable; worklist = node ∷ s.worklist }

-- The loop over the edges, for the node `cur`.
unfoldable pub visit : Bytes → List PipelineEdge → Search → Search
unfolding contains_name
visit cur [] s = s
visit cur (e ∷ es) s =
    visit cur es (
      if same e.source cur && not (contains_name e.target s.reachable) then found e.target s else s)

-- The loop over the worklist; `none` where the fuel runs out.
unfoldable pub search : ℕ → List PipelineEdge → List Bytes → List Bytes → Option (List Bytes)
unfolding visit
search fuel edges reachable [] = some reachable
search zero edges reachable (cur ∷ worklist) = none
search (suc fuel) edges reachable (cur ∷ worklist) =
    let s = visit cur edges (record { reachable = reachable; worklist = worklist }) in
    search fuel edges s.reachable s.worklist

-- The entries of a vector on a stack.
abbrev pub stacked : List Bytes → List Bytes → List Bytes
stacked [] stack = stack
stacked (x ∷ xs) stack = stacked xs (x ∷ stack)

-- Each step takes a node off the worklist, and each edge puts its target there once at most.
unfoldable pub reachable_nodes : List Bytes → List PipelineEdge → Option (List Bytes)
unfolding search
reachable_nodes sources edges =
    search (length sources + length edges) edges sources (stacked sources [])

unfoldable pub keep_reachable : List Bytes → List (Bytes × ℤ) → List (Bytes × ℤ)
unfolding contains_name
keep_reachable reachable [] = []
keep_reachable reachable ((node, stage) ∷ stages) =
    let rest = keep_reachable reachable stages in
    if contains_name node reachable then (node, stage) ∷ rest else rest
