-- ===== src/Verifier/Blocks.antt =====
-- The checks of a `fn` block against the calls of its function: `checkLogicBlockConsistency` and
-- `checkPipelineEdges`.
use topo_llvm.Prelude.{
  Option, none, some, List, [], ◌∷◌, ◌++◌, if◌then◌else◌, map, Bytes, codes, same, concat,
}
use topo_llvm.SymbolMapper.{NameMap, SymbolMapping, contains_name}
use topo_llvm.Sema.{Edge, LogicBlock, SymbolTable}
use topo_llvm.Verifier.Ir.{
  Finding, Severity, Counter, Instruction, LlvmFunction, matched_function, llvm_to_topo,
  called_name, scope_prefix,
}

-- The declared functions that the instructions call, once each.
unfoldable pub called_names : NameMap → List Instruction → List Bytes
unfolding called_name contains_name
called_names names [] = []
called_names names (i ∷ is) =
    let rest = called_names names is in
    elim (called_name names i) [
      | none ↦ rest
      | some name ↦ if contains_name name rest then rest else name ∷ rest
    ]

unfoldable pub insert_names : List Bytes → List Bytes
unfolding contains_name
insert_names [] = []
insert_names (x ∷ xs) =
    let rest = insert_names xs in if contains_name x rest then rest else x ∷ rest

-- The names of the operations of a block.
unfoldable pub operation_name : LogicBlock → Bytes → Bytes → Bytes
operation_name block prefix callee = if block.is_pipeline then callee else prefix ++ callee

abbrev block_error : LogicBlock → Counter → List Bytes → Finding
block_error block counter words = record {
  severity = Severity.error;
  location = block.location;
  message = concat words;
  counter = some counter;
}

-- One finding for each name that is not among the others.
unfoldable pub absent_names : (Bytes → Finding) → List Bytes → List Bytes → List Finding
unfolding contains_name
absent_names report others [] = []
absent_names report others (x ∷ xs) =
    let rest = absent_names report others xs in
    if contains_name x others then rest else report x ∷ rest

module _ (block_name : Bytes) (block : LogicBlock) where
  abbrev pub not_called : Bytes → Finding
  not_called declared = block_error block Counter.block_mismatches (
      codes "fn block '"
      ∷ block_name
      ∷ codes "' declares operation '"
      ∷ declared
      ∷ codes "' but IR does not call it"
      ∷ [])

  abbrev pub not_declared : Bytes → Finding
  not_declared called = block_error block Counter.block_mismatches (
      codes "fn block '"
      ∷ block_name
      ∷ codes "': IR calls '"
      ∷ called
      ∷ codes "' but it is not declared in the fn block"
      ∷ [])

  unfoldable pub operation_names : List Bytes
  unfolding operation_name scope_prefix
  operation_names = map (operation_name block (scope_prefix block_name)) block.called_functions

  unfoldable pub terminal_of : List Edge → Option Bytes
  unfolding scope_prefix
  terminal_of [] = none
  terminal_of (e ∷ es) =
      if e.is_terminal then some (scope_prefix block_name ++ e.source) else terminal_of es

  -- The last call of a node of the pipeline; `last` is the one so far.
  unfoldable pub last_node : NameMap → Bytes → List Instruction → Bytes
  unfolding called_name contains_name
  last_node names last [] = last
  last_node names last (i ∷ is) = elim (called_name names i) [
    | none ↦ last_node names last is
    | some name ↦
        if contains_name name block.called_functions
        then last_node names name is
        else last_node names last is
  ]

  abbrev wrong_terminal : Bytes → Bytes → Finding
  wrong_terminal terminal last = block_error block Counter.pipeline_edge_mismatches (
      codes "pipeline '"
      ∷ block_name
      ∷ codes "': terminal node '"
      ∷ terminal
      ∷ codes "' should be the last called pipeline node, but '"
      ∷ last
      ∷ codes "' is called after it"
      ∷ [])

  -- The terminal node, `terminalNode`, is empty where no edge is terminal.
  unfoldable pub compare_terminal : Bytes → Bytes → List Finding
  compare_terminal terminal [] = []
  compare_terminal terminal (c ∷ last) =
      if same (c ∷ last) terminal then [] else wrong_terminal terminal (c ∷ last) ∷ []

module _ (mapping : SymbolMapping) (block_name : Bytes) (block : LogicBlock) where
  unfoldable pub compare_calls : LlvmFunction → List Finding
  unfolding llvm_to_topo called_names insert_names absent_names operation_names
  compare_calls f =
      let called = called_names (llvm_to_topo mapping.matched) f.instructions in
      let declared = insert_names (operation_names block_name block) in
      absent_names (not_called block_name block) called declared
      ++ absent_names (not_declared block_name block) declared called

module _ (functions : List LlvmFunction) (mapping : SymbolMapping) (block_name : Bytes)
    (block : LogicBlock) where
  unfoldable pub check_block_calls : List Finding
  unfolding matched_function compare_calls
  check_block_calls =
      if block.is_pipeline
      then []
      else elim (matched_function functions mapping.matched block_name) [
        | none ↦ []
        | some f ↦ compare_calls mapping block_name block f
      ]

  unfoldable pub check_terminal : Option Bytes → List Finding
  unfolding matched_function llvm_to_topo last_node compare_terminal
  check_terminal none = []
  check_terminal (some []) = []
  check_terminal (some (c ∷ s)) = elim (matched_function functions mapping.matched block_name) [
    | none ↦ []
    | some f ↦
        compare_terminal block_name block (c ∷ s)
          (last_node block_name block (llvm_to_topo mapping.matched) [] f.instructions)
  ]

  unfoldable pub check_block_edges : List Finding
  unfolding check_terminal terminal_of
  check_block_edges =
      if block.is_pipeline then check_terminal (terminal_of block_name block block.edges) else []

-- What a check of one block reports on all of them.
unfoldable pub over_blocks :
    (Bytes → LogicBlock → List Finding) → List (Bytes × LogicBlock) → List Finding
over_blocks check [] = []
over_blocks check ((name, block) ∷ blocks) = check name block ++ over_blocks check blocks

module _ (symbols : SymbolTable) (functions : List LlvmFunction) (mapping : SymbolMapping) where
  unfoldable pub check_logic_block_consistency : List Finding
  unfolding over_blocks check_block_calls
  check_logic_block_consistency =
      over_blocks (check_block_calls functions mapping) symbols.logic_blocks

  unfoldable pub check_pipeline_edges : List Finding
  unfolding over_blocks check_block_edges
  check_pipeline_edges = over_blocks (check_block_edges functions mapping) symbols.logic_blocks
