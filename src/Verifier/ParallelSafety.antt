-- ===== src/Verifier/ParallelSafety.antt =====
-- `findTopoCallsInFunction` and `checkStageParallelSafety`: the calls of one stage of a `fn` block must
-- not depend on one another, since a later pass runs them in parallel.
use topo_llvm.Prelude.{
  ℕ, suc, Bool, not, ◌&&◌, ◌||◌, Option, none, some, List, [], ◌∷◌, ◌++◌, ◌==◌, if◌then◌else◌,
  length, replicate, ltb, Bytes, codes, concat,
}
use topo_llvm.Prelude.Int.{ℤ, less}
use topo_llvm.Prelude.Decimal.{decimal_int}
use topo_llvm.SymbolMapper.{NameMap, SymbolMapping, contains_name}
use topo_llvm.Sema.{LogicBlock, SymbolTable}
use topo_llvm.Verifier.Ir.{
  Operand, result_of, global, other_operand, Instruction, LlvmFunction, Finding, Severity, Counter,
  find_function, matched_function, llvm_to_topo, called_name, scope_prefix,
}
use topo_llvm.Verifier.Symbols.{has_prefix}
use topo_llvm.Verifier.Blocks.{over_blocks}
use topo_llvm.Verifier.Consts.{em_dash}

-- `call` is the place of the instruction, `called` the function that it calls, `operands` its operands.
pub record IrCallInfo : Type 0 where
  pub call : ℕ
  pub called : Bytes
  pub operands : List Operand
  pub topo_name : Bytes
  pub order_in_bb : ℕ

abbrev pub call_info : ℕ → Instruction → Bytes → Bytes → ℕ → IrCallInfo
call_info place i func name order = record {
  call = place;
  called = func;
  operands = i.operands;
  topo_name = name;
  order_in_bb = order;
}

-- From the instruction at `place` on, after `order` direct calls.
unfoldable pub find_calls_from : NameMap → ℕ → ℕ → List Instruction → List IrCallInfo
unfolding called_name
find_calls_from names place order [] = []
find_calls_from names place order (i ∷ is) = elim i.callee [
  | none ↦ find_calls_from names (suc place) order is
  | some func ↦
      let rest = find_calls_from names (suc place) (suc order) is in
      elim (called_name names i) [
        | none ↦ rest
        | some name ↦ call_info place i func name order ∷ rest
      ]
]

unfoldable pub find_topo_calls_in_function : LlvmFunction → NameMap → List IrCallInfo
unfolding find_calls_from
find_topo_calls_in_function f names = find_calls_from names 0 0 f.instructions

abbrev pub same_stage : ℤ → ℤ → Bool
same_stage a b = not (less a b) && not (less b a)

-- `stageOps[stage].push_back(op)`
unfoldable pub push_op : ℤ → Bytes → List (ℤ × List Bytes) → List (ℤ × List Bytes)
push_op stage op [] = (stage, op ∷ []) ∷ []
push_op stage op ((s, ops) ∷ rest) =
    let later = push_op stage op rest in
    if same_stage s stage then (s, ops ++ op ∷ []) ∷ rest else (s, ops) ∷ later

unfoldable pub group_ops :
    Bytes → List Bytes → List ℤ → List (ℤ × List Bytes) → List (ℤ × List Bytes)
unfolding push_op has_prefix
group_ops prefix [] stages m = m
group_ops prefix (c ∷ cs) [] m = m
group_ops prefix (c ∷ cs) (s ∷ stages) m =
    group_ops prefix cs stages
      (if has_prefix (codes "<assign:") c then m else push_op s (prefix ++ c) m)

unfoldable pub calls_of : List Bytes → List IrCallInfo → List IrCallInfo
unfolding contains_name
calls_of ops [] = []
calls_of ops (c ∷ cs) =
    let rest = calls_of ops cs in if contains_name c.topo_name ops then c ∷ rest else rest

-- The uses of a call's result by another call: the operands that are the result.
unfoldable pub uses_of : ℕ → List Operand → ℕ
uses_of call [] = 0
uses_of call (result_of i ∷ rest) = if i == call then suc (uses_of call rest) else uses_of call rest
uses_of call (global g ∷ rest) = uses_of call rest
uses_of call (other_operand ∷ rest) = uses_of call rest

unfoldable pub operand_globals : List Operand → List Bytes
operand_globals [] = []
operand_globals (global g ∷ rest) = g ∷ operand_globals rest
operand_globals (result_of i ∷ rest) = operand_globals rest
operand_globals (other_operand ∷ rest) = operand_globals rest

unfoldable pub globals_of : List Instruction → List Bytes
unfolding operand_globals
globals_of [] = []
globals_of (i ∷ is) = operand_globals i.operands ++ globals_of is

-- The first name that is among the others.
unfoldable pub first_common : List Bytes → List Bytes → Option Bytes
unfolding contains_name
first_common others [] = none
first_common others (g ∷ gs) = if contains_name g others then some g else first_common others gs

-- A check of the pairs of a call and a later one, in the order of the two loops.
unfoldable pub with_later :
    (IrCallInfo → IrCallInfo → List Finding) → IrCallInfo → List IrCallInfo → List Finding
with_later check a [] = []
with_later check a (b ∷ bs) = check a b ++ with_later check a bs

unfoldable pub over_pairs :
    (IrCallInfo → IrCallInfo → List Finding) → List IrCallInfo → List Finding
unfolding with_later
over_pairs check [] = []
over_pairs check (a ∷ rest) = with_later check a rest ++ over_pairs check rest

module _ (functions : List LlvmFunction) (block_name : Bytes) (block : LogicBlock) (stage : ℤ) where
  abbrev pub stage_finding :
      Severity → Option Counter → IrCallInfo → IrCallInfo → List Bytes → Finding
  stage_finding severity counter a b words = record {
    severity = severity;
    location = block.location;
    message = concat (
        codes "fn block '"
        ∷ block_name
        ∷ codes "': stage "
        ∷ decimal_int stage
        ∷ codes " operations '"
        ∷ a.topo_name
        ∷ codes "' and '"
        ∷ b.topo_name
        ∷ words);
    counter = counter;
  }

  abbrev pub feeds : IrCallInfo → IrCallInfo → Finding
  feeds a b = stage_finding Severity.error (some Counter.stage_parallel_violations) a b (
      codes "' have direct data dependency "
      ∷ em_dash
      ∷ codes " return value of the former feeds the latter"
      ∷ [])

  unfoldable pub data_pair : IrCallInfo → IrCallInfo → List Finding
  unfolding uses_of
  data_pair a b =
      replicate (uses_of a.call b.operands) (feeds a b)
      ++ replicate (uses_of b.call a.operands) (feeds b a)

  abbrev pub race : IrCallInfo → IrCallInfo → Bytes → Finding
  race a b g = stage_finding Severity.warning none a b (
      codes "' both access global '" ∷ g ∷ codes "' " ∷ em_dash ∷ codes " potential data race" ∷ [])

  unfoldable pub global_findings :
      IrCallInfo → IrCallInfo → LlvmFunction → LlvmFunction → List Finding
  unfolding first_common globals_of
  global_findings a b f g =
      elim (first_common (globals_of f.instructions) (globals_of g.instructions)) [
        | none ↦ []
        | some name ↦
            if not f.only_reads_memory || not g.only_reads_memory then race a b name ∷ [] else []
      ]

  unfoldable pub global_bodies :
      IrCallInfo → IrCallInfo → Option LlvmFunction → Option LlvmFunction → List Finding
  unfolding global_findings
  global_bodies a b none g = []
  global_bodies a b (some f) none = []
  global_bodies a b (some f) (some g) =
      if f.is_declaration || g.is_declaration then [] else global_findings a b f g

  unfoldable pub global_pair : IrCallInfo → IrCallInfo → List Finding
  unfolding global_bodies
  global_pair a b =
      global_bodies a b (find_function a.called functions) (find_function b.called functions)

  unfoldable pub check_stage_calls : List IrCallInfo → List Finding
  unfolding over_pairs data_pair global_pair
  check_stage_calls calls = over_pairs data_pair calls ++ over_pairs global_pair calls

module _ (functions : List LlvmFunction) (block_name : Bytes) (block : LogicBlock) where
  unfoldable pub check_stages : List IrCallInfo → List (ℤ × List Bytes) → List Finding
  unfolding calls_of check_stage_calls
  check_stages calls [] = []
  check_stages calls ((stage, ops) ∷ rest) =
      (if ltb (length ops) 2
        then []
        else check_stage_calls functions block_name block stage (calls_of ops calls))
      ++ check_stages calls rest

module _ (functions : List LlvmFunction) (mapping : SymbolMapping) (block_name : Bytes)
    (block : LogicBlock) where
  unfoldable pub check_block_parallel : List Finding
  unfolding matched_function find_topo_calls_in_function llvm_to_topo group_ops scope_prefix
      check_stages
  check_block_parallel =
      if block.is_pipeline
      then []
      else elim (matched_function functions mapping.matched block_name) [
        | none ↦ []
        | some f ↦
            check_stages functions block_name block
              (find_topo_calls_in_function f (llvm_to_topo mapping.matched))
              (group_ops (scope_prefix block_name) block.called_functions block.stages [])
      ]

module _ (symbols : SymbolTable) (functions : List LlvmFunction) (mapping : SymbolMapping) where
  unfoldable pub check_stage_parallel_safety : List Finding
  unfolding over_blocks check_block_parallel
  check_stage_parallel_safety =
      over_blocks (check_block_parallel functions mapping) symbols.logic_blocks
