-- ===== src/Verifier/Ir.antt =====
-- What the checks read of a module, and what they report. The basic blocks of a function are
-- one list of instructions, in their order. An instruction is known by its place in that list.
use topo_llvm.Prelude.{
  ℕ, suc, Bool, Option, none, some, List, [], ◌∷◌, ◌++◌, if◌then◌else◌, Bytes, codes, same,
}
use topo_llvm.SymbolMapper.{NameMap, find, store}
use topo_llvm.SymbolMapper.Keys.{last_split}
use topo_llvm.Verifier.Types.{LlvmType}

pub data Operand : Type 0 where
  result_of : ℕ → Operand
  global : Bytes → Operand
  other_operand : Operand

-- `callee` is the function that a call or invoke instruction calls directly.
pub record Instruction : Type 0 where
  pub callee : Option Bytes
  pub debug_loc : Option (ℕ × ℕ)
  pub operands : List Operand

pub record Argument : Type 0 where
  pub type : LlvmType
  pub is_read_only : Bool
  pub is_struct_ret : Bool

pub record LlvmFunction : Type 0 where
  pub name : Bytes
  pub is_declaration : Bool
  pub only_reads_memory : Bool
  pub args : List Argument
  pub return_type : LlvmType
  pub instructions : List Instruction

pub data Severity : Type 0 where
  error warning : Severity

-- The counters of `VerifyResult`.
pub data Counter : Type 0 where
  public_missing block_mismatches signature_mismatches const_mismatches : Counter
  class_member_missing stage_order_violations pipeline_edge_mismatches : Counter
  template_instantiation_missing constraint_violations stage_parallel_violations : Counter

-- A diagnostic, and the counter that is increased with it, if there is one.
pub record Finding : Type 0 where
  pub severity : Severity
  pub location : ℕ
  pub message : Bytes
  pub counter : Option Counter

pub record VerifyResult : Type 0 where
  pub public_missing : ℕ
  pub block_mismatches : ℕ
  pub signature_mismatches : ℕ
  pub const_mismatches : ℕ
  pub class_member_missing : ℕ
  pub stage_order_violations : ℕ
  pub pipeline_edge_mismatches : ℕ
  pub template_instantiation_missing : ℕ
  pub constraint_violations : ℕ
  pub stage_parallel_violations : ℕ

abbrev pub no_result : VerifyResult
no_result = record {
  public_missing = 0;
  block_mismatches = 0;
  signature_mismatches = 0;
  const_mismatches = 0;
  class_member_missing = 0;
  stage_order_violations = 0;
  pipeline_edge_mismatches = 0;
  template_instantiation_missing = 0;
  constraint_violations = 0;
  stage_parallel_violations = 0;
}

abbrev pub increase : Counter → VerifyResult → VerifyResult
increase Counter.public_missing r = record r { public_missing = suc r.public_missing }
increase Counter.block_mismatches r = record r { block_mismatches = suc r.block_mismatches }
increase Counter.signature_mismatches r = record r {
  signature_mismatches = suc r.signature_mismatches;
}
increase Counter.const_mismatches r = record r { const_mismatches = suc r.const_mismatches }
increase Counter.class_member_missing r = record r {
  class_member_missing = suc r.class_member_missing;
}
increase Counter.stage_order_violations r = record r {
  stage_order_violations = suc r.stage_order_violations;
}
increase Counter.pipeline_edge_mismatches r = record r {
  pipeline_edge_mismatches = suc r.pipeline_edge_mismatches;
}
increase Counter.template_instantiation_missing r = record r {
  template_instantiation_missing = suc r.template_instantiation_missing;
}
increase Counter.constraint_violations r = record r {
  constraint_violations = suc r.constraint_violations;
}
increase Counter.stage_parallel_violations r = record r {
  stage_parallel_violations = suc r.stage_parallel_violations;
}

abbrev pub tally : List Finding → VerifyResult → VerifyResult
tally [] r = r
tally (f ∷ fs) r = tally fs (elim f.counter [ none ↦ r | some c ↦ increase c r ])

abbrev pub find_function : Bytes → List LlvmFunction → Option LlvmFunction
find_function key [] = none
find_function key (f ∷ fs) = if same f.name key then some f else find_function key fs

-- `mapping.matched.find(name)`: the function under the name. A function of the mapping is one
-- of the module's.
unfoldable pub matched_function : List LlvmFunction → NameMap → Bytes → Option LlvmFunction
unfolding find
matched_function functions matched name = elim (find name matched) [
  | none ↦ none
  | some func ↦ find_function func functions
]

-- The map from a function's name to the declared name; a later entry replaces an earlier one.
unfoldable pub llvm_to_topo_onto : NameMap → NameMap → NameMap
unfolding store
llvm_to_topo_onto [] m = m
llvm_to_topo_onto ((name, func) ∷ matched) m = llvm_to_topo_onto matched (store func name m)

unfoldable pub llvm_to_topo : NameMap → NameMap
unfolding llvm_to_topo_onto
llvm_to_topo matched = llvm_to_topo_onto matched []

-- The declared name of what an instruction calls.
unfoldable pub called_name : NameMap → Instruction → Option Bytes
unfolding find
called_name names i = elim i.callee [ none ↦ none | some func ↦ find func names ]

-- `nsPrefix`: the name up to its last "::", with it.
unfoldable pub scope_prefix : Bytes → Bytes
unfolding last_split
scope_prefix name = elim (last_split (codes "::") name) [
  | none ↦ []
  | some (scope, simple) ↦ scope ++ codes "::"
]
