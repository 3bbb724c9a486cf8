-- ===== src/Verifier/Operations.antt =====
-- What it means that the check of a block's operations reports nothing.
use topo_llvm.Prelude.{◌≡◌, Option, some, List, ◌++◌, Bytes, Among}
use topo_llvm.SymbolMapper.{NameMap, SymbolMapping}
use topo_llvm.Sema.{LogicBlock}
use topo_llvm.Verifier.Ir.{LlvmFunction, Instruction, llvm_to_topo, called_name, scope_prefix}

-- An instruction of the function calls what the mapping gives this declared name.
abbrev pub Calls : SymbolMapping → LlvmFunction → Bytes → Type 0
Calls mapping f x =
    (i : Instruction) × Among i f.instructions
    × (called_name (llvm_to_topo mapping.matched) i ≡ some x)

-- The name is that of an operation of the block, in the block's own namespace.
abbrev pub Declares : Bytes → LogicBlock → Bytes → Type 0
Declares name block x =
    (callee : Bytes) × Among callee block.called_functions × (x ≡ scope_prefix name ++ callee)

abbrev CalledIn : NameMap → List Instruction → Bytes → Type 0
CalledIn names is x = (i : Instruction) × Among i is × (called_name names i ≡ some x)
