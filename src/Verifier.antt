-- ===== src/Verifier.antt =====
-- lib/Backend/Verifier.cpp: the checks of a module against the declarations, each a function to the
-- findings that it reports, in their order. A set or a map is a list of its entries in the order
-- of its iteration. The children hold one check or two each.
pub mod Types
pub mod Ir
pub mod Symbols
pub mod Blocks
pub mod Signatures
pub mod Consts
pub mod Stages
mod Order
mod Agreement
mod Operations
mod Total
mod Collect
mod Finish
mod Tests
pub mod Names
pub mod Templates
pub mod Constraints
pub mod ParallelSafety
use topo_llvm.Prelude.{ℕ, Option, some, List, [], ◌++◌, ◌>>=◌, Bytes}
use topo_llvm.SymbolMapper.{SymbolMapping}
use topo_llvm.Sema.{TypeNode, SymbolTable}
use topo_llvm.Verifier.Types.{LogicalTypeKind}
use topo_llvm.Verifier.Ir.{LlvmFunction, Finding, VerifyResult, no_result, tally}
use topo_llvm.Verifier.Symbols.{check_public_symbols, check_class_members}
use topo_llvm.Verifier.Blocks.{check_logic_block_consistency, check_pipeline_edges}
use topo_llvm.Verifier.Signatures.{check_signatures}
use topo_llvm.Verifier.Consts.{ConstEntry, check_const_consistency}
use topo_llvm.Verifier.Stages.{check_stage_ordering}
use topo_llvm.Verifier.Templates.{check_template_instantiations}
use topo_llvm.Verifier.Constraints.{check_constraint_satisfaction}
use topo_llvm.Verifier.ParallelSafety.{check_stage_parallel_safety}

module _ (demangle : Bytes → Bytes) (microsoft_demangle : Bytes → Option Bytes)
    (classify : Bytes → Option LogicalTypeKind) (to_string : TypeNode → Bytes) (fuel : ℕ)
    (symbols : SymbolTable) (functions : List LlvmFunction) (mapping : SymbolMapping) where
  -- The two versions differ in the check of `const`, whose findings are given.
  unfoldable pub verify_with : List Finding → Option (List Finding × VerifyResult)
  unfolding check_public_symbols check_class_members check_logic_block_consistency
      check_pipeline_edges check_signatures check_stage_ordering check_template_instantiations
      check_constraint_satisfaction check_stage_parallel_safety
  verify_with consts = do
    signatures ← check_signatures symbols classify to_string fuel functions mapping
    templates ← check_template_instantiations demangle microsoft_demangle symbols fuel functions
    constraints ←
        check_constraint_satisfaction demangle microsoft_demangle to_string symbols fuel functions
          mapping
    let findings =
        check_public_symbols symbols mapping
        ++ (check_logic_block_consistency symbols functions mapping
            ++ (signatures
                ++ (consts
                    ++ (check_class_members symbols mapping
                        ++ (check_stage_ordering symbols functions mapping
                            ++ (check_pipeline_edges symbols functions mapping
                                ++ (templates
                                    ++ (constraints
                                        ++ check_stage_parallel_safety symbols functions
                                            mapping))))))))
    some (findings, tally findings no_result)

  unfoldable pub verify : Option (List Finding × VerifyResult)
  unfolding verify_with
  verify = verify_with []

  unfoldable pub verify_entries : List ConstEntry → Option (List Finding × VerifyResult)
  unfolding verify_with check_const_consistency
  verify_entries entries = verify_with (check_const_consistency functions mapping entries symbols)
