-- ===== src/Verifier/Tests.antt =====
-- The checks on one module: a block "a::run" that calls "a::f", in stage 0, and then "a::g", in stage 1.
use topo_llvm.Prelude.{
  Bool-cases, inr, subst, ap, same→eq, ℕ, ◌≡◌, refl, inl, ◌↔◌, ◌<◌, true, false, Option, none, some,
  List, [], ◌∷◌, Bytes, codes, same, All, Among, arith, if◌then◌else◌, is_some,
}
use topo_llvm.Prelude.Int.{pos, less}
use topo_llvm.SymbolMapper.{VisibilityEntry, SymbolMapping, find, map_symbols}
use topo_llvm.Sema.{
  AccessPattern, Visibility, Modifier, TypeNode, type_node, no_types, then_type, FunctionSymbol,
  LogicBlock, SymbolTable,
}
use topo_llvm.Verifier.{verify, verify_entries}
use topo_llvm.Verifier.Types.{void_type, integer_type, types_match, alias_of}
use topo_llvm.Verifier.Ir.{Instruction, LlvmFunction}
use topo_llvm.Verifier.Symbols.{is_expected, check_public_symbols}
use topo_llvm.Verifier.Consts.{ConstEntry}
use topo_llvm.Verifier.Stages.{StagedCall, call_before, block_calls, check_stage_order}
use topo_llvm.Verifier.Names.{normalize_template_args}
use topo_llvm.Verifier.Order.{check_stage_order_iff}
use topo_llvm.Verifier.Agreement.{check_public_symbols-map_symbols}
use topo_llvm.Verifier.Total.{weight, Answers, Acyclic, named, types_match_circle}
use topo_llvm.Verifier.Finish.{verify-Answers}

abbrev call_of : Bytes → ℕ → Instruction
call_of func line = record { callee = some func; debug_loc = some (line, 5); operands = [] }

abbrev function_of : Bytes → List Instruction → LlvmFunction
function_of name instructions = record {
  name = name;
  is_declaration = false;
  only_reads_memory = false;
  args = [];
  return_type = void_type;
  instructions = instructions;
}

-- The compiler emits the call of `g` first.
abbrev run_function : LlvmFunction
run_function = function_of (codes "run") (call_of (codes "g") 4 ∷ call_of (codes "f") 3 ∷ [])

abbrev module_functions : List LlvmFunction
module_functions = run_function ∷ function_of (codes "f") [] ∷ function_of (codes "g") [] ∷ []

abbrev run_mapping : SymbolMapping
run_mapping = record {
  matched =
      (codes "a::run", codes "run") ∷ (codes "a::f", codes "f") ∷ (codes "a::g", codes "g") ∷ [];
  unmatched_topo = [];
  unmatched_ir = [];
}

abbrev run_block : LogicBlock
run_block = record {
  qualified_name = codes "a::run";
  location = 7;
  is_pipeline = false;
  called_functions = codes "f" ∷ codes "g" ∷ [];
  stages = pos 0 ∷ pos 1 ∷ [];
  edges = [];
}

check_stage_order_iff_example :
    (check_stage_order module_functions run_mapping (codes "a::run") run_block run_function ≡ [])
    ↔ ((a b : StagedCall)
        → Among a (block_calls module_functions run_mapping (codes "a::run") run_block run_function)
        → Among b (block_calls module_functions run_mapping (codes "a::run") run_block run_function)
        → call_before a b ≡ true
        → less b.stage a.stage ≡ false)
check_stage_order_iff_example =
    check_stage_order_iff module_functions run_mapping (codes "a::run") run_block run_function
      (refl, (refl, tt))

abbrev public_function : Bytes → FunctionSymbol
public_function name = record {
  simple_name = name;
  location = 3;
  visibility = Visibility.public;
  template_params = [];
  params = [];
  return_type = named (codes "Count");
  is_multi_return = false;
  is_const = false;
  cardinality = none;
  access_pattern = AccessPattern.unknown;
}

-- `Count` is an alias of `int`.
abbrev count_symbols : SymbolTable
count_symbols = record {
  functions = (codes "a::f", public_function (codes "f")) ∷ [];
  class_symbols = [];
  logic_blocks = (codes "a::run", run_block) ∷ [];
  instantiates =
      record {
        location = 9;
        qualified_name = codes "a::Box<Count>";
        type =
            type_node (codes "Box" ∷ []) Modifier.plain none
              (then_type (named (codes "Count")) no_types);
      }
      ∷ [];
  type_aliases = (codes "Count", named (codes "int")) ∷ [];
  constraints = [];
  adapts = [];
}

abbrev count_entries : List VisibilityEntry
count_entries = record { qualified_name = codes "a::f"; binding_target = none } ∷ []

check_public_symbols-map_symbols_example :
    (check_public_symbols count_symbols (map_symbols (λ s. s) (λ s. none) [] count_entries) ≡ [])
    ↔ All
        (λ f.
          is_expected count_symbols f.0 f.1 ≡ true
          → is_some (find f.0 (map_symbols (λ s. s) (λ s. none) [] count_entries).matched) ≡ true)
        count_symbols.functions
check_public_symbols-map_symbols_example =
    check_public_symbols-map_symbols (λ s. s) (λ s. none) [] count_entries count_symbols
      ((record { qualified_name = codes "a::f"; binding_target = none }, inl refl, refl), tt)

-- `Count` is above the names that are no aliases.
abbrev count_rank : Bytes → ℕ
count_rank name = if same (codes "Count") name then 1 else 0

count_symbols-Acyclic : Acyclic count_rank count_symbols
unfolding alias_of weight same
count_symbols-Acyclic name target e =
    let weigh : Option TypeNode → ℕ = elim [ none ↦ 0 | some t ↦ weight count_rank t ] in
    elim (Bool-cases (same (codes "Count") name)) [
      | inl g ↦
          subst
            (λ n. alias_of count_symbols n ≡ some target → weight count_rank target < count_rank n)
            (same→eq (codes "Count") name g) (λ f. omega (arith, ap weigh f)) e
      | inr g ↦ absurd cc
    ]

verify-Answers_example :
    Answers (
      verify
        (λ s. s)
        (λ s. none)
        (λ s. none)
        (λ t. [])
        2
        count_symbols
        module_functions
        run_mapping)
    × ((entries : List ConstEntry)
        → Answers (
            verify_entries
              (λ s. s)
              (λ s. none)
              (λ s. none)
              (λ t. [])
              2
              count_symbols
              module_functions
              run_mapping
              entries))
unfolding weight same
verify-Answers_example =
    verify-Answers (λ s. s) (λ s. none) (λ s. none) (λ t. []) 2 count_rank count_symbols
      module_functions run_mapping count_symbols-Acyclic
      (((omega arith, tt), tt), ((omega arith, tt), tt), tt)

abbrev circle_symbols : SymbolTable
circle_symbols = record count_symbols {
  type_aliases = (codes "A", named (codes "B")) ∷ (codes "B", named (codes "A")) ∷ [];
}

types_match_circle_example :
    types_match circle_symbols (λ s. none) 100 (integer_type 32) (named (codes "A")) ≡ none
unfolding alias_of same
types_match_circle_example =
    types_match_circle circle_symbols (λ s. none) (codes "A") (codes "B") refl refl refl refl 100
      (integer_type 32)

-- The name that a module has for `Vector<Int8>`, and the expected one, are different when normalized.
normalized_module_name :
    normalize_template_args (codes "Vector<signed char>") ≡ codes "Vector<signedchar>"
unfolding normalize_template_args same
normalized_module_name = refl

normalized_expected_name :
    normalize_template_args (codes "Vector<int8_t>") ≡ codes "Vector<signed char>"
unfolding normalize_template_args same
normalized_expected_name = refl
