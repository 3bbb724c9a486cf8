-- ===== src/Sema.antt =====
-- The declarations of the front end that the backend reads (topo/Sema and topo/AST headers, which are
-- in another repository): only the fields that this repository uses. A map is a list of its entries
-- in the order of its iteration, and a source location is a number.
use topo_llvm.Prelude.{ℕ, Bool, Option, none, some, List, [], ◌∷◌, if◌then◌else◌, Bytes, same}
use topo_llvm.Prelude.Int.{ℤ}

pub data Visibility : Type 0 where
  public protected private internal ignore : Visibility

pub data Modifier : Type 0 where
  plain ref ptr : Modifier

-- The name parts, the modifier, the value of a template argument that is a number, and the template
-- arguments.
mutual
  pub data TypeNode : Type 0 where
    type_node : List Bytes → Modifier → Option ℤ → TypeNodes → TypeNode

  pub data TypeNodes : Type 0 where
    no_types : TypeNodes
    then_type : TypeNode → TypeNodes → TypeNodes

pub record TemplateParam : Type 0 where
  pub is_type_param : Bool
  pub constraint_type : TypeNode

pub record Parameter : Type 0 where
  pub name : Bytes
  pub type : TypeNode

pub record CardinalityHint : Type 0 where
  pub min : ℤ
  pub max : ℤ

pub data AccessPattern : Type 0 where
  unknown streaming random gather_scatter tiled : AccessPattern

pub record FunctionSymbol : Type 0 where
  pub simple_name : Bytes
  pub location : ℕ
  pub visibility : Visibility
  pub template_params : List TemplateParam
  pub params : List Parameter
  pub return_type : TypeNode
  pub is_multi_return : Bool
  pub is_const : Bool
  pub cardinality : Option CardinalityHint
  pub access_pattern : AccessPattern

-- The destructor's name is empty where there is none.
pub record ClassSymbol : Type 0 where
  pub simple_name : Bytes
  pub location : ℕ
  pub template_params : List TemplateParam
  pub member_functions : List Bytes
  pub constructors : List Bytes
  pub destructor : Bytes

pub record Edge : Type 0 where
  pub source : Bytes
  pub is_terminal : Bool

pub record LogicBlock : Type 0 where
  pub qualified_name : Bytes
  pub location : ℕ
  pub is_pipeline : Bool
  pub called_functions : List Bytes
  pub stages : List ℤ
  pub edges : List Edge

pub record Instantiate : Type 0 where
  pub location : ℕ
  pub qualified_name : Bytes
  pub type : TypeNode

pub record ConstraintSymbol : Type 0 where
  pub members : List Bytes
  pub parent_constraint : Option Bytes

-- `mappings` holds the names of the mappings' targets.
pub record AdaptEntry : Type 0 where
  pub constraint_name : Bytes
  pub target_type : TypeNode
  pub location : ℕ
  pub mappings : List Bytes

pub record SymbolTable : Type 0 where
  pub functions : List (Bytes × FunctionSymbol)
  pub class_symbols : List (Bytes × ClassSymbol)
  pub logic_blocks : List (Bytes × LogicBlock)
  pub instantiates : List Instantiate
  pub type_aliases : List (Bytes × TypeNode)
  pub constraints : List (Bytes × ConstraintSymbol)
  pub adapts : List AdaptEntry

-- The entry under a key, as the maps and the `find…` functions of the symbol table give it.
module _ {ℓ} {V : Type ℓ} where
  abbrev pub find_entry : Bytes → List (Bytes × V) → Option V
  find_entry key [] = none
  find_entry key ((k, v) ∷ m) = if same k key then some v else find_entry key m
