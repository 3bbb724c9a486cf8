-- ===== src/Verifier/Signatures.antt =====
-- `checkSignatures` and `checkConstConsistency`: the parameters and results of the declared functions
-- against those of the module's. `to_string` is `TypeNode::toString`, of another repository.
-- `none` means that an alias ran out of fuel.
use topo_llvm.Prelude.{
  is_some, ℕ, zero, suc, ◌+◌, ◌-◌, Bool, true, false, not, ◌&&◌, Option, none, some, List, [], ◌∷◌,
  ◌++◌, ◌>>=◌, if◌then◌else◌, leb, ◌==◌, length, Bytes, codes, concat,
}
use topo_llvm.Prelude.Decimal.{decimal}
use topo_llvm.SymbolMapper.{SymbolMapping}
use topo_llvm.SymbolMapper.Keys.{last_split, any_same}
use topo_llvm.Sema.{
  TypeNode, type_node, TypeNodes, no_types, then_type, Parameter, FunctionSymbol, SymbolTable,
  find_entry,
}
use topo_llvm.Verifier.Types.{
  LlvmType, LogicalTypeKind, types_match, is_void, is_pointer, last_part, is_single, is_ref_or_ptr,
}
use topo_llvm.Verifier.Ir.{Argument, LlvmFunction, Finding, Severity, Counter, matched_function}

-- Entries of an association from names to what a name gives.
abbrev pub described : Bytes → List (List Bytes × Bytes) → Option Bytes
unfolding any_same
described name [] = none
described name ((names, d) ∷ rows) = if any_same names name then some d else described name rows

-- The names that the diagnostics describe, with what they say.
abbrev pub llvm_descriptions : List (List Bytes × Bytes)
llvm_descriptions =
    (codes "void" ∷ [], codes "void")
    ∷ (codes "bool" ∷ [], codes "i1")
    ∷ (codes "char" ∷ codes "int8" ∷ codes "i8" ∷ codes "u8" ∷ [], codes "i8")
    ∷ (codes "short" ∷ codes "int16" ∷ codes "i16" ∷ codes "u16" ∷ [], codes "i16")
    ∷ (codes "int" ∷ codes "int32" ∷ codes "i32" ∷ codes "u32" ∷ [], codes "i32")
    ∷ (codes "long" ∷ codes "int64" ∷ codes "i64" ∷ codes "u64" ∷ [], codes "i64")
    ∷ (codes "float" ∷ codes "f32" ∷ [], codes "float")
    ∷ (codes "double" ∷ codes "f64" ∷ [], codes "double")
    ∷ (codes "integer" ∷ codes "unsigned" ∷ [], codes "i32")
    ∷ (codes "floating" ∷ [], codes "double")
    ∷ (codes "boolean" ∷ [], codes "i1")
    ∷ (codes "text" ∷ [], codes "ptr")
    ∷ []

module _ (to_string : TypeNode → Bytes) where
  abbrev pub describe_plain : TypeNode → Bytes
  describe_plain (type_node parts m v args) = elim (described (last_part parts) llvm_descriptions) [
    | some d ↦ d
    | none ↦ if is_ref_or_ptr m then codes "ptr" else to_string (type_node parts m v args)
  ]

  -- The description of a type, and of the last of the template arguments.
  unfoldable mutual
    pub topo_type_to_llvm_desc : TypeNode → Bytes
    topo_type_to_llvm_desc (type_node [] m v args) = codes "void"
    topo_type_to_llvm_desc (type_node (p ∷ ps) m v no_types) =
        describe_plain (type_node (p ∷ ps) m v no_types)
    topo_type_to_llvm_desc (type_node (p ∷ ps) m v (then_type t ts)) =
        if is_single (codes "lifetime") (p ∷ ps)
        then last_desc (then_type t ts)
        else describe_plain (type_node (p ∷ ps) m v (then_type t ts))

    pub last_desc : TypeNodes → Bytes
    last_desc no_types = []
    last_desc (then_type t no_types) = topo_type_to_llvm_desc t
    last_desc (then_type t (then_type u us)) = last_desc (then_type u us)

abbrev pub first_is_struct_ret : List Argument → Bool
first_is_struct_ret [] = false
first_is_struct_ret (a ∷ rest_args) = a.is_struct_ret

abbrev pub first_is_pointer : List Argument → Bool
first_is_pointer [] = false
first_is_pointer (a ∷ rest_args) = is_pointer a.type

abbrev pub skip_args : ℕ → List Argument → List Argument
skip_args zero xs = xs
skip_args (suc n) [] = []
skip_args (suc n) (x ∷ xs) = skip_args n xs

abbrev warn : Severity → ℕ → Counter → List Bytes → Finding
warn severity location counter words = record {
  severity = severity;
  location = location;
  message = concat words;
  counter = some counter;
}

-- The scope of the name is a class.
unfoldable pub in_class : SymbolTable → Bytes → Bool
unfolding last_split
in_class symbols name = elim (last_split (codes "::") name) [
  | none ↦ false
  | some (scope, simple) ↦ is_some (find_entry scope symbols.class_symbols)
]

abbrev count : Bool → ℕ
count true = 1
count false = 0

-- `skipCount`: the hidden parameters, for a returned structure and for `this`.
unfoldable pub hidden_args : SymbolTable → Bytes → List Argument → ℕ
unfolding in_class
hidden_args symbols name args =
    let sret = count (first_is_struct_ret args) in
    sret + count (first_is_pointer (skip_args sret args) && in_class symbols name)

-- The number of the arguments without the hidden ones.
unfoldable pub adjusted_actual : SymbolTable → Bytes → List Argument → ℕ
unfolding hidden_args
adjusted_actual symbols name args =
    let skip = hidden_args symbols name args in
    if leb skip (length args) then length args - skip else length args

module _ (symbols : SymbolTable) (classify : Bytes → Option LogicalTypeKind)
    (to_string : TypeNode → Bytes) (fuel : ℕ) where
  abbrev wrong_return : Bytes → FunctionSymbol → Finding
  wrong_return name f = warn Severity.error f.location Counter.signature_mismatches (
      codes "function '"
      ∷ name
      ∷ codes "' declared with return type '"
      ∷ to_string f.return_type
      ∷ codes "' (expected "
      ∷ topo_type_to_llvm_desc to_string f.return_type
      ∷ codes ") but IR returns a different type"
      ∷ [])

  unfoldable pub check_return : Bytes → FunctionSymbol → Bool → LlvmType → Option (List Finding)
  unfolding types_match topo_type_to_llvm_desc
  check_return name f has_sret t =
      let single =
        types_match symbols classify fuel t f.return_type
        >>= (λ agree. some (if agree then [] else wrong_return name f ∷ [])) in
      if f.is_multi_return
      then some (
          if not has_sret && is_void t
          then warn Severity.error f.location Counter.signature_mismatches (
              codes "function '"
              ∷ name
              ∷ codes "' declared with multiple return values but IR returns void without sret"
              ∷ [])
            ∷ []
          else [])
      else if has_sret && is_void t
      then some []
      else single

  abbrev wrong_param : Bytes → FunctionSymbol → ℕ → Parameter → Finding
  wrong_param name f i p = warn Severity.warning f.location Counter.signature_mismatches (
      codes "function '"
      ∷ name
      ∷ codes "' parameter "
      ∷ decimal i
      ∷ codes " ('"
      ∷ p.name
      ∷ codes "'): declared as '"
      ∷ to_string p.type
      ∷ codes "' but IR has a different type"
      ∷ [])

  -- The parameters from the one at `i` on, against the arguments behind the hidden ones.
  unfoldable pub check_params :
      Bytes → FunctionSymbol → ℕ → List Parameter → List Argument → Option (List Finding)
  unfolding types_match
  check_params name f i [] rest_args = some []
  check_params name f i (p ∷ ps) [] = some []
  check_params name f i (p ∷ ps) (a ∷ rest_args) = do
    agree ← types_match symbols classify fuel a.type p.type
    rest ← check_params name f (suc i) ps rest_args
    some (if agree then rest else wrong_param name f i p ∷ rest)

  unfoldable pub check_types : Bytes → FunctionSymbol → LlvmFunction → Option (List Finding)
  unfolding hidden_args check_return check_params
  check_types name f func = do
    of_return ← check_return name f (first_is_struct_ret func.args) func.return_type
    of_params ←
        check_params name f 0 f.params (skip_args (hidden_args symbols name func.args) func.args)
    some (of_return ++ of_params)

  abbrev pub wrong_count : Bytes → FunctionSymbol → ℕ → Finding
  wrong_count name f actual = warn Severity.error f.location Counter.signature_mismatches (
      codes "function '"
      ∷ name
      ∷ codes "' declared with "
      ∷ decimal (length f.params)
      ∷ codes " parameter(s) but IR has "
      ∷ decimal actual
      ∷ codes " (excluding implicit this/sret)"
      ∷ [])

  unfoldable pub check_signature : Bytes → FunctionSymbol → LlvmFunction → Option (List Finding)
  unfolding adjusted_actual check_types
  check_signature name f func =
      let actual = adjusted_actual symbols name func.args in
      if actual == length f.params
      then check_types name f func
      else some (wrong_count name f actual ∷ [])

  -- A function that is not matched is passed over.
  abbrev pub check_found : Bytes → FunctionSymbol → Option LlvmFunction → Option (List Finding)
  check_found name f none = some []
  check_found name f (some func) = check_signature name f func

  module _ (functions : List LlvmFunction) (mapping : SymbolMapping) where
    unfoldable pub check_signatures_in : List (Bytes × FunctionSymbol) → Option (List Finding)
    unfolding matched_function check_signature
    check_signatures_in [] = some []
    check_signatures_in ((name, f) ∷ fs) = do
      here ← check_found name f (matched_function functions mapping.matched name)
      rest ← check_signatures_in fs
      some (here ++ rest)

    unfoldable pub check_signatures : Option (List Finding)
    unfolding check_signatures_in
    check_signatures = check_signatures_in symbols.functions
