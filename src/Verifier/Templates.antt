-- ===== src/Verifier/Templates.antt =====
-- `checkTemplateInstantiations`: the five ways in which an instantiation is looked for in a module.
use topo_llvm.Prelude.{
  is_some, ℕ, Bool, false, not, ◌&&◌, ◌||◌, Option, some, List, [], ◌∷◌, ◌++◌, ◌>>=◌, if◌then◌else◌,
  map, Bytes, codes, same, concat,
}
use topo_llvm.SymbolMapper.{IrFunction, NameMap, build_demangled_map, ends_with}
use topo_llvm.SymbolMapper.Keys.{before_first, cut_at, is_empty}
use topo_llvm.Sema.{TypeNode, type_node, TypeNodes, no_types, then_type, Instantiate, SymbolTable}
use topo_llvm.Verifier.Types.{last_part}
use topo_llvm.Verifier.Names.{join_args, normalize_template_args}
use topo_llvm.Verifier.Symbols.{has_prefix}
use topo_llvm.Verifier.Consts.{em_dash}
use topo_llvm.Verifier.Ir.{LlvmFunction, Finding, Severity, Counter, scope_prefix}

-- Some name of the map passes the test.
abbrev pub any_name : (Bytes → Bool) → NameMap → Bool
any_name test [] = false
any_name test ((name, f) ∷ m) = test name || any_name test m

-- `name.find(text) != npos`, for a text that is not empty.
unfoldable pub has_text : Bytes → Bytes → Bool
unfolding before_first
has_text text name = is_some (before_first text name)

unfoldable pub template_arg_str : SymbolTable → ℕ → TypeNodes → Option Bytes
unfolding join_args
template_arg_str symbols fuel no_types = some []
template_arg_str symbols fuel (then_type t ts) = do
  names ← join_args symbols fuel (then_type t ts)
  some (codes "<" ++ (names ++ codes ">"))

-- The name itself, or a name behind it and "::".
unfoldable pub is_or_has_member : Bytes → Bytes → Bool
unfolding has_prefix
is_or_has_member expected name = same name expected || has_prefix (expected ++ codes "::") name

-- The short name itself, at the end behind "::", or with "::" anywhere.
unfoldable pub is_short : Bytes → Bytes → Bool
unfolding ends_with has_text
is_short short name =
    same name short || (ends_with (codes "::" ++ short) name || has_text (short ++ codes "::") name)

-- The five strategies, by the expected name and its end without the namespace prefix.
unfoldable pub is_instantiated : NameMap → Bytes → Bytes → Bool
unfolding is_or_has_member is_short normalize_template_args
is_instantiated demangled prefix short =
    let expected = prefix ++ short in
    any_name (λ name. same name expected) demangled
    || (any_name (has_prefix (expected ++ codes "::")) demangled
        || ((not (is_empty prefix) && any_name (is_short short) demangled)
            || (any_name
                  (λ name.
                    is_or_has_member (normalize_template_args expected)
                      (normalize_template_args name))
                  demangled
                || (not (is_empty prefix)
                    && any_name
                        (λ name.
                          is_short (normalize_template_args short) (normalize_template_args name))
                        demangled))))

abbrev pub missing_instantiation : Instantiate → Bytes → Finding
missing_instantiation inst expected = record {
  severity = Severity.error;
  location = inst.location;
  message = concat (
      codes "instantiate '"
      ∷ inst.qualified_name
      ∷ codes "' "
      ∷ em_dash
      ∷ codes " no matching instantiation found in IR (expected '"
      ∷ expected
      ∷ codes "' or member prefix)"
      ∷ []);
  counter = some Counter.template_instantiation_missing;
}

module _ (symbols : SymbolTable) (fuel : ℕ) (demangled : NameMap) where
  unfoldable pub check_instantiation_of : Instantiate → TypeNode → Option (List Finding)
  unfolding template_arg_str is_instantiated scope_prefix cut_at
  check_instantiation_of inst (type_node [] m v args) = some []
  check_instantiation_of inst (type_node (p ∷ ps) m v args) = do
    arg_str ← template_arg_str symbols fuel args
    let short = last_part (p ∷ ps) ++ arg_str
    let prefix = scope_prefix (cut_at (codes "<") inst.qualified_name)
    some (
        if is_instantiated demangled prefix short
        then []
        else missing_instantiation inst (prefix ++ short) ∷ [])

  unfoldable pub check_instantiations : List Instantiate → Option (List Finding)
  unfolding check_instantiation_of
  check_instantiations [] = some []
  check_instantiations (i ∷ is) = do
    here ← check_instantiation_of i i.type
    rest ← check_instantiations is
    some (here ++ rest)

abbrev pub ir_function : LlvmFunction → IrFunction
ir_function f = record { name = f.name; is_declaration = f.is_declaration }

module _ (demangle : Bytes → Bytes) (microsoft_demangle : Bytes → Option Bytes)
    (symbols : SymbolTable) (fuel : ℕ) where
  unfoldable pub check_template_instantiations : List LlvmFunction → Option (List Finding)
  unfolding build_demangled_map check_instantiations
  check_template_instantiations functions =
      check_instantiations symbols fuel
        (build_demangled_map demangle microsoft_demangle (map ir_function functions) [])
        symbols.instantiates
