-- ===== src/Verifier/Constraints.antt =====
-- `collectConstraintMembers` and `checkConstraintSatisfaction`: the arguments of instantiated
-- templates against the constraints of the parameters.
use topo_llvm.Prelude.{
  ℕ, zero, suc, Bool, not, ◌&&◌, ◌||◌, Option, none, some, List, [], ◌∷◌, ◌++◌, ◌>>=◌,
  if◌then◌else◌, length, map, Bytes, codes, same, concat,
}
use topo_llvm.SymbolMapper.{NameMap, SymbolMapping, build_demangled_map, contains_name}
use topo_llvm.Sema.{
  TypeNode, type_node, TypeNodes, no_types, then_type, TemplateParam, FunctionSymbol, ClassSymbol,
  Instantiate, ConstraintSymbol, AdaptEntry, SymbolTable, find_entry,
}
use topo_llvm.Verifier.Types.{last_part}
use topo_llvm.Verifier.Names.{resolve_topo_type_name}
use topo_llvm.Verifier.Symbols.{no_params}
use topo_llvm.Verifier.Templates.{any_name, has_text, ir_function}
use topo_llvm.Verifier.Ir.{LlvmFunction, Finding, Severity, Counter}

abbrev pub Constraints : Type 0
Constraints = List (Bytes × ConstraintSymbol)

abbrev pub parent_of : ConstraintSymbol → Bytes
parent_of c = elim c.parent_constraint [ none ↦ [] | some p ↦ p ]

abbrev pub members_then :
    Option ConstraintSymbol → (Bytes → Option (List Bytes)) → Option (List Bytes)
members_then none collect = some []
members_then (some symbol) collect = do
  rest ← collect (parent_of symbol)
  some (symbol.members ++ rest)

-- The loop, with the constraints `visited` so far; `none` where the fuel runs out.
unfoldable pub collect_from : Constraints → ℕ → List Bytes → Bytes → Option (List Bytes)
unfolding contains_name
collect_from constraints fuel visited [] = some []
collect_from constraints zero visited (c ∷ s) = none
collect_from constraints (suc fuel) visited (c ∷ s) =
    let rest = collect_from constraints fuel ((c ∷ s) ∷ visited) in
    if contains_name (c ∷ s) visited
    then some []
    else members_then (find_entry (c ∷ s) constraints) rest

-- A constraint is visited once, and one visit more finds none or an old one.
unfoldable pub collect_constraint_members : Constraints → Bytes → Option (List Bytes)
unfolding collect_from
collect_constraint_members constraints name =
    collect_from constraints (suc (length constraints)) [] name

-- The parameters of the first class template with the simple name.
unfoldable pub class_template : Bytes → List (Bytes × ClassSymbol) → Option (List TemplateParam)
class_template name [] = none
class_template name ((q, c) ∷ cs) =
    if same c.simple_name name && not (no_params c.template_params)
    then some c.template_params
    else class_template name cs

unfoldable pub function_template :
    Bytes → List (Bytes × FunctionSymbol) → Option (List TemplateParam)
function_template name [] = none
function_template name ((q, f) ∷ fs) =
    if same f.simple_name name && not (no_params f.template_params)
    then some f.template_params
    else function_template name fs

unfoldable pub template_params_of : SymbolTable → Bytes → Option (List TemplateParam)
unfolding class_template function_template
template_params_of symbols name = elim (class_template name symbols.class_symbols) [
  | some ps ↦ some ps
  | none ↦ function_template name symbols.functions
]

-- The name of the constraint that a parameter has, if it has one.
abbrev pub constraint_of : TemplateParam → TypeNode → Option Bytes
constraint_of p (type_node [] m v args) = none
constraint_of p (type_node (n ∷ ns) m v args) = if p.is_type_param then some n else none

unfoldable pub is_target : Bytes → Bytes → Bool
unfolding has_text
is_target target name = same name target || has_text (codes "::" ++ target) name

module _ (to_string : TypeNode → Bytes) (symbols : SymbolTable) (fuel : ℕ) (demangled : NameMap)
    (mapping : SymbolMapping) where
  -- The first `adapt` of the constraint whose target is the type.
  unfoldable pub find_adapt : Bytes → Bytes → List AdaptEntry → Option (Option AdaptEntry)
  unfolding resolve_topo_type_name
  find_adapt constraint actual [] = some none
  find_adapt constraint actual (a ∷ entries) =
      let rest = find_adapt constraint actual entries in
      if same a.constraint_name constraint
      then resolve_topo_type_name symbols fuel a.target_type
        >>= (λ target. if same target actual then some (some a) else rest)
      else rest

  abbrev pub missing_target : AdaptEntry → Bytes → Bytes → Finding
  missing_target a actual target = record {
    severity = Severity.error;
    location = a.location;
    message = concat (
        codes "adapt '"
        ∷ a.constraint_name
        ∷ codes "' for '"
        ∷ actual
        ∷ codes "': mapping target '"
        ∷ target
        ∷ codes "' not found in IR"
        ∷ []);
    counter = some Counter.constraint_violations;
  }

  unfoldable pub check_mappings : AdaptEntry → Bytes → List Bytes → List Finding
  unfolding is_target
  check_mappings a actual [] = []
  check_mappings a actual (target ∷ targets) =
      let rest = check_mappings a actual targets in
      if any_name (is_target target) demangled || any_name (is_target target) mapping.matched
      then rest
      else missing_target a actual target ∷ rest

  abbrev pub no_adapt : Instantiate → TypeNode → Bytes → Finding
  no_adapt inst arg constraint = record {
    severity = Severity.warning;
    location = inst.location;
    message = concat (
        codes "instantiate '"
        ∷ inst.qualified_name
        ∷ codes "': type argument '"
        ∷ to_string arg
        ∷ codes "' has no adapt for constraint '"
        ∷ constraint
        ∷ codes "'"
        ∷ []);
    counter = none;
  }

  abbrev pub check_adapt : Instantiate → TypeNode → Bytes → Bytes → Option AdaptEntry → List Finding
  unfolding check_mappings
  check_adapt inst arg constraint actual none = no_adapt inst arg constraint ∷ []
  check_adapt inst arg constraint actual (some a) = check_mappings a actual a.mappings

  unfoldable pub check_required :
      Instantiate → TypeNode → Bytes → Bytes → List Bytes → Option (List Finding)
  unfolding find_adapt check_adapt
  check_required inst arg constraint actual [] = some []
  check_required inst arg constraint actual (m ∷ ms) = do
    found ← find_adapt constraint actual symbols.adapts
    some (check_adapt inst arg constraint actual found)

  unfoldable pub check_argument : Instantiate → TypeNode → Option Bytes → Option (List Finding)
  unfolding resolve_topo_type_name collect_constraint_members check_required
  check_argument inst arg none = some []
  check_argument inst arg (some constraint) = do
    actual ← resolve_topo_type_name symbols fuel arg
    required ← collect_constraint_members symbols.constraints constraint
    check_required inst arg constraint actual required

  unfoldable pub check_arguments :
      Instantiate → List TemplateParam → TypeNodes → Option (List Finding)
  unfolding check_argument
  check_arguments inst [] args = some []
  check_arguments inst (p ∷ ps) no_types = some []
  check_arguments inst (p ∷ ps) (then_type arg args) = do
    here ← check_argument inst arg (constraint_of p p.constraint_type)
    rest ← check_arguments inst ps args
    some (here ++ rest)

  abbrev pub check_params_of :
      Instantiate → TypeNodes → Option (List TemplateParam) → Option (List Finding)
  check_params_of inst args none = some []
  check_params_of inst args (some params) = check_arguments inst params args

  unfoldable pub check_constraints_of : Instantiate → TypeNode → Option (List Finding)
  unfolding template_params_of check_arguments
  check_constraints_of inst (type_node [] m v args) = some []
  check_constraints_of inst (type_node (p ∷ ps) m v args) =
      check_params_of inst args (template_params_of symbols (last_part (p ∷ ps)))

  unfoldable pub check_constraints : List Instantiate → Option (List Finding)
  unfolding check_constraints_of
  check_constraints [] = some []
  check_constraints (i ∷ is) = do
    here ← check_constraints_of i i.type
    rest ← check_constraints is
    some (here ++ rest)

module _ (demangle : Bytes → Bytes) (microsoft_demangle : Bytes → Option Bytes)
    (to_string : TypeNode → Bytes) (symbols : SymbolTable) (fuel : ℕ) where
  unfoldable pub check_constraint_satisfaction :
      List LlvmFunction → SymbolMapping → Option (List Finding)
  unfolding build_demangled_map check_constraints
  check_constraint_satisfaction functions mapping =
      check_constraints to_string symbols fuel
        (build_demangled_map demangle microsoft_demangle (map ir_function functions) []) mapping
        symbols.instantiates
