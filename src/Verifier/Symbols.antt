-- ===== src/Verifier/Symbols.antt =====
-- The checks that the declared functions and class members are there: `checkPublicSymbols` and
-- `checkClassMembers`.
use topo_llvm.Prelude.{
  is_some, Bool, true, false, not, ◌&&◌, ◌||◌, Option, none, some, List, [], ◌∷◌, ◌++◌,
  if◌then◌else◌, Bytes, codes, concat, strip_prefix,
}
use topo_llvm.SymbolMapper.{SymbolMapping, find, contains_name}
use topo_llvm.SymbolMapper.Keys.{before_first}
use topo_llvm.Sema.{Visibility, TemplateParam, FunctionSymbol, ClassSymbol, SymbolTable, find_entry}
use topo_llvm.Verifier.Ir.{Finding, Severity, Counter}

abbrev pub no_params : List TemplateParam → Bool
no_params [] = true
no_params (p ∷ ps) = false

abbrev pub is_public : Visibility → Bool
is_public Visibility.public = true
is_public _ = false

-- The name is longer than the prefix and begins with it.
unfoldable pub has_prefix : Bytes → Bytes → Bool
unfolding strip_prefix
has_prefix prefix name = elim (strip_prefix prefix name) [
  | none ↦ false
  | some [] ↦ false
  | some (c ∷ s) ↦ true
]

unfoldable pub in_template_class : Bytes → List (Bytes × ClassSymbol) → Bool
unfolding has_prefix
in_template_class name [] = false
in_template_class name ((class_name, c) ∷ cs) =
    (not (no_params c.template_params) && has_prefix (class_name ++ codes "::") name)
    || in_template_class name cs

unfoldable pub is_specialization : Bytes → Bool
unfolding before_first
is_specialization name = is_some (before_first (codes "<") name)

-- The functions that the check is about: public, no template and no part of one.
unfoldable pub is_expected : SymbolTable → Bytes → FunctionSymbol → Bool
unfolding in_template_class is_specialization
is_expected symbols name f =
    is_public f.visibility
    && (no_params f.template_params
        && (not (in_template_class name symbols.class_symbols) && not (is_specialization name)))

abbrev pub is_matched : Bytes → SymbolMapping → Bool
is_matched name mapping = is_some (find name mapping.matched)

-- `collectedNames` has the name.
abbrev pub is_collected : Bytes → SymbolMapping → Bool
is_collected name mapping = is_matched name mapping || contains_name name mapping.unmatched_topo

abbrev pub missing_public : Bytes → FunctionSymbol → Finding
missing_public name f = record {
  severity = Severity.error;
  location = f.location;
  message =
      concat (
        codes "public function '" ∷ name ∷ codes "' declared in .topo but missing in LLVM IR" ∷ []);
  counter = some Counter.public_missing;
}

unfoldable pub check_public_symbols_in :
    SymbolTable → SymbolMapping → List (Bytes × FunctionSymbol) → List Finding
unfolding is_expected
check_public_symbols_in symbols mapping [] = []
check_public_symbols_in symbols mapping ((name, f) ∷ fs) =
    let rest = check_public_symbols_in symbols mapping fs in
    if is_expected symbols name f && (is_collected name mapping && not (is_matched name mapping))
    then missing_public name f ∷ rest
    else rest

unfoldable pub check_public_symbols : SymbolTable → SymbolMapping → List Finding
unfolding check_public_symbols_in
check_public_symbols symbols mapping = check_public_symbols_in symbols mapping symbols.functions

module _ (symbols : SymbolTable) (mapping : SymbolMapping) (class_name : Bytes)
    (c : ClassSymbol) where
  abbrev missing_member : Severity → Bytes → Bytes → Option Counter → Finding
  missing_member severity words member counter = record {
    severity = severity;
    location = c.location;
    message =
        concat (codes "class '" ∷ class_name ∷ words ∷ member ∷ codes "' missing in LLVM IR" ∷ []);
    counter = counter;
  }

  -- A member that is not matched: an error if it is public, nothing if it is a template or unknown.
  unfoldable pub unmatched_member : Bytes → Option FunctionSymbol → List Finding
  unmatched_member member none = []
  unmatched_member member (some f) =
      if not (no_params f.template_params)
      then []
      else if is_public f.visibility
      then missing_member Severity.error (codes "' public member function '") member
          (some Counter.class_member_missing)
        ∷ []
      else missing_member Severity.warning (codes "' member function '") member none ∷ []

  unfoldable pub check_member_functions : List Bytes → List Finding
  unfolding unmatched_member
  check_member_functions [] = []
  check_member_functions (member ∷ members) =
      let rest = check_member_functions members in
      if is_matched member mapping
      then rest
      else unmatched_member member (find_entry member symbols.functions) ++ rest

  unfoldable pub any_matched : List Bytes → Bool
  any_matched [] = false
  any_matched (name ∷ names) = if is_matched name mapping then true else any_matched names

  unfoldable pub check_constructors : List Bytes → List Finding
  unfolding any_matched
  check_constructors [] = []
  check_constructors (name ∷ names) =
      if any_matched (name ∷ names)
      then []
      else record {
        severity = Severity.warning;
        location = c.location;
        message = concat (
            codes "class '"
            ∷ class_name
            ∷ codes "' declares constructor(s) but none found in IR"
            ∷ []);
        counter = none;
      }
        ∷ []

  unfoldable pub check_destructor : Bytes → List Finding
  check_destructor [] = []
  check_destructor (x ∷ xs) =
      if is_matched (x ∷ xs) mapping
      then []
      else record {
        severity = Severity.warning;
        location = c.location;
        message = concat (
            codes "class '"
            ∷ class_name
            ∷ codes "' declares destructor '"
            ∷ (x ∷ xs)
            ∷ codes "' but it was not found in IR"
            ∷ []);
        counter = none;
      }
        ∷ []

  unfoldable pub check_class : List Finding
  unfolding is_specialization check_member_functions check_constructors check_destructor
  check_class =
      if not (no_params c.template_params) || is_specialization class_name
      then []
      else check_member_functions c.member_functions
        ++ (check_constructors c.constructors ++ check_destructor c.destructor)

unfoldable pub check_class_members_in :
    SymbolTable → SymbolMapping → List (Bytes × ClassSymbol) → List Finding
unfolding check_class
check_class_members_in symbols mapping [] = []
check_class_members_in symbols mapping ((name, c) ∷ cs) =
    check_class symbols mapping name c ++ check_class_members_in symbols mapping cs

unfoldable pub check_class_members : SymbolTable → SymbolMapping → List Finding
unfolding check_class_members_in
check_class_members symbols mapping = check_class_members_in symbols mapping symbols.class_symbols
