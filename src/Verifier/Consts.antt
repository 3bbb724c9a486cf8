-- ===== src/Verifier/Consts.antt =====
-- `checkConstConsistency`: the `const` of declarations against the attributes of the module's functions.
use topo_llvm.Prelude.{
  ℕ, suc, Bool, false, not, ◌&&◌, Option, none, some, List, [], ◌∷◌, ◌++◌, if◌then◌else◌, get_elem?,
  Bytes, codes, same, concat,
}
use topo_llvm.Prelude.Decimal.{decimal}
use topo_llvm.SymbolMapper.{SymbolMapping}
use topo_llvm.Sema.{Modifier, FunctionSymbol, SymbolTable}
use topo_llvm.Verifier.Types.{is_ref_or_ptr}
use topo_llvm.Verifier.Ir.{Argument, LlvmFunction, Finding, Severity, Counter, matched_function}

pub record ParamConst : Type 0 where
  pub is_const : Bool
  pub modifier : Modifier

-- The fields of `VisibilityEntry` that the check reads.
pub record ConstEntry : Type 0 where
  pub qualified_name : Bytes
  pub param_consts : List ParamConst

-- UTF-8 for the dash of the messages.
abbrev pub em_dash : Bytes
em_dash = 0xE2 ∷ 0x80 ∷ 0x94 ∷ []

-- `entryMap`: the last entry with the name.
unfoldable pub const_entry : Bytes → List ConstEntry → Option ConstEntry
const_entry name [] = none
const_entry name (e ∷ es) = elim (const_entry name es) [
  | some later ↦ some later
  | none ↦ if same e.qualified_name name then some e else none
]

module _ (name : Bytes) (f : FunctionSymbol) where
  abbrev const_warning : List Bytes → Finding
  const_warning words = record {
    severity = Severity.warning;
    location = f.location;
    message = concat (codes "function '" ∷ name ∷ words);
    counter = some Counter.const_mismatches;
  }

  abbrev param_warning : ℕ → Finding
  param_warning i = const_warning (
      codes "' parameter "
      ∷ decimal i
      ∷ codes " declared as const ref/ptr but IR argument lacks readonly attribute "
      ∷ em_dash
      ∷ codes " const contract not verifiable at -O0"
      ∷ [])

  abbrev pub lacks_read_only : Option Argument → Bool
  lacks_read_only none = false
  lacks_read_only (some a) = not a.is_read_only

  -- The parameters from the one at `i` on, each against the argument at its own place.
  unfoldable pub check_param_consts : List Argument → ℕ → List ParamConst → List Finding
  check_param_consts args i [] = []
  check_param_consts args i (p ∷ ps) =
      let rest = check_param_consts args (suc i) ps in
      if (p.is_const && is_ref_or_ptr p.modifier) && lacks_read_only (get_elem? args i)
      then param_warning i ∷ rest
      else rest

  unfoldable pub check_const : LlvmFunction → ConstEntry → List Finding
  unfolding check_param_consts
  check_const func entry =
      (if f.is_const && not func.only_reads_memory
        then const_warning (
            codes "' declared as const but IR does not have memory(read) attribute "
            ∷ em_dash
            ∷ codes " const contract not verifiable at -O0"
            ∷ [])
          ∷ []
        else [])
      ++ check_param_consts func.args 0 entry.param_consts

  unfoldable pub check_entry_const : Option LlvmFunction → Option ConstEntry → List Finding
  unfolding check_const
  check_entry_const none e = []
  check_entry_const (some func) none = []
  check_entry_const (some func) (some e) = check_const func e

module _ (functions : List LlvmFunction) (mapping : SymbolMapping) (entries : List ConstEntry) where
  unfoldable pub check_consts_in : List (Bytes × FunctionSymbol) → List Finding
  unfolding matched_function check_entry_const const_entry
  check_consts_in [] = []
  check_consts_in ((name, f) ∷ fs) =
      check_entry_const name f (matched_function functions mapping.matched name)
        (const_entry name entries)
      ++ check_consts_in fs

  unfoldable pub check_const_consistency : SymbolTable → List Finding
  unfolding check_consts_in
  check_const_consistency symbols = check_consts_in symbols.functions
