-- ===== src/Verifier/Names.antt =====
-- The names under which template instantiations appear in a module: `canonicalizeTypeName`,
-- `resolveTopoTypeName` and `normalizeTemplateArgs`. Following an alias has fuel, as in Types.
use topo_llvm.Prelude.{
  ℕ, zero, suc, Bool, ◌||◌, Option, none, some, List, [], ◌∷◌, ◌++◌, ◌==◌, ◌>>=◌, if◌then◌else◌,
  Bytes, codes, same,
}
use topo_llvm.SymbolMapper.Keys.{any_same}
use topo_llvm.Sema.{TypeNode, type_node, TypeNodes, no_types, then_type, SymbolTable}
use topo_llvm.Verifier.Types.{Step, answer, follow_or, after_step, last_part, join_parts, alias_of}

abbrev pub NameTable : Type 0
NameTable = List (List Bytes × Bytes)

-- The name that stands in a table under one of its keys.
unfoldable pub translate : Bytes → NameTable → Option Bytes
unfolding any_same
translate name [] = none
translate name ((names, d) ∷ rows) = if any_same names name then some d else translate name rows

abbrev pub canon : NameTable
canon =
    (codes "int32_t" ∷ [], codes "int")
    ∷ (codes "uint32_t" ∷ [], codes "unsigned int")
    ∷ (codes "int64_t" ∷ [], codes "long")
    ∷ (codes "uint64_t" ∷ [], codes "unsigned long")
    ∷ (codes "int16_t" ∷ [], codes "short")
    ∷ (codes "uint16_t" ∷ [], codes "unsigned short")
    ∷ (codes "int8_t" ∷ [], codes "signed char")
    ∷ (codes "uint8_t" ∷ [], codes "unsigned char")
    ∷ (codes "size_t" ∷ [], codes "unsigned long")
    ∷ (codes "float32_t" ∷ [], codes "float")
    ∷ (codes "float64_t" ∷ [], codes "double")
    ∷ []

unfoldable pub canonicalize_type_name : Bytes → Bytes
unfolding translate
canonicalize_type_name name = elim (translate name canon) [ none ↦ name | some c ↦ c ]

abbrev pub basic_types : NameTable
basic_types =
    (codes "Int" ∷ codes "int" ∷ [], codes "int")
    ∷ (codes "Bool" ∷ codes "bool" ∷ [], codes "bool")
    ∷ (codes "Char" ∷ codes "char" ∷ [], codes "char")
    ∷ (codes "Float" ∷ codes "float" ∷ [], codes "float")
    ∷ (codes "Double" ∷ codes "double" ∷ [], codes "double")
    ∷ (codes "String" ∷ [], codes "std::string")
    ∷ (codes "Int8" ∷ codes "int8" ∷ [], codes "int8_t")
    ∷ (codes "Int16" ∷ codes "int16" ∷ [], codes "int16_t")
    ∷ (codes "Int32" ∷ codes "int32" ∷ [], codes "int32_t")
    ∷ (codes "Int64" ∷ codes "int64" ∷ [], codes "int64_t")
    ∷ []

-- A name that is neither an alias nor a basic type.
unfoldable pub foreign_name : List Bytes → Bytes
unfolding canonicalize_type_name
foreign_name [] = []
foreign_name (p ∷ []) = canonicalize_type_name p
foreign_name (p ∷ q ∷ ps) =
    let last = last_part (q ∷ ps) in
    let canonical = canonicalize_type_name last in
    if same canonical last then join_parts (p ∷ q ∷ ps) else canonical

module _ (symbols : SymbolTable) where
  unfoldable pub name_step : TypeNode → Step Bytes
  unfolding alias_of translate foreign_name
  name_step (type_node [] m v args) = answer []
  name_step (type_node (p ∷ ps) m v args) = follow_or (alias_of symbols (last_part (p ∷ ps))) (
      answer (elim (translate (last_part (p ∷ ps)) basic_types) [
        | some name ↦ name
        | none ↦ foreign_name (p ∷ ps)
      ]))

  unfoldable pub resolve_topo_type_name : ℕ → TypeNode → Option Bytes
  unfolding name_step
  resolve_topo_type_name zero n = none
  resolve_topo_type_name (suc fuel) n = after_step (name_step n) (resolve_topo_type_name fuel)

  -- The names of template arguments, with ", " between them.
  unfoldable pub join_args : ℕ → TypeNodes → Option Bytes
  unfolding resolve_topo_type_name
  join_args fuel no_types = some []
  join_args fuel (then_type t no_types) = resolve_topo_type_name fuel t
  join_args fuel (then_type t (then_type u us)) = do
    name ← resolve_topo_type_name fuel t
    rest ← join_args fuel (then_type u us)
    some (name ++ (codes ", " ++ rest))

-- What the loop of `normalizeTemplateArgs` is at: between tokens, at the spaces in front of one,
-- in one (whose characters stand in front), or at the spaces behind one.
pub data Scan : Type 0 where
  copying before_token after_token : Scan
  in_token : Bytes → Scan

abbrev pub opens_token : ℕ → Bool
opens_token c = c == b'<' || c == b','

abbrev pub ends_token : ℕ → Bool
ends_token c = (c == b',' || c == b'>') || (c == b'<' || c == b' ')

abbrev pub flush : Scan → Bytes
unfolding canonicalize_type_name
flush (in_token token) = canonicalize_type_name token
flush _ = []

abbrev pub next_scan : ℕ → Scan
next_scan c = if opens_token c then before_token else copying

-- The text from one character on, with what is written for it.
unfoldable pub normalize_from : Scan → Bytes → Bytes
unfolding flush
normalize_from s [] = flush s
normalize_from copying (c ∷ cs) = c ∷ normalize_from (next_scan c) cs
normalize_from before_token (c ∷ cs) =
    let skip = normalize_from before_token cs in
    let copy = c ∷ normalize_from (next_scan c) cs in
    let token = normalize_from (in_token (c ∷ [])) cs in
    if c == b' ' then skip else if ends_token c then copy else token
normalize_from (in_token t) (c ∷ cs) =
    let skip = normalize_from after_token cs in
    let copy = c ∷ normalize_from (next_scan c) cs in
    let token = normalize_from (in_token (t ++ c ∷ [])) cs in
    if c == b' '
    then flush (in_token t) ++ skip
    else if ends_token c
    then flush (in_token t) ++ copy
    else token
normalize_from after_token (c ∷ cs) =
    let skip = normalize_from after_token cs in
    let copy = c ∷ normalize_from (next_scan c) cs in if c == b' ' then skip else copy

unfoldable pub normalize_template_args : Bytes → Bytes
unfolding normalize_from
normalize_template_args name = normalize_from copying name
