-- ===== src/Verifier/Types.antt =====
-- Types of the declarations against LLVM types. `TypeRegistry::classifyAbstractName` and
-- `TypeNode::toString` are in another repository: the parameters `classify` and `to_string`.
-- Following an alias has fuel; `none` means that the fuel ran out, where the program would recur
-- without end.
use topo_llvm.Prelude.{
  is_some, ℕ, zero, suc, Bool, true, false, ◌||◌, Option, none, some, List, [], ◌∷◌, ◌++◌, ◌==◌,
  if◌then◌else◌, Bytes, codes, same,
}
use topo_llvm.SymbolMapper.Keys.{any_same}
use topo_llvm.SymbolMapper.{ends_with}
use topo_llvm.Sema.{
  Modifier, plain, ref, ptr, TypeNode, type_node, TypeNodes, no_types, then_type, SymbolTable,
  find_entry,
}

pub data LlvmType : Type 0 where
  void_type : LlvmType
  integer_type : ℕ → LlvmType
  float_type : LlvmType
  double_type : LlvmType
  other_floating : LlvmType
  pointer_type : LlvmType
  struct_type : LlvmType
  other_type : LlvmType

abbrev pub is_void : LlvmType → Bool
is_void void_type = true
is_void _ = false

abbrev pub is_integer : LlvmType → Bool
is_integer (integer_type w) = true
is_integer _ = false

abbrev pub is_integer_of : ℕ → LlvmType → Bool
is_integer_of w (integer_type v) = v == w
is_integer_of w _ = false

abbrev pub is_float : LlvmType → Bool
is_float float_type = true
is_float _ = false

abbrev pub is_double : LlvmType → Bool
is_double double_type = true
is_double _ = false

abbrev pub is_floating_point : LlvmType → Bool
is_floating_point float_type = true
is_floating_point double_type = true
is_floating_point other_floating = true
is_floating_point _ = false

abbrev pub is_pointer : LlvmType → Bool
is_pointer pointer_type = true
is_pointer _ = false

abbrev pub is_struct : LlvmType → Bool
is_struct struct_type = true
is_struct _ = false

-- The kinds of `LogicalTypeKind` that the program tells apart.
pub data LogicalTypeKind : Type 0 where
  integer unsigned_integer floating boolean text other_kind : LogicalTypeKind

abbrev pub kind_matches : LogicalTypeKind → LlvmType → Bool
kind_matches integer t = is_integer t
kind_matches unsigned_integer t = is_integer t
kind_matches floating t = is_floating_point t
kind_matches boolean t = is_integer_of 1 t
kind_matches text t = is_pointer t || is_struct t
kind_matches other_kind t = true

-- `nameParts.back()`, the empty text where there is no part.
abbrev pub last_part : List Bytes → Bytes
last_part [] = []
last_part (p ∷ []) = p
last_part (p ∷ q ∷ ps) = last_part (q ∷ ps)

abbrev pub is_single : Bytes → List Bytes → Bool
is_single name [] = false
is_single name (p ∷ []) = same p name
is_single name (p ∷ q ∷ ps) = false

abbrev pub is_ref_or_ptr : Modifier → Bool
is_ref_or_ptr plain = false
is_ref_or_ptr ref = true
is_ref_or_ptr ptr = true

abbrev pub no_parts : List Bytes → Bool
no_parts [] = true
no_parts (p ∷ ps) = false

abbrev pub join_parts : List Bytes → Bytes
join_parts [] = []
join_parts (p ∷ []) = p
join_parts (p ∷ q ∷ ps) = p ++ (codes "::" ++ join_parts (q ∷ ps))

-- The parts behind what is there, which gets no separator while it is empty.
abbrev pub join_onto : Bytes → List Bytes → Bytes
join_onto done [] = done
join_onto [] (p ∷ ps) = join_onto p ps
join_onto (c ∷ done) (p ∷ ps) = join_onto ((c ∷ done) ++ (codes "::" ++ p)) ps

-- The tests of the built-in names; `none` where the name is none of them.
unfoldable pub builtin_matches : Bytes → LlvmType → Option Bool
unfolding any_same
builtin_matches name t =
    if any_same (codes "bool" ∷ codes "Bool" ∷ []) name
    then some (is_integer_of 1 t)
    else if any_same
        (codes "char" ∷ codes "Char" ∷ codes "int8" ∷ codes "Int8" ∷ codes "i8" ∷ codes "u8" ∷ [])
        name
    then some (is_integer_of 8 t)
    else if any_same
        (codes "short" ∷ codes "int16" ∷ codes "Int16" ∷ codes "i16" ∷ codes "u16" ∷ []) name
    then some (is_integer_of 16 t)
    else if any_same
        (codes "int" ∷ codes "Int" ∷ codes "int32" ∷ codes "Int32" ∷ codes "i32" ∷ codes "u32" ∷ [])
        name
    then some (is_integer_of 32 t)
    else if any_same (codes "long" ∷ codes "Int64" ∷ codes "int64" ∷ codes "i64" ∷ codes "u64" ∷ [])
        name
    then some (is_integer_of 64 t)
    else if any_same (codes "isize" ∷ codes "usize" ∷ []) name
    then some (is_integer_of 64 t || is_integer_of 32 t)
    else if any_same (codes "float" ∷ codes "Float" ∷ codes "f32" ∷ []) name
    then some (is_float t)
    else if any_same (codes "double" ∷ codes "Double" ∷ codes "f64" ∷ []) name
    then some (is_double t)
    else none

-- A class whose name is the given one, or ends with it after "::".
unfoldable pub any_class {ℓ} : {V : Type ℓ} → Bytes → List (Bytes × V) → Bool
unfolding ends_with
any_class name [] = false
any_class name ((k, v) ∷ m) = (same k name || ends_with (codes "::" ++ name) k) || any_class name m

-- A question on a type is answered, or passed on to another type.
pub data Step {ℓ} (A : Type ℓ) : Type ℓ where
  answer : A → Step A
  follow : TypeNode → Step A

abbrev pub follow_or {ℓ} : {A : Type ℓ} → Option TypeNode → Step A → Step A
follow_or none s = s
follow_or (some target) s = follow target

abbrev pub after_step {ℓ} : {A : Type ℓ} → Step A → (TypeNode → Option A) → Option A
after_step (answer a) ask = some a
after_step (follow target) ask = ask target

-- The alias to follow: one that does not end in its own name.
unfoldable pub alias_of : SymbolTable → Bytes → Option TypeNode
alias_of symbols name = elim (find_entry name symbols.type_aliases) [
  | none ↦ none
  | some (type_node parts m v args) ↦
      if same (last_part parts) name then none else some (type_node parts m v args)
]

abbrev pub last_type : TypeNode → TypeNodes → TypeNode
last_type t no_types = t
last_type t (then_type u us) = last_type u us

-- The type inside `lifetime<scope, T>`, if this is one.
unfoldable pub lifetime_inner : TypeNode → Option TypeNode
lifetime_inner (type_node parts m v no_types) = none
lifetime_inner (type_node parts m v (then_type t ts)) =
    if is_single (codes "lifetime") parts then some (last_type t ts) else none

module _ (symbols : SymbolTable) (classify : Bytes → Option LogicalTypeKind) where
  -- What `typesMatch` answers once aliases are followed.
  unfoldable pub plain_match : List Bytes → LlvmType → Bool
  unfolding builtin_matches any_class
  plain_match parts t =
      let name = last_part parts in
      elim (classify name) [
        | some kind ↦ kind_matches kind t
        | none ↦ elim (builtin_matches name t) [
          | some matches ↦ matches
          | none ↦
              (is_struct t || is_pointer t)
              || (is_some (find_entry (join_onto [] parts) symbols.class_symbols)
                  || any_class name symbols.class_symbols)
        ]
      ]

  unfoldable pub match_step : LlvmType → TypeNode → Step Bool
  unfolding plain_match alias_of lifetime_inner
  match_step t (type_node parts m v args) =
      if no_parts parts || is_single (codes "void") parts
      then answer (is_void t)
      else follow_or (lifetime_inner (type_node parts m v args)) (
          if is_ref_or_ptr m
          then answer (is_pointer t)
          else follow_or (alias_of symbols (last_part parts)) (answer (plain_match parts t)))

  unfoldable pub types_match : ℕ → LlvmType → TypeNode → Option Bool
  unfolding match_step
  types_match zero t n = none
  types_match (suc fuel) t n = after_step (match_step t n) (types_match fuel t)
