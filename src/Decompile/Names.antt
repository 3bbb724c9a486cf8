-- ===== src/Decompile/Names.antt =====
-- Names of visibilities, of sections and of LLVM's structures.
use topo_llvm.Prelude.{
  Bool, true, ◌&&◌, none, some, List, [], ◌∷◌, if◌then◌else◌, leb, Bytes, codes, strip_prefix,
}
use topo_llvm.SymbolMapper.Keys.{last_split, any_same, is_empty}
use topo_llvm.Sema.{Visibility}

abbrev pub visibility_to_access_modifier : Visibility → Bytes
visibility_to_access_modifier Visibility.public = codes "public"
visibility_to_access_modifier Visibility.protected = codes "protected"
visibility_to_access_modifier Visibility.private = codes "private"
visibility_to_access_modifier Visibility.internal = []
visibility_to_access_modifier Visibility.ignore = []

unfoldable pub is_topo_ir_section : Bytes → Bool
unfolding any_same
is_topo_ir_section name =
    any_same
      (codes ".topo_ir" ∷ codes ".topo_ir$" ∷ codes "__DATA,__topo_ir" ∷ codes "__topo_ir" ∷ [])
      name

-- The text without the first of the prefixes that it begins with.
unfoldable pub strip_first_prefix : List Bytes → Bytes → Bytes
unfolding strip_prefix
strip_first_prefix [] s = s
strip_first_prefix (p ∷ ps) s = elim (strip_prefix p s) [
  | some rest ↦ rest
  | none ↦ strip_first_prefix ps s
]

abbrev pub all_digits : Bytes → Bool
all_digits [] = true
all_digits (c ∷ s) = (leb b'0' c && leb c b'9') && all_digits s

unfoldable pub strip_unique_suffix : Bytes → Bytes
unfolding last_split
strip_unique_suffix s = elim (last_split (codes ".") s) [
  | none ↦ s
  | some (before, suffix) ↦ if is_empty suffix then s else if all_digits suffix then before else s
]

unfoldable pub strip_struct_name : Bytes → Bytes
unfolding strip_first_prefix strip_unique_suffix
strip_struct_name raw =
    strip_unique_suffix
      (strip_first_prefix (codes "class." ∷ codes "struct." ∷ codes "union." ∷ []) raw)
