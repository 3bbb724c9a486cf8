-- ===== src/SymbolMapper/Keys.antt =====
-- The keys of a function: its demangled name, and for methods of Rust types two more.
use topo_llvm.Prelude.{
  ℕ, Bool, true, false, ◌&&◌, ◌||◌, Option, none, some, List, [], ◌∷◌, ◌++◌, length, ◌==◌, ltb, leb,
  if◌then◌else◌, Bytes, codes, same, strip_prefix,
}

-- What stands before and after the last occurrence of a text that is not empty.
unfoldable pub last_split : Bytes → Bytes → Option (Bytes × Bytes)
last_split sep [] = none
last_split sep (c ∷ s) =
    let later = last_split sep s in
    let here : Option (Bytes × Bytes) = elim (strip_prefix sep (c ∷ s)) [
      | none ↦ none
      | some rest ↦ some ([], rest)
    ] in
    elim later [ none ↦ here | some (before, after) ↦ some (c ∷ before, after) ]

-- What stands before the first occurrence of a text that is not empty, if there is one.
unfoldable pub before_first : Bytes → Bytes → Option Bytes
before_first sep [] = none
before_first sep (c ∷ s) =
    let later = before_first sep s in
    elim (strip_prefix sep (c ∷ s)) [
      | some rest ↦ some []
      | none ↦ elim later [ none ↦ none | some before ↦ some (c ∷ before) ]
    ]

-- The text up to a separator, all of it if the separator is not there.
unfoldable pub cut_at : Bytes → Bytes → Bytes
unfolding before_first
cut_at sep s = elim (before_first sep s) [ none ↦ s | some before ↦ before ]

abbrev pub is_empty : Bytes → Bool
is_empty [] = true
is_empty (c ∷ s) = false

-- The keys of a method of the type `self`, already freed of its trait.
unfoldable pub self_keys : Bytes → Bytes → List Bytes
unfolding last_split
self_keys self method =
    let full = self ++ (codes "::" ++ method) in
    if is_empty self then [] else elim (last_split (codes "::") self) [
      | none ↦ full ∷ []
      | some (scope, type_name) ↦ full ∷ (type_name ++ (codes "::" ++ method)) ∷ []
    ]

unfoldable pub rust_impl_candidates : Bytes → List Bytes
unfolding self_keys cut_at last_split
rust_impl_candidates [] = []
rust_impl_candidates (c ∷ s) =
    if ltb (length (c ∷ s)) 4 || (if c == b'<' then false else true)
    then []
    else elim (last_split (codes ">::") s) [
      | none ↦ []
      | some (self, method) ↦
          if is_empty self || is_empty method
          then []
          else self_keys (cut_at (codes " as ") self) method
    ]

-- Without the spaces at the end.
unfoldable pub trim_end : Bytes → Bytes
trim_end [] = []
trim_end (c ∷ s) = let rest = trim_end s in if c == 0x20 && is_empty rest then [] else c ∷ rest

unfoldable pub is_xdigit : ℕ → Bool
is_xdigit c =
    (leb b'0' c && leb c b'9') || ((leb b'a' c && leb c b'f') || (leb b'A' c && leb c b'F'))

unfoldable pub all_xdigits : Bytes → Bool
unfolding is_xdigit
all_xdigits [] = true
all_xdigits (c ∷ s) = is_xdigit c && all_xdigits s

-- `isalpha`, in the C locale, or an underscore.
unfoldable pub begins_name : Bytes → Bool
begins_name [] = false
begins_name (c ∷ s) = (leb b'a' c && leb c b'z') || ((leb b'A' c && leb c b'Z') || c == b'_')

unfoldable pub strip_rust_hash : Bytes → Bytes
unfolding last_split all_xdigits
strip_rust_hash s = elim (last_split (codes "::h") s) [
  | none ↦ s
  | some (before, suffix) ↦ if is_empty suffix then s else if all_xdigits suffix then before else s
]

-- The name that `microsoftDemangle` gave, without parameters and a trailing " const".
unfoldable pub clean_msvc : Bytes → Bytes
unfolding cut_at trim_end last_split
clean_msvc s =
    let name = cut_at (codes "(") s in
    elim (last_split (codes " const") name) [
      | none ↦ trim_end name
      | some (before, after) ↦
          if is_empty after && (if is_empty before then false else true)
          then trim_end before
          else trim_end name
    ]

-- A return type in front of the last space is dropped.
unfoldable pub strip_return_type : Bytes → Bytes
unfolding last_split before_first begins_name
strip_return_type s = elim (last_split (codes " ") s) [
  | none ↦ s
  | some (before, candidate) ↦ elim (before_first (codes "::") before) [
    | some x ↦ s
    | none ↦ elim (before_first (codes "<") before) [
      | some x ↦ s
      | none ↦ if begins_name candidate then candidate else s
    ]
  ]
]

unfoldable pub starts_with : Bytes → Bytes → Bool
starts_with prefix s = elim (strip_prefix prefix s) [ none ↦ false | some rest ↦ true ]

-- `demangleToQualified`; `microsoft_demangle` gives nothing where LLVM's call fails.
unfoldable pub demangle_to_qualified : (Bytes → Bytes) → (Bytes → Option Bytes) → Bytes → Bytes
unfolding cut_at trim_end strip_rust_hash clean_msvc strip_return_type starts_with
demangle_to_qualified demangle microsoft_demangle mangled =
    let demangled = trim_end (cut_at (codes "(") (demangle mangled)) in
    if same (demangle mangled) mangled
    then []
    else if starts_with (codes "_R") mangled
    then strip_rust_hash demangled
    else if starts_with (codes "?") mangled
    then elim (microsoft_demangle mangled) [
      | none ↦ strip_return_type demangled
      | some s ↦ clean_msvc s
    ]
    else strip_return_type demangled

unfoldable pub any_prefix : List Bytes → Bytes → Bool
unfolding starts_with
any_prefix [] s = false
any_prefix (p ∷ ps) s = starts_with p s || any_prefix ps s

unfoldable pub any_same : List Bytes → Bytes → Bool
any_same [] s = false
any_same (p ∷ ps) s = same s p || any_same ps s

abbrev pub skipped_prefixes : List Bytes
skipped_prefixes =
    codes "llvm."
    ∷ codes "__cxa_"
    ∷ codes "__gxx_"
    ∷ codes "_Unwind_"
    ∷ codes "__local_stdio"
    ∷ codes "_vfprintf"
    ∷ codes "__acrt_"
    ∷ codes "__std_"
    ∷ codes "_RN4core"
    ∷ codes "_RN3std"
    ∷ codes "_RN5alloc"
    ∷ codes "_RNvNtN4core"
    ∷ codes "_RNvNtN3std"
    ∷ codes "_RNvNtN5alloc"
    ∷ []

abbrev pub skipped_names : List Bytes
skipped_names =
    codes "rust_begin_unwind"
    ∷ codes "rust_panic"
    ∷ codes "__rust_alloc"
    ∷ codes "__rust_dealloc"
    ∷ codes "__rust_realloc"
    ∷ codes "__rust_alloc_zeroed"
    ∷ codes "printf"
    ∷ codes "_printf"
    ∷ codes "puts"
    ∷ codes "main"
    ∷ codes "_main"
    ∷ codes "mainCRTStartup"
    ∷ []

-- Run-time support, C library functions, main and declarations.
unfoldable pub should_skip : Bytes → Bool → Bool
unfolding any_prefix any_same
should_skip name is_declaration =
    any_prefix skipped_prefixes name || (any_same skipped_names name || is_declaration)
