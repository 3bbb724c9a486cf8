-- ===== src/SymbolMapper.antt =====
-- lib/Backend/SymbolMapper.cpp: the keys under which the functions of a module are found, and the
-- matching of declared names to functions. `llvm::demangle` and `llvm::microsoftDemangle` are
-- parameters. A function is known by its mangled name, which is unique in a module. A map is a list
-- of its entries in the order of its iteration.
pub mod Keys
pub mod Partition
pub mod Tests
use topo_llvm.Prelude.{
  ℕ, zero, suc, ◌-◌, Bool, true, false, ◌&&◌, ◌||◌, Option, none, some, List, [], ◌∷◌, ◌++◌, length,
  ◌==◌, ltb, if◌then◌else◌, Bytes, codes, same,
}
use topo_llvm.SymbolMapper.Keys.{
  rust_impl_candidates, demangle_to_qualified, should_skip, last_split,
}

pub record IrFunction : Type 0 where
  pub name : Bytes
  pub is_declaration : Bool

pub record VisibilityEntry : Type 0 where
  pub qualified_name : Bytes
  pub binding_target : Option Bytes

abbrev pub NameMap : Type 0
NameMap = List (Bytes × Bytes)

unfoldable pub find : Bytes → NameMap → Option Bytes
find key [] = none
find key ((k, v) ∷ m) = if same k key then some v else find key m

-- `m[key] = v`
unfoldable pub store : Bytes → Bytes → NameMap → NameMap
store key v [] = (key, v) ∷ []
store key v ((k, w) ∷ m) = if same k key then (k, v) ∷ m else (k, w) ∷ store key v m

unfoldable pub emplace : Bytes → Bytes → NameMap → NameMap
unfolding find
emplace key v m = elim (find key m) [ none ↦ m ++ (key, v) ∷ [] | some w ↦ m ]

unfoldable pub emplace_all : List Bytes → Bytes → NameMap → NameMap
unfolding emplace
emplace_all [] v m = m
emplace_all (k ∷ ks) v m = emplace_all ks v (emplace k v m)

unfoldable pub contains_name : Bytes → List Bytes → Bool
contains_name x [] = false
contains_name x (y ∷ ys) = if same x y then true else contains_name x ys

pub record SymbolMapping : Type 0 where
  pub matched : NameMap
  pub unmatched_topo : List Bytes
  pub unmatched_ir : List Bytes

-- The mapping while it is made, with `matchedFuncs`.
pub record Matching : Type 0 where
  pub mapping : SymbolMapping
  pub matched_funcs : List Bytes

abbrev pub empty_matching : Matching
empty_matching = record {
  mapping = record { matched = []; unmatched_topo = []; unmatched_ir = [] };
  matched_funcs = [];
}

unfoldable pub match_with : Bytes → Bytes → Matching → Matching
unfolding store
match_with name func s = record s {
  mapping = record s.mapping { matched = store name func s.mapping.matched };
  matched_funcs = func ∷ s.matched_funcs;
}

unfoldable pub match_if_found : Bytes → Option Bytes → Matching → Matching
unfolding match_with
match_if_found name none s = s
match_if_found name (some func) s = match_with name func s

unfoldable pub find_target : NameMap → Option Bytes → Option Bytes
unfolding find
find_target demangled none = none
find_target demangled (some target) = find target demangled

-- The first pass: entries with an explicit target.
unfoldable pub match_bindings : NameMap → List VisibilityEntry → Matching → Matching
unfolding match_if_found find_target
match_bindings demangled [] s = s
match_bindings demangled (e ∷ es) s =
    match_bindings demangled es
      (match_if_found e.qualified_name (find_target demangled e.binding_target) s)

unfoldable pub drop : ℕ → Bytes → Bytes
drop zero s = s
drop (suc n) [] = []
drop (suc n) (c ∷ s) = drop n s

unfoldable pub ends_with : Bytes → Bytes → Bool
unfolding drop
ends_with suffix s =
    ltb (length suffix) (length s) && same (drop (length s - length suffix) s) suffix

-- The function with the shortest name that ends with the suffix, the first of them in the order
-- of the iteration; `best` is the one so far.
unfoldable pub best_suffix : Bytes → NameMap → Option (Bytes × Bytes) → Option (Bytes × Bytes)
unfolding ends_with
best_suffix suffix [] best = best
best_suffix suffix ((ir_name, func) ∷ m) best =
    let better : Bool = elim best [
      | none ↦ true
      | some (best_name, f) ↦ ltb (length ir_name) (length best_name)
    ] in
    best_suffix suffix m (if ends_with suffix ir_name && better then some (ir_name, func) else best)

-- The direct lookup, the suffix and the simple name, in this order.
unfoldable pub resolve : NameMap → Bytes → Option Bytes
unfolding find best_suffix
resolve demangled name = elim (find name demangled) [
  | some func ↦ some func
  | none ↦ elim (best_suffix (codes "::" ++ name) demangled none) [
    | some (ir_name, func) ↦ some func
    | none ↦ elim (last_split (codes "::") name) [
      | none ↦ none
      | some (scope, simple) ↦ find simple demangled
    ]
  ]
]

-- A name that the first pass matched stays; another is matched if it resolves, or reported.
unfoldable pub settle : Bytes → Option Bytes → Option Bytes → Matching → Matching
unfolding match_with
settle name (some old) func s = s
settle name none (some func) s = match_with name func s
settle name none none s = record s {
  mapping = record s.mapping { unmatched_topo = s.mapping.unmatched_topo ++ name ∷ [] };
}

-- What the second pass does with one entry.
unfoldable pub match_entry : NameMap → Bytes → Matching → Matching
unfolding resolve settle find
match_entry demangled name s = settle name (find name s.mapping.matched) (resolve demangled name) s

unfoldable pub match_entries : NameMap → List VisibilityEntry → Matching → Matching
unfolding match_entry
match_entries demangled [] s = s
match_entries demangled (e ∷ es) s =
    match_entries demangled es (match_entry demangled e.qualified_name s)

module _ (demangle : Bytes → Bytes) (microsoft_demangle : Bytes → Option Bytes) where
  -- The key of a function: its demangled name, or its raw name.
  unfoldable pub primary_key : Bytes → Bytes
  unfolding demangle_to_qualified
  primary_key name = elim (demangle_to_qualified demangle microsoft_demangle name) [
    | [] ↦ name
    | c ∷ s ↦ c ∷ s
  ]

  unfoldable pub register : IrFunction → NameMap → NameMap
  unfolding should_skip primary_key store emplace_all rust_impl_candidates
  register func m =
      if should_skip func.name func.is_declaration
      then m
      else emplace_all (rust_impl_candidates (primary_key func.name)) func.name
          (store (primary_key func.name) func.name m)

  unfoldable pub build_demangled_map : List IrFunction → NameMap → NameMap
  unfolding register
  build_demangled_map [] m = m
  build_demangled_map (f ∷ fs) m = build_demangled_map fs (register f m)

  -- The functions that no entry matched, each reported under its own key.
  unfoldable pub unmatched_functions : NameMap → List Bytes → List IrFunction → List Bytes
  unfolding should_skip primary_key find contains_name
  unmatched_functions demangled matched_funcs [] = []
  unmatched_functions demangled matched_funcs (f ∷ fs) =
      let rest = unmatched_functions demangled matched_funcs fs in
      let own : Bool = elim (find (primary_key f.name) demangled) [
        | none ↦ false
        | some g ↦ same g f.name
      ] in
      if should_skip f.name f.is_declaration
      then rest
      else if contains_name f.name matched_funcs
      then rest
      else if own
      then primary_key f.name ∷ rest
      else rest

  unfoldable pub map_symbols : List IrFunction → List VisibilityEntry → SymbolMapping
  unfolding build_demangled_map match_bindings match_entries unmatched_functions
  map_symbols fs entries =
      let demangled = build_demangled_map fs [] in
      let s = match_entries demangled entries (match_bindings demangled entries empty_matching) in
      record s.mapping { unmatched_ir = unmatched_functions demangled s.matched_funcs fs }

-- `SymbolMapping::rebind`, with the names of the target module's functions.
unfoldable pub rebind_matched : List Bytes → NameMap → NameMap
unfolding contains_name
rebind_matched target [] = []
rebind_matched target ((name, func) ∷ m) =
    let rest = rebind_matched target m in
    if contains_name func target then (name, func) ∷ rest else rest

unfoldable pub rebind : List Bytes → SymbolMapping → SymbolMapping
unfolding rebind_matched
rebind target r = record r { matched = rebind_matched target r.matched }
