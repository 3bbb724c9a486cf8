-- ===== src/SymbolMapper/Partition.antt =====
-- Every declared name is matched or reported as unmatched, and never both.
use topo_llvm.Prelude.{
  ◌≡◌, refl, ◌∙◌, sym, ap, inl, inr, true, false, Bool-cases, not, ◌||◌, Option, none, some, List,
  [], ◌∷◌, ◌++◌, if◌then◌else◌, Bytes, same, same_refl, same→eq, same_sym, All, arith, subst,
  is_some,
}
use topo_llvm.SymbolMapper.{
  IrFunction, VisibilityEntry, NameMap, SymbolMapping, Matching, find, store, contains_name,
  match_with, match_bindings, resolve, match_if_found, find_target, settle, match_entry,
  match_entries, empty_matching, map_symbols, build_demangled_map,
}

find-store :
    (x k v : Bytes) (m : NameMap) → find x (store k v m) ≡ (if same k x then some v else find x m)
unfolding find store
find-store x k v [] = refl
find-store x k v ((j, w) ∷ m) = elim (Bool-cases (same j k)) [
  | inl e ↦
      let j_is_k : same j x ≡ same k x = ap (λ y. same y x) (same→eq j k e) in
      ground (arith, j_is_k)
  | inr e ↦
      let apart : same j x ≡ true → same k x ≡ false =
        λ g. subst (λ y. same k y ≡ false) (same→eq j x g) (same_sym k j ∙ e) in
      ground (arith, find-store x k v m, apart)
]

contains_name-append :
    (x y : Bytes) (l : List Bytes) → contains_name x (l ++ y ∷ []) ≡ (contains_name x l || same x y)
unfolding contains_name
contains_name-append x y [] = ground arith
contains_name-append x y (z ∷ l) = ground (arith, contains_name-append x y l)

-- A name is matched or reported, and not both.
abbrev pub Done : Bytes → SymbolMapping → Type 0
Done x r = contains_name x r.unmatched_topo ≡ not (is_some (find x r.matched))

-- A name that is reported has no function.
abbrev Hopeless : NameMap → Matching → Type 0
Hopeless demangled s =
    (x : Bytes)
    → contains_name x s.mapping.unmatched_topo ≡ true
    → (find x s.mapping.matched ≡ none) × (resolve demangled x ≡ none)

-- What a step gives: it keeps the above, it settles its own name, and it unsettles no other.
abbrev Good : NameMap → Bytes → Matching → Matching → Type 0
Good demangled name s t =
    Hopeless demangled t × Done name t.mapping × ((x : Bytes) → Done x s.mapping → Done x t.mapping)

matched-Good :
    (demangled : NameMap) (name func : Bytes) (s : Matching)
    → Hopeless demangled s
    → find name s.mapping.matched ≡ some func
    → Good demangled name s s
matched-Good demangled name func s h e = (h, ground (arith, h name), (λ x d. d))

match_with-Good :
    (demangled : NameMap) (name func : Bytes) (s : Matching)
    → Hopeless demangled s
    → resolve demangled name ≡ some func
    → Good demangled name s (match_with name func s)
unfolding match_with
match_with-Good demangled name func s h e =
    let look = λ (x : Bytes). find-store x name func s.mapping.matched in
    let own = same_refl name in
    let renamed = λ (x : Bytes) (g : same name x ≡ true). same→eq name x g in
    (
      (λ x c. elim (Bool-cases (same name x)) [
        | inl g ↦
            let c' : contains_name name s.mapping.unmatched_topo ≡ true =
              subst (λ y. contains_name y s.mapping.unmatched_topo ≡ true) (sym (renamed x g)) c in
            absurd (ground (arith, h name c'))
        | inr g ↦ (ground (arith, look x, h x c), (h x c).1)
      ]),
      ground (arith, look name, own, h name),
      (λ x d. elim (Bool-cases (same name x)) [
        | inl g ↦
            subst (λ y. Done y (match_with name func s).mapping) (renamed x g)
              (ground (arith, look name, own, h name))
        | inr g ↦ ground (arith, look x)
      ]),
    )

unmatched-Good :
    (demangled : NameMap) (name : Bytes) (s t : Matching)
    → Hopeless demangled s
    → find name s.mapping.matched ≡ none
    → resolve demangled name ≡ none
    → t.mapping.matched ≡ s.mapping.matched
    → t.mapping.unmatched_topo ≡ s.mapping.unmatched_topo ++ name ∷ []
    → Good demangled name s t
unmatched-Good demangled name s t h e r em eu =
    let reports : (x : Bytes)
        → contains_name x t.mapping.unmatched_topo
          ≡ (contains_name x s.mapping.unmatched_topo || same x name) =
      λ x. ap (contains_name x) eu ∙ contains_name-append x name s.mapping.unmatched_topo in
    let look : (x : Bytes) → find x t.mapping.matched ≡ find x s.mapping.matched =
      λ x. ap (find x) em in
    let own = same_refl name in
    (
      (λ x c. elim (Bool-cases (same x name)) [
        | inl g ↦
            let x_is : name ≡ x = sym (same→eq x name g) in
            (
              look x ∙ subst (λ y. find y s.mapping.matched ≡ none) x_is e,
              subst (λ y. resolve demangled y ≡ none) x_is r,
            )
        | inr g ↦
            let c' : contains_name x s.mapping.unmatched_topo ≡ true = ground (arith, reports x) in
            (look x ∙ (h x c').0, (h x c').1)
      ]),
      ground (arith, reports name, look name, own),
      (λ x d. elim (Bool-cases (same x name)) [
        | inl g ↦
            let e' : find x s.mapping.matched ≡ none =
              subst (λ y. find y s.mapping.matched ≡ none) (sym (same→eq x name g)) e in
            ground (arith, reports x, look x)
        | inr g ↦ ground (arith, reports x, look x)
      ]),
    )

settle-Good :
    (demangled : NameMap) (name : Bytes) (old new : Option Bytes) (s : Matching)
    → Hopeless demangled s
    → find name s.mapping.matched ≡ old
    → resolve demangled name ≡ new
    → Good demangled name s (settle name old new s)
unfolding settle
settle-Good demangled name (some func) new s h e r = matched-Good demangled name func s h e
settle-Good demangled name none (some func) s h e r = match_with-Good demangled name func s h r
settle-Good demangled name none none s h e r =
    unmatched-Good demangled name s (settle name none none s) h e r refl refl

match_entry-Good :
    (demangled : NameMap) (name : Bytes) (s : Matching)
    → Hopeless demangled s
    → Good demangled name s (match_entry demangled name s)
unfolding match_entry
match_entry-Good demangled name s h =
    settle-Good demangled name (find name s.mapping.matched) (resolve demangled name) s h refl refl

match_entries-Hopeless :
    (demangled : NameMap) (es : List VisibilityEntry) (s : Matching)
    → Hopeless demangled s
    → (All (λ e. Done e.qualified_name (match_entries demangled es s).mapping) es)
      × ((x : Bytes) → Done x s.mapping → Done x (match_entries demangled es s).mapping)
unfolding match_entries
match_entries-Hopeless demangled [] s h = (tt, (λ x d. d))
match_entries-Hopeless demangled (e ∷ es) s h =
    let (h', own, keep) = match_entry-Good demangled e.qualified_name s h in
    let (all, later) =
      match_entries-Hopeless demangled es (match_entry demangled e.qualified_name s) h' in
    ((later e.qualified_name own, all), (λ x d. later x (keep x d)))

-- The first pass reports nothing.
match_if_found-silent :
    (name : Bytes) (o : Option Bytes) (s : Matching)
    → (match_if_found name o s).mapping.unmatched_topo ≡ s.mapping.unmatched_topo
unfolding match_if_found match_with
match_if_found-silent name none s = refl
match_if_found-silent name (some func) s = refl

match_bindings-silent :
    (demangled : NameMap) (es : List VisibilityEntry) (s : Matching)
    → (match_bindings demangled es s).mapping.unmatched_topo ≡ s.mapping.unmatched_topo
unfolding match_bindings
match_bindings-silent demangled [] s = refl
match_bindings-silent demangled (e ∷ es) s =
    match_bindings-silent demangled es _
    ∙ match_if_found-silent e.qualified_name (find_target demangled e.binding_target) s

silent-Hopeless :
    (demangled : NameMap) (s : Matching) → s.mapping.unmatched_topo ≡ [] → Hopeless demangled s
unfolding contains_name
silent-Hopeless demangled s e x c =
    let none_reported : contains_name x s.mapping.unmatched_topo ≡ false = ap (contains_name x) e in
    absurd (ground (arith, none_reported))

-- For every module, every demangler and every list of declared names, each declared name is
-- either matched to a function or reported as unmatched, and never both.
pub map_symbols_partitions :
    (demangle : Bytes → Bytes) (microsoft_demangle : Bytes → Option Bytes) (fs : List IrFunction)
    (entries : List VisibilityEntry)
    → All (λ e. Done e.qualified_name (map_symbols demangle microsoft_demangle fs entries)) entries
unfolding map_symbols
map_symbols_partitions demangle microsoft_demangle fs entries =
    let demangled = build_demangled_map demangle microsoft_demangle fs [] in
    let s = match_bindings demangled entries empty_matching in
    (match_entries-Hopeless demangled entries s
      (silent-Hopeless demangled s (match_bindings-silent demangled entries empty_matching))).0
