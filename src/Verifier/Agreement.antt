-- ===== src/Verifier/Agreement.antt =====
-- What it means that the checks of the declared functions and of a block's operations report nothing.
use topo_llvm.Prelude.{
  is_some, ◌≡◌, refl, sym, inl, inr, ◌↔◌, ◌∙◌, Bool, true, false, Bool-cases, not, ◌&&◌, ◌||◌,
  Option, List, [], ◌∷◌, ◌++◌, Bytes, same, arith, All, All-map, All-both, All-Among, subst, Among,
  same→eq, same_refl,
}
use topo_llvm.SymbolMapper.{
  SymbolMapping, IrFunction, VisibilityEntry, map_symbols, find, contains_name,
}
use topo_llvm.SymbolMapper.Partition.{Done, map_symbols_partitions}
use topo_llvm.Sema.{FunctionSymbol, LogicBlock, SymbolTable}
use topo_llvm.Verifier.Ir.{LlvmFunction, Finding, llvm_to_topo}
use topo_llvm.Verifier.Symbols.{
  is_expected, is_matched, is_collected, check_public_symbols_in, check_public_symbols,
}
use topo_llvm.Verifier.Blocks.{
  called_names, insert_names, absent_names, operation_names, compare_calls, not_called,
  not_declared,
}

-- The name of every function is the name of an entry.
abbrev pub Entered : List VisibilityEntry → List (Bytes × FunctionSymbol) → Type 0
Entered entries fs =
    All (λ f. (e : VisibilityEntry) × Among e entries × (e.qualified_name ≡ f.0)) fs

module _ (symbols : SymbolTable) (mapping : SymbolMapping) where
  check_public-lem :
      (fs : List (Bytes × FunctionSymbol))
      → (check_public_symbols_in symbols mapping fs ≡ [])
        ↔ All
            (λ f.
              is_expected symbols f.0 f.1 ≡ true
              → is_collected f.0 mapping ≡ true
              → is_matched f.0 mapping ≡ true)
            fs
  unfolding check_public_symbols_in
  check_public-lem [] = ((λ h. tt), (λ h. refl))
  check_public-lem ((name, f) ∷ fs) =
      let rest = check_public-lem fs in
      elim (Bool-cases (
        is_expected symbols name f
        && (is_collected name mapping && not (is_matched name mapping)))) [
          | inl e ↦ rw e ((λ h. absurd cc), (λ h. absurd (ground (arith, h.0))))
          | inr e ↦ rw e ((λ h. ((λ g k. ground arith), rest.0 h)), (λ h. rest.1 h.1))
        ]

  public_entered :
      (fs : List (Bytes × FunctionSymbol))
      → All (λ f. is_collected f.0 mapping ≡ true) fs
      → (check_public_symbols_in symbols mapping fs ≡ [])
        ↔ All (λ f. is_expected symbols f.0 f.1 ≡ true → is_matched f.0 mapping ≡ true) fs
  public_entered fs h =
      let checked = check_public-lem fs in
      (
        (λ e.
            All-both _ _ (λ f. is_expected symbols f.0 f.1 ≡ true → is_matched f.0 mapping ≡ true)
              fs (λ f g c x. g x c) (checked.0 e) h),
        (λ g. checked.1 (
            All-map (λ f. is_expected symbols f.0 f.1 ≡ true → is_matched f.0 mapping ≡ true) _ fs
              (λ f k x c. k x) g)),
      )

either_holds : (a b : Bool) → a ≡ not b → (b || a) ≡ true
either_holds a true h = refl
either_holds a false h = h

Done-collected :
    (name : Bytes) (mapping : SymbolMapping) → Done name mapping → is_collected name mapping ≡ true
Done-collected name mapping h =
    either_holds (contains_name name mapping.unmatched_topo) (is_matched name mapping) h

-- Where every declared function has an entry, `checkPublicSymbols` on the mapping that `mapSymbols` makes
-- reports nothing exactly if each function that is public, no template and no part of one is matched.
pub check_public_symbols-map_symbols :
    (demangle : Bytes → Bytes) (microsoft_demangle : Bytes → Option Bytes) (fs : List IrFunction)
    (entries : List VisibilityEntry) (symbols : SymbolTable)
    → Entered entries symbols.functions
    → (check_public_symbols symbols (map_symbols demangle microsoft_demangle fs entries) ≡ [])
      ↔ All
          (λ f.
            is_expected symbols f.0 f.1 ≡ true
            → is_some (find f.0 (map_symbols demangle microsoft_demangle fs entries).matched)
              ≡ true)
          symbols.functions
unfolding check_public_symbols
check_public_symbols-map_symbols demangle microsoft_demangle fs entries symbols h =
    let mapping = map_symbols demangle microsoft_demangle fs entries in
    public_entered symbols mapping symbols.functions (
      All-map _ (λ f. is_collected f.0 mapping ≡ true) symbols.functions
        (λ f e. Done-collected f.0 mapping (
          subst (λ name. Done name mapping) e.2
            (All-Among (λ d. Done d.qualified_name mapping) e.0 entries
              (map_symbols_partitions demangle microsoft_demangle fs entries) e.1)))
        h)

module _ (report : Bytes → Finding) (others : List Bytes) where
  absent_names-lem :
      (xs : List Bytes)
      → (absent_names report others xs ≡ [])
        ↔ ((x : Bytes) → contains_name x xs ≡ true → contains_name x others ≡ true)
  unfolding absent_names contains_name
  absent_names-lem [] = ((λ h x e. absurd cc), (λ h. refl))
  absent_names-lem (y ∷ ys) =
      let rest = absent_names-lem ys in
      elim (Bool-cases (contains_name y others)) [
        | inl e ↦ rw e (
          (λ h x c. elim (Bool-cases (same x y)) [
            | inl s ↦ subst (λ z. contains_name z others ≡ true) (sym (same→eq x y s)) e
            | inr s ↦ rest.0 h x (ground (arith, s))
          ]),
          (λ h. rest.1 (λ x c. h x (ground (arith, c)))),
        )
        | inr e ↦ rw e ((λ h. absurd cc), (λ h. absurd (ground (arith, h y, same_refl y))))
      ]

insert_names-contains :
    (x : Bytes) (ys : List Bytes) → contains_name x (insert_names ys) ≡ contains_name x ys
unfolding insert_names contains_name
insert_names-contains x [] = refl
insert_names-contains x (y ∷ ys) =
    let rest = insert_names-contains x ys in
    elim (Bool-cases (contains_name y (insert_names ys))) [
      | inl e ↦ elim (Bool-cases (same x y)) [
        | inl s ↦
            rw (e, s)
              (subst (λ z. contains_name z (insert_names ys) ≡ true) (sym (same→eq x y s)) e)
        | inr s ↦ rw (e, s) rest
      ]
      | inr e ↦ rw (e, rest) refl
    ]

nil_append : (xs ys : List Finding) → (xs ++ ys ≡ []) ↔ ((xs ≡ []) × (ys ≡ []))
nil_append [] ys = ((λ h. (refl, h)), (λ h. h.1))
nil_append (x ∷ xs) ys = ((λ h. absurd cc), (λ h. absurd cc))

-- Two Boolean tests that imply each other are equal.
pub bool_ext : (a b : Bool) → (a ≡ true → b ≡ true) → (b ≡ true → a ≡ true) → a ≡ b
bool_ext true b h g = sym (h refl)
bool_ext false true h g = g refl
bool_ext false false h g = refl

-- The comparison of a block's operations with the calls of a function reports nothing exactly if the two
-- lists of names agree.
pub compare_calls_iff :
    (mapping : SymbolMapping) (name : Bytes) (block : LogicBlock) (f : LlvmFunction)
    → (compare_calls mapping name block f ≡ []) ↔ (
        (x : Bytes)
        → contains_name x (called_names (llvm_to_topo mapping.matched) f.instructions)
          ≡ contains_name x (operation_names name block))
unfolding compare_calls
compare_calls_iff mapping name block f =
    let called = called_names (llvm_to_topo mapping.matched) f.instructions in
    let declared = operation_names name block in
    let inserted = λ (x : Bytes). insert_names-contains x declared in
    let missing = absent_names-lem (not_called name block) called (insert_names declared) in
    let extra = absent_names-lem (not_declared name block) (insert_names declared) called in
    (
      (λ h x.
          let (m, e) = (nil_append _ _).0 h in
          bool_ext (contains_name x called) (contains_name x declared)
            (λ c. sym (inserted x) ∙ extra.0 e x c) (λ c. missing.0 m x (inserted x ∙ c))),
      (λ h. (nil_append _ _).1 (
        missing.1 (λ x c. h x ∙ (sym (inserted x) ∙ c)),
        extra.1 (λ x c. inserted x ∙ (sym (h x) ∙ c)),
      )),
    )
