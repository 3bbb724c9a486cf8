-- ===== src/SymbolMapper/Tests.antt =====
-- The keys of a Rust method, and a mapping of two declared names.
use topo_llvm.Prelude.{◌≡◌, refl, false, none, some, List, [], ◌∷◌, codes, strip_prefix, All}
use topo_llvm.SymbolMapper.Keys.{rust_impl_candidates, self_keys, cut_at, before_first, last_split}
use topo_llvm.SymbolMapper.{VisibilityEntry, map_symbols}
use topo_llvm.SymbolMapper.Partition.{Done, map_symbols_partitions}

-- The trait is dropped, and the generic argument stays.
method_keys :
    rust_impl_candidates (codes "<c::Bag<i32> as Get>::get")
    ≡ codes "c::Bag<i32>::get" ∷ codes "Bag<i32>::get" ∷ []
unfolding rust_impl_candidates self_keys cut_at before_first last_split strip_prefix
method_keys = refl

abbrev declared : List VisibilityEntry
declared =
    record { qualified_name = codes "a::f"; binding_target = none }
    ∷ record { qualified_name = codes "a::g"; binding_target = some (codes "h") }
    ∷ []

map_symbols_partitions_example :
    All
      (λ e. Done e.qualified_name (
        map_symbols
          (λ s. s)
          (λ s. none)
          (record { name = codes "f"; is_declaration = false } ∷ [])
          declared))
      declared
map_symbols_partitions_example =
    map_symbols_partitions (λ s. s) (λ s. none)
      (record { name = codes "f"; is_declaration = false } ∷ []) declared
