-- ===== src/Arena/Tests.antt =====
-- Runs of the arena over a heap with rising addresses, and its theorems at such an arena.
use topo_llvm.Prelude.{
  ℕ, ◌+◌, ◌%◌, ◌≡◌, refl, ◌⊎◌, inl, suc, Option, some, none, List, [], ◌∷◌, arith, ◌≤◌, ◌<◌, leb,
  if◌then◌else◌, ◌^◌,
}
use topo_llvm.Arena.{
  Arena, alloc, alloc_in, alloc_new, add_block, place_new, arena_alloc, reset, free_later,
  arena_bytes_used, align_up, padding_of, max_align,
}
use topo_llvm.Arena.Interface.{Malloc, bump_heap}
use topo_llvm.Arena.Align.{IsAlignment, align_up_fits}
use topo_llvm.Arena.Regions.{Region, IsValid}
use topo_llvm.Arena.Alloc.{AllocResult, alloc-result}
use topo_llvm.Arena.Reset.{OldestStays, reset-IsValid, arena_alloc-result}

-- One block of 64 bytes at address 16, of which 5 are used, and held by a client.
abbrev small : Arena
small = record {
  blocks = record { data_ptr = 16; capacity = 64; used = 5 } ∷ [];
  default_block_size = 64;
}

abbrev first : Region
first = record { start = 16; size = 5 }

aligns_8 : IsAlignment 8
aligns_8 = record { exponent = 3; below_word = omega arith; is_power = refl }

small-IsValid : IsValid bump_heap 64 small.blocks (first ∷ [])
small-IsValid = record {
  blocks_ok = (
    record {
      nonnull = omega arith;
      fits = omega arith;
      nonempty = omega arith;
      filled = omega arith;
      live = omega arith;
    },
    tt,
  );
  separate = (tt, tt);
  inside = (omega arith, tt);
  apart = (tt, tt);
}

-- In the current block, in a new block, and beyond the guard.
three_pointers :
    ((alloc bump_heap small 64 24 8).pointer ≡ some 24)
    × ((alloc bump_heap small 64 100 8).pointer ≡ some 80)
    × ((alloc bump_heap small 64 18446744073709551610 8).pointer ≡ none)
unfolding alloc alloc_in alloc_new add_block place_new padding_of align_up
three_pointers = (refl, refl, refl)

align_up_fits_example :
    (align_up 21 8 % 8 ≡ 0) × (21 ≤ align_up 21 8) × (suc (align_up 21 8) ≤ 21 + 8)
align_up_fits_example = align_up_fits 21 8 aligns_8 (omega arith)

alloc-result_example :
    AllocResult bump_heap small 64 (first ∷ []) 24 8 (alloc bump_heap small 64 24 8)
alloc-result_example =
    alloc-result bump_heap small 64 (first ∷ []) 24 8 aligns_8 (omega arith) small-IsValid

-- The heap with a log of what was freed, newest first.
abbrev logged_malloc : ℕ × List ℕ → ℕ → Option (ℕ × (ℕ × List ℕ))
logged_malloc (h, log) n = if leb (h + 16 + n) (2 ^ 64) then some (h + 16, (h + n, log)) else none

logged_live : (h h' : ℕ × List ℕ) (n a : ℕ) → logged_malloc h n ≡ some (a, h') → a + n ≤ h'.0 + 16
logged_live h h' n a e = ground arith

logged_keeps :
    (h h' : ℕ × List ℕ) (n a b k : ℕ)
    → logged_malloc h n ≡ some (a, h')
    → b + k ≤ h.0 + 16
    → b + k ≤ h'.0 + 16
logged_keeps h h' n a b k e l = ground arith

logged_disjoint :
    (h h' : ℕ × List ℕ) (n a b k : ℕ)
    → logged_malloc h n ≡ some (a, h')
    → b + k ≤ h.0 + 16
    → (b + k ≤ a) ⊎ (a + n ≤ b)
logged_disjoint h h' n a b k e l = inl (ground arith)

logged_fits :
    (h h' : ℕ × List ℕ) (n a : ℕ) → logged_malloc h n ≡ some (a, h') → (0 < a) × (a + n ≤ 2 ^ 64)
logged_fits h h' n a e = ground arith

abbrev logged_heap : Malloc
logged_heap = record {
  Heap = ℕ × List ℕ;
  Live = λ h a n. a + n ≤ h.0 + 16;
  malloc = logged_malloc;
  free = λ h a. (h.0, a ∷ h.1);
  malloc_live = logged_live;
  malloc_keeps = logged_keeps;
  malloc_disjoint = logged_disjoint;
  malloc_fits = logged_fits;
  free_keeps = λ h a b k l ne. l;
}

-- Three blocks, the oldest at address 16.
abbrev grown : Arena
grown = record {
  blocks =
      record { data_ptr = 144; capacity = 64; used = 7 }
      ∷ record { data_ptr = 80; capacity = 64; used = 9 }
      ∷ record { data_ptr = 16; capacity = 64; used = 5 }
      ∷ [];
  default_block_size = 64;
}

grown-IsValid : IsValid logged_heap (192, []) grown.blocks []
grown-IsValid = record {
  blocks_ok = (
    record {
      nonnull = omega arith;
      fits = omega arith;
      nonempty = omega arith;
      filled = omega arith;
      live = omega arith;
    },
    (
      record {
        nonnull = omega arith;
        fits = omega arith;
        nonempty = omega arith;
        filled = omega arith;
        live = omega arith;
      },
      (
        record {
          nonnull = omega arith;
          fits = omega arith;
          nonempty = omega arith;
          filled = omega arith;
          live = omega arith;
        },
        tt,
      ),
    ),
  );
  separate = ground arith;
  inside = tt;
  apart = tt;
}

-- The block at 80 is freed, then the one at 144.
two_freed : (reset logged_heap grown (192, [])).1 ≡ (192, 144 ∷ 80 ∷ [])
unfolding reset free_later
two_freed = refl

reset-IsValid_example :
    let (a', h') = reset logged_heap grown (192, []) in
    OldestStays logged_heap grown.blocks (192, []) a'.blocks h'
    × IsValid logged_heap h' a'.blocks []
    × (arena_bytes_used (some a') ≡ 0)
reset-IsValid_example = reset-IsValid logged_heap grown (192, []) [] grown-IsValid

zero_changes_nothing : arena_alloc bump_heap (some small) 64 0 8 ≡ (none, (some small, 64))
unfolding arena_alloc
zero_changes_nothing = refl

arena_alloc-result_example :
    let r = alloc bump_heap small 64 24 max_align in
    ((◌≡◌ {A = ℕ} 24 0) × (arena_alloc bump_heap (some small) 64 24 0 ≡ (none, (some small, 64))))
    ⊎ ((0 < 24)
        × (arena_alloc bump_heap (some small) 64 24 0 ≡ (r.pointer, (some r.arena, r.heap)))
        × AllocResult bump_heap small 64 (first ∷ []) 24 max_align r)
arena_alloc-result_example =
    arena_alloc-result bump_heap small 64 (first ∷ []) 24 0 (inl refl) small-IsValid
