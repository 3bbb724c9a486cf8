-- ===== src/Arena.antt =====
-- runtime/topo_arena.cpp: a bump allocator over blocks from `malloc`.
-- Addresses and sizes are `size_t` values of a 64-bit target, with the wrap-around written out.
-- The vector of blocks is a list, newest first, so that `blocks.back()` is its head.
-- Not modelled: `std::bad_alloc` from the vector's own storage.
pub mod Interface
pub mod Align
pub mod Fit
pub mod Regions
pub mod Alloc
pub mod Reset
pub mod Tests
use topo_llvm.Prelude.{
  ℕ, ◌+◌, ◌-◌, ◌%◌, ◌^◌, bit_and, Option, none, some, List, [], ◌∷◌, ltb, leb, ◌==◌, if◌then◌else◌,
}
use topo_llvm.Arena.Interface.{Malloc}

abbrev pub word_size : ℕ
word_size = 2 ^ 64

abbrev pub size_max : ℕ
size_max = 2 ^ 64 - 1

-- `alignof(std::max_align_t)` of the 64-bit targets.
abbrev pub max_align : ℕ
max_align = 16

abbrev pub default_capacity : ℕ
default_capacity = 4096

pub record Block : Type 0 where
  pub data_ptr : ℕ
  pub capacity : ℕ
  pub used : ℕ

pub record Arena : Type 0 where
  pub blocks : List Block
  pub default_block_size : ℕ

-- `(addr + alignment - 1) & ~(alignment - 1)`.
unfoldable pub align_up : ℕ → ℕ → ℕ
align_up addr alignment =
    bit_and ((addr + alignment + size_max) % word_size)
      (size_max - (alignment + size_max) % word_size)

-- `aligned - addr`.
unfoldable pub padding_of : ℕ → ℕ → ℕ
padding_of addr alignment = (align_up addr alignment + word_size - addr) % word_size

unfoldable pub total_used : List Block → ℕ
total_used [] = 0
total_used (b ∷ bs) = (total_used bs + b.used) % word_size

unfoldable pub total_capacity : List Block → ℕ
total_capacity [] = 0
total_capacity (b ∷ bs) = (total_capacity bs + b.capacity) % word_size

-- `resize(1)` and `blocks[0].used = 0`.
unfoldable pub keep_first : List Block → List Block
keep_first [] = []
keep_first (b ∷ []) = record b { used = 0 } ∷ []
keep_first (b ∷ c ∷ bs) = keep_first (c ∷ bs)

module _ (m : Malloc) where
  open m use {Heap, malloc, free}

  -- The arena, the heap behind it, and the pointer that is returned.
  pub record Outcome : Type 0 where
    pub pointer : Option ℕ
    pub arena : Arena
    pub heap : Heap

  -- `addBlock`: false leaves the blocks as they were.
  unfoldable pub add_block : Arena → ℕ → Heap → Option (Arena × Heap)
  add_block a min_size h =
      let cap = if ltb a.default_block_size min_size then min_size else a.default_block_size in
      elim (malloc h cap) [
        | none ↦ none
        | some (p, h') ↦
            some (
              record a { blocks = record { data_ptr = p; capacity = cap; used = 0 } ∷ a.blocks },
              h',
            )
      ]

  -- The bytes taken from a new block.
  unfoldable pub place_new : List Block → Arena → Heap → ℕ → ℕ → Outcome
  place_new [] a h size alignment = record { pointer = none; arena = a; heap = h }
  place_new (b ∷ bs) a h size alignment =
      let need = (padding_of b.data_ptr alignment + size) % word_size in
      if ltb b.capacity need then record { pointer = none; arena = a; heap = h } else record {
        pointer = some (align_up b.data_ptr alignment);
        arena = record a { blocks = record b { used = need } ∷ bs };
        heap = h;
      }

  unfoldable pub alloc_new : Arena → Heap → ℕ → ℕ → Outcome
  alloc_new a h size alignment = elim (add_block a ((size + alignment) % word_size) h) [
    | none ↦ record { pointer = none; arena = a; heap = h }
    | some (a', h') ↦ place_new a'.blocks a' h' size alignment
  ]

  unfoldable pub alloc_in : List Block → Arena → Heap → ℕ → ℕ → Outcome
  alloc_in [] a h size alignment = record { pointer = none; arena = a; heap = h }
  alloc_in (b ∷ bs) a h size alignment =
      let addr = (b.data_ptr + b.used) % word_size in
      let need = (padding_of addr alignment + size) % word_size in
      if ltb (size_max - alignment) size
      then record { pointer = none; arena = a; heap = h }
      else if leb need ((b.capacity + word_size - b.used) % word_size)
      then record {
        pointer = some (align_up addr alignment);
        arena = record a { blocks = record b { used = (b.used + need) % word_size } ∷ bs };
        heap = h;
      }
      else alloc_new a h size alignment

  -- `topo_arena::alloc`.
  unfoldable pub alloc : Arena → Heap → ℕ → ℕ → Outcome
  alloc a h size alignment = alloc_in a.blocks a h size alignment

  -- `topo_arena_create` for a heap that has room for the arena object itself. A first block
  -- that cannot be had leaves an arena with no block.
  unfoldable pub arena_create : Heap → ℕ → Arena × Heap
  arena_create h initial =
      let cap = if initial == 0 then default_capacity else initial in
      let empty : Arena = record { blocks = []; default_block_size = cap } in
      elim (add_block empty cap h) [ none ↦ (empty, h) | some r ↦ r ]

  -- `topo_arena_alloc` on a handle; `none` is the null handle.
  unfoldable pub arena_alloc : Option Arena → Heap → ℕ → ℕ → Option ℕ × (Option Arena × Heap)
  arena_alloc none h size alignment = (none, (none, h))
  arena_alloc (some a) h size alignment =
      let r = alloc a h size (if alignment == 0 then max_align else alignment) in
      if size == 0 then (none, (some a, h)) else (r.pointer, (some r.arena, r.heap))

  -- Frees all blocks but the first one, which is the last of the list, oldest first.
  unfoldable pub free_later : List Block → Heap → Heap
  free_later [] h = h
  free_later (b ∷ []) h = h
  free_later (b ∷ c ∷ bs) h = free (free_later (c ∷ bs) h) b.data_ptr

  unfoldable pub free_all : List Block → Heap → Heap
  free_all [] h = h
  free_all (b ∷ bs) h = free (free_all bs h) b.data_ptr

  unfoldable pub reset : Arena → Heap → Arena × Heap
  reset a h = (record a { blocks = keep_first a.blocks }, free_later a.blocks h)

  -- `topo_arena_reset`, `topo_arena_destroy`, `topo_arena_bytes_used`, `topo_arena_capacity`.
  unfoldable pub arena_reset : Option Arena → Heap → Option Arena × Heap
  arena_reset none h = (none, h)
  arena_reset (some a) h = let (a', h') = reset a h in (some a', h')

  unfoldable pub arena_destroy : Option Arena → Heap → Heap
  arena_destroy none h = h
  arena_destroy (some a) h = free_all a.blocks h

unfoldable pub arena_bytes_used : Option Arena → ℕ
arena_bytes_used none = 0
arena_bytes_used (some a) = total_used a.blocks

unfoldable pub arena_capacity : Option Arena → ℕ
arena_capacity none = 0
arena_capacity (some a) = total_capacity a.blocks
