-- ===== src/Arena/Interface.antt =====
-- `malloc` and `free` as the arena uses them: an interface with their documented behaviour.
use topo_llvm.Prelude.{
  ℕ, ◌+◌, ◌^◌, ◌≤◌, ◌<◌, ◌≡◌, ◌≢◌, ◌⊎◌, inl, Option, none, some, leb, if◌then◌else◌, arith,
}

-- `Live h a n`: on the heap `h` a block of `n` bytes at address `a` is in use.
pub record Malloc : Type 1 where
  pub Heap : Type 0
  pub Live : Heap → ℕ → ℕ → Type 0
  pub malloc : Heap → ℕ → Option (ℕ × Heap)
  pub free : Heap → ℕ → Heap
  pub malloc_live : (h h' : Heap) (n a : ℕ) → malloc h n ≡ some (a, h') → Live h' a n
  pub malloc_keeps :
      (h h' : Heap) (n a b k : ℕ) → malloc h n ≡ some (a, h') → Live h b k → Live h' b k
  pub malloc_disjoint :
      (h h' : Heap) (n a b k : ℕ)
      → malloc h n ≡ some (a, h')
      → Live h b k
      → (b + k ≤ a) ⊎ (a + n ≤ b)
  pub malloc_fits : (h h' : Heap) (n a : ℕ) → malloc h n ≡ some (a, h') → (0 < a) × (a + n ≤ 2 ^ 64)
  pub free_keeps : (h : Heap) (a b k : ℕ) → Live h b k → a ≢ b → Live (free h a) b k

-- A heap that hands out rising addresses and reuses none: the number is the break.
abbrev pub bump_malloc : ℕ → ℕ → Option (ℕ × ℕ)
bump_malloc h n = if leb (h + 16 + n) (2 ^ 64) then some (h + 16, h + n) else none

pub bump_live : (h h' n a : ℕ) → bump_malloc h n ≡ some (a, h') → a + n ≤ h' + 16
bump_live h h' n a e = ground arith

pub bump_keeps :
    (h h' n a b k : ℕ) → bump_malloc h n ≡ some (a, h') → b + k ≤ h + 16 → b + k ≤ h' + 16
bump_keeps h h' n a b k e l = ground arith

pub bump_disjoint :
    (h h' n a b k : ℕ) → bump_malloc h n ≡ some (a, h') → b + k ≤ h + 16 → (b + k ≤ a) ⊎ (a + n ≤ b)
bump_disjoint h h' n a b k e l = inl (ground arith)

pub bump_fits : (h h' n a : ℕ) → bump_malloc h n ≡ some (a, h') → (0 < a) × (a + n ≤ 2 ^ 64)
bump_fits h h' n a e = ground arith

abbrev pub bump_heap : Malloc
bump_heap = record {
  Heap = ℕ;
  Live = λ h a n. a + n ≤ h + 16;
  malloc = bump_malloc;
  free = λ h a. h;
  malloc_live = bump_live;
  malloc_keeps = bump_keeps;
  malloc_disjoint = bump_disjoint;
  malloc_fits = bump_fits;
  free_keeps = λ h a b k l ne. l;
}
