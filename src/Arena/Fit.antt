-- ===== src/Arena/Fit.antt =====
-- The arithmetic of one allocation: where the pointer lies and what it takes from a block.
use topo_llvm.Prelude.{ℕ, ◌+◌, ◌-◌, ◌%◌, ◌≤◌, ◌<◌, ◌≡◌, true, leb, leb→le, inl, inr, arith}
use topo_llvm.Arena.{word_size, size_max, align_up, padding_of}
use topo_llvm.Arena.Align.{IsAlignment, IsAlignment-lt, IsAlignment-pos, padding_cases}

module _ (size al d : ℕ) (i : IsAlignment al) (some_size : 0 < size)
    (guarded : size ≤ size_max - al) where
  -- The sum of padding and size that the capacity tests compare does not wrap.
  pub need-eq :
      (addr : ℕ)
      → addr < word_size
      → ((padding_of addr al + size) % word_size ≡ padding_of addr al + size)
        × (padding_of addr al < al)
  need-eq addr h = elim (padding_cases addr al i h) [
    | inl (x, y, z) ↦ (omega (arith, IsAlignment-lt i), z)
    | inr (y, z) ↦ (omega (arith, IsAlignment-lt i), z)
  ]

  -- The test on the current block: if it passes, the region lies in the unused rest of it.
  pub fits_current :
      (cap used : ℕ)
      → 0 < d
      → d + cap ≤ word_size
      → used ≤ cap
      → leb
          ((padding_of ((d + used) % word_size) al + size) % word_size)
          ((cap + word_size - used) % word_size)
        ≡ true
      → let p = align_up ((d + used) % word_size) al in
        let need = (padding_of ((d + used) % word_size) al + size) % word_size in
        (p % al ≡ 0)
        × (d + used ≤ p)
        × (p + size ≡ d + (used + need) % word_size)
        × ((used + need) % word_size ≤ cap)
  fits_current cap used nonnull fits filled test =
      let addr = (d + used) % word_size in
      let small : addr < word_size = omega arith in
      let need = need-eq addr small in
      let room = leb→le _ _ test in
      elim (padding_cases addr al i small) [
        | inl (x, y, z) ↦ (x, omega arith, omega arith, omega arith)
        | inr (y, z) ↦ absurd (omega arith)
      ]

  -- A block of `size + al` bytes or more always has room.
  pub fits_new :
      (cap : ℕ)
      → 0 < d
      → d + cap ≤ word_size
      → size + al ≤ cap
      → let p = align_up d al in
        let need = (padding_of d al + size) % word_size in
        (p % al ≡ 0) × (d ≤ p) × (p + size ≡ d + need) × (need ≤ cap)
  fits_new cap nonnull fits room =
      let small : d < word_size = omega (arith, IsAlignment-pos i) in
      let need = need-eq d small in
      elim (padding_cases d al i small) [
        | inl (x, y, z) ↦ (x, omega arith, omega arith, omega arith)
        | inr (y, z) ↦ absurd (omega arith)
      ]
