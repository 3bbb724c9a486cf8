-- ===== src/Arena/Alloc.antt =====
-- `topo_arena::alloc`: on every branch, what is returned and what becomes of the arena.
use topo_llvm.Prelude.{
  ℕ, ◌+◌, ◌-◌, ◌%◌, ◌≤◌, ◌<◌, ◌≡◌, refl, ◌⊎◌, inl, inr, none, some, List, [], ◌∷◌, leb, ltb, ltb→lt,
  if◌then◌else◌, arith, All, All-map, Bool-cases, Option-cases, subst,
}
use topo_llvm.Arena.{
  word_size, size_max, Block, Arena, Outcome, align_up, padding_of, add_block, place_new, alloc_new,
  alloc_in, alloc,
}
use topo_llvm.Arena.Interface.{Malloc}
use topo_llvm.Arena.Align.{IsAlignment, IsAlignment-lt}
use topo_llvm.Arena.Fit.{fits_current, fits_new}
use topo_llvm.Arena.Regions.{Region, IsBlock, IsValid, IsInside, BlocksApart, take_region}

module _ (m : Malloc) where
  open m use {Heap, Live, malloc, malloc_live, malloc_keeps, malloc_disjoint, malloc_fits}

  -- The capacity that `addBlock` asks for.
  abbrev pub block_size : Arena → ℕ → ℕ
  block_size a min_size =
      if ltb a.default_block_size min_size then min_size else a.default_block_size

  abbrev pub Exhausted : Arena → Heap → ℕ → ℕ → Type 0
  Exhausted a h size al =
      (a.blocks ≡ []) ⊎ (size_max - al < size) ⊎ (malloc h (block_size a (size + al)) ≡ none)

  -- Success: an aligned region, apart from all that is held. Failure: nothing has changed, and
  -- there is no block, the size is beyond the guard, or `malloc` has failed.
  abbrev pub AllocResult : Arena → Heap → List Region → ℕ → ℕ → Outcome m → Type 0
  AllocResult a h held size al r =
      ((p : ℕ) × (r.pointer ≡ some p)
        × (p % al ≡ 0)
        × IsValid m r.heap r.arena.blocks (record { start = p; size = size } ∷ held))
      ⊎ ((r ≡ record { pointer = none; arena = a; heap = h }) × Exhausted a h size al)

  keeps_blocks :
      (h h' : Heap) (n p : ℕ) (bs : List Block)
      → malloc h n ≡ some (p, h')
      → All (IsBlock m h) bs
      → All (IsBlock m h') bs
  keeps_blocks h h' n p bs e ok =
      All-map (IsBlock m h) (IsBlock m h') bs
        (λ b o. record {
          nonnull = o.nonnull;
          fits = o.fits;
          nonempty = o.nonempty;
          filled = o.filled;
          live = malloc_keeps h h' n p b.data_ptr b.capacity e o.live;
        })
        ok

  apart_from_new :
      (h h' : Heap) (n p : ℕ) (bs : List Block)
      → malloc h n ≡ some (p, h')
      → All (IsBlock m h) bs
      → All (BlocksApart (record { data_ptr = p; capacity = n; used = 0 })) bs
  apart_from_new h h' n p bs e ok =
      All-map (IsBlock m h) _ bs
        (λ b o. ground (arith, malloc_disjoint h h' n p b.data_ptr b.capacity e o.live)) ok

  -- A new block in front keeps the arena valid.
  pub push_block :
      (h h' : Heap) (n p : ℕ) (bs : List Block) (held : List Region)
      → 0 < n
      → malloc h n ≡ some (p, h')
      → IsValid m h bs held
      → IsValid m h' (record { data_ptr = p; capacity = n; used = 0 } ∷ bs) held
  push_block h h' n p bs held some_bytes e v = record {
    blocks_ok = (
      record {
        nonnull = (malloc_fits h h' n p e).0;
        fits = (malloc_fits h h' n p e).1;
        nonempty = some_bytes;
        filled = omega arith;
        live = malloc_live h h' n p e;
      },
      keeps_blocks h h' n p bs e v.blocks_ok,
    );
    separate = (apart_from_new h h' n p bs e v.blocks_ok, v.separate);
    inside = All-map (IsInside bs) _ held (λ r w. inr w) v.inside;
    apart = v.apart;
  }

  module _ (a : Arena) (h : Heap) (held : List Region) (size al : ℕ) (i : IsAlignment al)
      (some_size : 0 < size) where
    -- The test on the current block, `other` being what happens if it fails.
    in_current :
        (b : Block) (bs : List Block) {other : Outcome m}
        → IsValid m h (b ∷ bs) held
        → size ≤ size_max - al
        → AllocResult a h held size al other
        → AllocResult a h held size al (
            let addr = (b.data_ptr + b.used) % word_size in
            let need = (padding_of addr al + size) % word_size in
            if leb need ((b.capacity + word_size - b.used) % word_size)
            then record {
              pointer = some (align_up addr al);
              arena = record a { blocks = record b { used = (b.used + need) % word_size } ∷ bs };
              heap = h;
            }
            else other)
    in_current b bs v guarded w =
        let addr : ℕ = (b.data_ptr + b.used) % word_size in
        let ok = v.blocks_ok.0 in
        elim (Bool-cases (
          leb ((padding_of addr al + size) % word_size)
            ((b.capacity + word_size - b.used) % word_size))) [
              | inr full ↦ rw full w
              | inl room ↦
                  let fit =
                    fits_current size al b.data_ptr i some_size guarded b.capacity b.used ok.nonnull
                      ok.fits ok.filled room in
                  rw room (
                    inl (
                      align_up addr al,
                      refl,
                      fit.0,
                      take_region m b bs h held (record { start = align_up addr al; size = size }) _
                          fit.1 fit.2 fit.3 v,
                    ))
            ]

    place_new-result :
        (h' : Heap) (p cap : ℕ) (bs : List Block) (a' : Arena)
        → size ≤ size_max - al
        → size + al ≤ cap
        → IsValid m h' (record { data_ptr = p; capacity = cap; used = 0 } ∷ bs) held
        → AllocResult a h held size al
            (place_new m (record { data_ptr = p; capacity = cap; used = 0 } ∷ bs) a' h' size al)
    unfolding place_new
    place_new-result h' p cap bs a' guarded room v =
        let ok = v.blocks_ok.0 in
        let fit = fits_new size al p i some_size guarded cap ok.nonnull ok.fits room in
        elim (Bool-cases (ltb cap ((padding_of p al + size) % word_size))) [
          | inl over ↦ absurd (omega (arith, ltb→lt _ _ over))
          | inr enough ↦ rw enough (
              inl (
                align_up p al,
                refl,
                fit.0,
                take_region m _ bs h' held (record { start = align_up p al; size = size }) _
                    (omega arith) fit.2 fit.3 v,
              ))
        ]

    alloc_new_fails :
        size ≤ size_max - al
        → malloc h (block_size a (size + al)) ≡ none
        → alloc_new m a h size al ≡ record { pointer = none; arena = a; heap = h }
    unfolding alloc_new add_block
    alloc_new_fails guarded e =
        let sum : (size + al) % word_size ≡ size + al = omega (arith, IsAlignment-lt i) in
        rw (sum, alloc_new, add_block) (rw (e, alloc_new, add_block))

    alloc_new_places :
        (p : ℕ) (h' : Heap)
        → size ≤ size_max - al
        → malloc h (block_size a (size + al)) ≡ some (p, h')
        → alloc_new m a h size al
          ≡ place_new m
              (record { data_ptr = p; capacity = block_size a (size + al); used = 0 } ∷ a.blocks)
              (record a {
                blocks =
                    record { data_ptr = p; capacity = block_size a (size + al); used = 0 }
                    ∷ a.blocks;
              })
              h'
              size
              al
    unfolding alloc_new add_block
    alloc_new_places p h' guarded e =
        let sum : (size + al) % word_size ≡ size + al = omega (arith, IsAlignment-lt i) in
        rw (sum, alloc_new, add_block) (rw (e, alloc_new, add_block) (rw sum refl))

    alloc_new-result :
        size ≤ size_max - al
        → IsValid m h a.blocks held
        → AllocResult a h held size al (alloc_new m a h size al)
    alloc_new-result guarded v = elim (Option-cases (malloc h (block_size a (size + al)))) [
      | inl fails ↦ rw (alloc_new_fails guarded fails) (inr (refl, inr (inr fails)))
      | inr ((p, h'), e) ↦ rw (alloc_new_places p h' guarded e) (
          place_new-result h' p (block_size a (size + al)) a.blocks _ guarded (ground arith)
            (push_block h h' _ p a.blocks held (ground arith) e v))
    ]

    alloc_in-result :
        (bs : List Block)
        → a.blocks ≡ bs
        → IsValid m h a.blocks held
        → AllocResult a h held size al (alloc_in m bs a h size al)
    unfolding alloc_in
    alloc_in-result [] e v = inr (refl, inl e)
    alloc_in-result (b ∷ bs) e v = elim (Bool-cases (ltb (size_max - al) size)) [
      | inl over ↦ rw over (inr (refl, inr (inl (ltb→lt _ _ over))))
      | inr small ↦ rw small (
          in_current b bs (subst (λ l. IsValid m h l held) e v) (ground arith)
            (alloc_new-result (ground arith) v))
    ]

  -- Every call of `alloc` with a power-of-two alignment and a size either hands out an aligned
  -- region inside the arena that is apart from every region held, and keeps the arena valid, or
  -- changes nothing, and then only because the arena has no block, the size is beyond the
  -- overflow guard, or `malloc` fails: the final test of a new block never does.
  pub alloc-result :
      (a : Arena) (h : Heap) (held : List Region) (size al : ℕ)
      → IsAlignment al
      → 0 < size
      → IsValid m h a.blocks held
      → AllocResult a h held size al (alloc m a h size al)
  unfolding alloc
  alloc-result a h held size al i some_size v =
      alloc_in-result a h held size al i some_size a.blocks refl v
