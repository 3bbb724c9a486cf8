-- ===== src/Arena/Reset.antt =====
-- `topo_arena_create`, `topo_arena_reset` and the C entry points over a valid arena.
use topo_llvm.Prelude.{
  ℕ, ◌≤◌, ◌<◌, ◌≡◌, refl, ◌⊎◌, inl, inr, none, some, List, [], ◌∷◌, ◌++◌, ap, ltb, ◌==◌,
  if◌then◌else◌, arith, All, Option-cases, length, Bool-cases, sym, subst,
}
use topo_llvm.Arena.{
  Block, Arena, add_block, alloc, arena_create, arena_alloc, max_align, free_later, keep_first,
  reset, arena_bytes_used, total_used, arena_capacity, total_capacity, default_capacity,
}
use topo_llvm.Arena.Interface.{Malloc}
use topo_llvm.Arena.Align.{IsAlignment, IsAlignment-pos}
use topo_llvm.Arena.Regions.{Region, IsBlock, IsValid, Separate, BlocksApart}
use topo_llvm.Arena.Alloc.{push_block, AllocResult, alloc-result}

resolved : (al : ℕ) → (al ≡ 0) ⊎ IsAlignment al → IsAlignment (if al == 0 then max_align else al)
resolved al (inl e) = rw e (record { exponent = 4; below_word = omega arith; is_power = refl })
resolved al (inr i) =
    let pos = IsAlignment-pos i in
    let e : (if al == 0 then max_align else al) ≡ al = ground arith in subst IsAlignment (sym e) i

module _ (m : Malloc) where
  open m use {Heap, malloc, malloc_fits, free, free_keeps}

  free_block :
      (h : Heap) (b c : Block)
      → 0 < b.capacity
      → BlocksApart b c
      → IsBlock m h c
      → IsBlock m (free h b.data_ptr) c
  free_block h b c some_bytes s oc = record {
    nonnull = oc.nonnull;
    fits = oc.fits;
    nonempty = oc.nonempty;
    filled = oc.filled;
    live =
        free_keeps h b.data_ptr c.data_ptr c.capacity oc.live (let q = oc.nonempty in ground arith);
  }

  first_kept :
      (b : Block) (bs : List Block) → All (BlocksApart b) bs → All (BlocksApart b) (keep_first bs)
  unfolding keep_first
  first_kept b [] s = tt
  first_kept b (c ∷ []) s = s
  first_kept b (c ∷ d ∷ bs) s = first_kept b (d ∷ bs) s.1

  free_one :
      (h : Heap) (b : Block) (bs : List Block)
      → 0 < b.capacity
      → All (BlocksApart b) bs
      → All (IsBlock m h) bs
      → All (IsBlock m (free h b.data_ptr)) bs
  free_one h b [] p s ok = tt
  free_one h b (c ∷ bs) p s ok = (free_block h b c p s.0 ok.0, free_one h b bs p s.1 ok.1)

  first_stays :
      (bs : List Block) (h : Heap)
      → All (IsBlock m h) bs
      → Separate bs
      → All (IsBlock m (free_later m bs h)) (keep_first bs)
  unfolding free_later keep_first
  first_stays [] h ok sep = tt
  first_stays (b ∷ []) h ok sep = (
    record {
      nonnull = ok.0.nonnull;
      fits = ok.0.fits;
      nonempty = ok.0.nonempty;
      filled = omega arith;
      live = ok.0.live;
    },
    tt,
  )
  first_stays (b ∷ d ∷ bs) h ok sep =
      free_one (free_later m (d ∷ bs) h) b (keep_first (d ∷ bs)) ok.0.nonempty
        (first_kept b (d ∷ bs) sep.0) (first_stays (d ∷ bs) h ok.1 sep.1)

  first_alone : (bs : List Block) → Separate (keep_first bs)
  unfolding keep_first
  first_alone [] = tt
  first_alone (b ∷ []) = (tt, tt)
  first_alone (b ∷ d ∷ bs) = first_alone (d ∷ bs)

  none_used : (bs : List Block) → total_used (keep_first bs) ≡ 0
  unfolding keep_first total_used
  none_used [] = refl
  none_used (b ∷ []) = omega arith
  none_used (b ∷ d ∷ bs) = none_used (d ∷ bs)

  -- The heap after the blocks are freed, from the end of the list to its front.
  abbrev pub freed : List Block → Heap → Heap
  freed [] h = h
  freed (b ∷ bs) h = free (freed bs h) b.data_ptr

  -- The last block of the list alone stays, with nothing used, and the ones before it are freed.
  abbrev pub OldestStays : List Block → Heap → List Block → Heap → Type 0
  OldestStays bs h bs' h' =
      ((bs ≡ []) × (bs' ≡ []) × (h' ≡ h))
      ⊎ ((later : List Block) × (oldest : Block) × (bs ≡ later ++ oldest ∷ [])
          × (bs' ≡ record oldest { used = 0 } ∷ [])
          × (h' ≡ freed later h))

  one_more :
      (b c : Block) (bs bs' : List Block) (h h' : Heap)
      → OldestStays (c ∷ bs) h bs' h'
      → OldestStays (b ∷ c ∷ bs) h bs' (free h' b.data_ptr)
  one_more b c bs bs' h h' (inl (e, _, _)) = absurd cc
  one_more b c bs bs' h h' (inr (later, oldest, e, kept, gone)) =
      inr (b ∷ later, oldest, ap (λ l. b ∷ l) e, kept, ap (λ x. free x b.data_ptr) gone)

  keep_first-OldestStays :
      (bs : List Block) (h : Heap) → OldestStays bs h (keep_first bs) (free_later m bs h)
  unfolding keep_first free_later
  keep_first-OldestStays [] h = inl (refl, refl, refl)
  keep_first-OldestStays (b ∷ []) h = inr ([], b, refl, refl, refl)
  keep_first-OldestStays (b ∷ c ∷ bs) h =
      one_more b c bs (keep_first (c ∷ bs)) h (free_later m (c ∷ bs) h)
        (keep_first-OldestStays (c ∷ bs) h)

  -- A reset frees every block but the oldest, which stays with nothing used; an arena without
  -- blocks stays without. What is left is valid with no region held, and the bytes in use are 0.
  pub reset-IsValid :
      (a : Arena) (h : Heap) (held : List Region)
      → IsValid m h a.blocks held
      → let (a', h') = reset m a h in
        OldestStays a.blocks h a'.blocks h'
        × IsValid m h' a'.blocks []
        × (arena_bytes_used (some a') ≡ 0)
  unfolding reset arena_bytes_used
  reset-IsValid a h held v = (
    keep_first-OldestStays a.blocks h,
    record {
      blocks_ok = first_stays a.blocks h v.blocks_ok v.separate;
      separate = first_alone a.blocks;
      inside = tt;
      apart = tt;
    },
    none_used a.blocks,
  )

  empty_ok : (h : Heap) → IsValid m h [] []
  empty_ok h = record { blocks_ok = tt; separate = tt; inside = tt; apart = tt }

  first_block :
      (a : Arena) (n : ℕ) (h : Heap)
      → a.blocks ≡ []
      → 0 < n
      → (add_block m a n h ≡ none)
        ⊎ ((a' : Arena) × (h' : Heap) × (add_block m a n h ≡ some (a', h'))
            × IsValid m h' a'.blocks []
            × (length a'.blocks ≡ 1)
            × (a.default_block_size ≤ arena_capacity (some a'))
            × (a'.default_block_size ≡ a.default_block_size))
  unfolding add_block arena_capacity total_capacity
  first_block a n h none_yet some_bytes =
      let cap : ℕ = if ltb a.default_block_size n then n else a.default_block_size in
      elim (Option-cases (malloc h cap)) [
        | inl fails ↦ inl (rw (fails, add_block))
        | inr ((p, h'), e) ↦ inr (
          record a { blocks = record { data_ptr = p; capacity = cap; used = 0 } ∷ a.blocks },
          h',
          rw (e, add_block),
          push_block m h h' cap p a.blocks [] (ground arith) e (rw none_yet (empty_ok h)),
          rw none_yet refl,
          (let f = malloc_fits h h' cap p e in rw none_yet (ground arith)),
          refl,
        )
      ]

  -- A created arena is valid with no region held, for any answer of `malloc`: it has no block if
  -- `malloc` fails, and else one of the capacity asked for, or of 4096 bytes if that is 0.
  arena_create-IsValid :
      (h : Heap) (n : ℕ)
      → let (a, h') = arena_create m h n in
        IsValid m h' a.blocks []
        × (a.default_block_size ≡ (if n == 0 then default_capacity else n))
        × ((a.blocks ≡ [])
            ⊎ ((length a.blocks ≡ 1) × (a.default_block_size ≤ arena_capacity (some a))))
  unfolding arena_create arena_capacity
  arena_create-IsValid h n =
      let cap : ℕ = if n == 0 then default_capacity else n in
      elim (first_block (record { blocks = []; default_block_size = cap }) cap h refl
        (ground arith)) [
          | inl fails ↦ rw (fails, arena_create) (empty_ok h, refl, inl refl)
          | inr (a', h', e, v, one, big, same_default) ↦
              rw (e, arena_create) (v, same_default, inr (one, rw same_default big))
        ]

  -- The C entry point on a valid arena: a size of 0 gives the null pointer and changes nothing, and
  -- a size above 0 gives what `alloc` gives, with its guarantees, where an alignment of 0 stands for
  -- that of `max_align_t`.
  pub arena_alloc-result :
      (a : Arena) (h : Heap) (held : List Region) (size al : ℕ)
      → (al ≡ 0) ⊎ IsAlignment al
      → IsValid m h a.blocks held
      → let al' = if al == 0 then max_align else al in
        let r = alloc m a h size al' in
        ((size ≡ 0) × (arena_alloc m (some a) h size al ≡ (none, (some a, h))))
        ⊎ ((0 < size)
            × (arena_alloc m (some a) h size al ≡ (r.pointer, (some r.arena, r.heap)))
            × AllocResult m a h held size al' r)
  unfolding arena_alloc
  arena_alloc-result a h held size al i v = elim (Bool-cases (size == 0)) [
    | inl empty ↦ inl (ground arith, rw empty)
    | inr more ↦ inr (
      ground arith,
      rw more,
      alloc-result m a h held size (if al == 0 then max_align else al) (resolved al i)
          (ground arith) v,
    )
  ]
