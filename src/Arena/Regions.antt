-- ===== src/Arena/Regions.antt =====
-- What the arena hands out: aligned regions inside its blocks, disjoint from all earlier ones.
use topo_llvm.Prelude.{ℕ, ◌+◌, ◌≤◌, ◌<◌, ◌≡◌, ◌⊎◌, inl, inr, List, [], ◌∷◌, arith, All, All-map}
use topo_llvm.Arena.{word_size, Block}
use topo_llvm.Arena.Interface.{Malloc}

pub record Region : Type 0 where
  pub start : ℕ
  pub size : ℕ

-- The region lies in the used part of a block.
abbrev pub Within : Region → Block → Type 0
Within r b = (b.data_ptr ≤ r.start) × (r.start + r.size ≤ b.data_ptr + b.used)

abbrev pub IsInside : List Block → Region → Type 0
IsInside [] r = ⊥
IsInside (b ∷ bs) r = Within r b ⊎ IsInside bs r

abbrev pub Apart : Region → Region → Type 0
Apart r s = (r.start + r.size ≤ s.start) ⊎ (s.start + s.size ≤ r.start)

abbrev pub BlocksApart : Block → Block → Type 0
BlocksApart b c = (b.data_ptr + b.capacity ≤ c.data_ptr) ⊎ (c.data_ptr + c.capacity ≤ b.data_ptr)

abbrev pub Separate : List Block → Type 0
Separate [] = Unit
Separate (b ∷ bs) = All (BlocksApart b) bs × Separate bs

abbrev pub AllApart : List Region → Type 0
AllApart [] = Unit
AllApart (r ∷ rs) = All (Apart r) rs × AllApart rs

module _ (m : Malloc) where
  open m use {Heap, Live, malloc, malloc_live, malloc_keeps, malloc_disjoint, malloc_fits}

  -- A block that the heap knows, used up to its capacity at most.
  pub record IsBlock (h : Heap) (b : Block) : Type 0 where
    pub nonnull : 0 < b.data_ptr
    pub fits : b.data_ptr + b.capacity ≤ word_size
    pub nonempty : 0 < b.capacity
    pub filled : b.used ≤ b.capacity
    pub live : Live h b.data_ptr b.capacity

  -- The well-formedness of an arena with the regions that its clients hold.
  pub record IsValid (h : Heap) (bs : List Block) (held : List Region) : Type 0 where
    pub blocks_ok : All (IsBlock h) bs
    pub separate : Separate bs
    pub inside : All (IsInside bs) held
    pub apart : AllApart held

  -- The rest of the head block is apart from what is held.
  fresh_in_rest :
      (b : Block) (bs : List Block) (h : Heap) (r s : Region)
      → b.data_ptr + b.used ≤ r.start
      → r.start + r.size ≤ b.data_ptr + b.capacity
      → All (IsBlock h) bs
      → All (BlocksApart b) bs
      → IsInside (b ∷ bs) s
      → Apart r s
  fresh_in_rest b bs h r s lo hi ok sep (inl w) = inr (omega arith)
  fresh_in_rest b [] h r s lo hi ok sep (inr w) = elim w [ ]
  fresh_in_rest b (c ∷ cs) h r s lo hi ok sep (inr (inl w)) =
      let full = ok.0.filled in ground (arith, sep.0)
  fresh_in_rest b (c ∷ cs) h r s lo hi ok sep (inr (inr w)) =
      fresh_in_rest b cs h r s lo hi ok.1 sep.1 (inr w)

  grown :
      (b : Block) (bs : List Block) (n : ℕ) (r : Region)
      → b.used ≤ n
      → IsInside (b ∷ bs) r
      → IsInside (record b { used = n } ∷ bs) r
  grown b bs n r h (inl w) = inl (omega arith)
  grown b bs n r h (inr w) = inr w

  -- Taking a region from the unused rest of the head block.
  pub take_region :
      (b : Block) (bs : List Block) (h : Heap) (held : List Region) (r : Region) (n : ℕ)
      → b.data_ptr + b.used ≤ r.start
      → r.start + r.size ≡ b.data_ptr + n
      → n ≤ b.capacity
      → IsValid h (b ∷ bs) held
      → IsValid h (record b { used = n } ∷ bs) (r ∷ held)
  take_region b bs h held r n lo hi fits v = record {
    blocks_ok = (
      record {
        nonnull = v.blocks_ok.0.nonnull;
        fits = v.blocks_ok.0.fits;
        nonempty = v.blocks_ok.0.nonempty;
        filled = fits;
        live = v.blocks_ok.0.live;
      },
      v.blocks_ok.1,
    );
    separate = v.separate;
    inside = (
      inl (omega arith),
      All-map (IsInside (b ∷ bs)) (IsInside (record b { used = n } ∷ bs)) held
          (λ s w. grown b bs n s (omega arith) w) v.inside,
    );
    apart = (
      All-map (IsInside (b ∷ bs)) (Apart r) held
          (λ s w. fresh_in_rest b bs h r s lo (omega arith) v.blocks_ok.1 v.separate.0 w) v.inside,
      v.apart,
    );
  }
