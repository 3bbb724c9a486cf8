-- ===== src/Verifier/Order.antt =====
-- What a silent `checkStageOrdering` means: the calls, ordered by their place in the source, never go
-- back to an earlier stage.
use topo_llvm.Prelude.{
  conditional-some, ℕ, suc, ◌≤◌, ◌<◌, ◌≡◌, refl, sym, ap, subst, inl, inr, ◌↔◌, ◌⊎◌, true, false,
  Bool-cases, Option, none, some, List, [], ◌∷◌, Bytes, same, if◌then◌else◌, arith, All, Among,
  Pairwise, Among-All, All-Among, All-map, All-both,
}
use topo_llvm.Prelude.Int.{ℤ, pos, negsuc, less, minus_one}
use topo_llvm.SymbolMapper.{NameMap, SymbolMapping}
use topo_llvm.Sema.{LogicBlock}
use topo_llvm.Verifier.Ir.{Instruction, LlvmFunction, called_name, llvm_to_topo}
use topo_llvm.Verifier.Blocks.{operation_names}
use topo_llvm.Verifier.Stages.{
  StagedCall, staged_calls, call_before, insert_call, stable_sort, larger, scan_stages, stage_of,
  block_calls, check_stage_order, push_call, next_idx, call_at, staged_name, later_or,
}

-- The stage of the first is not above that of the second.
abbrev NotAfter : StagedCall → StagedCall → Type 0
NotAfter a b = less b.stage a.stage ≡ false

abbrev Before : StagedCall → StagedCall → Type 0
Before a b = call_before a b ≡ true

abbrev AtLeast : ℤ → StagedCall → Type 0
AtLeast z c = less c.stage z ≡ false

less_trans : (a b c : ℤ) → less b a ≡ false → less c b ≡ false → less c a ≡ false
less_trans (pos a) (pos b) (pos c) h g = ground arith
less_trans (pos a) (pos b) (negsuc c) h g = cc
less_trans (pos a) (negsuc b) c h g = cc
less_trans (negsuc a) (pos b) (pos c) h g = refl
less_trans (negsuc a) (pos b) (negsuc c) h g = cc
less_trans (negsuc a) (negsuc b) (pos c) h g = refl
less_trans (negsuc a) (negsuc b) (negsuc c) h g = ground arith

less_asym : (a b : ℤ) → less a b ≡ true → less b a ≡ false
less_asym (pos a) (pos b) h = ground arith
less_asym (pos a) (negsuc b) h = cc
less_asym (negsuc a) (pos b) h = refl
less_asym (negsuc a) (negsuc b) h = ground arith

less_irrefl : (a : ℤ) → less a a ≡ false
less_irrefl (pos a) = ground arith
less_irrefl (negsuc a) = ground arith

before_total :
    (a b : StagedCall) → a.emit_idx < b.emit_idx → call_before b a ≡ false → call_before a b ≡ true
unfolding call_before
before_total a b h g = ground arith

before_trans :
    (a b c : StagedCall) → call_before a b ≡ true → call_before b c ≡ true → call_before a c ≡ true
unfolding call_before
before_trans a b c h g = ground arith

before_asym : (a b : StagedCall) → call_before a b ≡ true → call_before b a ≡ true → ⊥
unfolding call_before
before_asym a b h g = ground arith

before_irrefl : (a : StagedCall) → call_before a a ≡ true → ⊥
unfolding call_before
before_irrefl a h = ground arith

larger_bounds :
    (z a b : ℤ) → (less z (larger a b) ≡ false) ↔ ((less z a ≡ false) × (less z b ≡ false))
larger_bounds z a b = elim (Bool-cases (less a b)) [
  | inl e ↦ rw e ((λ h. (less_trans a b z (less_asym a b e) h, h)), (λ h. h.1))
  | inr e ↦ rw e ((λ h. (h, less_trans b a z e h)), (λ h. h.0))
]

-- The loop reports nothing exactly where no call is below the maximum or a call before it.
scan_lem :
    (name : Bytes) (block : LogicBlock) (z : ℤ) (cs : List StagedCall)
    → (scan_stages name block z cs ≡ []) ↔ (All (AtLeast z) cs × Pairwise NotAfter cs)
unfolding scan_stages
scan_lem name block z [] = ((λ h. (tt, tt)), (λ h. refl))
scan_lem name block z (c ∷ cs) =
    let later = scan_lem name block (larger z c.stage) cs in
    let split : All (AtLeast (larger z c.stage)) cs → All (AtLeast z) cs × All (NotAfter c) cs =
      λ h. (
        All-map (AtLeast (larger z c.stage)) (AtLeast z) cs
            (λ d g. ((larger_bounds d.stage z c.stage).0 g).0) h,
        All-map (AtLeast (larger z c.stage)) (NotAfter c) cs
            (λ d g. ((larger_bounds d.stage z c.stage).0 g).1) h,
      ) in
    let join : All (AtLeast z) cs → All (NotAfter c) cs → All (AtLeast (larger z c.stage)) cs =
      λ h g.
        All-both (AtLeast z) (NotAfter c) (AtLeast (larger z c.stage)) cs
          (λ d a b. (larger_bounds d.stage z c.stage).1 (a, b)) h g in
    elim (Bool-cases (less c.stage z)) [
      | inl e ↦ rw e ((λ h. absurd cc), (λ h. absurd cc))
      | inr e ↦ rw e (
        (λ h. let r = later.0 h in let s = split r.0 in ((refl, s.0), (s.1, r.1))),
        (λ h. later.1 (join h.0.1 h.1.0, h.1.1)),
      )
    ]

module _ (P : StagedCall → Type 0) where
  insert-All : (a : StagedCall) (bs : List StagedCall) → P a → All P bs → All P (insert_call a bs)
  unfolding insert_call
  insert-All a [] h g = (h, tt)
  insert-All a (b ∷ bs) h g = elim (Bool-cases (call_before b a)) [
    | inl e ↦ rw e (g.0, insert-All a bs h g.1)
    | inr e ↦ rw e (h, g)
  ]

  All-insert : (a : StagedCall) (bs : List StagedCall) → All P (insert_call a bs) → P a × All P bs
  unfolding insert_call
  All-insert a [] h = h
  All-insert a (b ∷ bs) h =
      let go : All P (insert_call a (b ∷ bs)) → P a × All P (b ∷ bs) =
        elim (Bool-cases (call_before b a)) [
          | inl e ↦ rw e (λ g. let r = All-insert a bs g.1 in (r.0, (g.0, r.1)))
          | inr e ↦ rw e (λ g. g)
        ] in
      go h

  sort-All : (cs : List StagedCall) → All P cs → All P (stable_sort cs)
  unfolding stable_sort
  sort-All [] h = tt
  sort-All (c ∷ cs) h = insert-All c (stable_sort cs) h.0 (sort-All cs h.1)

  All-sort : (cs : List StagedCall) → All P (stable_sort cs) → All P cs
  unfolding stable_sort
  All-sort [] h = tt
  All-sort (c ∷ cs) h = let r = All-insert c (stable_sort cs) h in (r.0, All-sort cs r.1)

-- Sorting neither loses a call nor makes one up.
sort-Among : (c : StagedCall) (cs : List StagedCall) → Among c cs ↔ Among c (stable_sort cs)
sort-Among c cs = (
  All-Among (λ d. Among d (stable_sort cs)) c cs
      (All-sort (λ d. Among d (stable_sort cs)) cs
        (Among-All (λ d. Among d (stable_sort cs)) (stable_sort cs) (λ d m. m))),
  All-Among (λ d. Among d cs) c (stable_sort cs)
      (sort-All (λ d. Among d cs) cs (Among-All (λ d. Among d cs) cs (λ d m. m))),
)

-- The calls are numbered in the order of the instructions.
abbrev Numbered : List StagedCall → Type 0
Numbered cs = Pairwise (λ a b. a.emit_idx < b.emit_idx) cs

insert-Sorted :
    (a : StagedCall) (bs : List StagedCall)
    → All (λ b. a.emit_idx < b.emit_idx) bs
    → Pairwise Before bs
    → Pairwise Before (insert_call a bs)
unfolding insert_call
insert-Sorted a [] h g = (tt, tt)
insert-Sorted a (b ∷ bs) h g = elim (Bool-cases (call_before b a)) [
  | inl e ↦ rw e (insert-All (Before b) a bs e g.0, insert-Sorted a bs h.1 g.1)
  | inr e ↦
      let first = before_total a b h.0 e in
      rw e ((first, All-map (Before b) (Before a) bs (λ d k. before_trans a b d first k) g.0), g)
]

stable_sort-Sorted : (cs : List StagedCall) → Numbered cs → Pairwise Before (stable_sort cs)
unfolding stable_sort
stable_sort-Sorted [] h = tt
stable_sort-Sorted (c ∷ cs) h =
    insert-Sorted c (stable_sort cs) (sort-All (λ b. c.emit_idx < b.emit_idx) cs h.0)
      (stable_sort-Sorted cs h.1)

in_order :
    (cs : List StagedCall) (a b : StagedCall)
    → Pairwise Before cs
    → Pairwise NotAfter cs
    → Among a cs
    → Among b cs
    → Before a b
    → NotAfter a b
in_order [] a b h g m n k = absurd m
in_order (c ∷ cs) a b h g (inl e) (inl f) k =
    absurd (before_irrefl c (subst (λ x. Before x c) e (subst (Before a) f k)))
in_order (c ∷ cs) a b h g (inl e) (inr n) k =
    subst (λ x. NotAfter x b) (sym e) (All-Among (NotAfter c) b cs g.0 n)
in_order (c ∷ cs) a b h g (inr m) (inl f) k =
    absurd (before_asym a c (subst (Before a) f k) (All-Among (Before c) a cs h.0 m))
in_order (c ∷ cs) a b h g (inr m) (inr n) k = in_order cs a b h.1 g.1 m n k

-- In a sorted list, being earlier in the list and coming before are the same.
sorted_pairs :
    (cs : List StagedCall)
    → Pairwise Before cs
    → ((a b : StagedCall) → Among a cs → Among b cs → Before a b → NotAfter a b)
    → Pairwise NotAfter cs
sorted_pairs [] h g = tt
sorted_pairs (c ∷ cs) h g = (
  Among-All (NotAfter c) cs (λ d m. g c d (inl refl) (inr m) (All-Among (Before c) d cs h.0 m)),
  sorted_pairs cs h.1 (λ a b m n k. g a b (inr m) (inr n) k),
)

push_call-All :
    (P : StagedCall → Type 0) (o : Option StagedCall) (cs : List StagedCall)
    → ((c : StagedCall) → o ≡ some c → P c)
    → All P cs
    → All P (push_call o cs)
push_call-All P none cs h g = g
push_call-All P (some c) cs h g = (h c refl, g)

next_idx-le : (o : Option StagedCall) (n : ℕ) → n ≤ next_idx o n
next_idx-le none n = omega arith
next_idx-le (some c) n = omega arith

-- No stage is negative.
abbrev pub IsStage : ℤ → Type 0
IsStage z = less z minus_one ≡ false

call_at-fields :
    (n : ℕ) (place : Option (ℕ × ℕ)) (name : Bytes) (o : Option ℤ) (c : StagedCall)
    → call_at n place name o ≡ some c
    → (c.emit_idx ≡ n) × (o ≡ some c.stage)
call_at-fields n place name none c h = absurd cc
call_at-fields n place name (some s) c h =
    let idx : Option StagedCall → ℕ = elim [ none ↦ 0 | some d ↦ d.emit_idx ] in
    let stage : Option StagedCall → Option ℤ = elim [ none ↦ none | some d ↦ some d.stage ] in
    (sym (ap idx h), ap stage h)

module _ (stage : Bytes → Option ℤ) (names : NameMap) where
  staged_name-fields :
      (n : ℕ) (place : Option (ℕ × ℕ)) (o : Option Bytes) (c : StagedCall)
      → staged_name stage names n place o ≡ some c
      → (c.emit_idx ≡ n) × ((name : Bytes) × (stage name ≡ some c.stage))
  staged_name-fields n place none c h = absurd cc
  staged_name-fields n place (some name) c h =
      let r = call_at-fields n place name (stage name) c h in (r.0, (name, r.1))

  staged_calls-All :
      (P : StagedCall → Type 0)
      → ((c : StagedCall) (name : Bytes) → stage name ≡ some c.stage → P c)
      → (n : ℕ) (is : List Instruction) → All P (staged_calls stage names n is)
  unfolding staged_calls
  staged_calls-All P h n [] = tt
  staged_calls-All P h n (i ∷ is) =
      let call = staged_name stage names n i.debug_loc (called_name names i) in
      push_call-All P call (staged_calls stage names (next_idx call n) is)
        (λ c e.
          let r = staged_name-fields n i.debug_loc (called_name names i) c e in h c r.1.0 r.1.1)
        (staged_calls-All P h (next_idx call n) is)

  later_calls :
      (n m : ℕ) (is : List Instruction)
      → n ≤ m
      → All (λ b. n ≤ b.emit_idx) (staged_calls stage names m is)
  unfolding staged_calls
  later_calls n m [] h = tt
  later_calls n m (i ∷ is) h =
      let call = staged_name stage names m i.debug_loc (called_name names i) in
      push_call-All (λ b. n ≤ b.emit_idx) call (staged_calls stage names (next_idx call m) is)
        (λ c e. omega (arith, h, (staged_name-fields m i.debug_loc (called_name names i) c e).0))
        (later_calls n (next_idx call m) is (omega (arith, h, next_idx-le call m)))

  push_call-Numbered :
      (n : ℕ) (o : Option StagedCall) (is : List Instruction)
      → ((c : StagedCall) → o ≡ some c → c.emit_idx ≡ n)
      → Numbered (staged_calls stage names (next_idx o n) is)
      → Numbered (push_call o (staged_calls stage names (next_idx o n) is))
  push_call-Numbered n none is h g = g
  push_call-Numbered n (some c) is h g = (
    subst (λ k. All (λ b. k < b.emit_idx) (staged_calls stage names (suc n) is)) (sym (h c refl))
        (later_calls (suc n) (suc n) is (omega arith)),
    g,
  )

  staged_calls-Numbered : (n : ℕ) (is : List Instruction) → Numbered (staged_calls stage names n is)
  unfolding staged_calls
  staged_calls-Numbered n [] = tt
  staged_calls-Numbered n (i ∷ is) =
      let call = staged_name stage names n i.debug_loc (called_name names i) in
      push_call-Numbered n call is
        (λ c e. (staged_name-fields n i.debug_loc (called_name names i) c e).0)
        (staged_calls-Numbered (next_idx call n) is)

later_or-cases : (a b : Option ℤ) (s : ℤ) → later_or a b ≡ some s → (a ≡ some s) ⊎ (b ≡ some s)
later_or-cases none b s h = inr h
later_or-cases (some t) b s h = inl h

stage_of-IsStage :
    (ops : List Bytes) (stages : List ℤ) (name : Bytes) (s : ℤ)
    → All IsStage stages
    → stage_of ops stages name ≡ some s
    → IsStage s
unfolding stage_of
stage_of-IsStage [] stages name s h e = absurd cc
stage_of-IsStage (op ∷ ops) [] name s h e = absurd cc
stage_of-IsStage (op ∷ ops) (t ∷ stages) name s h e =
    elim (later_or-cases (stage_of ops stages name) (if same op name then some t else none) s e) [
      | inl f ↦ stage_of-IsStage ops stages name s h.1 f
      | inr f ↦ subst IsStage (conditional-some (same op name) t s f) h.0
    ]

module _ (functions : List LlvmFunction) (mapping : SymbolMapping) (name : Bytes)
    (block : LogicBlock) where
  -- Where no stage of a block is negative, its check reports nothing exactly if any call that comes
  -- before another by line, column and emission has a stage that is not above the other's.
  pub check_stage_order_iff :
      (f : LlvmFunction)
      → All IsStage block.stages
      → (check_stage_order functions mapping name block f ≡ []) ↔ (
          (a b : StagedCall)
          → Among a (block_calls functions mapping name block f)
          → Among b (block_calls functions mapping name block f)
          → call_before a b ≡ true
          → less b.stage a.stage ≡ false)
  unfolding check_stage_order block_calls
  check_stage_order_iff f h =
      let calls = block_calls functions mapping name block f in
      let stage = stage_of (operation_names name block) block.stages in
      let names = llvm_to_topo mapping.matched in
      let sorted = stable_sort-Sorted calls (staged_calls-Numbered stage names 0 f.instructions) in
      let loop = scan_lem name block minus_one (stable_sort calls) in
      let staged : All (AtLeast minus_one) calls =
        staged_calls-All stage names (AtLeast minus_one)
          (λ c callee e.
            stage_of-IsStage (operation_names name block) block.stages callee c.stage h e)
          0 f.instructions in
      (
        (λ e a b m n.
            in_order (stable_sort calls) a b sorted (loop.0 e).1 ((sort-Among a calls).0 m)
              ((sort-Among b calls).0 n)),
        (λ g. loop.1 (
          sort-All (AtLeast minus_one) calls staged,
          sorted_pairs (stable_sort calls) sorted
              (λ a b m n. g a b ((sort-Among a calls).1 m) ((sort-Among b calls).1 n)),
        )),
      )
