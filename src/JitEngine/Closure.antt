-- ===== src/JitEngine/Closure.antt =====
-- The worklist finds exactly the nodes that the edges lead to.
use topo_llvm.Prelude.{
  ℕ, zero, suc, ◌+◌, ◌≤◌, ◌≡◌, refl, sym, inl, inr, ◌⊎◌, ◌↔◌, subst, Bool, true, false, Bool-cases,
  not, ◌&&◌, some, List, [], ◌∷◌, if◌then◌else◌, length, Bytes, same, same→eq, same_refl, arith,
  Among, if_cases,
}
use topo_llvm.SymbolMapper.{contains_name}
use topo_llvm.JitEngine.Reach.{PipelineEdge, Search, found, visit, search, stacked, reachable_nodes}

-- The nodes that the edges lead to from the sources.
pub data Reached (sources : List Bytes) (edges : List PipelineEdge) : Bytes → Type 0 where
  at_source : (n : Bytes) → contains_name n sources ≡ true → Reached sources edges n
  along :
      (e : PipelineEdge)
      → Among e edges
      → Reached sources edges e.source
      → Reached sources edges e.target

abbrev Has : List Bytes → Bytes → Type 0
Has names n = contains_name n names ≡ true

has_cons : (n m : Bytes) (names : List Bytes) → Has (m ∷ names) n → (n ≡ m) ⊎ Has names n
unfolding contains_name
has_cons n m names h = elim (Bool-cases (same n m)) [
  | inl e ↦ inl (same→eq n m e)
  | inr e ↦ inr (ground (arith, h, e))
]

cons_has : (n m : Bytes) (names : List Bytes) → Has names n → Has (m ∷ names) n
unfolding contains_name
cons_has n m names h = ground (arith, h)

head_has : (m : Bytes) (names : List Bytes) → Has (m ∷ names) m
unfolding contains_name
head_has m names = ground (arith, same_refl m)

uncons : (n m : Bytes) (names : List Bytes) → Has (m ∷ names) n → same n m ≡ false → Has names n
unfolding contains_name
uncons n m names h e = ground (arith, h, e)

-- Whether the edge leads from the node to a new one.
abbrev leads_on : Bytes → PipelineEdge → Search → Bool
leads_on cur e s = same e.source cur && not (contains_name e.target s.reachable)

-- The edges whose targets are not found.
unreached : List Bytes → List PipelineEdge → ℕ
unreached names [] = 0
unreached names (e ∷ es) =
    let rest = unreached names es in if contains_name e.target names then rest else suc rest

unreached-length : (names : List Bytes) (es : List PipelineEdge) → unreached names es ≤ length es
unfolding unreached
unreached-length names [] = omega arith
unreached-length names (e ∷ es) = ground (arith, unreached-length names es)

unreached_le :
    (m : Bytes) (names : List Bytes) (es : List PipelineEdge)
    → unreached (m ∷ names) es ≤ unreached names es
unfolding unreached contains_name
unreached_le m names [] = omega arith
unreached_le m names (e ∷ es) = ground (arith, unreached_le m names es)

unreached_lt :
    (e : PipelineEdge) (names : List Bytes) (es : List PipelineEdge)
    → Among e es
    → contains_name e.target names ≡ false
    → suc (unreached (e.target ∷ names) es) ≤ unreached names es
unfolding unreached contains_name
unreached_lt e names [] m h = elim m [ ]
unreached_lt e names (d ∷ es) (inl m) h =
    let is_d : contains_name d.target names ≡ false =
      subst (λ x. contains_name x.target names ≡ false) m h in
    let same_d : same d.target e.target ≡ true =
      subst (λ x. same d.target x.target ≡ true) (sym m) (same_refl d.target) in
    ground (arith, unreached_le e.target names es, is_d, same_d)
unreached_lt e names (d ∷ es) (inr m) h = ground (arith, unreached_lt e names es m h)

none_in_nil : (n : Bytes) → Has [] n → ⊥
unfolding contains_name
none_in_nil n h = cc

stacked-length : (xs stack : List Bytes) → length (stacked xs stack) ≡ length xs + length stack
stacked-length [] stack = omega arith
stacked-length (x ∷ xs) stack = omega (arith, stacked-length xs (x ∷ stack))

has_stacked :
    (n : Bytes) (xs stack : List Bytes) → Has xs n ⊎ Has stack n → Has (stacked xs stack) n
has_stacked n [] stack (inl h) = absurd (none_in_nil n h)
has_stacked n [] stack (inr h) = h
has_stacked n (x ∷ xs) stack (inl h) = elim (has_cons n x xs h) [
  | inl e ↦ has_stacked n xs (x ∷ stack) (inr (subst (Has (x ∷ stack)) (sym e) (head_has x stack)))
  | inr k ↦ has_stacked n xs (x ∷ stack) (inl k)
]
has_stacked n (x ∷ xs) stack (inr h) = has_stacked n xs (x ∷ stack) (inr (cons_has n x stack h))

stacked_cases :
    (n : Bytes) (xs stack : List Bytes) → Has (stacked xs stack) n → Has xs n ⊎ Has stack n
stacked_cases n [] stack h = inr h
stacked_cases n (x ∷ xs) stack h = elim (stacked_cases n xs (x ∷ stack) h) [
  | inl k ↦ inl (cons_has n x xs k)
  | inr k ↦ elim (has_cons n x stack k) [
    | inl e ↦ inl (subst (Has (x ∷ xs)) (sym e) (head_has x xs))
    | inr j ↦ inr j
  ]
]

module _ (sources : List Bytes) (edges : List PipelineEdge) where
  -- What a search has found is reached.
  abbrev Sound : Search → Type 0
  Sound s =
      ((n : Bytes) → Has s.reachable n → Reached sources edges n)
      × ((n : Bytes) → Has s.worklist n → Reached sources edges n)

  -- What the loop over the edges gives for the node: more nodes, new ones only on the worklist too, the
  -- targets of the node's edges, and no more work than before.
  abbrev Visited : Bytes → List PipelineEdge → Search → Search → Type 0
  Visited cur es s t =
      (Sound s → Reached sources edges cur → Sound t)
      × ((n : Bytes) → Has s.reachable n → Has t.reachable n)
      × ((n : Bytes) → Has s.worklist n → Has t.worklist n)
      × ((n : Bytes) → Has t.reachable n → Has s.reachable n ⊎ Has t.worklist n)
      × ((e : PipelineEdge) → Among e es → same e.source cur ≡ true → Has t.reachable e.target)
      × (length t.worklist + unreached t.reachable edges
          ≤ length s.worklist + unreached s.reachable edges)

  Visited-cons :
      (cur : Bytes) (e : PipelineEdge) (es : List PipelineEdge) (s t u : Search)
      → Visited cur (e ∷ []) s t
      → Visited cur es t u
      → Visited cur (e ∷ es) s u
  Visited-cons cur e es s t u (sound, reach, work, new, target, less)
        (sound', reach', work', new', target', less') =
      (
        (λ h c. sound' (sound h c) c),
        (λ n m. reach' n (reach n m)),
        (λ n m. work' n (work n m)),
        (λ n m. elim (new' n m) [
          | inl k ↦ elim (new n k) [ inl j ↦ inl j | inr j ↦ inr (work' n j) ]
          | inr k ↦ inr k
        ]),
        (λ d m k. elim m [ inl j ↦ reach' d.target (target d (inl j) k) | inr j ↦ target' d j k ]),
        omega (arith, less, less'),
      )

  found-Visited :
      (cur : Bytes) (e : PipelineEdge) (s : Search)
      → Among e edges
      → leads_on cur e s ≡ true
      → Visited cur (e ∷ []) s (found e.target s)
  found-Visited cur e s h g =
      let is_cur : e.source ≡ cur = same→eq e.source cur (ground (arith, g)) in
      let fresh : contains_name e.target s.reachable ≡ false = ground (arith, g) in
      (
        (λ sound c.
            let reached = along e h (subst (Reached sources edges) (sym is_cur) c) in
            (
              (λ n m. elim (has_cons n e.target s.reachable m) [
                | inl k ↦ subst (Reached sources edges) (sym k) reached
                | inr k ↦ sound.0 n k
              ]),
              (λ n m. elim (has_cons n e.target s.worklist m) [
                | inl k ↦ subst (Reached sources edges) (sym k) reached
                | inr k ↦ sound.1 n k
              ]),
            )),
        (λ n m. cons_has n e.target s.reachable m),
        (λ n m. cons_has n e.target s.worklist m),
        (λ n m. elim (has_cons n e.target s.reachable m) [
          | inl k ↦ inr (subst (Has (e.target ∷ s.worklist)) (sym k) (head_has e.target s.worklist))
          | inr k ↦ inl k
        ]),
        (λ d m k. elim m [
          | inl j ↦
              subst (λ x. Has (e.target ∷ s.reachable) x.target) (sym j)
                (head_has e.target s.reachable)
          | inr j ↦ elim j [ ]
        ]),
        omega (arith, unreached_lt e s.reachable edges h fresh),
      )

  kept-Visited :
      (cur : Bytes) (e : PipelineEdge) (s : Search)
      → leads_on cur e s ≡ false
      → Visited cur (e ∷ []) s s
  kept-Visited cur e s g = (
    (λ sound c. sound),
    (λ n m. m),
    (λ n m. m),
    (λ n m. inl m),
    (λ d m k. elim m [
      | inl j ↦
          let is_cur : same e.source cur ≡ true = subst (λ x. same x.source cur ≡ true) j k in
          let has : Has s.reachable e.target = ground (arith, g, is_cur) in
          subst (λ x. Has s.reachable x.target) (sym j) has
      | inr j ↦ elim j [ ]
    ]),
    omega arith,
  )

  visit-Visited :
      (cur : Bytes) (es : List PipelineEdge) (s : Search)
      → ((e : PipelineEdge) → Among e es → Among e edges)
      → Visited cur es s (visit cur es s)
  unfolding visit
  visit-Visited cur [] s h =
      ((λ sound c. sound), (λ n m. m), (λ n m. m), (λ n m. inl m), (λ e m. elim m [ ]), omega arith)
  visit-Visited cur (e ∷ es) s h =
      let t = if leads_on cur e s then found e.target s else s in
      let first =
        if_cases (Visited cur (e ∷ []) s) (leads_on cur e s) (found e.target s) s
          (λ g. found-Visited cur e s (h e (inl refl)) g) (λ g. kept-Visited cur e s g) in
      Visited-cons cur e es s t (visit cur es t) first (visit-Visited cur es t (λ d m. h d (inr m)))

  -- Each edge from a node found leads to a node found, or from one on the worklist.
  abbrev Closed : Search → Type 0
  Closed s =
      (e : PipelineEdge)
      → Among e edges
      → Has s.reachable e.source
      → Has s.worklist e.source ⊎ Has s.reachable e.target

  -- The nodes found are the nodes reached.
  abbrev pub IsReachable : List Bytes → Type 0
  IsReachable names = (n : Bytes) → (contains_name n names ≡ true) ↔ Reached sources edges n

  complete :
      (names : List Bytes)
      → ((n : Bytes) → Has sources n → Has names n)
      → ((e : PipelineEdge) → Among e edges → Has names e.source → Has names e.target)
      → (n : Bytes) → Reached sources edges n
      → Has names n
  complete names h g n (at_source _ m) = h n m
  complete names h g n (along e m r) = g e m (complete names h g e.source r)

  step-Closed :
      (cur : Bytes) (work : List Bytes) (reachable : List Bytes) (t : Search)
      → Closed (record { reachable = reachable; worklist = cur ∷ work })
      → Visited cur edges (record { reachable = reachable; worklist = work }) t
      → Closed t
  step-Closed cur work reachable t closed v e m k = elim (v.3 e.source k) [
    | inr j ↦ inl j
    | inl j ↦ elim (closed e m j) [
      | inr i ↦ inr (v.1 e.target i)
      | inl i ↦ elim (Bool-cases (same e.source cur)) [
        | inl a ↦ inr (v.4 e m a)
        | inr a ↦ inl (v.2 e.source (uncons e.source cur work i a))
      ]
    ]
  ]

  search-IsReachable :
      (fuel : ℕ) (reachable work : List Bytes)
      → length work + unreached reachable edges ≤ fuel
      → ((n : Bytes) → Has sources n → Has reachable n)
      → Sound (record { reachable = reachable; worklist = work })
      → Closed (record { reachable = reachable; worklist = work })
      → (names : List Bytes) × (search fuel edges reachable work ≡ some names) × IsReachable names
  unfolding search
  search-IsReachable fuel reachable [] h start sound closed = (
    reachable,
    refl,
    (λ n. (
      sound.0 n,
      complete reachable start
          (λ e m k. elim (closed e m k) [ inl j ↦ absurd (none_in_nil e.source j) | inr j ↦ j ]) n,
    )),
  )
  search-IsReachable zero reachable (cur ∷ work) h start sound closed = absurd (omega (arith, h))
  search-IsReachable (suc fuel) reachable (cur ∷ work) h start sound closed =
      let popped : Search = record { reachable = reachable; worklist = work } in
      let t = visit cur edges popped in
      let v = visit-Visited cur edges popped (λ e m. m) in
      let before : Sound popped = (sound.0, (λ n m. sound.1 n (cons_has n cur work m))) in
      search-IsReachable fuel t.reachable t.worklist (omega (arith, h, v.5))
        (λ n m. v.1 n (start n m)) (v.0 before (sound.1 cur (head_has cur work)))
        (step-Closed cur work reachable t closed v)

  only_sources : (n : Bytes) → Has (stacked sources []) n → Has sources n
  only_sources n m = elim (stacked_cases n sources [] m) [
    | inl k ↦ k
    | inr k ↦ absurd (none_in_nil n k)
  ]

  -- The number of sources and edges is fuel enough, and the worklist finds exactly the nodes that the edges
  -- lead to from the sources.
  pub reachable_nodes-IsReachable :
      (names : List Bytes) × (reachable_nodes sources edges ≡ some names) × IsReachable names
  unfolding reachable_nodes
  reachable_nodes-IsReachable =
      search-IsReachable (length sources + length edges) sources (stacked sources [])
        (omega (arith, stacked-length sources [], unreached-length sources edges)) (λ n m. m)
        ((λ n m. at_source n m), (λ n m. at_source n (only_sources n m)))
        (λ e m k. inl (has_stacked e.source sources [] (inl k)))
