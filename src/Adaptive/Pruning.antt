-- ===== src/Adaptive/Pruning.antt =====
-- Which edges `buildConstraintsFromCosts` prunes.
use topo_llvm.Prelude.{
  ap₂, length, is_some, Bool, false, ◌+◌, ◌%◌, ◌^◌, ◌==◌, ◌&&◌, if◌then◌else◌, ℕ, ◌≡◌, ◌↔◌, refl,
  inl, inr, Bool-cases, Option-cases, true, some, [], ◌∷◌, ◌++◌, arith, Bytes, codes, strip_prefix,
  strip_prefix-append, strip_prefix→eq, Among, ap, sym, subst, ◌∙◌,
}
use topo_llvm.Prelude.Doubles.{Doubles}
use topo_llvm.Adaptive.{Entry, Costs}
use topo_llvm.Adaptive.Constraints.{
  stage_costs, total_cost, cold_threshold, cold_edges, context_of, build_constraints,
}

-- The stage costs are exactly the samples whose key is the prefix and the stage.
stage_costs_sound :
    (prefix : Bytes) (cs : Costs) (stage : Bytes) (ns : ℕ)
    → Among (stage, ns) (stage_costs prefix cs)
    → Among (prefix ++ stage, ns) cs
unfolding stage_costs
stage_costs_sound prefix [] stage ns m = m
stage_costs_sound prefix ((name, k) ∷ cs) stage ns m =
    let rest = stage_costs_sound prefix cs stage ns in
    elim (Option-cases (strip_prefix prefix name)) [
      | inl other ↦ inr (rest (rw (other, stage_costs) at m))
      | inr (st, e) ↦ split st e (rw (e, stage_costs) at m) rest
    ]
  where
    split :
        (st : Bytes)
        → strip_prefix prefix name ≡ some st
        → Among (stage, ns) ((st, k) ∷ stage_costs prefix cs)
        → (Among (stage, ns) (stage_costs prefix cs) → Among (prefix ++ stage, ns) cs)
        → Among (prefix ++ stage, ns) ((name, k) ∷ cs)
    split st e (inl q) rest = inl (let whole = strip_prefix→eq prefix name st e in ground arith)
    split st e (inr q) rest = inr (rest q)

stage_costs_complete :
    (prefix : Bytes) (cs : Costs) (stage : Bytes) (ns : ℕ)
    → Among (prefix ++ stage, ns) cs
    → Among (stage, ns) (stage_costs prefix cs)
unfolding stage_costs
stage_costs_complete prefix [] stage ns m = m
stage_costs_complete prefix ((name, k) ∷ cs) stage ns (inl q) =
    let hit : strip_prefix prefix name ≡ some stage =
      ap (strip_prefix prefix) (sym (ap (λ (p : Bytes × ℕ). p.0) q))
      ∙ strip_prefix-append prefix stage in
    rw (hit, stage_costs) (inl (ap (λ (p : Bytes × ℕ). (stage, p.1)) q))
stage_costs_complete prefix ((name, k) ∷ cs) stage ns (inr q) =
    let rest = stage_costs_complete prefix cs stage ns q in
    elim (Option-cases (strip_prefix prefix name)) [
      | inl other ↦ rw (other, stage_costs) rest
      | inr (st, e) ↦ rw (e, stage_costs) (inr rest)
    ]

-- The samples whose name begins with a prefix: their sum, and how many there are.
abbrev pub begins_with : Bytes → Bytes → Bool
begins_with [] name = true
begins_with (c ∷ prefix) [] = false
begins_with (c ∷ prefix) (b ∷ name) = (c == b) && begins_with prefix name

abbrev pub sum_under : Bytes → Costs → ℕ
sum_under prefix [] = 0
sum_under prefix ((name, ns) ∷ cs) =
    (if begins_with prefix name then ns else 0) + sum_under prefix cs

abbrev pub number_under : Bytes → Costs → ℕ
number_under prefix [] = 0
number_under prefix ((name, ns) ∷ cs) =
    (if begins_with prefix name then 1 else 0) + number_under prefix cs

begins_with-strip_prefix :
    (prefix name : Bytes) → begins_with prefix name ≡ is_some (strip_prefix prefix name)
unfolding strip_prefix
begins_with-strip_prefix [] name = refl
begins_with-strip_prefix (c ∷ prefix) [] = refl
begins_with-strip_prefix (c ∷ prefix) (b ∷ name) =
    let rest = begins_with-strip_prefix prefix name in ground arith

total_cost-sum_under :
    (prefix : Bytes) (cs : Costs)
    → total_cost (stage_costs prefix cs) ≡ sum_under prefix cs % 2 ^ 64
unfolding stage_costs total_cost
total_cost-sum_under prefix [] = refl
total_cost-sum_under prefix ((name, ns) ∷ cs) =
    let rest = total_cost-sum_under prefix cs in
    let same_test = begins_with-strip_prefix prefix name in
    elim (Option-cases (strip_prefix prefix name)) [
      | inl e ↦ rw (same_test, e, stage_costs) (omega (arith, rest))
      | inr (st, e) ↦ rw (same_test, e, stage_costs) (omega (arith, rest))
    ]

length-number_under :
    (prefix : Bytes) (cs : Costs) → length (stage_costs prefix cs) ≡ number_under prefix cs
unfolding stage_costs
length-number_under prefix [] = refl
length-number_under prefix ((name, ns) ∷ cs) =
    let rest = length-number_under prefix cs in
    let same_test = begins_with-strip_prefix prefix name in
    elim (Option-cases (strip_prefix prefix name)) [
      | inl e ↦ rw (same_test, e, stage_costs) (omega (arith, rest))
      | inr (st, e) ↦ rw (same_test, e, stage_costs) (omega (arith, rest))
    ]

module _ (d : Doubles) where
  abbrev IsCold : d.Double → Costs → Bytes → Type 0
  IsCold t cs stage = (ns : ℕ) × Among (stage, ns) cs × (d.less (d.of_unsigned ns) t ≡ true)

  cold_edges_sound :
      (t : d.Double) (cs : Costs) (stage : Bytes)
      → Among (codes "*", stage) (cold_edges d t cs)
      → IsCold t cs stage
  unfolding cold_edges
  cold_edges_sound t [] stage m = elim m [ ]
  cold_edges_sound t ((st, k) ∷ cs) stage m = elim (Bool-cases (d.less (d.of_unsigned k) t)) [
    | inl cold ↦ split cold (rw cold at m) (cold_edges_sound t cs stage)
    | inr warm ↦ let (ns, a, c) = cold_edges_sound t cs stage (rw warm at m) in (ns, inr a, c)
  ]
    where
      split :
          d.less (d.of_unsigned k) t ≡ true
          → Among (codes "*", stage) ((codes "*", st) ∷ cold_edges d t cs)
          → (Among (codes "*", stage) (cold_edges d t cs) → IsCold t cs stage)
          → IsCold t ((st, k) ∷ cs) stage
      split cold (inl q) rest = (k, inl (ap (λ (p : Bytes × Bytes). (p.1, k)) q), cold)
      split cold (inr q) rest = let (ns, a, c) = rest q in (ns, inr a, c)

  cold_edges_complete :
      (t : d.Double) (cs : Costs) (stage : Bytes) (ns : ℕ)
      → Among (stage, ns) cs
      → d.less (d.of_unsigned ns) t ≡ true
      → Among (codes "*", stage) (cold_edges d t cs)
  unfolding cold_edges
  cold_edges_complete t [] stage ns m c = elim m [ ]
  cold_edges_complete t ((st, k) ∷ cs) stage ns (inl q) c =
      let cold : d.less (d.of_unsigned k) t ≡ true =
        ap (λ (p : Bytes × ℕ). d.less (d.of_unsigned p.1) t) (sym q) ∙ c in
      rw cold (inl (ap (λ (p : Bytes × ℕ). (codes "*", p.0)) q))
  cold_edges_complete t ((st, k) ∷ cs) stage ns (inr q) c =
      let rest = cold_edges_complete t cs stage ns q c in
      elim (Bool-cases (d.less (d.of_unsigned k) t)) [
        | inl cold ↦ rw cold (inr rest)
        | inr warm ↦ rw warm rest
      ]

  -- The threshold that the samples under a prefix give: a tenth of their mean.
  abbrev pub mean_tenth : Bytes → Costs → d.Double
  mean_tenth prefix costs =
      d.times
        (d.divide (d.of_unsigned (sum_under prefix costs % 2 ^ 64))
          (d.of_unsigned (number_under prefix costs)))
        d.tenth

  cold_threshold-mean_tenth :
      (prefix : Bytes) (costs : Costs)
      → cold_threshold d (stage_costs prefix costs) ≡ mean_tenth prefix costs
  unfolding cold_threshold
  cold_threshold-mean_tenth prefix costs =
      ap₂ (λ s n. d.times (d.divide (d.of_unsigned s) (d.of_unsigned n)) d.tenth)
        (total_cost-sum_under prefix costs) (length-number_under prefix costs)

  -- The edges into a stage are pruned exactly if a sample "<pipeline>::<stage>" lies below a tenth
  -- of the mean of the samples "<pipeline>::...": their sum modulo 2^64 over their number.
  pub build_constraints-prunes :
      (e : Entry) (costs : Costs) (stage : Bytes)
      → let prefix = e.pipeline_name ++ codes "::" in
        Among (codes "*", stage) (build_constraints d e costs).pruned_edges ↔ (
          (ns : ℕ) × Among (prefix ++ stage, ns) costs
          × (d.less (d.of_unsigned ns) (mean_tenth prefix costs) ≡ true))
  unfolding build_constraints context_of
  build_constraints-prunes e costs stage = (
    λ m.
        (let (ns, a, c) = there m in
          (
            ns,
            stage_costs_sound (e.pipeline_name ++ codes "::") costs stage ns a,
            subst (λ t. d.less (d.of_unsigned ns) t ≡ true) threshold c,
          )),
    λ (ns, a, c).
        back ns (stage_costs_complete (e.pipeline_name ++ codes "::") costs stage ns a)
          (subst (λ t. d.less (d.of_unsigned ns) t ≡ true) (sym threshold) c),
  )
    where
      ss : Costs
      ss = stage_costs (e.pipeline_name ++ codes "::") costs

      threshold : cold_threshold d ss ≡ mean_tenth (e.pipeline_name ++ codes "::") costs
      threshold = cold_threshold-mean_tenth (e.pipeline_name ++ codes "::") costs

      edges_of :
          (l : Costs) → (context_of d e costs l).pruned_edges ≡ cold_edges d (cold_threshold d l) l
      edges_of [] = unfold cold_edges in refl
      edges_of (x ∷ xs) = refl

      there :
          Among (codes "*", stage) (context_of d e costs ss).pruned_edges
          → IsCold (cold_threshold d ss) ss stage
      there m =
          cold_edges_sound (cold_threshold d ss) ss stage
            (subst (Among (codes "*", stage)) (edges_of ss) m)

      back :
          (ns : ℕ)
          → Among (stage, ns) ss
          → d.less (d.of_unsigned ns) (cold_threshold d ss) ≡ true
          → Among (codes "*", stage) (context_of d e costs ss).pruned_edges
      back ns a c =
          subst (Among (codes "*", stage)) (sym (edges_of ss))
            (cold_edges_complete (cold_threshold d ss) ss stage ns a c)
