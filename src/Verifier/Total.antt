-- ===== src/Verifier/Total.antt =====
-- The verification comes to an end: enough fuel, for aliases without a cycle. `rank` measures the names:
-- an alias leads to a type of less weight.
use topo_llvm.Prelude.{
  conditional-some, ℕ, zero, suc, ◌+◌, ◌<◌, ◌≡◌, refl, subst, inl, inr, ◌⊎◌, Bool, true, false,
  ◌||◌, Option, none, some, List, [], ◌∷◌, ◌>>=◌, if◌then◌else◌, Bytes, codes, same, arith,
}
use topo_llvm.Prelude.Int.{ℤ}
use topo_llvm.Sema.{Modifier, TypeNode, type_node, TypeNodes, no_types, then_type, SymbolTable}
use topo_llvm.Verifier.Types.{
  Step, answer, follow, follow_or, after_step, match_step, LlvmType, LogicalTypeKind, last_part,
  no_parts, is_single, is_ref_or_ptr, alias_of, last_type, lifetime_inner, types_match,
}
use topo_llvm.Verifier.Names.{name_step, resolve_topo_type_name, join_args}

-- There is a result.
abbrev pub Answers {ℓ} : {A : Type ℓ} → Option A → Type ℓ
Answers {A = A} o = (a : A) × (o ≡ some a)

-- A step and what follows it on each of its results give a result.
pub Answers-then :
    {A B : Type 0} (o : Option A) (f : A → Option B)
    → Answers o
    → ((a : A) → Answers (f a))
    → Answers (o >>= f)
Answers-then o f h g = rw h.1 (g h.0)

-- The weight of a type: the rank of its name, and the weight of its last argument.
unfoldable mutual
  pub weight : (Bytes → ℕ) → TypeNode → ℕ
  weight rank (type_node parts m v args) = rank (last_part parts) + last_weight rank args

  pub last_weight : (Bytes → ℕ) → TypeNodes → ℕ
  last_weight rank no_types = 0
  last_weight rank (then_type t no_types) = suc (weight rank t)
  last_weight rank (then_type t (then_type u us)) = last_weight rank (then_type u us)

-- `P` holds of each of the arguments.
abbrev pub AllArgs : (TypeNode → Type 0) → TypeNodes → Type 0
AllArgs P no_types = Unit
AllArgs P (then_type t ts) = P t × AllArgs P ts

-- Each alias leads to a type of less weight than the rank of its name.
abbrev pub Acyclic : (Bytes → ℕ) → SymbolTable → Type 0
Acyclic rank symbols =
    (name : Bytes) (target : TypeNode)
    → alias_of symbols name ≡ some target
    → weight rank target < rank name

last_type-weight :
    (rank : Bytes → ℕ) (t : TypeNode) (ts : TypeNodes)
    → last_weight rank (then_type t ts) ≡ suc (weight rank (last_type t ts))
unfolding weight
last_type-weight rank t no_types = refl
last_type-weight rank t (then_type u us) = last_type-weight rank u us

inner-weight :
    (rank : Bytes → ℕ) (parts : List Bytes) (m : Modifier) (v : Option ℤ) (args : TypeNodes)
    (inner : TypeNode)
    → lifetime_inner (type_node parts m v args) ≡ some inner
    → weight rank inner < weight rank (type_node parts m v args)
unfolding weight lifetime_inner
inner-weight rank parts m v no_types inner e = absurd cc
inner-weight rank parts m v (then_type t ts) inner e =
    let is_inner = conditional-some (is_single (codes "lifetime") parts) (last_type t ts) inner e in
    subst (λ n. weight rank n < weight rank (type_node parts m v (then_type t ts))) is_inner
      (omega (arith, last_type-weight rank t ts))

after_step-Answers :
    {A : Type 0} (s : Step A) (ask : TypeNode → Option A)
    → ((u : TypeNode) → s ≡ follow u → Answers (ask u))
    → Answers (after_step s ask)
after_step-Answers (answer a) ask h = (a, refl)
after_step-Answers (follow u) ask h = h u refl

follow_or-cases :
    {A : Type 0} (o : Option TypeNode) (s : Step A) (u : TypeNode)
    → follow_or o s ≡ follow u
    → (o ≡ some u) ⊎ (s ≡ follow u)
follow_or-cases none s u h = inr h
follow_or-cases (some t) s u h = inl cc

answer_or-cases :
    {A : Type 0} (b : Bool) (a : A) (s : Step A) (u : TypeNode)
    → (if b then answer a else s) ≡ follow u
    → s ≡ follow u
answer_or-cases true a s u h = absurd cc
answer_or-cases false a s u h = h

module _ (rank : Bytes → ℕ) (symbols : SymbolTable) (acyclic : Acyclic rank symbols) where
  match_step-weight :
      (classify : Bytes → Option LogicalTypeKind) (t : LlvmType) (n u : TypeNode)
      → match_step symbols classify t n ≡ follow u
      → weight rank u < weight rank n
  unfolding match_step weight
  match_step-weight classify t (type_node parts m v args) u h =
      elim (follow_or-cases _ _ u
        (answer_or-cases (no_parts parts || is_single (codes "void") parts) _ _ u h)) [
          | inl e ↦ inner-weight rank parts m v args u e
          | inr e ↦ elim (follow_or-cases _ _ u (answer_or-cases (is_ref_or_ptr m) _ _ u e)) [
            | inl f ↦ omega (arith, acyclic (last_part parts) u f)
            | inr f ↦ absurd cc
          ]
        ]

  pub types_match-Answers :
      (classify : Bytes → Option LogicalTypeKind) (fuel : ℕ) (t : LlvmType) (n : TypeNode)
      → weight rank n < fuel
      → Answers (types_match symbols classify fuel t n)
  unfolding types_match
  types_match-Answers classify zero t n h = absurd (omega (arith, h))
  types_match-Answers classify (suc fuel) t n h =
      after_step-Answers (match_step symbols classify t n) (types_match symbols classify fuel t)
        (λ u e.
          types_match-Answers classify fuel t u
            (omega (arith, h, match_step-weight classify t n u e)))

  name_step-weight :
      (n u : TypeNode) → name_step symbols n ≡ follow u → weight rank u < weight rank n
  unfolding name_step weight
  name_step-weight (type_node [] m v args) u h = absurd cc
  name_step-weight (type_node (p ∷ ps) m v args) u h = elim (follow_or-cases _ _ u h) [
    | inl e ↦ omega (arith, acyclic (last_part (p ∷ ps)) u e)
    | inr e ↦ absurd cc
  ]

  pub resolve-Answers :
      (fuel : ℕ) (n : TypeNode)
      → weight rank n < fuel
      → Answers (resolve_topo_type_name symbols fuel n)
  unfolding resolve_topo_type_name
  resolve-Answers zero n h = absurd (omega (arith, h))
  resolve-Answers (suc fuel) n h =
      after_step-Answers (name_step symbols n) (resolve_topo_type_name symbols fuel)
        (λ u e. resolve-Answers fuel u (omega (arith, h, name_step-weight n u e)))

  pub join_args-Answers :
      (fuel : ℕ) (ts : TypeNodes)
      → AllArgs (λ n. weight rank n < fuel) ts
      → Answers (join_args symbols fuel ts)
  unfolding join_args
  join_args-Answers fuel no_types h = ([], refl)
  join_args-Answers fuel (then_type t no_types) h = resolve-Answers fuel t h.0
  join_args-Answers fuel (then_type t (then_type u us)) h =
      Answers-then (resolve_topo_type_name symbols fuel t) _ (resolve-Answers fuel t h.0) (λ name.
        Answers-then (join_args symbols fuel (then_type u us)) _
          (join_args-Answers fuel (then_type u us) h.1) (λ rest. (_, refl)))

-- The name alone, as a type.
abbrev pub named : Bytes → TypeNode
named name = type_node (name ∷ []) Modifier.plain none no_types

-- Two aliases that lead to each other, and are not "void", never give an answer, whatever the fuel is.
pub types_match_circle :
    (symbols : SymbolTable) (classify : Bytes → Option LogicalTypeKind) (a b : Bytes)
    → alias_of symbols a ≡ some (named b)
    → alias_of symbols b ≡ some (named a)
    → same a (codes "void") ≡ false
    → same b (codes "void") ≡ false
    → (fuel : ℕ) (t : LlvmType) → types_match symbols classify fuel t (named a) ≡ none
unfolding types_match match_step lifetime_inner
types_match_circle symbols classify a b f g h k zero t = refl
types_match_circle symbols classify a b f g h k (suc fuel) t =
    rw (h, f) (types_match_circle symbols classify b a g f k h fuel t)
