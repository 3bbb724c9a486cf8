-- ===== src/Verifier/Collect.antt =====
-- `collectConstraintMembers` comes to an end on every table, also where constraints inherit in a circle.
use topo_llvm.Prelude.{
  ℕ, zero, suc, ◌≤◌, ◌<◌, ◌≡◌, refl, inl, inr, false, Bool-cases, Option, none, some, List, [], ◌∷◌,
  if◌then◌else◌, length, Bytes, same, arith, same→eq, if_cases,
}
use topo_llvm.SymbolMapper.{contains_name}
use topo_llvm.Sema.{ConstraintSymbol, find_entry}
use topo_llvm.Verifier.Constraints.{
  Constraints, parent_of, members_then, collect_from, collect_constraint_members,
}
use topo_llvm.Verifier.Total.{Answers, Answers-then}

-- The number of the entries that are not visited.
unvisited : List Bytes → Constraints → ℕ
unfolding contains_name
unvisited visited [] = 0
unvisited visited ((k, c) ∷ m) =
    let rest = unvisited visited m in if contains_name k visited then rest else suc rest

unvisited-length : (visited : List Bytes) (m : Constraints) → unvisited visited m ≤ length m
unfolding unvisited
unvisited-length visited [] = omega arith
unvisited-length visited ((k, c) ∷ m) = ground (arith, unvisited-length visited m)

unvisited_le :
    (name : Bytes) (visited : List Bytes) (m : Constraints)
    → unvisited (name ∷ visited) m ≤ unvisited visited m
unfolding unvisited contains_name
unvisited_le name visited [] = omega arith
unvisited_le name visited ((k, c) ∷ m) = ground (arith, unvisited_le name visited m)

-- A visit makes it smaller.
unvisited_lt :
    (name : Bytes) (visited : List Bytes) (m : Constraints) (c : ConstraintSymbol)
    → find_entry name m ≡ some c
    → contains_name name visited ≡ false
    → unvisited (name ∷ visited) m < unvisited visited m
unfolding unvisited contains_name
unvisited_lt name visited [] c e f = absurd cc
unvisited_lt name visited ((k, d) ∷ m) c e f = elim (Bool-cases (same k name)) [
  | inl g ↦
      let is_name = same→eq k name g in
      let fresh : contains_name k visited ≡ false = rw is_name f in
      ground (arith, unvisited_le name visited m, fresh, g)
  | inr g ↦
      let later = unvisited_lt name visited m c (ground (arith, e, g)) f in ground (arith, later, g)
]

members_then-Answers :
    (o : Option ConstraintSymbol) (collect : Bytes → Option (List Bytes))
    → ((c : ConstraintSymbol) → o ≡ some c → Answers (collect (parent_of c)))
    → Answers (members_then o collect)
members_then-Answers none collect h = ([], refl)
members_then-Answers (some c) collect h =
    Answers-then (collect (parent_of c)) _ (h c refl) (λ rest. (_, refl))

collect_from-Answers :
    (constraints : Constraints) (fuel : ℕ) (visited : List Bytes) (name : Bytes)
    → unvisited visited constraints < fuel
    → Answers (collect_from constraints fuel visited name)
unfolding collect_from
collect_from-Answers constraints fuel visited [] h = ([], refl)
collect_from-Answers constraints zero visited (c ∷ s) h = absurd (omega (arith, h))
collect_from-Answers constraints (suc fuel) visited (c ∷ s) h =
    if_cases Answers (contains_name (c ∷ s) visited) _ _ (λ e. ([], refl))
      (λ e. members_then-Answers (find_entry (c ∷ s) constraints) _ (λ d f.
        collect_from-Answers constraints fuel ((c ∷ s) ∷ visited) (parent_of d)
          (omega (arith, h, unvisited_lt (c ∷ s) visited constraints d f e))))

-- Collecting the members of a constraint and of those it inherits from gives a result on every table
-- and every name, whatever the table's parents are: the fuel of one more visit than there are entries is
-- enough.
pub collect_constraint_members-Answers :
    (constraints : Constraints) (name : Bytes)
    → Answers (collect_constraint_members constraints name)
unfolding collect_constraint_members
collect_constraint_members-Answers constraints name =
    collect_from-Answers constraints (suc (length constraints)) [] name
      (omega (arith, unvisited-length [] constraints))
