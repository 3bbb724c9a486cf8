-- ===== src/Decompile/Compact.antt =====
-- `compactCompoundAssigns`: a load, an operation and a store of one variable become a compound assignment.
use topo_llvm.Prelude.{
  Bool, false, ◌&&◌, ◌||◌, Option, none, some, List, [], ◌∷◌, ◌>>=◌, if◌then◌else◌, ℕ, Bytes, same,
}

pub data Expr : Type 0 where
  var_ref : Bytes → Expr
  binary_op : Bytes → Expr → Expr → Expr
  compound_assign : Bytes → Expr → Expr → Expr
  other_expr : ℕ → Expr

pub data Stmt : Type 0 where
  var_decl : Bytes → Option Expr → Stmt
  assign : Expr → Expr → Stmt
  expr_stmt : Expr → Stmt
  other_stmt : ℕ → Stmt

-- A declaration that copies a variable: its name, and the variable.
abbrev pub load_of : Stmt → Option (Bytes × Bytes)
load_of (var_decl name (some (var_ref x))) = some (name, x)
load_of _ = none

-- A declaration whose value is an operation: its name, the operation and the operands.
abbrev pub binop_of : Stmt → Option (Bytes × Bytes × Expr × Expr)
binop_of (var_decl name (some (binary_op op l r))) = some (name, op, l, r)
binop_of _ = none

-- An assignment of one variable to another.
abbrev pub copy_of : Stmt → Option (Bytes × Bytes)
copy_of (assign (var_ref target) (var_ref value)) = some (target, value)
copy_of _ = none

abbrev pub is_ref : Bytes → Expr → Bool
is_ref name (var_ref x) = same x name
is_ref name _ = false

-- A place where the pattern stands.
pub record Site : Type 0 where
  pub load_name : Bytes
  pub target : Bytes
  pub binop_name : Bytes
  pub op : Bytes
  pub lhs : Expr
  pub rhs : Expr

abbrev pub is_site : Site → Bytes × Bytes → Bool
is_site k copy =
    (is_ref k.load_name k.lhs || is_ref k.load_name k.rhs)
    && (same copy.0 k.target && same copy.1 k.binop_name)

abbrev pub site_of : Bytes × Bytes → Bytes × Bytes × Expr × Expr → Site
site_of (load_name, target) (binop_name, op, l, r) = record {
  load_name = load_name;
  target = target;
  binop_name = binop_name;
  op = op;
  lhs = l;
  rhs = r;
}

unfoldable pub match_site : Stmt → Stmt → Stmt → Option Site
match_site a b c = do
  load ← load_of a
  binop ← binop_of b
  copy ← copy_of c
  if is_site (site_of load binop) copy then some (site_of load binop) else none

-- The operand beside the load; the left one counts as the load if both are.
abbrev pub compound_of : Site → Stmt
compound_of k =
    expr_stmt
      (compound_assign k.op (var_ref k.target) (if is_ref k.load_name k.lhs then k.rhs else k.lhs))

-- The new statement begins no pattern, so the loop goes on behind it.
unfoldable pub compact_compound_assigns : List Stmt → List Stmt
unfolding match_site
compact_compound_assigns [] = []
compact_compound_assigns (a ∷ []) = a ∷ []
compact_compound_assigns (a ∷ b ∷ []) = a ∷ b ∷ []
compact_compound_assigns (a ∷ b ∷ c ∷ stmts) = elim (match_site a b c) [
  | none ↦ a ∷ compact_compound_assigns (b ∷ c ∷ stmts)
  | some k ↦ compound_of k ∷ compact_compound_assigns stmts
]
