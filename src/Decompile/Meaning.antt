-- ===== src/Decompile/Meaning.antt =====
-- What statements do to the variables, and where the compaction keeps it. `apply` is what an operation
-- computes, and `eval_other` and `effect` are what the expressions and statements of other kinds do.
use topo_llvm.Prelude.{
  ◌≡◌, refl, sym, ap, ap₂, subst, ◌∙◌, inl, inr, Bool, true, false, Bool-cases, ◌&&◌, ◌||◌, Option,
  none, some, Option-cases, List, [], ◌∷◌, ◌>>=◌, if◌then◌else◌, Bytes, same, same→eq, same_refl,
  conditional-some,
}
use mathlib.Core.Bool.{true≢false}
use topo_llvm.Decompile.Compact.{
  Expr, var_ref, binary_op, compound_assign, other_expr, Stmt, var_decl, assign, expr_stmt,
  other_stmt, load_of, binop_of, copy_of, is_ref, Site, is_site, site_of, match_site, compound_of,
  compact_compound_assigns,
}

abbrev pub Env : Type 0 → Type 0
Env V = Bytes → V

abbrev pub update : {V : Type 0} → Bytes → V → Env V → Env V
update x v env y = if same y x then v else env y

both_true : (a b : Bool) → (a && b) ≡ true → (a ≡ true) × (b ≡ true)
both_true true b h = (refl, h)
both_true false b h = absurd cc

bind_some :
    {A B : Type 0} (o : Option A) (f : A → Option B) (b : B)
    → (o >>= f) ≡ some b
    → (a : A) × (o ≡ some a) × (f a ≡ some b)
bind_some none f b h = absurd cc
bind_some (some a) f b h = (a, refl, h)

abbrev get : {A B : Type 0} → (A → B) → B → Option A → B
get f b (some a) = f a
get f b none = b

load_of-shape :
    (s : Stmt) (p : Bytes × Bytes) → load_of s ≡ some p → s ≡ var_decl p.0 (some (var_ref p.1))
load_of-shape (var_decl n none) p h = absurd cc
load_of-shape (var_decl n (some (var_ref x))) p h =
    ap (get (λ q. var_decl q.0 (some (var_ref q.1))) (var_decl n (some (var_ref x)))) h
load_of-shape (var_decl n (some (binary_op o l r))) p h = absurd cc
load_of-shape (var_decl n (some (compound_assign o t v))) p h = absurd cc
load_of-shape (var_decl n (some (other_expr k))) p h = absurd cc
load_of-shape (assign t v) p h = absurd cc
load_of-shape (expr_stmt e) p h = absurd cc
load_of-shape (other_stmt k) p h = absurd cc

binop_of-shape :
    (s : Stmt) (p : Bytes × Bytes × Expr × Expr)
    → binop_of s ≡ some p
    → s ≡ var_decl p.0 (some (binary_op p.1 p.2 p.3))
binop_of-shape (var_decl n none) p h = absurd cc
binop_of-shape (var_decl n (some (var_ref x))) p h = absurd cc
binop_of-shape (var_decl n (some (binary_op o l r))) p h =
    ap (get (λ q. var_decl q.0 (some (binary_op q.1 q.2 q.3))) (var_decl n none)) h
binop_of-shape (var_decl n (some (compound_assign o t v))) p h = absurd cc
binop_of-shape (var_decl n (some (other_expr k))) p h = absurd cc
binop_of-shape (assign t v) p h = absurd cc
binop_of-shape (expr_stmt e) p h = absurd cc
binop_of-shape (other_stmt k) p h = absurd cc

copy_of-shape :
    (s : Stmt) (p : Bytes × Bytes) → copy_of s ≡ some p → s ≡ assign (var_ref p.0) (var_ref p.1)
copy_of-shape (var_decl n o) p h = absurd cc
copy_of-shape (assign (var_ref t) (var_ref v)) p h =
    ap (get (λ q. assign (var_ref q.0) (var_ref q.1)) (expr_stmt (var_ref t))) h
copy_of-shape (assign (var_ref t) (binary_op o l r)) p h = absurd cc
copy_of-shape (assign (var_ref t) (compound_assign o l r)) p h = absurd cc
copy_of-shape (assign (var_ref t) (other_expr k)) p h = absurd cc
copy_of-shape (assign (binary_op o l r) v) p h = absurd cc
copy_of-shape (assign (compound_assign o l r) v) p h = absurd cc
copy_of-shape (assign (other_expr k) v) p h = absurd cc
copy_of-shape (expr_stmt e) p h = absurd cc
copy_of-shape (other_stmt k) p h = absurd cc

guard_true : {A : Type 0} (b : Bool) (x y : A) → (if b then some x else none) ≡ some y → b ≡ true
guard_true true x y h = refl
guard_true false x y h = absurd cc

copy_is :
    (k : Site) (copy : Bytes × Bytes)
    → is_site k copy ≡ true
    → (copy.0 ≡ k.target) × (copy.1 ≡ k.binop_name)
copy_is k (target, value) h =
    let (load, names) = both_true (is_ref k.load_name k.lhs || is_ref k.load_name k.rhs) _ h in
    let (t, v) = both_true (same target k.target) _ names in
    (same→eq target k.target t, same→eq value k.binop_name v)

match_site-shape :
    (a b c : Stmt) (k : Site)
    → match_site a b c ≡ some k
    → (a ≡ var_decl k.load_name (some (var_ref k.target)))
      × (b ≡ var_decl k.binop_name (some (binary_op k.op k.lhs k.rhs)))
      × (c ≡ assign (var_ref k.target) (var_ref k.binop_name))
unfolding match_site
match_site-shape a b c k h =
    let (load, ea, h₁) = bind_some (load_of a) _ k h in
    let (binop, eb, h₂) = bind_some (binop_of b) _ k h₁ in
    let (copy, ec, h₃) = bind_some (copy_of c) _ k h₂ in
    let site = site_of load binop in
    let (et, ev) = copy_is site copy (guard_true (is_site site copy) site k h₃) in
    subst
      (λ k.
        (a ≡ var_decl k.load_name (some (var_ref k.target)))
        × (b ≡ var_decl k.binop_name (some (binary_op k.op k.lhs k.rhs)))
        × (c ≡ assign (var_ref k.target) (var_ref k.binop_name)))
      (conditional-some (is_site site copy) site k h₃)
      (
        load_of-shape a load ea,
        binop_of-shape b binop eb,
        copy_of-shape c copy ec ∙ ap₂ (λ t v. assign (var_ref t) (var_ref v)) et ev,
      )

compact_none :
    (a b c : Stmt) (ss : List Stmt)
    → match_site a b c ≡ none
    → compact_compound_assigns (a ∷ b ∷ c ∷ ss) ≡ a ∷ compact_compound_assigns (b ∷ c ∷ ss)
unfolding compact_compound_assigns
compact_none a b c ss h = rw (h, compact_compound_assigns) refl

compact_some :
    (a b c : Stmt) (ss : List Stmt) (k : Site)
    → match_site a b c ≡ some k
    → compact_compound_assigns (a ∷ b ∷ c ∷ ss) ≡ compound_of k ∷ compact_compound_assigns ss
unfolding compact_compound_assigns
compact_some a b c ss k h = rw (h, compact_compound_assigns) refl

is_ref-shape : (name : Bytes) (e : Expr) → is_ref name e ≡ true → e ≡ var_ref name
is_ref-shape name (var_ref x) h = ap var_ref (same→eq x name h)
is_ref-shape name (binary_op o l r) h = absurd cc
is_ref-shape name (compound_assign o t v) h = absurd cc
is_ref-shape name (other_expr k) h = absurd cc

update_read : {V : Type 0} (x : Bytes) (v : V) (env : Env V) → update x v env x ≡ v
update_read x v env = rw (same_refl x) refl

module _ {V : Type 0} (apply : Bytes → V → V → V) (eval_other : Expr → Env V → V)
    (effect : Stmt → Env V → Env V) where
  unfoldable pub eval : Expr → Env V → V
  eval (var_ref x) env = env x
  eval (binary_op op l r) env = apply op (eval l env) (eval r env)
  eval (compound_assign op t v) env = eval_other (compound_assign op t v) env
  eval (other_expr k) env = eval_other (other_expr k) env

  unfoldable pub exec : Stmt → Env V → Env V
  unfolding eval
  exec (var_decl x (some e)) env = update x (eval e env) env
  exec (assign (var_ref x) e) env = update x (eval e env) env
  exec (expr_stmt (compound_assign op (var_ref x) e)) env =
      update x (apply op (env x) (eval e env)) env
  exec s env = effect s env

  unfoldable pub run_all : List Stmt → Env V → Env V
  unfolding exec
  run_all [] env = env
  run_all (s ∷ ss) env = run_all ss (exec s env)

  module _ (temporary : Bytes → Bool) where
    -- The variables that are not temporary are the same.
    abbrev pub Agree : Env V → Env V → Type 0
    Agree a b = (x : Bytes) → temporary x ≡ false → a x ≡ b x

    -- The statement does not use temporaries to change other variables.
    abbrev pub Respects : Stmt → Type 0
    Respects s = (a b : Env V) → Agree a b → Agree (exec s a) (exec s b)

    -- The names of the two declarations are temporary and the target is not; the load is the left operand,
    -- and the right one uses no temporary.
    abbrev pub IsSafe : Site → Type 0
    IsSafe k =
        (temporary k.load_name ≡ true)
        × (temporary k.binop_name ≡ true)
        × (temporary k.target ≡ false)
        × (is_ref k.load_name k.lhs ≡ true)
        × ((a b : Env V) → Agree a b → eval k.rhs a ≡ eval k.rhs b)

    abbrev pub Keeps : Stmt → Option Site → Type 0 → Type 0 → Type 0
    Keeps a none next behind = Respects a × next
    Keeps a (some k) next behind = IsSafe k × behind

    -- Each place that the compaction changes is safe, and the other statements respect the temporaries.
    abbrev pub Disciplined : List Stmt → Type 0
    Disciplined [] = Unit
    Disciplined (a ∷ []) = Respects a
    Disciplined (a ∷ b ∷ []) = Respects a × Respects b
    Disciplined (a ∷ b ∷ c ∷ ss) =
        Keeps a (match_site a b c) (Disciplined (b ∷ c ∷ ss)) (Disciplined ss)

    set_temporary :
        (x : Bytes) (v : V) (env : Env V) → temporary x ≡ true → Agree env (update x v env)
    set_temporary x v env h y l = elim (Bool-cases (same y x)) [
      | inl e ↦ absurd (true≢false (sym h ∙ ap temporary (sym (same→eq y x e)) ∙ l))
      | inr e ↦ rw e refl
    ]

    pub update-Agree :
        (x : Bytes) {v w : V} {a b : Env V}
        → v ≡ w
        → Agree a b
        → Agree (update x v a) (update x w b)
    update-Agree x h agree y l = elim (Bool-cases (same y x)) [
      | inl e ↦ rw e h
      | inr e ↦ rw e (agree y l)
    ]

    left_load :
        (k : Site) (v : V) (b : Env V)
        → is_ref k.load_name k.lhs ≡ true
        → eval k.lhs (update k.load_name v b) ≡ v
    unfolding eval
    left_load k v b h = rw (is_ref-shape k.load_name k.lhs h) (update_read k.load_name v b)

    site_exec :
        (k : Site) {a b : Env V}
        → IsSafe k
        → Agree a b
        → Agree (exec (compound_of k) a) (
            exec (assign (var_ref k.target) (var_ref k.binop_name)) (
              exec
                (var_decl k.binop_name (some (binary_op k.op k.lhs k.rhs)))
                (exec (var_decl k.load_name (some (var_ref k.target))) b)))
    unfolding exec eval
    site_exec k {a} {b} (load, bin, target, left, rhs) agree =
        let ea : Env V = update k.load_name (b k.target) b in
        let value : V = apply k.op (eval k.lhs ea) (eval k.rhs ea) in
        let agree_ea : Agree a ea =
          λ y l. agree y l ∙ set_temporary k.load_name (b k.target) b load y l in
        let agree_eb : Agree a (update k.binop_name value ea) =
          λ y l. agree_ea y l ∙ set_temporary k.binop_name value ea bin y l in
        let values : apply k.op (a k.target) (eval k.rhs a) ≡ value =
          ap₂ (apply k.op) (agree k.target target ∙ sym (left_load k (b k.target) b left))
            (rhs a ea agree_ea) in
        update-Agree k.target (rw left (values ∙ sym (update_read k.binop_name value ea))) agree_eb

    compact-Agree :
        (ss : List Stmt) (a b : Env V)
        → Disciplined ss
        → Agree a b
        → Agree (run_all (compact_compound_assigns ss) a) (run_all ss b)
    unfolding run_all compact_compound_assigns
    compact-Agree [] a b d agree = agree
    compact-Agree (s ∷ []) a b d agree = d a b agree
    compact-Agree (s ∷ t ∷ []) a b (ds, dt) agree = dt (exec s a) (exec s b) (ds a b agree)
    compact-Agree (s ∷ t ∷ u ∷ ss) a b d agree = elim (Option-cases (match_site s t u)) [
      | inl e ↦
          let (ds, next) : Respects s × Disciplined (t ∷ u ∷ ss) =
            subst (λ o. Keeps s o (Disciplined (t ∷ u ∷ ss)) (Disciplined ss)) e d in
          rw (compact_none s t u ss e)
            (compact-Agree (t ∷ u ∷ ss) (exec s a) (exec s b) next (ds a b agree))
      | inr (k, e) ↦
          let (safe, behind) : IsSafe k × Disciplined ss =
            subst (λ o. Keeps s o (Disciplined (t ∷ u ∷ ss)) (Disciplined ss)) e d in
          let (es, et, eu) = match_site-shape s t u k e in
          rw (compact_some s t u ss k e, es, et, eu)
            (compact-Agree ss (exec (compound_of k) a) _ behind (site_exec k safe agree))
    ]

    -- If each place that the compaction changes is safe and the other statements do not use temporaries to
    -- change other variables, then the compacted statements leave in each variable that is not temporary
    -- what the given statements leave in it.
    pub compact_compound_assigns_keep :
        (ss : List Stmt) (env : Env V)
        → Disciplined ss
        → (x : Bytes) → temporary x ≡ false
        → run_all (compact_compound_assigns ss) env x ≡ run_all ss env x
    compact_compound_assigns_keep ss env d = compact-Agree ss env env d (λ x l. refl)
