-- ===== src/Decompile/Tests.antt =====
-- Runs on concrete statements and names.
use topo_llvm.Prelude.{
  ◌≡◌, refl, ◌+◌, ◌-◌, ℕ, Bool, ◌||◌, some, none, All, List, [], ◌∷◌, Bytes, codes, same,
  if◌then◌else◌,
}
use topo_llvm.Decompile.Names.{strip_struct_name}
use topo_llvm.Decompile.Compact.{
  Expr, var_ref, binary_op, Stmt, var_decl, assign, expr_stmt, compound_assign, match_site,
  compact_compound_assigns,
}
use topo_llvm.Decompile.Args.{split_top_level_args, joined, split_from}
use topo_llvm.Decompile.Parts.{IsArgument, split_top_level_args_parts}
use topo_llvm.Decompile.Meaning.{
  Env, eval, exec, run_all, Disciplined, update-Agree, compact_compound_assigns_keep,
}

-- x = x - y; z = x; with the temporaries 1 and 2.
abbrev sum_then_copy : List Stmt
sum_then_copy =
    var_decl (codes "1") (some (var_ref (codes "x")))
    ∷ var_decl (codes "2")
        (some (binary_op (codes "-") (var_ref (codes "1")) (var_ref (codes "y"))))
    ∷ assign (var_ref (codes "x")) (var_ref (codes "2"))
    ∷ assign (var_ref (codes "z")) (var_ref (codes "x"))
    ∷ []

abbrev is_temporary : Bytes → Bool
is_temporary x = same x (codes "1") || same x (codes "2")

abbrev difference : Bytes → ℕ → ℕ → ℕ
difference op m n = if same op (codes "-") then m - n else m + n

abbrev nothing : Expr → Env ℕ → ℕ
nothing e env = 0

abbrev no_effect : Stmt → Env ℕ → Env ℕ
no_effect s env = env

abbrev x_is_9 : Env ℕ
x_is_9 v = if same v (codes "x") then 9 else 2

sum_then_copy-Disciplined : Disciplined difference nothing no_effect is_temporary sum_then_copy
unfolding match_site same exec eval
sum_then_copy-Disciplined = (
  (refl, refl, refl, refl, λ a b agree. agree (codes "y") refl),
  λ a b agree.
      update-Agree difference nothing no_effect is_temporary (codes "z") (agree (codes "x") refl)
        agree,
)

-- The compacted statements leave in z what the given ones leave in it.
compact_compound_assigns_keep_example :
    run_all difference nothing no_effect (compact_compound_assigns sum_then_copy) x_is_9 (codes "z")
    ≡ run_all difference nothing no_effect sum_then_copy x_is_9 (codes "z")
unfolding same
compact_compound_assigns_keep_example =
    compact_compound_assigns_keep difference nothing no_effect is_temporary sum_then_copy x_is_9
      sum_then_copy-Disciplined (codes "z") refl

compact_sum_then_copy :
    run_all difference nothing no_effect (compact_compound_assigns sum_then_copy) x_is_9 (codes "z")
    ≡ 7
unfolding run_all exec eval compact_compound_assigns match_site same
compact_sum_then_copy = refl

-- With the load as the right operand the operands change places: x = y - x becomes x -= y.
compact_right_load :
    compact_compound_assigns (
      var_decl (codes "1") (some (var_ref (codes "x")))
      ∷ var_decl
          (codes "2")
          (some (binary_op (codes "-") (var_ref (codes "y")) (var_ref (codes "1"))))
      ∷ assign (var_ref (codes "x")) (var_ref (codes "2"))
      ∷ [])
    ≡ expr_stmt (compound_assign (codes "-") (var_ref (codes "x")) (var_ref (codes "y"))) ∷ []
unfolding compact_compound_assigns match_site same
compact_right_load = refl

strip_struct_name_of : strip_struct_name (codes "struct.Point.123") ≡ codes "Point"
unfolding strip_struct_name same
strip_struct_name_of = refl

abbrev three_args : List Bytes
three_args = codes "int" ∷ codes "std::map<int, f(int,int)>" ∷ codes "4" ∷ []

-- The text is split at its two outer commas.
split_top_level_args_parts_example :
    (joined three_args ≡ codes "int,std::map<int, f(int,int)>,4") × All IsArgument three_args
unfolding split_top_level_args split_from
split_top_level_args_parts_example =
    split_top_level_args_parts (codes "int,std::map<int, f(int,int)>,4") three_args refl

unbalanced : split_top_level_args (codes "a>,b<") ≡ none
unfolding split_top_level_args split_from
unbalanced = refl
