-- ===== src/Decompile/Parts.antt =====
-- What `splitTopLevelArgs` gives: the texts between the commas outside of all brackets.
use mathlib.Core.Option.{some-injective}
use topo_llvm.Prelude.{
  ◌≡◌, ◌⊎◌, refl, sym, ap, ◌∙◌, subst, ℕ, ◌+◌, Bool, true, false, ◌&&◌, ◌==◌, if◌then◌else◌, Option,
  none, some, Option-cases, Bool-cases, inl, inr, List, [], ◌∷◌, ◌++◌, Bytes, arith, All,
}
use topo_llvm.Decompile.Args.{
  Depth, top, is_top, bracket, pushed, at_comma, after_bracket, split_from, split_top_level_args,
  joined, joined-split_top_level_args, is_comma,
}

abbrev pub occurrences : ℕ → Bytes → ℕ
occurrences c [] = 0
occurrences c (b ∷ s) = (if b == c then 1 else 0) + occurrences c s

-- As many brackets of each kind are closed as are opened.
abbrev pub IsLevel : Bytes → Type 0
IsLevel s = (occurrences b'<' s ≡ occurrences b'>' s) × (occurrences b'(' s ≡ occurrences b')' s)

-- A comma of the text has level brackets before it.
abbrev pub TopComma : Bytes → Type 0
TopComma s = (before : Bytes) × (after : Bytes) × (s ≡ before ++ (b',' ∷ after)) × IsLevel before

abbrev pub IsArgument : Bytes → Type 0
IsArgument s = IsLevel s × ¬ (TopComma s)

-- The brackets that are open after a text.
abbrev At : Depth → Bytes → Type 0
At d s =
    (occurrences b'<' s ≡ d.angle + occurrences b'>' s)
    × (occurrences b'(' s ≡ d.paren + occurrences b')' s)

-- A text read so far: how deep it ends, and that it has no comma outside of its brackets.
abbrev Read : Depth → Bytes → Type 0
Read d cur = At d cur × ¬ (TopComma cur)

occurrences-snoc :
    (c b : ℕ) (s : Bytes)
    → occurrences c (s ++ b ∷ []) ≡ occurrences c s + (if b == c then 1 else 0)
occurrences-snoc c b [] = omega arith
occurrences-snoc c b (x ∷ s) = omega (arith, occurrences-snoc c b s)

bracket-At :
    (c : ℕ) (d d' : Depth) (cur : Bytes) → bracket c d ≡ some d' → At d cur → At d' (cur ++ c ∷ [])
bracket-At c d d' cur e h =
    let o = occurrences-snoc b'<' c cur in
    let p = occurrences-snoc b'>' c cur in
    let q = occurrences-snoc b'(' c cur in
    let r = occurrences-snoc b')' c cur in ground (arith, o, p, q, r)

-- Where one more byte follows a text, a place in the whole is the new byte's or one in the text.
snoc_split :
    (cur before after : Bytes) (c x : ℕ)
    → cur ++ c ∷ [] ≡ before ++ x ∷ after
    → ((cur ≡ before) × (c ≡ x)) ⊎ ((rest : Bytes) × (cur ≡ before ++ x ∷ rest))
snoc_split [] [] after c x e = inl (refl, cc)
snoc_split [] (b ∷ []) after c x e = absurd cc
snoc_split [] (b ∷ b' ∷ before) after c x e = absurd cc
snoc_split (y ∷ cur) [] after c x e = inr (cur, cc)
snoc_split (y ∷ cur) (b ∷ before) after c x e = elim (snoc_split cur before after c x cc) [
  | inl (q, r) ↦ inl (cc, r)
  | inr (rest, q) ↦ inr (rest, cc)
]

comma_stays : (d d' : Depth) → bracket b',' d ≡ some d' → d ≡ d'
comma_stays d d' e = some-injective d d' e

level_top : (d : Depth) (cur : Bytes) → At d cur → IsLevel cur → is_top d ≡ true
level_top d cur h l = ground arith

top-IsLevel : (d : Depth) (cur : Bytes) → is_top d ≡ true → At d cur → IsLevel cur
top-IsLevel d cur h a = ground arith

kept-Read :
    (c : ℕ) (d d' : Depth) (cur : Bytes)
    → bracket c d ≡ some d'
    → (c == b',' && is_top d') ≡ false
    → Read d cur
    → Read d' (cur ++ c ∷ [])
kept-Read c d d' cur e kept (at, no_comma) = (
  bracket-At c d d' cur e at,
  (λ (before, after, q, l). elim (snoc_split cur before after c b',' q) [
    | inl (here, comma) ↦
        let same_depth : d ≡ d' = comma_stays d d' (subst (λ x. bracket x d ≡ some d') comma e) in
        let is_top' : is_top d' ≡ true =
          ap is_top (sym same_depth) ∙ level_top d cur at (subst IsLevel (sym here) l) in
        ground arith
    | inr (rest, inside) ↦ no_comma (before, rest, inside, l)
  ]),
)

Read-IsArgument : (d : Depth) (cur : Bytes) → is_top d ≡ true → Read d cur → IsArgument cur
Read-IsArgument d cur h r = (top-IsLevel d cur h r.0, r.1)

no_comma_in_nothing : ¬ (TopComma [])
no_comma_in_nothing ([], after, e, l) = absurd cc
no_comma_in_nothing (b ∷ before, after, e, l) = absurd cc

and_right : (a b : Bool) → (a && b) ≡ true → b ≡ true
and_right true b h = h
and_right false b h = absurd cc

nothing-Read : (d : Depth) → is_top d ≡ true → Read d []
nothing-Read d h = (ground arith, no_comma_in_nothing)

is_top_at_comma :
    (c : ℕ) (d d' : Depth)
    → bracket c d ≡ some d'
    → (c == b',' && is_top d') ≡ true
    → is_top d ≡ true
is_top_at_comma c d d' e h =
    ap is_top (comma_stays d d' (subst (λ x. bracket x d ≡ some d') (is_comma c (is_top d') h) e))
    ∙ and_right (c == b',') (is_top d') h

step :
    (c : ℕ) (d d' : Depth) (cur t : Bytes) (b : Bool)
    → bracket c d ≡ some d'
    → (c == b',' && is_top d') ≡ b
    → split_from d cur (c ∷ t)
      ≡ at_comma b (pushed cur (split_from d' [] t)) (split_from d' (cur ++ (c ∷ [])) t)
unfolding split_from
step c d d' cur t b e eb =
    ap (after_bracket c cur (λ x. split_from x [] t) (λ x. split_from x (cur ++ (c ∷ [])) t)) e
    ∙ ap (λ x. at_comma x (pushed cur (split_from d' [] t)) (split_from d' (cur ++ (c ∷ [])) t)) eb

stuck : (c : ℕ) (d : Depth) (cur t : Bytes) → bracket c d ≡ none → split_from d cur (c ∷ t) ≡ none
unfolding split_from
stuck c d cur t e =
    ap (after_bracket c cur (λ x. split_from x [] t) (λ x. split_from x (cur ++ (c ∷ [])) t)) e

at_end : (d : Depth) (cur : Bytes) → is_top d ≡ true → split_from d cur [] ≡ some (cur ∷ [])
unfolding split_from
at_end d cur h = rw h refl

only_top : (d : Depth) (cur : Bytes) → is_top d ≡ false → split_from d cur [] ≡ none
unfolding split_from
only_top d cur h = rw h refl

pushed-IsArgument :
    (cur : Bytes) (o : Option (List Bytes)) (out : List Bytes)
    → IsArgument cur
    → ((rest : List Bytes) → o ≡ some rest → All IsArgument rest)
    → pushed cur o ≡ some out
    → All IsArgument out
pushed-IsArgument cur none out w ih h = absurd cc
pushed-IsArgument cur (some rest) out w ih h =
    subst (All IsArgument) (some-injective (cur ∷ rest) out h) (w, ih rest refl)

split_from-IsArgument :
    (s : Bytes) (d : Depth) (cur : Bytes) (out : List Bytes)
    → Read d cur
    → split_from d cur s ≡ some out
    → All IsArgument out
split_from-IsArgument [] d cur out r h = elim (Bool-cases (is_top d)) [
  | inl e ↦
      subst (All IsArgument) (some-injective (cur ∷ []) out (sym (at_end d cur e) ∙ h))
        (Read-IsArgument d cur e r, tt)
  | inr e ↦ let no : none ≡ some out = sym (only_top d cur e) ∙ h in absurd cc
]
split_from-IsArgument (c ∷ s) d cur out r h = elim (Option-cases (bracket c d)) [
  | inl e ↦ let no : none ≡ some out = sym (stuck c d cur s e) ∙ h in absurd cc
  | inr (d', e) ↦ elim (Bool-cases (c == b',' && is_top d')) [
    | inl eb ↦
        pushed-IsArgument cur (split_from d' [] s) out
          (Read-IsArgument d cur (is_top_at_comma c d d' e eb) r)
          (λ rest g.
            split_from-IsArgument s d' [] rest
              (nothing-Read d' (and_right (c == b',') (is_top d') eb)) g)
          (sym (step c d d' cur s true e eb) ∙ h)
    | inr eb ↦
        split_from-IsArgument s d' (cur ++ (c ∷ [])) out (kept-Read c d d' cur e eb r)
          (sym (step c d d' cur s false e eb) ∙ h)
  ]
]

-- The arguments that a text is split into, with commas put between them, are the text; in each of them as
-- many angle brackets, and as many parentheses, are closed as are opened, and none has a comma with level
-- brackets before it.
pub split_top_level_args_parts :
    (s : Bytes) (out : List Bytes)
    → split_top_level_args s ≡ some out
    → (joined out ≡ s) × All IsArgument out
unfolding split_top_level_args
split_top_level_args_parts s out h = (
  joined-split_top_level_args s out h,
  split_from-IsArgument s top [] out (nothing-Read top refl) h,
)
