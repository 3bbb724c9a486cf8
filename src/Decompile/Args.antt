-- ===== src/Decompile/Args.antt =====
-- `splitTopLevelArgs`: the arguments of a demangled template clause.
use mathlib.Core.Option.{some-injective}
use topo_llvm.Prelude.{
  ◌≡◌, refl, sym, ap, ◌+◌, ◌-◌, ℕ, Bool, true, false, ◌&&◌, ◌==◌, Option, none, some, Bool-cases,
  inl, inr, List, [], ◌∷◌, ◌++◌, append_assoc, append-nil, if◌then◌else◌, Bytes, subst, arith,
}

-- How deep a place lies in angle brackets and in parentheses.
pub record Depth : Type 0 where
  pub angle : ℕ
  pub paren : ℕ

abbrev pub top : Depth
top = record { angle = 0; paren = 0 }

abbrev pub is_top : Depth → Bool
is_top d = d.angle == 0 && d.paren == 0

abbrev pub bracket : ℕ → Depth → Option Depth
bracket c d =
    if c == b'<'
    then some record d { angle = d.angle + 1 }
    else if c == b'>'
    then (if d.angle == 0 then none else some record d { angle = d.angle - 1 })
    else if c == b'('
    then some record d { paren = d.paren + 1 }
    else if c == b')'
    then (if d.paren == 0 then none else some record d { paren = d.paren - 1 })
    else some d

abbrev pub pushed : Bytes → Option (List Bytes) → Option (List Bytes)
pushed cur none = none
pushed cur (some rest) = some (cur ∷ rest)

abbrev pub at_comma : Bool → Option (List Bytes) → Option (List Bytes) → Option (List Bytes)
at_comma true parted kept = parted
at_comma false parted kept = kept

abbrev pub after_bracket :
    ℕ
    → Bytes
    → (Depth → Option (List Bytes))
    → (Depth → Option (List Bytes))
    → Option Depth
    → Option (List Bytes)
after_bracket c cur parted kept none = none
after_bracket c cur parted kept (some d) =
    at_comma (c == b',' && is_top d) (pushed cur (parted d)) (kept d)

unfoldable pub split_from : Depth → Bytes → Bytes → Option (List Bytes)
split_from d cur [] = if is_top d then some (cur ∷ []) else none
split_from d cur (c ∷ s) =
    after_bracket c cur (λ d'. split_from d' [] s) (λ d'. split_from d' (cur ++ (c ∷ [])) s)
      (bracket c d)

unfoldable pub split_top_level_args : Bytes → Option (List Bytes)
unfolding split_from
split_top_level_args s = split_from top [] s

-- The texts of a list that is not empty, with commas between them.
abbrev pub join_after : Bytes → List Bytes → Bytes
join_after x [] = x
join_after x (y ∷ ys) = x ++ (b',' ∷ join_after y ys)

abbrev pub Joins : List Bytes → Bytes → Type 0
Joins [] s = ⊥
Joins (x ∷ xs) s = join_after x xs ≡ s

abbrev pub joined : List Bytes → Bytes
joined [] = []
joined (x ∷ xs) = join_after x xs

some_parts :
    (x : Bytes) (xs out : List Bytes) (s : Bytes)
    → some (x ∷ xs) ≡ some out
    → join_after x xs ≡ s
    → Joins out s
some_parts x xs [] s h e = absurd cc
some_parts x xs (y ∷ ys) s h e = subst (λ o. Joins o s) (some-injective (x ∷ xs) (y ∷ ys) h) e

pushed-Joins :
    (cur s : Bytes) (o : Option (List Bytes)) (out : List Bytes)
    → ((rest : List Bytes) → o ≡ some rest → Joins rest s)
    → pushed cur o ≡ some out
    → Joins out (cur ++ (b',' ∷ s))
pushed-Joins cur s none out ih h = absurd cc
pushed-Joins cur s (some []) out ih h = absurd (ih [] refl)
pushed-Joins cur s (some (y ∷ ys)) out ih h =
    some_parts cur (y ∷ ys) out (cur ++ (b',' ∷ s)) h
      (ap (λ t. cur ++ (b',' ∷ t)) (ih (y ∷ ys) refl))

pub is_comma : (c : ℕ) (b : Bool) → (c == b',' && b) ≡ true → c ≡ b','
is_comma c b h = ground arith

-- What a byte that is split at, and one that is kept, leave to be joined.
next-Joins :
    (c : ℕ) (cur s : Bytes) (o : Option Depth) (parted kept : Depth → Option (List Bytes))
    (out : List Bytes)
    → ((d : Depth) (rest : List Bytes) → parted d ≡ some rest → Joins rest s)
    → ((d : Depth) (rest : List Bytes) → kept d ≡ some rest → Joins rest ((cur ++ (c ∷ [])) ++ s))
    → after_bracket c cur parted kept o ≡ some out
    → Joins out (cur ++ (c ∷ s))
next-Joins c cur s none parted kept out part keep h = absurd cc
next-Joins c cur s (some d) parted kept out part keep h =
    elim (Bool-cases (c == b',' && is_top d)) [
      | inl e ↦
          subst (λ b. Joins out (cur ++ (b ∷ s))) (sym (is_comma c (is_top d) e))
            (pushed-Joins cur s (parted d) out (part d)
              (subst (λ b. at_comma b (pushed cur (parted d)) (kept d) ≡ some out) e h))
      | inr e ↦
          subst (Joins out) (append_assoc cur (c ∷ []) s)
            (keep d out (subst (λ b. at_comma b (pushed cur (parted d)) (kept d) ≡ some out) e h))
    ]

final-Joins :
    (b : Bool) (cur : Bytes) (out : List Bytes)
    → (if b then some (cur ∷ []) else none) ≡ some out
    → Joins out (cur ++ [])
final-Joins true cur out h = some_parts cur [] out (cur ++ []) h (sym (append-nil cur))
final-Joins false cur out h = absurd cc

split_from-Joins :
    (s : Bytes) (d : Depth) (cur : Bytes) (out : List Bytes)
    → split_from d cur s ≡ some out
    → Joins out (cur ++ s)
unfolding split_from
split_from-Joins [] d cur out h = final-Joins (is_top d) cur out h
split_from-Joins (c ∷ s) d cur out h =
    next-Joins c cur s (bracket c d) (λ d'. split_from d' [] s)
      (λ d'. split_from d' (cur ++ (c ∷ [])) s) out (λ d' rest. split_from-Joins s d' [] rest)
      (λ d' rest. split_from-Joins s d' (cur ++ (c ∷ [])) rest) h

Joins-joined : (out : List Bytes) (s : Bytes) → Joins out s → joined out ≡ s
Joins-joined [] s j = absurd j
Joins-joined (x ∷ xs) s j = j

-- The arguments that a text is split into, with commas put between them, are the text.
pub joined-split_top_level_args :
    (s : Bytes) (out : List Bytes) → split_top_level_args s ≡ some out → joined out ≡ s
unfolding split_top_level_args
joined-split_top_level_args s out h = Joins-joined out s (split_from-Joins s top [] out h)
