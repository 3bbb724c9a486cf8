-- ===== src/Prelude/Lines.antt =====
-- Streams of lines: what a reader that splits at newlines gets.
use topo_llvm.Prelude.Lists.{All, All-append}
use topo_llvm.Prelude.Tests.{◌==◌, if◌then◌else◌, ltb, leb, Bool-cases}
use topo_llvm.Prelude.Text.{Bytes, codes, concat}
use Prim.Native.String.{String}
use topo_llvm.Prelude.Decimal.{digits_from, decimal, decimal_int}
use topo_llvm.Prelude.Int.{ℤ, pos, negsuc}
use Prim.Native.Nat.{ℕ, zero, suc, ◌+◌, ◌/◌, ◌%◌, ◌≤◌}
use mathlib.Core.Path.{◌≡◌, refl}
use mathlib.Core.Bool.{Bool, true, ◌&&◌}
use mathlib.Core.Logic.{inl, inr}
use mathlib.Core.List.{List, [], ◌∷◌, ◌++◌, append_assoc}
use native.Mathlib.Omega.{arith}

-- No control byte.
abbrev pub IsPrintable : Bytes → Type 0
IsPrintable s = All (λ c. 0x20 ≤ c) s

-- `c` before the first line, or before the unfinished one.
abbrev push : ℕ → List Bytes × Bytes → List Bytes × Bytes
push c ([], tail) = ([], c ∷ tail)
push c (l ∷ ls, tail) = ((c ∷ l) ∷ ls, tail)

-- The complete lines of a stream, and the unfinished one at its end.
unfoldable pub read_lines : Bytes → List Bytes × Bytes
read_lines [] = ([], [])
read_lines (c ∷ s) = let r = read_lines s in if c == 10 then ([] ∷ r.0, r.1) else push c r

-- A printable text and a newline are read as one line.
pub read_lines-line :
    (line rest : Bytes)
    → IsPrintable line
    → read_lines (line ++ 10 ∷ rest) ≡ (line ∷ (read_lines rest).0, (read_lines rest).1)
unfolding read_lines
read_lines-line [] rest h = refl
read_lines-line (c ∷ line) rest h = rw (read_lines-line line rest h.1) (ground (arith, h.0))

digits_from-IsPrintable : (f n : ℕ) → IsPrintable (digits_from f n)
unfolding digits_from
digits_from-IsPrintable zero n = (omega arith, tt)
digits_from-IsPrintable (suc f) n =
    let more =
      All-append (λ c. 0x20 ≤ c) (digits_from f (n / 10)) ((n % 10 + 48) ∷ [])
        (digits_from-IsPrintable f (n / 10)) (omega arith, tt) in
    elim (Bool-cases (ltb n 10)) [ inl e ↦ rw e (omega arith, tt) | inr e ↦ rw e more ]

pub decimal-IsPrintable : (n : ℕ) → IsPrintable (decimal n)
unfolding decimal
decimal-IsPrintable n = digits_from-IsPrintable n n

pub decimal_int-IsPrintable : (z : ℤ) → IsPrintable (decimal_int z)
unfolding decimal_int
decimal_int-IsPrintable (pos n) = decimal-IsPrintable n
decimal_int-IsPrintable (negsuc n) = (omega arith, decimal-IsPrintable (n + 1))

-- The test for literals of the source.
abbrev pub printable : Bytes → Bool
printable [] = true
printable (c ∷ s) = leb 0x20 c && printable s

pub printable→IsPrintable : (s : Bytes) → printable s ≡ true → IsPrintable s
printable→IsPrintable [] h = tt
printable→IsPrintable (c ∷ s) h = (ground arith, printable→IsPrintable s (ground arith))

pub append-IsPrintable : (s t : Bytes) → IsPrintable s → IsPrintable t → IsPrintable (s ++ t)
append-IsPrintable s t = All-append (λ c. 0x20 ≤ c) s t

concat-IsPrintable : (ss : List Bytes) → All IsPrintable ss → IsPrintable (concat ss)
concat-IsPrintable [] h = tt
concat-IsPrintable (s ∷ ss) h = append-IsPrintable s (concat ss) h.0 (concat-IsPrintable ss h.1)

-- A record written as printable fields and a line feed is read as one line.
pub read_lines-fields :
    (fields : List Bytes) (rest : Bytes)
    → All IsPrintable fields
    → read_lines ((concat fields ++ 10 ∷ []) ++ rest)
      ≡ (concat fields ∷ (read_lines rest).0, (read_lines rest).1)
read_lines-fields fields rest h =
    rw (append_assoc (concat fields) (10 ∷ []) rest)
      (read_lines-line (concat fields) rest (concat-IsPrintable fields h))

pub literal-IsPrintable : (s : String) → printable (codes s) ≡ true → IsPrintable (codes s)
literal-IsPrintable s h = printable→IsPrintable (codes s) h
