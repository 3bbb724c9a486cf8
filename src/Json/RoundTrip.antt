-- ===== src/Json/RoundTrip.antt =====
-- `writeJsonString` against the RFC 8259 reader, and the framing of the records that use it.
use topo_llvm.Prelude.Lines.{IsPrintable}
use topo_llvm.Prelude.{
  ℕ, ◌/◌, ◌%◌, ◌≤◌, ◌<◌, ◌≡◌, refl, Option, none, some, [], ◌∷◌, ◌++◌, ◌==◌, if◌then◌else◌, Bytes,
  arith, All-append, append_assoc, Bool-cases, inl, inr, ◌∙◌,
}
use topo_llvm.Json.{hex_digit, hex4, escape_byte, escape_loop, write_json_string}
use topo_llvm.Json.Reader.{
  unhex, unhex2, short_form, push, read_body, read_escape, read_unicode, read_string,
}

unhex-hex_digit : (n : ℕ) → n < 16 → unhex (hex_digit n) ≡ some n
unfolding unhex hex_digit
unhex-hex_digit n h = ground arith

zero_digit : (n : ℕ) → n ≡ 0 → hex_digit n ≡ 0x30
unfolding hex_digit
zero_digit n h = ground arith

-- One escaped byte reads back as itself, whatever follows.
read_unicode-control :
    (c : ℕ) (t : Bytes) → c < 0x20 → read_unicode (hex4 c ++ t) ≡ push (some c) (read_body t)
unfolding hex4 read_unicode unhex2
read_unicode-control c t h =
    rw
      (
        zero_digit (c / 4096 % 16) (omega arith),
        zero_digit (c / 256 % 16) (omega arith),
        unhex-hex_digit (c / 16 % 16) (omega arith),
        unhex-hex_digit (c % 16) (omega arith),
      )
      (ground arith)

read_body-escape_byte :
    (c : ℕ) (t : Bytes) → read_body (escape_byte c ++ t) ≡ push (some c) (read_body t)
unfolding escape_byte read_body read_escape short_form
read_body-escape_byte c t = ground (arith, read_unicode-control c t)

-- The bytes up to the first NUL.
unfoldable pub c_string : Bytes → Bytes
c_string [] = []
c_string (c ∷ s) = if c == 0 then [] else c ∷ c_string s

closing_quote : (rest : Bytes) → read_body (0x22 ∷ rest) ≡ some ([], rest)
unfolding read_body
closing_quote rest = refl

push_text :
    (c : ℕ) (s rest : Bytes) (r : Option (Bytes × Bytes))
    → r ≡ some (s, rest)
    → push (some c) r ≡ some (c ∷ s, rest)
unfolding push
push_text c s rest r e = ground arith

read_body-escape_loop :
    (s rest : Bytes) → read_body (escape_loop s ++ 0x22 ∷ rest) ≡ some (c_string s, rest)
unfolding escape_loop c_string
read_body-escape_loop [] rest = closing_quote rest
read_body-escape_loop (c ∷ s) rest = elim (Bool-cases (c == 0)) [
  | inl nul ↦ rw nul (closing_quote rest)
  | inr more ↦
      rw (more, append_assoc (escape_byte c) (escape_loop s) (0x22 ∷ rest))
        (read_body-escape_byte c (escape_loop s ++ 0x22 ∷ rest)
          ∙ push_text c (c_string s) rest _ (read_body-escape_loop s rest))
]

abbrev pub text_of : Option Bytes → Bytes
text_of none = []
text_of (some s) = c_string s

-- A JSON reader gets back exactly the C string that was written (the empty text for a null
-- pointer), whatever bytes it holds and whatever follows the literal.
pub read_string-write_json_string :
    (s : Option Bytes) (rest : Bytes)
    → read_string (write_json_string s ++ rest) ≡ some (text_of s, rest)
unfolding read_string write_json_string c_string
read_string-write_json_string none rest = refl
read_string-write_json_string (some s) rest =
    rw (append_assoc (escape_loop s) (0x22 ∷ []) rest) (read_body-escape_loop s rest)

hex_digit-ge : (n : ℕ) → 0x20 ≤ hex_digit n
unfolding hex_digit
hex_digit-ge n = ground arith

escape_byte-IsPrintable : (c : ℕ) → IsPrintable (escape_byte c)
unfolding escape_byte hex4
escape_byte-IsPrintable c = ground (
  arith,
  hex_digit-ge (c / 4096 % 16),
  hex_digit-ge (c / 256 % 16),
  hex_digit-ge (c / 16 % 16),
  hex_digit-ge (c % 16),
)

escape_loop-IsPrintable : (s : Bytes) → IsPrintable (escape_loop s)
unfolding escape_loop
escape_loop-IsPrintable [] = tt
escape_loop-IsPrintable (c ∷ s) = elim (Bool-cases (c == 0)) [
  | inl nul ↦ rw nul tt
  | inr more ↦ rw more (
      All-append (λ c. 0x20 ≤ c) (escape_byte c) (escape_loop s) (escape_byte-IsPrintable c)
        (escape_loop-IsPrintable s))
]

-- No control byte, and so no line feed, is ever written: a literal cannot break a record's line.
pub write_json_string-IsPrintable : (s : Option Bytes) → IsPrintable (write_json_string s)
unfolding write_json_string
write_json_string-IsPrintable none = omega arith
write_json_string-IsPrintable (some s) = (
  omega arith,
  All-append (λ c. 0x20 ≤ c) (escape_loop s) (0x22 ∷ []) (escape_loop-IsPrintable s) (omega arith),
)
