-- ===== src/JitApi/Escape.antt =====
-- `escapeJson` against the reader of RFC 8259.
use topo_llvm.Prelude.{
  ℕ, ◌≡◌, refl, Bool, true, false, not, ◌&&◌, ◌||◌, none, some, [], ◌∷◌, ◌++◌, ◌==◌, ltb,
  if◌then◌else◌, ◌∙◌, append_assoc, Bytes, arith,
}
use topo_llvm.Json.Reader.{push, read_body, read_escape, short_form, read_string}
use topo_llvm.JitApi.{escape_char, escape_chars, escape_json}

-- A control byte other than tab, line feed and carriage return.
abbrev pub raw : ℕ → Bool
raw c = ltb c 0x20 && not (c == 9 || (c == 10 || c == 13))

abbrev pub any_raw : Bytes → Bool
any_raw [] = false
any_raw (c ∷ s) = raw c || any_raw s

read_body-escape_char :
    (c : ℕ) (t : Bytes)
    → read_body (escape_char c ++ t) ≡ (if raw c then none else push (some c) (read_body t))
unfolding escape_char read_body read_escape short_form
read_body-escape_char c t = ground arith

push_or_none :
    (c : ℕ) (s rest : Bytes) (b : Bool)
    → (if raw c then none else push (some c) (if b then none else some (s, rest)))
      ≡ (if raw c || b then none else some (c ∷ s, rest))
unfolding push
push_or_none c s rest true = ground arith
push_or_none c s rest false = ground arith

read_body-escape_chars :
    (s rest : Bytes)
    → read_body (escape_chars s ++ 0x22 ∷ rest) ≡ (if any_raw s then none else some (s, rest))
unfolding escape_chars read_body
read_body-escape_chars [] rest = refl
read_body-escape_chars (c ∷ s) rest =
    rw (append_assoc (escape_char c) (escape_chars s) (0x22 ∷ rest)) (
      read_body-escape_char c (escape_chars s ++ 0x22 ∷ rest)
      ∙ rw (read_body-escape_chars s rest) (push_or_none c s rest (any_raw s)))

-- A JSON reader gets back exactly the text that `escapeJson` was given, whatever follows the
-- literal, if the text has no control byte but tab, line feed and carriage return; with any other
-- control byte, the reader rejects the literal.
pub read_string-escape_json :
    (s rest : Bytes)
    → read_string (escape_json s ++ rest) ≡ (if any_raw s then none else some (s, rest))
unfolding read_string escape_json
read_string-escape_json s rest =
    rw (append_assoc (escape_chars s) (0x22 ∷ []) rest) (read_body-escape_chars s rest)
