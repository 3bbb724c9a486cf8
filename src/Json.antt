-- ===== src/Json.antt =====
-- runtime/json_escape.h: the escaper that every NDJSON emitter of the runtime uses, and an
-- RFC 8259 reader of string literals, written from the standard, to compare it with.
pub mod Reader
pub mod Value
pub mod RoundTrip
pub mod Tests
use topo_llvm.Prelude.{
  ℕ, ◌+◌, ◌*◌, ◌/◌, ◌%◌, Option, none, some, [], ◌∷◌, ◌++◌, ltb, ◌==◌, if◌then◌else◌, Bytes, codes,
}

-- A digit of `%x`.
unfoldable pub hex_digit : ℕ → ℕ
hex_digit n = if ltb n 10 then n + 48 else n + 87

-- `%04x` of a number below 2 ^ 16.
unfoldable pub hex4 : ℕ → Bytes
unfolding hex_digit
hex4 n =
    hex_digit (n / 4096 % 16)
    ∷ hex_digit (n / 256 % 16)
    ∷ hex_digit (n / 16 % 16)
    ∷ hex_digit (n % 16)
    ∷ []

-- The `switch` on one byte.
unfoldable pub escape_byte : ℕ → Bytes
escape_byte c =
    if c == 0x22
    then 0x5c ∷ 0x22 ∷ []
    else if c == 0x5c
    then 0x5c ∷ 0x5c ∷ []
    else if c == 8
    then 0x5c ∷ b'b' ∷ []
    else if c == 12
    then 0x5c ∷ b'f' ∷ []
    else if c == 10
    then 0x5c ∷ b'n' ∷ []
    else if c == 13
    then 0x5c ∷ b'r' ∷ []
    else if c == 9
    then 0x5c ∷ b't' ∷ []
    else if ltb c 0x20
    then 0x5c ∷ b'u' ∷ hex4 c
    else c ∷ []

-- The loop over a C string, which stops at its NUL; the end of the list is a NUL too.
unfoldable pub escape_loop : Bytes → Bytes
escape_loop [] = []
escape_loop (c ∷ s) = if c == 0 then [] else escape_byte c ++ escape_loop s

-- What `writeJsonString` puts on the stream; `none` is the null pointer.
unfoldable pub write_json_string : Option Bytes → Bytes
write_json_string none = 0x22 ∷ 0x22 ∷ []
write_json_string (some s) = 0x22 ∷ (escape_loop s ++ 0x22 ∷ [])
