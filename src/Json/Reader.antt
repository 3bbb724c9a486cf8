-- ===== src/Json/Reader.antt =====
-- A reader of JSON string literals after RFC 8259, section 7. It refuses raw control bytes.
use topo_llvm.Prelude.{
  ℕ, ◌+◌, ◌-◌, ◌*◌, Option, none, some, [], ◌∷◌, ltb, leb, ◌==◌, ◌&&◌, if◌then◌else◌, Bytes,
}

unfoldable pub unhex : ℕ → Option ℕ
unhex c =
    if leb b'0' c && leb c b'9'
    then some (c - 48)
    else if leb b'a' c && leb c b'f'
    then some (c - 87)
    else none

-- Two hexadecimal digits, the low half of `\u00XX`.
unfoldable pub unhex2 : Option ℕ → Option ℕ → Option ℕ
unhex2 none b = none
unhex2 (some a) none = none
unhex2 (some a) (some b) = some (a * 16 + b)

unfoldable pub short_form : ℕ → Option ℕ
short_form c =
    if c == 0x22
    then some 0x22
    else if c == 0x5c
    then some 0x5c
    else if c == b'b'
    then some 8
    else if c == b'f'
    then some 12
    else if c == b'n'
    then some 10
    else if c == b'r'
    then some 13
    else if c == b't'
    then some 9
    else none

-- A character in front of what the rest reads as.
unfoldable pub push : Option ℕ → Option (Bytes × Bytes) → Option (Bytes × Bytes)
push none r = none
push (some c) none = none
push (some c) (some (s, rest)) = some (c ∷ s, rest)

unfoldable mutual
  -- The text up to the closing quote, and what follows the quote.
  pub read_body : Bytes → Option (Bytes × Bytes)
  read_body [] = none
  read_body (c ∷ s) =
      let escaped = read_escape s in
      let plain = push (some c) (read_body s) in
      if c == 0x22
      then some ([], s)
      else if c == 0x5c
      then escaped
      else if ltb c 0x20
      then none
      else plain

  pub read_escape : Bytes → Option (Bytes × Bytes)
  read_escape [] = none
  read_escape (c ∷ s) =
      let unicode = read_unicode s in
      let short = push (short_form c) (read_body s) in if c == b'u' then unicode else short

  pub read_unicode : Bytes → Option (Bytes × Bytes)
  read_unicode (z ∷ y ∷ a ∷ b ∷ s) =
      let rest = push (unhex2 (unhex a) (unhex b)) (read_body s) in
      if z == b'0' && y == b'0' then rest else none
  read_unicode _ = none

unfoldable pub read_string : Bytes → Option (Bytes × Bytes)
unfolding read_body
read_string [] = none
read_string (c ∷ s) = if c == 0x22 then read_body s else none
