-- ===== src/Json/Tests.antt =====
-- Runs of the escaper, and its theorems at a name with quotes and a line feed.
use topo_llvm.Prelude.{◌≡◌, refl, some, [], ◌∷◌, ◌++◌, Bytes, codes}
use topo_llvm.Json.{write_json_string, escape_loop, escape_byte, hex4}
use topo_llvm.Json.Reader.{read_string}
use topo_llvm.Json.RoundTrip.{c_string, read_string-write_json_string}

-- `a"`, a line feed and the byte 1.
abbrev odd_name : Bytes
odd_name = b'a' ∷ 0x22 ∷ 10 ∷ 1 ∷ []

odd_output : write_json_string (some odd_name) ≡ codes "\"a\\\"\\n\\u0001\""
unfolding write_json_string escape_loop escape_byte hex4
odd_output = refl

read_string-write_json_string_example :
    read_string (write_json_string (some odd_name) ++ codes ",") ≡ some (odd_name, codes ",")
unfolding c_string
read_string-write_json_string_example = read_string-write_json_string (some odd_name) (codes ",")
