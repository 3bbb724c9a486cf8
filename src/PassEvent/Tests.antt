-- ===== src/PassEvent/Tests.antt =====
-- A pass event with a hostile name.
use topo_llvm.Prelude.{◌≡◌, some, none, [], ◌∷◌, ◌++◌, Option, Bytes, codes, concat}
use topo_llvm.Prelude.Int.{pos, negsuc}
use topo_llvm.Prelude.Lines.{read_lines}
use topo_llvm.PassEvent.{emit_record, record_fields}
use topo_llvm.PassEvent.Framing.{read_lines-emit_record}

abbrev hostile : Option Bytes
hostile = some (34 ∷ 10 ∷ 1 ∷ [])

read_lines-emit_record_example :
    read_lines
      (emit_record hostile (some (codes "a")) none hostile (some (negsuc 3)) (pos 8) ++ 65 ∷ [])
    ≡ (
      concat (record_fields hostile (some (codes "a")) none hostile (some (negsuc 3)) (pos 8))
          ∷ (read_lines (65 ∷ [])).0,
      (read_lines (65 ∷ [])).1,
    )
read_lines-emit_record_example =
    read_lines-emit_record hostile (some (codes "a")) none hostile (some (negsuc 3)) (pos 8)
      (65 ∷ [])
