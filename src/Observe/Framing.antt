-- ===== src/Observe/Framing.antt =====
-- Every span record is one line, whatever its name holds.
use topo_llvm.Prelude.{ℕ, ◌≡◌, refl, Option, ◌∷◌, ◌++◌, Bytes, concat}
use topo_llvm.Prelude.Lines.{
  read_lines, read_lines-fields, literal-IsPrintable, decimal-IsPrintable, decimal_int-IsPrintable,
}
use topo_llvm.Prelude.Int.{ℤ}
use topo_llvm.Json.RoundTrip.{write_json_string-IsPrintable}
use topo_llvm.Observe.{emit_span, span_fields}

-- A reader that splits a stream at line feeds gets each span record as exactly one line, whatever
-- bytes the span's name holds and whatever follows the record.
pub read_lines-emit_span :
    (name : Option Bytes) (duration_ns thread_id : ℕ) (ts_ns : ℤ) (rest : Bytes)
    → read_lines (emit_span name duration_ns thread_id ts_ns ++ rest) ≡ (
      concat (span_fields name duration_ns thread_id ts_ns) ∷ (read_lines rest).0,
      (read_lines rest).1,
    )
unfolding emit_span span_fields
read_lines-emit_span name d id ts rest = read_lines-fields (span_fields name d id ts) rest (
  literal-IsPrintable "{\"name\":" refl,
  (
    write_json_string-IsPrintable name,
    (
      literal-IsPrintable ",\"duration_ns\":" refl,
      (
        decimal-IsPrintable d,
        (
          literal-IsPrintable ",\"thread_id\":" refl,
          (
            decimal-IsPrintable id,
            (
              literal-IsPrintable ",\"ts_ns\":" refl,
              (decimal_int-IsPrintable ts, (literal-IsPrintable "}" refl, tt)),
            ),
          ),
        ),
      ),
    ),
  ),
)
