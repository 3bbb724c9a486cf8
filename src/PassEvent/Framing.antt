-- ===== src/PassEvent/Framing.antt =====
-- Every pass event is one line, whatever its names hold.
use topo_llvm.Prelude.{
  ◌≡◌, refl, inl, inr, Option, none, some, ◌∷◌, ◌++◌, Bytes, concat, All, All-append, Bool-cases,
}
use topo_llvm.Prelude.Lines.{
  IsPrintable, read_lines, read_lines-fields, literal-IsPrintable, decimal_int-IsPrintable,
}
use topo_llvm.Prelude.Int.{ℤ}
use topo_llvm.Json.RoundTrip.{write_json_string-IsPrintable}
use topo_llvm.PassEvent.{
  emit_record, record_fields, subject_fields, bytes_fields, head_fields, has_subject,
}

head_fields-IsPrintable : (pass from to : Option Bytes) → All IsPrintable (head_fields pass from to)
unfolding head_fields
head_fields-IsPrintable pass from to = (
  literal-IsPrintable "{\"kind\":\"pass_event\",\"pass\":" refl,
  (
    write_json_string-IsPrintable pass,
    (
      literal-IsPrintable ",\"from\":" refl,
      (
        write_json_string-IsPrintable from,
        (literal-IsPrintable ",\"to\":" refl, (write_json_string-IsPrintable to, tt)),
      ),
    ),
  ),
)

subject_fields-IsPrintable : (subject : Option Bytes) → All IsPrintable (subject_fields subject)
unfolding subject_fields
subject_fields-IsPrintable subject = elim (Bool-cases (has_subject subject)) [
  | inl e ↦
      rw e (literal-IsPrintable ",\"subject\":" refl, (write_json_string-IsPrintable subject, tt))
  | inr e ↦ rw e tt
]

bytes_fields-IsPrintable : (bytes : Option ℤ) → All IsPrintable (bytes_fields bytes)
unfolding bytes_fields
bytes_fields-IsPrintable none = tt
bytes_fields-IsPrintable (some n) =
    (literal-IsPrintable ",\"bytes\":" refl, (decimal_int-IsPrintable n, tt))

record_fields-IsPrintable :
    (pass from to subject : Option Bytes) (bytes : Option ℤ) (ts_ns : ℤ)
    → All IsPrintable (record_fields pass from to subject bytes ts_ns)
unfolding record_fields
record_fields-IsPrintable pass from to subject bytes ts =
    All-append IsPrintable (head_fields pass from to) _ (head_fields-IsPrintable pass from to) (
      All-append IsPrintable (subject_fields subject) _ (subject_fields-IsPrintable subject) (
        All-append IsPrintable (bytes_fields bytes) _ (bytes_fields-IsPrintable bytes) (
          literal-IsPrintable ",\"ts_ns\":" refl,
          (decimal_int-IsPrintable ts, (literal-IsPrintable "}" refl, tt)),
        )))

-- A reader that splits a stream at line feeds gets each pass event as exactly one line, whatever
-- bytes its four names hold, with a byte count or without.
pub read_lines-emit_record :
    (pass from to subject : Option Bytes) (bytes : Option ℤ) (ts_ns : ℤ) (rest : Bytes)
    → read_lines (emit_record pass from to subject bytes ts_ns ++ rest) ≡ (
      concat (record_fields pass from to subject bytes ts_ns) ∷ (read_lines rest).0,
      (read_lines rest).1,
    )
unfolding emit_record
read_lines-emit_record pass from to subject bytes ts rest =
    read_lines-fields (record_fields pass from to subject bytes ts) rest
      (record_fields-IsPrintable pass from to subject bytes ts)
