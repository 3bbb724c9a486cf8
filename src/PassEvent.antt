-- ===== src/PassEvent.antt =====
-- runtime/topo_pass_event.cpp: the record that a pass prints when it changes a decision at run time.
pub mod Framing
pub mod Tests
use topo_llvm.Prelude.{
  Bool, true, false, Option, none, some, [], ◌∷◌, ◌++◌, ◌==◌, if◌then◌else◌, Bytes, codes, concat,
  List,
}
use topo_llvm.Prelude.Decimal.{decimal_int}
use topo_llvm.Prelude.Int.{ℤ}
use topo_llvm.Json.{write_json_string}

-- `subject && subject[0] != '\0'`
unfoldable pub has_subject : Option Bytes → Bool
has_subject none = false
has_subject (some []) = false
has_subject (some (c ∷ s)) = if c == 0 then false else true

unfoldable pub subject_fields : Option Bytes → List Bytes
unfolding has_subject
subject_fields subject =
    if has_subject subject then codes ",\"subject\":" ∷ write_json_string subject ∷ [] else []

unfoldable pub bytes_fields : Option ℤ → List Bytes
bytes_fields none = []
bytes_fields (some n) = codes ",\"bytes\":" ∷ decimal_int n ∷ []

unfoldable pub head_fields : Option Bytes → Option Bytes → Option Bytes → List Bytes
head_fields pass from to =
    codes "{\"kind\":\"pass_event\",\"pass\":"
    ∷ write_json_string pass
    ∷ codes ",\"from\":"
    ∷ write_json_string from
    ∷ codes ",\"to\":"
    ∷ write_json_string to
    ∷ []

unfoldable pub record_fields :
    Option Bytes → Option Bytes → Option Bytes → Option Bytes → Option ℤ → ℤ → List Bytes
unfolding head_fields subject_fields bytes_fields
record_fields pass from to subject bytes ts_ns =
    head_fields pass from to
    ++ (subject_fields subject
        ++ (bytes_fields bytes ++ codes ",\"ts_ns\":" ∷ decimal_int ts_ns ∷ codes "}" ∷ []))

-- `emitRecord`; the bytes are `none` where `hasBytes` is false, and `ts_ns` is the clock's reading.
unfoldable pub emit_record :
    Option Bytes → Option Bytes → Option Bytes → Option Bytes → Option ℤ → ℤ → Bytes
unfolding record_fields
emit_record pass from to subject bytes ts_ns =
    concat (record_fields pass from to subject bytes ts_ns) ++ 10 ∷ []

-- `topo_pass_event_emit` and `topo_pass_event_emit_sized`
unfoldable pub emit : Option Bytes → Option Bytes → Option Bytes → Option Bytes → ℤ → Bytes
unfolding emit_record
emit pass from to subject ts = emit_record pass from to subject none ts

unfoldable pub emit_sized :
    Option Bytes → Option Bytes → Option Bytes → Option Bytes → ℤ → ℤ → Bytes
unfolding emit_record
emit_sized pass from to subject bytes ts = emit_record pass from to subject (some bytes) ts
