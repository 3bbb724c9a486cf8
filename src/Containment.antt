-- ===== src/Containment.antt =====
-- runtime/topo_containment.cpp: the violations that instrumented code reports.
-- The bytes that the dump writes are its result.
pub mod History
pub mod Tests
use topo_llvm.Prelude.{
  ℕ, suc, ◌+◌, ◌-◌, ◌%◌, ◌^◌, Bool, true, false, Option, none, some, List, [], ◌∷◌, ◌++◌, reverse,
  length, ltb, if◌then◌else◌, Bytes, codes, concat,
}
use topo_llvm.Prelude.Decimal.{decimal}
use topo_llvm.Prelude.Int.{ℤ, pos, negsuc}

pub record ViolationEntry : Type 0 where
  pub caller : Bytes
  pub callee : Bytes

-- `registered` counts the calls of `std::atexit`.
pub record Containment : Type 0 where
  pub violations : List ViolationEntry
  pub atexit_registered : Bool
  pub registered : ℕ

-- A null pointer is reported as "<unknown>".
unfoldable pub name_or_unknown : Option Bytes → Bytes
name_or_unknown none = codes "<unknown>"
name_or_unknown (some s) = s

unfoldable pub violation : Option Bytes → Option Bytes → Containment → Containment
unfolding name_or_unknown
violation caller callee s =
    let s' =
      if s.atexit_registered
      then s
      else record s { atexit_registered = true; registered = s.registered + 1 } in
    record s' {
      violations =
          s.violations
          ++ record { caller = name_or_unknown caller; callee = name_or_unknown callee } ∷ [];
    }

-- `static_cast<int>` of the size.
unfoldable pub get_violation_count : Containment → ℤ
get_violation_count s =
    let n = length s.violations % 2 ^ 32 in
    if ltb n (2 ^ 31) then pos n else negsuc (2 ^ 32 - n - 1)

-- The rows, with a comma after every one but the last.
unfoldable pub dump_rows : List ViolationEntry → Bytes
dump_rows [] = []
dump_rows (v ∷ vs) =
    let comma : Bytes = elim vs [ [] ↦ [] | w ∷ ws ↦ codes "," ] in
    concat (
      codes "  {\"caller\": \""
      ∷ v.caller
      ∷ codes "\", \"callee\": \""
      ∷ v.callee
      ∷ codes "\"}"
      ∷ comma
      ∷ codes "\n"
      ∷ [])
    ++ dump_rows vs

unfoldable pub dump : Containment → Bytes
unfolding dump_rows
dump s = elim s.violations [
  | [] ↦ []
  | v ∷ vs ↦ concat (
      codes "\n=== Topo Containment Violations ===\n"
      ∷ codes "[\n"
      ∷ dump_rows s.violations
      ∷ codes "]\n"
      ∷ codes "Total violations: "
      ∷ decimal (length s.violations)
      ∷ codes "\n"
      ∷ [])
]

unfoldable pub reset : Containment → Containment
reset s = record s { violations = [] }
