-- ===== src/Observe/Tests.antt =====
-- Spans on concrete inputs, with ratios in thousandths for the doubles.
use topo_llvm.Prelude.{◌≡◌, refl, true, some, [], ◌∷◌, ◌++◌, codes, concat}
use topo_llvm.Prelude.Doubles.{thousandths}
use topo_llvm.Prelude.Int.{pos}
use topo_llvm.Prelude.Lines.{read_lines}
use topo_llvm.Observe.{Tracer, emit_span, span_fields}
use topo_llvm.Observe.Framing.{read_lines-emit_span}
use topo_llvm.Observe.Nesting.{
  Call, call, no_calls, then_call, run_call, records_of, nested_calls_print,
}

-- A name with a line feed in it.
read_lines-emit_span_example : read_lines (emit_span (some (10 ∷ 97 ∷ [])) 5 1 (pos 9) ++ []) ≡ (
  concat (span_fields (some (10 ∷ 97 ∷ [])) 5 1 (pos 9)) ∷ (read_lines []).0,
  (read_lines []).1,
)
read_lines-emit_span_example = read_lines-emit_span (some (10 ∷ 97 ∷ [])) 5 1 (pos 9) []

abbrev half : Tracer thousandths
half = record { initialized = true; sampling_rate = 500; span_stack = []; stdout = [] }

-- The outer call is sampled, the inner one is not.
abbrev outer_call : Call thousandths
outer_call =
    call (some (codes "f")) 10 100 40 1 (pos 7)
      (then_call (call (some (codes "g")) 20 900 30 1 (pos 6) no_calls) no_calls)

nested_calls_print_example :
    run_call thousandths outer_call half
    ≡ record half { stdout = [] ++ records_of thousandths 500 outer_call }
nested_calls_print_example = nested_calls_print thousandths outer_call half refl
