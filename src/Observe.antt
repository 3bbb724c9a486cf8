-- ===== src/Observe.antt =====
-- runtime/topo_observe.cpp: the stack of open spans of a thread, and the records it prints.
pub mod Framing
pub mod Nesting
pub mod Tests
use topo_llvm.Prelude.{
  ℕ, ◌-◌, Bool, true, false, Option, none, some, List, [], ◌∷◌, ◌++◌, if◌then◌else◌, Bytes, codes,
  concat,
}
use topo_llvm.Prelude.Doubles.{Doubles}
use topo_llvm.Prelude.Decimal.{decimal, decimal_int}
use topo_llvm.Prelude.Int.{ℤ}
use topo_llvm.Json.{write_json_string}

-- A name is a C string, `none` where it is null.
pub record SpanEntry : Type 0 where
  pub name : Option Bytes
  pub start : ℕ
  pub sampled : Bool

unfoldable pub span_fields : Option Bytes → ℕ → ℕ → ℤ → List Bytes
span_fields name duration_ns thread_id ts_ns =
    codes "{\"name\":"
    ∷ write_json_string name
    ∷ codes ",\"duration_ns\":"
    ∷ decimal duration_ns
    ∷ codes ",\"thread_id\":"
    ∷ decimal thread_id
    ∷ codes ",\"ts_ns\":"
    ∷ decimal_int ts_ns
    ∷ codes "}"
    ∷ []

-- The bytes of one record.
unfoldable pub emit_span : Option Bytes → ℕ → ℕ → ℤ → Bytes
unfolding span_fields
emit_span name duration_ns thread_id ts_ns =
    concat (span_fields name duration_ns thread_id ts_ns) ++ 10 ∷ []

module _ (d : Doubles) where
  -- The globals, one thread's stack with its last entry first, and what stdout got.
  pub record Tracer : Type 0 where
    pub initialized : Bool
    pub sampling_rate : d.Double
    pub span_stack : List SpanEntry
    pub stdout : Bytes

  -- `draw` is the value of the thread's random generator.
  unfoldable pub should_sample : d.Double → d.Double → Bool
  should_sample rate draw =
      if d.less_equal d.one rate
      then true
      else if d.less_equal rate (d.of_unsigned 0)
      then false
      else d.less draw rate

  unfoldable pub span_begin : Option Bytes → ℕ → d.Double → Tracer → Tracer
  unfolding should_sample
  span_begin name now draw s =
      if s.initialized
      then record s {
        span_stack =
            record { name = name; start = now; sampled = should_sample s.sampling_rate draw }
            ∷ s.span_stack;
      }
      else s

  -- The end of a popped span, which prints nothing if it was not sampled. The clock never goes
  -- back, so `now - start` does not stop at 0.
  unfoldable pub finish_span : ℕ → ℕ → ℤ → SpanEntry → List SpanEntry → Tracer → Tracer
  finish_span now thread_id ts entry rest s = record s {
    span_stack = rest;
    stdout =
        s.stdout
        ++ (if entry.sampled then emit_span entry.name (now - entry.start) thread_id ts else []);
  }

  unfoldable pub span_end : ℕ → ℕ → ℤ → Tracer → Tracer
  unfolding finish_span
  span_end now thread_id ts s = elim s.span_stack [
    | [] ↦ s
    | entry ∷ rest ↦
        if s.initialized
        then finish_span now thread_id ts entry rest s
        else record s { span_stack = rest }
  ]

  unfoldable pub trace_init : d.Double → Tracer → Tracer
  trace_init rate s =
      if s.initialized then s else record s { initialized = true; sampling_rate = rate }

  unfoldable pub trace_shutdown : Tracer → Tracer
  trace_shutdown s = record s { initialized = false }
