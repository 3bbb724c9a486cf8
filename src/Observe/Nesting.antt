-- ===== src/Observe/Nesting.antt =====
-- Spans that are opened and closed in nested pairs, as instrumented functions do.
use topo_llvm.Prelude.{
  arith, ℕ, ◌-◌, ◌≡◌, ◌∙◌, sym, ap, true, Option, [], ◌∷◌, ◌++◌, if◌then◌else◌, Bytes, append_assoc,
  append-nil,
}
use topo_llvm.Prelude.Doubles.{Doubles}
use topo_llvm.Prelude.Int.{ℤ}
use topo_llvm.Observe.{
  SpanEntry, emit_span, Tracer, should_sample, span_begin, span_end, finish_span,
}

module _ (d : Doubles) where
  -- A call of an instrumented function: its name, the times and the random draw at its entry, the
  -- thread, the clocks at its exit, and the calls that it makes.
  mutual
    pub data Call : Type 0 where
      call : Option Bytes → ℕ → d.Double → ℕ → ℕ → ℤ → Calls → Call

    pub data Calls : Type 0 where
      no_calls : Calls
      then_call : Call → Calls → Calls

  mutual
    pub run_call : Call → Tracer d → Tracer d
    run_call (call name start draw stop thread_id ts inner) s =
        span_end d stop thread_id ts (run_calls inner (span_begin d name start draw s))

    pub run_calls : Calls → Tracer d → Tracer d
    run_calls no_calls s = s
    run_calls (then_call c cs) s = run_calls cs (run_call c s)

  -- The records of the sampled calls, in the order of their exits.
  mutual
    pub records_of : d.Double → Call → Bytes
    records_of rate (call name start draw stop thread_id ts inner) =
        records_of_all rate inner
        ++ (if should_sample d rate draw then emit_span name (stop - start) thread_id ts else [])

    pub records_of_all : d.Double → Calls → Bytes
    records_of_all rate no_calls = []
    records_of_all rate (then_call c cs) = records_of rate c ++ records_of_all rate cs

  abbrev printed : Tracer d → Bytes → Tracer d
  printed s out = record s { stdout = s.stdout ++ out }

  begin_known :
      (name : Option Bytes) (start : ℕ) (draw : d.Double) (s : Tracer d)
      → s.initialized ≡ true
      → span_begin d name start draw s ≡ record s {
        span_stack =
            record { name = name; start = start; sampled = should_sample d s.sampling_rate draw }
            ∷ s.span_stack;
      }
  unfolding span_begin
  begin_known name start draw s h = ground arith

  -- The end of the span on top of the stack.
  end_known :
      (stop thread_id : ℕ) (ts : ℤ) (entry : SpanEntry) (s : Tracer d) (out : Bytes)
      → s.initialized ≡ true
      → span_end d stop thread_id ts
          (record s { span_stack = entry ∷ s.span_stack; stdout = s.stdout ++ out })
        ≡ printed s (
            out
            ++ (if entry.sampled
                then emit_span entry.name (stop - entry.start) thread_id ts
                else []))
  unfolding span_end finish_span
  end_known stop thread_id ts entry s out h =
      rw h (ap (λ o. record s { initialized = true; stdout = o }) (append_assoc s.stdout out _))

  mutual
    unfolding run_call records_of

    pub run_call-records :
        (c : Call) (s : Tracer d)
        → s.initialized ≡ true
        → run_call c s ≡ printed s (records_of s.sampling_rate c)
    run_call-records (call name start draw stop thread_id ts inner) s h =
        let entry : SpanEntry = record {
          name = name;
          start = start;
          sampled = should_sample d s.sampling_rate draw;
        } in
        let opened = record s { span_stack = entry ∷ s.span_stack } in
        ap (λ t. span_end d stop thread_id ts (run_calls inner t)) (begin_known name start draw s h)
        ∙ ap (span_end d stop thread_id ts) (run_calls-records inner opened h)
        ∙ end_known stop thread_id ts entry s (records_of_all s.sampling_rate inner) h

    pub run_calls-records :
        (cs : Calls) (s : Tracer d)
        → s.initialized ≡ true
        → run_calls cs s ≡ printed s (records_of_all s.sampling_rate cs)
    run_calls-records no_calls s h = ap (λ o. record s { stdout = o }) (sym (append-nil s.stdout))
    run_calls-records (then_call c cs) s h =
        ap (run_calls cs) (run_call-records c s h)
        ∙ run_calls-records cs (printed s (records_of s.sampling_rate c)) h
        ∙ ap (λ o. record s { stdout = o }) (append_assoc s.stdout _ _)

  -- While tracing is on, a tree of nested calls leaves the thread's stack as it was and prints the
  -- records of exactly the sampled calls, each once, inner calls before the call that made them.
  pub nested_calls_print :
      (c : Call) (s : Tracer d)
      → s.initialized ≡ true
      → run_call c s ≡ record s { stdout = s.stdout ++ records_of s.sampling_rate c }
  nested_calls_print c s h = run_call-records c s h
