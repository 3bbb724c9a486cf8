-- ===== src/Lib.antt =====
-- A verification library of topo-llvm: the run-time libraries under runtime/, which compiled programs
-- link and which the passes of lib/Transforms call; the backend's symbol mapping, verifier, pass
-- pipeline, benchmarks and reports; what the JIT engine makes of its inputs; and the lifter's text
-- helpers.
--
-- The parts and the files that model them:
--   Prelude       shared names: tests on numbers, lists, byte strings, decimal printing, lines, and an
--                 interface for `double` arithmetic with no law assumed.
--   Json          runtime/json_escape.h: writeJsonString, the escaper of the NDJSON records, with a
--                 reader of RFC 8259 string literals to compare it with (Json/Reader).
--   Arena         runtime/topo_arena.cpp: the bump allocator. `alloc` is topo_arena::alloc in its two
--                 phases, over a heap given as a parameter (Arena/Interface): what malloc does is a
--                 contract, which a concrete heap meets in Arena/Tests.
--   Adaptive      runtime/topo_adaptive.cpp, topo_adaptive_internal.h and topo_adaptive_register.cpp:
--                 the monitor's state machine of each pipeline (Adaptive/Monitor), the forced
--                 specialization in its two locked halves (Adaptive/Force), the constraint and
--                 pruning helpers. Histories of these steps are Adaptive/Session. The compile and
--                 the costs are parameters.
--   Parallel      runtime/topo_parallel.cpp and topo_cost.cpp: the queues and the stealing loops
--                 (Pool), the steps by which spawns, workers, helpers and shutdowns interleave (Threads,
--                 with their histories in Once and Spawning), init, shutdown and spawn as one thread alone
--                 runs them (Lifecycle), the task that worker and caller share (Task, with the
--                 interleavings in Ownership), and the cost samples of all threads (Cost, Samples).
--   Observe       runtime/topo_observe.cpp: the stack of open spans and the records.
--   PassEvent     runtime/topo_pass_event.cpp: the records of decisions at run time.
--   JitApi        runtime/topo_jit_api.cpp and include/topo/rt/jit_engine_resolve.h: the context,
--                 its JSON form, the candidates for the engine library and its loading.
--   Containment   runtime/topo_containment.cpp: the reports of containment violations.
--   SymbolMapper  lib/Backend/SymbolMapper.cpp: the keys of the functions of an IR module (Keys), and
--                 mapSymbols, which matches declared names to functions.
--   Sema          the declarations of the front end, of which the backend reads these fields.
--   Verifier      lib/Backend/Verifier.cpp: `verify` and its ten checks, each a function to the findings
--                 that it reports (Symbols, Blocks, Signatures, Consts, Stages, Templates, Constraints,
--                 ParallelSafety), over a module as a list of functions (Ir).
--   Sidecar       lib/Backend/PassReportsSidecar.cpp and include/topo/Backend/PassReports.h: the reports of
--                 the passes (Reports), their JSON (Bodies, over Json/Value), the sorting of keys
--                 (Sorting), and the writes, as the states of a file system (Files).
--   JitEngine     lib/JitEngine/topo_jit_engine.cpp: the reading of the metadata and the context (Access,
--                 Metadata), applyConstraints (Constraints), and the block that the passes get for each
--                 pipeline (Pipeline, with the worklist of reachable nodes in Reach).
--   Decompile     lib/Decompile/LLVMLifter.cpp: names of sections and structures (Names),
--                 splitTopLevelArgs (Args, Parts), and compactCompoundAssigns (Compact) with what
--                 statements do to variables (Meaning).
--   Benchmark     lib/Backend/VariantBenchmark.cpp (Variant) and LayoutBenchmark.cpp (Layout): the decisions
--                 on measured times and the cache of baselines. Lab is the interface to the processes
--                 that compile and time a function.
--   PassPipeline  lib/Backend/PassPipeline.cpp and lib/Transforms/PassFiredMarker.cpp: the order of the
--                 passes (Run), their gates (Plain), the auto mode's trials (Auto, Judged), the data layout
--                 pass (DataLayout), the markers and headers (Names, State). Frame, Headers, Stages, Each,
--                 Layouts, Reported, Finished and Trials prove what a run leaves. Config is the
--                 interface to the passes and to LLVM's pipelines.
--
-- How they interact: the adaptive monitor reads the averages that Parallel's get_cost_samples gives,
-- resets one pipeline's samples by Parallel's scoped reset, asks JitApi to specialize, and prints a
-- PassEvent when it switches a variant. Observe, PassEvent and the adaptive runtime write names with
-- Json's escaper; JitApi has an escaper of its own. The arena is called by generated code alone. The verifier
-- reads the mapping that SymbolMapper makes. The engine reads the context that JitApi writes. The pass
-- pipeline fills the reports that Sidecar writes, and asks Benchmark whether a pass pays.
--
-- Conventions: the names are the source's, in snake case. A machine word is a natural number with its
-- wrap-around written out. A section under one lock is one operation, and threads interleave by
-- operations; a step that holds no lock is one access to an atomic. A string is a list of bytes; a C string that may be null is an option. A pointer to a
-- shared object is a handle or the object's number, and an IR function is its mangled name. Clocks,
-- random draws, thread numbers, malloc, LLVM's demanglers, the engine library and the compiled code
-- are parameters.
--
-- Fuel: `decimal` divides by ten with the number itself as fuel, and each division makes the number
-- smaller, so it ends with one digit. The stealing loops run for the rounds that the source's `for`
-- counts. The verifier follows an alias of a type with fuel, and Verifier/Finish says how much is enough;
-- collecting the members of a constraint takes one more step than there are constraints, which is enough
-- on every table. The engine's worklist takes one step for each source and each edge, at most. No other definition has fuel: the loops recur on the lists that they walk.
--
-- Not modelled: condition variables and timed waits (they change no state, and the loops around them
-- are modelled as single turns), memory orders, the flush of a stream, and what the operating system
-- does at exit. What the passes of lib/Transforms do to a module, and the compiling and timing of a
-- function (compileAndMeasure), go through LLVM's own classes and processes: the pass pipeline and
-- the benchmarks take them as parameters. The lifting of instructions and control flow, and in
-- lib/Backend the files IREmbed, VisibilityApplier, LLVMTransformBackend and PostTransformVerifier,
-- work on LLVM IR in the same way and are left out, as are the layout cost model, lib/Profile, the
-- command line tools under tools/ and the programs under benchmarks/.
-- Three places of the source have no meaning that the model could keep: the order of an unordered_map
-- decides between candidates of the symbol mapping, where the model takes the order of insertion; an
-- alias with an empty target has no last name part (the verifier calls back() on an empty vector), where
-- the model gives the empty name; and the JSON printer throws on text that is no UTF-8, where the model's
-- printer is total, so that path of the sidecar is left out.
pub mod Adaptive
pub mod Arena
pub mod Benchmark
pub mod Containment
pub mod Decompile
pub mod JitApi
pub mod JitEngine
pub mod Json
pub mod Observe
pub mod Parallel
pub mod PassEvent
pub mod PassPipeline
pub mod Prelude
pub mod Sema
pub mod Sidecar
pub mod SymbolMapper
pub mod Verifier
