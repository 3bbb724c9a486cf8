-- ===== src/JitApi/Tests.antt =====
-- The context's JSON form and the loader on concrete inputs.
use topo_llvm.Prelude.{
  ◌≡◌, refl, inr, true, false, Option, none, some, [], ◌∷◌, ◌++◌, if◌then◌else◌, Bytes, codes, same,
}
use topo_llvm.Json.Reader.{read_string}
use topo_llvm.JitApi.{
  Context, prune_edge, set_param, serialize_context, serialize_edge, serialize_param,
  comma_separated, escape_json, escape_chars, escape_char, EngineInterface, Loader, load_engine,
}
use topo_llvm.JitApi.Escape.{read_string-escape_json}
use topo_llvm.JitApi.Loading.{Consistent, Settled, load_engine_once}

abbrev empty_context : Context
empty_context = record { narrowed_returns = []; pruned_edges = []; params = [] }

serialized :
    serialize_context
      (set_param (codes "k") (codes "v") (prune_edge (codes "a") (codes "b") empty_context))
    ≡ codes
        "{\"prunedEdges\":[{\"source\":\"a\",\"target\":\"b\"}],\"narrowedReturns\":[],\"params\":[[\"k\",\"v\"]]}"
unfolding serialize_context set_param prune_edge serialize_edge serialize_param comma_separated
    escape_json escape_chars escape_char
serialized = refl

-- A byte 1 goes out raw.
read_string-escape_json_example : read_string (escape_json (97 ∷ 1 ∷ []) ++ codes ",") ≡ none
read_string-escape_json_example = read_string-escape_json (97 ∷ 1 ∷ []) (codes ",")

-- Version 2 of the engine lies at "/e".
abbrev engine_two : EngineInterface
engine_two = record {
  version = some 2;
  available = some true;
  specialize = some (λ name ctx costs. 7);
  specialize_bytes = none;
  dump_ir = none;
  dump_ir_bytes = none;
}

abbrev library_of : Bytes → Option EngineInterface
library_of p = if same p (codes "/e") then some engine_two else none

abbrev unloaded : Loader
unloaded = record {
  engine = record {
    version = none;
    available = none;
    specialize = none;
    specialize_bytes = none;
    dump_ir = none;
    dump_ir_bytes = none;
  };
  library = none;
  loaded = false;
  tried_load = false;
}

load_engine_once_example :
    Settled 2 library_of (load_engine 2 library_of (codes "/x" ∷ codes "/e" ∷ []) unloaded)
    × (load_engine 2 library_of []
          (load_engine 2 library_of (codes "/x" ∷ codes "/e" ∷ []) unloaded).1
        ≡ load_engine 2 library_of (codes "/x" ∷ codes "/e" ∷ []) unloaded)
unfolding Consistent
load_engine_once_example =
    load_engine_once 2 library_of (codes "/x" ∷ codes "/e" ∷ []) [] unloaded (inr (refl, refl))
