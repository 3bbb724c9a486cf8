-- ===== src/JitApi.antt =====
-- runtime/topo_jit_api.cpp and include/topo/rt/jit_engine_resolve.h: the specialization context, its
-- JSON form, and the calls into the engine library. The library is outside this repository's
-- model: what a path loads is the parameter `open_library`.
pub mod Escape
pub mod Loading
pub mod Tests
use topo_llvm.Prelude.{
  ℕ, Bool, true, false, Option, none, some, List, [], ◌∷◌, ◌++◌, map, ◌==◌, if◌then◌else◌, Bytes,
  codes, concat,
}
use topo_llvm.Prelude.Decimal.{decimal}

pub record NarrowedReturn : Type 0 where
  pub func : Bytes
  pub fields : List Bytes

pub record PrunedEdge : Type 0 where
  pub source : Bytes
  pub target : Bytes

pub record Context : Type 0 where
  pub narrowed_returns : List NarrowedReturn
  pub pruned_edges : List PrunedEdge
  pub params : List (Bytes × Bytes)

unfoldable pub narrow_returns : Bytes → List Bytes → Context → Context
narrow_returns f fields ctx = record ctx {
  narrowed_returns = ctx.narrowed_returns ++ record { func = f; fields = fields } ∷ [];
}

unfoldable pub prune_edge : Bytes → Bytes → Context → Context
prune_edge src dst ctx = record ctx {
  pruned_edges = ctx.pruned_edges ++ record { source = src; target = dst } ∷ [];
}

-- `Context::set`
unfoldable pub set_param : Bytes → Bytes → Context → Context
set_param key value ctx = record ctx { params = ctx.params ++ (key, value) ∷ [] }

unfoldable pub escape_char : ℕ → Bytes
escape_char c =
    if c == 0x22
    then 0x5c ∷ 0x22 ∷ []
    else if c == 0x5c
    then 0x5c ∷ 0x5c ∷ []
    else if c == 10
    then 0x5c ∷ b'n' ∷ []
    else if c == 13
    then 0x5c ∷ b'r' ∷ []
    else if c == 9
    then 0x5c ∷ b't' ∷ []
    else c ∷ []

unfoldable pub escape_chars : Bytes → Bytes
escape_chars [] = []
escape_chars (c ∷ s) = escape_char c ++ escape_chars s

unfoldable pub escape_json : Bytes → Bytes
unfolding escape_chars
escape_json s = 0x22 ∷ (escape_chars s ++ 0x22 ∷ [])

-- The loops that put a comma in front of every element but the first.
unfoldable pub comma_separated : Bool → List Bytes → Bytes
comma_separated first [] = []
comma_separated first (s ∷ ss) =
    (if first then [] else codes ",") ++ (s ++ comma_separated false ss)

unfoldable pub serialize_edge : PrunedEdge → Bytes
serialize_edge e = concat (
    codes "{\"source\":"
    ∷ escape_json e.source
    ∷ codes ",\"target\":"
    ∷ escape_json e.target
    ∷ codes "}"
    ∷ [])

unfoldable pub serialize_narrowed : NarrowedReturn → Bytes
serialize_narrowed nr = concat (
    codes "{\"func\":"
    ∷ escape_json nr.func
    ∷ codes ",\"fields\":["
    ∷ comma_separated true (map escape_json nr.fields)
    ∷ codes "]}"
    ∷ [])

unfoldable pub serialize_param : Bytes × Bytes → Bytes
serialize_param (key, value) =
    concat (codes "[" ∷ escape_json key ∷ codes "," ∷ escape_json value ∷ codes "]" ∷ [])

unfoldable pub serialize_context : Context → Bytes
unfolding serialize_edge serialize_narrowed serialize_param comma_separated
serialize_context ctx = concat (
    codes "{\"prunedEdges\":["
    ∷ comma_separated true (map serialize_edge ctx.pruned_edges)
    ∷ codes "],\"narrowedReturns\":["
    ∷ comma_separated true (map serialize_narrowed ctx.narrowed_returns)
    ∷ codes "],\"params\":["
    ∷ comma_separated true (map serialize_param ctx.params)
    ∷ codes "]}"
    ∷ [])

unfoldable pub serialize_sample : Bytes × ℕ → Bytes
serialize_sample (name, cost) = concat (escape_json name ∷ codes ":" ∷ decimal cost ∷ [])

-- The samples in the order in which the map iterates.
unfoldable pub serialize_cost_samples : List (Bytes × ℕ) → Bytes
unfolding serialize_sample comma_separated
serialize_cost_samples samples =
    concat (codes "{" ∷ comma_separated true (map serialize_sample samples) ∷ codes "}" ∷ [])

-- `engineSearchCandidates`; a null or empty override counts for nothing.
unfoldable pub override_candidate : Option Bytes → List Bytes
override_candidate none = []
override_candidate (some []) = []
override_candidate (some (c ∷ s)) = (c ∷ s) ∷ []

unfoldable pub exe_dir_candidates : Bytes → Bytes → List Bytes
exe_dir_candidates [] lib_name = []
exe_dir_candidates (c ∷ s) lib_name =
    ((c ∷ s) ++ (codes "/" ++ lib_name)) ∷ ((c ∷ s) ++ (codes "/../lib/" ++ lib_name)) ∷ []

unfoldable pub engine_search_candidates : Bytes → Bytes → Option Bytes → List Bytes
unfolding override_candidate exe_dir_candidates
engine_search_candidates exe_dir lib_name env_override =
    override_candidate env_override ++ exe_dir_candidates exe_dir lib_name

-- The symbols of a library, `none` where one is missing. A pointer is a number, 0 if null.
pub record EngineInterface : Type 0 where
  pub version : Option ℕ
  pub available : Option Bool
  pub specialize : Option (Bytes → Bytes → Bytes → ℕ)
  pub specialize_bytes : Option (Bytes → Bytes → Bytes → Bytes → Bytes → ℕ)
  pub dump_ir : Option (Bytes → Bytes → Option Bytes)
  pub dump_ir_bytes : Option (Bytes → Option Bytes)

-- `g_engine` and `g_engineLib`, the latter by its path.
pub record Loader : Type 0 where
  pub engine : EngineInterface
  pub library : Option Bytes
  pub loaded : Bool
  pub tried_load : Bool

module _ (abi_version : ℕ) (open_library : Bytes → Option EngineInterface) where
  unfoldable pub first_loadable : List Bytes → Option (Bytes × EngineInterface)
  first_loadable [] = none
  first_loadable (p ∷ ps) = elim (open_library p) [
    | none ↦ first_loadable ps
    | some e ↦ some (p, e)
  ]

  -- The required symbols and the version.
  unfoldable pub acceptable : EngineInterface → Bool
  acceptable e = elim e.version [
    | none ↦ false
    | some v ↦ elim e.available [
      | none ↦ false
      | some a ↦ elim e.specialize [ none ↦ false | some f ↦ v == abi_version ]
    ]
  ]

  -- An engine that is not acceptable is unloaded; its symbols stay in `g_engine`.
  unfoldable pub finish_load : Option (Bytes × EngineInterface) → Loader → Bool × Loader
  unfolding acceptable
  finish_load none l = (false, record l { tried_load = true; library = none })
  finish_load (some (p, e)) l =
      if acceptable e
      then (true, record { engine = e; library = some p; loaded = true; tried_load = true })
      else (false, record l { engine = e; library = none; tried_load = true })

  unfoldable pub load_engine : List Bytes → Loader → Bool × Loader
  unfolding first_loadable finish_load
  load_engine candidates l =
      if l.tried_load then (l.loaded, l) else finish_load (first_loadable candidates) l

  unfoldable pub available : List Bytes → Loader → Bool × Loader
  unfolding load_engine
  available candidates l =
      let r = load_engine candidates l in
      ((if r.0 then elim r.1.engine.available [ none ↦ false | some a ↦ a ] else false), r.1)

  -- The body of the task that `specialize` starts, with the cost samples of the moment.
  unfoldable pub specialize : List Bytes → Bytes → Context → List (Bytes × ℕ) → Loader → ℕ × Loader
  unfolding load_engine serialize_context serialize_cost_samples
  specialize candidates name ctx costs l =
      let r = load_engine candidates l in
      (
        (if r.0
            then elim r.1.engine.specialize [
              | none ↦ 0
              | some f ↦ f name (serialize_context ctx) (serialize_cost_samples costs)
            ]
            else 0),
        r.1,
      )

  unfoldable pub specialize_bytes :
      List Bytes → Bytes → Bytes → Bytes → Context → List (Bytes × ℕ) → Loader → ℕ × Loader
  unfolding load_engine serialize_context serialize_cost_samples
  specialize_bytes candidates name ir meta ctx costs l =
      let r = load_engine candidates l in
      (
        (if r.0
            then elim r.1.engine.specialize_bytes [
              | none ↦ 0
              | some f ↦ f name ir meta (serialize_context ctx) (serialize_cost_samples costs)
            ]
            else 0),
        r.1,
      )

  unfoldable pub dump_ir : List Bytes → Bytes → Context → Loader → Bytes × Loader
  unfolding load_engine serialize_context
  dump_ir candidates name ctx l =
      let r = load_engine candidates l in
      (
        (if r.0
            then elim r.1.engine.dump_ir [
              | none ↦ codes "<JIT engine not available>"
              | some f ↦ elim (f name (serialize_context ctx)) [
                | none ↦ codes "<dump_ir failed>"
                | some ir ↦ ir
              ]
            ]
            else codes "<JIT engine not available>"),
        r.1,
      )

  unfoldable pub dump_ir_bytes : List Bytes → Bytes → Loader → Bytes × Loader
  unfolding load_engine
  dump_ir_bytes candidates ir l =
      let r = load_engine candidates l in
      (
        (if r.0
            then elim r.1.engine.dump_ir_bytes [
              | none ↦ codes "<JIT engine not available>"
              | some f ↦ elim (f ir) [ none ↦ codes "<dump_ir_bytes failed>" | some text ↦ text ]
            ]
            else codes "<JIT engine not available>"),
        r.1,
      )
