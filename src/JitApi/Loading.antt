-- ===== src/JitApi/Loading.antt =====
-- The engine is looked for once, only at anchored paths, and is called only if its version fits.
use topo_llvm.Prelude.{
  ℕ, ◌≡◌, ◌⊎◌, refl, inl, inr, Bool, true, false, Option-cases, Option, none, some, List, [], ◌∷◌,
  ◌++◌, Among, Bytes, codes, arith, if_cases, sym, ◌∙◌, ap,
}
use topo_llvm.JitApi.{
  EngineInterface, Loader, first_loadable, acceptable, finish_load, load_engine, override_candidate,
  exe_dir_candidates, engine_search_candidates,
}

-- A path below the directory of the executable.
abbrev BelowExeDir : Bytes → Bytes → Type 0
BelowExeDir exe_dir p = (rest : Bytes) × (p ≡ exe_dir ++ (codes "/" ++ rest))

override_only :
    (p : Bytes) (env_override : Option Bytes) (ps : List Bytes)
    → Among p (override_candidate env_override ++ ps)
    → (env_override ≡ some p) ⊎ Among p ps
unfolding override_candidate
override_only p none ps h = inr h
override_only p (some []) ps h = inr h
override_only p (some (c ∷ s)) ps (inl e) = inl (ap some (sym e))
override_only p (some (c ∷ s)) ps (inr h) = inr h

exe_dir_only :
    (p exe_dir lib_name : Bytes)
    → Among p (exe_dir_candidates exe_dir lib_name)
    → BelowExeDir exe_dir p
unfolding exe_dir_candidates
exe_dir_only p [] lib_name h = absurd h
exe_dir_only p (c ∷ s) lib_name (inl e) = (lib_name, e)
exe_dir_only p (c ∷ s) lib_name (inr (inl e)) = (codes "../lib/" ++ lib_name, e)
exe_dir_only p (c ∷ s) lib_name (inr (inr h)) = absurd h

-- Every candidate path for the engine is the operator's override, taken as it is, or lies below
-- the directory of the executable.
engine_search_candidates-anchored :
    (exe_dir lib_name : Bytes) (env_override : Option Bytes) (p : Bytes)
    → Among p (engine_search_candidates exe_dir lib_name env_override)
    → (env_override ≡ some p) ⊎ BelowExeDir exe_dir p
unfolding engine_search_candidates
engine_search_candidates-anchored exe_dir lib_name env_override p h =
    elim (override_only p env_override (exe_dir_candidates exe_dir lib_name) h) [
      | inl e ↦ inl e
      | inr r ↦ inr (exe_dir_only p exe_dir lib_name r)
    ]

module _ (abi_version : ℕ) (open_library : Bytes → Option EngineInterface) where
  -- What holds of a loader between calls: it holds a library exactly while one is loaded, and then
  -- the symbols are that library's and acceptable.
  unfoldable pub Consistent : Loader → Type 0
  Consistent l =
      ((l.loaded ≡ true)
        × ((p : Bytes) × (l.library ≡ some p) × (open_library p ≡ some l.engine))
        × (acceptable abi_version open_library l.engine ≡ true)
        × (l.tried_load ≡ true))
      ⊎ ((l.loaded ≡ false) × (l.library ≡ none))

  -- A path that was opened gave its engine.
  abbrev Opened : Option (Bytes × EngineInterface) → Type 0
  Opened none = Unit
  Opened (some (p, e)) = open_library p ≡ some e

  first_loadable-Opened : (ps : List Bytes) → Opened (first_loadable abi_version open_library ps)
  unfolding first_loadable
  first_loadable-Opened [] = tt
  first_loadable-Opened (q ∷ qs) = elim (Option-cases (open_library q)) [
    | inl n ↦ rw (n, Opened) (first_loadable-Opened qs)
    | inr (x, s) ↦ rw (s, Opened) s
  ]

  -- The answer says whether the engine is loaded, and the loader is consistent and settled.
  abbrev pub Settled : Bool × Loader → Type 0
  Settled r = (r.0 ≡ r.1.loaded) × Consistent r.1 × (r.1.tried_load ≡ true)

  finish_load-Settled :
      (o : Option (Bytes × EngineInterface)) (l : Loader)
      → Opened o
      → l.loaded ≡ false
      → Settled (finish_load abi_version open_library o l)
  unfolding Consistent finish_load
  finish_load-Settled none l ho h = (sym h, inr (h, refl), refl)
  finish_load-Settled (some (p, e)) l ho h =
      if_cases Settled (acceptable abi_version open_library e) _ _
        (λ ok. (refl, inl (refl, (p, refl, ho), ok, refl), refl))
        (λ bad. (sym h, inr (h, refl), refl))

  load_engine-Settled :
      (candidates : List Bytes) (l : Loader)
      → Consistent l
      → Settled (load_engine abi_version open_library candidates l)
  unfolding Consistent load_engine
  load_engine-Settled candidates l h =
      if_cases Settled l.tried_load _ _ (λ tried. (refl, h, tried))
        (λ fresh.
          finish_load-Settled (first_loadable abi_version open_library candidates) l
            (first_loadable-Opened candidates) (ground arith))

  load_engine_tried :
      (candidates : List Bytes) (l : Loader)
      → l.tried_load ≡ true
      → load_engine abi_version open_library candidates l ≡ (l.loaded, l)
  unfolding load_engine
  load_engine_tried candidates l h =
      if_cases (λ r. r ≡ (l.loaded, l)) l.tried_load _ _ (λ tried. refl)
        (λ fresh. absurd (ground arith))

  -- From a consistent loader, every call, on any candidates and whatever they load, answers whether
  -- an engine is loaded, leaves the loader consistent and settled, and a later call on any other candidates
  -- answers the same and changes nothing.
  pub load_engine_once :
      (candidates later : List Bytes) (l : Loader)
      → Consistent l
      → Settled (load_engine abi_version open_library candidates l)
        × (load_engine abi_version open_library later
              (load_engine abi_version open_library candidates l).1
            ≡ load_engine abi_version open_library candidates l)
  load_engine_once candidates later l h =
      let r = load_engine abi_version open_library candidates l in
      let (answer, ok, tried) = load_engine-Settled candidates l h in
      ((answer, ok, tried), load_engine_tried later r.1 tried ∙ ap (λ b. (b, r.1)) (sym answer))
