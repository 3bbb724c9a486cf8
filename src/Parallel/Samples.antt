-- ===== src/Parallel/Samples.antt =====
-- `get_cost_samples` and the two resets, over the maps in the registry.
use topo_llvm.Prelude.{
  ℕ, ◌+◌, ◌%◌, ◌^◌, ◌/◌, Bool, true, false, none, some, List, [], ◌∷◌, ◌++◌, ◌==◌, if◌then◌else◌,
  Bytes, codes, same, ltb, strip_prefix, ◌||◌,
}
use topo_llvm.Parallel.Cost.{SampleMap, Thread, Costs}

pub record Accum : Type 0 where
  pub total_ns : ℕ
  pub count : ℕ

-- `acc[name]`, zeros where it is missing, plus a sample.
unfoldable pub add_to : Bytes → ℕ → ℕ → List (Bytes × Accum) → List (Bytes × Accum)
add_to name ns n [] = (name, record { total_ns = ns % 2 ^ 64; count = n % 2 ^ 64 }) ∷ []
add_to name ns n ((key, a) ∷ acc) =
    if same key name
    then (key, record { total_ns = (a.total_ns + ns) % 2 ^ 64; count = (a.count + n) % 2 ^ 64 })
      ∷ acc
    else (key, a) ∷ add_to name ns n acc

unfoldable pub accumulate : SampleMap → List (Bytes × Accum) → List (Bytes × Accum)
unfolding add_to
accumulate [] acc = acc
accumulate ((name, s) ∷ m) acc =
    accumulate m (if ltb 0 s.count then add_to name s.total_ns s.count acc else acc)

unfoldable pub accumulate_all : (ℕ → Thread) → List ℕ → List (Bytes × Accum) → List (Bytes × Accum)
unfolding accumulate
accumulate_all threads [] acc = acc
accumulate_all threads (id ∷ ids) acc =
    accumulate_all threads ids (accumulate (threads id).samples acc)

unfoldable pub averages : List (Bytes × Accum) → List (Bytes × ℕ)
averages [] = []
averages ((name, a) ∷ acc) =
    let rest = averages acc in if ltb 0 a.count then (name, a.total_ns / a.count) ∷ rest else rest

unfoldable pub get_cost_samples : Costs → List (Bytes × ℕ)
unfolding accumulate_all averages
get_cost_samples c = averages (accumulate_all c.threads c.g_tls_registrations [])

unfoldable pub change_one : (SampleMap → SampleMap) → ℕ → (ℕ → Thread) → ℕ → Thread
change_one f id threads k =
    if k == id then record (threads k) { samples = f (threads k).samples } else threads k

-- A change of the maps in the registry.
unfoldable pub change_registered : (SampleMap → SampleMap) → List ℕ → (ℕ → Thread) → ℕ → Thread
unfolding change_one
change_registered f [] threads = threads
change_registered f (id ∷ ids) threads = change_registered f ids (change_one f id threads)

unfoldable pub reset_cost_samples : Costs → Costs
unfolding change_registered
reset_cost_samples c = record c {
  threads = change_registered (λ m. []) c.g_tls_registrations c.threads;
}

-- A key of the pipeline: its name, or one that starts with the name and "::".
unfoldable pub of_pipeline : Bytes → Bytes → Bool
of_pipeline name key =
    same key name
    || (elim (strip_prefix (name ++ codes "::") key) [ none ↦ false | some rest ↦ true ])

unfoldable pub erase_pipeline : Bytes → SampleMap → SampleMap
unfolding of_pipeline
erase_pipeline name [] = []
erase_pipeline name ((key, s) ∷ m) =
    let rest = erase_pipeline name m in if of_pipeline name key then rest else (key, s) ∷ rest

unfoldable pub reset_pipeline : Bytes → Costs → Costs
unfolding change_registered erase_pipeline
reset_pipeline name c = record c {
  threads = change_registered (erase_pipeline name) c.g_tls_registrations c.threads;
}
