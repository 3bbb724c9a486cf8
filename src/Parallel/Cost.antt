-- ===== src/Parallel/Cost.antt =====
-- The cost samples: each thread's open measurements and its sample map, and the registry of the
-- maps. A `steady_clock` reading is a number of nanoseconds.
use topo_llvm.Prelude.{
  ℕ, ◌+◌, ◌-◌, ◌%◌, ◌^◌, Bool, true, false, Option, none, some, List, [], ◌∷◌, ◌++◌, ◌==◌,
  if◌then◌else◌, Bytes, same,
}

pub record CostSample : Type 0 where
  pub name : Bytes
  pub total_ns : ℕ
  pub count : ℕ

pub record PendingBegin : Type 0 where
  pub name : Bytes
  pub tp : ℕ

abbrev pub SampleMap : Type 0
SampleMap = List (Bytes × CostSample)

-- A thread's locals: `tls_pending_begins`, its last entry first, and `tls_registration`.
pub record Thread : Type 0 where
  pub pending : List PendingBegin
  pub samples : SampleMap
  pub registered : Bool

-- `g_tls_registrations` names threads in place of pointers to their maps.
pub record Costs : Type 0 where
  pub g_instrument : Bool
  pub threads : ℕ → Thread
  pub g_tls_registrations : List ℕ

abbrev pub with_thread : Costs → ℕ → Thread → Costs
with_thread c id t = record c { threads = λ k. if k == id then t else c.threads k }

-- `enrol`
unfoldable pub register_tls_samples : ℕ → Costs → Costs
register_tls_samples id c =
    if (c.threads id).registered
    then c
    else record (with_thread c id (record (c.threads id) { registered = true })) {
      g_tls_registrations = c.g_tls_registrations ++ id ∷ [];
    }

abbrev pub without : ℕ → List ℕ → List ℕ
without id [] = []
without id (k ∷ ks) = if k == id then without id ks else k ∷ without id ks

-- The end of a thread: `~TlsSampleRegistration`, and then its locals are gone.
unfoldable pub thread_exit : ℕ → Costs → Costs
thread_exit id c =
    record (with_thread c id (record { pending = []; samples = []; registered = false })) {
      g_tls_registrations =
          if (c.threads id).registered
          then without id c.g_tls_registrations
          else c.g_tls_registrations;
    }

unfoldable pub cost_begin : ℕ → Bytes → ℕ → Costs → Costs
unfolding register_tls_samples
cost_begin id name now c =
    let c' = register_tls_samples id c in
    let t = c'.threads id in
    if c.g_instrument
    then with_thread c' id (record t { pending = record { name = name; tp = now } ∷ t.pending })
    else c

-- The last open measurement of the name, and the others.
unfoldable pub find_begin : Bytes → List PendingBegin → Option (ℕ × List PendingBegin)
find_begin name [] = none
find_begin name (b ∷ bs) =
    if same b.name name
    then some (b.tp, bs)
    else elim (find_begin name bs) [ none ↦ none | some (tp, rest) ↦ some (tp, b ∷ rest) ]

-- `samples[name]`, made with zeros where it is missing, takes one more measurement.
unfoldable pub record_sample : Bytes → ℕ → SampleMap → SampleMap
record_sample name d [] = (name, record { name = name; total_ns = d % 2 ^ 64; count = 1 }) ∷ []
record_sample name d ((key, s) ∷ m) =
    if same key name
    then (
      key,
      record {
        name = name;
        total_ns = (s.total_ns + d % 2 ^ 64) % 2 ^ 64;
        count = (s.count + 1) % 2 ^ 64;
      },
    )
      ∷ m
    else (key, s) ∷ record_sample name d m

-- The clock never goes back, so `now - tp` does not stop at 0.
unfoldable pub cost_end : ℕ → Bytes → ℕ → Costs → Costs
unfolding find_begin record_sample
cost_end id name now c =
    let t = c.threads id in
    if c.g_instrument
    then elim (find_begin name t.pending) [
      | none ↦ c
      | some (tp, rest) ↦
          with_thread c id
            (record t { pending = rest; samples = record_sample name (now - tp) t.samples })
    ]
    else c
