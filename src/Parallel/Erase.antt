-- ===== src/Parallel/Erase.antt =====
-- What the scoped reset forgets, and what a matched pair of begin and end records.
use topo_llvm.Prelude.{
  either_true, ℕ, ◌+◌, ◌-◌, ◌≡◌, refl, inl, inr, Bool, true, false, Bool-cases, List, [], ◌∷◌,
  if◌then◌else◌, ◌&&◌, ◌||◌, ◌⊎◌, ◌∙◌, Option, none, some, ◌++◌, codes, strip_prefix,
  strip_prefix-append, strip_prefix→eq, Bytes, same, same_refl, same→eq, ◌==◌, Among, arith, ap,
  ap₂,
}
use topo_llvm.Parallel.Cost.{
  PendingBegin, SampleMap, Thread, Costs, register_tls_samples, cost_begin, cost_end, find_begin,
  record_sample,
}
use topo_llvm.Parallel.Samples.{
  of_pipeline, erase_pipeline, change_one, change_registered, reset_pipeline,
}
use topo_llvm.Parallel.Average.{measured, measured_all}

erase_pipeline-measured :
    (w : Bool) (name k : Bytes) (m : SampleMap)
    → measured w k (erase_pipeline name m) ≡ (if of_pipeline name k then 0 else measured w k m)
unfolding erase_pipeline
erase_pipeline-measured w name k [] = ground arith
erase_pipeline-measured w name k ((key, s) ∷ m) =
    let ih = erase_pipeline-measured w name k m in
    elim (Bool-cases (same key k)) [
      | inl e ↦
          let kind : of_pipeline name key ≡ of_pipeline name k =
            ap (of_pipeline name) (same→eq key k e) in
          ground (arith, ih, kind)
      | inr e ↦ ground (arith, ih)
    ]

or_true : (a b : Bool) → b ≡ true → (a || b) ≡ true
or_true true b h = refl
or_true false b h = h

change_one-measured :
    (w : Bool) (name k : Bytes) (i id : ℕ) (threads : ℕ → Thread)
    → measured w k (change_one (erase_pipeline name) i threads id).samples
      ≡ (if of_pipeline name k && (id == i) then 0 else measured w k (threads id).samples)
unfolding change_one
change_one-measured w name k i id threads =
    let one = erase_pipeline-measured w name k (threads id).samples in ground (arith, one)

-- A key of another pipeline keeps its measurements in every map.
change_registered-kept :
    (w : Bool) (name k : Bytes) (ids : List ℕ) (threads : ℕ → Thread) (id : ℕ)
    → of_pipeline name k ≡ false
    → measured w k (change_registered (erase_pipeline name) ids threads id).samples
      ≡ measured w k (threads id).samples
unfolding change_registered
change_registered-kept w name k [] threads id h = refl
change_registered-kept w name k (i ∷ ids) threads id h =
    let one = change_one-measured w name k i id threads in
    let ih =
      change_registered-kept w name k ids (change_one (erase_pipeline name) i threads) id h in
    ground (arith, one, ih)

-- A key of the pipeline has none left in a map that was empty of it, or is in the registry.
change_registered-still :
    (w : Bool) (name k : Bytes) (ids : List ℕ) (threads : ℕ → Thread) (id : ℕ)
    → measured w k (threads id).samples ≡ 0
    → measured w k (change_registered (erase_pipeline name) ids threads id).samples ≡ 0
unfolding change_registered
change_registered-still w name k [] threads id h = h
change_registered-still w name k (i ∷ ids) threads id h =
    let one = change_one-measured w name k i id threads in
    change_registered-still w name k ids (change_one (erase_pipeline name) i threads) id
      (ground arith)

change_registered-gone :
    (w : Bool) (name k : Bytes) (ids : List ℕ) (threads : ℕ → Thread) (id : ℕ)
    → of_pipeline name k ≡ true
    → Among id ids
    → measured w k (change_registered (erase_pipeline name) ids threads id).samples ≡ 0
unfolding change_registered
change_registered-gone w name k [] threads id h r = absurd r
change_registered-gone w name k (i ∷ ids) threads id h (inl e) =
    let one = change_one-measured w name k i id threads in
    change_registered-still w name k ids (change_one (erase_pipeline name) i threads) id
      (ground arith)
change_registered-gone w name k (i ∷ ids) threads id h (inr r) =
    change_registered-gone w name k ids (change_one (erase_pipeline name) i threads) id h r

sum_kept :
    (w : Bool) (k : Bytes) (old new : ℕ → Thread) (ids : List ℕ)
    → ((id : ℕ) → measured w k (new id).samples ≡ measured w k (old id).samples)
    → measured_all w k new ids ≡ measured_all w k old ids
sum_kept w k old new [] h = refl
sum_kept w k old new (id ∷ ids) h = ap₂ (λ a b. a + b) (h id) (sum_kept w k old new ids h)

sum_gone :
    (w : Bool) (k : Bytes) (new : ℕ → Thread) (ids : List ℕ)
    → ((id : ℕ) → Among id ids → measured w k (new id).samples ≡ 0)
    → measured_all w k new ids ≡ 0
sum_gone w k new [] h = refl
sum_gone w k new (id ∷ ids) h =
    omega (arith, h id (inl refl), sum_gone w k new ids (λ i r. h i (inr r)))

-- The keys of a pipeline: its name, and what begins with its name and "::".
abbrev pub KeyOf : Bytes → Bytes → Type 0
KeyOf name k = (k ≡ name) ⊎ ((stage : Bytes) × (k ≡ name ++ codes "::" ++ stage))

is_stage : Option Bytes → Bool
is_stage none = false
is_stage (some stage) = true

stage_of : (o : Option Bytes) → is_stage o ≡ true → (stage : Bytes) × (o ≡ some stage)
unfolding is_stage
stage_of none h = absurd cc
stage_of (some stage) h = (stage, refl)

of_pipeline-KeyOf : (name k : Bytes) → of_pipeline name k ≡ true → KeyOf name k
unfolding of_pipeline is_stage
of_pipeline-KeyOf name k h =
    elim (either_true (same k name) (is_stage (strip_prefix (name ++ codes "::") k)) h) [
      | inl e ↦ inl (same→eq k name e)
      | inr e ↦
          let (stage, found) = stage_of (strip_prefix (name ++ codes "::") k) e in
          inr (stage, strip_prefix→eq (name ++ codes "::") k stage found)
    ]

KeyOf-of_pipeline : (name k : Bytes) → KeyOf name k → of_pipeline name k ≡ true
unfolding of_pipeline is_stage
KeyOf-of_pipeline name k (inl e) = rw (e, same_refl name) refl
KeyOf-of_pipeline name k (inr (stage, e)) =
    or_true (same k name) (is_stage (strip_prefix (name ++ codes "::") k)) (
      ap is_stage
        (ap (strip_prefix (name ++ codes "::")) e ∙ strip_prefix-append (name ++ codes "::") stage))

reset_registered :
    (w : Bool) (name k : Bytes) (c : Costs)
    → measured_all w k (reset_pipeline name c).threads c.g_tls_registrations
      ≡ (if of_pipeline name k then 0 else measured_all w k c.threads c.g_tls_registrations)
unfolding reset_pipeline
reset_registered w name k c =
    let ids = c.g_tls_registrations in
    let new = (reset_pipeline name c).threads in
    elim (Bool-cases (of_pipeline name k)) [
      | inl e ↦
          rw e (sum_gone w k new ids (λ id r. change_registered-gone w name k ids c.threads id e r))
      | inr e ↦ rw e (
          sum_kept w k c.threads new ids (λ id. change_registered-kept w name k ids c.threads id e))
    ]

-- The scoped reset forgets, over all registered maps, exactly the measurements under the
-- pipeline's name and under the keys that begin with its name and "::"; the times and the numbers
-- of measurements under all other keys stay as they were.
pub reset_pipeline-measured :
    (w : Bool) (name k : Bytes) (c : Costs)
    → let after = measured_all w k (reset_pipeline name c).threads c.g_tls_registrations in
      (KeyOf name k × (after ≡ 0))
      ⊎ (¬ (KeyOf name k) × (after ≡ measured_all w k c.threads c.g_tls_registrations))
reset_pipeline-measured w name k c =
    let all = reset_registered w name k c in
    elim (Bool-cases (of_pipeline name k)) [
      | inl e ↦ inl (of_pipeline-KeyOf name k e, rw e at all)
      | inr e ↦ inr ((λ key. let yes = KeyOf-of_pipeline name k key in absurd cc), rw e at all)
    ]

-- The map of a thread and what it still measures.
abbrev pub state_of : Costs → ℕ → List PendingBegin × SampleMap
state_of c id = ((c.threads id).pending, (c.threads id).samples)

registered_state :
    (id : ℕ) (c : Costs)
    → (state_of (register_tls_samples id c) id ≡ state_of c id)
      × ((register_tls_samples id c).g_instrument ≡ c.g_instrument)
unfolding register_tls_samples
registered_state id c = ground arith

begin_state :
    (c : Costs) (id start : ℕ) (name : Bytes)
    → c.g_instrument ≡ true
    → (state_of (cost_begin id name start c) id
        ≡ (record { name = name; tp = start } ∷ (c.threads id).pending, (c.threads id).samples))
      × ((cost_begin id name start c).g_instrument ≡ true)
unfolding cost_begin
begin_state c id start name h = let (s, i) = registered_state id c in ground (arith, s, i)

end_state :
    (c : Costs) (id start stop : ℕ) (name : Bytes) (rest : List PendingBegin) (m : SampleMap)
    → c.g_instrument ≡ true
    → state_of c id ≡ (record { name = name; tp = start } ∷ rest, m)
    → state_of (cost_end id name stop c) id ≡ (rest, record_sample name (stop - start) m)
unfolding cost_end find_begin
end_state c id start stop name rest m h e = ground (arith, same_refl name)

-- While measuring is on, an end right after its begin, on the same thread, records the time
-- between the two under the name, and leaves the measurements that were open before.
cost_end-begin :
    (c : Costs) (id start stop : ℕ) (name : Bytes)
    → c.g_instrument ≡ true
    → state_of (cost_end id name stop (cost_begin id name start c)) id
      ≡ ((c.threads id).pending, record_sample name (stop - start) (c.threads id).samples)
cost_end-begin c id start stop name h =
    let (s, i) = begin_state c id start name h in
    end_state (cost_begin id name start c) id start stop name (c.threads id).pending
      (c.threads id).samples i s
