-- ===== src/Parallel/Average.antt =====
-- What `get_cost_samples` reports: sums over all registered maps, divided once.
use topo_llvm.Prelude.{
  ℕ, ◌+◌, ◌%◌, ◌^◌, ◌/◌, ◌<◌, ◌≡◌, refl, inl, inr, Bool, true, false, Bool-cases, Option, none,
  some, List, [], ◌∷◌, if◌then◌else◌, ◌&&◌, Bytes, same, same→eq, same_sym, ltb, All, arith, subst,
  ◌∙◌, ap, ap₂,
}
use topo_llvm.Parallel.Cost.{SampleMap, Thread, Costs}
use topo_llvm.Parallel.Samples.{
  Accum, add_to, accumulate, accumulate_all, averages, get_cost_samples,
}

-- The time (`true`) or the number of measurements (`false`).
abbrev pub amount : Bool → ℕ → ℕ → ℕ
amount true ns n = ns
amount false ns n = n

-- What a map has measured under a name.
abbrev pub measured : Bool → Bytes → SampleMap → ℕ
measured w name [] = 0
measured w name ((key, s) ∷ m) =
    (if same key name && ltb 0 s.count then amount w s.total_ns s.count else 0) + measured w name m

abbrev pub measured_all : Bool → Bytes → (ℕ → Thread) → List ℕ → ℕ
measured_all w name threads [] = 0
measured_all w name threads (id ∷ ids) =
    measured w name (threads id).samples + measured_all w name threads ids

abbrev found : Bool → Bytes → List (Bytes × Accum) → ℕ
found w name [] = 0
found w name ((key, a) ∷ acc) =
    if same key name then amount w a.total_ns a.count else found w name acc

same_key : (key k name : Bytes) → same key k ≡ true → same key name ≡ same k name
same_key key k name e = ap (λ x. same x name) (same→eq key k e)

other_key : (key k name : Bytes) → same key k ≡ false → same key name ≡ true → same k name ≡ false
other_key key k name e h = subst (λ x. same k x ≡ false) (same→eq key name h) (same_sym k key ∙ e)

add_to-found :
    (w : Bool) (name k : Bytes) (ns n : ℕ) (acc : List (Bytes × Accum))
    → found w name (add_to k ns n acc) % 2 ^ 64
      ≡ (found w name acc + (if same k name then amount w ns n else 0)) % 2 ^ 64
unfolding add_to
add_to-found true name k ns n [] = ground arith
add_to-found false name k ns n [] = ground arith
add_to-found true name k ns n ((key, a) ∷ acc) =
    ground (arith, same_key key k name, other_key key k name, add_to-found true name k ns n acc)
add_to-found false name k ns n ((key, a) ∷ acc) =
    ground (arith, same_key key k name, other_key key k name, add_to-found false name k ns n acc)

accumulate-found :
    (w : Bool) (name : Bytes) (m : SampleMap) (acc : List (Bytes × Accum))
    → found w name (accumulate m acc) % 2 ^ 64 ≡ (found w name acc + measured w name m) % 2 ^ 64
unfolding accumulate
accumulate-found w name [] acc = omega arith
accumulate-found w name ((k, s) ∷ m) acc = elim (Bool-cases (ltb 0 s.count)) [
  | inl e ↦
      let one = add_to-found w name k s.total_ns s.count acc in
      let ih = accumulate-found w name m (add_to k s.total_ns s.count acc) in
      ground (arith, one, ih)
  | inr e ↦ let ih = accumulate-found w name m acc in ground (arith, ih)
]

accumulate_all-found :
    (w : Bool) (name : Bytes) (threads : ℕ → Thread) (ids : List ℕ) (acc : List (Bytes × Accum))
    → found w name (accumulate_all threads ids acc) % 2 ^ 64
      ≡ (found w name acc + measured_all w name threads ids) % 2 ^ 64
unfolding accumulate_all
accumulate_all-found w name threads [] acc = omega arith
accumulate_all-found w name threads (id ∷ ids) acc =
    let one = accumulate-found w name (threads id).samples acc in
    omega
      (arith, one, accumulate_all-found w name threads ids (accumulate (threads id).samples acc))

-- The sums fit their words, and no key stands twice.
abbrev Fits : Bytes × Accum → Type 0
Fits e = (e.1.total_ns < 2 ^ 64) × (e.1.count < 2 ^ 64)

abbrev Absent : Bytes → List (Bytes × Accum) → Type 0
Absent k acc = All (λ e. same e.0 k ≡ false) acc

abbrev WellFormed : List (Bytes × Accum) → Type 0
WellFormed [] = Unit
WellFormed (e ∷ acc) = Fits e × Absent e.0 acc × WellFormed acc

add_to-Absent :
    (key k : Bytes) (ns n : ℕ) (acc : List (Bytes × Accum))
    → Absent key acc
    → same k key ≡ false
    → Absent key (add_to k ns n acc)
unfolding add_to
add_to-Absent key k ns n [] h d = (d, tt)
add_to-Absent key k ns n ((key', a) ∷ acc) h d = elim (Bool-cases (same key' k)) [
  | inl e ↦ rw e h
  | inr e ↦ rw e (h.0, add_to-Absent key k ns n acc h.1 d)
]

add_to-WellFormed :
    (k : Bytes) (ns n : ℕ) (acc : List (Bytes × Accum))
    → WellFormed acc
    → WellFormed (add_to k ns n acc)
unfolding add_to
add_to-WellFormed k ns n [] h = ((omega arith, omega arith), tt, tt)
add_to-WellFormed k ns n ((key, a) ∷ acc) (hf, ha, hw) = elim (Bool-cases (same key k)) [
  | inl e ↦ rw e ((omega arith, omega arith), ha, hw)
  | inr e ↦
      rw e
        (hf, add_to-Absent key k ns n acc ha (same_sym k key ∙ e), add_to-WellFormed k ns n acc hw)
]

accumulate-WellFormed :
    (m : SampleMap) (acc : List (Bytes × Accum)) → WellFormed acc → WellFormed (accumulate m acc)
unfolding accumulate
accumulate-WellFormed [] acc h = h
accumulate-WellFormed ((k, s) ∷ m) acc h = elim (Bool-cases (ltb 0 s.count)) [
  | inl e ↦ rw e (
      accumulate-WellFormed m (add_to k s.total_ns s.count acc)
        (add_to-WellFormed k s.total_ns s.count acc h))
  | inr e ↦ rw e (accumulate-WellFormed m acc h)
]

accumulate_all-WellFormed :
    (threads : ℕ → Thread) (ids : List ℕ) (acc : List (Bytes × Accum))
    → WellFormed acc
    → WellFormed (accumulate_all threads ids acc)
unfolding accumulate_all
accumulate_all-WellFormed threads [] acc h = h
accumulate_all-WellFormed threads (id ∷ ids) acc h =
    accumulate_all-WellFormed threads ids (accumulate (threads id).samples acc)
      (accumulate-WellFormed (threads id).samples acc h)

found_fits :
    (w : Bool) (name : Bytes) (acc : List (Bytes × Accum))
    → WellFormed acc
    → found w name acc < 2 ^ 64
found_fits true name [] h = omega arith
found_fits false name [] h = omega arith
found_fits true name ((key, a) ∷ acc) (hf, ha, hw) = ground (arith, found_fits true name acc hw)
found_fits false name ((key, a) ∷ acc) (hf, ha, hw) = ground (arith, found_fits false name acc hw)

-- The first entry of a report under a name.
abbrev pub lookup : Bytes → List (Bytes × ℕ) → Option ℕ
lookup name [] = none
lookup name ((key, v) ∷ r) = if same key name then some v else lookup name r

-- The average of a total over a number of measurements, if there are any.
abbrev pub average : ℕ → ℕ → Option ℕ
average total n = if ltb 0 n then some (total / n) else none

lookup-Absent :
    (name : Bytes) (acc : List (Bytes × Accum))
    → Absent name acc
    → lookup name (averages acc) ≡ none
unfolding averages
lookup-Absent name [] h = refl
lookup-Absent name ((key, a) ∷ acc) h = ground (arith, lookup-Absent name acc h.1)

averages-lookup :
    (name : Bytes) (acc : List (Bytes × Accum))
    → WellFormed acc
    → lookup name (averages acc) ≡ average (found true name acc) (found false name acc)
unfolding averages
averages-lookup name [] h = refl
averages-lookup name ((key, a) ∷ acc) (hf, ha, hw) = elim (Bool-cases (same key name)) [
  | inl e ↦
      let gone = lookup-Absent name acc (subst (λ k. Absent k acc) (same→eq key name e) ha) in
      ground (arith, gone)
  | inr e ↦ ground (arith, averages-lookup name acc hw)
]

-- Under each name the report holds the total time, over the maps of all registered threads,
-- divided once by the total number of measurements, both as 64-bit words; and nothing where that
-- number is 0. So the average does not depend on how the measurements were spread over threads.
pub get_cost_samples-average :
    (c : Costs) (name : Bytes)
    → lookup name (get_cost_samples c)
      ≡ average
          (measured_all true name c.threads c.g_tls_registrations % 2 ^ 64)
          (measured_all false name c.threads c.g_tls_registrations % 2 ^ 64)
unfolding get_cost_samples
get_cost_samples-average c name =
    let ids = c.g_tls_registrations in
    let acc = accumulate_all c.threads ids [] in
    let wf = accumulate_all-WellFormed c.threads ids [] tt in
    let exact : (w : Bool) → found w name acc ≡ measured_all w name c.threads ids % 2 ^ 64 =
      λ w. omega (arith, found_fits w name acc wf, accumulate_all-found w name c.threads ids []) in
    averages-lookup name acc wf ∙ ap₂ average (exact true) (exact false)
