-- ===== src/Containment/History.antt =====
-- Histories of reports and resets.
use topo_llvm.Prelude.{
  ◌≡◌, refl, ◌∙◌, ap, Bool, true, false, Option, List, [], ◌∷◌, ◌++◌, if◌then◌else◌, Bytes, arith,
}
use topo_llvm.Containment.{ViolationEntry, Containment, name_or_unknown, violation, reset}

pub data Action : Type 0 where
  report : Option Bytes → Option Bytes → Action
  clear : Action

abbrev pub run : List Action → Containment → Containment
run [] s = s
run (report caller callee ∷ acts) s = run acts (violation caller callee s)
run (clear ∷ acts) s = run acts (reset s)

-- The reports after the last reset, added to those of before if there was none.
abbrev pub since_reset : List ViolationEntry → List Action → List ViolationEntry
since_reset old [] = old
since_reset old (report caller callee ∷ acts) =
    since_reset
      (old ++ record { caller = name_or_unknown caller; callee = name_or_unknown callee } ∷ []) acts
since_reset old (clear ∷ acts) = since_reset [] acts

abbrev pub reported : List Action → Bool
reported [] = false
reported (report caller callee ∷ acts) = true
reported (clear ∷ acts) = reported acts

-- The flag and the count of registrations go together.
abbrev pub Counted : Containment → Type 0
Counted s = s.registered ≡ (if s.atexit_registered then 1 else 0)

violation-facts :
    (caller callee : Option Bytes) (s : Containment)
    → Counted s
    → ((violation caller callee s).violations
        ≡ s.violations
          ++ record { caller = name_or_unknown caller; callee = name_or_unknown callee } ∷ [])
      × ((violation caller callee s).registered ≡ 1)
      × ((violation caller callee s).atexit_registered ≡ true)
unfolding violation
violation-facts caller callee s h = ground arith

-- In every history of reports and resets, the list is exactly the reports since the last reset,
-- in their order, and the dump at exit is registered once if anything was ever reported, and
-- otherwise acts often acts before.
pub run_records :
    (acts : List Action) (s : Containment)
    → Counted s
    → ((run acts s).violations ≡ since_reset s.violations acts)
      × ((run acts s).registered ≡ (if reported acts then 1 else s.registered))
unfolding reset
run_records [] s h = (refl, refl)
run_records (report caller callee ∷ acts) s h =
    let s' = violation caller callee s in
    let (v, r, b) = violation-facts caller callee s h in
    let (ihv, ihr) = run_records acts s' (rw b r) in
    (ihv ∙ ap (λ old. since_reset old acts) v, ihr ∙ ground (arith, r))
run_records (clear ∷ acts) s h = run_records acts (reset s) h
