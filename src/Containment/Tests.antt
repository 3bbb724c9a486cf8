-- ===== src/Containment/Tests.antt =====
-- Reports on concrete inputs.
use topo_llvm.Prelude.{◌≡◌, refl, false, none, some, List, [], ◌∷◌, if◌then◌else◌, codes}
use topo_llvm.Containment.{Containment, violation, name_or_unknown, dump_rows}
use topo_llvm.Containment.History.{Action, report, clear, run, since_reset, reported, run_records}

abbrev nothing : Containment
nothing = record { violations = []; atexit_registered = false; registered = 0 }

-- A name with a quote in it goes out as it is, so the row is no JSON object.
dumped_raw :
    dump_rows (violation (some (34 ∷ [])) none nothing).violations
    ≡ codes "  {\"caller\": \"\"\", \"callee\": \"<unknown>\"}\n"
unfolding dump_rows violation name_or_unknown
dumped_raw = refl

abbrev actions : List Action
actions = report (some (codes "a")) none ∷ clear ∷ report none (some (codes "b")) ∷ []

run_records_example :
    ((run actions nothing).violations ≡ since_reset [] actions)
    × ((run actions nothing).registered ≡ (if reported actions then 1 else 0))
run_records_example = run_records actions nothing refl
