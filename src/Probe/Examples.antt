-- ===== src/Probe/Examples.antt =====
-- Runs of the probe ladder, and its theorems at concrete inputs.
use wyrtloom.Base.{
  ◌≡◌, refl, ◌&&◌, ◌||◌, List, [], ◌∷◌, ◌++◌, map, keep, any, str_eq, sort_by, insert_by,
}
use wyrtloom.F64.Sample.{hundredths}
use wyrtloom.Probe.{
  ConceptId, Probe, easy, expert, hybrid, selected, select_probes, is_faded, by_mode, new_probe,
  with_scaffold, with_anomalous_behaviour, contains, rung_index, new_ladder,
}
use wyrtloom.Probe.Staircase.{run_all, credited, suspicious, concept_of, stair, run_all_lem}

abbrev dark : List ConceptId
dark = "retry" ∷ "cache" ∷ "auth" ∷ []

abbrev swapped : List ConceptId
swapped = "cache" ∷ "retry" ∷ "auth" ∷ []

critical_first :
    select_probes hundredths 20 dark (hybrid 1) ("retry" ∷ []) ≡ selected ("retry" ∷ "auth" ∷ [])
unfolding select_probes is_faded by_mode sort_by insert_by
critical_first = refl

abbrev graded : List (Probe × ConceptId)
unfolding new_probe with_scaffold with_anomalous_behaviour
graded =
    (new_probe "auth" easy "42", "42")
    ∷ (with_scaffold (new_probe "cache" expert "hit"), "hit")
    ∷ (with_anomalous_behaviour (new_probe "retry" easy "ok"), "timeout")
    ∷ []

run_all_lem_example :
    ((run_all new_ladder graded).crystallised
      ≡ new_ladder.crystallised ++ map concept_of (keep credited graded))
    × (contains (run_all new_ladder graded).mastered "auth" ≡ (
        contains new_ladder.mastered "auth"
        || any (λ p. credited p && str_eq "auth" (concept_of p)) graded))
    × ((run_all new_ladder graded).defect_signals
        ≡ new_ladder.defect_signals ++ map concept_of (keep suspicious graded))
    × (rung_index (run_all new_ladder graded).rung ≡ stair (rung_index new_ladder.rung) graded)
run_all_lem_example = run_all_lem new_ladder graded "auth"
