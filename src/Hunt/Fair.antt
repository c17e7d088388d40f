-- ===== src/Hunt/Fair.antt =====
-- What a hunt answers.
use wyrtloom.Base.{
  ℕ, ◌≡◌, refl, sym, ◌∙◌, arith, Bool, true, false, not, ◌&&◌, Option, none, some, List, [], ◌∷◌,
  any-keep, any-and, ◌==◌, str_eq, str_eq_iff, if◌then◌else◌,
}
use wyrtloom.Canon.{Bytes}
use wyrtloom.Hunt.{
  ConceptId, memory_exceeded, timeout, host_access_attempted, trap, compile, Execution, output,
  stopped, Sandbox, HuntTest, contains, credit_coverage, Verdict, survived, broke, has_survived,
  DefectRecord, HuntOutcome, Hunted, hunted, harness_failed, HuntHarness, first_byte, defect_of,
  outcome_of, judge, run,
}

-- The output begins with a byte that is not 0.
abbrev pub held : Execution → Bool
held (output (b ∷ out)) = not (b == 0)
held _ = false

-- The execution tells of the agent's work, not of the test.
abbrev pub tells : Execution → Bool
tells (output out) = true
tells (stopped (trap why)) = true
tells _ = false

-- The defect is there where the work broke, and says by which test, whose, and what was credited.
abbrev pub Recorded : HuntTest → HuntOutcome → Option DefectRecord → Type 0
Recorded test o none = has_survived o.verdict ≡ true
Recorded test o (some d) =
    (has_survived o.verdict ≡ false)
    × (d.hunt_test_id ≡ test.id)
    × (d.task ≡ test.task)
    × (d.author ≡ test.author)
    × (d.credited ≡ o.credited)
    × (d.crystallise_on_fix ≡ true)

abbrev pub Fair : HuntHarness → HuntTest → ConceptId → Execution → Hunted → Type 0
Fair h test c e (hunted o) =
    (tells e ≡ true)
    × (has_survived o.verdict ≡ held e)
    × (contains o.credited c ≡ (contains test.exercises c && contains h.map c))
    × Recorded test o o.defect
Fair h test c e (harness_failed why) = (tells e ≡ false) × (e ≡ stopped why)

credit_coverage-both :
    (exercised map : List ConceptId) (c : ConceptId)
    → contains (credit_coverage exercised map) c ≡ (contains exercised c && contains map c)
unfolding credit_coverage
credit_coverage-both exercised map c =
    any-keep (str_eq c) (contains map) exercised
    ∙ any-and c (str_eq c) (contains map) exercised (λ x e. sym ((str_eq_iff c x).0 e))

-- An outcome is fair where the verdict is the execution's.
outcome_of-Fair :
    (h : HuntHarness) (test : HuntTest) (c : ConceptId) (e : Execution) (v : Verdict)
    → tells e ≡ true
    → has_survived v ≡ held e
    → Fair h test c e (outcome_of test (credit_coverage test.exercises h.map) v)
unfolding outcome_of defect_of has_survived
outcome_of-Fair h test c e survived t s = (t, s, credit_coverage-both test.exercises h.map c, refl)
outcome_of-Fair h test c e broke t s =
    (t, s, credit_coverage-both test.exercises h.map c, (refl, refl, refl, refl, refl, refl))

judge-Fair :
    (h : HuntHarness) (test : HuntTest) (c : ConceptId) (e : Execution)
    → Fair h test c e (judge test (credit_coverage test.exercises h.map) e)
unfolding judge first_byte has_survived
judge-Fair h test c (output []) = outcome_of-Fair h test c (output []) broke refl refl
judge-Fair h test c (output (b ∷ out)) =
    outcome_of-Fair h test c (output (b ∷ out)) _ refl (verdict b)
  where
    verdict : (b : ℕ) → has_survived (if b == 0 then broke else survived) ≡ not (b == 0)
    verdict b = ground arith
judge-Fair h test c (stopped (trap why)) =
    outcome_of-Fair h test c (stopped (trap why)) broke refl refl
judge-Fair h test c (stopped memory_exceeded) = (refl, refl)
judge-Fair h test c (stopped timeout) = (refl, refl)
judge-Fair h test c (stopped (host_access_attempted k)) = (refl, refl)
judge-Fair h test c (stopped (compile why)) = (refl, refl)

-- Whatever sandbox runs a hunt: the work survives exactly when the output begins with a byte that is
-- not 0, and breaks with any other output or a trap; a concept is credited exactly when the test
-- exercises it and the map has it, survived or not; a defect is recorded exactly for a break, with
-- the test, its author and what was credited; and any other stop is the harness's failure.
pub run-Fair :
    (execute : Sandbox) (h : HuntHarness) (test : HuntTest) (agent_output : Bytes) (c : ConceptId)
    → Fair h test c
        (execute test.module_wasm agent_output h.limits)
        (run execute h test agent_output)
unfolding run
run-Fair execute h test agent_output c =
    judge-Fair h test c (execute test.module_wasm agent_output h.limits)
