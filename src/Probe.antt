-- ===== src/Probe.antt =====
-- The probe ladder, crates/plugin-probe-ladder/src/lib.rs. A concept's id is its text, a hash set a
-- list of texts.
mod Examples
pub mod Selection
pub mod Staircase
use wyrtloom.Base.{
  ℕ, suc, ◌+◌, ◌-◌, ◌<◌, Bool, true, false, not, String, Option, none, some, List, [], ◌∷◌, ◌++◌,
  get_elem?, take, keep, any, str_eq, str_le, sort_by, if◌then◌else◌,
}
use Prim.Native.Nat.{min}
use wyrtloom.F64.{F64}

abbrev pub ConceptId : Type 0
ConceptId = String

pub data MasteryMode : Type 0 where
  strict : MasteryMode
  sampled : ℕ → MasteryMode
  hybrid : ℕ → MasteryMode

pub data Rung : Type 0 where
  intro easy medium hard expert : Rung

-- `self as usize`
unfoldable pub rung_index : Rung → ℕ
rung_index intro = 0
rung_index easy = 1
rung_index medium = 2
rung_index hard = 3
rung_index expert = 4

-- `LADDER[idx]`; an index past the end, which no caller makes, would panic.
unfoldable pub rung_at : ℕ → Rung
rung_at idx = elim (get_elem? (intro ∷ easy ∷ medium ∷ hard ∷ expert ∷ []) idx) [
  | none ↦ expert
  | some r ↦ r
]

unfoldable pub up : Rung → Rung
unfolding rung_index rung_at
up r = rung_at (min (rung_index r + 1) 4)

unfoldable pub down : Rung → Rung
unfolding rung_index rung_at
down r = rung_at (rung_index r - 1)

pub record Probe : Type 0 where
  pub concept : ConceptId
  pub rung : Rung
  pub predicted_output : String
  pub scaffolded : Bool
  pub behaviour_is_anomalous : Bool

unfoldable pub new_probe : ConceptId → Rung → String → Probe
new_probe concept rung predicted_output = record {
  concept = concept;
  rung = rung;
  predicted_output = predicted_output;
  scaffolded = false;
  behaviour_is_anomalous = false;
}

unfoldable pub with_scaffold : Probe → Probe
with_scaffold p = record p { scaffolded = true }

unfoldable pub with_anomalous_behaviour : Probe → Probe
with_anomalous_behaviour p = record p { behaviour_is_anomalous = true }

-- A miss says whether it signals a defect.
pub data Grade : Type 0 where
  pass : Grade
  miss : Bool → Grade

pub record ProbeResult : Type 0 where
  pub grade : Grade
  pub next_rung : Rung
  pub credits_mastery : Bool
  pub crystallise : Bool

pub data ProbeError : Type 0 where
  faded not_dark : ProbeError

unfoldable pub grade_probe : Probe → String → ProbeResult
unfolding up down
grade_probe probe actual_output =
    if str_eq probe.predicted_output actual_output
    then record {
      grade = pass;
      next_rung = up probe.rung;
      credits_mastery = not probe.scaffolded;
      crystallise = not probe.scaffolded;
    }
    else record {
      grade = miss probe.behaviour_is_anomalous;
      next_rung = down probe.rung;
      credits_mastery = false;
      crystallise = false;
    }

pub data Selected : Type 0 where
  selected : List ConceptId → Selected
  refused : ProbeError → Selected

abbrev pub contains : List ConceptId → ConceptId → Bool
contains set c = any (str_eq c) set

unfoldable pub by_mode : MasteryMode → List ConceptId → List ConceptId → List ConceptId
by_mode strict criticality sorted = sorted
by_mode (sampled k) criticality sorted = take k sorted
by_mode (hybrid k) criticality sorted =
    keep (contains criticality) sorted ++ take k (keep (λ c. not (contains criticality c)) sorted)

module _ (f : F64) where
  unfoldable pub is_faded : f.Num → Bool
  is_faded calibration = f.ge calibration (f.lit 85 2)

  unfoldable pub select_probes : f.Num → List ConceptId → MasteryMode → List ConceptId → Selected
  unfolding is_faded by_mode
  select_probes calibration dark mode criticality =
      if is_faded calibration
      then refused faded
      else selected (by_mode mode criticality (sort_by str_le dark))

pub record Ladder : Type 0 where
  pub rung : Rung
  pub mastered : List ConceptId
  pub crystallised : List ConceptId
  pub defect_signals : List ConceptId

unfoldable pub starting_at : Rung → Ladder
starting_at rung = record { rung = rung; mastered = []; crystallised = []; defect_signals = [] }

unfoldable pub new_ladder : Ladder
unfolding starting_at
new_ladder = starting_at intro

-- `HashSet::insert`
abbrev pub insert_concept : ConceptId → List ConceptId → List ConceptId
insert_concept c set = if contains set c then set else c ∷ set

abbrev pub signals_defect : Grade → Bool
signals_defect (miss d) = d
signals_defect pass = false

unfoldable pub run_probe : Ladder → Probe → String → ProbeResult × Ladder
unfolding grade_probe
run_probe l probe actual_output =
    let result = grade_probe probe actual_output in
    (
      result,
      record {
        rung = result.next_rung;
        mastered =
            if result.credits_mastery then insert_concept probe.concept l.mastered else l.mastered;
        crystallised =
            if result.crystallise then l.crystallised ++ probe.concept ∷ [] else l.crystallised;
        defect_signals =
            if signals_defect result.grade
            then l.defect_signals ++ probe.concept ∷ []
            else l.defect_signals;
      },
    )
