-- ===== src/Hunt.antt =====
-- The hunt harness, crates/plugin-hunt-harness/src/lib.rs, over the sandbox's contract of
-- crates/core/src/sandbox.rs. A `BTreeSet` is the list of its members in order; the SHA-256 by which a
-- sandbox caches a module is not here.
mod Examples
mod Fair
use wyrtloom.Base.{
  ℕ, zero, suc, ◌+◌, ◌*◌, Bool, true, false, not, ◌&&◌, String, Option, none, some, List, [], ◌∷◌,
  any, keep, leb, ◌==◌, str_eq, if◌then◌else◌,
}
use Prim.Native.String.{◌++◌ as text_append}
use wyrtloom.F64.{F64}
use wyrtloom.Kanban.{TaskId}
use wyrtloom.Canon.{Bytes}
use wyrtloom.Security.Policy.{Capability}

abbrev pub ConceptId : Type 0
ConceptId = String

pub record ResourceLimits : Type 0 where
  pub max_memory_bytes : ℕ
  pub max_wallclock_ms : ℕ

unfoldable pub default_limits : ResourceLimits
default_limits = record { max_memory_bytes = 16777216; max_wallclock_ms = 5000 }

pub data SandboxError : Type 0 where
  memory_exceeded timeout : SandboxError
  host_access_attempted : Capability → SandboxError
  trap compile : String → SandboxError

pub data Execution : Type 0 where
  output : Bytes → Execution
  stopped : SandboxError → Execution

-- `SandboxRuntime::execute`, of a module's bytes and its input.
abbrev pub Sandbox : Type 0
Sandbox = Bytes → Bytes → ResourceLimits → Execution

pub record HuntTest : Type 0 where
  pub id : String
  pub author : String
  pub task : TaskId
  pub module_wasm : Bytes
  pub exercises : List ConceptId

abbrev pub contains : List ConceptId → ConceptId → Bool
contains set c = any (str_eq c) set

unfoldable pub credit_coverage : List ConceptId → List ConceptId → List ConceptId
credit_coverage exercised map = keep (contains map) exercised

pub data Verdict : Type 0 where
  survived broke : Verdict

unfoldable pub has_survived : Verdict → Bool
has_survived survived = true
has_survived broke = false

pub record DefectRecord : Type 0 where
  pub hunt_test_id : String
  pub task : TaskId
  pub author : String
  pub credited : List ConceptId
  pub detail : String
  pub crystallise_on_fix : Bool

pub record HuntOutcome : Type 0 where
  pub verdict : Verdict
  pub credited : List ConceptId
  pub defect : Option DefectRecord

pub data Hunted : Type 0 where
  hunted : HuntOutcome → Hunted
  harness_failed : SandboxError → Hunted

-- The harness but for its sandbox.
pub record HuntHarness : Type 0 where
  pub map : List ConceptId
  pub limits : ResourceLimits

unfoldable pub new_harness : List ConceptId → HuntHarness
unfolding default_limits
new_harness map = record { map = map; limits = default_limits }

unfoldable pub with_limits : HuntHarness → ResourceLimits → HuntHarness
with_limits h limits = record h { limits = limits }

-- The first byte, or 0.
unfoldable pub first_byte : Bytes → ℕ
first_byte [] = 0
first_byte (b ∷ out) = b

unfoldable pub defect_of : HuntTest → List ConceptId → Verdict → Option DefectRecord
defect_of test credited survived = none
defect_of test credited broke = some (record {
  hunt_test_id = test.id;
  task = test.task;
  author = test.author;
  credited = credited;
  detail = text_append "hunt-test '" (text_append test.id "' broke the target");
  crystallise_on_fix = true;
})

unfoldable pub outcome_of : HuntTest → List ConceptId → Verdict → Hunted
unfolding defect_of
outcome_of test credited verdict =
    hunted
      (record { verdict = verdict; credited = credited; defect = defect_of test credited verdict })

unfoldable pub judge : HuntTest → List ConceptId → Execution → Hunted
unfolding first_byte outcome_of
judge test credited (output out) =
    outcome_of test credited (if first_byte out == 0 then broke else survived)
judge test credited (stopped (trap why)) = outcome_of test credited broke
judge test credited (stopped memory_exceeded) = harness_failed memory_exceeded
judge test credited (stopped timeout) = harness_failed timeout
judge test credited (stopped (host_access_attempted c)) = harness_failed (host_access_attempted c)
judge test credited (stopped (compile why)) = harness_failed (compile why)

unfoldable pub run : Sandbox → HuntHarness → HuntTest → Bytes → Hunted
unfolding credit_coverage judge
run execute h test agent_output =
    judge test (credit_coverage test.exercises h.map)
      (execute test.module_wasm agent_output h.limits)

-- What the text of a pitch tells apart.
pub data Pitch : Type 0 where
  sharper_angle smaller_case : Pitch

pub record StakeEscalation : Type 0 where
  pub ladder_depth : ℕ
  pub pitch : Pitch

module _ (f : F64) (calibration : String → ConceptId → f.Num) where
  -- `iter().map(..).reduce(f64::min)`, from the value so far.
  unfoldable pub least_from : String → f.Num → List ConceptId → f.Num
  least_from author acc [] = acc
  least_from author acc (c ∷ cs) = least_from author (f.minimum acc (calibration author c)) cs

  unfoldable pub least : String → List ConceptId → Option f.Num
  unfolding least_from
  least author [] = none
  least author (c ∷ cs) = some (least_from author (calibration author c) cs)

  unfoldable pub pitch_for : Option f.Num → Pitch
  pitch_for none = smaller_case
  pitch_for (some c) = if f.ge c (f.lit 75 2) then sharper_angle else smaller_case

  unfoldable pub escalate : HuntTest → HuntOutcome → ℕ → ℕ → Option StakeEscalation
  unfolding has_survived least pitch_for
  escalate test outcome current_depth max_ladder_depth =
      if not (has_survived outcome.verdict)
      then none
      else if leb max_ladder_depth current_depth
      then none
      else some (record {
        ladder_depth = current_depth + 1;
        pitch = pitch_for (least test.author test.exercises);
      })
