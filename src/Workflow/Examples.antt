-- ===== src/Workflow/Examples.antt =====
-- A workflow profile of four stages and one gate, and the theorems at it.
use wyrtloom.Base.{◌≡◌, ◌↔◌, refl, String, some, List, [], ◌∷◌, str_eq, is_blank, if◌then◌else◌}
use wyrtloom.Kanban.{TaskState, todo, ready, running, done, state_eq, is_legal_transition}
use wyrtloom.Profile.{default_v01}
use wyrtloom.Workflow.{
  Stage, WorkflowProfile, validate, Document, document, unreadable, loaded, from_json, check_others,
  check_stages, check_order, check_edge, check_gates, find_stage, is_adjacent_declared_edge,
  illegal_stage_order,
}
use wyrtloom.Workflow.Valid.{Valid, from_json-Valid}

abbrev column : String → TaskState → Stage
column name state = record { name = name; state = state; task_profile = default_v01 }

abbrev columns : List Stage
columns =
    column "Plan" todo ∷ column "Pull" ready ∷ column "Build" running ∷ column "Ship" done ∷ []

abbrev profile : WorkflowProfile
profile = record {
  id = "canonical";
  stages = columns;
  gates = record { from_stage = "Build"; to_stage = "Ship" } ∷ [];
}

-- A parser that knows one document.
abbrev parse : String → Document
parse json = if str_eq json "{}" then document profile else unreadable "expected a value"

loads : from_json parse "{}" ≡ loaded profile
unfolding from_json validate check_others check_stages check_order check_edge check_gates find_stage
    is_adjacent_declared_edge state_eq is_legal_transition is_blank
loads = refl

from_json-Valid_example :
    (from_json parse "{}" ≡ loaded profile) ↔ ((parse "{}" ≡ document profile) × Valid profile)
from_json-Valid_example = from_json-Valid parse "{}" profile

-- A profile that skips the pull is refused.
skipping :
    validate (record profile { stages = column "Plan" todo ∷ column "Build" running ∷ [] })
    ≡ some (illegal_stage_order todo running)
unfolding validate check_others check_stages check_order check_edge check_gates find_stage
    is_adjacent_declared_edge state_eq is_legal_transition is_blank
skipping = refl
