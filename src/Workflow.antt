-- ===== src/Workflow.antt =====
-- The workflow profile, crates/plugin-workflow-profile/src/lib.rs: the board's columns in their order,
-- the gates between them, and the checks that a profile passes when it is loaded. serde_json's reading
-- of a document is an argument of `from_json`: the profile, or the text of its error.
pub mod Valid
pub mod Gates
mod Examples
use wyrtloom.Base.{
  Bool, true, false, ◌&&◌, ◌||◌, String, Option, none, some, List, [], ◌∷◌, map, is_blank, str_eq,
  if◌then◌else◌,
}
use wyrtloom.Kanban.{TaskState, state_eq, is_legal_transition}
use wyrtloom.Profile.{TaskProfile}

pub record Stage : Type 0 where
  pub name : String
  pub state : TaskState
  pub task_profile : TaskProfile

pub record Gate : Type 0 where
  pub from_stage : String
  pub to_stage : String

pub record WorkflowProfile : Type 0 where
  pub id : String
  pub stages : List Stage
  pub gates : List Gate

pub data ProfileError : Type 0 where
  no_stages empty_stage_name : ProfileError
  duplicate_stage_name : String → ProfileError
  duplicate_state : TaskState → String → String → ProfileError
  gate_references_undeclared_stage : String → ProfileError
  gate_not_on_declared_edge : String → String → ProfileError
  illegal_stage_order : TaskState → TaskState → ProfileError
  invalid_json : String → ProfileError

unfoldable pub state_order : WorkflowProfile → List TaskState
state_order p = map (λ s. s.state) p.stages

-- `stages.iter().find(|s| s.name == name)`
unfoldable pub find_stage : String → List Stage → Option Stage
find_stage name [] = none
find_stage name (s ∷ stages) = if str_eq s.name name then some s else find_stage name stages

unfoldable pub stage : WorkflowProfile → String → Option Stage
unfolding find_stage
stage p name = find_stage name p.stages

unfoldable pub is_adjacent_declared_edge : List Stage → String → String → Bool
is_adjacent_declared_edge [] from to = false
is_adjacent_declared_edge (a ∷ []) from to = false
is_adjacent_declared_edge (a ∷ b ∷ rest) from to =
    (str_eq a.name from && str_eq b.name to) || is_adjacent_declared_edge (b ∷ rest) from to

-- The loops of `validate`; none: the loop has run to its end. The inner loop, over the stages that
-- follow one:
unfoldable pub check_others : Stage → List Stage → Option ProfileError
check_others s [] = none
check_others s (other ∷ rest) = elim (str_eq s.name other.name) [
  | true ↦ some (duplicate_stage_name s.name)
  | false ↦ elim (state_eq s.state other.state) [
    | true ↦ some (duplicate_state s.state s.name other.name)
    | false ↦ check_others s rest
  ]
]

-- What follows where no check has failed.
abbrev pub and_check : Option ProfileError → Option ProfileError → Option ProfileError
and_check (some e) later = some e
and_check none later = later

unfoldable pub check_stages : List Stage → Option ProfileError
unfolding check_others
check_stages [] = none
check_stages (s ∷ rest) = elim (is_blank s.name) [
  | true ↦ some empty_stage_name
  | false ↦ and_check (check_others s rest) (check_stages rest)
]

unfoldable pub check_order : List Stage → Option ProfileError
check_order [] = none
check_order (a ∷ []) = none
check_order (a ∷ b ∷ rest) = elim (is_legal_transition a.state b.state) [
  | true ↦ check_order (b ∷ rest)
  | false ↦ some (illegal_stage_order a.state b.state)
]

unfoldable pub check_edge : List Stage → Gate → Option Stage → Option Stage → Option ProfileError
unfolding is_adjacent_declared_edge
check_edge stages g none to = some (gate_references_undeclared_stage g.from_stage)
check_edge stages g (some from) none = some (gate_references_undeclared_stage g.to_stage)
check_edge stages g (some from) (some to) =
    if is_adjacent_declared_edge stages from.name to.name
    then none
    else some (gate_not_on_declared_edge from.name to.name)

unfoldable pub check_gates : List Stage → List Gate → Option ProfileError
unfolding find_stage check_edge
check_gates stages [] = none
check_gates stages (g ∷ gates) =
    and_check (check_edge stages g (find_stage g.from_stage stages) (find_stage g.to_stage stages))
      (check_gates stages gates)

abbrev is_empty : List Stage → Bool
is_empty [] = true
is_empty (s ∷ stages) = false

-- none: `Ok(())`
unfoldable pub validate : WorkflowProfile → Option ProfileError
unfolding check_stages check_order check_gates
validate p =
    if is_empty p.stages
    then some no_stages
    else and_check (check_stages p.stages)
        (and_check (check_order p.stages) (check_gates p.stages p.gates))

pub data Document : Type 0 where
  document : WorkflowProfile → Document
  unreadable : String → Document

pub data Loaded : Type 0 where
  loaded : WorkflowProfile → Loaded
  refused : ProfileError → Loaded

abbrev pub judged : WorkflowProfile → Option ProfileError → Loaded
judged p none = loaded p
judged p (some e) = refused e

unfoldable pub from_json : (String → Document) → String → Loaded
unfolding validate
from_json parse json = elim (parse json) [
  | document p ↦ judged p (validate p)
  | unreadable text ↦ refused (invalid_json text)
]
