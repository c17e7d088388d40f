-- ===== src/Kanban.antt =====
-- The board's contract, crates/core/src/kanban.rs: the data that a task carries and the table of
-- legal transitions. A `Uuid` is its 128-bit number and a `Timestamp` a count of instants.
pub mod Paths
mod Examples
use wyrtloom.Base.{ℕ, String, Bool, true, false, Option, List}

abbrev pub TaskId : Type 0
TaskId = ℕ

abbrev pub ActorId : Type 0
ActorId = String

abbrev pub Timestamp : Type 0
Timestamp = ℕ

pub data TaskState : Type 0 where
  backlog todo ready running blocked done archived : TaskState

pub TaskState-discrete : Discrete TaskState
TaskState-discrete = hlevel

pub data BlockedBy : Type 0 where
  human : ActorId → BlockedBy
  dependency : TaskId → BlockedBy

pub record BlockReason : Type 0 where
  pub reason : String
  pub blocked_by : BlockedBy

pub record StateChange : Type 0 where
  pub from : TaskState
  pub to : TaskState
  pub actor : ActorId
  pub at : Timestamp
  pub reason : Option String

pub record Task : Type 0 where
  pub id : TaskId
  pub title : String
  pub state : TaskState
  pub actor : Option ActorId
  pub depends_on : List TaskId
  pub block_reason : Option BlockReason
  pub history : List StateChange
  pub created_at : Timestamp

pub record NewTask : Type 0 where
  pub title : String
  pub actor : ActorId
  pub depends_on : List TaskId

pub record TaskQuery : Type 0 where
  pub states : Option (List TaskState)
  pub actor : Option ActorId
  pub limit : Option ℕ

-- What the text of a storage error tells apart; the numbers are the codes that `sqlite_code` prints.
pub data StorageFault : Type 0 where
  lock_poisoned serialisation_failed : StorageFault
  insert_failed begin_tx claim_failed list_prepare list_query row_read : ℕ → StorageFault
  update_failed history_insert block_update query_failed prepare_failed : ℕ → StorageFault
  history_query : ℕ → StorageFault
  unknown_state unknown_from_state unknown_to_state malformed_timestamp malformed_created_at :
      String → StorageFault
  malformed_task_id malformed_depends_on malformed_block_reason : StorageFault

pub data KanbanError : Type 0 where
  illegal_transition : TaskState → TaskState → KanbanError
  dependencies_not_done already_claimed block_reason_required : KanbanError
  not_found : TaskId → KanbanError
  storage : StorageFault → KanbanError

-- `Result<A, KanbanError>`
pub data Result {ℓ} (A : Type ℓ) : Type ℓ where
  ok : A → Result A
  err : KanbanError → Result A

-- `format!("{:?}", state)`
unfoldable pub state_name : TaskState → String
state_name backlog = "Backlog"
state_name todo = "Todo"
state_name ready = "Ready"
state_name running = "Running"
state_name blocked = "Blocked"
state_name done = "Done"
state_name archived = "Archived"

-- `from == to`, derived
unfoldable pub state_eq : TaskState → TaskState → Bool
state_eq backlog backlog = true
state_eq todo todo = true
state_eq ready ready = true
state_eq running running = true
state_eq blocked blocked = true
state_eq done done = true
state_eq archived archived = true
state_eq _ _ = false

unfoldable pub is_legal_transition : TaskState → TaskState → Bool
is_legal_transition backlog todo = true
is_legal_transition todo ready = true
is_legal_transition todo backlog = true
is_legal_transition ready running = true
is_legal_transition ready backlog = true
is_legal_transition running done = true
is_legal_transition running blocked = true
is_legal_transition running todo = true
is_legal_transition blocked running = true
is_legal_transition blocked todo = true
is_legal_transition blocked done = true
is_legal_transition done archived = true
is_legal_transition _ _ = false
