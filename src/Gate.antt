-- ===== src/Gate.antt =====
-- The gate engine, crates/plugin-gate-engine/src/lib.rs: approval tokens and the transitions that
-- they guard. It works over any board and any call logger, whose traits are the records `KanbanBoard`
-- and `CallLogger`; `at` is what `Timestamp::now` returns.
pub mod Messages
pub mod Tokens
pub mod Guard
pub mod Board
pub mod Examples
use wyrtloom.Base.{
  ℕ, ◌+◌, ◌/◌, ◌^◌, String, Bool, true, false, not, ◌&&◌, ◌||◌, ◌==◌, Option, none, some, List, [],
  ◌∷◌, ◌++◌, if◌then◌else◌, str_eq, as_bytes, is_blank,
}
use wyrtloom.Kanban.{
  TaskId, ActorId, Timestamp, TaskState, Task, KanbanError, Result, ok, err, state_eq, state_name,
  is_legal_transition,
}
use wyrtloom.Provider.{Usage}
use wyrtloom.Canon.{Bytes, to_be_bytes, new, tagged, finish}
use wyrtloom.Security.Audit.{Stamp, Crypto, SecurityModule, stamp, is_valid}

unfoldable pub blame_notice_text : String
blame_notice_text =
    "Gate passage does not transfer liability for agent defects to the passer. Override and approval stamps are remediation signals, not culpability markers. Incident review is system-level (moral-crumple-zone guard, D15.5)."

unfoldable pub default_review_template : String
default_review_template = "review-template:system-level/default"

pub record BlameNotice : Type 0 where
  pub notice : String
  pub review_template : String

unfoldable pub default_blame : BlameNotice
default_blame = record { notice = blame_notice_text; review_template = default_review_template }

pub record GateToken : Type 0 where
  pub task : TaskId
  pub from : TaskState
  pub to : TaskState
  pub actor : ActorId
  pub blame : BlameNotice
  pub digest_summary : String
  pub stamp : Stamp

-- The byte strings of the encoding.
unfoldable pub gate_domain : Bytes
gate_domain =
    119 ∷ 121 ∷ 114 ∷ 116 ∷ 108 ∷ 111 ∷ 111 ∷ 109 ∷ 45 ∷ 103 ∷ 97 ∷ 116 ∷ 101 ∷ 45 ∷ 118 ∷ 49 ∷ []

unfoldable pub task_tag : Bytes
task_tag = 116 ∷ 97 ∷ 115 ∷ 107 ∷ []

unfoldable pub from_tag : Bytes
from_tag = 102 ∷ 114 ∷ 111 ∷ 109 ∷ []

unfoldable pub to_tag : Bytes
to_tag = 116 ∷ 111 ∷ []

unfoldable pub actor_tag : Bytes
actor_tag = 97 ∷ 99 ∷ 116 ∷ 111 ∷ 114 ∷ []

unfoldable pub blame_notice_tag : Bytes
blame_notice_tag = 98 ∷ 108 ∷ 97 ∷ 109 ∷ 101 ∷ 95 ∷ 110 ∷ 111 ∷ 116 ∷ 105 ∷ 99 ∷ 101 ∷ []

unfoldable pub blame_template_tag : Bytes
blame_template_tag =
    98 ∷ 108 ∷ 97 ∷ 109 ∷ 101 ∷ 95 ∷ 116 ∷ 101 ∷ 109 ∷ 112 ∷ 108 ∷ 97 ∷ 116 ∷ 101 ∷ []

unfoldable pub digest_tag : Bytes
digest_tag = 100 ∷ 105 ∷ 103 ∷ 101 ∷ 115 ∷ 116 ∷ []

-- `task.as_bytes()`: the 16 bytes of an id, the highest first
unfoldable pub uuid_bytes : TaskId → Bytes
uuid_bytes task = to_be_bytes (task / 2 ^ 64) ++ to_be_bytes task

unfoldable pub message : TaskId → TaskState → TaskState → ActorId → BlameNotice → String → Bytes
message task from to actor blame digest_summary =
    let e = new gate_domain in
    let e = tagged e task_tag (uuid_bytes task) in
    let e = tagged e from_tag (as_bytes (state_name from)) in
    let e = tagged e to_tag (as_bytes (state_name to)) in
    let e = tagged e actor_tag (as_bytes actor) in
    let e = tagged e blame_notice_tag (as_bytes blame.notice) in
    let e = tagged e blame_template_tag (as_bytes blame.review_template) in
    let e = tagged e digest_tag (as_bytes digest_summary) in finish e

pub data LogError : Type 0 where
  log_storage : String → LogError

pub data GateError : Type 0 where
  digest_required invalid_token token_required : GateError
  illegal_move : TaskState → TaskState → GateError
  stage_mismatch : TaskState → TaskState → GateError
  kanban : KanbanError → GateError
  audit_failed : LogError → GateError

-- The text of a failed outcome, by the format string that makes it and its arguments.
pub data Refusal : Type 0 where
  no_token bad_hmac : Refusal
  request_mismatch : GateToken → TaskState → ActorId → Refusal
  lookup_failed : KanbanError → Refusal
  wrong_stage : TaskState → TaskState → Refusal
  board_rejected : TaskState → KanbanError → Refusal

pub data CallOutcome : Type 0 where
  completed : CallOutcome
  failed : Refusal → CallOutcome

pub record CallLog : Type 0 where
  pub task : TaskId
  pub profile : String
  pub provider : String
  pub model : String
  pub usage : Usage
  pub outcome : CallOutcome
  pub at : Timestamp

-- The traits; a state stands for what an implementation keeps. A logger answers none for `Ok(())`.
pub record KanbanBoard (B : Type 0) : Type 0 where
  pub get : TaskId → B → Result Task × B
  pub transition : TaskId → TaskState → ActorId → Option String → B → Result (Unit {0}) × B

pub record CallLogger (L : Type 0) : Type 0 where
  pub record_call : L → CallLog → Option LogError × L

pub data Issued : Type 0 where
  issued : GateToken → Issued
  refused : GateError → Issued

module _ (c : Crypto) where
  unfoldable pub issue_token_with_blame :
      SecurityModule
      → Timestamp
      → TaskId
      → TaskState
      → TaskState
      → ActorId
      → String
      → BlameNotice
      → Issued × SecurityModule
  issue_token_with_blame m at task from to actor digest_summary blame =
      if is_blank digest_summary
      then (refused digest_required, m)
      else if not (is_legal_transition from to)
      then (refused (illegal_move from to), m)
      else let (s, m') = stamp c m at (message task from to actor blame digest_summary) in
        (
          issued (record {
            task = task;
            from = from;
            to = to;
            actor = actor;
            blame = blame;
            digest_summary = digest_summary;
            stamp = s;
          }),
          m',
        )

  unfoldable pub issue_token :
      SecurityModule
      → Timestamp
      → TaskId
      → TaskState
      → TaskState
      → ActorId
      → String
      → Issued × SecurityModule
  unfolding default_blame
  issue_token m at task from to actor digest_summary =
      issue_token_with_blame m at task from to actor digest_summary default_blame

  -- none: `Ok(())`
  unfoldable pub validate : SecurityModule → GateToken → Option GateError
  validate m token =
      let msg =
        message token.task token.from token.to token.actor token.blame token.digest_summary in
      if is_valid c m token.stamp msg then none else some invalid_token

unfoldable pub entry_of : TaskId → CallOutcome → Timestamp → CallLog
entry_of task outcome at = record {
  task = task;
  profile = "gate";
  provider = "wyrtloom-gate-engine";
  model = "n/a";
  usage = record { input_tokens = 0; output_tokens = 0; cost = none };
  outcome = outcome;
  at = at;
}

unfoldable pub matches_request : GateToken → TaskId → TaskState → ActorId → Bool
matches_request token task to actor =
    state_eq token.to to && (token.task == task && str_eq token.actor actor)

module _ {B L : Type 0} (c : Crypto) (m : SecurityModule) (board : KanbanBoard B)
    (logger : CallLogger L) where
  unfoldable pub audit : TaskId → CallOutcome → Timestamp → L → Option GateError × L
  audit task outcome at l =
      let (answer, l') = logger.record_call l (entry_of task outcome at) in
      (elim answer [ none ↦ none | some e ↦ some (audit_failed e) ], l')

  -- The outcome is audited, and where that succeeds the answer is given.
  unfoldable pub conclude :
      TaskId → CallOutcome → Option GateError → Timestamp → B → L → Option GateError × B × L
  conclude task outcome answer at b l =
      let (failure, l') = audit task outcome at l in
      (elim failure [ none ↦ answer | some e ↦ some e ], b, l')

  -- The steps from the fifth on, with the board's current state equal to the token's.
  unfoldable pub perform :
      TaskId → TaskState → ActorId → Option String → Timestamp → B → L → Option GateError × B × L
  perform task to actor reason at b l =
      let (answer, b') = board.transition task to actor reason b in
      elim answer [
        | ok u ↦ conclude task completed none at b' l
        | err e ↦ conclude task (failed (board_rejected to e)) (some (kanban e)) at b' l
      ]

  unfoldable pub redeem :
      GateToken
      → TaskId
      → TaskState
      → ActorId
      → Option String
      → Timestamp
      → B
      → L
      → Option GateError × B × L
  redeem token task to actor reason at b l =
      let (answer, b') = board.get task b in
      elim answer [
        | err e ↦ conclude task (failed (lookup_failed e)) (some (kanban e)) at b' l
        | ok t ↦
            if not (state_eq t.state token.from)
            then conclude task (failed (wrong_stage t.state token.from))
                (some (stage_mismatch t.state token.from)) at b' l
            else perform task to actor reason at b' l
      ]

  unfoldable pub guarded_transition :
      Option GateToken
      → TaskId
      → TaskState
      → ActorId
      → Option String
      → Timestamp
      → B
      → L
      → Option GateError × B × L
  guarded_transition none task to actor reason at b l =
      conclude task (failed no_token) (some token_required) at b l
  guarded_transition (some token) task to actor reason at b l =
      if not (matches_request token task to actor)
      then conclude task (failed (request_mismatch token to actor)) (some invalid_token) at b l
      else elim (validate c m token) [
        | some e ↦ conclude task (failed bad_hmac) (some e) at b l
        | none ↦ redeem token task to actor reason at b l
      ]
