-- ===== src/Logger.antt =====
-- The call logger, crates/plugin-logger-sqlite/src/lib.rs, on a connection, with the texts of outcomes
-- as they are stored. The lock is never poisoned. A `u64` is a number below 2 ^ 64, of which SQLite
-- takes those below 2 ^ 63: rusqlite refuses the others before the statement runs.
pub mod Recall
mod Examples
use wyrtloom.Base.{
  ℕ, ◌^◌, ◌≡◌, Bool, true, false, ◌&&◌, String, Option, none, some, List, [], ◌∷◌, ◌++◌, ltb,
  str_eq, if◌then◌else◌,
}
use wyrtloom.Kanban.{TaskId, Timestamp}
use wyrtloom.Provider.{Money, Usage}
use wyrtloom.Rationale.{IdText}
use wyrtloom.Db.{
  Result, ok, err, Conn, M, give, statement, query, and_then, or_err, ◌>>=◌, ◌>>◌, each_row,
  Rfc3339,
}

pub data CallOutcome : Type 0 where
  completed : CallOutcome
  failed partial : String → CallOutcome

pub record CallLog : Type 0 where
  pub task : TaskId
  pub profile : String
  pub provider : String
  pub model : String
  pub usage : Usage
  pub outcome : CallOutcome
  pub at : Timestamp

-- What the text of a storage error tells apart.
pub data LogError : Type 0 where
  prepare_failed query_failed row_read_failed insert_failed malformed_task_id : LogError
  malformed_timestamp : LogError
  unknown_outcome : String → LogError

-- A row of `call_logs`; the ids, which SQLite draws, are the rows' order.
pub record LogRow : Type 0 where
  pub task_id : String
  pub profile : String
  pub provider : String
  pub model : String
  pub input_tokens : ℕ
  pub output_tokens : ℕ
  pub cost_microdollars : Option ℕ
  pub cost_currency : Option String
  pub outcome : String
  pub outcome_detail : Option String
  pub at : String

abbrev pub Log : Type 0 → Type 0
Log A = M (List LogRow) LogError A

unfoldable pub init_schema : List LogRow
init_schema = []

unfoldable pub outcome_text : CallOutcome → String × Option String
outcome_text completed = ("Completed", none)
outcome_text (failed s) = ("Failed", some s)
outcome_text (partial s) = ("Partial", some s)

abbrev pub unwrap_or_default : Option String → String
unwrap_or_default none = ""
unwrap_or_default (some s) = s

unfoldable pub outcome_from : String → Option String → Result LogError CallOutcome
outcome_from outcome detail =
    if str_eq outcome "Completed"
    then ok completed
    else if str_eq outcome "Failed"
    then ok (failed (unwrap_or_default detail))
    else if str_eq outcome "Partial"
    then ok (partial (unwrap_or_default detail))
    else err (unknown_outcome outcome)

unfoldable pub cost_fields : Option Money → Option ℕ × Option String
cost_fields none = (none, none)
cost_fields (some m) = (some m.amount_microdollars, some m.currency)

-- `zip`
unfoldable pub cost_from : Option ℕ → Option String → Option Money
cost_from (some amount) (some currency) =
    some (record { amount_microdollars = amount; currency = currency })
cost_from (some amount) none = none
cost_from none currency = none

module _ (ids : IdText) (time : Rfc3339) where
  unfoldable pub row_of : CallLog → LogRow
  unfolding outcome_text cost_fields
  row_of e = record {
    task_id = ids.show_id e.task;
    profile = e.profile;
    provider = e.provider;
    model = e.model;
    input_tokens = e.usage.input_tokens;
    output_tokens = e.usage.output_tokens;
    cost_microdollars = (cost_fields e.usage.cost).0;
    cost_currency = (cost_fields e.usage.cost).1;
    outcome = (outcome_text e.outcome).0;
    outcome_detail = (outcome_text e.outcome).1;
    at = time.show_time e.at;
  }

  unfoldable pub bind_row : LogRow → Result LogError LogRow
  bind_row r =
      if ltb r.input_tokens (2 ^ 63) && ltb r.output_tokens (2 ^ 63)
      then ok r
      else err insert_failed

  unfoldable pub record_call : CallLog → Log Unit
  unfolding row_of bind_row ◌>>=◌
  record_call e = do
    row ← give (bind_row (row_of e))
    statement insert_failed (λ rows. (tt, rows ++ row ∷ []))

  unfoldable pub read_row : LogRow → Result LogError CallLog
  unfolding outcome_from cost_from
  read_row r = and_then (or_err (ids.parse_id r.task_id) malformed_task_id) λ task.
      and_then (outcome_from r.outcome r.outcome_detail) λ outcome.
        and_then (or_err (time.parse_time r.at) malformed_timestamp) λ at. ok (record {
          task = task;
          profile = r.profile;
          provider = r.provider;
          model = r.model;
          usage = record {
            input_tokens = r.input_tokens;
            output_tokens = r.output_tokens;
            cost = cost_from r.cost_microdollars r.cost_currency;
          };
          outcome = outcome;
          at = at;
        })

  unfoldable pub all_logs : Log (List CallLog)
  unfolding each_row read_row ◌>>=◌
  all_logs = do
    query prepare_failed (λ _. tt)
    rows ← query query_failed (λ t. t)
    each_row row_read_failed read_row rows
