-- ===== src/Rationale.antt =====
-- The rationale ledger, crates/plugin-rationale-ledger/src/lib.rs: its table, and the methods of
-- `SqliteRationaleLedger` on a connection. The id that `append` draws and the clock are arguments.
mod Examples
pub mod Rows
mod Appending
mod Reading
use wyrtloom.Base.{
  ◌≡◌, Bool, true, false, not, ◌&&◌, ◌||◌, String, Option, none, some, List, [], ◌∷◌, ◌++◌, any,
  keep, str_eq, str_le, sort_by, if◌then◌else◌,
}
use wyrtloom.Kanban.{TaskId, ActorId, Timestamp}
use wyrtloom.Db.{
  Result, ok, err, Conn, M, pure, fail, give, query, and_then, or_err, ◌>>=◌, ◌>>◌, each_row,
  constrained, Rfc3339,
}

abbrev pub RationaleId : Type 0
RationaleId = TaskId

-- What the text of a storage error tells apart.
pub data LedgerError : Type 0 where
  supersede_lookup_failed insert_failed prepare_failed query_failed row_read_failed : LedgerError
  malformed_id malformed_task_id malformed_supersedes malformed_timestamp : LedgerError
  different_task not_found : RationaleId → LedgerError

pub record NewRationale : Type 0 where
  pub task : TaskId
  pub author : ActorId
  pub title : String
  pub context : String
  pub decision : String
  pub consequences : String
  pub supersedes : Option RationaleId

pub record RationaleRecord : Type 0 where
  pub id : RationaleId
  pub task : TaskId
  pub author : ActorId
  pub title : String
  pub context : String
  pub decision : String
  pub consequences : String
  pub supersedes : Option RationaleId
  pub recorded_at : Timestamp

-- A row of `rationale_records`, and what a query reads of it.
pub record RawRow : Type 0 where
  pub id : String
  pub task_id : String
  pub author : String
  pub title : String
  pub context : String
  pub decision : String
  pub consequences : String
  pub supersedes : Option String
  pub recorded_at : String

abbrev pub Ledger : Type 0 → Type 0
Ledger A = M (List RawRow) LedgerError A

unfoldable pub init_schema : List RawRow
init_schema = []

-- Uuid's text.
pub record IdText : Type 0 where
  pub show_id : TaskId → String
  pub parse_id : String → Option TaskId
  pub parse-show_id : (i : TaskId) → parse_id (show_id i) ≡ some i

unfoldable pub new_record : RationaleId → Timestamp → NewRationale → RationaleRecord
new_record id now new = record {
  id = id;
  task = new.task;
  author = new.author;
  title = new.title;
  context = new.context;
  decision = new.decision;
  consequences = new.consequences;
  supersedes = new.supersedes;
  recorded_at = now;
}

-- `SELECT … WHERE id = ?`
unfoldable pub find_row : String → List RawRow → Option RawRow
find_row key [] = none
find_row key (r ∷ rows) = if str_eq r.id key then some r else find_row key rows

-- The table's primary key refuses an id that it has.
unfoldable pub insert_row : RawRow → List RawRow → Result LedgerError (Unit × List RawRow)
insert_row r rows =
    if any (λ s. str_eq s.id r.id) rows then err insert_failed else ok (tt, rows ++ r ∷ [])

-- `ORDER BY recorded_at, id`
unfoldable pub oldest_first : List RawRow → List RawRow
oldest_first = sort_by λ (a : RawRow) (b : RawRow).
    if str_eq a.recorded_at b.recorded_at
    then str_le a.id b.id
    else str_le a.recorded_at b.recorded_at

abbrev pub names : Option String → String → Bool
names none key = false
names (some i) key = str_eq i key

abbrev pub replaces : RawRow → RawRow → Bool
replaces r s = names s.supersedes r.id && str_eq s.task_id r.task_id

module _ (ids : IdText) where
  unfoldable pub same_task : RationaleId → TaskId → Option RawRow → Result LedgerError Unit
  same_task target task none = err (not_found target)
  same_task target task (some r) =
      if str_eq r.task_id (ids.show_id task) then ok tt else err (different_task target)

  -- The check of a record that supersedes another.
  unfoldable pub check_target : TaskId → Option RationaleId → Ledger Unit
  unfolding find_row same_task ◌>>=◌
  check_target task none = pure tt
  check_target task (some target) = do
    found ← query supersede_lookup_failed (find_row (ids.show_id target))
    give (same_task target task found)

  abbrev pub show_supersedes : Option RationaleId → Option String
  show_supersedes none = none
  show_supersedes (some i) = some (ids.show_id i)

  unfoldable pub parse_supersedes : Option String → Result LedgerError (Option RationaleId)
  parse_supersedes none = ok none
  parse_supersedes (some s) = elim (ids.parse_id s) [
    | none ↦ err malformed_supersedes
    | some i ↦ ok (some i)
  ]

  abbrev pub of_task : TaskId → RawRow → Bool
  of_task task r = str_eq r.task_id (ids.show_id task)

module _ (ids : IdText) (time : Rfc3339) where
  unfoldable pub row_of : RationaleRecord → RawRow
  row_of r = record {
    id = ids.show_id r.id;
    task_id = ids.show_id r.task;
    author = r.author;
    title = r.title;
    context = r.context;
    decision = r.decision;
    consequences = r.consequences;
    supersedes = show_supersedes ids r.supersedes;
    recorded_at = time.show_time r.recorded_at;
  }

  unfoldable pub append : RationaleId → Timestamp → NewRationale → Ledger RationaleRecord
  unfolding new_record check_target row_of insert_row constrained ◌>>=◌
  append id now new =
      let made = new_record id now new in
      do
        check_target ids made.task made.supersedes
        constrained insert_failed (insert_row (row_of made))
        pure made

  unfoldable pub raw_to_record : RawRow → Result LedgerError RationaleRecord
  unfolding parse_supersedes
  raw_to_record raw = and_then (or_err (ids.parse_id raw.id) malformed_id) λ id.
      and_then (or_err (ids.parse_id raw.task_id) malformed_task_id) λ task.
        and_then (parse_supersedes ids raw.supersedes) λ supersedes.
          and_then (or_err (time.parse_time raw.recorded_at) malformed_timestamp) λ at. ok (record {
            id = id;
            task = task;
            author = raw.author;
            title = raw.title;
            context = raw.context;
            decision = raw.decision;
            consequences = raw.consequences;
            supersedes = supersedes;
            recorded_at = at;
          })

  unfoldable pub decode_found : RationaleId → Option RawRow → Result LedgerError RationaleRecord
  unfolding raw_to_record
  decode_found id none = err (not_found id)
  decode_found id (some row) = raw_to_record row

  unfoldable pub get : RationaleId → Ledger RationaleRecord
  unfolding find_row decode_found ◌>>=◌
  get id = do
    query prepare_failed (λ _. tt)
    query query_failed (λ _. tt)
    found ← query row_read_failed (find_row (ids.show_id id))
    give (decode_found id found)

  -- A query's rows, each read and decoded.
  unfoldable pub collect_records : (List RawRow → List RawRow) → Ledger (List RationaleRecord)
  unfolding each_row raw_to_record ◌>>=◌
  collect_records sql = do
    query prepare_failed (λ _. tt)
    rows ← query query_failed sql
    each_row row_read_failed raw_to_record rows

  unfoldable pub for_task : TaskId → Ledger (List RationaleRecord)
  unfolding collect_records oldest_first
  for_task task = collect_records (λ t. oldest_first (keep (of_task ids task) t))

  unfoldable pub all_records : Ledger (List RationaleRecord)
  unfolding collect_records oldest_first
  all_records = collect_records oldest_first

  unfoldable pub current_for_task : TaskId → Ledger (List RationaleRecord)
  unfolding collect_records oldest_first
  current_for_task task =
      collect_records
        (λ t. oldest_first (keep (λ r. of_task ids task r && not (any (replaces r) t)) t))
