-- ===== src/Sqlite/Read.antt =====
-- `get` and `list` of the SQLite board: a row is decoded, and refused where it is malformed.
use Prim.Native.Nat.{Ordering}
use Prim.Native.String.{compare}
use wyrtloom.Base.{
  ℕ, String, Bool, true, false, Option, none, some, List, [], ◌∷◌, ◌++◌, ◌&&◌, str_eq,
  if◌then◌else◌, any, keep, length, leb,
}
use wyrtloom.Kanban.{
  TaskId, ActorId, TaskState, state_eq, BlockReason, StateChange, Task, TaskQuery, not_found,
  query_failed, unknown_state, malformed_depends_on, malformed_block_reason, prepare_failed,
  history_query, row_read, unknown_from_state, unknown_to_state, malformed_timestamp,
  malformed_created_at, list_prepare, list_query, malformed_task_id,
}
use wyrtloom.Sqlite.Store.{
  TaskRow, HistoryRow, M, pure, fail, ◌>>=◌, ◌>>◌, ok_or, statement, lock, state_from_str, Codec,
}

-- `WHERE id = ?`
unfoldable pub find_row : String → List TaskRow → Option TaskRow
find_row key [] = none
find_row key (r ∷ rs) = if str_eq r.id key then some r else find_row key rs

-- `FROM history WHERE task_id = ? ORDER BY id`
unfoldable pub rows_of : String → List HistoryRow → List HistoryRow
rows_of key = keep λ h. str_eq h.task_id key

-- `ORDER BY created_at, id`, in the byte order of the texts
abbrev pub row_le : TaskRow → TaskRow → Bool
row_le a b = elim (compare a.created_at b.created_at) [
  | Ordering.lt ↦ true
  | Ordering.gt ↦ false
  | Ordering.eq ↦ elim (compare a.id b.id) [ Ordering.gt ↦ false | _ ↦ true ]
]

unfoldable pub insert_row : TaskRow → List TaskRow → List TaskRow
insert_row a [] = a ∷ []
insert_row a (b ∷ bs) = if row_le a b then a ∷ b ∷ bs else b ∷ insert_row a bs

unfoldable pub order_rows : List TaskRow → List TaskRow
order_rows [] = []
order_rows (a ∷ rows) = insert_row a (order_rows rows)

abbrev wants_state : Option (List TaskState) → TaskState → Bool
wants_state none s = true
wants_state (some states) s = any (state_eq s) states

abbrev holds : Option ActorId → ActorId → Bool
holds none a = false
holds (some b) a = str_eq b a

abbrev wants_actor : Option ActorId → Option ActorId → Bool
wants_actor none b = true
wants_actor (some a) b = holds b a

abbrev pub reached : Option ℕ → ℕ → Bool
reached none n = false
reached (some limit) n = leb limit n

unfoldable pub matches : TaskQuery → Task → Bool
matches q t = wants_state q.states t.state && wants_actor q.actor t.actor

module _ (k : Codec) where
  unfoldable pub decode_change : HistoryRow → M StateChange
  decode_change h = do
    from ← ok_or (state_from_str h.from_state) (unknown_from_state h.from_state)
    to ← ok_or (state_from_str h.to_state) (unknown_to_state h.to_state)
    at ← ok_or (k.parse_time h.at) (malformed_timestamp h.at)
    pure (record { from = from; to = to; actor = h.actor; at = at; reason = h.reason })

  -- The loop over the rows of the history query.
  unfoldable pub decode_history : List HistoryRow → M (List StateChange)
  decode_history [] = pure []
  decode_history (h ∷ hs) = do
    row ← statement row_read (λ t. (h, t))
    change ← decode_change row
    rest ← decode_history hs
    pure (change ∷ rest)

  unfoldable pub decode_reason : Option String → M (Option BlockReason)
  decode_reason none = pure none
  decode_reason (some s) = do r ← ok_or (k.parse_reason s) malformed_block_reason; pure (some r)

  abbrev pub row_or_not_found : TaskId → Option TaskRow → M TaskRow
  row_or_not_found id none = fail (not_found id)
  row_or_not_found id (some r) = pure r

  unfoldable pub get_inner : TaskId → M Task
  get_inner id = do
    found ← statement query_failed (λ t. (find_row (k.show_id id) t.tasks, t))
    row ← row_or_not_found id found
    state ← ok_or (state_from_str row.state) (unknown_state row.state)
    depends_on ← ok_or (k.parse_deps row.depends_on) malformed_depends_on
    block_reason ← decode_reason row.block_reason
    statement prepare_failed (λ t. (tt, t))
    rows ← statement history_query (λ t. (rows_of (k.show_id id) t.history, t))
    history ← decode_history rows
    created_at ← ok_or (k.parse_time row.created_at) (malformed_created_at row.created_at)
    pure (record {
      id = id;
      title = row.title;
      state = state;
      actor = row.actor;
      depends_on = depends_on;
      block_reason = block_reason;
      history = history;
      created_at = created_at;
    })

  unfoldable pub get : TaskId → M Task
  get id = do lock; get_inner id

  unfoldable pub parse_ids : List TaskRow → M (List TaskId)
  parse_ids [] = pure []
  parse_ids (r ∷ rs) = do
    row ← statement row_read (λ t. (r, t))
    id ← ok_or (k.parse_id row.id) malformed_task_id
    ids ← parse_ids rs
    pure (id ∷ ids)

  -- The second loop of `list`. `continue` passes a task over, and `break` ends the loop.
  unfoldable pub list_loop : TaskQuery → List TaskId → List Task → M (List Task)
  list_loop q [] out = pure out
  list_loop q (id ∷ ids) out = do
    task ← get_inner id
    let out' = if matches q task then out ++ task ∷ [] else out
    let rest = list_loop q ids out'
    if matches q task && reached q.limit (length out') then pure out' else rest

  unfoldable pub list : TaskQuery → M (List Task)
  list q = do
    lock
    statement list_prepare (λ t. (tt, t))
    rows ← statement list_query (λ t. (order_rows t.tasks, t))
    ids ← parse_ids rows
    list_loop q ids []
