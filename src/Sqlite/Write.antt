-- ===== src/Sqlite/Write.antt =====
-- `create`, `transition`, `claim` and `block` of the SQLite board. The new id and the time of the
-- clock are arguments.
use wyrtloom.Base.{
  ℕ, suc, String, Bool, true, false, Option, none, some, List, [], ◌∷◌, ◌++◌, ◌&&◌, str_eq,
  if◌then◌else◌, any, not, ◌==◌,
}
use wyrtloom.Kanban.{
  TaskId, ActorId, Timestamp, TaskState, ready, blocked, done, state_eq, is_legal_transition,
  BlockReason, NewTask, storage, illegal_transition, dependencies_not_done, already_claimed,
  insert_failed, serialisation_failed, claim_failed, update_failed, history_insert, block_update,
}
use wyrtloom.Sqlite.Store.{
  TaskRow, HistoryRow, err, M, pure, fail, ◌>>=◌, ◌>>◌, ok_or, statement, lock, transaction,
  state_name, Codec,
}
use wyrtloom.Sqlite.Read.{get_inner}

abbrev pub has_row : String → List TaskRow → Bool
has_row key rows = any (λ r. str_eq r.id key) rows

-- `INSERT INTO tasks`: the primary key is unique, and SQLite's code for that refusal is 1555.
unfoldable pub insert_task : TaskRow → M (Unit {0})
unfolding statement
insert_task r b =
    if has_row r.id b.tables.tasks
    then (err (storage (insert_failed 1555)), b)
    else statement insert_failed (λ t. (tt, record t { tasks = t.tasks ++ r ∷ [] })) b

-- `UPDATE tasks SET … WHERE id = ?`
unfoldable pub update_rows : String → (TaskRow → TaskRow) → List TaskRow → List TaskRow
update_rows key f [] = []
update_rows key f (r ∷ rs) = (if str_eq r.id key then f r else r) ∷ update_rows key f rs

-- `UPDATE tasks SET actor = ? WHERE id = ? AND actor IS NULL AND state = 'Ready'`, and its row count
unfoldable pub is_claimable : String → TaskRow → Bool
is_claimable key r =
    str_eq r.id key && elim r.actor [ none ↦ true | some _ ↦ false ] && str_eq r.state "Ready"

unfoldable pub claim_rows : String → ActorId → List TaskRow → List TaskRow
claim_rows key worker [] = []
claim_rows key worker (r ∷ rs) =
    (if is_claimable key r then record r { actor = some worker } else r) ∷ claim_rows key worker rs

unfoldable pub claim_count : String → List TaskRow → ℕ
claim_count key [] = 0
claim_count key (r ∷ rs) = let n = claim_count key rs in if is_claimable key r then suc n else n

unfoldable pub moved_row : TaskState → TaskRow → TaskRow
moved_row to r = record r { state = state_name to; actor = none }

unfoldable pub blocked_row : String → TaskRow → TaskRow
blocked_row reason r = record r { state = "Blocked"; block_reason = some reason }

abbrev pub is_empty : List TaskId → Bool
is_empty [] = true
is_empty (_ ∷ _) = false

module _ (k : Codec) where
  unfoldable pub create : TaskId → Timestamp → NewTask → M TaskId
  create id now task = do
    lock
    depends_on ← ok_or (k.show_deps task.depends_on) serialisation_failed
    insert_task (record {
      id = k.show_id id;
      title = task.title;
      state = "Backlog";
      actor = some task.actor;
      depends_on = depends_on;
      block_reason = none;
      created_at = k.show_time now;
    })
    pure id

  -- The loop over `task.depends_on`.
  unfoldable pub deps_done : List TaskId → M (Unit {0})
  deps_done [] = pure tt
  deps_done (d ∷ ds) = do
    dep ← get_inner k d
    if state_eq dep.state done then deps_done ds else fail dependencies_not_done

  unfoldable pub append_history : HistoryRow → M (Unit {0})
  append_history h =
      statement history_insert (λ t. (tt, record t { history = t.history ++ h ∷ [] }))

  abbrev pub change_row :
      TaskId → TaskState → TaskState → ActorId → Timestamp → Option String → HistoryRow
  change_row id from to actor now reason = record {
    task_id = k.show_id id;
    from_state = state_name from;
    to_state = state_name to;
    actor = actor;
    at = k.show_time now;
    reason = reason;
  }

  unfoldable pub transition_inner :
      TaskId → TaskState → ActorId → Option String → Timestamp → M (Unit {0})
  transition_inner id to actor reason now = do
    task ← get_inner k id
    if is_legal_transition task.state to then pure tt else fail (illegal_transition task.state to)
    if state_eq to ready && not (is_empty task.depends_on)
        then deps_done task.depends_on
        else pure tt
    statement update_failed
        (λ t. (tt, record t { tasks = update_rows (k.show_id id) (moved_row to) t.tasks }))
    append_history (change_row id task.state to actor now reason)

  unfoldable pub transition :
      TaskId → TaskState → ActorId → Option String → Timestamp → M (Unit {0})
  transition id to actor reason now = transaction (transition_inner id to actor reason now)

  unfoldable pub claim : TaskId → ActorId → M (Unit {0})
  claim id worker = do
    lock
    rows ← statement claim_failed (λ t. (
      claim_count (k.show_id id) t.tasks,
      record t { tasks = claim_rows (k.show_id id) worker t.tasks },
    ))
    if rows == 0 then fail already_claimed else pure tt

  unfoldable pub block_inner : TaskId → ActorId → BlockReason → Timestamp → M (Unit {0})
  block_inner id actor reason now = do
    task ← get_inner k id
    if is_legal_transition task.state blocked
        then pure tt
        else fail (illegal_transition task.state blocked)
    text ← ok_or (k.show_reason reason) serialisation_failed
    statement block_update
        (λ t. (tt, record t { tasks = update_rows (k.show_id id) (blocked_row text) t.tasks }))
    append_history (change_row id task.state blocked actor now (some reason.reason))

  unfoldable pub block : TaskId → ActorId → BlockReason → Timestamp → M (Unit {0})
  block id actor reason now = transaction (block_inner id actor reason now)
