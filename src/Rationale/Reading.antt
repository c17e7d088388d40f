-- ===== src/Rationale/Reading.antt =====
-- What the readers of the rationale ledger give of the records that it holds.
use mathlib.Core.List.{Perm}
use mathlib.Core.Path.{ap₂}
use wyrtloom.Base.{
  ◌≡◌, refl, sym, ap, ◌∙◌, Bool, not, ◌&&◌, ◌||◌, List, [], ◌∷◌, map, any, any-map, keep, sort_by,
  map-sort_by, sort_by-Perm, str_eq, str_le, ◌==◌, Bool-cases, inl, inr, if◌then◌else◌,
}
use wyrtloom.Kanban.{TaskId}
use wyrtloom.Db.{Result, ok, err, Conn, decode_rows, Rfc3339}
use wyrtloom.Db.Laws.{Reads, rows-Reads, Tells, Reads-Tells, bind-Reads, query-Reads, give-Reads}
use wyrtloom.Rationale.{
  RationaleId, LedgerError, prepare_failed, query_failed, row_read_failed, RationaleRecord, RawRow,
  IdText, init_schema, row_of, raw_to_record, oldest_first, replaces, of_task, collect_records,
  current_for_task, find_row, decode_found, get, not_found,
}
use wyrtloom.Rationale.Rows.{
  supersedes_it, show_eq, replaces-row_of, raw_to_record-row_of, decode-row_of,
}
use wyrtloom.Rationale.Appending.{Draft, run, answers, run-Chained}

module _ (ids : IdText) (time : Rfc3339) where
  abbrev rows_of : List RationaleRecord → List RawRow
  rows_of rs = map (row_of ids time) rs

  -- `ORDER BY recorded_at, id`, of the records.
  abbrev pub older : RationaleRecord → RationaleRecord → Bool
  older a b =
      if str_eq (time.show_time a.recorded_at) (time.show_time b.recorded_at)
      then str_le (ids.show_id a.id) (ids.show_id b.id)
      else str_le (time.show_time a.recorded_at) (time.show_time b.recorded_at)

  oldest_first-rows :
      (rs : List RationaleRecord) → oldest_first (rows_of rs) ≡ rows_of (sort_by older rs)
  unfolding oldest_first row_of
  oldest_first-rows rs = sym (map-sort_by (row_of ids time) _ rs)

  keep-rows :
      (p : RawRow → Bool) (q : RationaleRecord → Bool) (rs : List RationaleRecord)
      → ((r : RationaleRecord) → p (row_of ids time r) ≡ q r)
      → keep p (rows_of rs) ≡ rows_of (keep q rs)
  keep-rows p q [] h = refl
  keep-rows p q (r ∷ rs) h = elim (Bool-cases (q r)) [
    | inl e ↦ rw (h r) (rw e (ap (λ l. row_of ids time r ∷ l) (keep-rows p q rs h)))
    | inr e ↦ rw (h r) (rw e (keep-rows p q rs h))
  ]

  -- The query's rows are those of records: it answers the records.
  collected :
      (sql : List RawRow → List RawRow) (rs : List RationaleRecord) (c : Conn (List RawRow))
      → sql c.tables ≡ rows_of rs
      → Tells (collect_records ids time sql) c rs
  unfolding collect_records
  collected sql rs c h =
      Reads-Tells (λ t. decode_rows (raw_to_record ids time) (sql t)) c rs
        (rows-Reads prepare_failed query_failed row_read_failed (raw_to_record ids time) sql)
        (ap (decode_rows (raw_to_record ids time)) h ∙ decode-row_of ids time rs)

any_same : {A : Type 0} (p q : A → Bool) (xs : List A) → ((x : A) → p x ≡ q x) → any p xs ≡ any q xs
any_same p q [] h = refl
any_same p q (x ∷ xs) h = ap₂ ◌||◌ (h x) (any_same p q xs h)

-- A record of the task that no record of the task takes the place of.
abbrev pub in_force : TaskId → List RationaleRecord → RationaleRecord → Bool
in_force task rs r = r.task == task && not (any (supersedes_it r) rs)

in_force-row :
    (ids : IdText) (time : Rfc3339) (task : TaskId) (rs : List RationaleRecord)
    (r : RationaleRecord)
    → (of_task ids task (row_of ids time r)
        && not (any (replaces (row_of ids time r)) (map (row_of ids time) rs)))
      ≡ in_force task rs r
unfolding row_of
in_force-row ids time task rs r =
    ap₂ (λ a b. a && not b) (show_eq ids r.task task)
      (any-map (row_of ids time) (replaces (row_of ids time r)) rs
        ∙ any_same (λ s. replaces (row_of ids time r) (row_of ids time s)) (supersedes_it r) rs
            (replaces-row_of ids time r))

current_rows :
    (ids : IdText) (time : Rfc3339) (task : TaskId) (rs : List RationaleRecord)
    → oldest_first (
        keep
          (λ r. of_task ids task r && not (any (replaces r) (map (row_of ids time) rs)))
          (map (row_of ids time) rs))
      ≡ map (row_of ids time) (sort_by (older ids time) (keep (in_force task rs) rs))
current_rows ids time task rs =
    ap oldest_first (keep-rows ids time _ (in_force task rs) rs (in_force-row ids time task rs))
    ∙ oldest_first-rows ids time (keep (in_force task rs) rs)

-- After any appends to a new ledger, whichever SQLite refused: the current records of a task are, in
-- some order, those in force among the records that the calls answered; or their reading fails, and
-- then the script of SQLite's answers had not run out.
pub current_for_task-in_force :
    (ids : IdText) (time : Rfc3339) (ds : List Draft) (faults : List Bool) (task : TaskId)
    → let new : Conn (List RawRow) = record { tables = init_schema; faults = faults } in
      (out : List RationaleRecord) × Tells
        (current_for_task ids time task)
        (run ids time ds new)
        out
      × Perm out (keep (in_force task (answers ids time ds new)) (answers ids time ds new))
unfolding current_for_task init_schema
current_for_task-in_force ids time ds faults task =
    let new : Conn (List RawRow) = record { tables = init_schema; faults = faults } in
    let rs = answers ids time ds new in
    let (rows, _) = run-Chained ids time [] ds new refl in
    let sql = λ (t : List RawRow).
      oldest_first (keep (λ r. of_task ids task r && not (any (replaces r) t)) t) in
    let mine = keep (in_force task rs) rs in
    (
      sort_by (older ids time) mine,
      collected ids time sql (sort_by (older ids time) mine) (run ids time ds new)
          (ap sql rows ∙ current_rows ids time task rs),
      sort_by-Perm (older ids time) mine,
    )

-- The record with the id, or the error.
abbrev pub lookup : RationaleId → List RationaleRecord → Result LedgerError RationaleRecord
lookup i [] = err (not_found i)
lookup i (r ∷ rs) = if r.id == i then ok r else lookup i rs

get-Reads :
    (ids : IdText) (time : Rfc3339) (i : RationaleId)
    → Reads (get ids time i) (λ t. decode_found ids time i (find_row (ids.show_id i) t))
unfolding get
get-Reads ids time i =
    let key = ids.show_id i in
    bind-Reads (λ t. ok tt) (λ _ t. decode_found ids time i (find_row key t))
      (query-Reads prepare_failed (λ t. tt))
      λ _.
        bind-Reads (λ t. ok tt) (λ _ t. decode_found ids time i (find_row key t))
          (query-Reads query_failed (λ t. tt))
          λ _.
            bind-Reads (λ t. ok (find_row key t)) (λ found t. decode_found ids time i found)
              (query-Reads row_read_failed (find_row key))
              (λ found. give-Reads (decode_found ids time i found))

found-lookup :
    (ids : IdText) (time : Rfc3339) (i : RationaleId) (rs : List RationaleRecord)
    → decode_found ids time i (find_row (ids.show_id i) (map (row_of ids time) rs)) ≡ lookup i rs
unfolding decode_found find_row row_of
found-lookup ids time i [] = refl
found-lookup ids time i (r ∷ rs) = elim (Bool-cases (r.id == i)) [
  | inl e ↦ rw (show_eq ids r.id i) (rw e (raw_to_record-row_of ids time r))
  | inr e ↦ rw (show_eq ids r.id i) (rw e (found-lookup ids time i rs))
]

-- After any appends to a new ledger, whichever SQLite refused: where the script of its answers has run out, `get` gives
-- the record with the id among those that the calls answered, or the error that there is none.
pub get-lookup :
    (ids : IdText) (time : Rfc3339) (ds : List Draft) (faults : List Bool) (i : RationaleId)
    → let new : Conn (List RawRow) = record { tables = init_schema; faults = faults } in
      (run ids time ds new).faults ≡ []
      → (get ids time i (run ids time ds new)).0 ≡ lookup i (answers ids time ds new)
unfolding init_schema
get-lookup ids time ds faults i h =
    let new : Conn (List RawRow) = record { tables = init_schema; faults = faults } in
    let (rows, _) = run-Chained ids time [] ds new refl in
    let (_, clear, _) = get-Reads ids time i (run ids time ds new) in
    (clear h).1
    ∙ ap (λ t. decode_found ids time i (find_row (ids.show_id i) t)) rows
    ∙ found-lookup ids time i (answers ids time ds new)
