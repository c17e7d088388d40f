-- ===== src/Rationale/Appending.antt =====
-- Sequences of appends to one rationale ledger.
use mathlib.Core.List.{append_assoc, append-nil}
use wyrtloom.Base.{
  ◌≡◌, refl, sym, ap, subst, ◌∙◌, arith, Bool, true, false, ◌&&◌, Option, none, some, List, [], ◌∷◌,
  ◌++◌, map, any, str_eq, ◌==◌, Bool-cases, inl, inr,
}
use wyrtloom.Kanban.{TaskId, Timestamp}
use wyrtloom.Db.{Result, ok, err, Conn, and_then, Rfc3339}
use wyrtloom.Db.Laws.{
  Reads, Writes, bind-Reads, bind-Writes, then-Writes, giving, query-Reads, pure-Reads, give-Reads,
  constrained-Writes, Result-cases,
}
use wyrtloom.Rationale.{
  RationaleId, LedgerError, supersede_lookup_failed, insert_failed, NewRationale, RationaleRecord,
  RawRow, IdText, row_of, new_record, find_row, same_task, check_target, insert_row, append,
}
use wyrtloom.Rationale.Rows.{show_eq}

-- What the check of a supersede target reads.
abbrev checked : IdText → TaskId → Option RationaleId → List RawRow → Result LedgerError Unit
checked ids task none t = ok tt
checked ids task (some target) t = same_task ids target task (find_row (ids.show_id target) t)

check_target-Reads :
    (ids : IdText) (task : TaskId) (o : Option RationaleId)
    → Reads (check_target ids task o) (checked ids task o)
unfolding check_target
check_target-Reads ids task none = pure-Reads tt
check_target-Reads ids task (some target) =
    bind-Reads (λ t. ok (find_row (ids.show_id target) t))
      (λ found t. same_task ids target task found)
      (query-Reads supersede_lookup_failed (find_row (ids.show_id target)))
      (λ found. give-Reads (same_task ids target task found))

module _ (ids : IdText) (time : Rfc3339) where
  appended : RationaleRecord → List RawRow → Result LedgerError (RationaleRecord × List RawRow)
  appended made t =
      and_then (checked ids made.task made.supersedes t)
        λ _. giving made (insert_row (row_of ids time made) t)

  append-Writes :
      (id : RationaleId) (now : Timestamp) (new : NewRationale)
      → Writes (append ids time id now new) (appended (new_record id now new))
  unfolding append appended
  append-Writes id now new =
      let made = new_record id now new in
      bind-Writes (checked ids made.task made.supersedes)
        (λ _ t. giving made (insert_row (row_of ids time made) t))
        (check_target-Reads ids made.task made.supersedes)
        (λ _.
          then-Writes (insert_row (row_of ids time made)) made
            (constrained-Writes insert_failed (insert_row (row_of ids time made))))

-- One of the records has the id; or it also has the task.
abbrev pub has_id : RationaleId → List RationaleRecord → Bool
has_id i rs = any (λ r. r.id == i) rs

abbrev pub target_there : List RationaleRecord → TaskId → Option RationaleId → Bool
target_there before task none = true
target_there before task (some i) = any (λ r. r.id == i && r.task == task) before

-- Each record's id is new, and what it supersedes was there before it, for the same task.
abbrev pub Chained : List RationaleRecord → List RationaleRecord → Type 0
Chained before [] = Unit
Chained before (r ∷ rs) =
    (has_id r.id before ≡ false)
    × (target_there before r.task r.supersedes ≡ true)
    × Chained (before ++ r ∷ []) rs

module _ (ids : IdText) (time : Rfc3339) where
  abbrev rows_of : List RationaleRecord → List RawRow
  rows_of rs = map (row_of ids time) rs

  found-there :
      (i : RationaleId) (task : TaskId) (rs : List RationaleRecord)
      → same_task ids i task (find_row (ids.show_id i) (rows_of rs)) ≡ ok tt
      → any (λ r. r.id == i && r.task == task) rs ≡ true
  unfolding find_row same_task row_of
  found-there i task [] h = cc
  found-there i task (r ∷ rs) h =
      ground (arith, h, show_eq ids r.id i, show_eq ids r.task task, found-there i task rs)

  fresh-id :
      (i : RationaleId) (rs : List RationaleRecord)
      → any (λ s. str_eq s.id (ids.show_id i)) (rows_of rs) ≡ has_id i rs
  unfolding row_of
  fresh-id i [] = refl
  fresh-id i (r ∷ rs) = ground (arith, show_eq ids r.id i, fresh-id i rs)

  checked-there :
      (task : TaskId) (o : Option RationaleId) (rs : List RationaleRecord)
      → checked ids task o (rows_of rs) ≡ ok tt
      → target_there rs task o ≡ true
  checked-there task none rs h = refl
  checked-there task (some i) rs h = found-there i task rs h

  rows-append : (xs ys : List RationaleRecord) → rows_of (xs ++ ys) ≡ rows_of xs ++ rows_of ys
  rows-append [] ys = refl
  rows-append (x ∷ xs) ys = ap (λ l. row_of ids time x ∷ l) (rows-append xs ys)

  inserted :
      (made r : RationaleRecord) (row : RawRow) (t u : List RawRow)
      → giving made (insert_row row t) ≡ ok (r, u)
      → (any (λ s. str_eq s.id row.id) t ≡ false) × (r ≡ made) × (u ≡ t ++ row ∷ [])
  unfolding insert_row
  inserted made r row t u h = elim (Bool-cases (any (λ s. str_eq s.id row.id) t)) [
    | inl used ↦ absurd (ground (arith, used, h))
    | inr new ↦ (new, ground (arith, new, h), ground (arith, new, h))
  ]

  appended-ok :
      (made r : RationaleRecord) (before : List RationaleRecord) (u : List RawRow)
      → appended ids time made (rows_of before) ≡ ok (r, u)
      → (r ≡ made)
        × (u ≡ rows_of (before ++ made ∷ []))
        × (has_id made.id before ≡ false)
        × (target_there before made.task made.supersedes ≡ true)
  unfolding appended row_of
  appended-ok made r before u h =
      elim (Result-cases (checked ids made.task made.supersedes (rows_of before))) [
        | inr (d, e) ↦ absurd (ground (arith, e, h))
        | inl (a, e) ↦
            let go = λ (x : Result LedgerError Unit).
              and_then x λ _. giving made (insert_row (row_of ids time made) (rows_of before)) in
            let (new, same, rows) =
              inserted made r (row_of ids time made) (rows_of before) u (sym (ap go e) ∙ h) in
            (
              same,
              rows ∙ sym (rows-append before (made ∷ [])),
              sym (fresh-id made.id before) ∙ new,
              checked-there made.task made.supersedes before e,
            )
      ]

-- A call: the id drawn, the time, and the argument.
abbrev pub Draft : Type 0
Draft = RationaleId × Timestamp × NewRationale

abbrev pub made_of : Draft → RationaleRecord
made_of (id, now, new) = new_record id now new

abbrev pub noted : Result LedgerError RationaleRecord → List RationaleRecord → List RationaleRecord
noted (ok r) rs = r ∷ rs
noted (err e) rs = rs

module _ (ids : IdText) (time : Rfc3339) where
  abbrev pub append_draft :
      Draft → Conn (List RawRow) → Result LedgerError RationaleRecord × Conn (List RawRow)
  append_draft (id, now, new) = append ids time id now new

  unfoldable pub run : List Draft → Conn (List RawRow) → Conn (List RawRow)
  run [] c = c
  run (d ∷ ds) c = run ds (append_draft d c).1

  -- The records that the calls answered.
  unfoldable pub answers : List Draft → Conn (List RawRow) → List RationaleRecord
  answers [] c = []
  answers (d ∷ ds) c = noted (append_draft d c).0 (answers ds (append_draft d c).1)

-- The rows are those of the records, of which the later ones are chained to the earlier.
abbrev Holds : IdText → Rfc3339 → List RationaleRecord → List RawRow → List RationaleRecord → Type 0
Holds ids time before t later = (t ≡ map (row_of ids time) (before ++ later)) × Chained before later

Holds-more :
    (ids : IdText) (time : Rfc3339) (before : List RationaleRecord) (t : List RawRow)
    (r : RationaleRecord) (later : List RationaleRecord)
    → has_id r.id before ≡ false
    → target_there before r.task r.supersedes ≡ true
    → Holds ids time (before ++ r ∷ []) t later
    → Holds ids time before t (r ∷ later)
Holds-more ids time before t r later new there h =
    (h.0 ∙ ap (map (row_of ids time)) (append_assoc before (r ∷ []) later), (new, there, h.1))

-- A ledger that holds the rows of some records gets, after any calls, whichever SQLite refused,
-- the rows of the records that the calls answered, after the others, which stay as they are; each new
-- record has an id of its own, and what it supersedes was there before it, for its task.
pub run-Chained :
    (ids : IdText) (time : Rfc3339) (before : List RationaleRecord) (ds : List Draft)
    (c : Conn (List RawRow))
    → c.tables ≡ map (row_of ids time) before
    → ((run ids time ds c).tables ≡ map (row_of ids time) (before ++ answers ids time ds c))
      × Chained before (answers ids time ds c)
unfolding run answers
run-Chained ids time before [] c h = (h ∙ ap (map (row_of ids time)) (sym (append-nil before)), tt)
run-Chained ids time before (d ∷ ds) c h =
    let x = append_draft ids time d c in
    let (_, right, same) = append-Writes ids time d.0 d.1 d.2 c in
    elim (Result-cases x.0) [
      | inl (r, e) ↦
          let (made, rows, new, there) =
            appended-ok ids time (made_of d) r before x.1.tables
              (sym (ap (appended ids time (made_of d)) h) ∙ right r e) in
          subst
            (λ y.
              Holds ids time before (run ids time ds x.1).tables
                (noted y (answers ids time ds x.1)))
            (sym (e ∙ ap ok made))
            (Holds-more ids time before (run ids time ds x.1).tables (made_of d)
              (answers ids time ds x.1) new there
              (run-Chained ids time (before ++ made_of d ∷ []) ds x.1 rows))
      | inr (f, e) ↦
          subst
            (λ y.
              Holds ids time before (run ids time ds x.1).tables
                (noted y (answers ids time ds x.1)))
            (sym e) (run-Chained ids time before ds x.1 (same f e ∙ h))
    ]
