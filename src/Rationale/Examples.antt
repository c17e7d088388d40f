-- ===== src/Rationale/Examples.antt =====
-- Runs of the rationale ledger, and its theorems at concrete inputs.
use mathlib.Core.List.{Perm}
use wyrtloom.Base.{◌≡◌, refl, ap, false, some, none, List, [], ◌∷◌, ◌++◌, map, keep}
use wyrtloom.Sqlite.Sample.{unary, count, count-unary}
use wyrtloom.Db.{Conn, pure, give, query, constrained, statement, ◌>>=◌}
use wyrtloom.Db.Laws.{Tells}
use wyrtloom.Db.Sample.{strokes}
use wyrtloom.Rationale.{
  RationaleRecord, RawRow, IdText, init_schema, row_of, NewRationale, current_for_task, append,
  new_record, check_target, find_row, same_task, insert_row,
}
use wyrtloom.Rationale.Appending.{Draft, run, answers, Chained, run-Chained}
use wyrtloom.Rationale.Reading.{in_force, current_for_task-in_force}

abbrev ids : IdText
unfolding count unary
ids = record {
  show_id = unary;
  parse_id = λ s. some (count s);
  parse-show_id = λ i. ap some (count-unary i);
}

abbrev choice : NewRationale
choice = record {
  task = 3;
  author = "bot";
  title = "store";
  context = "one writer";
  decision = "SQLite";
  consequences = "one lock";
  supersedes = none;
}

-- The second draft replaces the first; the third names a record that is not there.
abbrev drafts : List Draft
drafts =
    (1, 10, choice)
    ∷ (2, 11, record choice { decision = "files"; supersedes = some 1 })
    ∷ (4, 12, record choice { supersedes = some 9 })
    ∷ []

abbrev new : Conn (List RawRow)
new = record { tables = init_schema; faults = false ∷ [] }

all_heard : (run ids strokes drafts new).faults ≡ []
unfolding run init_schema unary append new_record check_target find_row same_task insert_row row_of
    pure give query constrained statement ◌>>=◌ ids
all_heard = refl

start : new.tables ≡ map (row_of ids strokes) []
unfolding init_schema
start = refl

run-Chained_example :
    ((run ids strokes drafts new).tables
      ≡ map (row_of ids strokes) ([] ++ answers ids strokes drafts new))
    × Chained [] (answers ids strokes drafts new)
run-Chained_example = run-Chained ids strokes [] drafts new start

current_for_task-in_force_example :
    (out : List RationaleRecord) × Tells
      (current_for_task ids strokes 3)
      (run ids strokes drafts new)
      out
    × Perm out (keep (in_force 3 (answers ids strokes drafts new)) (answers ids strokes drafts new))
current_for_task-in_force_example = current_for_task-in_force ids strokes drafts (false ∷ []) 3
