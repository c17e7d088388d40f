-- ===== src/Logger/Examples.antt =====
-- Three calls, of which SQLite refuses the second, and the theorem at them.
use wyrtloom.Base.{◌≡◌, refl, ap, true, false, some, none, List, [], ◌∷◌, keep}
use wyrtloom.Sqlite.Sample.{unary, count, count-unary}
use wyrtloom.Rationale.{IdText}
use wyrtloom.Db.{Conn, give, statement, ◌>>=◌}
use wyrtloom.Db.Laws.{Tells}
use wyrtloom.Db.Sample.{strokes}
use wyrtloom.Logger.{
  CallLog, completed, failed, partial, LogRow, init_schema, row_of, bind_row, record_call, all_logs,
}
use wyrtloom.Logger.Recall.{run, recorded, storable, all_logs-recorded}

abbrev ids : IdText
unfolding count unary
ids = record {
  show_id = unary;
  parse_id = λ s. some (count s);
  parse-show_id = λ i. ap some (count-unary i);
}

abbrev call : CallLog
call = record {
  task = 3;
  profile = "default";
  provider = "ollama";
  model = "llama3.2";
  usage = record { input_tokens = 10; output_tokens = 20; cost = none };
  outcome = completed;
  at = 4;
}

abbrev entries : List CallLog
entries =
    call ∷ record call { outcome = failed "timeout" } ∷ record call { outcome = partial "cut" } ∷ []

abbrev new : Conn (List LogRow)
new = record { tables = init_schema; faults = false ∷ true ∷ [] }

all_logs-recorded_example :
    Tells (all_logs ids strokes) (run ids strokes entries new) (recorded ids strokes entries new)
    × (false ∷ true ∷ [] ≡ []
        → recorded ids strokes entries new ≡ keep (storable ids strokes) entries)
all_logs-recorded_example = all_logs-recorded ids strokes entries (false ∷ true ∷ [])

two : recorded ids strokes entries new ≡ call ∷ record call { outcome = partial "cut" } ∷ []
unfolding record_call row_of bind_row init_schema give statement ◌>>=◌ ids unary
two = refl
