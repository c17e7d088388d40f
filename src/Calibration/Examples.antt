-- ===== src/Calibration/Examples.antt =====
-- Runs of the calibration ledger, and its theorems at concrete inputs.
use wyrtloom.Base.{
  sort_by, insert_by, ℕ, ◌-◌, ◌≡◌, refl, ap, true, false, some, List, [], ◌∷◌, ltb, if◌then◌else◌,
  none,
}
use wyrtloom.F64.Sample.{hundredths}
use wyrtloom.Sqlite.Sample.{unary, count, count-unary}
use wyrtloom.Db.{Conn, ok, each_row, query, statement, give, pure, ◌>>=◌}
use wyrtloom.Db.Laws.{Tells}
use wyrtloom.Calibration.{
  Calendar, pos, ProbeEvent, Events, init_schema, mastery, update, outcomes, replay, tally_pair,
  to_bool, pairs_of, count_pairs, team_concept_redundancy, default_params,
}
use wyrtloom.Calibration.Events.{mastery_of}
use wyrtloom.Calibration.Replay.{
  Call, recording, deletion, pruning, run, succeeded, left_by, run-mastery,
}

-- An instant is a day.
abbrev days : Calendar
unfolding count unary
days = record {
  show_fixed = unary;
  parse_time = λ s. some (count s);
  sub_days = λ t n. if ltb t n then none else some (t - n);
  parse-show_fixed = λ i. ap some (count-unary i);
}

abbrev answered_on : ℕ → ProbeEvent
answered_on day = record {
  actor = "ada";
  concept = "auth";
  predicted_correct = true;
  was_correct = true;
  at = day;
}

abbrev calls : List Call
calls =
    recording (answered_on 1)
    ∷ recording (record (answered_on 2) { actor = "bob" })
    ∷ recording (answered_on 9)
    ∷ deletion "bob"
    ∷ pruning (pos 5) 10
    ∷ []

abbrev new : Conn Events
new = record { tables = init_schema; faults = false ∷ true ∷ [] }

run-mastery_example :
    Tells
      (mastery hundredths "ada" "auth")
      (run days calls new)
      (mastery_of hundredths "ada" "auth" (left_by days [] (succeeded days calls new)))
run-mastery_example = run-mastery hundredths days calls (false ∷ true ∷ []) "ada" "auth"

-- One right answer takes the prior of 0.30 to 0.68, in hundredths rounded down.
right_answer : update hundredths (default_params hundredths) 30 true ≡ 68
unfolding update default_params
right_answer = refl

-- Three right answers put one actor over the threshold; one wrong answer leaves the other below.
abbrev practised : Conn Events
practised = record {
  tables =
      record { actor = "ada"; concept = "auth"; predicted = 1; correct = 1; at = "i" }
      ∷ record { actor = "bob"; concept = "auth"; predicted = 1; correct = 0; at = "i" }
      ∷ record { actor = "ada"; concept = "auth"; predicted = 1; correct = 1; at = "ii" }
      ∷ record { actor = "ada"; concept = "auth"; predicted = 0; correct = 1; at = "iii" }
      ∷ [];
  faults = [];
}

one_practised :
    (team_concept_redundancy hundredths practised).0
    ≡ ok (record { concept = "auth"; redundant_actors = 1 } ∷ [])
unfolding team_concept_redundancy pairs_of count_pairs mastery outcomes replay update default_params
    tally_pair to_bool sort_by insert_by each_row query statement give pure ◌>>=◌
one_practised = refl
