-- ===== src/Insight/Examples.antt =====
-- Two artifacts, formats that count in strokes, and the theorems at them.
use wyrtloom.Base.{
  ℕ, zero, suc, ◌≡◌, refl, ap, subst, String, Option, none, some, List, [], ◌∷◌, length,
}
use wyrtloom.Sqlite.Sample.{unary, count, count-unary}
use wyrtloom.Db.{Conn, ok, err, pure, fail, give, query, statement, constrained, ◌>>=◌}
use wyrtloom.Db.Sample.{strokes}
use wyrtloom.Insight.{
  Uuid, BornOf, hunt, Status, living, superseded, InsightArtifact, InsightRow, Formats, not_found,
  init_schema, new_artifact, row_of, store, find_row, insert_row, mark, update_status,
  row_to_artifact, decode_found, get, store_missing, check_affected, supersede,
}
use wyrtloom.Insight.Rows.{held}
use wyrtloom.Insight.Superseding.{Outcome, supersede-Outcome}

same_text : {s t : String} → some s ≡ some t → s ≡ t
same_text e = cc

abbrev show_born : BornOf → Option String
show_born (hunt t) = some (unary t)
show_born other = none

parse-show_born : (b : BornOf) (s : String) → show_born b ≡ some s → some (hunt (count s)) ≡ some b
parse-show_born (hunt t) s e =
    subst (λ z. some (hunt (count z)) ≡ some (hunt t)) (same_text e)
      (ap (λ n. some (hunt n)) (count-unary t))
parse-show_born (BornOf.build t) s e = cc
parse-show_born (BornOf.route t) s e = cc
parse-show_born (BornOf.gate t) s e = cc
parse-show_born (BornOf.solo_flight t) s e = cc

abbrev show_empty : {A : Type 0} → List A → Option String
show_empty [] = some ""
show_empty (a ∷ l) = none

parse-show_empty :
    {A : Type 0} (l : List A) (s : String)
    → show_empty l ≡ some s
    → ◌≡◌ {A = Option (List A)} (some []) (some l)
parse-show_empty [] s e = refl
parse-show_empty (a ∷ l) s e = cc

abbrev show_status : Status → String
show_status living = ""
show_status (superseded i) = unary (suc i)

abbrev status_at : ℕ → Status
status_at zero = living
status_at (suc i) = superseded i

parse-show_status : (st : Status) → status_at (count (show_status st)) ≡ st
unfolding count
parse-show_status living = refl
parse-show_status (superseded i) = ap status_at (count-unary (suc i))

abbrev fmt : Formats
unfolding count unary
fmt = record {
  ids = record {
    show_id = unary;
    parse_id = λ s. some (count s);
    parse-show_id = λ i. ap some (count-unary i);
  };
  time = strokes;
  born_of = record {
    to_string = show_born;
    from_str = λ s. some (hunt (count s));
    from_str-to_string = parse-show_born;
  };
  concepts = record {
    to_string = show_empty;
    from_str = λ s. some [];
    from_str-to_string = parse-show_empty;
  };
  links = record {
    to_string = show_empty;
    from_str = λ s. some [];
    from_str-to_string = parse-show_empty;
  };
  status = record {
    to_string = λ st. some (show_status st);
    from_str = λ s. some (status_at (count s));
    from_str-to_string = λ st s e.
        subst (λ z. some (status_at (count z)) ≡ some st) (same_text e)
          (ap some (parse-show_status st));
  };
}

abbrev insight : Uuid → InsightArtifact
insight i = record {
  id = i;
  author = "ada";
  created_at = 5;
  abstraction = "Malformed text is a framing bug.";
  born_of = hunt 3;
  concepts = [];
  links = [];
  status = living;
}

abbrev fresh : Conn (List InsightRow)
fresh = record { tables = init_schema; faults = [] }

stored_first : (store fmt (insight 1) fresh).0 ≡ ok tt
unfolding store row_of insert_row init_schema constrained statement give ◌>>=◌ fmt
stored_first = refl

abbrev one : Conn (List InsightRow)
one = (store fmt (insight 1) fresh).1

supersede-Outcome_example :
    Outcome fmt 1
      (insight 2)
      one.tables
      (supersede fmt 1 (insight 2) one).0
      (supersede fmt 1 (insight 2) one).1.tables
supersede-Outcome_example = supersede-Outcome fmt 1 (insight 2) one

-- The second call gives the first artifact's place to it again: then neither is living.
abbrev circle : Conn (List InsightRow)
circle = (supersede fmt 2 (insight 1) (supersede fmt 1 (insight 2) one).1).1

no_living :
    (held fmt circle.tables 1 ≡ ok (some (record (insight 1) { status = superseded 2 })))
    × (held fmt circle.tables 2 ≡ ok (some (record (insight 2) { status = superseded 1 })))
unfolding supersede store_missing get update_status mark check_affected decode_found row_to_artifact
    find_row store row_of insert_row init_schema constrained statement query give pure fail ◌>>=◌
    fmt unary count
no_living = (refl, refl)

-- The old artifact is not there: the error, and the new one is stored.
absent_old :
    ((supersede fmt 7 (insight 2) one).0 ≡ err (not_found 7))
    × (length (supersede fmt 7 (insight 2) one).1.tables ≡ 2)
unfolding supersede store_missing get update_status mark check_affected decode_found row_to_artifact
    find_row store row_of insert_row init_schema constrained statement query give pure fail ◌>>=◌
    fmt unary count
absent_old = (refl, refl)

-- `new` makes the living artifact.
made : new_artifact 1 5 "ada" "Malformed text is a framing bug." (hunt 3) [] [] ≡ insight 1
unfolding new_artifact
made = refl
