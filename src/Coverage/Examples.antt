-- ===== src/Coverage/Examples.antt =====
-- Runs of the coverage map, and its theorems at concrete inputs.
use wyrtloom.Base.{
  ◌≡◌, refl, true, false, not, ◌&&◌, List, [], ◌∷◌, any, sort_by, insert_by, str_eq,
}
use wyrtloom.Sqlite.Sample.{unary, count}
use wyrtloom.Db.{ok, Conn, statement, give, pure, query, each_row, constrained, ◌>>=◌}
use wyrtloom.Db.Sample.{strokes}
use wyrtloom.Coverage.{
  Concept, Tables, init_schema, dark_concepts, query_concepts, read_concept, parse_ts, add_concept,
  link_actor, decay_actor_link, decay_row, ensure_concept_exists, put_concept, put_actor, referring,
}
use wyrtloom.Coverage.Histories.{
  Call, add, link, decay, call, run, succeeded, registers, holders, is_held, run-Dark,
}
use wyrtloom.Coverage.Orphans.{IsWhole}

abbrev auth : Concept
auth = record { id = "auth"; component = "core"; label = "log-in"; created_at = 1 }

abbrev cache : Concept
cache = record { id = "cache"; component = "core"; label = "cache"; created_at = 2 }

-- SQLite refuses the second call, so that the fourth finds no concept to link.
abbrev calls : List Call
calls =
    add auth ∷ add cache ∷ link "auth" "ada" 3 ∷ link "cache" "bob" 4 ∷ decay "cache" "bob" 5 ∷ []

abbrev new : Conn Tables
new = record { tables = init_schema; faults = false ∷ true ∷ [] }

abbrev later : Conn Tables
later = run strokes calls new

nothing_dark : (dark_concepts strokes later).0 ≡ ok []
unfolding dark_concepts query_concepts read_concept parse_ts add_concept link_actor decay_actor_link
    decay_row ensure_concept_exists put_concept put_actor referring statement give pure query
    each_row constrained ◌>>=◌ init_schema call run unary count sort_by insert_by
nothing_dark = refl

run-Dark_example : any (λ (x : Concept). str_eq x.id "auth") [] ≡ (
    any (registers "auth") (succeeded strokes calls new)
    && not (is_held (holders "auth" [] (succeeded strokes calls new))))
run-Dark_example = run-Dark strokes calls (false ∷ true ∷ []) "auth" [] nothing_dark

new-IsWhole : IsWhole new.tables
unfolding init_schema
new-IsWhole = (tt, tt)
