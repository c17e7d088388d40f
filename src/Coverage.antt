-- ===== src/Coverage.antt =====
-- The coverage map, crates/plugin-coverage-map/src/lib.rs: its three tables, and the methods of
-- `CoverageMap` on a connection. `now` is the clock at the call.
mod Examples
pub mod Links
mod Dark
pub mod Histories
mod Orphans
use wyrtloom.Base.{
  Bool, true, false, not, ◌&&◌, ◌||◌, String, Option, none, some, List, [], ◌∷◌, ◌++◌, map, any,
  keep, str_eq, str_le, sort_by, if◌then◌else◌,
}
use wyrtloom.Kanban.{ActorId, Timestamp}
use wyrtloom.Db.{
  Result, ok, err, Conn, M, pure, fail, give, statement, query, ◌>>=◌, ◌>>◌, each_row, constrained,
  Rfc3339,
}

abbrev pub ConceptId : Type 0
ConceptId = String

pub record Concept : Type 0 where
  pub id : ConceptId
  pub component : String
  pub label : String
  pub created_at : Timestamp

-- What the text of a storage error tells apart.
pub data CoverageError : Type 0 where
  insert_concept_failed link_artifact_failed link_actor_failed decay_failed : CoverageError
  prepare_failed query_failed row_read_failed lookup_failed malformed_timestamp : CoverageError
  unknown_concept : ConceptId → CoverageError

pub record ConceptRow : Type 0 where
  pub id : String
  pub component : String
  pub label : String
  pub created_at : String

pub record ArtifactRow : Type 0 where
  pub concept_id : String
  pub artifact_ref : String
  pub linked_at : String

-- `living` is 0 or 1.
pub record ActorRow : Type 0 where
  pub concept_id : String
  pub actor_id : String
  pub living : Bool
  pub linked_at : String

pub record Tables : Type 0 where
  pub concepts : List ConceptRow
  pub concept_artifacts : List ArtifactRow
  pub concept_actors : List ActorRow

unfoldable pub init_schema : Tables
init_schema = record { concepts = []; concept_artifacts = []; concept_actors = [] }

abbrev pub Cov : Type 0 → Type 0
Cov A = M Tables CoverageError A

-- `ON CONFLICT(id) DO UPDATE`: a row with the key keeps its `created_at`.
unfoldable pub put_concept : ConceptRow → List ConceptRow → List ConceptRow
put_concept new [] = new ∷ []
put_concept new (r ∷ rows) =
    if str_eq r.id new.id
    then record r { component = new.component; label = new.label } ∷ rows
    else r ∷ put_concept new rows

-- `ON CONFLICT(concept_id, artifact_ref) DO NOTHING`
unfoldable pub put_artifact : ArtifactRow → List ArtifactRow → List ArtifactRow
put_artifact new [] = new ∷ []
put_artifact new (r ∷ rows) =
    if str_eq r.concept_id new.concept_id && str_eq r.artifact_ref new.artifact_ref
    then r ∷ rows
    else r ∷ put_artifact new rows

-- `ON CONFLICT(concept_id, actor_id) DO UPDATE`
unfoldable pub put_actor : ActorRow → List ActorRow → List ActorRow
put_actor new [] = new ∷ []
put_actor new (r ∷ rows) =
    if str_eq r.concept_id new.concept_id && str_eq r.actor_id new.actor_id
    then record r { living = true; linked_at = new.linked_at } ∷ rows
    else r ∷ put_actor new rows

unfoldable pub decay_row : ConceptId → ActorId → ActorRow → ActorRow
decay_row concept actor r =
    if str_eq r.concept_id concept && str_eq r.actor_id actor
    then record r { living = false }
    else r

abbrev pub has_concept : Tables → ConceptId → Bool
has_concept t i = any (λ r. str_eq r.id i) t.concepts

-- A row that refers to a concept that is not there breaks the foreign key.
unfoldable pub referring :
    ConceptId → CoverageError → (Tables → Tables) → Tables → Result CoverageError (Unit × Tables)
referring concept e f t = if has_concept t concept then ok (tt, f t) else err e

unfoldable pub ensure_concept_exists : ConceptId → Cov Unit
unfolding ◌>>=◌
ensure_concept_exists concept = do
  exists ← query lookup_failed (λ t. has_concept t concept)
  if exists then pure tt else fail (unknown_concept concept)

unfoldable pub link_artifact : Rfc3339 → ConceptId → String → Timestamp → Cov Unit
unfolding ensure_concept_exists put_artifact referring constrained ◌>>=◌
link_artifact time concept artifact_ref now = do
  ensure_concept_exists concept
  constrained link_artifact_failed (
      referring concept link_artifact_failed λ t. record t {
        concept_artifacts =
            put_artifact
              (record {
                concept_id = concept;
                artifact_ref = artifact_ref;
                linked_at = time.show_time now;
              })
              t.concept_artifacts;
      })

unfoldable pub link_actor : Rfc3339 → ConceptId → ActorId → Timestamp → Cov Unit
unfolding ensure_concept_exists put_actor referring constrained ◌>>=◌
link_actor time concept actor now = do
  ensure_concept_exists concept
  constrained link_actor_failed (
      referring concept link_actor_failed λ t. record t {
        concept_actors =
            put_actor
              (record {
                concept_id = concept;
                actor_id = actor;
                living = true;
                linked_at = time.show_time now;
              })
              t.concept_actors;
      })

unfoldable pub decay_actor_link : ConceptId → ActorId → Cov Unit
unfolding statement decay_row
decay_actor_link concept actor =
    statement decay_failed
      λ t. (tt, record t { concept_actors = map (decay_row concept actor) t.concept_actors })

unfoldable pub add_concept : Rfc3339 → Concept → Cov Unit
unfolding statement put_concept
add_concept time c = statement insert_concept_failed λ t. (
  tt,
  record t {
    concepts =
        put_concept
          (record {
            id = c.id;
            component = c.component;
            label = c.label;
            created_at = time.show_time c.created_at;
          })
          t.concepts;
  },
)

unfoldable pub parse_ts : Rfc3339 → String → Result CoverageError Timestamp
parse_ts time s = elim (time.parse_time s) [ none ↦ err malformed_timestamp | some t ↦ ok t ]

unfoldable pub read_concept : Rfc3339 → ConceptRow → Result CoverageError Concept
unfolding parse_ts
read_concept time r = elim (parse_ts time r.created_at) [
  | err e ↦ err e
  | ok t ↦ ok (record { id = r.id; component = r.component; label = r.label; created_at = t })
]

-- The query is the function from the tables to the rows that it selects.
unfoldable pub query_concepts : Rfc3339 → (Tables → List ConceptRow) → Cov (List Concept)
unfolding each_row read_concept ◌>>=◌
query_concepts time sql = do
  query prepare_failed (λ _. tt)
  rows ← query query_failed sql
  each_row row_read_failed (read_concept time) rows

-- `ORDER BY id`
abbrev pub by_id : ConceptRow → ConceptRow → Bool
by_id a b = str_le a.id b.id

unfoldable pub all_concepts : Rfc3339 → Cov (List Concept)
unfolding query_concepts
all_concepts time = query_concepts time (λ t. sort_by by_id t.concepts)

unfoldable pub read_text : String → Result CoverageError String
read_text s = ok s

unfoldable pub artifacts_for : ConceptId → Cov (List String)
unfolding each_row read_text ◌>>=◌
artifacts_for concept = do
  query prepare_failed (λ _. tt)
  refs ← query query_failed (λ t. sort_by str_le (
      map (λ (r : ArtifactRow). r.artifact_ref)
        (keep (λ r. str_eq r.concept_id concept) t.concept_artifacts)))
  each_row row_read_failed read_text refs

unfoldable pub living_actors_for : ConceptId → Cov (List ActorId)
unfolding each_row read_text ◌>>=◌
living_actors_for concept = do
  query prepare_failed (λ _. tt)
  actors ← query query_failed (λ t. sort_by str_le (
      map (λ (r : ActorRow). r.actor_id)
        (keep (λ r. str_eq r.concept_id concept && r.living) t.concept_actors)))
  each_row row_read_failed read_text actors

-- `EXISTS (SELECT 1 FROM concept_actors a WHERE a.concept_id = ? AND a.living = 1)`
abbrev pub has_living : Tables → ConceptId → Bool
has_living t i = any (λ r. str_eq r.concept_id i && r.living) t.concept_actors

unfoldable pub dark_concepts : Rfc3339 → Cov (List Concept)
unfolding query_concepts
dark_concepts time =
    query_concepts time (λ t. sort_by by_id (keep (λ r. not (has_living t r.id)) t.concepts))
