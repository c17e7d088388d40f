-- ===== src/Insight.antt =====
-- The insight artifacts, crates/plugin-insight-artifact/src/lib.rs: their table, and the methods of
-- `SqliteInsightStore` on a connection. The texts of ids, times and JSON fields are those of `Formats`;
-- the id that `new` draws and the clock are arguments.
pub mod Rows
pub mod Superseding
mod Examples
use wyrtloom.Base.{
  ℕ, ◌+◌, ◌≡◌, Bool, true, false, ◌&&◌, ◌||◌, String, Option, none, some, List, [], ◌∷◌, ◌++◌, any,
  map, str_eq, str_le, sort_by, ◌==◌, if◌then◌else◌,
}
use wyrtloom.Kanban.{TaskId, ActorId, Timestamp}
use wyrtloom.Rationale.{IdText}
use wyrtloom.Db.{
  Result, ok, err, Conn, M, pure, fail, give, statement, query, and_then, or_err, ◌>>=◌, ◌>>◌,
  each_row, constrained, Rfc3339, Json,
}

abbrev pub Uuid : Type 0
Uuid = TaskId

abbrev pub ConceptId : Type 0
ConceptId = String

pub data BornOf : Type 0 where
  hunt build route gate solo_flight : TaskId → BornOf

pub data Link : Type 0 where
  code rationale test contract : String → Link

pub data Status : Type 0 where
  living : Status
  superseded : Uuid → Status

pub record InsightArtifact : Type 0 where
  pub id : Uuid
  pub author : ActorId
  pub created_at : Timestamp
  pub abstraction : String
  pub born_of : BornOf
  pub concepts : List ConceptId
  pub links : List Link
  pub status : Status

unfoldable pub new_artifact :
    Uuid → Timestamp → ActorId → String → BornOf → List ConceptId → List Link → InsightArtifact
new_artifact id now author abstraction born_of concepts links = record {
  id = id;
  author = author;
  created_at = now;
  abstraction = abstraction;
  born_of = born_of;
  concepts = concepts;
  links = links;
  status = living;
}

-- What the text of a storage error tells apart.
pub data StorageError : Type 0 where
  serialize_born_of serialize_concepts serialize_links serialize_status : StorageError
  insert_failed prepare_failed query_failed row_read_failed update_failed : StorageError

pub data ArtifactError : Type 0 where
  storage : StorageError → ArtifactError
  not_found self_supersede : Uuid → ArtifactError

-- A row of `insight_artifacts`.
pub record InsightRow : Type 0 where
  pub id : String
  pub author : String
  pub created_at : String
  pub abstraction : String
  pub born_of : String
  pub concepts : String
  pub links : String
  pub status : String

abbrev pub Store : Type 0 → Type 0
Store A = M (List InsightRow) ArtifactError A

unfoldable pub init_schema : List InsightRow
init_schema = []

pub record Formats : Type 0 where
  pub ids : IdText
  pub time : Rfc3339
  pub born_of : Json BornOf
  pub concepts : Json (List ConceptId)
  pub links : Json (List Link)
  pub status : Json Status

-- `SELECT … WHERE id = ?`
unfoldable pub find_row : String → List InsightRow → Option InsightRow
find_row key [] = none
find_row key (r ∷ rows) = if str_eq r.id key then some r else find_row key rows

-- The table's primary key refuses an id that it has.
unfoldable pub insert_row :
    InsightRow → List InsightRow → Result ArtifactError (Unit × List InsightRow)
insert_row r rows =
    if any (λ s. str_eq s.id r.id) rows
    then err (storage insert_failed)
    else ok (tt, rows ++ r ∷ [])

-- `UPDATE … SET status = ? WHERE id = ?`, and the number of rows that it changed.
unfoldable pub mark : String → String → InsightRow → InsightRow
mark status key r = if str_eq r.id key then record r { status = status } else r

abbrev count_rows : String → List InsightRow → ℕ
count_rows key [] = 0
count_rows key (r ∷ rows) = (if str_eq r.id key then 1 else 0) + count_rows key rows

unfoldable pub update_status : String → String → List InsightRow → ℕ × List InsightRow
unfolding mark
update_status status key rows = (count_rows key rows, map (mark status key) rows)

-- `ORDER BY created_at, id`
unfoldable pub oldest_first : List InsightRow → List InsightRow
oldest_first = sort_by λ (a : InsightRow) (b : InsightRow).
    if str_eq a.created_at b.created_at then str_le a.id b.id else str_le a.created_at b.created_at

module _ (fmt : Formats) where
  -- The serialisation of the fields, and the row of the insert.
  unfoldable pub row_of : InsightArtifact → Result ArtifactError InsightRow
  row_of a =
      and_then (or_err (fmt.born_of.to_string a.born_of) (storage serialize_born_of)) λ born_of.
        and_then (or_err (fmt.concepts.to_string a.concepts) (storage serialize_concepts))
          λ concepts.
            and_then (or_err (fmt.links.to_string a.links) (storage serialize_links)) λ links.
              and_then (or_err (fmt.status.to_string a.status) (storage serialize_status)) λ status.
                ok (record {
                  id = fmt.ids.show_id a.id;
                  author = a.author;
                  created_at = fmt.time.show_time a.created_at;
                  abstraction = a.abstraction;
                  born_of = born_of;
                  concepts = concepts;
                  links = links;
                  status = status;
                })

  unfoldable pub store : InsightArtifact → Store Unit
  unfolding row_of insert_row constrained ◌>>=◌
  store a = do row ← give (row_of a); constrained (storage insert_failed) (insert_row row)

  -- Its errors pass `map_row_err`.
  unfoldable pub row_to_artifact : InsightRow → Result ArtifactError InsightArtifact
  row_to_artifact row =
      let malformed = storage row_read_failed in
      and_then (or_err (fmt.ids.parse_id row.id) malformed) λ id.
        and_then (or_err (fmt.time.parse_time row.created_at) malformed) λ created_at.
          and_then (or_err (fmt.born_of.from_str row.born_of) malformed) λ born_of.
            and_then (or_err (fmt.concepts.from_str row.concepts) malformed) λ concepts.
              and_then (or_err (fmt.links.from_str row.links) malformed) λ links.
                and_then (or_err (fmt.status.from_str row.status) malformed) λ status. ok (record {
                  id = id;
                  author = row.author;
                  created_at = created_at;
                  abstraction = row.abstraction;
                  born_of = born_of;
                  concepts = concepts;
                  links = links;
                  status = status;
                })

  unfoldable pub decode_found : Option InsightRow → Result ArtifactError (Option InsightArtifact)
  unfolding row_to_artifact
  decode_found none = ok none
  decode_found (some row) = and_then (row_to_artifact row) λ a. ok (some a)

  unfoldable pub get : Uuid → Store (Option InsightArtifact)
  unfolding find_row decode_found ◌>>=◌
  get id = do
    query (storage prepare_failed) (λ _. tt)
    query (storage query_failed) (λ _. tt)
    found ← query (storage row_read_failed) (find_row (fmt.ids.show_id id))
    give (decode_found found)

  unfoldable pub all_artifacts : Store (List InsightArtifact)
  unfolding each_row row_to_artifact oldest_first ◌>>=◌
  all_artifacts = do
    query (storage prepare_failed) (λ _. tt)
    rows ← query (storage query_failed) oldest_first
    each_row (storage row_read_failed) row_to_artifact rows

  unfoldable pub store_missing : InsightArtifact → Option InsightArtifact → Store Unit
  unfolding store
  store_missing new none = store new
  store_missing new (some a) = pure tt

  unfoldable pub check_affected : Uuid → ℕ → Store Unit
  check_affected old affected = if affected == 0 then fail (not_found old) else pure tt

  unfoldable pub supersede : Uuid → InsightArtifact → Store Unit
  unfolding get store_missing update_status check_affected ◌>>=◌
  supersede old new = if old == new.id then fail (self_supersede old) else do
    found ← get new.id
    store_missing new found
    status ← give (or_err (fmt.status.to_string (superseded new.id)) (storage serialize_status))
    affected ← statement (storage update_failed) (update_status status (fmt.ids.show_id old))
    check_affected old affected
