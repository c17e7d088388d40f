-- ===== src/Coverage/Dark.antt =====
-- The readers of the coverage map.
use wyrtloom.Base.{
  ◌≡◌, sym, ap, subst, ◌∙◌, not, ◌&&◌, String, List, map, any, any-map, any-keep, any-and, keep,
  str_eq, str_eq_iff, str_le, str_le_total, str_le_trans, sort_by, map-sort_by, any-sort_by,
  sort_by-Ascending, Ascending,
}
use wyrtloom.Kanban.{Timestamp}
use wyrtloom.Db.{Result, ok, err, Conn, Rfc3339, decode_rows}
use wyrtloom.Db.Laws.{Reads, rows-Reads, map-decode_rows}
use wyrtloom.Coverage.{
  ConceptId, Concept, CoverageError, prepare_failed, query_failed, row_read_failed, ConceptRow,
  ActorRow, Tables, has_concept, has_living, parse_ts, read_concept, read_text, query_concepts,
  by_id, dark_concepts, living_actors_for,
}

abbrev row_id : ConceptRow → String
row_id r = r.id

abbrev pub concept_id : Concept → ConceptId
concept_id x = x.id

read_concept-id :
    (time : Rfc3339) (r : ConceptRow) (a : Concept) → read_concept time r ≡ ok a → a.id ≡ r.id
unfolding read_concept
read_concept-id time r a h = stamped (parse_ts time r.created_at) h
  where
    stamped :
        (t : Result CoverageError Timestamp)
        → elim t [
          | err e ↦ err e
          | ok t ↦
              ok (record { id = r.id; component = r.component; label = r.label; created_at = t })
        ]
          ≡ ok a
        → a.id ≡ r.id
    stamped (ok t) e = cc
    stamped (err d) e = cc

dark_rows : Tables → List ConceptRow
dark_rows t = sort_by by_id (keep (λ r. not (has_living t r.id)) t.concepts)

dark_concepts-Reads :
    (time : Rfc3339)
    → Reads (dark_concepts time) (λ t. decode_rows (read_concept time) (dark_rows t))
unfolding dark_concepts query_concepts dark_rows
dark_concepts-Reads time =
    rows-Reads prepare_failed query_failed row_read_failed (read_concept time) dark_rows

-- Where the dark concepts are read: the tables stay; a concept is among them exactly when it is
-- registered and no actor has a living link to it; and they come in the order of their ids.
pub dark_concepts-Dark :
    (time : Rfc3339) (c : Conn Tables) (cs : List Concept) (i : ConceptId)
    → (dark_concepts time c).0 ≡ ok cs
    → ((dark_concepts time c).1.tables ≡ c.tables)
      × (any (λ x. str_eq x.id i) cs ≡ (has_concept c.tables i && not (has_living c.tables i)))
      × Ascending str_le (map concept_id cs)
unfolding dark_rows
dark_concepts-Dark time c cs i h =
    let (same, _, right) = dark_concepts-Reads time c in
    let t = c.tables in
    let unlit = λ (k : ConceptId). not (has_living t k) in
    let ids =
      map-decode_rows (read_concept time) row_id concept_id (read_concept-id time) (dark_rows t) cs
        (right cs h) in
    (
      same,
      sym (any-map concept_id (λ k. str_eq k i) cs)
          ∙ ap (any (λ k. str_eq k i)) ids
          ∙ any-map row_id (λ k. str_eq k i) (dark_rows t)
          ∙ any-sort_by by_id (λ r. str_eq r.id i) (keep (λ r. unlit r.id) t.concepts)
          ∙ any-keep (λ r. str_eq r.id i) (λ r. unlit r.id) t.concepts
          ∙ sym (any-map row_id (λ k. unlit k && str_eq k i) t.concepts)
          ∙ any-and i (λ k. str_eq k i) unlit (map row_id t.concepts) (λ k e. (str_eq_iff k i).0 e)
          ∙ ap (λ b. b && unlit i) (any-map row_id (λ k. str_eq k i) t.concepts),
      subst (Ascending str_le)
          (sym (ids ∙ map-sort_by row_id str_le (keep (λ r. unlit r.id) t.concepts)))
          (sort_by-Ascending str_le str_le_total str_le_trans
            (map row_id (keep (λ r. unlit r.id) t.concepts))),
    )

living_rows : ConceptId → Tables → List String
living_rows i t = sort_by str_le (
    map (λ (r : ActorRow). r.actor_id)
      (keep (λ r. str_eq r.concept_id i && r.living) t.concept_actors))

living_actors_for-Reads :
    (i : ConceptId) → Reads (living_actors_for i) (λ t. decode_rows read_text (living_rows i t))
unfolding living_actors_for living_rows
living_actors_for-Reads i =
    rows-Reads prepare_failed query_failed row_read_failed read_text (living_rows i)
