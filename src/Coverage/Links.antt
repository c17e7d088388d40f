-- ===== src/Coverage/Links.antt =====
-- What the statements of the coverage map do to its rows.
use wyrtloom.Base.{
  ◌≡◌, refl, ap, arith, Bool, true, false, not, ◌&&◌, ◌||◌, String, List, [], ◌∷◌, map, any, str_eq,
  str_eq_iff, &&-true, Bool-cases, inl, inr, if◌then◌else◌,
}
use wyrtloom.Kanban.{ActorId, Timestamp}
use wyrtloom.Db.{Result, ok, err, and_then, Rfc3339, pure, fail}
use wyrtloom.Db.Laws.{
  Reads, Writes, bind-Reads, bind-Writes, query-Reads, pure-Reads, fail-Reads, constrained-Writes,
}
use wyrtloom.Coverage.{
  ConceptId, CoverageError, lookup_failed, link_artifact_failed, link_actor_failed, unknown_concept,
  ConceptRow, ActorRow, Tables, put_concept, put_artifact, put_actor, decay_row, has_concept,
  referring, ensure_concept_exists, link_artifact, link_actor,
}

-- A link is written where its concept is there.
abbrev pub linked :
    ConceptId → CoverageError → (Tables → Tables) → Tables → Result CoverageError (Unit × Tables)
linked concept e f t =
    and_then (if has_concept t concept then ok tt else err (unknown_concept concept))
      λ _. referring concept e f t

-- The tables with a link more.
abbrev pub actor_row : ConceptId → ActorId → String → Tables → Tables
actor_row i a at t = record t {
  concept_actors =
      put_actor (record { concept_id = i; actor_id = a; living = true; linked_at = at })
        t.concept_actors;
}

abbrev pub artifact_row : ConceptId → String → String → Tables → Tables
artifact_row i a at t = record t {
  concept_artifacts =
      put_artifact (record { concept_id = i; artifact_ref = a; linked_at = at })
        t.concept_artifacts;
}

ensure-Reads :
    (i : ConceptId)
    → Reads
        (ensure_concept_exists i)
        (λ t. if has_concept t i then ok tt else err (unknown_concept i))
unfolding ensure_concept_exists
ensure-Reads i =
    bind-Reads (λ t. ok (has_concept t i)) (λ b t. if b then ok tt else err (unknown_concept i))
      (query-Reads lookup_failed (λ t. has_concept t i)) checked
  where
    checked :
        (b : Bool)
        → Reads {T = Tables}
            (if b then pure tt else fail (unknown_concept i))
            (λ t. if b then ok tt else err (unknown_concept i))
    checked true = pure-Reads tt
    checked false = fail-Reads (unknown_concept i)

pub link_actor-Writes :
    (time : Rfc3339) (i : ConceptId) (a : ActorId) (now : Timestamp)
    → Writes
        (link_actor time i a now)
        (linked i link_actor_failed (actor_row i a (time.show_time now)))
unfolding link_actor
link_actor-Writes time i a now =
    bind-Writes (λ t. if has_concept t i then ok tt else err (unknown_concept i))
      (λ _ t. referring i link_actor_failed (actor_row i a (time.show_time now)) t) (ensure-Reads i)
      (λ _.
        constrained-Writes link_actor_failed
          (referring i link_actor_failed (actor_row i a (time.show_time now))))

pub link_artifact-Writes :
    (time : Rfc3339) (i : ConceptId) (a : String) (now : Timestamp)
    → Writes
        (link_artifact time i a now)
        (linked i link_artifact_failed (artifact_row i a (time.show_time now)))
unfolding link_artifact
link_artifact-Writes time i a now =
    bind-Writes (λ t. if has_concept t i then ok tt else err (unknown_concept i))
      (λ _ t. referring i link_artifact_failed (artifact_row i a (time.show_time now)) t)
      (ensure-Reads i)
      (λ _.
        constrained-Writes link_artifact_failed
          (referring i link_artifact_failed (artifact_row i a (time.show_time now))))

pub linked-ok :
    (i : ConceptId) (e : CoverageError) (f : Tables → Tables) (t u : Tables)
    → linked i e f t ≡ ok (tt, u)
    → (has_concept t i ≡ true) × (u ≡ f t)
unfolding referring
linked-ok i e f t u h = elim (Bool-cases (has_concept t i)) [
  | inl there ↦ (there, ground (arith, there, h))
  | inr gone ↦ absurd (ground (arith, gone, h))
]

-- A row with a key, in a table of links or of concepts.
pub put_actor-any :
    (i : ConceptId) (q : ActorId → Bool) (new : ActorRow) (rows : List ActorRow)
    → new.living ≡ true
    → any (λ r. (str_eq r.concept_id i && r.living) && q r.actor_id) (put_actor new rows) ≡ (
        (str_eq new.concept_id i && q new.actor_id)
        || any (λ r. (str_eq r.concept_id i && r.living) && q r.actor_id) rows)
unfolding put_actor
put_actor-any i q new [] l = ground (arith, l)
put_actor-any i q new (r ∷ rows) l =
    elim (Bool-cases (str_eq r.concept_id new.concept_id && str_eq r.actor_id new.actor_id)) [
      | inl same ↦
          let (p, o) = &&-true _ _ same in
          let e = ap (λ x. str_eq x i) ((str_eq_iff r.concept_id new.concept_id).0 p) in
          let f = ap q ((str_eq_iff r.actor_id new.actor_id).0 o) in ground (arith, same, e, f)
      | inr other ↦ ground (arith, other, l, put_actor-any i q new rows l)
    ]

pub decay-any :
    (i concept : ConceptId) (actor : ActorId) (q : ActorId → Bool) (rows : List ActorRow)
    → any
        (λ r. (str_eq r.concept_id i && r.living) && q r.actor_id)
        (map (decay_row concept actor) rows)
      ≡ any
          (λ r.
            (str_eq r.concept_id i && r.living)
            && (q r.actor_id && not (str_eq i concept && str_eq r.actor_id actor)))
          rows
unfolding decay_row
decay-any i concept actor q [] = refl
decay-any i concept actor q (r ∷ rows) = elim (Bool-cases (str_eq r.concept_id i)) [
  | inl here ↦
      let e = ap (λ x. str_eq x concept) ((str_eq_iff r.concept_id i).0 here) in
      ground (arith, here, e, decay-any i concept actor q rows)
  | inr there ↦ ground (arith, there, decay-any i concept actor q rows)
]

pub put_concept-any :
    (i : ConceptId) (new : ConceptRow) (rows : List ConceptRow)
    → any (λ r. str_eq r.id i) (put_concept new rows)
      ≡ (str_eq new.id i || any (λ r. str_eq r.id i) rows)
unfolding put_concept
put_concept-any i new [] = refl
put_concept-any i new (r ∷ rows) = elim (Bool-cases (str_eq r.id new.id)) [
  | inl same ↦
      let e = ap (λ x. str_eq x i) ((str_eq_iff r.id new.id).0 same) in ground (arith, same, e)
  | inr other ↦ ground (arith, other, put_concept-any i new rows)
]
