-- ===== src/Coverage/Orphans.antt =====
-- The links of the coverage map refer to concepts that are there.
use wyrtloom.Base.{
  ◌≡◌, sym, subst, ◌∙◌, arith, Bool, true, ◌&&◌, ◌||◌, List, [], ◌∷◌, map, All, str_eq, Bool-cases,
  inl, inr,
}
use wyrtloom.Kanban.{ActorId}
use wyrtloom.Db.{ok, Conn, Rfc3339}
use wyrtloom.Db.Laws.{Writes-keeps}
use wyrtloom.Coverage.{
  ConceptId, ArtifactRow, ActorRow, Tables, has_concept, put_artifact, put_actor, decay_row,
}
use wyrtloom.Coverage.Links.{linked-ok, put_concept-any}
use wyrtloom.Coverage.Histories.{
  Call, add, artifact, link, decay, call, run, does, call-Writes, written,
}

-- The concept of each link has a row.
abbrev pub IsWhole : Tables → Type 0
IsWhole t =
    All (λ r. has_concept t r.concept_id ≡ true) t.concept_artifacts
    × All (λ r. has_concept t r.concept_id ≡ true) t.concept_actors

All-imp :
    {A : Type 0} {P Q : A → Type 0} → ((x : A) → P x → Q x) → (xs : List A) → All P xs → All Q xs
All-imp f [] h = tt
All-imp f (x ∷ xs) h = (f x h.0, All-imp f xs h.1)

module _ (P : ConceptId → Type 0) where
  All-put_artifact :
      (new : ArtifactRow) (rows : List ArtifactRow)
      → P new.concept_id
      → All (λ r. P r.concept_id) rows
      → All (λ r. P r.concept_id) (put_artifact new rows)
  unfolding put_artifact
  All-put_artifact new [] p h = (p, tt)
  All-put_artifact new (r ∷ rows) p h =
      elim (Bool-cases
        (str_eq r.concept_id new.concept_id && str_eq r.artifact_ref new.artifact_ref)) [
          | inl e ↦ rw e h
          | inr e ↦ rw e (h.0, All-put_artifact new rows p h.1)
        ]

  All-put_actor :
      (new : ActorRow) (rows : List ActorRow)
      → P new.concept_id
      → All (λ r. P r.concept_id) rows
      → All (λ r. P r.concept_id) (put_actor new rows)
  unfolding put_actor
  All-put_actor new [] p h = (p, tt)
  All-put_actor new (r ∷ rows) p h =
      elim (Bool-cases (str_eq r.concept_id new.concept_id && str_eq r.actor_id new.actor_id)) [
        | inl e ↦ rw e h
        | inr e ↦ rw e (h.0, All-put_actor new rows p h.1)
      ]

  All-decay :
      (i : ConceptId) (a : ActorId) (rows : List ActorRow)
      → All (λ r. P r.concept_id) rows
      → All (λ r. P r.concept_id) (map (decay_row i a) rows)
  unfolding decay_row
  All-decay i a [] h = tt
  All-decay i a (r ∷ rows) h = elim (Bool-cases (str_eq r.concept_id i && str_eq r.actor_id a)) [
    | inl e ↦ rw e (h.0, All-decay i a rows h.1)
    | inr e ↦ rw e (h.0, All-decay i a rows h.1)
  ]

does-IsWhole :
    (time : Rfc3339) (op : Call) (t u : Tables)
    → IsWhole t
    → does time op t ≡ ok (tt, u)
    → IsWhole u
unfolding does
does-IsWhole time (add x) t u h e =
    let more = λ (j : ConceptId) (k : has_concept t j ≡ true).
      put_concept-any j _ t.concepts ∙ or_right (str_eq x.id j) k in
    subst IsWhole (written e) (
      All-imp (λ r. more r.concept_id) t.concept_artifacts h.0,
      All-imp (λ r. more r.concept_id) t.concept_actors h.1,
    )
  where
    or_right : (b : Bool) {c : Bool} → c ≡ true → (b || c) ≡ true
    or_right b h = ground (arith, h)
does-IsWhole time (artifact i a now) t u h e =
    let (there, same) = linked-ok i _ _ t u e in
    subst IsWhole (sym same)
      (All-put_artifact (λ j. has_concept t j ≡ true) _ t.concept_artifacts there h.0, h.1)
does-IsWhole time (link i a now) t u h e =
    let (there, same) = linked-ok i _ _ t u e in
    subst IsWhole (sym same)
      (h.0, All-put_actor (λ j. has_concept t j ≡ true) _ t.concept_actors there h.1)
does-IsWhole time (decay i a now) t u h e =
    subst IsWhole (written e)
      (h.0, All-decay (λ j. has_concept t j ≡ true) i a t.concept_actors h.1)

-- Any calls, whichever SQLite refuses, keep the concept of each link in the table.
pub run-IsWhole :
    (time : Rfc3339) (ops : List Call) (c : Conn Tables)
    → IsWhole c.tables
    → IsWhole (run time ops c).tables
unfolding run
run-IsWhole time [] c h = h
run-IsWhole time (op ∷ ops) c h = run-IsWhole time ops (call time op c).1 (
    Writes-keeps IsWhole (call time op) (does time op) (call-Writes time op)
      (λ t u a. does-IsWhole time op t u) c h)
