-- ===== src/Coverage/Histories.antt =====
-- Sequences of calls on one coverage map.
use wyrtloom.Base.{
  ◌≡◌, refl, sym, ap, subst, ◌∙◌, arith, Bool, true, false, not, ◌&&◌, ◌||◌, String, List, [], ◌∷◌,
  map, any, keep, str_eq, inl, inr, if◌then◌else◌,
}
use wyrtloom.Kanban.{ActorId, Timestamp}
use wyrtloom.Db.{Result, ok, err, Conn, Rfc3339}
use wyrtloom.Db.Laws.{Writes, statement-Writes, Result-cases}
use wyrtloom.Coverage.{
  ConceptId, Concept, CoverageError, ActorRow, Tables, init_schema, has_concept, put_concept,
  decay_row, link_artifact_failed, link_actor_failed, decay_failed, insert_concept_failed,
  link_artifact, link_actor, decay_actor_link, add_concept, dark_concepts,
}
use wyrtloom.Coverage.Links.{
  linked, actor_row, artifact_row, link_actor-Writes, link_artifact-Writes, linked-ok,
  put_actor-any, decay-any, put_concept-any,
}
use wyrtloom.Coverage.Dark.{dark_concepts-Dark}

-- The calls that write.
pub data Call : Type 0 where
  add : Concept → Call
  artifact : ConceptId → String → Timestamp → Call
  link decay : ConceptId → ActorId → Timestamp → Call

abbrev pub noted : Call → Result CoverageError Unit → List Call → List Call
noted op (ok _) ops = op ∷ ops
noted op (err _) ops = ops

module _ (time : Rfc3339) where
  unfoldable pub call : Call → Conn Tables → Result CoverageError Unit × Conn Tables
  call (add x) = add_concept time x
  call (artifact i a now) = link_artifact time i a now
  call (link i a now) = link_actor time i a now
  call (decay i a now) = decay_actor_link i a

  unfoldable pub run : List Call → Conn Tables → Conn Tables
  unfolding call
  run [] c = c
  run (op ∷ ops) c = run ops (call op c).1

  -- The calls that succeed.
  unfoldable pub succeeded : List Call → Conn Tables → List Call
  unfolding call
  succeeded [] c = []
  succeeded (op ∷ ops) c = noted op (call op c).0 (succeeded ops (call op c).1)

-- Who holds a concept after a sequence of calls: those linked and not let go since.
unfoldable pub hold : ConceptId → List ActorId → Call → List ActorId
hold i held (add x) = held
hold i held (artifact j a now) = held
hold i held (link j a now) = if str_eq j i then a ∷ held else held
hold i held (decay j a now) = if str_eq i j then keep (λ b. not (str_eq b a)) held else held

unfoldable pub holders : ConceptId → List ActorId → List Call → List ActorId
unfolding hold
holders i held [] = held
holders i held (op ∷ ops) = holders i (hold i held op) ops

abbrev pub registers : ConceptId → Call → Bool
registers i (add x) = str_eq x.id i
registers i _ = false

-- The table of links agrees with the holders of a concept, and the concept's row with `known`.
abbrev Agrees : ConceptId → Bool → List ActorId → Tables → Type 0
Agrees i known held t =
    (has_concept t i ≡ known)
    × ((q : ActorId → Bool)
        → any (λ r. (str_eq r.concept_id i && r.living) && q r.actor_id) t.concept_actors
          ≡ any q held)

unfoldable pub does : Rfc3339 → Call → Tables → Result CoverageError (Unit × Tables)
does time (add x) t = ok (
  tt,
  record t {
    concepts =
        put_concept
          (record {
            id = x.id;
            component = x.component;
            label = x.label;
            created_at = time.show_time x.created_at;
          })
          t.concepts;
  },
)
does time (artifact i a now) t =
    linked i link_artifact_failed (artifact_row i a (time.show_time now)) t
does time (link i a now) t = linked i link_actor_failed (actor_row i a (time.show_time now)) t
does time (decay i a now) t =
    ok (tt, record t { concept_actors = map (decay_row i a) t.concept_actors })

pub call-Writes : (time : Rfc3339) (op : Call) → Writes (call time op) (does time op)
unfolding call does add_concept decay_actor_link
call-Writes time (add x) = statement-Writes insert_concept_failed _
call-Writes time (artifact i a now) = link_artifact-Writes time i a now
call-Writes time (link i a now) = link_actor-Writes time i a now
call-Writes time (decay i a now) = statement-Writes decay_failed _

pub written :
    {u v : Tables}
    → ◌≡◌ {A = Result CoverageError (Unit × Tables)} (ok (tt, v)) (ok (tt, u))
    → v ≡ u
written h = cc

more :
    (b : Bool) (a : ActorId) (held : List ActorId) (q : ActorId → Bool)
    → ((b && q a) || any q held) ≡ any q (if b then a ∷ held else held)
more b a held q = ground arith

fewer :
    (b : Bool) (a : ActorId) (held : List ActorId) (q : ActorId → Bool)
    → any (λ x. q x && not (b && str_eq x a)) held
      ≡ any q (if b then keep (λ x. not (str_eq x a)) held else held)
fewer true a [] q = refl
fewer true a (x ∷ held) q = ground (arith, fewer true a held q)
fewer false a [] q = refl
fewer false a (x ∷ held) q = ground (arith, fewer false a held q)

does-Agrees :
    (time : Rfc3339) (i : ConceptId) (known : Bool) (held : List ActorId) (op : Call) (t u : Tables)
    → Agrees i known held t
    → does time op t ≡ ok (tt, u)
    → Agrees i (registers i op || known) (hold i held op) u
unfolding does hold
does-Agrees time i known held (add x) t u h e =
    subst (Agrees i (str_eq x.id i || known) held) (written e)
      (put_concept-any i _ t.concepts ∙ ap (λ b. str_eq x.id i || b) h.0, h.1)
does-Agrees time i known held (artifact j a now) t u h e =
    subst (Agrees i known held) (sym (linked-ok j _ _ t u e).1) h
does-Agrees time i known held (link j a now) t u h e =
    subst (Agrees i known (if str_eq j i then a ∷ held else held)) (sym (linked-ok j _ _ t u e).1) (
      h.0,
      λ q.
          put_actor-any i q _ t.concept_actors refl
          ∙ ap (λ b. (str_eq j i && q a) || b) (h.1 q)
          ∙ more (str_eq j i) a held q,
    )
does-Agrees time i known held (decay j a now) t u h e =
    subst (Agrees i known (if str_eq i j then keep (λ b. not (str_eq b a)) held else held))
      (written e)
      (
        h.0,
        λ q.
            decay-any i j a q t.concept_actors
            ∙ h.1 (λ x. q x && not (str_eq i j && str_eq x a))
            ∙ fewer (str_eq i j) a held q,
      )

succeeded-ok :
    (time : Rfc3339) (op : Call) (ops : List Call) (c : Conn Tables)
    → (call time op c).0 ≡ ok tt
    → succeeded time (op ∷ ops) c ≡ op ∷ succeeded time ops (call time op c).1
unfolding succeeded
succeeded-ok time op ops c e = ap (λ r. noted op r (succeeded time ops (call time op c).1)) e

succeeded-err :
    (time : Rfc3339) (op : Call) (ops : List Call) (c : Conn Tables) (d : CoverageError)
    → (call time op c).0 ≡ err d
    → succeeded time (op ∷ ops) c ≡ succeeded time ops (call time op c).1
unfolding succeeded
succeeded-err time op ops c d e = ap (λ r. noted op r (succeeded time ops (call time op c).1)) e

-- The agreement after calls that succeeded.
abbrev After : ConceptId → Bool → List ActorId → Tables → List Call → Type 0
After i known held t done_calls =
    Agrees i (any (registers i) done_calls || known) (holders i held done_calls) t

After-more :
    (i : ConceptId) (known : Bool) (held : List ActorId) (t : Tables) (op : Call) (ops : List Call)
    → After i (registers i op || known) (hold i held op) t ops
    → After i known held t (op ∷ ops)
unfolding holders
After-more i known held t op ops h = (ground (arith, h.0), h.1)

run-After :
    (time : Rfc3339) (i : ConceptId) (known : Bool) (held : List ActorId) (ops : List Call)
    (c : Conn Tables)
    → Agrees i known held c.tables
    → After i known held (run time ops c).tables (succeeded time ops c)
unfolding run succeeded holders
run-After time i known held [] c h = h
run-After time i known held (op ∷ ops) c h = elim (Result-cases (call time op c).0) [
  | inl (a, e) ↦
      subst (After i known held (run time ops (call time op c).1).tables)
        (sym (succeeded-ok time op ops c e))
        (After-more i known held (run time ops (call time op c).1).tables op
          (succeeded time ops (call time op c).1)
          (run-After time i (registers i op || known) (hold i held op) ops (call time op c).1
            (does-Agrees time i known held op c.tables _ h ((call-Writes time op c).1 tt e))))
  | inr (d, e) ↦
      subst (After i known held (run time ops (call time op c).1).tables)
        (sym (succeeded-err time op ops c d e))
        (run-After time i known held ops (call time op c).1
          (subst (Agrees i known held) (sym ((call-Writes time op c).2 d e)) h))
]

abbrev pub is_held : List ActorId → Bool
is_held [] = false
is_held (a ∷ held) = true

is_held-any : (held : List ActorId) → any (λ a. true) held ≡ is_held held
is_held-any [] = refl
is_held-any (a ∷ held) = refl

living-all :
    (i : ConceptId) (rows : List ActorRow)
    → any (λ r. (str_eq r.concept_id i && r.living) && true) rows
      ≡ any (λ r. str_eq r.concept_id i && r.living) rows
living-all i [] = refl
living-all i (r ∷ rows) = ground (arith, living-all i rows)

-- After any calls on a new coverage map, whichever SQLite refused: where the dark concepts are read,
-- a concept is among them exactly when a call that succeeded registered it, and those that succeeded
-- leave nobody who holds it.
pub run-Dark :
    (time : Rfc3339) (ops : List Call) (faults : List Bool) (i : ConceptId) (cs : List Concept)
    → let new : Conn Tables = record { tables = init_schema; faults = faults } in
      (dark_concepts time (run time ops new)).0 ≡ ok cs
      → any (λ x. str_eq x.id i) cs ≡ (
          any (registers i) (succeeded time ops new)
          && not (is_held (holders i [] (succeeded time ops new))))
unfolding init_schema
run-Dark time ops faults i cs h =
    let new : Conn Tables = record { tables = init_schema; faults = faults } in
    let (_, dark, _) = dark_concepts-Dark time (run time ops new) cs i h in
    let (known, held) = run-After time i false [] ops new (refl, λ q. refl) in
    let e = held (λ a. true) ∙ is_held-any (holders i [] (succeeded time ops new)) in
    dark ∙ ground (arith, known, living-all i (run time ops new).tables.concept_actors, e)
