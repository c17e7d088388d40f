-- ===== src/Calibration/Events.antt =====
-- The rows of the calibration ledger as events.
use wyrtloom.Base.{
  ◌≡◌, refl, ap, ◌∙◌, ℕ, Bool, true, false, ◌&&◌, List, [], ◌∷◌, ◌++◌, map, keep, str_eq,
  Bool-cases, inl, inr,
}
use wyrtloom.F64.{F64}
use wyrtloom.Kanban.{ActorId}
use wyrtloom.Db.{Result, ok, Conn, decode_rows, and_then}
use wyrtloom.Db.Laws.{Reads, rows-Reads, bind-Reads, pure-Reads, Tells, Reads-Tells}
use wyrtloom.Calibration.{
  ConceptId, Calendar, LedgerError, prepare_failed, query_failed, row_read_failed, ProbeEvent,
  EventRow, as_number, to_bool, outcomes, row_of, event_at, read_event, export_actor,
  default_params, replay, mastery, BktParams,
}

to_bool-as_number : (b : Bool) → to_bool (as_number b) ≡ ok b
unfolding to_bool
to_bool-as_number true = refl
to_bool-as_number false = refl

decode-outcomes : (bs : List Bool) → decode_rows to_bool (map as_number bs) ≡ ok bs
unfolding decode_rows
decode-outcomes [] = refl
decode-outcomes (b ∷ bs) = rw (to_bool-as_number b) (rw (decode-outcomes bs) refl)

abbrev pub right : ProbeEvent → Bool
right e = e.was_correct

abbrev pub by : ActorId → ConceptId → ProbeEvent → Bool
by actor concept e = str_eq e.actor actor && str_eq e.concept concept

module _ (cal : Calendar) where
  abbrev pub rows_of : List ProbeEvent → List EventRow
  rows_of es = map (row_of cal) es

  read_event-row_of : (e : ProbeEvent) → read_event cal (row_of cal e) ≡ ok e
  unfolding read_event row_of event_at
  read_event-row_of e =
      rw (cal.parse-show_fixed e.at)
        (rw (to_bool-as_number e.predicted_correct) (rw (to_bool-as_number e.was_correct) refl))

  decode-events : (es : List ProbeEvent) → decode_rows (read_event cal) (rows_of es) ≡ ok es
  unfolding decode_rows
  decode-events [] = refl
  decode-events (e ∷ es) = rw (read_event-row_of e) (rw (decode-events es) refl)

  pub rows-append : (xs ys : List ProbeEvent) → rows_of (xs ++ ys) ≡ rows_of xs ++ rows_of ys
  rows-append [] ys = refl
  rows-append (x ∷ xs) ys = ap (λ l. row_of cal x ∷ l) (rows-append xs ys)

  pub keep-rows :
      (p : EventRow → Bool) (q : ProbeEvent → Bool) (es : List ProbeEvent)
      → ((e : ProbeEvent) → p (row_of cal e) ≡ q e)
      → keep p (rows_of es) ≡ rows_of (keep q es)
  keep-rows p q [] h = refl
  keep-rows p q (e ∷ es) h = elim (Bool-cases (q e)) [
    | inl k ↦ rw (h e) (rw k (ap (λ l. row_of cal e ∷ l) (keep-rows p q es h)))
    | inr k ↦ rw (h e) (rw k (keep-rows p q es h))
  ]

  pub theirs-row :
      (actor : ActorId) (e : ProbeEvent) → str_eq (row_of cal e).actor actor ≡ str_eq e.actor actor
  unfolding row_of
  theirs-row actor e = refl

  by-row :
      (actor : ActorId) (concept : ConceptId) (e : ProbeEvent)
      → (str_eq (row_of cal e).actor actor && str_eq (row_of cal e).concept concept)
        ≡ by actor concept e
  unfolding row_of
  by-row actor concept e = refl

  correct-rows :
      (es : List ProbeEvent)
      → map (λ (r : EventRow). r.correct) (rows_of es) ≡ map as_number (map right es)
  unfolding row_of
  correct-rows [] = refl
  correct-rows (e ∷ es) = ap (λ l. as_number e.was_correct ∷ l) (correct-rows es)

  pub export_actor-events :
      (actor : ActorId) (es : List ProbeEvent) (c : Conn (List EventRow))
      → c.tables ≡ rows_of es
      → Tells (export_actor cal actor) c (keep (λ e. str_eq e.actor actor) es)
  unfolding export_actor
  export_actor-events actor es c h =
      let theirs = λ (t : List EventRow). keep (λ r. str_eq r.actor actor) t in
      Reads-Tells (λ t. decode_rows (read_event cal) (theirs t)) c
        (keep (λ e. str_eq e.actor actor) es)
        (rows-Reads prepare_failed query_failed row_read_failed (read_event cal) theirs)
        (ap (λ t. decode_rows (read_event cal) (theirs t)) h
          ∙ ap (decode_rows (read_event cal)) (
              keep-rows (λ r. str_eq r.actor actor) (λ e. str_eq e.actor actor) es
                (theirs-row actor))
          ∙ decode-events (keep (λ e. str_eq e.actor actor) es))

outcome_rows : ActorId → ConceptId → List EventRow → List ℕ
outcome_rows actor concept t =
    map (λ (r : EventRow). r.correct)
      (keep (λ r. str_eq r.actor actor && str_eq r.concept concept) t)

outcomes-Reads :
    (actor : ActorId) (concept : ConceptId)
    → Reads (outcomes actor concept) (λ t. decode_rows to_bool (outcome_rows actor concept t))
unfolding outcomes outcome_rows
outcomes-Reads actor concept =
    rows-Reads prepare_failed query_failed row_read_failed to_bool (outcome_rows actor concept)

outcomes-events :
    (cal : Calendar) (actor : ActorId) (concept : ConceptId) (es : List ProbeEvent)
    → decode_rows to_bool (outcome_rows actor concept (map (row_of cal) es))
      ≡ ok (map right (keep (by actor concept) es))
unfolding outcome_rows
outcomes-events cal actor concept es =
    ap (λ rows. decode_rows to_bool (map (λ (r : EventRow). r.correct) rows))
      (keep-rows cal (λ r. str_eq r.actor actor && str_eq r.concept concept) (by actor concept) es
        (by-row cal actor concept))
    ∙ ap (decode_rows to_bool) (correct-rows cal (keep (by actor concept) es))
    ∙ decode-outcomes (map right (keep (by actor concept) es))

module _ (f : F64) where
  -- The mastery of a sequence of events, from the prior.
  abbrev pub mastery_of : ActorId → ConceptId → List ProbeEvent → f.Num
  mastery_of actor concept es =
      let ps : BktParams f = default_params f in
      replay f ps ps.p_l0 (map right (keep (by actor concept) es))

  pub mastery-events :
      (cal : Calendar) (actor : ActorId) (concept : ConceptId) (es : List ProbeEvent)
      (c : Conn (List EventRow))
      → c.tables ≡ map (row_of cal) es
      → Tells (mastery f actor concept) c (mastery_of actor concept es)
  unfolding mastery
  mastery-events cal actor concept es c h =
      let ps : BktParams f = default_params f in
      let given = λ (t : List EventRow). decode_rows to_bool (outcome_rows actor concept t) in
      let worked =
        λ (r : Result LedgerError (List Bool)). and_then r λ seen. ok (replay f ps ps.p_l0 seen) in
      Reads-Tells (λ t. worked (given t)) c (mastery_of actor concept es)
        (bind-Reads given (λ seen t. ok (replay f ps ps.p_l0 seen)) (outcomes-Reads actor concept)
          (λ seen. pure-Reads (replay f ps ps.p_l0 seen)))
        (ap worked (ap given h ∙ outcomes-events cal actor concept es))
