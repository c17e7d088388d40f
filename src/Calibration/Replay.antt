-- ===== src/Calibration/Replay.antt =====
-- Sequences of calls on one calibration ledger.
use wyrtloom.Base.{
  ◌≡◌, refl, sym, ap, ◌∙◌, ℕ, Bool, true, false, not, Option, none, some, List, [], ◌∷◌, ◌++◌, map,
  keep, str_eq, if◌then◌else◌, Bool-cases, inl, inr,
}
use wyrtloom.F64.{F64}
use wyrtloom.Kanban.{ActorId, Timestamp}
use wyrtloom.Db.{Result, ok, err, Conn, statement}
use wyrtloom.Db.Laws.{statement-Writes, inside, Tells}
use wyrtloom.Calibration.{
  ConceptId, ℤ, pos, negsuc, Calendar, LedgerError, insert_failed, delete_failed, prune_failed,
  ProbeEvent, Events, init_schema, row_of, record_event, delete_actor, deleting, str_lt,
  prune_before, prune_older_than, export_actor, mastery,
}
use wyrtloom.Calibration.Events.{
  rows-append, keep-rows, theirs-row, export_actor-events, mastery_of, mastery-events,
}

-- The calls that write.
pub data Call : Type 0 where
  recording : ProbeEvent → Call
  deletion : ActorId → Call
  pruning : ℤ → Timestamp → Call

module _ (cal : Calendar) where
  -- A write whose number of rows is not looked at.
  abbrev pub ignoring : {A : Type 0} → Result LedgerError A × Conn Events → Bool × Conn Events
  ignoring (ok a, c) = (true, c)
  ignoring (err e, c) = (false, c)

  unfoldable pub call : Call → Conn Events → Bool × Conn Events
  call (recording e) c = ignoring (record_event cal e c)
  call (deletion a) c = ignoring (delete_actor a c)
  call (pruning days now) c = ignoring (prune_older_than cal days now c)

  unfoldable pub run : List Call → Conn Events → Conn Events
  run [] c = c
  run (op ∷ ops) c = run ops (call op c).1

  -- The calls that succeed.
  unfoldable pub succeeded : List Call → Conn Events → List Call
  succeeded [] c = []
  succeeded (op ∷ ops) c =
      if (call op c).0 then op ∷ succeeded ops (call op c).1 else succeeded ops (call op c).1

  -- What is kept of the events where a window is pruned: those not before the cut.
  abbrev pub retained : Option Timestamp → List ProbeEvent → List ProbeEvent
  retained none es = es
  retained (some cut) es = keep (λ e. not (str_lt (cal.show_fixed e.at) (cal.show_fixed cut))) es

  -- The events that a call leaves.
  abbrev pub after : List ProbeEvent → Call → List ProbeEvent
  after es (recording e) = es ++ e ∷ []
  after es (deletion a) = keep (λ e. not (str_eq e.actor a)) es
  after es (pruning (negsuc n) now) = es
  after es (pruning (pos days) now) = retained (cal.sub_days now days) es

  abbrev pub left_by : List ProbeEvent → List Call → List ProbeEvent
  left_by es [] = es
  left_by es (op ∷ ops) = left_by (after es op) ops

  -- What a call that answers b leaves of the rows of some events.
  Leaves : List ProbeEvent → Call → Bool × Conn Events → Type 0
  Leaves es op (b, c) = c.tables ≡ map (row_of cal) (if b then after es op else es)

  leaving :
      {A : Type 0} (es : List ProbeEvent) (op : Call) (x : Result LedgerError A × Conn Events)
      (t : Events) (u : Events)
      → t ≡ map (row_of cal) es
      → u ≡ map (row_of cal) (after es op)
      → ((a : A) → x.0 ≡ ok a → x.1.tables ≡ u)
      → ((d : LedgerError) → x.0 ≡ err d → x.1.tables ≡ t)
      → Leaves es op (ignoring x)
  unfolding Leaves
  leaving es op (ok a, c) t u h k f g = f a refl ∙ k
  leaving es op (err d, c) t u h k f g = g d refl ∙ h

  second :
      {A : Type 0} {p : A × Events} {a : A} {u : Events}
      → ◌≡◌ {A = Result LedgerError (A × Events)} (ok p) (ok (a, u))
      → u ≡ p.1
  second {A = A} h = ap (λ (q : A × Events). q.1) (sym (inside h))

  at-row :
      (cut : Timestamp) (e : ProbeEvent)
      → not (str_lt (row_of cal e).at (cal.show_fixed cut))
        ≡ not (str_lt (cal.show_fixed e.at) (cal.show_fixed cut))
  unfolding row_of
  at-row cut e = refl

  stated-Leaves :
      {A : Type 0} (es : List ProbeEvent) (op : Call) (e : LedgerError) (f : Events → A × Events)
      (c : Conn Events)
      → c.tables ≡ map (row_of cal) es
      → (f c.tables).1 ≡ map (row_of cal) (after es op)
      → Leaves es op (ignoring (statement e f c))
  stated-Leaves es op e f c h k =
      let (_, right, same) = statement-Writes e f c in
      leaving es op (statement e f c) c.tables (f c.tables).1 h k (λ a q. second (right a q)) same

  prune_before-Leaves :
      (es : List ProbeEvent) (days : ℕ) (now : Timestamp) (cut : Option Timestamp) (c : Conn Events)
      → cal.sub_days now days ≡ cut
      → c.tables ≡ map (row_of cal) es
      → Leaves es (pruning (pos days) now) (ignoring (prune_before cal cut c))
  unfolding prune_before Leaves
  prune_before-Leaves es days now none c e h = h
  prune_before-Leaves es days now (some cut) c e h =
      stated-Leaves es (pruning (pos days) now) prune_failed
        (deleting λ r. str_lt r.at (cal.show_fixed cut)) c h
        (ap (keep λ r. not (str_lt r.at (cal.show_fixed cut))) h
          ∙ keep-rows cal _ (λ e. not (str_lt (cal.show_fixed e.at) (cal.show_fixed cut))) es
              (at-row cut)
          ∙ ap (λ o. map (row_of cal) (retained o es)) (sym e))

  call-Leaves :
      (es : List ProbeEvent) (op : Call) (c : Conn Events)
      → c.tables ≡ map (row_of cal) es
      → Leaves es op (call op c)
  unfolding call record_event delete_actor prune_older_than Leaves
  call-Leaves es (recording e) c h =
      stated-Leaves es (recording e) insert_failed (λ t. (tt, t ++ row_of cal e ∷ [])) c h
        (ap (λ t. t ++ row_of cal e ∷ []) h ∙ sym (rows-append cal es (e ∷ [])))
  call-Leaves es (deletion a) c h =
      stated-Leaves es (deletion a) delete_failed (deleting λ r. str_eq r.actor a) c h (
        ap (keep λ r. not (str_eq r.actor a)) h
        ∙ keep-rows cal _ (λ e. not (str_eq e.actor a)) es (λ e. ap not (theirs-row cal a e)))
  call-Leaves es (pruning (negsuc n) now) c h = h
  call-Leaves es (pruning (pos days) now) c h =
      prune_before-Leaves es days now (cal.sub_days now days) c refl h

-- The rows after some calls are those of the events that the successful ones leave.
run-rows :
    (cal : Calendar) (es : List ProbeEvent) (ops : List Call) (c : Conn Events)
    → c.tables ≡ map (row_of cal) es
    → (run cal ops c).tables ≡ map (row_of cal) (left_by cal es (succeeded cal ops c))
unfolding run succeeded Leaves
run-rows cal es [] c h = h
run-rows cal es (op ∷ ops) c h =
    let x = call cal op c in
    let left = λ (b : Bool). map (row_of cal) (if b then after cal es op else es) in
    let step = call-Leaves cal es op c h in
    elim (Bool-cases x.0) [
      | inl e ↦ rw e (run-rows cal (after cal es op) ops x.1 (step ∙ ap left e))
      | inr e ↦ rw e (run-rows cal es ops x.1 (step ∙ ap left e))
    ]

-- After any calls on a new ledger, whichever SQLite refused: an export of an actor's events gives the
-- actor's among those that the successful calls leave, in the order of recording, where a deletion
-- takes away all of one actor's and a pruning those before the cut; or it fails, and then the script of
-- SQLite's answers had not run out.
pub run-export_actor :
    (cal : Calendar) (ops : List Call) (faults : List Bool) (actor : ActorId)
    → let new : Conn Events = record { tables = init_schema; faults = faults } in
      Tells
        (export_actor cal actor)
        (run cal ops new)
        (keep (λ e. str_eq e.actor actor) (left_by cal [] (succeeded cal ops new)))
unfolding init_schema
run-export_actor cal ops faults actor =
    let new : Conn Events = record { tables = init_schema; faults = faults } in
    export_actor-events cal actor (left_by cal [] (succeeded cal ops new)) (run cal ops new)
      (run-rows cal [] ops new refl)

-- After any calls on a new ledger, whichever SQLite refused: an actor's mastery of a concept is the
-- update of the prior by the outcomes, in order, of the actor's events on the concept that the
-- successful calls leave; or its reading fails, and then the script of SQLite's answers had not run
-- out.
pub run-mastery :
    (f : F64) (cal : Calendar) (ops : List Call) (faults : List Bool) (actor : ActorId)
    (concept : ConceptId)
    → let new : Conn Events = record { tables = init_schema; faults = faults } in
      Tells
        (mastery f actor concept)
        (run cal ops new)
        (mastery_of f actor concept (left_by cal [] (succeeded cal ops new)))
unfolding init_schema
run-mastery f cal ops faults actor concept =
    let new : Conn Events = record { tables = init_schema; faults = faults } in
    mastery-events f cal actor concept (left_by cal [] (succeeded cal ops new)) (run cal ops new)
      (run-rows cal [] ops new refl)
