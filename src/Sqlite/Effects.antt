-- ===== src/Sqlite/Effects.antt =====
-- What `get` returns after a transition or a block, of the task itself and of the others.
use wyrtloom.Base.{
  ◌≡◌, ◌≢◌, ◌⊎◌, refl, ap, ◌∙◌, subst, inl, inr, arith, true, false, String, Option, none, some,
  List, [], ◌∷◌, ◌++◌, str_eq, str_eq_iff, Bool-cases,
}
use wyrtloom.Kanban.{
  TaskId, ActorId, Timestamp, BlockReason, Task, TaskState, StateChange, blocked, ready,
  is_legal_transition,
}
use wyrtloom.Sqlite.Store.{TaskRow, HistoryRow, Tables, Board, Codec, ok}
use wyrtloom.Sqlite.Read.{find_row, get_inner}
use wyrtloom.Sqlite.Write.{update_rows, change_row, moved_row, blocked_row, transition, block}
use wyrtloom.Sqlite.Decode.{Decodes, Changes, IsChange, get_inner-ok}
use wyrtloom.Sqlite.Moves.{Moved, Halted, DepsDone, transition-Settled, block-Settled}
use wyrtloom.Sqlite.Atomic.{Settled}
use wyrtloom.Sqlite.Trail.{state_from_str-state_name, rows_of-append_self, rows_of-append_ne}
use wyrtloom.Sqlite.Keeps.{state_from_str_blocked}

module _ (key : String) (f : TaskRow → TaskRow) (same : (r : TaskRow) → (f r).id ≡ r.id) where
  find_row-update_self :
      (rs : List TaskRow) (r : TaskRow)
      → find_row key rs ≡ some r
      → find_row key (update_rows key f rs) ≡ some (f r)
  unfolding find_row update_rows
  find_row-update_self [] r e = cc
  find_row-update_self (x ∷ rs) r e = ground (arith, same x, find_row-update_self rs r)

  find_row-update_ne :
      (other : String) (rs : List TaskRow)
      → str_eq key other ≡ false
      → find_row other (update_rows key f rs) ≡ find_row other rs
  unfolding find_row update_rows
  find_row-update_ne other [] n = refl
  find_row-update_ne other (x ∷ rs) n =
      ground (arith, same x, str_eq_iff x.id key, find_row-update_ne other rs n)

module _ (k : Codec) where
  Changes-append :
      (hs : List HistoryRow) (cs : List StateChange) (h : HistoryRow) (c : StateChange)
      → Changes k hs cs
      → IsChange k h c
      → Changes k (hs ++ h ∷ []) (cs ++ c ∷ [])
  Changes-append [] [] h c a i = (i, tt)
  Changes-append [] (_ ∷ _) h c a i = absurd a
  Changes-append (_ ∷ _) [] h c a i = absurd a
  Changes-append (x ∷ hs) (y ∷ cs) h c a i = (a.0, Changes-append hs cs h c a.1 i)

  show_id-injective : (i j : TaskId) → k.show_id i ≡ k.show_id j → i ≡ j
  show_id-injective i j e = cc (k.parse-show_id i, k.parse-show_id j, ap k.parse_id e)

  show_id-ne : (i j : TaskId) → i ≢ j → str_eq (k.show_id i) (k.show_id j) ≡ false
  show_id-ne i j n = elim (Bool-cases (str_eq (k.show_id i) (k.show_id j))) [
    | inl e ↦ absurd (n (show_id-injective i j ((str_eq_iff _ _).0 e)))
    | inr e ↦ e
  ]

  abbrev change : Task → TaskState → ActorId → Option String → Timestamp → StateChange
  change x to actor reason now = record {
    from = x.state;
    to = to;
    actor = actor;
    at = now;
    reason = reason;
  }

  change-IsChange :
      (id : TaskId) (x : Task) (to : TaskState) (actor : ActorId) (reason : Option String)
      (now : Timestamp)
      → IsChange k (change_row k id x.state to actor now reason) (change x to actor reason now)
  change-IsChange id x to actor reason now = record {
    from_text = state_from_str-state_name x.state;
    to_text = state_from_str-state_name to;
    at_text = k.parse-show_time now;
    same_actor = refl;
    same_reason = refl;
  }

  -- The task after a transition: the new state, no actor, one more change, all else as before.
  abbrev pub moved_task : Task → TaskState → ActorId → Option String → Timestamp → Task
  moved_task x to actor reason now = record x {
    state = to;
    actor = none;
    history = x.history ++ change x to actor reason now ∷ [];
  }

  -- The task after a block: blocked, with the reason, its actor kept.
  abbrev pub halted_task : Task → ActorId → BlockReason → Timestamp → Task
  halted_task x actor reason now = record x {
    state = blocked;
    block_reason = some reason;
    history = x.history ++ change x blocked actor (some reason.reason) now ∷ [];
  }

  Moved-Decodes :
      {t t' : Tables} {id : TaskId} {to : TaskState} {actor : ActorId} {reason : Option String}
      {now : Timestamp} (m : Moved k t id to actor reason now t')
      → Decodes k t' id (moved_task m.before to actor reason now)
  unfolding moved_row
  Moved-Decodes {t} {t'} {id} {to} {actor} {reason} {now} m =
      let d = m.decoded in
      rw m.tables (record {
        row = moved_row to d.row;
        found =
            find_row-update_self (k.show_id id) (moved_row to) (λ r. refl) t.tasks d.row d.found;
        same_id = d.same_id;
        same_title = d.same_title;
        same_actor = refl;
        state_text = state_from_str-state_name to;
        deps_text = d.deps_text;
        reason_text = d.reason_text;
        changes =
            rw
              (rows_of-append_self (k.show_id id) t.history
                (change_row k id m.before.state to actor now reason) refl)
              (Changes-append _ _ _ _ d.changes (change-IsChange id m.before to actor reason now));
        created_text = d.created_text;
      })

  Halted-Decodes :
      {t t' : Tables} {id : TaskId} {actor : ActorId} {reason : BlockReason} {now : Timestamp}
      (m : Halted k t id actor reason now t')
      → Decodes k t' id (halted_task m.before actor reason now)
  unfolding blocked_row
  Halted-Decodes {t} {t'} {id} {actor} {reason} {now} m =
      let d = m.decoded in
      rw m.tables (record {
        row = blocked_row m.text d.row;
        found =
            find_row-update_self (k.show_id id) (blocked_row m.text) (λ r. refl) t.tasks d.row
              d.found;
        same_id = d.same_id;
        same_title = d.same_title;
        same_actor = d.same_actor;
        state_text = state_from_str_blocked;
        deps_text = d.deps_text;
        reason_text = k.parse-show_reason reason m.text m.text_of;
        changes =
            rw
              (rows_of-append_self (k.show_id id) t.history
                (change_row k id m.before.state blocked actor now (some reason.reason)) refl)
              (Changes-append _ _ _ _ d.changes
                (change-IsChange id m.before blocked actor (some reason.reason) now));
        created_text = d.created_text;
      })

  -- Another task reads as before, when one row and its history have changed.
  other-Decodes :
      (t : Tables) (id other : TaskId) (f : TaskRow → TaskRow) (h : HistoryRow) (y : Task)
      → ((r : TaskRow) → (f r).id ≡ r.id)
      → h.task_id ≡ k.show_id id
      → id ≢ other
      → Decodes k t other y
      → Decodes k
          (record { tasks = update_rows (k.show_id id) f t.tasks; history = t.history ++ h ∷ [] })
          other
          y
  other-Decodes t id other f h y same key n d = record {
    row = d.row;
    found =
        find_row-update_ne (k.show_id id) f same (k.show_id other) t.tasks (show_id-ne id other n)
        ∙ d.found;
    same_id = d.same_id;
    same_title = d.same_title;
    same_actor = d.same_actor;
    state_text = d.state_text;
    deps_text = d.deps_text;
    reason_text = d.reason_text;
    changes =
        rw (rows_of-append_ne (k.show_id other) t.history h (rw key (show_id-ne id other n)))
          d.changes;
    created_text = d.created_text;
  }

  module _ (id : TaskId) (to : TaskState) (actor : ActorId) (reason : Option String)
      (now : Timestamp) (b b' c : Board)
      (moved : transition k id to actor reason now b ≡ (ok tt, b')) (later : c.tables ≡ b'.tables)
      (quiet : c.faults ≡ []) where
    transition-Moved : Moved k b.tables id to actor reason now c.tables
    transition-Moved =
        let s =
          subst (Settled (λ _. Moved k b.tables id to actor reason now) b) moved
            (transition-Settled k id to actor reason now b) in
        rw later s.0

    -- After a transition that returned, on a board that still has its tables and refuses no
    -- statement, `get` returns the task as it was, but in the new state, with no actor and with
    -- that one change at the end of its history. The move was legal, and a move to ready found
    -- every dependency done.
    pub transition-get :
        (x : Task) × Decodes k b.tables id x
        × (is_legal_transition x.state to ≡ true)
        × ((to ≢ ready) ⊎ DepsDone k b.tables x.depends_on)
        × (get_inner k id c ≡ (ok (moved_task x to actor reason now), c))
    transition-get =
        let m = transition-Moved in
        (m.before, m.decoded, m.legal, m.deps, get_inner-ok k c quiet id _ (Moved-Decodes m))

    -- After a transition of one task that returned, on a board that still has its tables and refuses no
    -- statement, every other task that could be read before is read the same.
    pub transition-get_other :
        (other : TaskId) (y : Task)
        → id ≢ other
        → Decodes k b.tables other y
        → get_inner k other c ≡ (ok y, c)
    unfolding moved_row
    transition-get_other other y n d =
        let m = transition-Moved in
        get_inner-ok k c quiet other y (
          rw m.tables (
            other-Decodes b.tables id other (moved_row to)
              (change_row k id m.before.state to actor now reason) y (λ r. refl) refl n d))

  -- After a block that returned, on a board that still has its tables and refuses no statement, `get`
  -- returns the task as it was, but blocked, with the given reason, its actor kept and that one change
  -- at the end of its history. The task could be read before, and the move to blocked was legal.
  pub block-get :
      (id : TaskId) (actor : ActorId) (reason : BlockReason) (now : Timestamp) (b b' c : Board)
      → block k id actor reason now b ≡ (ok tt, b')
      → c.tables ≡ b'.tables
      → c.faults ≡ []
      → (x : Task) × Decodes k b.tables id x
        × (is_legal_transition x.state blocked ≡ true)
        × (get_inner k id c ≡ (ok (halted_task x actor reason now), c))
  block-get id actor reason now b b' c e later quiet =
      let s =
        subst (Settled (λ _. Halted k b.tables id actor reason now) b) e
          (block-Settled k id actor reason now b) in
      let m : Halted k b.tables id actor reason now c.tables = rw later s.0 in
      (m.before, m.decoded, m.legal, get_inner-ok k c quiet id _ (Halted-Decodes m))
