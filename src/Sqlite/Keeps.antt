-- ===== src/Sqlite/Keeps.antt =====
-- The writes of the SQLite board and the invariant of its tables.
use wyrtloom.Base.{
  ◌≡◌, refl, sym, ap, ◌∙◌, subst, inl, inr, arith, Bool, true, false, String, Option, some, List,
  [], ◌∷◌, ◌++◌, str_eq, str_eq_iff, if◌then◌else◌, Bool-cases, All, All-append,
}
use wyrtloom.Kanban.{
  TaskId, ActorId, Timestamp, BlockReason, Task, TaskState, backlog, blocked, is_legal_transition,
}
use wyrtloom.Sqlite.Store.{TaskRow, HistoryRow, Tables, Codec, state_from_str, state_name}
use wyrtloom.Sqlite.Read.{find_row, rows_of}
use wyrtloom.Sqlite.Write.{has_row, update_rows, claim_rows, change_row, moved_row, blocked_row}
use wyrtloom.Sqlite.Decode.{Decodes}
use wyrtloom.Sqlite.Moves.{Moved, Halted}
use wyrtloom.Sqlite.Trail.{
  Trail, state_from_str-state_name, has_row-append, has_row-update, has_row-claim,
}
use wyrtloom.Sqlite.Sound.{RowIsSound, ChangeIsSound, IsSound, grow, decoded_state, grown_trail}

has_row_found :
    (key : String) (rs : List TaskRow) {r : TaskRow}
    → find_row key rs ≡ some r
    → has_row key rs ≡ true
unfolding find_row
has_row_found key [] e = cc
has_row_found key (x ∷ rs) {r} e = ground (arith, has_row_found key rs {r = r})

pub All-map {ℓ κ} :
    {A : Type ℓ} (P Q : A → Type κ) (xs : List A) → ((a : A) → P a → Q a) → All P xs → All Q xs
All-map P Q [] h a = tt
All-map P Q (x ∷ xs) h a = (h x a.0, All-map P Q xs h a.1)

pub state_from_str_blocked : state_from_str "Blocked" ≡ some blocked
unfolding state_from_str
state_from_str_blocked = refl

pub state_from_str_backlog : state_from_str "Backlog" ≡ some backlog
unfolding state_from_str
state_from_str_backlog = refl

true≢false : true ≡ false → ⊥
true≢false e = cc

module _ (k : Codec) where
  -- The changes still have their tasks where no id has gone.
  changes_keep :
      (rs rs' : List TaskRow) (hist : List HistoryRow)
      → ((key : String) → has_row key rs ≡ true → has_row key rs' ≡ true)
      → All (ChangeIsSound k rs) hist
      → All (ChangeIsSound k rs') hist
  changes_keep rs rs' hist h a = All-map _ _ hist (λ c p. (h c.task_id p.0, p.1)) a

  module _ (t : Tables) (id : TaskId) (x : Task) (to : TaskState) (h : HistoryRow) (s : IsSound k t)
      (d : Decodes k t id x) (l : is_legal_transition x.state to ≡ true)
      (key : h.task_id ≡ k.show_id id) (from_name : h.from_state ≡ state_name x.state)
      (to_name : h.to_state ≡ state_name to) where
    moved_trail :
        (r : TaskRow)
        → str_eq r.id h.task_id ≡ true
        → RowIsSound k t.history r
        → Trail backlog (rows_of r.id (t.history ++ h ∷ [])) to
    moved_trail r e v =
        grown_trail k t.history h r e
          (subst (λ z. Trail backlog (rows_of r.id t.history) z)
            (decoded_state k t id x s d r (rw (← key) e) v) v.trail)
          from_name to_name l

    moved_row-RowIsSound :
        (r : TaskRow)
        → str_eq r.id h.task_id ≡ true
        → RowIsSound k t.history r
        → RowIsSound k (t.history ++ h ∷ []) (moved_row to r)
    unfolding moved_row
    moved_row-RowIsSound r e v = record {
      id = v.id;
      state = to;
      depends_on = v.depends_on;
      block_reason = v.block_reason;
      created_at = v.created_at;
      id_text = v.id_text;
      state_text = state_from_str-state_name to;
      deps_text = v.deps_text;
      reason_text = v.reason_text;
      created_text = v.created_text;
      trail = moved_trail r e v;
    }

    -- The history with the new change, over rows that have kept their ids.
    grown_changes :
        (f : TaskRow → TaskRow) (now : Timestamp)
        → ((r : TaskRow) → (f r).id ≡ r.id)
        → h.at ≡ k.show_time now
        → All (ChangeIsSound k (update_rows h.task_id f t.tasks)) (t.history ++ h ∷ [])
    grown_changes f now same at =
        All-append _ t.history (h ∷ [])
          (changes_keep t.tasks _ t.history (λ i p. has_row-update i h.task_id f t.tasks same ∙ p)
            s.changes)
          (
            (
              has_row-update h.task_id h.task_id f t.tasks same
                  ∙ has_row_found h.task_id t.tasks {r = d.row} (rw key d.found),
              (now, rw at (k.parse-show_time now)),
            ),
            tt,
          )

    moved_tables-IsSound :
        (now : Timestamp)
        → h.at ≡ k.show_time now
        → IsSound k (record t {
          tasks = update_rows h.task_id (moved_row to) t.tasks;
          history = t.history ++ h ∷ [];
        })
    unfolding moved_row
    moved_tables-IsSound now at = record {
      rows = grow k t.history h (moved_row to) t.tasks moved_row-RowIsSound s.rows;
      changes = grown_changes (moved_row to) now (λ r. refl) at;
    }

  -- A transition keeps the tables sound.
  pub Moved-IsSound :
      (t t' : Tables) (id : TaskId) (to : TaskState) (actor : ActorId) (reason : Option String)
      (now : Timestamp)
      → IsSound k t
      → Moved k t id to actor reason now t'
      → IsSound k t'
  Moved-IsSound t t' id to actor reason now s m = rw m.tables (
      moved_tables-IsSound t id m.before to (change_row k id m.before.state to actor now reason) s
        m.decoded m.legal refl refl refl now refl)

  blocked_row-RowIsSound :
      (t : Tables) (id : TaskId) (x : Task) (h : HistoryRow) (reason : BlockReason) (text : String)
      → IsSound k t
      → Decodes k t id x
      → is_legal_transition x.state blocked ≡ true
      → h.task_id ≡ k.show_id id
      → h.from_state ≡ state_name x.state
      → h.to_state ≡ state_name blocked
      → k.show_reason reason ≡ some text
      → (r : TaskRow) → str_eq r.id h.task_id ≡ true
      → RowIsSound k t.history r
      → RowIsSound k (t.history ++ h ∷ []) (blocked_row text r)
  unfolding blocked_row
  blocked_row-RowIsSound t id x h reason text s d l key f g shown r e v = record {
    id = v.id;
    state = blocked;
    depends_on = v.depends_on;
    block_reason = some reason;
    created_at = v.created_at;
    id_text = v.id_text;
    state_text = state_from_str_blocked;
    deps_text = v.deps_text;
    reason_text = k.parse-show_reason reason text shown;
    created_text = v.created_text;
    trail = moved_trail t id x blocked h s d l key f g r e v;
  }

  -- So does `block`.
  pub Halted-IsSound :
      (t t' : Tables) (id : TaskId) (actor : ActorId) (reason : BlockReason) (now : Timestamp)
      → IsSound k t
      → Halted k t id actor reason now t'
      → IsSound k t'
  unfolding blocked_row
  Halted-IsSound t t' id actor reason now s m =
      let h : HistoryRow = change_row k id m.before.state blocked actor now (some reason.reason) in
      rw m.tables (record {
        rows =
            grow k t.history h (blocked_row m.text) t.tasks
              (blocked_row-RowIsSound t id m.before h reason m.text s m.decoded m.legal refl refl
                refl m.text_of)
              s.rows;
        changes =
            grown_changes t id m.before blocked h s m.decoded m.legal refl refl refl
              (blocked_row m.text) now (λ r. refl) refl;
      })

  claimed-RowIsSound :
      (hist : List HistoryRow) (worker : ActorId) (r : TaskRow) (c : Bool)
      → RowIsSound k hist r
      → RowIsSound k hist (if c then record r { actor = some worker } else r)
  claimed-RowIsSound hist worker r false v = v
  claimed-RowIsSound hist worker r true v = record {
    id = v.id;
    state = v.state;
    depends_on = v.depends_on;
    block_reason = v.block_reason;
    created_at = v.created_at;
    id_text = v.id_text;
    state_text = v.state_text;
    deps_text = v.deps_text;
    reason_text = v.reason_text;
    created_text = v.created_text;
    trail = v.trail;
  }

  -- A claim changes the actor of rows, which no part of the invariant reads.
  claim_rows-RowIsSound :
      (key worker : String) (hist : List HistoryRow) (rs : List TaskRow)
      → All (RowIsSound k hist) rs
      → All (RowIsSound k hist) (claim_rows key worker rs)
  unfolding claim_rows
  claim_rows-RowIsSound key worker hist [] a = tt
  claim_rows-RowIsSound key worker hist (r ∷ rs) a =
      (claimed-RowIsSound hist worker r _ a.0, claim_rows-RowIsSound key worker hist rs a.1)

  pub claim_rows-IsSound :
      (key worker : String) (t : Tables)
      → IsSound k t
      → IsSound k (record t { tasks = claim_rows key worker t.tasks })
  claim_rows-IsSound key worker t s = record {
    rows = claim_rows-RowIsSound key worker t.history t.tasks s.rows;
    changes =
        changes_keep t.tasks _ t.history (λ i p. has_row-claim i key worker t.tasks ∙ p) s.changes;
  }

  -- An id that no task has is in no row of history.
  rows_of_new :
      (key : String) (rs : List TaskRow) (hist : List HistoryRow)
      → has_row key rs ≡ false
      → All (ChangeIsSound k rs) hist
      → rows_of key hist ≡ []
  unfolding rows_of
  rows_of_new key rs [] n a = refl
  rows_of_new key rs (h ∷ hist) n a = elim (Bool-cases (str_eq h.task_id key)) [
    | inl e ↦
        absurd
          (true≢false (sym a.0.0 ∙ ap (λ i. has_row i rs) ((str_eq_iff h.task_id key).0 e) ∙ n))
    | inr e ↦ rw e (rows_of_new key rs hist n a.1)
  ]

  -- A new task, with an id that no task has.
  pub insert-IsSound :
      (t : Tables) (r : TaskRow)
      → IsSound k t
      → has_row r.id t.tasks ≡ false
      → ((hist : List HistoryRow) → rows_of r.id hist ≡ [] → RowIsSound k hist r)
      → IsSound k (record t { tasks = t.tasks ++ r ∷ [] })
  insert-IsSound t r s n v = record {
    rows =
        All-append _ t.tasks (r ∷ []) s.rows
          (v t.history (rows_of_new r.id t.tasks t.history n s.changes), tt);
    changes =
        changes_keep t.tasks _ t.history (λ i p. ground (arith, has_row-append i t.tasks r))
          s.changes;
  }
