-- ===== src/Sqlite/Sound.antt =====
-- The invariant of the tables: every row can be decoded and has its audit trail, and no history is
-- without its task.
use wyrtloom.Base.{
  ◌≡◌, sym, ◌∙◌, subst, inl, inr, arith, true, false, String, Option, some, List, [], ◌∷◌, ◌++◌,
  str_eq, str_eq_iff, Bool-cases, All,
}
use wyrtloom.Kanban.{TaskId, Timestamp, BlockReason, Task, TaskState, backlog, is_legal_transition}
use wyrtloom.Sqlite.Store.{TaskRow, HistoryRow, Tables, Codec, state_from_str, state_name}
use wyrtloom.Sqlite.Read.{find_row, rows_of}
use wyrtloom.Sqlite.Write.{has_row, update_rows}
use wyrtloom.Sqlite.Decode.{Decodes, ReasonOf}
use wyrtloom.Sqlite.Trail.{
  Trail, Trail-snoc, Trail-end, state_from_str-state_name, rows_of-append_self, rows_of-append_ne,
}

module _ (k : Codec) where
  pub record RowIsSound (hist : List HistoryRow) (r : TaskRow) : Type 0 where
    pub id : TaskId
    pub state : TaskState
    pub depends_on : List TaskId
    pub block_reason : Option BlockReason
    pub created_at : Timestamp
    pub id_text : r.id ≡ k.show_id id
    pub state_text : state_from_str r.state ≡ some state
    pub deps_text : k.parse_deps r.depends_on ≡ some depends_on
    pub reason_text : ReasonOf k r.block_reason block_reason
    pub created_text : k.parse_time r.created_at ≡ some created_at
    pub trail : Trail backlog (rows_of r.id hist) state

  abbrev pub ChangeIsSound : List TaskRow → HistoryRow → Type 0
  ChangeIsSound rs h =
      (has_row h.task_id rs ≡ true) × ((t : Timestamp) × (k.parse_time h.at ≡ some t))

  pub record IsSound (t : Tables) : Type 0 where
    pub rows : All (RowIsSound t.history) t.tasks
    pub changes : All (ChangeIsSound t.tasks) t.history

  -- A row found by its key is sound, and has that key.
  pub find_row_sound :
      (key : String) (hist : List HistoryRow) (rs : List TaskRow) {r : TaskRow}
      → All (RowIsSound hist) rs
      → find_row key rs ≡ some r
      → RowIsSound hist r × (r.id ≡ key)
  unfolding find_row
  find_row_sound key hist [] a e = cc
  find_row_sound key hist (x ∷ rs) {r} a e = elim (Bool-cases (str_eq x.id key)) [
    | inl h ↦
        let same : x ≡ r = ground (arith, h) in
        subst (λ z. RowIsSound hist z × (z.id ≡ key)) same (a.0, (str_eq_iff x.id key).0 h)
    | inr h ↦ find_row_sound key hist rs a.1 (ground (arith, h))
  ]

  -- A row with a new history, whose trail is given anew.
  pub with_trail :
      {hist : List HistoryRow} (hist' : List HistoryRow) {r : TaskRow} (v : RowIsSound hist r)
      → Trail backlog (rows_of r.id hist') v.state
      → RowIsSound hist' r
  with_trail hist' v w = record {
    id = v.id;
    state = v.state;
    depends_on = v.depends_on;
    block_reason = v.block_reason;
    created_at = v.created_at;
    id_text = v.id_text;
    state_text = v.state_text;
    deps_text = v.deps_text;
    reason_text = v.reason_text;
    created_text = v.created_text;
    trail = w;
  }

  -- A change of another task leaves a row's trail alone.
  other_row :
      (hist : List HistoryRow) (h : HistoryRow) (r : TaskRow)
      → str_eq r.id h.task_id ≡ false
      → RowIsSound hist r
      → RowIsSound (hist ++ h ∷ []) r
  other_row hist h r ne v = with_trail (hist ++ h ∷ []) v (
      rw
        (rows_of-append_ne r.id hist h
          (ground (arith, str_eq_iff r.id h.task_id, str_eq_iff h.task_id r.id)))
        v.trail)

  -- Rows whose trail grew by the change that their own move recorded.
  pub grow :
      (hist : List HistoryRow) (h : HistoryRow) (f : TaskRow → TaskRow) (rs : List TaskRow)
      → ((r : TaskRow)
          → str_eq r.id h.task_id ≡ true
          → RowIsSound hist r
          → RowIsSound (hist ++ h ∷ []) (f r))
      → All (RowIsSound hist) rs
      → All (RowIsSound (hist ++ h ∷ [])) (update_rows h.task_id f rs)
  unfolding update_rows
  grow hist h f [] g a = tt
  grow hist h f (r ∷ rs) g a = elim (Bool-cases (str_eq r.id h.task_id)) [
    | inl e ↦ (rw e (g r e a.0), grow hist h f rs g a.1)
    | inr e ↦ (rw e (other_row hist h r e a.0), grow hist h f rs g a.1)
  ]

  -- Where the state of a task was read, every row with its id is in that state.
  pub decoded_state :
      (t : Tables) (id : TaskId) (x : Task)
      → IsSound t
      → Decodes k t id x
      → (r : TaskRow) → str_eq r.id (k.show_id id) ≡ true
      → (v : RowIsSound t.history r) → v.state ≡ x.state
  decoded_state t id x s d r e v =
      let (w, same) = find_row_sound (k.show_id id) t.history t.tasks s.rows d.found in
      let key : r.id ≡ k.show_id id = (str_eq_iff r.id (k.show_id id)).0 e in
      let one : v.state ≡ w.state =
        Trail-end v.trail
          (subst (λ i. Trail backlog (rows_of i t.history) w.state) (same ∙ sym key) w.trail) in
      ground (arith, one, w.state_text, d.state_text)

  -- The trail after the move that was recorded.
  pub grown_trail :
      (hist : List HistoryRow) (h : HistoryRow) (r : TaskRow) {from to : TaskState}
      → str_eq r.id h.task_id ≡ true
      → Trail backlog (rows_of r.id hist) from
      → h.from_state ≡ state_name from
      → h.to_state ≡ state_name to
      → is_legal_transition from to ≡ true
      → Trail backlog (rows_of r.id (hist ++ h ∷ [])) to
  grown_trail hist h r {from} {to} e w f g l =
      rw (rows_of-append_self r.id hist h (sym ((str_eq_iff r.id h.task_id).0 e))) (
        Trail-snoc h w (rw f (state_from_str-state_name from)) (rw g (state_from_str-state_name to))
          l)
