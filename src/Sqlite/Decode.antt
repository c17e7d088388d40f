-- ===== src/Sqlite/Decode.antt =====
-- What `get` reads: the task that the rows of an id stand for, and no other.
use wyrtloom.Base.{arith, ◌≡◌, refl, sym, ◌∙◌, subst, String, Option, none, some, List, [], ◌∷◌, ℕ}
use wyrtloom.Kanban.{
  TaskId, StateChange, BlockReason, Task, StorageFault, query_failed, prepare_failed, history_query,
  row_read,
}
use wyrtloom.Sqlite.Store.{
  TaskRow, HistoryRow, Tables, Board, M, ok, pure, ok_or, ◌>>=◌, statement, state_from_str, Codec,
}
use wyrtloom.Sqlite.Read.{
  find_row, rows_of, decode_change, decode_history, decode_reason, row_or_not_found, get_inner,
}
use wyrtloom.Sqlite.Runs.{Reads, Runs-fail, Runs-read, Reads-pure, Reads-ok_or, Reads-query}

module _ (k : Codec) where
  pub record IsChange (h : HistoryRow) (c : StateChange) : Type 0 where
    pub from_text : state_from_str h.from_state ≡ some c.from
    pub to_text : state_from_str h.to_state ≡ some c.to
    pub at_text : k.parse_time h.at ≡ some c.at
    pub same_actor : c.actor ≡ h.actor
    pub same_reason : c.reason ≡ h.reason

  abbrev pub Changes : List HistoryRow → List StateChange → Type 0
  Changes [] [] = Unit
  Changes [] (c ∷ cs) = ⊥
  Changes (h ∷ hs) [] = ⊥
  Changes (h ∷ hs) (c ∷ cs) = IsChange h c × Changes hs cs

  abbrev pub ReasonOf : Option String → Option BlockReason → Type 0
  ReasonOf none none = Unit
  ReasonOf none (some r) = ⊥
  ReasonOf (some s) none = ⊥
  ReasonOf (some s) (some r) = k.parse_reason s ≡ some r

  -- The rows of `id` stand for the task.
  pub record Decodes (t : Tables) (id : TaskId) (x : Task) : Type 0 where
    pub row : TaskRow
    pub found : find_row (k.show_id id) t.tasks ≡ some row
    pub same_id : x.id ≡ id
    pub same_title : x.title ≡ row.title
    pub same_actor : x.actor ≡ row.actor
    pub state_text : state_from_str row.state ≡ some x.state
    pub deps_text : k.parse_deps row.depends_on ≡ some x.depends_on
    pub reason_text : ReasonOf row.block_reason x.block_reason
    pub changes : Changes (rows_of (k.show_id id) t.history) x.history
    pub created_text : k.parse_time row.created_at ≡ some x.created_at

module _ (k : Codec) {S : Option Tables} {T : Tables} where
  decode_change-Reads : (h : HistoryRow) → Reads S T (decode_change k h) (IsChange k h)
  unfolding decode_change
  decode_change-Reads h = Runs-read _ _ _ (Reads-ok_or _ _ _ (λ a e. e)) λ from e.
      Runs-read _ _ _ (Reads-ok_or _ _ _ (λ a e. e)) λ to e'.
        Runs-read _ _ _ (Reads-ok_or _ _ _ (λ a e. e)) λ at e''. Reads-pure _ _ (record {
          from_text = e;
          to_text = e';
          at_text = e'';
          same_actor = refl;
          same_reason = refl;
        })

  decode_history-Reads : (hs : List HistoryRow) → Reads S T (decode_history k hs) (Changes k hs)
  unfolding decode_history
  decode_history-Reads [] = Reads-pure _ [] tt
  decode_history-Reads (h ∷ hs) =
      Runs-read (λ r. r ≡ h) _ _ (Reads-query _ _ _ refl)
        λ row er. Runs-read (IsChange k row) _ _ (decode_change-Reads row) λ c ec.
          Runs-read (Changes k hs) _ _ (decode_history-Reads hs)
            λ cs ecs. Reads-pure _ (c ∷ cs) (subst (λ r. IsChange k r c) er ec, ecs)

  decode_reason-Reads : (o : Option String) → Reads S T (decode_reason k o) (ReasonOf k o)
  unfolding decode_reason
  decode_reason-Reads none = Reads-pure _ none tt
  decode_reason-Reads (some s) =
      Runs-read _ _ _ (Reads-ok_or _ _ _ (λ a e. e)) λ r e. Reads-pure _ (some r) e

  row-Reads :
      (id : TaskId) (o : Option TaskRow) → Reads S T (row_or_not_found k id o) (λ r. o ≡ some r)
  row-Reads id none = Runs-fail _
  row-Reads id (some r) = Reads-pure _ r refl

  pub get_inner-Reads : (id : TaskId) → Reads S T (get_inner k id) (Decodes k T id)
  unfolding get_inner
  get_inner-Reads id =
      Runs-read (λ o. o ≡ find_row (k.show_id id) T.tasks) _ _ (Reads-query _ _ _ refl)
        λ o eo.
          Runs-read (λ r. o ≡ some r) _ _ (row-Reads id o)
            λ row er. Runs-read _ _ _ (Reads-ok_or _ _ _ (λ a e. e)) λ s es.
              Runs-read _ _ _ (Reads-ok_or _ _ _ (λ a e. e)) λ ds eds.
                Runs-read (ReasonOf k row.block_reason) _ _ (decode_reason-Reads row.block_reason)
                  λ br ebr.
                    Runs-read (λ _. Unit {0}) _ _ (Reads-query _ _ _ tt)
                      λ _ _.
                        Runs-read (λ hs. hs ≡ rows_of (k.show_id id) T.history) _ _
                          (Reads-query _ _ _ refl)
                          λ hs ehs. Runs-read (Changes k hs) _ _ (decode_history-Reads hs) λ cs ecs.
                            Runs-read _ _ _ (Reads-ok_or _ _ _ (λ a e. e)) λ at eat.
                              Reads-pure _ _ (record {
                                row = row;
                                found = sym eo ∙ er;
                                same_id = refl;
                                same_title = refl;
                                same_actor = refl;
                                state_text = es;
                                deps_text = eds;
                                reason_text = ebr;
                                changes = subst (λ z. Changes k z cs) ehs ecs;
                                created_text = eat;
                              })

-- A statement that SQLite accepts, and a chain of such.
pub bind-ok {ℓ κ} :
    {A : Type ℓ} {B : Type κ} (m : M A) (f : A → M B) (a : A) (b : Board)
    → m b ≡ (ok a, b)
    → (m >>= f) b ≡ f a b
unfolding ◌>>=◌
bind-ok m f a b e = rw e

pub query-ok {ℓ} :
    {A : Type ℓ} (e : ℕ → StorageFault) (g : Tables → A) (b : Board)
    → b.faults ≡ []
    → statement e (λ t. (g t, t)) b ≡ (ok (g b.tables), b)
unfolding statement
query-ok e g b h = ground arith

pub ok_or-ok {ℓ} :
    {A : Type ℓ} (o : Option A) (e : StorageFault) (a : A) (b : Board)
    → o ≡ some a
    → ok_or o e b ≡ (ok a, b)
unfolding ok_or pure
ok_or-ok o e a b h = rw h

module _ (k : Codec) (b : Board) (quiet : b.faults ≡ []) where
  decode_change-ok :
      (h : HistoryRow) (c : StateChange) → IsChange k h c → decode_change k h b ≡ (ok c, b)
  unfolding decode_change pure
  decode_change-ok h c i =
      bind-ok _ _ _ b (ok_or-ok _ _ _ b i.from_text)
      ∙ bind-ok _ _ _ b (ok_or-ok _ _ _ b i.to_text)
      ∙ bind-ok _ _ _ b (ok_or-ok _ _ _ b i.at_text)
      ∙ ground (arith, i.same_actor, i.same_reason)

  decode_history-ok :
      (hs : List HistoryRow) (cs : List StateChange)
      → Changes k hs cs
      → decode_history k hs b ≡ (ok cs, b)
  unfolding decode_history pure
  decode_history-ok [] [] i = refl
  decode_history-ok [] (c ∷ cs) i = absurd i
  decode_history-ok (h ∷ hs) [] i = absurd i
  decode_history-ok (h ∷ hs) (c ∷ cs) i =
      bind-ok _ _ _ b (query-ok row_read (λ _. h) b quiet)
      ∙ bind-ok _ _ _ b (decode_change-ok h c i.0)
      ∙ bind-ok _ _ _ b (decode_history-ok hs cs i.1)

  decode_reason-ok :
      (o : Option String) (r : Option BlockReason)
      → ReasonOf k o r
      → decode_reason k o b ≡ (ok r, b)
  unfolding decode_reason pure
  decode_reason-ok none none i = refl
  decode_reason-ok none (some r) i = absurd i
  decode_reason-ok (some s) none i = absurd i
  decode_reason-ok (some s) (some r) i = bind-ok _ _ _ b (ok_or-ok _ _ _ b i)

  row-ok :
      (id : TaskId) (o : Option TaskRow) (r : TaskRow)
      → o ≡ some r
      → row_or_not_found k id o b ≡ (ok r, b)
  unfolding pure
  row-ok id none r e = cc
  row-ok id (some x) r e = ground arith

  -- With SQLite accepting every statement, `get` returns the task that the rows stand for.
  pub get_inner-ok :
      (id : TaskId) (x : Task) → Decodes k b.tables id x → get_inner k id b ≡ (ok x, b)
  unfolding get_inner pure
  get_inner-ok id x d =
      bind-ok _ _ _ b (query-ok query_failed _ b quiet)
      ∙ bind-ok _ _ _ b (row-ok id _ d.row d.found)
      ∙ bind-ok _ _ _ b (ok_or-ok _ _ _ b d.state_text)
      ∙ bind-ok _ _ _ b (ok_or-ok _ _ _ b d.deps_text)
      ∙ bind-ok _ _ _ b (decode_reason-ok d.row.block_reason _ d.reason_text)
      ∙ bind-ok _ _ _ b (query-ok prepare_failed (λ _. tt) b quiet)
      ∙ bind-ok _ _ _ b (query-ok history_query _ b quiet)
      ∙ bind-ok _ _ _ b (decode_history-ok _ _ d.changes)
      ∙ bind-ok _ _ _ b (ok_or-ok _ _ _ b d.created_text)
      ∙ ground (arith, d.same_id, d.same_title, d.same_actor)
