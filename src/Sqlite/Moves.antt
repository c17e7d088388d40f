-- ===== src/Sqlite/Moves.antt =====
-- What `transition` and `block` do to the tables.
use wyrtloom.Base.{
  ◌≡◌, ◌≢◌, ◌⊎◌, inl, inr, refl, Option, some, arith, Bool, true, ◌&&◌, not, String, List, [], ◌∷◌,
  ◌++◌, All, if◌then◌else◌,
}
use wyrtloom.Kanban.{
  TaskId, ActorId, Timestamp, TaskState, ready, done, blocked, state_eq, is_legal_transition,
  BlockReason, Task, KanbanError,
}
use wyrtloom.Kanban.Paths.{state_eq_iff}
use wyrtloom.Sqlite.Store.{Tables, Board, pure, fail, Codec}
use wyrtloom.Sqlite.Write.{
  update_rows, moved_row, blocked_row, deps_done, is_empty, append_history, change_row,
  transition_inner, transition, block_inner, block,
}
use wyrtloom.Sqlite.Runs.{
  Runs, Reads, Runs-if, Runs-mono, Runs-fail, Runs-read, Runs-write, Runs-statement, Reads-pure,
  Reads-ok_or,
}
use wyrtloom.Sqlite.Decode.{Decodes, get_inner-Reads}
use wyrtloom.Sqlite.Atomic.{Settled, transaction-Settled}

module _ (k : Codec) where
  -- Every dependency is a task of the board that is done.
  abbrev pub DepsDone : Tables → List TaskId → Type 0
  DepsDone T ds = All (λ d. (x : Task) × Decodes k T d x × (x.state ≡ done)) ds

  -- The task was decoded, the move is legal, a move to ready finds every dependency done; the row
  -- has the new state and no actor, and one row of history is added.
  pub record Moved (T : Tables) (id : TaskId) (to : TaskState) (actor : ActorId)
      (reason : Option String) (now : Timestamp) (T' : Tables) : Type 0 where
    pub before : Task
    pub decoded : Decodes k T id before
    pub legal : is_legal_transition before.state to ≡ true
    pub deps : (to ≢ ready) ⊎ DepsDone T before.depends_on
    pub tables : T' ≡ record T {
      tasks = update_rows (k.show_id id) (moved_row to) T.tasks;
      history = T.history ++ change_row k id before.state to actor now reason ∷ [];
    }

  -- As `Moved`, into the state blocked: the row has the reason too, and keeps its actor.
  pub record Halted (T : Tables) (id : TaskId) (actor : ActorId) (reason : BlockReason)
      (now : Timestamp) (T' : Tables) : Type 0 where
    pub before : Task
    pub text : String
    pub decoded : Decodes k T id before
    pub legal : is_legal_transition before.state blocked ≡ true
    pub text_of : k.show_reason reason ≡ some text
    pub tables : T' ≡ record T {
      tasks = update_rows (k.show_id id) (blocked_row text) T.tasks;
      history =
          T.history ++ change_row k id before.state blocked actor now (some reason.reason) ∷ [];
    }

  module _ {S : Option Tables} {T : Tables} where
    guard-Reads :
        (b : Bool) (e : KanbanError) → Reads {0} S T (if b then pure tt else fail e) (λ _. b ≡ true)
    guard-Reads b e = Runs-if b _ _ (λ h. Reads-pure _ tt h) (λ _. Runs-fail e)

    deps_done-Reads : (ds : List TaskId) → Reads S T (deps_done k ds) (λ _. DepsDone T ds)
    unfolding deps_done
    deps_done-Reads [] = Reads-pure _ tt tt
    deps_done-Reads (d ∷ ds) = Runs-read (Decodes k T d) _ _ (get_inner-Reads k d) λ x e.
        Runs-if _ _ _
          (λ h.
            Runs-mono _ _ (λ _ t r. (r.0, ((x, e, (state_eq_iff x.state done).0 h), r.1)))
              (deps_done-Reads ds))
          (λ _. Runs-fail _)

    -- The test of the dependencies, whose loop a task with none skips.
    ready-Reads :
        (to : TaskState) (ds : List TaskId)
        → Reads {0} S T
            (if state_eq to ready && not (is_empty ds) then deps_done k ds else pure tt)
            (λ _. (to ≢ ready) ⊎ DepsDone T ds)
    ready-Reads to [] =
        Runs-if _ _ _ (λ h. Runs-mono _ _ (λ _ t r. (r.0, inr r.1)) (deps_done-Reads []))
          (λ _. Reads-pure _ tt (inr tt))
    ready-Reads to (d ∷ ds) =
        Runs-if _ _ _ (λ h. Runs-mono _ _ (λ _ t r. (r.0, inr r.1)) (deps_done-Reads (d ∷ ds)))
          (λ h. Reads-pure _ tt (inl λ e. ground (arith, h, (state_eq_iff to ready).1 e)))

    transition_inner-Runs :
        (id : TaskId) (to : TaskState) (actor : ActorId) (reason : Option String) (now : Timestamp)
        → Runs S T (transition_inner k id to actor reason now) (λ _. Moved T id to actor reason now)
    unfolding transition_inner append_history
    transition_inner-Runs id to actor reason now =
        Runs-read (Decodes k T id) _ _ (get_inner-Reads k id) λ x d.
          Runs-read _ _ _ (guard-Reads _ _) λ _ l.
            Runs-read _ _ _ (ready-Reads to x.depends_on) λ _ r. Runs-write _ _ _ (
              Runs-statement _ _
                (record { before = x; decoded = d; legal = l; deps = r; tables = refl }))

    block_inner-Runs :
        (id : TaskId) (actor : ActorId) (reason : BlockReason) (now : Timestamp)
        → Runs S T (block_inner k id actor reason now) (λ _. Halted T id actor reason now)
    unfolding block_inner append_history
    block_inner-Runs id actor reason now =
        Runs-read (Decodes k T id) _ _ (get_inner-Reads k id) λ x d.
          Runs-read _ _ _ (guard-Reads _ _) λ _ l.
            Runs-read _ _ _ (Reads-ok_or _ _ _ (λ a e. e)) λ text e. Runs-write _ _ _ (
              Runs-statement _ _ (record {
                before = x;
                text = text;
                decoded = d;
                legal = l;
                text_of = e;
                tables = refl;
              }))

  -- A transition that fails leaves what lasts as it was. One that returns found no transaction open,
  -- the task readable, the move legal and, for a move to ready, every dependency done; it has set the
  -- row's state, cleared its actor and added one row of history; and that lasts, unless SQLite refused
  -- the commit, which leaves the old tables as what lasts.
  pub transition-Settled :
      (id : TaskId) (to : TaskState) (actor : ActorId) (reason : Option String) (now : Timestamp)
      (b : Board)
      → Settled
          (λ _. Moved b.tables id to actor reason now)
          b
          (transition k id to actor reason now b)
  unfolding transition
  transition-Settled id to actor reason now b =
      transaction-Settled _ _ b (transition_inner-Runs id to actor reason now)

  -- `block`: the same, into the state blocked with its reason.
  pub block-Settled :
      (id : TaskId) (actor : ActorId) (reason : BlockReason) (now : Timestamp) (b : Board)
      → Settled (λ _. Halted b.tables id actor reason now) b (block k id actor reason now b)
  unfolding block
  block-Settled id actor reason now b =
      transaction-Settled _ _ b (block_inner-Runs id actor reason now)
