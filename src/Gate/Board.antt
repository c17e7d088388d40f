-- ===== src/Gate/Board.antt =====
-- The gate engine over the SQLite board.
mod Examples
use wyrtloom.Base.{
  inl, inr, ◌≡◌, refl, sym, ap, ◌∙◌, subst, arith, String, Bool, true, false, Option, none, some,
  List, Bool-cases,
}
use wyrtloom.Kanban.{TaskId, ActorId, Timestamp, TaskState, Task, Result, ok, err}
use wyrtloom.Security.Audit.{Crypto, SecurityModule}
use wyrtloom.Sqlite.Store.{Tables, Board, Codec, lock, ◌>>=◌}
use wyrtloom.Sqlite.Read.{get_inner, get as read_task}
use wyrtloom.Sqlite.Write.{transition as move_task}
use wyrtloom.Sqlite.Runs.{Outcome}
use wyrtloom.Sqlite.Decode.{Decodes, get_inner-Reads}
use wyrtloom.Sqlite.Moves.{Moved, transition-Settled}
use wyrtloom.Sqlite.Atomic.{Settled}
use wyrtloom.Gate.{GateToken, GateError, KanbanBoard, CallLogger, guarded_transition}
use wyrtloom.Gate.Guard.{Passed, guarded_transition-Passed}

-- `impl KanbanBoard for SqliteKanbanBoard`, at the time that its `Timestamp::now` reads.
unfoldable pub sqlite_board : Codec → Timestamp → KanbanBoard Board
sqlite_board k now = record {
  get = read_task k;
  transition = λ id to actor reason. move_task k id to actor reason now;
}

module _ (k : Codec) where
  Decodes-state :
      {T : Tables} {id : TaskId} {x y : Task}
      → Decodes k T id x
      → Decodes k T id y
      → x.state ≡ y.state
  Decodes-state d e = cc (d.found, e.found, d.state_text, e.state_text)

  get-Decodes :
      (id : TaskId) (b b' : Board) (x : Task)
      → read_task k id b ≡ (ok x, b')
      → (b'.tables ≡ b.tables) × Decodes k b.tables id x
  unfolding read_task ◌>>=◌ lock
  get-Decodes id b b' x h = elim (Bool-cases b.poisoned) [
    | inl bad ↦ absurd (ground (arith, bad, h))
    | inr fine ↦
        let e : get_inner k id b ≡ (ok x, b') = ground (arith, fine, h) in
        let r = (get_inner-Reads k {S = b.saved} {T = b.tables} id).at b refl refl in
        (subst (Outcome b.saved (λ a T'. (T' ≡ b.tables) × Decodes k b.tables id a)) e r).0
  ]

-- What a guarded transition over the SQLite board has done: with a token for it, it moved the task
-- from the token's state, by a legal move, to the target.
pub record Redeemed (k : Codec) (now : Timestamp) (o : Option GateToken) (task : TaskId)
    (to : TaskState) (actor : ActorId) (reason : Option String) (b after : Board) : Type 0 where
  pub token : GateToken
  pub presented : o ≡ some token
  pub moved : Moved k b.tables task to actor reason now after.tables
  pub from_stage : moved.before.state ≡ token.from
  pub to_stage : token.to ≡ to

-- Where a guarded transition over the SQLite board answers `Ok(())`, a token was presented whose
-- target is the one asked for; the task stood in the state that the token names; and the tables are
-- the old ones with that one legal move made: the row's state set, its actor cleared, and one row of
-- history added.
pub guarded_transition-Redeemed :
    {L : Type 0} (k : Codec) (now : Timestamp) (c : Crypto) (m : SecurityModule)
    (logger : CallLogger L) (o : Option GateToken) (task : TaskId) (to : TaskState)
    (actor : ActorId) (reason : Option String) (at : Timestamp) (b after : Board) (l l' : L)
    → guarded_transition c m (sqlite_board k now) logger o task to actor reason at b l
      ≡ (none, after, l')
    → Redeemed k now o task to actor reason b after
unfolding sqlite_board
guarded_transition-Redeemed k now c m logger o task to actor reason at b after l l' h =
    let p =
      guarded_transition-Passed c m (sqlite_board k now) logger task to actor reason at b l o after
        l' h in
    let (same, found) = get-Decodes k task b p.between p.found p.looked_up in
    let settled = transition-Settled k task to actor reason now p.between in
    let (moved, _, _) =
      subst (Settled (λ _. Moved k p.between.tables task to actor reason now) p.between) p.moved
        settled in
    let moved' = subst (λ T. Moved k T task to actor reason now after.tables) same moved in
    record {
      token = p.token;
      presented = p.presented;
      moved = moved';
      from_stage = Decodes-state k moved'.decoded found ∙ p.stage;
      to_stage = p.for_target;
    }
