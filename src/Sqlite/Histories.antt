-- ===== src/Sqlite/Histories.antt =====
-- Whole histories of a SQLite board: any calls, in any order, whatever SQLite refuses.
use wyrtloom.Base.{
  ◌≡◌, refl, sym, ◌∙◌, subst, ◌⊎◌, inl, inr, arith, false, String, Option, none, some, List, [],
  ◌∷◌, ◌++◌, ℕ, Option-cases,
}
use wyrtloom.Kanban.{
  TaskId, ActorId, Timestamp, BlockReason, NewTask, TaskQuery, TaskState, backlog, StorageFault,
}
use wyrtloom.Sqlite.Store.{
  TaskRow, HistoryRow, Tables, Board, Codec, M, Result, ok, err, ok_or, on_ok, ◌>>=◌, statement,
  durable, open_in_memory,
}
use wyrtloom.Sqlite.Read.{get, list, rows_of}
use wyrtloom.Sqlite.Write.{create, transition, claim, block, insert_task, has_row}
use wyrtloom.Sqlite.Still.{
  Still, Still-lock, Still-pure, Still-fail, Still-if, get-Still, list-Still,
}
use wyrtloom.Sqlite.Atomic.{Settled}
use wyrtloom.Sqlite.Moves.{transition-Settled, block-Settled}
use wyrtloom.Sqlite.Trail.{here}
use wyrtloom.Sqlite.Sound.{IsSound, RowIsSound}
use wyrtloom.Sqlite.Keeps.{
  Moved-IsSound, Halted-IsSound, claim_rows-IsSound, insert-IsSound, state_from_str_backlog,
}

statement_tables {ℓ} :
    {A : Type ℓ} (e : ℕ → StorageFault) (f : Tables → A × Tables) (b : Board)
    → ((statement e f b).1.tables ≡ b.tables) ⊎ ((statement e f b).1.tables ≡ (f b.tables).1)
unfolding statement
statement_tables e f b = ground arith

insert_task_tables :
    (r : TaskRow) (b : Board)
    → ((insert_task r b).1.tables ≡ b.tables)
      ⊎ ((has_row r.id b.tables.tasks ≡ false)
          × ((insert_task r b).1.tables
              ≡ record { tasks = b.tables.tasks ++ r ∷ []; history = b.tables.history }))
unfolding insert_task
insert_task_tables r b = ground arith

-- One call of the board, with the id and the time that it is given.
pub data Call : Type 0 where
  creates : TaskId → Timestamp → NewTask → Call
  transitions : TaskId → TaskState → ActorId → Option String → Timestamp → Call
  claims : TaskId → ActorId → Call
  blocks : TaskId → ActorId → BlockReason → Timestamp → Call
  gets : TaskId → Call
  lists : TaskQuery → Call

module _ (k : Codec) where
  pub step : Board → Call → Board
  step b (creates id now task) = (create k id now task b).1
  step b (transitions id to actor reason now) = (transition k id to actor reason now b).1
  step b (claims id worker) = (claim k id worker b).1
  step b (blocks id actor reason now) = (block k id actor reason now b).1
  step b (gets id) = (get k id b).1
  step b (lists q) = (list k q b).1

  pub run : Board → List Call → Board
  run b [] = b
  run b (c ∷ cs) = run (step b c) cs

  -- Outside a transaction, a method that keeps the tables sound.
  record Safe {ℓ} {A : Type ℓ} (m : M A) : Type ℓ where
    saved_at : (b : Board) → (m b).1.saved ≡ b.saved
    sound_at : (b : Board) → IsSound k b.tables → IsSound k (m b).1.tables

  Safe-Still {ℓ} : {A : Type ℓ} {m : M A} → Still m → Safe m
  Safe-Still {m} h = record {
    saved_at = h.saved_at;
    sound_at = λ b s. subst (IsSound k) (sym (h.tables_at b)) s;
  }

  module _ {ℓ κ} {A : Type ℓ} {B : Type κ} where
    on_ok-Safe :
        (f : A → M B) (x : Result A × Board)
        → ((a : A) → x.0 ≡ ok a → Safe (f a))
        → ((on_ok x f).1.saved ≡ x.1.saved)
          × (IsSound k x.1.tables → IsSound k (on_ok x f).1.tables)
    on_ok-Safe f (ok a, b) h = ((h a refl).saved_at b, (h a refl).sound_at b)
    on_ok-Safe f (err e, b) h = (refl, λ s. s)

    Safe-bind : (m : M A) (f : A → M B) → Safe m → ((a : A) → Safe (f a)) → Safe (m >>= f)
    unfolding ◌>>=◌
    Safe-bind m f h g = record {
      saved_at = λ b. (on_ok-Safe f (m b) (λ a _. g a)).0 ∙ h.saved_at b;
      sound_at = λ b s. (on_ok-Safe f (m b) (λ a _. g a)).1 (h.sound_at b s);
    }

    Safe-ok_or :
        (o : Option A) (e : StorageFault) (f : A → M B)
        → ((a : A) → o ≡ some a → Safe (f a))
        → Safe (ok_or o e >>= f)
    unfolding ◌>>=◌
    Safe-ok_or none e f h = Safe-Still (Still-fail _)
    Safe-ok_or (some a) e f h = h a refl

  Safe-statement {ℓ} :
      {A : Type ℓ} (e : ℕ → StorageFault) (f : Tables → A × Tables)
      → ((t : Tables) → IsSound k t → IsSound k (f t).1)
      → Safe (statement e f)
  unfolding statement
  Safe-statement e f h = record {
    saved_at = λ b. ground arith;
    sound_at = λ b s. elim (statement_tables e f b) [
      | inl same ↦ subst (IsSound k) (sym same) s
      | inr new ↦ subst (IsSound k) (sym new) (h b.tables s)
    ];
  }

  insert_task-Safe :
      (r : TaskRow)
      → ((hist : List HistoryRow) → rows_of r.id hist ≡ [] → RowIsSound k hist r)
      → Safe (insert_task r)
  unfolding insert_task
  insert_task-Safe r v = record {
    saved_at = λ b. ground arith;
    sound_at = λ b s. elim (insert_task_tables r b) [
      | inl same ↦ subst (IsSound k) (sym same) s
      | inr (fresh, new) ↦ subst (IsSound k) (sym new) (insert-IsSound k b.tables r s fresh v)
    ];
  }

  create-Safe : (id : TaskId) (now : Timestamp) (task : NewTask) → Safe (create k id now task)
  unfolding create
  create-Safe id now task = Safe-bind _ _ (Safe-Still Still-lock) λ _. Safe-ok_or _ _ _ λ deps e.
      Safe-bind _ _
        (insert_task-Safe _ λ hist new. record {
          id = id;
          state = backlog;
          depends_on = task.depends_on;
          block_reason = none;
          created_at = now;
          id_text = refl;
          state_text = state_from_str_backlog;
          deps_text = k.parse-show_deps task.depends_on deps e;
          reason_text = tt;
          created_text = k.parse-show_time now;
          trail = rw new here;
        })
        λ _. Safe-Still (Still-pure id)

  claim-Safe : (id : TaskId) (worker : ActorId) → Safe (claim k id worker)
  unfolding claim
  claim-Safe id worker = Safe-bind _ _ (Safe-Still Still-lock) λ _.
      Safe-bind _ _ (Safe-statement _ _ (claim_rows-IsSound k (k.show_id id) worker))
        λ n. Safe-Still (Still-if _ _ _ (Still-fail _) (Still-pure tt))

  -- What lasts stays sound: an open transaction keeps it apart from the tables.
  Safe-durable {ℓ} :
      {A : Type ℓ} (m : M A) (b : Board)
      → Safe m
      → IsSound k (durable b)
      → IsSound k (durable (m b).1)
  unfolding durable
  Safe-durable m b h s = elim (Option-cases b.saved) [
    | inl e ↦
        let e' : (m b).1.saved ≡ none = h.saved_at b ∙ e in
        rw (e', durable)
          (h.sound_at b (subst (IsSound k) (let d : durable b ≡ b.tables = rw (e, durable) in d) s))
    | inr (t, e) ↦
        let e' : (m b).1.saved ≡ some t = h.saved_at b ∙ e in
        rw (e', durable) (subst (IsSound k) (let d : durable b ≡ t = rw (e, durable) in d) s)
  ]

  Settled-durable {ℓ} :
      {A : Type ℓ} (Q : A → Tables → Type 0) (b : Board) (x : Result A × Board)
      → Settled Q b x
      → ((a : A) (t : Tables) → Q a t → IsSound k b.tables → IsSound k t)
      → IsSound k (durable b)
      → IsSound k (durable x.1)
  unfolding durable
  Settled-durable Q b (err e, b') d h s = subst (IsSound k) (sym d) s
  Settled-durable Q b (ok a, b') (q, n, c) h s = elim c [
    | inl new ↦ subst (IsSound k) (sym new) (
        h a b'.tables q (subst (IsSound k) (let d : durable b ≡ b.tables = rw (n, durable) in d) s))
    | inr old ↦ subst (IsSound k) (sym old) s
  ]

  -- Each call, whatever SQLite refuses of it, leaves what lasts sound.
  step-IsSound : (b : Board) (c : Call) → IsSound k (durable b) → IsSound k (durable (step b c))
  unfolding step
  step-IsSound b (creates id now task) s = Safe-durable _ b (create-Safe id now task) s
  step-IsSound b (transitions id to actor reason now) s =
      Settled-durable _ b _ (transition-Settled k id to actor reason now b)
        (λ _ t m v. Moved-IsSound k b.tables t id to actor reason now v m) s
  step-IsSound b (claims id worker) s = Safe-durable _ b (claim-Safe id worker) s
  step-IsSound b (blocks id actor reason now) s =
      Settled-durable _ b _ (block-Settled k id actor reason now b)
        (λ _ t m v. Halted-IsSound k b.tables t id actor reason now v m) s
  step-IsSound b (gets id) s = Safe-durable _ b (Safe-Still (get-Still k id)) s
  step-IsSound b (lists q) s = Safe-durable _ b (Safe-Still (list-Still k q)) s

  run-IsSound :
      (b : Board) (cs : List Call) → IsSound k (durable b) → IsSound k (durable (run b cs))
  unfolding run
  run-IsSound b [] s = s
  run-IsSound b (c ∷ cs) s = run-IsSound (step b c) cs (step-IsSound b c s)

  -- After any calls on a new board, whatever SQLite refuses of them, what lasts is sound: each row
  -- can be decoded, its history leads from backlog to its state by legal moves, and no history is
  -- without its task.
  pub run-open-IsSound :
      (cs : List Call) (faults : List (Option ℕ))
      → IsSound k (durable (run (record open_in_memory { faults = faults }) cs))
  unfolding open_in_memory durable
  run-open-IsSound cs faults = run-IsSound _ cs (record { rows = tt; changes = tt })
