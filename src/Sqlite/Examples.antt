-- ===== src/Sqlite/Examples.antt =====
-- The theorems about the board at concrete calls.
use wyrtloom.Base.{◌<◌, ◌≡◌, ◌≢◌, ◌⊎◌, refl, true, none, some, List, [], ◌∷◌}
use wyrtloom.Kanban.{
  BlockReason, dependency, Task, TaskQuery, todo, ready, blocked, done, is_legal_transition,
  state_eq,
}
use wyrtloom.Sqlite.Store.{
  Board, ok, durable, open_in_memory, ◌>>=◌, statement, lock, transaction, state_from_str,
  state_name,
}
use wyrtloom.Sqlite.Read.{get_inner, find_row, rows_of, decode_history, decode_reason}
use wyrtloom.Sqlite.Write.{
  transition, claim, block, claim_rows, claim_count, is_claimable, transition_inner, deps_done,
  append_history, update_rows, moved_row, blocked_row, block_inner,
}
use wyrtloom.Sqlite.Histories.{Call, creates, transitions, claims, run, run-open-IsSound}
use wyrtloom.Sqlite.Decode.{Decodes}
use wyrtloom.Sqlite.Atomic.{Settled}
use wyrtloom.Sqlite.Moves.{Moved, DepsDone, transition-Settled}
use wyrtloom.Sqlite.Effects.{moved_task, halted_task, transition-get, block-get}
use wyrtloom.Sqlite.Claims.{claim_once}
use wyrtloom.Sqlite.Sound.{IsSound}
use wyrtloom.Sqlite.Sample.{unary, count, codec, two_tasks}

pub to_ready_returns :
    transition codec 1 ready "ann" none 3 two_tasks
    ≡ (ok tt, (transition codec 1 ready "ann" none 3 two_tasks).1)
unfolding count unary transition transaction transition_inner get_inner find_row rows_of
    decode_history decode_reason deps_done append_history update_rows moved_row state_from_str
    state_name state_eq is_legal_transition ◌>>=◌ statement lock
to_ready_returns = refl

to_ready_quiet : (transition codec 1 ready "ann" none 3 two_tasks).1.faults ≡ []
unfolding count unary transition transaction transition_inner get_inner find_row rows_of
    decode_history decode_reason deps_done append_history update_rows moved_row state_from_str
    state_name state_eq is_legal_transition ◌>>=◌ statement lock
to_ready_quiet = refl

abbrev after_ready : Board
after_ready = (transition codec 1 ready "ann" none 3 two_tasks).1

transition-Settled_example :
    Settled
      (λ _. Moved codec two_tasks.tables 1 ready "ann" none 3)
      two_tasks
      (transition codec 1 ready "ann" none 3 two_tasks)
transition-Settled_example = transition-Settled codec 1 ready "ann" none 3 two_tasks

transition-get_example :
    (x : Task) × Decodes codec two_tasks.tables 1 x
    × (is_legal_transition x.state ready ≡ true)
    × ((ready ≢ ready) ⊎ DepsDone codec two_tasks.tables x.depends_on)
    × (get_inner codec 1 after_ready ≡ (ok (moved_task codec x ready "ann" none 3), after_ready))
transition-get_example =
    transition-get codec 1 ready "ann" none 3 two_tasks after_ready after_ready to_ready_returns
      refl to_ready_quiet

abbrev tested : Task
tested = record {
  id = 2;
  title = "test";
  state = done;
  actor = none;
  depends_on = [];
  block_reason = none;
  history = [];
  created_at = 2;
}

tested-Decodes : Decodes codec two_tasks.tables 2 tested
unfolding find_row rows_of state_from_str count unary
tested-Decodes = record {
  row = record {
    id = "ii";
    title = "test";
    state = "Done";
    actor = none;
    depends_on = "";
    block_reason = none;
    created_at = "ii";
  };
  found = refl;
  same_id = refl;
  same_title = refl;
  same_actor = refl;
  state_text = refl;
  deps_text = refl;
  reason_text = tt;
  changes = tt;
  created_text = refl;
}

abbrev running_task : Board
running_task = record two_tasks {
  tables = record {
    tasks =
        record {
          id = "i";
          title = "ship";
          state = "Running";
          actor = none;
          depends_on = "";
          block_reason = none;
          created_at = "i";
        }
        ∷ [];
    history = [];
  };
}

abbrev waiting : BlockReason
waiting = record { reason = "waiting"; blocked_by = dependency 2 }

abbrev after_block : Board
after_block = (block codec 1 "ann" waiting 3 running_task).1

block_returns : block codec 1 "ann" waiting 3 running_task ≡ (ok tt, after_block)
unfolding count unary block transaction block_inner get_inner find_row rows_of decode_history
    decode_reason append_history update_rows blocked_row state_from_str state_name state_eq
    is_legal_transition ◌>>=◌ statement lock
block_returns = refl

block_quiet : after_block.faults ≡ []
unfolding count unary block transaction block_inner get_inner find_row rows_of decode_history
    decode_reason append_history update_rows blocked_row state_from_str state_name state_eq
    is_legal_transition ◌>>=◌ statement lock
block_quiet = refl

block-get_example :
    (x : Task) × Decodes codec running_task.tables 1 x
    × (is_legal_transition x.state blocked ≡ true)
    × (get_inner codec 1 after_block ≡ (ok (halted_task codec x "ann" waiting 3), after_block))
block-get_example =
    block-get codec 1 "ann" waiting 3 running_task after_block after_block block_returns refl
      block_quiet

abbrev ready_task : Board
ready_task = record two_tasks {
  tables = record {
    tasks =
        record {
          id = "i";
          title = "ship";
          state = "Ready";
          actor = none;
          depends_on = "";
          block_reason = none;
          created_at = "i";
        }
        ∷ [];
    history = [];
  };
}

abbrev after_claim : Board
after_claim = (claim codec 1 "bob" ready_task).1

claim_returns : claim codec 1 "bob" ready_task ≡ (ok tt, after_claim)
unfolding count unary claim claim_rows claim_count is_claimable ◌>>=◌ statement lock
claim_returns = refl

claim_once_example :
    (0 < claim_count (codec.show_id 1) ready_task.tables.tasks)
    × ((claim codec 1 "cay" after_claim).0 ≢ ok tt)
    × ((claim codec 1 "cay" after_claim).1.tables ≡ after_claim.tables)
claim_once_example =
    claim_once codec 1 "bob" "cay" ready_task after_claim after_claim claim_returns refl

abbrev some_calls : List Call
some_calls =
    creates 1 5 (record { title = "ship"; actor = "ann"; depends_on = [] })
    ∷ transitions 1 todo "ann" none 6
    ∷ claims 1 "bob"
    ∷ []

run-open-IsSound_example :
    IsSound codec
      (durable (run codec (record open_in_memory { faults = none ∷ some 5 ∷ [] }) some_calls))
unfolding open_in_memory
run-open-IsSound_example = run-open-IsSound codec some_calls (none ∷ some 5 ∷ [])

abbrev no_tasks : Board
no_tasks = record two_tasks { tables = record { tasks = []; history = [] } }

abbrev one_task : Board
one_task = record two_tasks {
  tables = record {
    tasks =
        record {
          id = "i";
          title = "ship";
          state = "Backlog";
          actor = none;
          depends_on = "";
          block_reason = none;
          created_at = "i";
        }
        ∷ [];
    history = [];
  };
}

abbrev first_one : TaskQuery
first_one = record { states = none; actor = none; limit = some 1 }
