-- ===== src/Gate/Board/Examples.antt =====
-- A guarded transition of the small SQLite board.
use wyrtloom.Base.{true, ◌≡◌, refl, none, some, [], ◌∷◌}
use wyrtloom.Kanban.{Task, todo, ready, ok}
use wyrtloom.Security.Audit.{SecurityModule, with_key, stamp, is_valid}
use wyrtloom.Security.Chain.{calls}
use wyrtloom.Security.Stamps.{stamp-is_valid}
use wyrtloom.Security.Examples.{crypto}
use wyrtloom.Sqlite.Store.{Board, state_from_str, ◌>>=◌, statement, lock}
use wyrtloom.Sqlite.Read.{get, get_inner, find_row, rows_of, decode_history, decode_reason}
use wyrtloom.Sqlite.Write.{transition}
use wyrtloom.Sqlite.Sample.{codec, two_tasks, count, unary}
use wyrtloom.Sqlite.Examples.{to_ready_returns}
use wyrtloom.Gate.{GateToken, completed, entry_of, message, guarded_transition}
use wyrtloom.Gate.Tokens.{minted}
use wyrtloom.Gate.Examples.{fresh, logger, claims}
use wyrtloom.Gate.Guard.{Passed, Passed-guarded_transition}
use wyrtloom.Gate.Board.{sqlite_board, Redeemed, guarded_transition-Redeemed}

abbrev token : GateToken
token = minted crypto fresh 1 1 todo ready "ann" "d" claims.blame

abbrev signed : SecurityModule
signed = (stamp crypto fresh 1 (message 1 todo ready "ann" claims.blame "d")).1

abbrev after : Board
after = (transition codec 1 ready "ann" none 3 two_tasks).1

abbrev shipping : Task
shipping = record {
  id = 1;
  title = "ship";
  state = todo;
  actor = none;
  depends_on = 2 ∷ [];
  block_reason = none;
  history = [];
  created_at = 1;
}

shipping_read : get codec 1 two_tasks ≡ (ok shipping, two_tasks)
unfolding count unary get get_inner find_row rows_of decode_history decode_reason state_from_str
    ◌>>=◌ statement lock
shipping_read = refl

genuine_token :
    is_valid crypto signed token.stamp (message 1 todo ready "ann" claims.blame "d") ≡ true
unfolding with_key stamp calls
genuine_token = stamp-is_valid crypto fresh 1 (message 1 todo ready "ann" claims.blame "d") []

redeemed :
    guarded_transition crypto signed
      (sqlite_board codec 3)
      logger
      (some token)
      1
      ready
      "ann"
      none
      3
      two_tasks
      []
    ≡ (none, after, entry_of 1 completed 3 ∷ [])
unfolding sqlite_board
redeemed =
    let passed : Passed crypto signed (sqlite_board codec 3) logger 1 ready "ann" none 3 two_tasks
        [] (some token) after (entry_of 1 completed 3 ∷ []) =
      record {
        token = token;
        presented = refl;
        for_task = refl;
        for_target = refl;
        for_actor = refl;
        genuine = genuine_token;
        found = shipping;
        between = two_tasks;
        looked_up = shipping_read;
        stage = refl;
        moved = to_ready_returns;
        logged = refl;
      } in
    Passed-guarded_transition crypto signed (sqlite_board codec 3) logger 1 ready "ann" none 3
      two_tasks [] (some token) _ _ passed

guarded_transition-Redeemed_example :
    Redeemed codec 3 (some token) 1 ready "ann" none two_tasks after
guarded_transition-Redeemed_example =
    guarded_transition-Redeemed codec 3 crypto signed logger (some token) 1 ready "ann" none 3
      two_tasks after [] (entry_of 1 completed 3 ∷ []) redeemed
