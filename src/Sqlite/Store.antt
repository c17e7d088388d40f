-- ===== src/Sqlite/Store.antt =====
-- The connection of the SQLite board: the two tables of `init_schema`, an open transaction, and
-- statements that SQLite may refuse. The texts that a row holds are written and read by serde, uuid
-- and chrono, which are the parameter `Codec`.
use wyrtloom.Base.{
  ℕ, ◌≡◌, String, Bool, false, Option, none, some, List, [], ◌∷◌, str_eq, if◌then◌else◌,
}
use wyrtloom.Kanban.{
  TaskId, Timestamp, TaskState, BlockReason, KanbanError, storage, StorageFault, lock_poisoned,
  begin_tx, backlog, todo, ready, running, blocked, done, archived,
}
pub use wyrtloom.Kanban.{Result, ok, err}
unfoldable pub use wyrtloom.Kanban.{state_name}

pub record TaskRow : Type 0 where
  pub id : String
  pub title : String
  pub state : String
  pub actor : Option String
  pub depends_on : String
  pub block_reason : Option String
  pub created_at : String

-- The key that counts the rows up is the row's place in the table.
pub record HistoryRow : Type 0 where
  pub task_id : String
  pub from_state : String
  pub to_state : String
  pub actor : String
  pub at : String
  pub reason : Option String

pub record Tables : Type 0 where
  pub tasks : List TaskRow
  pub history : List HistoryRow

-- `saved` holds the tables as they stood when the open transaction began. `faults` is what SQLite
-- will answer to the coming statements: a code for a refusal; past its end every one succeeds.
pub record Board : Type 0 where
  pub tables : Tables
  pub saved : Option Tables
  pub faults : List (Option ℕ)
  pub poisoned : Bool

-- What other connections read, and what a restart finds.
unfoldable pub durable : Board → Tables
durable b = elim b.saved [ none ↦ b.tables | some t ↦ t ]

unfoldable pub open_in_memory : Board
open_in_memory = record {
  tables = record { tasks = []; history = [] };
  saved = none;
  faults = [];
  poisoned = false;
}

abbrev pub M {ℓ} : Type ℓ → Type ℓ
M A = Board → Result A × Board

module _ {ℓ} {A : Type ℓ} where
  unfoldable pub pure : A → M A
  pure a b = (ok a, b)

  unfoldable pub fail : KanbanError → M A
  fail e b = (err e, b)

  unfoldable pub ok_or : Option A → StorageFault → M A
  unfolding pure fail
  ok_or none e = fail (storage e)
  ok_or (some a) e = pure a

-- `?`: the rest of the function runs unless the result is an error.
abbrev pub on_ok {ℓ κ} : {A : Type ℓ} {B : Type κ} → Result A × Board → (A → M B) → Result B × Board
on_ok (ok a, b) f = f a b
on_ok (err e, b) f = (err e, b)

infixl 5 ◌>>=◌ ◌>>◌
unfoldable pub ◌>>=◌ {ℓ κ} : {A : Type ℓ} {B : Type κ} → M A → (A → M B) → M B
unfolding pure fail ok_or
◌>>=◌ m f b = on_ok (m b) f

abbrev pub ◌>>◌ {ℓ} : {B : Type ℓ} → M (Unit {0}) → M B → M B
m >> k = m >>= λ _. k

-- One statement: it fails with the code, or reads and changes the tables.
unfoldable pub statement {ℓ} : {A : Type ℓ} → (ℕ → StorageFault) → (Tables → A × Tables) → M A
statement e f b = elim b.faults [
  | [] ↦ (ok (f b.tables).0, record b { tables = (f b.tables).1 })
  | none ∷ rest ↦ (ok (f b.tables).0, record b { tables = (f b.tables).1; faults = rest })
  | some code ∷ rest ↦ (err (storage (e code)), record b { faults = rest })
]

unfoldable pub lock : M (Unit {0})
lock b = if b.poisoned then (err (storage lock_poisoned), b) else (ok tt, b)

abbrev opened : Result (Unit {0}) × Board → Result (Unit {0}) × Board
opened (ok a, b) = (ok a, record b { saved = some b.tables })
opened (err e, b) = (err e, b)

-- `BEGIN IMMEDIATE`. SQLite refuses it inside a transaction, with its general error code 1.
unfoldable pub begin_immediate : M (Unit {0})
unfolding statement
begin_immediate b = elim b.saved [
  | some _ ↦ (err (storage (begin_tx 1)), b)
  | none ↦ opened (statement begin_tx (λ t. (tt, t)) b)
]

-- `COMMIT` and `ROLLBACK`, whose results the code drops: one that SQLite refuses leaves the
-- transaction open.
unfoldable pub commit : Board → Board
commit b = elim b.faults [
  | [] ↦ record b { saved = none }
  | none ∷ rest ↦ record b { saved = none; faults = rest }
  | some _ ∷ rest ↦ record b { faults = rest }
]

unfoldable pub rollback : Board → Board
unfolding durable
rollback b = elim b.faults [
  | [] ↦ record b { tables = durable b; saved = none }
  | none ∷ rest ↦ record b { tables = durable b; saved = none; faults = rest }
  | some _ ∷ rest ↦ record b { faults = rest }
]

abbrev pub end_tx {ℓ} : {A : Type ℓ} → Result A × Board → Result A × Board
end_tx (ok a, b) = (ok a, commit b)
end_tx (err e, b) = (err e, rollback b)

-- The body of `transition` and `block`: one transaction about `inner`.
unfoldable pub transaction {ℓ} : {A : Type ℓ} → M A → M A
unfolding lock begin_immediate commit rollback
transaction inner = do lock; begin_immediate; λ b. end_tx (inner b)

unfoldable pub state_from_str : String → Option TaskState
state_from_str s =
    if str_eq s "Backlog"
    then some backlog
    else if str_eq s "Todo"
    then some todo
    else if str_eq s "Ready"
    then some ready
    else if str_eq s "Running"
    then some running
    else if str_eq s "Blocked"
    then some blocked
    else if str_eq s "Done"
    then some done
    else if str_eq s "Archived"
    then some archived
    else none

-- Uuid's text, serde_json of a list of ids and of a block reason, and chrono's RFC 3339.
pub record Codec : Type 0 where
  pub show_id : TaskId → String
  pub parse_id : String → Option TaskId
  pub show_deps : List TaskId → Option String
  pub parse_deps : String → Option (List TaskId)
  pub show_reason : BlockReason → Option String
  pub parse_reason : String → Option BlockReason
  pub show_time : Timestamp → String
  pub parse_time : String → Option Timestamp
  pub parse-show_id : (i : TaskId) → parse_id (show_id i) ≡ some i
  pub parse-show_deps :
      (ds : List TaskId) (s : String) → show_deps ds ≡ some s → parse_deps s ≡ some ds
  pub parse-show_reason :
      (r : BlockReason) (s : String) → show_reason r ≡ some s → parse_reason s ≡ some r
  pub parse-show_time : (t : Timestamp) → parse_time (show_time t) ≡ some t
