-- ===== src/Sqlite/Still.antt =====
-- The reads of the SQLite board and the tables that they leave.
use wyrtloom.Base.{
  ◌≡◌, refl, ◌∙◌, Bool, true, false, Option, none, some, List, [], ◌∷◌, ℕ, arith, if◌then◌else◌,
  String,
}
use wyrtloom.Kanban.{TaskId, Task, TaskQuery, KanbanError, StorageFault}
use wyrtloom.Sqlite.Store.{
  TaskRow, HistoryRow, Tables, Board, M, Result, ok, err, pure, fail, ok_or, on_ok, ◌>>=◌,
  statement, lock, Codec,
}
use wyrtloom.Sqlite.Read.{
  decode_change, decode_history, decode_reason, row_or_not_found, get_inner, get, parse_ids,
  list_loop, list,
}

pub record Still {ℓ} {A : Type ℓ} (m : M A) : Type ℓ where
  pub tables_at : (b : Board) → (m b).1.tables ≡ b.tables
  pub saved_at : (b : Board) → (m b).1.saved ≡ b.saved

module _ {ℓ} {A : Type ℓ} where
  pub Still-pure : (a : A) → Still (pure a)
  unfolding pure
  Still-pure a = record { tables_at = λ b. refl; saved_at = λ b. refl }

  pub Still-fail : (e : KanbanError) → Still (fail {A = A} e)
  unfolding fail
  Still-fail e = record { tables_at = λ b. refl; saved_at = λ b. refl }

  Still-ok_or : (o : Option A) (e : StorageFault) → Still (ok_or o e)
  unfolding ok_or
  Still-ok_or none e = Still-fail _
  Still-ok_or (some a) e = Still-pure a

  pub Still-if : (c : Bool) (m n : M A) → Still m → Still n → Still (if c then m else n)
  Still-if true m n h k = h
  Still-if false m n h k = k

  Still-query : (e : ℕ → StorageFault) (g : Tables → A) → Still (statement e (λ t. (g t, t)))
  unfolding statement
  Still-query e g = record { tables_at = λ b. ground arith; saved_at = λ b. ground arith }

-- A row that the cursor hands over.
Still-row {ℓ} : {A : Type ℓ} (e : ℕ → StorageFault) (a : A) → Still (statement e (λ t. (a, t)))
Still-row e a = Still-query e (λ _. a)

pub Still-lock : Still lock
unfolding lock
Still-lock = record { tables_at = λ b. ground arith; saved_at = λ b. ground arith }

module _ {ℓ κ} {A : Type ℓ} {B : Type κ} where
  pub on_ok-tables :
      (f : A → M B) (x : Result A × Board)
      → ((a : A) → Still (f a))
      → ((on_ok x f).1.tables ≡ x.1.tables) × ((on_ok x f).1.saved ≡ x.1.saved)
  on_ok-tables f (ok a, b) h = ((h a).tables_at b, (h a).saved_at b)
  on_ok-tables f (err e, b) h = (refl, refl)

  Still-bind : (m : M A) (f : A → M B) → Still m → ((a : A) → Still (f a)) → Still (m >>= f)
  unfolding ◌>>=◌
  Still-bind m f h k = record {
    tables_at = λ b. (on_ok-tables f (m b) k).0 ∙ h.tables_at b;
    saved_at = λ b. (on_ok-tables f (m b) k).1 ∙ h.saved_at b;
  }

ruleset still_rules =
    (Still-pure, Still-fail, Still-ok_or, Still-if, Still-query, Still-row, Still-lock, Still-bind)

module _ (k : Codec) where
  decode_change-Still : (h : HistoryRow) → Still (decode_change k h)
  unfolding decode_change
  decode_change-Still h = search still_rules depth 9

  decode_history-Still : (hs : List HistoryRow) → Still (decode_history k hs)
  unfolding decode_history
  decode_history-Still [] = Still-pure []
  decode_history-Still (h ∷ hs) = Still-bind _ _ (Still-row _ h) λ row.
      Still-bind _ _ (decode_change-Still row)
        λ c. Still-bind _ _ (decode_history-Still hs) λ cs. Still-pure _

  decode_reason-Still : (o : Option String) → Still (decode_reason k o)
  unfolding decode_reason
  decode_reason-Still none = Still-pure none
  decode_reason-Still (some s) = search still_rules

  row-Still : (id : TaskId) (o : Option TaskRow) → Still (row_or_not_found k id o)
  row-Still id none = Still-fail _
  row-Still id (some r) = Still-pure r

  pub get_inner-Still : (id : TaskId) → Still (get_inner k id)
  unfolding get_inner
  get_inner-Still id =
      search (still_rules, decode_history-Still, decode_reason-Still, row-Still) depth 25

  pub get-Still : (id : TaskId) → Still (get k id)
  unfolding get
  get-Still id = search (still_rules, get_inner-Still)

  parse_ids-Still : (rows : List TaskRow) → Still (parse_ids k rows)
  unfolding parse_ids
  parse_ids-Still [] = Still-pure []
  parse_ids-Still (r ∷ rows) = Still-bind _ _ (Still-row _ r) λ row.
      Still-bind _ _ (Still-ok_or _ _)
        λ id. Still-bind _ _ (parse_ids-Still rows) λ ids. Still-pure _

  list_loop-Still :
      (q : TaskQuery) (ids : List TaskId) (out : List Task) → Still (list_loop k q ids out)
  unfolding list_loop
  list_loop-Still q [] out = Still-pure out
  list_loop-Still q (id ∷ ids) out =
      Still-bind _ _ (get_inner-Still id)
        λ x. Still-if _ _ _ (Still-pure _) (list_loop-Still q ids _)

  pub list-Still : (q : TaskQuery) → Still (list k q)
  unfolding list
  list-Still q = search (still_rules, parse_ids-Still, list_loop-Still) depth 15
