-- ===== src/Sqlite/Trail.antt =====
-- The audit trail of a task, in its rows of history.
use wyrtloom.Base.{
  ◌≡◌, refl, arith, true, false, ◌||◌, String, Option, none, some, List, [], ◌∷◌, ◌++◌, str_eq,
  str_eq_iff,
}
use wyrtloom.Kanban.{
  TaskState, backlog, todo, ready, running, blocked, done, archived, is_legal_transition,
}
use wyrtloom.Sqlite.Store.{TaskRow, HistoryRow, state_from_str, state_name}
use wyrtloom.Sqlite.Read.{rows_of}
use wyrtloom.Sqlite.Write.{has_row, update_rows, claim_rows}

-- The names that the board writes are the names that it reads.
pub state_from_str-state_name : (s : TaskState) → state_from_str (state_name s) ≡ some s
unfolding state_from_str state_name
state_from_str-state_name backlog = refl
state_from_str-state_name todo = refl
state_from_str-state_name ready = refl
state_from_str-state_name running = refl
state_from_str-state_name blocked = refl
state_from_str-state_name done = refl
state_from_str-state_name archived = refl

pub data Trail : TaskState → List HistoryRow → TaskState → Type 0 where
  here : {s : TaskState} → Trail s [] s
  move :
      {s t u : TaskState} {h : HistoryRow} {hs : List HistoryRow}
      → state_from_str h.from_state ≡ some s
      → state_from_str h.to_state ≡ some t
      → is_legal_transition s t ≡ true
      → Trail t hs u
      → Trail s (h ∷ hs) u

pub Trail-snoc :
    {s t u : TaskState} (h : HistoryRow) {hs : List HistoryRow}
    → Trail s hs t
    → state_from_str h.from_state ≡ some t
    → state_from_str h.to_state ≡ some u
    → is_legal_transition t u ≡ true
    → Trail s (hs ++ h ∷ []) u
Trail-snoc h here f g l = move f g l here
Trail-snoc h (move f' g' l' r) f g l = move f' g' l' (Trail-snoc h r f g l)

-- The state that a trail ends in.
abbrev last_state : TaskState → List HistoryRow → Option TaskState
last_state s [] = some s
last_state s (h ∷ hs) = elim (state_from_str h.to_state) [ none ↦ none | some t ↦ last_state t hs ]

Trail-last_state :
    {s t : TaskState} {hs : List HistoryRow} → Trail s hs t → last_state s hs ≡ some t
Trail-last_state here = refl
Trail-last_state (move f g l r) = rw (g, last_state) (Trail-last_state r)

-- A trail has one end.
pub Trail-end : {s t u : TaskState} {hs : List HistoryRow} → Trail s hs t → Trail s hs u → t ≡ u
Trail-end p q = ground (arith, Trail-last_state p, Trail-last_state q)

module _ (key : String) where
  pub rows_of-append_self :
      (hs : List HistoryRow) (h : HistoryRow)
      → h.task_id ≡ key
      → rows_of key (hs ++ h ∷ []) ≡ rows_of key hs ++ h ∷ []
  unfolding rows_of
  rows_of-append_self [] h e = ground (arith, str_eq_iff h.task_id key)
  rows_of-append_self (x ∷ hs) h e = ground (arith, rows_of-append_self hs h e)

  pub rows_of-append_ne :
      (hs : List HistoryRow) (h : HistoryRow)
      → str_eq h.task_id key ≡ false
      → rows_of key (hs ++ h ∷ []) ≡ rows_of key hs
  unfolding rows_of
  rows_of-append_ne [] h e = rw e
  rows_of-append_ne (x ∷ hs) h e = ground (arith, rows_of-append_ne hs h e)

  pub has_row-append :
      (rs : List TaskRow) (r : TaskRow)
      → has_row key (rs ++ r ∷ []) ≡ has_row key rs || str_eq r.id key
  has_row-append [] r = ground arith
  has_row-append (x ∷ rs) r = ground (arith, has_row-append rs r)

  pub has_row-update :
      (other : String) (f : TaskRow → TaskRow) (rs : List TaskRow)
      → ((r : TaskRow) → (f r).id ≡ r.id)
      → has_row key (update_rows other f rs) ≡ has_row key rs
  unfolding update_rows
  has_row-update other f [] same = refl
  has_row-update other f (r ∷ rs) same = ground (arith, same r, has_row-update other f rs same)

  pub has_row-claim :
      (other worker : String) (rs : List TaskRow)
      → has_row key (claim_rows other worker rs) ≡ has_row key rs
  unfolding claim_rows
  has_row-claim other worker [] = refl
  has_row-claim other worker (r ∷ rs) = ground (arith, has_row-claim other worker rs)
