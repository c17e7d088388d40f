-- ===== src/Kanban/Paths.antt =====
-- What the table of legal transitions allows along whole histories of a task.
use wyrtloom.Base.{
  any, sym, arith, inl, inr, ◌⊎◌, refl, Bool, true, false, ◌≡◌, ◌↔◌, List, [], ◌∷◌, ◌++◌,
}
use wyrtloom.Kanban.{TaskState, backlog, todo, ready, running, done, state_eq, is_legal_transition}

pub state_eq_iff : (a b : TaskState) → (state_eq a b ≡ true) ↔ (a ≡ b)
unfolding state_eq
state_eq_iff a b = ground arith

-- A run of legal transitions, with the states that it enters.
pub data Steps : TaskState → List TaskState → TaskState → Type 0 where
  here : {s : TaskState} → Steps s [] s
  step :
      {s t u : TaskState} {ts : List TaskState}
      → is_legal_transition s t ≡ true
      → Steps t ts u
      → Steps s (t ∷ ts) u

pub Steps-snoc :
    {s t u : TaskState} {ts : List TaskState}
    → Steps s ts t
    → is_legal_transition t u ≡ true
    → Steps s (ts ++ u ∷ []) u
Steps-snoc here l = step l here
Steps-snoc (step k r) l = step k (Steps-snoc r l)

-- A run that leaves a set of states, from which every legal move stays inside or enters v, enters v.
Steps_cross :
    (p : TaskState → Bool) (v : TaskState)
    → ((s u : TaskState) → p s ≡ true → is_legal_transition s u ≡ true → (p u ≡ true) ⊎ (u ≡ v))
    → {s t : TaskState} {ts : List TaskState} → Steps s ts t
    → p s ≡ true
    → (p t ≡ true) ⊎ (any (state_eq v) ts ≡ true)
Steps_cross p v closed here h = inl h
Steps_cross p v closed {ts = u ∷ us} (step l r) h = elim (closed _ u h l) [
  | inl inside ↦ elim (Steps_cross p v closed r inside) [
    | inl stays ↦ inl stays
    | inr found ↦ inr (ground (arith, found))
  ]
  | inr e ↦ let same = (state_eq_iff v u).1 (sym e) in inr (ground (arith, same))
]

abbrev before_todo : TaskState → Bool
before_todo backlog = true
before_todo _ = false

abbrev before_ready : TaskState → Bool
before_ready backlog = true
before_ready todo = true
before_ready _ = false

abbrev before_running : TaskState → Bool
before_running backlog = true
before_running todo = true
before_running ready = true
before_running _ = false

-- A run of legal moves that takes a task from backlog to done has entered todo, ready and running.
pub backlog_to_done :
    (ts : List TaskState)
    → Steps backlog ts done
    → (any (state_eq todo) ts ≡ true)
      × (any (state_eq ready) ts ≡ true)
      × (any (state_eq running) ts ≡ true)
unfolding is_legal_transition
backlog_to_done ts r =
    let a = Steps_cross before_todo todo (λ s u h l. ground (arith, h, l)) r refl in
    let b = Steps_cross before_ready ready (λ s u h l. ground (arith, h, l)) r refl in
    let c = Steps_cross before_running running (λ s u h l. ground (arith, h, l)) r refl in
    (ground (arith, a), ground (arith, b), ground (arith, c))
