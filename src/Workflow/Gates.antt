-- ===== src/Workflow/Gates.antt =====
-- Where the gates of a loaded workflow profile sit.
use wyrtloom.Base.{
  ◌≡◌, sym, arith, true, String, some, List, [], ◌∷◌, All, str_eq, str_eq_iff, Bool-cases, inl, inr,
}
use wyrtloom.Kanban.{is_legal_transition}
use wyrtloom.Workflow.{Stage, Gate, WorkflowProfile, find_stage, stage, Document, loaded, from_json}
use wyrtloom.Workflow.Valid.{
  Apart, AllApart, Adjacent, OnEdge, Valid, find_stage-here, from_json-Valid,
}

find_stage-All :
    (P : Stage → Type 0) (name : String) (l : List Stage) {s : Stage}
    → All P l
    → find_stage name l ≡ some s
    → P s
unfolding find_stage
find_stage-All P name [] h e = cc
find_stage-All P name (t ∷ l) h e = elim (Bool-cases (str_eq t.name name)) [
  | inl k ↦ ground (arith, e, k, h.0)
  | inr k ↦ find_stage-All P name l h.1 (ground (arith, e, k))
]

-- A stage that is found by its name among the stages after another is found among all of them.
find_stage-past :
    (s t : Stage) (l : List Stage)
    → All (Apart t) l
    → find_stage s.name l ≡ some s
    → find_stage s.name (t ∷ l) ≡ some s
unfolding find_stage
find_stage-past s t l h e =
    let other = find_stage-All (Apart t) s.name l h e in
    ground (arith, str_eq_iff t.name s.name, other.0, e)

find_stage-Adjacent :
    (a b : Stage) (l : List Stage)
    → AllApart l
    → Adjacent a b l
    → (find_stage a.name l ≡ some a) × (find_stage b.name l ≡ some b)
find_stage-Adjacent a b [] h k = absurd k
find_stage-Adjacent a b (x ∷ []) h k = absurd k
find_stage-Adjacent a b (x ∷ y ∷ l) h (inl k) =
    rw (sym k.0, sym k.1)
      (find_stage-here x (y ∷ l), find_stage-past y x (y ∷ l) h.0 (find_stage-here y l))
find_stage-Adjacent a b (x ∷ y ∷ l) h (inr k) =
    let found = find_stage-Adjacent a b (y ∷ l) h.1 k in
    (find_stage-past a x (y ∷ l) h.0 found.0, find_stage-past b x (y ∷ l) h.0 found.1)

-- The stages that the gate's names look up: the second follows the first, and the board allows the
-- transition between their states.
abbrev pub Guards : WorkflowProfile → Gate → Type 0
Guards p g =
    (a : Stage) × (b : Stage) × (stage p g.from_stage ≡ some a)
    × (stage p g.to_stage ≡ some b)
    × Adjacent a b p.stages
    × (is_legal_transition a.state b.state ≡ true)

OnEdge-Guards : (p : WorkflowProfile) (g : Gate) → Valid p → OnEdge p.stages g → Guards p g
unfolding stage
OnEdge-Guards p g v (a, b, near, ea, eb) =
    let found = find_stage-Adjacent a b p.stages v.apart near in
    (a, b, rw (sym ea) found.0, rw (sym eb) found.1, near, v.path a b near)

All-Guards :
    (p : WorkflowProfile) (gates : List Gate)
    → Valid p
    → All (OnEdge p.stages) gates
    → All (Guards p) gates
All-Guards p [] v h = tt
All-Guards p (g ∷ gates) v h = (OnEdge-Guards p g v h.0, All-Guards p gates v h.1)

-- Each gate of a profile that has loaded looks up two stages, the second right after the first in the
-- declared order, and the board allows the transition from the one's state to the other's.
pub from_json-Guards :
    (parse : String → Document) (json : String) (p : WorkflowProfile)
    → from_json parse json ≡ loaded p
    → All (Guards p) p.gates
from_json-Guards parse json p e =
    let v = ((from_json-Valid parse json p).0 e).1 in All-Guards p p.gates v v.gated
