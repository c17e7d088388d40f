-- ===== src/Workflow/Valid.antt =====
-- Which documents load as workflow profiles.
use wyrtloom.Base.{
  ◌≡◌, ◌≢◌, ◌↔◌, refl, sym, subst, arith, Bool, true, false, ◌&&◌, String, Option, none, some, List,
  [], ◌∷◌, All, is_blank, str_eq, str_eq_iff, str_eq_refl, &&-true, Bool-cases, inl, inr, ◌⊎◌,
}
use wyrtloom.Kanban.{is_legal_transition}
use wyrtloom.Kanban.Paths.{state_eq_iff}
use wyrtloom.Workflow.{
  Stage, Gate, WorkflowProfile, ProfileError, find_stage, is_adjacent_declared_edge, check_others,
  and_check, check_stages, check_order, check_edge, check_gates, validate, Document, document,
  unreadable, loaded, invalid_json, refused, judged, from_json,
}

abbrev pub Named : Stage → Type 0
Named s = is_blank s.name ≡ false

-- Another name, and another state of the board.
abbrev pub Apart : Stage → Stage → Type 0
Apart s t = (s.name ≢ t.name) × (s.state ≢ t.state)

abbrev pub AllApart : List Stage → Type 0
AllApart [] = Unit
AllApart (s ∷ rest) = All (Apart s) rest × AllApart rest

-- b comes right after a.
abbrev pub Adjacent : Stage → Stage → List Stage → Type 0
Adjacent a b [] = ⊥
Adjacent a b (x ∷ []) = ⊥
Adjacent a b (x ∷ y ∷ rest) = ((x ≡ a) × (y ≡ b)) ⊎ Adjacent a b (y ∷ rest)

abbrev pub OnLegalPath : List Stage → Type 0
OnLegalPath stages =
    (a b : Stage) → Adjacent a b stages → is_legal_transition a.state b.state ≡ true

abbrev pub OnEdge : List Stage → Gate → Type 0
OnEdge stages g =
    (a : Stage) × (b : Stage) × Adjacent a b stages
    × (a.name ≡ g.from_stage)
    × (b.name ≡ g.to_stage)

pub record Valid (p : WorkflowProfile) : Type 0 where
  pub some_stage : p.stages ≢ []
  pub named : All Named p.stages
  pub apart : AllApart p.stages
  pub path : OnLegalPath p.stages
  pub gated : All (OnEdge p.stages) p.gates

check_others-none : (s : Stage) (l : List Stage) → (check_others s l ≡ none) ↔ All (Apart s) l
unfolding check_others
check_others-none s [] = ((λ e. tt), λ h. refl)
check_others-none s (t ∷ l) =
    ground (arith, str_eq_iff s.name t.name, state_eq_iff s.state t.state, check_others-none s l)

and_check-none : (a b : Option ProfileError) → (and_check a b ≡ none) ↔ ((a ≡ none) × (b ≡ none))
and_check-none a b = ground arith

check_stages-none : (l : List Stage) → (check_stages l ≡ none) ↔ (All Named l × AllApart l)
unfolding check_stages
check_stages-none [] = ((λ e. (tt, tt)), λ h. refl)
check_stages-none (s ∷ l) = ground (
  arith,
  check_others-none s l,
  check_stages-none l,
  and_check-none (check_others s l) (check_stages l),
)

check_order-step :
    (s t : Stage) (l : List Stage) (b : Bool)
    → is_legal_transition s.state t.state ≡ b
    → (check_order (s ∷ t ∷ l) ≡ none) ↔ ((b ≡ true) × (check_order (t ∷ l) ≡ none))
unfolding check_order
check_order-step s t l b e = ground (arith, e)

OnLegalPath-step :
    (s t : Stage) (l : List Stage)
    → OnLegalPath (s ∷ t ∷ l) ↔ ((is_legal_transition s.state t.state ≡ true) × OnLegalPath (t ∷ l))
OnLegalPath-step s t l = (
  (λ h. (h s t (inl (refl, refl)), λ a b k. h a b (inr k))),
  λ h a b k. elim k [ inl q ↦ rw (sym q.0, sym q.1) h.0 | inr q ↦ h.1 a b q ],
)

check_order-none : (l : List Stage) → (check_order l ≡ none) ↔ OnLegalPath l
unfolding check_order
check_order-none [] = ((λ e a b h. absurd h), λ h. refl)
check_order-none (s ∷ []) = ((λ e a b h. absurd h), λ h. refl)
check_order-none (s ∷ t ∷ l) =
    let first = check_order-step s t l _ refl in
    let path = OnLegalPath-step s t l in
    let later = check_order-none (t ∷ l) in
    (
      (λ e. let k = first.0 e in path.1 (k.0, later.0 k.1)),
      λ h. let k = path.0 h in first.1 (k.0, later.1 k.1),
    )

find_stage-named :
    (name : String) (l : List Stage) {s : Stage} → find_stage name l ≡ some s → s.name ≡ name
unfolding find_stage
find_stage-named name [] e = cc
find_stage-named name (t ∷ l) {s} e =
    ground (arith, str_eq_iff t.name name, find_stage-named name l {s = s})

pub find_stage-here : (s : Stage) (l : List Stage) → find_stage s.name (s ∷ l) ≡ some s
unfolding find_stage
find_stage-here s l = rw (str_eq_refl s.name) refl

-- A name that is found in the rest is found.
find_stage-later :
    (name : String) (t : Stage) (l : List Stage) {s : Stage}
    → find_stage name l ≡ some s
    → (u : Stage) × (find_stage name (t ∷ l) ≡ some u)
unfolding find_stage
find_stage-later name t l {s} e = elim (Bool-cases (str_eq t.name name)) [
  | inl h ↦ (t, rw h refl)
  | inr h ↦ (s, rw h e)
]

find_stage-Adjacent :
    (a b : Stage) (l : List Stage)
    → Adjacent a b l
    → ((s : Stage) × (find_stage a.name l ≡ some s))
      × ((t : Stage) × (find_stage b.name l ≡ some t))
find_stage-Adjacent a b [] h = absurd h
find_stage-Adjacent a b (x ∷ []) h = absurd h
find_stage-Adjacent a b (x ∷ y ∷ l) (inl h) =
    rw (sym h.0, sym h.1)
      ((x, find_stage-here x (y ∷ l)), find_stage-later y.name x (y ∷ l) (find_stage-here y l))
find_stage-Adjacent a b (x ∷ y ∷ l) (inr h) =
    let k = find_stage-Adjacent a b (y ∷ l) h in
    (find_stage-later a.name x (y ∷ l) k.0.1, find_stage-later b.name x (y ∷ l) k.1.1)

-- Two stages of these names, the one right before the other.
abbrev Edge : List Stage → String → String → Type 0
Edge l from to = (a : Stage) × (b : Stage) × Adjacent a b l × (a.name ≡ from) × (b.name ≡ to)

is_adjacent-Edge :
    (l : List Stage) (from to : String)
    → is_adjacent_declared_edge l from to ≡ true
    → Edge l from to
unfolding is_adjacent_declared_edge
is_adjacent-Edge [] from to e = cc
is_adjacent-Edge (x ∷ []) from to e = cc
is_adjacent-Edge (x ∷ y ∷ l) from to e =
    elim (Bool-cases (str_eq x.name from && str_eq y.name to)) [
      | inl h ↦
          let k = &&-true (str_eq x.name from) (str_eq y.name to) h in
          (x, y, inl (refl, refl), (str_eq_iff x.name from).0 k.0, (str_eq_iff y.name to).0 k.1)
      | inr h ↦
          let k = is_adjacent-Edge (y ∷ l) from to (ground (arith, h, e)) in
          (k.0, k.1, inr k.2, k.3, k.4)
    ]

edge_found :
    (a b : Stage) (l : List Stage)
    → Adjacent a b l
    → is_adjacent_declared_edge l a.name b.name ≡ true
unfolding is_adjacent_declared_edge
edge_found a b [] h = absurd h
edge_found a b (x ∷ []) h = absurd h
edge_found a b (x ∷ y ∷ l) (inl h) =
    rw (sym h.0, sym h.1) (rw (str_eq_refl x.name) (rw (str_eq_refl y.name) refl))
edge_found a b (x ∷ y ∷ l) (inr h) = ground (arith, edge_found a b (y ∷ l) h)

check_edge-OnEdge :
    (l : List Stage) (g : Gate) (from to : Option Stage)
    → find_stage g.from_stage l ≡ from
    → find_stage g.to_stage l ≡ to
    → check_edge l g from to ≡ none
    → OnEdge l g
unfolding check_edge
check_edge-OnEdge l g none to f t e = cc
check_edge-OnEdge l g (some a) none f t e = cc
check_edge-OnEdge l g (some a) (some b) f t e =
    rw (sym (find_stage-named g.from_stage l f), sym (find_stage-named g.to_stage l t))
      (is_adjacent-Edge l a.name b.name (ground arith))

OnEdge-check_edge :
    (l : List Stage) (g : Gate)
    → OnEdge l g
    → check_edge l g (find_stage g.from_stage l) (find_stage g.to_stage l) ≡ none
unfolding check_edge
OnEdge-check_edge l g h =
    let (a, b, near, ea, eb) = h in
    let found = find_stage-Adjacent a b l near in
    let named_a = find_stage-named a.name l found.0.1 in
    let named_b = find_stage-named b.name l found.1.1 in
    rw (sym ea, sym eb)
      (rw (found.0.1) (rw (found.1.1) (rw (named_a, named_b, edge_found a b l near) refl)))

check_gates-none :
    (l : List Stage) (gates : List Gate) → (check_gates l gates ≡ none) ↔ All (OnEdge l) gates
unfolding check_gates
check_gates-none l [] = ((λ e. tt), λ h. refl)
check_gates-none l (g ∷ gates) =
    let both =
      and_check-none (check_edge l g (find_stage g.from_stage l) (find_stage g.to_stage l))
        (check_gates l gates) in
    let later = check_gates-none l gates in
    (
      (λ e. let k = both.0 e in (check_edge-OnEdge l g _ _ refl refl k.0, later.0 k.1)),
      λ h. both.1 (OnEdge-check_edge l g h.0, later.1 h.1),
    )

validate-checks :
    (p : WorkflowProfile)
    → (validate p ≡ none) ↔ (
        (p.stages ≢ [])
        × (check_stages p.stages ≡ none)
        × (check_order p.stages ≡ none)
        × (check_gates p.stages p.gates ≡ none))
unfolding validate
validate-checks p = ground (
  arith,
  and_check-none (check_order p.stages) (check_gates p.stages p.gates),
  and_check-none (check_stages p.stages)
      (and_check (check_order p.stages) (check_gates p.stages p.gates)),
)

validate-Valid : (p : WorkflowProfile) → (validate p ≡ none) ↔ Valid p
validate-Valid p =
    let checks = validate-checks p in
    let stages = check_stages-none p.stages in
    let order = check_order-none p.stages in
    let gates = check_gates-none p.stages p.gates in
    (
      (λ e.
          let k = checks.0 e in
          record {
            some_stage = k.0;
            named = (stages.0 k.1).0;
            apart = (stages.0 k.1).1;
            path = order.0 k.2;
            gated = gates.0 k.3;
          }),
      λ v. checks.1 (v.some_stage, stages.1 (v.named, v.apart), order.1 v.path, gates.1 v.gated),
    )

judged-loaded :
    (w p : WorkflowProfile) (v : Option ProfileError)
    → (judged w v ≡ loaded p) ↔ ((document w ≡ document p) × (v ≡ none))
judged-loaded w p v = ground arith

same : {w p : WorkflowProfile} → document w ≡ document p → w ≡ p
same e = cc

read-Valid :
    (d : Document) (p : WorkflowProfile)
    → (elim d [ document w ↦ judged w (validate w) | unreadable t ↦ refused (invalid_json t) ]
        ≡ loaded p)
      ↔ ((d ≡ document p) × Valid p)
read-Valid (unreadable t) p = ((λ e. cc), λ h. cc)
read-Valid (document w) p =
    let judge = judged-loaded w p (validate w) in
    (
      (λ e. let k = judge.0 e in (k.0, subst Valid (same k.0) ((validate-Valid w).0 k.1))),
      λ h. judge.1 (h.0, (validate-Valid w).1 (subst Valid (sym (same h.0)) h.1)),
    )

-- A document loads as a profile exactly when it parses as that profile, and the profile has a stage;
-- its stages' names are not blank, and no two stages share a name or a state of the board; the board
-- allows the transition from each stage to the next; and each gate leads from a stage to the next one.
pub from_json-Valid :
    (parse : String → Document) (json : String) (p : WorkflowProfile)
    → (from_json parse json ≡ loaded p) ↔ ((parse json ≡ document p) × Valid p)
unfolding from_json
from_json-Valid parse json p = read-Valid (parse json) p
