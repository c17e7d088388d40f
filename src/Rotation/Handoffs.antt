-- ===== src/Rotation/Handoffs.antt =====
-- The hand-offs of an assignment, as messages between agents.
use wyrtloom.Base.{
  ℕ, ◌+◌, ◌-◌, ◌*◌, ◌%◌, ◌≤◌, ◌<◌, ◌≡◌, refl, ap, arith, none, List, [], ◌∷◌, All, length,
  length-append, as_bytes, as_bytes-append,
}
use Prim.Native.String.{◌++◌ as text_append}
use wyrtloom.Kanban.{TaskId, ActorId}
use wyrtloom.Agent.{AgentMessage, delegation, origin_task, validate}
use wyrtloom.Rotation.{Role, Assignment, handoffs_from, handoffs}

-- The actor's id leaves room for another and the arrow in a message's body.
abbrev pub IsShort : Role × ActorId → Type 0
IsShort (r, a) = length (as_bytes a) * 2 + 2 ≤ 1048576

-- The message passes the hand-off contract, and is about the task.
abbrev pub Valid : TaskId → AgentMessage → Type 0
Valid task m = (validate m ≡ none) × (origin_task m ≡ task)

arrow : length (as_bytes "->") ≡ 2
unfolding as_bytes
arrow = refl

arrow-length :
    (from to : ActorId)
    → length (as_bytes (text_append from (text_append "->" to)))
      ≡ length (as_bytes from) + (2 + length (as_bytes to))
arrow-length from to = omega (
  arith,
  ap length (as_bytes-append from (text_append "->" to)),
  length-append (as_bytes from) (as_bytes (text_append "->" to)),
  ap length (as_bytes-append "->" to),
  length-append (as_bytes "->") (as_bytes to),
  arrow,
)

delegation-Valid :
    (task : TaskId) (i : ℕ) (from to : ActorId)
    → i < 16
    → length (as_bytes from) * 2 + 2 ≤ 1048576
    → length (as_bytes to) * 2 + 2 ≤ 1048576
    → Valid task (delegation task (i % 256) (as_bytes (text_append from (text_append "->" to))))
unfolding validate origin_task
delegation-Valid task i from to h k l = (ground (arith, arrow-length from to, h, k, l), refl)

handoffs_from-Valid :
    (task : TaskId) (i : ℕ) (slots : List (Role × ActorId))
    → i + length slots ≤ 17
    → All IsShort slots
    → All (Valid task) (handoffs_from task i slots)
      × (length (handoffs_from task i slots) ≡ length slots - 1)
unfolding handoffs_from
handoffs_from-Valid task i [] h s = (tt, refl)
handoffs_from-Valid task i ((r, a) ∷ []) h s = (tt, refl)
handoffs_from-Valid task i ((r, from) ∷ (q, to) ∷ slots) h s =
    let (valid, n) = handoffs_from-Valid task (i + 1) ((q, to) ∷ slots) (omega (arith, h)) s.1 in
    ((delegation-Valid task i from to (omega (arith, h)) s.0 s.1.0, valid), omega (arith, n))

-- An assignment of at most 17 slots, of actors with short ids, gives one hand-off fewer than slots,
-- and each is a valid message about the assignment's task.
pub handoffs-Valid :
    (a : Assignment)
    → length a.slots ≤ 17
    → All IsShort a.slots
    → All (Valid a.origin_task) (handoffs a) × (length (handoffs a) ≡ length a.slots - 1)
unfolding handoffs
handoffs-Valid a h s = handoffs_from-Valid a.origin_task 0 a.slots (omega (arith, h)) s
