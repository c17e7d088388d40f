-- ===== src/Rotation/Examples.antt =====
-- Runs of the rotation scheduler, and its theorems at concrete inputs.
use wyrtloom.Base.{◌-◌, ◌≡◌, arith, false, true, [], ◌∷◌, All, length, as_bytes}
use wyrtloom.Rotation.{
  specifier, developer, safety_critical, RotationPolicy, RotationItem, Assignment, assign, handoffs,
}
use wyrtloom.Rotation.Filling.{Answers, assign-Answers}
use wyrtloom.Rotation.Handoffs.{IsShort, Valid, handoffs-Valid}

abbrev team : RotationPolicy
team = record {
  eligible_roles = specifier ∷ developer ∷ [];
  roster = record { id = "ada"; is_human = true } ∷ record { id = "bot"; is_human = false } ∷ [];
  cadence = 2;
  overrides = record { role = specifier; when = safety_critical } ∷ [];
}

abbrev item : RotationItem
item = record { origin_task = 7; criticality = safety_critical }

assign-Answers_example : Answers team item 5 (assign team item 5)
assign-Answers_example = assign-Answers team item 5 (omega arith)

abbrev pair : Assignment
pair = record { origin_task = 7; slots = (specifier, "ada") ∷ (developer, "bot") ∷ [] }

pair-IsShort : All IsShort pair.slots
unfolding as_bytes
pair-IsShort = (omega arith, (omega arith, tt))

handoffs-Valid_example :
    All (Valid 7) (handoffs pair) × (length (handoffs pair) ≡ length pair.slots - 1)
handoffs-Valid_example = handoffs-Valid pair (omega arith) pair-IsShort
