-- ===== src/Rotation.antt =====
-- The rotation scheduler, crates/plugin-rotation-scheduler/src/lib.rs. A `u64` and a `usize` are
-- numbers below 2 ^ 64.
mod Examples
pub mod Filling
mod Handoffs
use wyrtloom.Base.{
  ℕ, ◌+◌, ◌/◌, ◌%◌, ◌^◌, Bool, true, false, ◌&&◌, String, Option, none, some, List, [], ◌∷◌, ◌++◌,
  any, get_elem?, length, as_bytes, if◌then◌else◌,
}
use Prim.Native.Nat.{max}
use Prim.Native.String.{◌++◌ as text_append}
use wyrtloom.Kanban.{TaskId, ActorId}
use wyrtloom.Agent.{AgentMessage, delegation}

pub data Role : Type 0 where
  specifier designer developer tester : Role

unfoldable pub ordinal : Role → ℕ
ordinal specifier = 0
ordinal designer = 1
ordinal developer = 2
ordinal tester = 3

unfoldable pub role_eq : Role → Role → Bool
role_eq specifier specifier = true
role_eq designer designer = true
role_eq developer developer = true
role_eq tester tester = true
role_eq _ _ = false

pub data Criticality : Type 0 where
  normal safety_critical : Criticality

unfoldable pub criticality_eq : Criticality → Criticality → Bool
criticality_eq normal normal = true
criticality_eq safety_critical safety_critical = true
criticality_eq _ _ = false

pub record Actor : Type 0 where
  pub id : ActorId
  pub is_human : Bool

pub record HumanOverride : Type 0 where
  pub role : Role
  pub when : Criticality

pub record RotationPolicy : Type 0 where
  pub eligible_roles : List Role
  pub roster : List Actor
  pub cadence : ℕ
  pub overrides : List HumanOverride

unfoldable pub new_policy : List Role → List Actor → ℕ → RotationPolicy
new_policy eligible_roles roster cadence = record {
  eligible_roles = eligible_roles;
  roster = roster;
  cadence = max cadence 1;
  overrides = [];
}

unfoldable pub force_human : RotationPolicy → Role → Criticality → RotationPolicy
force_human p role when = record p {
  overrides = p.overrides ++ record { role = role; when = when } ∷ [];
}

unfoldable pub requires_human : RotationPolicy → Role → Criticality → Bool
unfolding role_eq criticality_eq
requires_human p role crit =
    any (λ o. role_eq o.role role && criticality_eq o.when crit) p.overrides

pub record RotationItem : Type 0 where
  pub origin_task : TaskId
  pub criticality : Criticality

pub data RotationError : Type 0 where
  no_roles empty_roster : RotationError
  no_human_available : Role → RotationError

pub record Assignment : Type 0 where
  pub origin_task : TaskId
  pub slots : List (Role × ActorId)

unfoldable pub actor_for : List (Role × ActorId) → Role → Option ActorId
unfolding role_eq
actor_for [] role = none
actor_for ((r, a) ∷ slots) role = if role_eq r role then some a else actor_for slots role

-- The windows of two, from the transition with index i. `i as u8` wraps.
unfoldable pub handoffs_from : TaskId → ℕ → List (Role × ActorId) → List AgentMessage
handoffs_from task i [] = []
handoffs_from task i ((r, from) ∷ []) = []
handoffs_from task i ((r, from) ∷ (s, to) ∷ slots) =
    delegation task (i % 256) (as_bytes (text_append from (text_append "->" to)))
    ∷ handoffs_from task (i + 1) ((s, to) ∷ slots)

unfoldable pub handoffs : Assignment → List AgentMessage
unfolding handoffs_from
handoffs a = handoffs_from a.origin_task 0 a.slots

-- `panicked` stands for an index out of the roster's bounds.
pub data Scheduled (A : Type 0) : Type 0 where
  scheduled : A → Scheduled A
  rejected : RotationError → Scheduled A
  panicked : Scheduled A

unfoldable pub first_human : List Actor → Option ActorId
first_human [] = none
first_human (a ∷ roster) = if a.is_human then some a.id else first_human roster

-- The actor for one role, at the rotation's base offset. The sum of the offsets wraps.
unfoldable pub pick : RotationPolicy → Criticality → ℕ → Role → Scheduled ActorId
unfolding requires_human first_human ordinal
pick p crit base role =
    if requires_human p role crit
    then elim (first_human p.roster) [
      | none ↦ rejected (no_human_available role)
      | some id ↦ scheduled id
    ]
    else elim (get_elem? p.roster ((base + ordinal role) % 2 ^ 64 % length p.roster)) [
      | none ↦ panicked
      | some a ↦ scheduled a.id
    ]

abbrev pub add_slot :
    Role → ActorId → Scheduled (List (Role × ActorId)) → Scheduled (List (Role × ActorId))
add_slot role id (scheduled slots) = scheduled ((role, id) ∷ slots)
add_slot role id (rejected e) = rejected e
add_slot role id panicked = panicked

-- The loop over the roles, which ends with the first role that cannot be filled.
unfoldable pub fill :
    RotationPolicy → Criticality → ℕ → List Role → Scheduled (List (Role × ActorId))
unfolding pick
fill p crit base [] = scheduled []
fill p crit base (role ∷ roles) =
    let rest = fill p crit base roles in
    elim (pick p crit base role) [
      | scheduled id ↦ add_slot role id rest
      | rejected e ↦ rejected e
      | panicked ↦ panicked
    ]

abbrev pub is_empty {ℓ} : {A : Type ℓ} → List A → Bool
is_empty [] = true
is_empty (x ∷ xs) = false

unfoldable pub assign : RotationPolicy → RotationItem → ℕ → Scheduled Assignment
unfolding fill
assign p item cycle =
    if is_empty p.eligible_roles
    then rejected no_roles
    else if is_empty p.roster
    then rejected empty_roster
    else elim (fill p item.criticality (cycle / max p.cadence 1) p.eligible_roles) [
      | scheduled slots ↦ scheduled (record { origin_task = item.origin_task; slots = slots })
      | rejected e ↦ rejected e
      | panicked ↦ panicked
    ]
