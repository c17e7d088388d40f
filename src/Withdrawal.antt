-- ===== src/Withdrawal.antt =====
-- The withdrawal scheduler, crates/plugin-withdrawal-scheduler/src/lib.rs. The `u32` and `u64` of
-- the source are numbers with the saturation and the casts written out; an instant is a number of
-- ticks, and chrono's checked addition of days is a parameter.
pub mod Interval
pub mod Plan
pub mod Flight
mod Examples
use wyrtloom.Base.{
  ℕ, zero, suc, ◌+◌, ◌-◌, ◌*◌, ◌/◌, ◌%◌, ◌≤◌, ◌<◌, ◌≡◌, String, Bool, true, false, ◌&&◌, Option,
  none, some, List, [], ◌∷◌, ◌++◌, ltb, leb, ◌==◌, if◌then◌else◌,
}
use wyrtloom.Kanban.{TaskId, ActorId, Timestamp}

abbrev pub u32_max : ℕ
u32_max = 4294967295

abbrev pub u64_max : ℕ
u64_max = 18446744073709551615

pub record SeedEvent : Type 0 where
  pub actor : ActorId
  pub task : TaskId
  pub last_practiced : Timestamp
  pub prior_sessions : ℕ  -- u32

pub record ExpansionPolicy : Type 0 where
  pub base_days : ℕ  -- u32
  pub factor_percent : ℕ  -- u32
  pub cap_days : ℕ  -- u32

unfoldable pub default_policy : ExpansionPolicy
default_policy = record { base_days = 7; factor_percent = 200; cap_days = 90 }

-- `u64::saturating_mul`
unfoldable pub saturating_mul : ℕ → ℕ → ℕ
saturating_mul a b = if leb (a * b) u64_max then a * b else u64_max

-- `u32::saturating_add`
unfoldable pub saturating_add : ℕ → ℕ → ℕ
saturating_add a b = if leb (a + b) u32_max then a + b else u32_max

-- The `for _ in 0..n` loop over `value`, and the `min` and the cast after it.
unfoldable pub interval_loop : ExpansionPolicy → ℕ → ℕ → ℕ
interval_loop p zero value = (if leb value p.cap_days then value else p.cap_days) % 4294967296
interval_loop p (suc n) value =
    let value' = saturating_mul value p.factor_percent / 100 in
    let rest = interval_loop p n value' in if leb p.cap_days value' then p.cap_days else rest

unfoldable pub interval_days : ExpansionPolicy → ℕ → ℕ
interval_days p n = interval_loop p n p.base_days

pub record PlannedSession : Type 0 where
  pub actor : ActorId
  pub task : TaskId
  pub index : ℕ  -- u32
  pub scheduled_at : Timestamp
  pub interval_days : ℕ  -- u32

pub data SoloFlightState : Type 0 where
  active completed : SoloFlightState
  aborted : String → SoloFlightState

pub record SoloFlight : Type 0 where
  pub actor : ActorId
  pub task : TaskId
  pub index : ℕ  -- u32
  pub state : SoloFlightState

unfoldable pub begin : PlannedSession → SoloFlight
begin s = record { actor = s.actor; task = s.task; index = s.index; state = active }

abbrev is_active : SoloFlightState → Bool
is_active active = true
is_active _ = false

unfoldable pub agent_withdrawn : SoloFlight → Bool
agent_withdrawn f = is_active f.state

pub data EventKind : Type 0 where
  practice : EventKind

pub data FlightOutcome : Type 0 where
  flown : FlightOutcome
  abort : String → FlightOutcome

pub record PracticeEvent : Type 0 where
  pub actor : ActorId
  pub task : TaskId
  pub index : ℕ  -- u32
  pub kind : EventKind
  pub outcome : FlightOutcome
  pub penalised : Bool

unfoldable pub new_event : SoloFlight → FlightOutcome → PracticeEvent
new_event f o = record {
  actor = f.actor;
  task = f.task;
  index = f.index;
  kind = practice;
  outcome = o;
  penalised = false;
}

-- The texts of `InvalidPolicy`.
pub data PolicyFault : Type 0 where
  base_zero factor_low cap_low : PolicyFault
  stuck : ℕ → ℕ → PolicyFault

pub data ScheduleError : Type 0 where
  not_active : ScheduleError
  invalid_policy : PolicyFault → ScheduleError

pub data Result (A : Type 0) : Type 0 where
  ok : A → Result A
  err : ScheduleError → Result A

pub record Scheduler : Type 0 where
  pub policy : ExpansionPolicy

unfoldable pub new : ExpansionPolicy → Result Scheduler
new p =
    if p.base_days == 0
    then err (invalid_policy base_zero)
    else if leb p.factor_percent 100
    then err (invalid_policy factor_low)
    else if ltb p.cap_days p.base_days
    then err (invalid_policy cap_low)
    else if leb (p.base_days * p.factor_percent / 100) p.base_days && ltb p.base_days p.cap_days
    then err (invalid_policy (stuck p.base_days p.factor_percent))
    else ok (record { policy = p })

unfoldable pub complete : SoloFlight → Result (SoloFlight × PracticeEvent)
unfolding agent_withdrawn new_event
complete f =
    if agent_withdrawn f
    then ok (record f { state = completed }, new_event f flown)
    else err not_active

unfoldable pub abort_flight : SoloFlight → String → Result (SoloFlight × PracticeEvent)
unfolding agent_withdrawn new_event
abort_flight f reason =
    if agent_withdrawn f
    then ok (record f { state = aborted reason }, new_event f (FlightOutcome.abort reason))
    else err not_active

-- chrono's `checked_add_signed(Duration::days(d))`: none past the latest instant.
pub record Calendar : Type 0 where
  pub max_utc : ℕ
  pub day : ℕ
  pub checked_add : Timestamp → ℕ → Option Timestamp
  pub checked_add_lem :
      (t d : ℕ) → checked_add t d ≡ (if leb (t + d * day) max_utc then some (t + d * day) else none)

module _ (c : Calendar) where
  abbrev add_days : Timestamp → ℕ → Timestamp
  add_days t d = elim (c.checked_add t d) [ some t' ↦ t' | none ↦ c.max_utc ]

  -- The inner loop of `plan`, at `step` of the seed's sessions with `left` to go.
  unfoldable pub plan_seed : Scheduler → SeedEvent → ℕ → ℕ → Timestamp → List PlannedSession
  plan_seed s seed step zero anchor = []
  plan_seed s seed step (suc left) anchor =
      let index = saturating_add seed.prior_sessions step in
      let days = interval_days s.policy index in
      let anchor' = add_days anchor days in
      record {
        actor = seed.actor;
        task = seed.task;
        index = index;
        scheduled_at = anchor';
        interval_days = days;
      }
      ∷ plan_seed s seed (step + 1) left anchor'

  unfoldable pub plan : Scheduler → List SeedEvent → ℕ → List PlannedSession
  plan s [] count = []
  plan s (seed ∷ seeds) count = plan_seed s seed 0 count seed.last_practiced ++ plan s seeds count
