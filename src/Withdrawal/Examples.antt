-- ===== src/Withdrawal/Examples.antt =====
-- Runs of the scheduler, and its theorems at concrete inputs.
use wyrtloom.Base.{
  ◌+◌, ◌*◌, ◌≤◌, ◌<◌, ◌≡◌, ◌⊎◌, refl, arith, [], ◌∷◌, some, none, leb, if◌then◌else◌,
}
use wyrtloom.Withdrawal.{
  default_policy, interval_days, interval_loop, saturating_mul, new, Scheduler, SeedEvent, Calendar,
  plan, SoloFlight, active,
}
use wyrtloom.Withdrawal.Interval.{IsU32, interval_days_expands}
use wyrtloom.Withdrawal.Plan.{Blocks, plan-Blocks}

default_intervals : (interval_days default_policy 3 ≡ 56) × (interval_days default_policy 50 ≡ 90)
unfolding interval_days default_policy saturating_mul interval_loop
default_intervals = (refl, refl)

abbrev default_scheduler : Scheduler
unfolding default_policy
default_scheduler = record { policy = default_policy }

default-IsU32 : IsU32 default_policy
unfolding default_policy
default-IsU32 = omega arith

interval_days_expands_example :
    (interval_days default_policy 2 ≤ default_policy.cap_days)
    × ((interval_days default_policy 3 ≡ default_policy.cap_days)
        ⊎ (interval_days default_policy 2 < interval_days default_policy 3))
    × (default_policy.cap_days ≤ default_policy.base_days + 2
        → interval_days default_policy 2 ≡ default_policy.cap_days)
unfolding new default_policy
interval_days_expands_example =
    interval_days_expands default_policy {s = record { policy = default_policy }} 2 refl
      default-IsU32

-- A calendar of whole days that ends on day 1000.
abbrev days : Calendar
days = record {
  max_utc = 1000;
  day = 1;
  checked_add = λ t d. if leb (t + d * 1) 1000 then some (t + d * 1) else none;
  checked_add_lem = λ t d. refl;
}

abbrev alice : SeedEvent
alice = record { actor = "alice"; task = 5; last_practiced = 10; prior_sessions = 2 }

plan-Blocks_example :
    Blocks days 3 (alice ∷ []) (plan days (record { policy = default_policy }) (alice ∷ []) 3)
unfolding new default_policy
plan-Blocks_example =
    plan-Blocks days default_policy {s = record { policy = default_policy }} (alice ∷ []) 3 refl
      default-IsU32 (omega arith)

abbrev flight : SoloFlight
flight = record { actor = "alice"; task = 5; index = 2; state = active }
