-- ===== src/Interest/Examples.antt =====
-- Runs of the interest router, and its theorem at a concrete input.
use wyrtloom.Base.{◌≡◌, arith, List, [], ◌∷◌, any, Ascending}
use wyrtloom.Agent.{AgentMessage, error, delegation}
use wyrtloom.Interest.{
  InterestSignal, retry_failure_cluster, BehaviouralBaseline, signal_le, derive_signals,
}
use wyrtloom.Interest.Maps.{signal_eq}
use wyrtloom.Interest.Signals.{called_for, derive_signals-called_for}

abbrev troubled : List AgentMessage
troubled = error 4 1 "timeout" ∷ delegation 4 2 [] ∷ error 4 3 "timeout" ∷ error 4 1 "refused" ∷ []

abbrev baseline : BehaviouralBaseline
baseline = record { known_tasks = 4 ∷ []; normal_max_hops = 2 }

abbrev cluster : InterestSignal
cluster = record { kind = retry_failure_cluster; origin_task = 4; weight = 3 }

derive_signals-called_for_example :
    (any (signal_eq cluster) (derive_signals troubled baseline)
      ≡ called_for baseline troubled cluster)
    × Ascending signal_le (derive_signals troubled baseline)
derive_signals-called_for_example =
    derive_signals-called_for troubled baseline cluster (omega arith)
