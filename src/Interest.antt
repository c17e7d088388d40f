-- ===== src/Interest.antt =====
-- The interest router, crates/plugin-interest-router/src/lib.rs. A `BTreeMap` is the list of its
-- entries in the order of their keys, a `BTreeSet` the list of its members in order.
mod Examples
pub mod Maps
mod Signals
use wyrtloom.Base.{
  ℕ, ◌+◌, ◌-◌, ◌*◌, ◌%◌, ◌^◌, Bool, true, false, not, ◌&&◌, ◌||◌, String, Option, none, some, List,
  [], ◌∷◌, ◌++◌, any, keep, map, ltb, leb, ◌==◌, sort_by, if◌then◌else◌,
}
use wyrtloom.F64.{F64}
use wyrtloom.Kanban.{TaskId}
use wyrtloom.Agent.{AgentMessage, request, response, delegation, result, error, origin_task, hops}

abbrev pub retry_cluster_threshold : ℕ
retry_cluster_threshold = 3

pub data SignalKind : Type 0 where
  retry_failure_cluster novelty_vs_baseline cross_module_anomaly contract_boundary_ambiguity :
      SignalKind

-- The place of a kind in the derived order.
abbrev pub kind_rank : SignalKind → ℕ
kind_rank retry_failure_cluster = 0
kind_rank novelty_vs_baseline = 1
kind_rank cross_module_anomaly = 2
kind_rank contract_boundary_ambiguity = 3

pub record InterestSignal : Type 0 where
  pub kind : SignalKind
  pub origin_task : TaskId
  pub weight : ℕ

pub record BehaviouralBaseline : Type 0 where
  pub known_tasks : List TaskId
  pub normal_max_hops : ℕ

unfoldable pub new_baseline : ℕ → BehaviouralBaseline
new_baseline normal_max_hops = record { known_tasks = []; normal_max_hops = normal_max_hops }

-- `BTreeSet::insert`
unfoldable pub insert_task : TaskId → List TaskId → List TaskId
insert_task t [] = t ∷ []
insert_task t (u ∷ us) =
    if ltb t u then t ∷ u ∷ us else if t == u then u ∷ us else u ∷ insert_task t us

unfoldable pub observe : BehaviouralBaseline → TaskId → BehaviouralBaseline
unfolding insert_task
observe b task = record b { known_tasks = insert_task task b.known_tasks }

unfoldable pub is_novel_task : BehaviouralBaseline → TaskId → Bool
is_novel_task b task = not (any (λ t. t == task) b.known_tasks)

unfoldable pub is_novel_hops : BehaviouralBaseline → ℕ → Bool
is_novel_hops b h = ltb b.normal_max_hops h

-- `map.entry(k).or_insert(0)`, changed by f
unfoldable pub upsert : TaskId → (ℕ → ℕ) → List (TaskId × ℕ) → List (TaskId × ℕ)
upsert k f [] = (k, f 0) ∷ []
upsert k f ((j, v) ∷ m) =
    if ltb k j
    then (k, f 0) ∷ (j, v) ∷ m
    else if k == j
    then (j, f v) ∷ m
    else (j, v) ∷ upsert k f m

-- `map.get(k).copied().unwrap_or(0)`
unfoldable pub value : TaskId → List (TaskId × ℕ) → ℕ
value k [] = 0
value k ((j, v) ∷ m) = if k == j then v else value k m

pub record Tallies : Type 0 where
  pub error_counts : List (TaskId × ℕ)
  pub delegations : List (TaskId × ℕ)
  pub results : List (TaskId × ℕ)
  pub error_max_hops : List (TaskId × ℕ)
  pub novel_tasks : List TaskId

unfoldable pub no_tallies : Tallies
no_tallies = record {
  error_counts = [];
  delegations = [];
  results = [];
  error_max_hops = [];
  novel_tasks = [];
}

-- `+= 1` on a `u32`
abbrev pub bump : ℕ → ℕ
bump n = (n + 1) % 2 ^ 32

abbrev pub deeper : ℕ → ℕ → ℕ
deeper h n = if ltb n h then h else n

unfoldable pub note_novel : BehaviouralBaseline → AgentMessage → List TaskId → List TaskId
unfolding is_novel_task is_novel_hops insert_task origin_task hops
note_novel b msg novel =
    if is_novel_task b (origin_task msg) || is_novel_hops b (hops msg)
    then insert_task (origin_task msg) novel
    else novel

unfoldable pub tally : BehaviouralBaseline → Tallies → AgentMessage → Tallies
unfolding note_novel upsert
tally b ts (error task h text) = record ts {
  novel_tasks = note_novel b (error task h text) ts.novel_tasks;
  error_counts = upsert task bump ts.error_counts;
  error_max_hops = upsert task (deeper h) ts.error_max_hops;
}
tally b ts (delegation task h body) = record ts {
  novel_tasks = note_novel b (delegation task h body) ts.novel_tasks;
  delegations = upsert task bump ts.delegations;
}
tally b ts (result task h body) = record ts {
  novel_tasks = note_novel b (result task h body) ts.novel_tasks;
  results = upsert task bump ts.results;
}
tally b ts (request task h body) = record ts {
  novel_tasks = note_novel b (request task h body) ts.novel_tasks;
}
tally b ts (response task h body) = record ts {
  novel_tasks = note_novel b (response task h body) ts.novel_tasks;
}

unfoldable pub tally_all : BehaviouralBaseline → Tallies → List AgentMessage → Tallies
unfolding tally
tally_all b ts [] = ts
tally_all b ts (msg ∷ msgs) = tally_all b (tally b ts msg) msgs

-- A loop over a map that pushes a signal for each entry that passes the test.
unfoldable pub emit :
    SignalKind → (TaskId → ℕ → Bool) → (TaskId → ℕ → ℕ) → List (TaskId × ℕ) → List InterestSignal
emit kind test weight [] = []
emit kind test weight ((task, n) ∷ m) =
    if test task n
    then record { kind = kind; origin_task = task; weight = weight task n }
      ∷ emit kind test weight m
    else emit kind test weight m

abbrev pub novelty : TaskId → InterestSignal
novelty task = record { kind = novelty_vs_baseline; origin_task = task; weight = 1 }

-- The keys of the two sorts: `cmp` of the first, then of the next where they are equal.
abbrev pub rank_le : InterestSignal → InterestSignal → Bool
rank_le a b =
    if kind_rank a.kind == kind_rank b.kind
    then leb a.weight b.weight
    else ltb (kind_rank a.kind) (kind_rank b.kind)

abbrev pub signal_le : InterestSignal → InterestSignal → Bool
signal_le a b =
    if a.origin_task == b.origin_task then rank_le a b else ltb a.origin_task b.origin_task

unfoldable pub signals_of : Tallies → List InterestSignal
unfolding emit value
signals_of ts =
    emit retry_failure_cluster (λ task n. leb retry_cluster_threshold n) (λ task n. n)
      ts.error_counts
    ++ (map novelty ts.novel_tasks
        ++ (emit cross_module_anomaly (λ task n. ltb 1 n) (λ task n. n) ts.error_max_hops
            ++ emit contract_boundary_ambiguity (λ task n. ltb (value task ts.results) n)
                (λ task n. n - value task ts.results) ts.delegations))

unfoldable pub derive_signals : List AgentMessage → BehaviouralBaseline → List InterestSignal
unfolding tally_all no_tallies signals_of
derive_signals messages baseline =
    sort_by signal_le (signals_of (tally_all baseline no_tallies messages))

pub data FlowChannel : Type 0 where
  guided standard stretch : FlowChannel

pub record HumanChannel : Type 0 where
  pub recipient : String
  pub channel : FlowChannel

pub record RoutedProblem : Type 0 where
  pub origin_task : TaskId
  pub signals : List InterestSignal
  pub channel : HumanChannel

pub data RoutingOutcome : Type 0 where
  accepted : RoutedProblem → RoutingOutcome
  declined : RoutingOutcome

pub data Routed : Type 0 where
  routed : RoutedProblem → Routed
  no_signals : TaskId → Routed

module _ (f : F64) where
  -- `CalibrationScore::new`: the score, or none where it is rejected.
  unfoldable pub calibration_score : f.Num → Option f.Num
  calibration_score v =
      if f.is_finite v && (f.ge v (f.lit 0 0) && f.ge (f.lit 1 0) v) then some v else none

  unfoldable pub flow_channel : f.Num → FlowChannel
  flow_channel score =
      if f.lt score (f.lit 34 2)
      then guided
      else if f.lt score (f.lit 67 2)
      then standard
      else stretch

  unfoldable pub route : TaskId → List InterestSignal → String → f.Num → Routed
  unfolding flow_channel
  route task signals recipient calibration = elim (keep (λ s. s.origin_task == task) signals) [
    | [] ↦ no_signals task
    | s ∷ for_task ↦ routed (record {
      origin_task = task;
      signals = sort_by rank_le (s ∷ for_task);
      channel = record { recipient = recipient; channel = flow_channel calibration };
    })
  ]

-- `record_accepted` is the sink's; a declined problem does not reach it.
unfoldable pub resolve {ℓ} :
    {S : Type ℓ} → (S → RoutedProblem → S) → S → RoutedProblem → Bool → RoutingOutcome × S
resolve record_accepted sink problem accept =
    if accept then (accepted problem, record_accepted sink problem) else (declined, sink)
