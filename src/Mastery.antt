-- ===== src/Mastery.antt =====
-- The mastery policy, crates/plugin-mastery-policy/src/lib.rs. serde_json's reading of a document is
-- an argument of `from_json`: it gives the policy as it stands in the document, with the defaults of
-- missing fields, and the lock as it is written there. A `u32` is a number below 2 ^ 32.
mod Examples
mod Valid
use wyrtloom.Base.{
  ℕ, zero, suc, Bool, true, false, not, ◌&&◌, ◌||◌, String, Option, none, some, List, is_blank,
  ◌==◌, if◌then◌else◌,
}
use wyrtloom.F64.{F64}
use wyrtloom.Kanban.{ActorId}
use wyrtloom.Rotation.{Role}

pub data CountField : Type 0 where
  hunt_max_ladder_depth rotation_cadence_days mode_sampled_k : CountField

-- The out-of-range quota is not repeated, nor the parser's text; `locked` is the parser's refusal of a
-- document that opens the lock.
pub data PolicyError : Type 0 where
  quota_out_of_range aggregate_lock_violated missing_owner malformed locked : PolicyError
  redundant_assignment_phase2 : ℕ → PolicyError
  non_positive : CountField → PolicyError

pub data Mode : Type 0 where
  strict hybrid : Mode
  sampled : ℕ → Mode

pub data Assignment : Type 0 where
  single divided : Assignment
  redundant : ℕ → Assignment

pub record CriticalityOverride : Type 0 where
  pub tag : String
  pub human_only_roles : List Role

pub record Rotation : Type 0 where
  pub cadence_days : ℕ
  pub eligible_roles : List Role
  pub criticality_overrides : List CriticalityOverride

pub record Hunt : Type 0 where
  pub stake_escalation : Bool
  pub max_ladder_depth : ℕ

pub record LedgerGovernance : Type 0 where
  pub retention_days : ℕ
  pub aggregate_only_team_views : Bool

unfoldable pub new_governance : ℕ → LedgerGovernance
new_governance retention_days = record {
  retention_days = retention_days;
  aggregate_only_team_views = true;
}

unfoldable pub default_governance : LedgerGovernance
unfolding new_governance
default_governance = new_governance 365

-- The custom `deserialize`, of the fields as they stand in the document.
unfoldable pub deserialize : LedgerGovernance → Option LedgerGovernance
deserialize wire =
    if not wire.aggregate_only_team_views
    then none
    else some (record { retention_days = wire.retention_days; aggregate_only_team_views = true })

-- none: `Ok(())`
unfoldable pub check_mode : Mode → Option PolicyError
check_mode (sampled k) = if k == 0 then some (non_positive mode_sampled_k) else none
check_mode strict = none
check_mode hybrid = none

unfoldable pub check_assignment : Assignment → Option PolicyError → Option PolicyError
check_assignment (redundant r) rest = some (redundant_assignment_phase2 r)
check_assignment single rest = rest
check_assignment divided rest = rest

module _ (f : F64) where
  pub record SpacingParams : Type 0 where
    pub initial_interval_days : ℕ
    pub expansion_factor : f.Num
    pub max_interval_days : ℕ

  pub record MasteryPolicy : Type 0 where
    pub mode : Mode
    pub criticality_tags : List String
    pub assignment : Assignment
    pub reserved_rung_quota : f.Num
    pub withdrawal_cadence : SpacingParams
    pub rotation : Rotation
    pub hunt : Hunt
    pub ledger_governance : LedgerGovernance
    pub owner : ActorId

  unfoldable pub quota_bad : f.Num → Bool
  quota_bad q = not (f.is_finite q) || (f.lt q (f.lit 0 0) || f.lt (f.lit 1 0) q)

  unfoldable pub check_counts : MasteryPolicy → Option PolicyError
  unfolding check_mode
  check_counts p =
      if p.hunt.max_ladder_depth == 0
      then some (non_positive hunt_max_ladder_depth)
      else if p.rotation.cadence_days == 0
      then some (non_positive rotation_cadence_days)
      else check_mode p.mode

  unfoldable pub validate : MasteryPolicy → Option PolicyError
  unfolding quota_bad check_counts check_assignment
  validate p =
      if quota_bad p.reserved_rung_quota
      then some quota_out_of_range
      else if not p.ledger_governance.aggregate_only_team_views
      then some aggregate_lock_violated
      else if is_blank p.owner
      then some missing_owner
      else check_assignment p.assignment (check_counts p)

  pub data Loaded : Type 0 where
    loaded : MasteryPolicy → Loaded
    rejected : PolicyError → Loaded

  abbrev pub judged : MasteryPolicy → Option PolicyError → Loaded
  judged p none = loaded p
  judged p (some e) = rejected e

  -- The document's policy once its governance has been read.
  unfoldable pub with_governance : MasteryPolicy → Option LedgerGovernance → Loaded
  unfolding validate
  with_governance p none = rejected locked
  with_governance p (some g) =
      let policy : MasteryPolicy = record p { ledger_governance = g } in
      judged policy (validate policy)

  unfoldable pub from_json : (String → Option MasteryPolicy) → String → Loaded
  unfolding deserialize with_governance
  from_json parse json = elim (parse json) [
    | none ↦ rejected malformed
    | some p ↦ with_governance p (deserialize p.ledger_governance)
  ]
