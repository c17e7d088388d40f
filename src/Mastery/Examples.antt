-- ===== src/Mastery/Examples.antt =====
-- A mastery policy, and the theorem at it.
use wyrtloom.Base.{◌≡◌, ◌↔◌, true, String, Option, some, none, [], ◌∷◌, str_eq, if◌then◌else◌}
use wyrtloom.F64.Sample.{hundredths}
use wyrtloom.Rotation.{specifier, developer}
use wyrtloom.Mastery.{sampled, divided, MasteryPolicy, loaded, from_json}
use wyrtloom.Mastery.Valid.{valid, from_json-valid}

abbrev policy : MasteryPolicy hundredths
policy = record {
  mode = sampled 3;
  criticality_tags = "safety" ∷ [];
  assignment = divided;
  reserved_rung_quota = 20;
  withdrawal_cadence = record {
    initial_interval_days = 7;
    expansion_factor = 200;
    max_interval_days = 90;
  };
  rotation = record {
    cadence_days = 14;
    eligible_roles = specifier ∷ developer ∷ [];
    criticality_overrides = [];
  };
  hunt = record { stake_escalation = true; max_ladder_depth = 4 };
  ledger_governance = record { retention_days = 365; aggregate_only_team_views = true };
  owner = "ada";
}

-- A parser that knows one document.
abbrev parse : String → Option (MasteryPolicy hundredths)
parse json = if str_eq json "{}" then some policy else none

from_json-valid_example :
    (from_json hundredths parse "{}" ≡ loaded policy)
    ↔ ((parse "{}" ≡ some policy) × (valid hundredths policy ≡ true))
from_json-valid_example = from_json-valid hundredths parse "{}" policy
