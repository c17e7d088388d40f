-- ===== src/Gate/Examples.antt =====
-- The gate engine over a board of one task and a logger that keeps a list.
use wyrtloom.Base.{
  as_bytes, is_blank, ◌≡◌, ◌≢◌, refl, arith, true, ◌||◌, ◌==◌, none, some, List, [], ◌∷◌, any,
  if◌then◌else◌,
}
use wyrtloom.Kanban.{
  TaskState, ready, running, Task, illegal_transition, not_found, Result, ok, err,
  is_legal_transition,
}
use wyrtloom.Canon.Examples.{request, request-Fits}
use wyrtloom.Canon.{canonical_request}
use wyrtloom.Security.Audit.{SecurityModule, stamp_eq, with_key, is_valid, stamp}
use wyrtloom.Security.Policy.{deny_all}
use wyrtloom.Security.Chain.{Call, calls, call_record}
use wyrtloom.Security.Stamps.{revokes, stamp-is_valid}
use wyrtloom.Security.Examples.{crypto, root_key}
use wyrtloom.Gate.{
  GateToken, invalid_token, CallLog, completed, KanbanBoard, CallLogger, entry_of,
  issue_token_with_blame, validate, guarded_transition,
}
use wyrtloom.Gate.Messages.{
  Claims, message_of, IsSized, message-injective, message-canonical_request,
}
use wyrtloom.Gate.Tokens.{Asked, minted, issue_token_with_blame-validate}
use wyrtloom.Gate.Guard.{Passed-guarded_transition, Passed, guarded_transition-Passed}

abbrev pub claims : Claims
claims = record {
  task = 5;
  from = ready;
  to = running;
  actor = "a";
  blame = record { notice = "n"; review_template = "r" };
  digest_summary = "d";
}

claims-IsSized : IsSized claims
unfolding as_bytes
claims-IsSized = omega arith

abbrev pub fresh : SecurityModule
fresh = with_key crypto root_key deny_all

abbrev token : GateToken
token = minted crypto fresh 1 5 ready running "a" "d" claims.blame

abbrev signed : SecurityModule
signed = (issue_token_with_blame crypto fresh 1 5 ready running "a" "d" claims.blame).1

abbrev session : List Call
session = call_record 2 true (97 ∷ []) ∷ []

abbrev task : TaskState → Task
task s = record {
  id = 5;
  title = "t";
  state = s;
  actor = none;
  depends_on = [];
  block_reason = none;
  history = [];
  created_at = 0;
}

abbrev move : Task → TaskState → Result (Unit {0}) × Task
move t to =
    if is_legal_transition t.state to
    then (ok tt, record t { state = to })
    else (err (illegal_transition t.state to), t)

abbrev board : KanbanBoard Task
board = record {
  get = λ id t. if id == t.id then (ok t, t) else (err (not_found id), t);
  transition = λ id to actor reason t. if id == t.id then move t to else (err (not_found id), t);
}

abbrev pub logger : CallLogger (List CallLog)
logger = record { record_call = λ l entry. (none, entry ∷ l) }

message-injective_example : claims ≡ claims
message-injective_example = message-injective claims claims claims-IsSized claims-IsSized refl

message-canonical_request_example : message_of claims ≢ canonical_request request
message-canonical_request_example =
    message-canonical_request claims request claims-IsSized request-Fits

issue_token_with_blame-validate_example :
    Asked 5 ready running "a" "d" claims.blame token
    × (validate crypto (calls crypto signed session) token ≡ (
        if any (stamp_eq token.stamp) fresh.invalidated || any (revokes token.stamp) session
        then some invalid_token
        else none))
unfolding issue_token_with_blame is_blank is_legal_transition
issue_token_with_blame-validate_example =
    issue_token_with_blame-validate crypto fresh 1 5 ready running "a" "d" claims.blame token signed
      session refl

genuine_token : is_valid crypto signed token.stamp (message_of claims) ≡ true
unfolding issue_token_with_blame is_blank is_legal_transition with_key stamp calls
genuine_token = stamp-is_valid crypto fresh 1 (message_of claims) []

token-Passed :
    Passed crypto signed board logger 5 running "a" none 3
      (task ready)
      []
      (some token)
      (task running)
      (entry_of 5 completed 3 ∷ [])
unfolding is_legal_transition
token-Passed = record {
  token = token;
  presented = refl;
  for_task = refl;
  for_target = refl;
  for_actor = refl;
  genuine = genuine_token;
  found = task ready;
  between = task ready;
  looked_up = refl;
  stage = refl;
  moved = refl;
  logged = refl;
}

passes :
    guarded_transition crypto signed board logger (some token) 5 running "a" none 3 (task ready) []
    ≡ (none, task running, entry_of 5 completed 3 ∷ [])
passes =
    Passed-guarded_transition crypto signed board logger 5 running "a" none 3 (task ready) []
      (some token) _ _ token-Passed

guarded_transition-Passed_example :
    Passed crypto signed board logger 5 running "a" none 3
      (task ready)
      []
      (some token)
      (task running)
      (entry_of 5 completed 3 ∷ [])
guarded_transition-Passed_example =
    guarded_transition-Passed crypto signed board logger 5 running "a" none 3 (task ready) []
      (some token) _ _ passes
