-- ===== src/Pipeline.antt =====
-- The binary's pipeline, src/pipeline.rs, which takes one task through the board, a model, the call log
-- and a person. The parts that it calls are a `World`: what each answers may depend on all the calls
-- made so far, and the nil id is 0. Standard error is not modelled.
pub mod Sessions
mod Examples
use Prim.Native.Char.{code}
use Prim.Native.String.{[] as no_chars, ◌∷◌ as chars}
use wyrtloom.Base.{
  ℕ, Bool, true, false, not, ◌&&◌, ◌||◌, String, Option, none, some, List, [], ◌∷◌, ◌++◌, ◌==◌,
  concat, str_eq, if◌then◌else◌,
}
use wyrtloom.Kanban.{
  TaskId, ActorId, Timestamp, TaskState, todo, ready, running, done, NewTask, BlockReason, human,
  KanbanError,
}
use wyrtloom.Security.Audit.{is_control}
use wyrtloom.Profile.{TaskProfile}
use wyrtloom.Provider.{
  Usage, GenerationRequest, GenerationResponse, ProviderError, system_message, user_message,
  full_text,
}
use wyrtloom.Logger.{CallOutcome, completed, failed, CallLog}
use wyrtloom.Db.{Result, ok, err}

-- crates/core/src/escalation.rs
pub record ActionOption : Type 0 where
  pub id : String
  pub label : String
  pub description : Option String

pub record Escalation : Type 0 where
  pub task : TaskId
  pub prompt : String
  pub options : List ActionOption

pub data HumanResponse : Type 0 where
  chose free_text : String → HumanResponse
  stop : HumanResponse

pub data EscalationError : Type 0 where
  interrupted : EscalationError
  io_failed : String → EscalationError

pub data PipelineOutcome : Type 0 where
  finished : TaskId → String → PipelineOutcome
  stopped : TaskId → PipelineOutcome
  blocked : TaskId → String → PipelineOutcome

-- The JSON object that the model must emit.
pub record LlmResponse : Type 0 where
  pub status : String
  pub result : Option String
  pub reason : Option String

-- serde_json's reading of such an object, `str::to_lowercase`, and the texts of the errors.
pub record Texts : Type 0 where
  pub from_json : String → Option LlmResponse
  pub to_lowercase : String → String
  pub show_kanban_error : KanbanError → String
  pub show_provider_error : ProviderError → String

-- The calls of the parts, with their arguments.
pub data Call : Type 0 where
  create : NewTask → Call
  transition : TaskId → TaskState → ActorId → Option String → Call
  claim : TaskId → ActorId → Call
  block : TaskId → ActorId → BlockReason → Call
  generate : GenerationRequest → Call
  log : CallLog → Call
  escalate : Escalation → Call

-- What the parts answer after the calls so far; none: `Ok(())`. The answers to `block` and `log` are
-- dropped.
pub record World : Type 0 where
  pub creates : List Call → Result KanbanError TaskId
  pub transitions : List Call → Option KanbanError
  pub claims : List Call → Option KanbanError
  pub generates : List Call → Result ProviderError GenerationResponse
  pub escalates : List Call → Result EscalationError HumanResponse
  pub now : List Call → Timestamp

abbrev unwrap_or_default : Option String → String
unwrap_or_default none = ""
unwrap_or_default (some s) = s

-- The object's status: whether the model is blocked, and what it says; or the error.
unfoldable pub said : Texts → LlmResponse → Result String (Bool × String)
said texts resp =
    let status = texts.to_lowercase resp.status in
    if str_eq status "done"
    then ok (false, unwrap_or_default resp.result)
    else if str_eq status "blocked"
    then ok (true, unwrap_or_default resp.reason)
    else err (concat ("unknown status field: '" ∷ status ∷ "'" ∷ []))

-- From each `{` on: the first that begins an object.
unfoldable pub parse_llm_output : Texts → String → Result String (Bool × String)
unfolding said
parse_llm_output texts no_chars = err "no valid JSON object found in response"
parse_llm_output texts (chars c s) =
    let later = parse_llm_output texts s in
    if not (code c == b'{')
    then later
    else elim (texts.from_json (chars c s)) [ some resp ↦ said texts resp | none ↦ later ]

-- The filter of what a person is shown.
unfoldable pub safe_text : String → String
unfolding is_control
safe_text no_chars = no_chars
safe_text (chars c s) =
    let rest = safe_text s in
    if not (is_control (code c)) || (code c == 10 || (code c == 13 || code c == 9))
    then chars c rest
    else rest

module _ (texts : Texts) (world : World) (profile : TaskProfile) (agent : ActorId) where
  abbrev pub Step : Type 0
  Step = List Call → PipelineOutcome × List Call

  abbrev pub by_human : String → BlockReason
  by_human reason = record { reason = reason; blocked_by = human "human:cli" }

  unfoldable pub record_blocked : TaskId → String → Step
  record_blocked task reason tr =
      (blocked task reason, tr ++ block task agent (by_human reason) ∷ [])

  unfoldable pub make_call_log : TaskId → Usage → CallOutcome → Timestamp → CallLog
  make_call_log task usage outcome at = record {
    task = task;
    profile = profile.id;
    provider = profile.provider;
    model = profile.model;
    usage = usage;
    outcome = outcome;
    at = at;
  }

  unfoldable pub escalation : TaskId → String → String → Escalation
  unfolding safe_text
  escalation task title reason = record {
    task = task;
    prompt = concat (
        "Agent is blocked on task '"
        ∷ title
        ∷ "'.\nReason: "
        ∷ safe_text reason
        ∷ "\n\nHow should we proceed?"
        ∷ []);
    options =
        record { id = "retry"; label = "Retry"; description = some "Try the task again" }
        ∷ record { id = "skip"; label = "Skip"; description = some "Mark done and move on" }
        ∷ [];
  }

  unfoldable pub answered : TaskId → String → Result EscalationError HumanResponse → Step
  unfolding record_blocked
  answered task reason (err e) tr = record_blocked task "escalation failed" tr
  answered task reason (ok stop) tr =
      (stopped task, tr ++ block task agent (by_human "stopped by human") ∷ [])
  answered task reason (ok (free_text s)) tr = record_blocked task reason tr
  answered task reason (ok (chose id)) tr =
      if str_eq id "skip"
      then (
        finished task "skipped by human",
        tr ++ transition task done agent (some "skipped") ∷ [],
      )
      else record_blocked task reason tr

  unfoldable pub handle_blocked : TaskId → String → String → Step
  unfolding escalation answered
  handle_blocked task title reason tr =
      answered task reason (world.escalates tr) (tr ++ escalate (escalation task title reason) ∷ [])

  -- After the model: the parsed output. A transition to done that fails changes nothing here.
  unfoldable pub verified : TaskId → String → Bool × String → Step
  unfolding handle_blocked
  verified task title (true, content) tr = handle_blocked task title content tr
  verified task title (false, content) tr =
      (finished task content, tr ++ transition task done agent (some "completed") ∷ [])

  abbrev pub parsed : Result String (Bool × String) → Bool × String
  parsed (ok p) = p
  parsed (err e) = (true, concat ("unparseable LLM output: " ∷ e ∷ []))

  unfoldable pub generated : TaskId → String → Result ProviderError GenerationResponse → Step
  unfolding verified make_call_log parse_llm_output full_text
  generated task title (ok resp) tr =
      verified task title (parsed (parse_llm_output texts (full_text resp)))
        (tr ++ log (make_call_log task resp.usage completed (world.now tr)) ∷ [])
  generated task title (err e) tr =
      let reason = texts.show_provider_error e in
      let nothing : Usage = record { input_tokens = 0; output_tokens = 0; cost = none } in
      verified task title (true, reason)
        (tr ++ log (make_call_log task nothing (failed reason) (world.now tr)) ∷ [])

  unfoldable pub request : String → GenerationRequest
  unfolding system_message user_message
  request user_prompt = record {
    messages = system_message profile.system_prompt ∷ user_message user_prompt ∷ [];
    max_output_tokens = profile.max_output_tokens;
    model = profile.model;
  }

  unfoldable pub execute : TaskId → String → String → Step
  unfolding request generated
  execute task title user_prompt tr =
      generated task title (world.generates tr) (tr ++ generate (request user_prompt) ∷ [])

  -- The stages before the model, each from what the call before it answered.
  unfoldable pub started : TaskId → String → String → Option KanbanError → Step
  unfolding execute record_blocked
  started task title user_prompt (some e) tr = record_blocked task "running transition failed" tr
  started task title user_prompt none tr = execute task title user_prompt tr

  unfoldable pub claimed : TaskId → String → String → Option KanbanError → Step
  unfolding started record_blocked
  claimed task title user_prompt (some e) tr =
      record_blocked task (concat ("claim failed: " ∷ texts.show_kanban_error e ∷ [])) tr
  claimed task title user_prompt none tr =
      started task title user_prompt (world.transitions tr)
        (tr ++ transition task running agent none ∷ [])

  unfoldable pub made_ready : TaskId → String → String → Option KanbanError → Step
  unfolding claimed record_blocked
  made_ready task title user_prompt (some e) tr =
      record_blocked task "transition to ready failed" tr
  made_ready task title user_prompt none tr =
      claimed task title user_prompt (world.claims tr) (tr ++ claim task agent ∷ [])

  unfoldable pub planned : TaskId → String → String → Option KanbanError → Step
  unfolding made_ready record_blocked
  planned task title user_prompt (some e) tr = record_blocked task "transition to todo failed" tr
  planned task title user_prompt none tr =
      made_ready task title user_prompt (world.transitions tr)
        (tr ++ transition task ready agent none ∷ [])

  unfoldable pub created : String → String → Result KanbanError TaskId → Step
  unfolding planned
  created title user_prompt (err e) tr =
      (blocked 0 (concat ("task creation failed: " ∷ texts.show_kanban_error e ∷ [])), tr)
  created title user_prompt (ok task) tr =
      planned task title user_prompt (world.transitions tr)
        (tr ++ transition task todo agent none ∷ [])

  unfoldable pub run : String → String → Step
  unfolding created
  run title user_prompt tr =
      created title user_prompt (world.creates tr)
        (tr ++ create (record { title = title; actor = agent; depends_on = [] }) ∷ [])
