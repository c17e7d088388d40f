-- ===== src/Pipeline/Sessions.antt =====
-- What each end of the pipeline says of the calls that it has made.
use wyrtloom.Base.{
  ℕ, zero, suc, ◌<◌, ◌≡◌, ◌≢◌, ◌∙◌, refl, ap, arith, Bool, true, false, String, Option, none, some,
  List, [], ◌∷◌, ◌++◌, str_eq, str_eq_iff, Bool-cases, inl, inr, ◌⊎◌,
}
use wyrtloom.Kanban.{TaskId, ActorId, todo, ready, running, done, KanbanError}
use wyrtloom.Profile.{TaskProfile}
use wyrtloom.Provider.{GenerationResponse, ProviderError, full_text}
use wyrtloom.Logger.{completed, failed, CallLog}
use wyrtloom.Db.{Result, ok, err}
use wyrtloom.Pipeline.{
  HumanResponse, EscalationError, chose, free_text, stop, PipelineOutcome, finished, stopped,
  blocked, Texts, Call, create, transition, claim, block, generate, log, escalate, World,
  parse_llm_output, by_human, record_blocked, make_call_log, escalation, answered, handle_blocked,
  verified, parsed, generated, request, execute, started, claimed, made_ready, planned, created,
  run,
}

not_skip :
    (id : String)
    → str_eq id "skip" ≡ false
    → ◌≡◌ {A = Result EscalationError HumanResponse} (ok (chose id)) (ok (chose "skip"))
    → ⊥
not_skip id e q = let same : id ≡ "skip" = cc in let test = (str_eq_iff id "skip").1 same in cc

-- The reason of the block, where the person neither stops nor skips.
abbrev pub told : Result EscalationError HumanResponse → String → String
told (err e) reason = "escalation failed"
told (ok response) reason = reason

module _ (texts : Texts) (world : World) (profile : TaskProfile) (agent : ActorId)
    (title user_prompt : String) (before : List Call) where
  -- The four calls that bring a new task to running.
  abbrev pub bring : TaskId → ℕ → Call
  bring t zero = transition t todo agent none
  bring t (suc zero) = transition t ready agent none
  bring t (suc (suc zero)) = claim t agent
  bring t (suc (suc (suc k))) = transition t running agent none

  -- The calls up to the k-th of them, and what it is answered.
  abbrev pub upto : TaskId → ℕ → List Call
  upto t zero = before ++ create (record { title = title; actor = agent; depends_on = [] }) ∷ []
  upto t (suc k) = upto t k ++ bring t k ∷ []

  abbrev pub answer : TaskId → ℕ → Option KanbanError
  answer t zero = world.transitions (upto t zero)
  answer t (suc zero) = world.transitions (upto t 1)
  answer t (suc (suc zero)) = world.claims (upto t 2)
  answer t (suc (suc (suc k))) = world.transitions (upto t (suc (suc (suc k))))

  -- The task was made, and the first k of the calls were answered `Ok(())`.
  abbrev pub Brought : TaskId → ℕ → Type 0
  Brought t zero = world.creates before ≡ ok t
  Brought t (suc k) = Brought t k × (answer t k ≡ none)

  abbrev pub asked : TaskId → List Call
  asked t = upto t 4 ++ generate (request texts world profile agent user_prompt) ∷ []

  -- The model is called once, for a task that has been brought to running, and its answer is logged.
  abbrev pub Answered : TaskId → GenerationResponse → CallLog → Type 0
  Answered t resp entry =
      Brought t 4
      × (world.generates (upto t 4) ≡ ok resp)
      × (entry
          ≡ make_call_log texts world profile agent t resp.usage completed (world.now (asked t)))

  abbrev pub Failed : TaskId → ProviderError → CallLog → Type 0
  Failed t e entry =
      Brought t 4
      × (world.generates (upto t 4) ≡ err e)
      × (entry
          ≡ make_call_log texts world profile agent t
              (record { input_tokens = 0; output_tokens = 0; cost = none })
              (failed (texts.show_provider_error e)) (world.now (asked t)))

  -- Why a person is asked: the model says that it is blocked, or its text cannot be parsed, or the
  -- provider failed.
  abbrev pub Impasse : TaskId → String → CallLog → Type 0
  Impasse t reason entry =
      ((resp : GenerationResponse) × Answered t resp entry
        × (parsed texts world profile agent (parse_llm_output texts (full_text resp))
            ≡ (true, reason)))
      ⊎ ((e : ProviderError) × Failed t e entry × (texts.show_provider_error e ≡ reason))

  abbrev pub logged : TaskId → CallLog → List Call
  logged t entry = asked t ++ log entry ∷ []

  abbrev pub consulted : TaskId → String → CallLog → List Call
  consulted t reason entry =
      logged t entry ++ escalate (escalation texts world profile agent t title reason) ∷ []

  abbrev pub Consulted : TaskId → String → CallLog → Result EscalationError HumanResponse → Type 0
  Consulted t reason entry response =
      Impasse t reason entry × (world.escalates (logged t entry) ≡ response)

  abbrev pub stop_call : TaskId → String → Call
  stop_call t reason = block t agent (by_human texts world profile agent reason)

  -- What an end says.
  abbrev pub Ends : PipelineOutcome × List Call → Type 0
  Ends (finished t result, calls) =
      ((resp : GenerationResponse) × (entry : CallLog) × Answered t resp entry
        × (parsed texts world profile agent (parse_llm_output texts (full_text resp))
            ≡ (false, result))
        × (calls ≡ logged t entry ++ transition t done agent (some "completed") ∷ []))
      ⊎ ((reason : String) × (entry : CallLog) × Consulted t reason entry (ok (chose "skip"))
          × (result ≡ "skipped by human")
          × (calls ≡ consulted t reason entry ++ transition t done agent (some "skipped") ∷ []))
  Ends (stopped t, calls) =
      (reason : String) × (entry : CallLog) × Consulted t reason entry (ok stop)
      × (calls ≡ consulted t reason entry ++ stop_call t "stopped by human" ∷ [])
  Ends (blocked t reason, calls) =
      ((e : KanbanError) × (world.creates before ≡ err e) × (t ≡ 0) × (calls ≡ upto t 0))
      ⊎ ((k : ℕ) × (e : KanbanError) × (k < 4)
          × Brought t k
          × (answer t k ≡ some e)
          × (calls ≡ upto t (suc k) ++ stop_call t reason ∷ []))
      ⊎ ((said : String) × (entry : CallLog) × (response : Result EscalationError HumanResponse)
          × Consulted t said entry response
          × (reason ≡ told response said)
          × (response ≢ ok stop)
          × (response ≢ ok (chose "skip"))
          × (calls ≡ consulted t said entry ++ stop_call t reason ∷ []))

  answered-Ends :
      (t : TaskId) (reason : String) (entry : CallLog) (r : Result EscalationError HumanResponse)
      → Impasse t reason entry
      → world.escalates (logged t entry) ≡ r
      → Ends (answered texts world profile agent t reason r (consulted t reason entry))
  unfolding answered record_blocked
  answered-Ends t reason entry (err e) s h =
      inr (inr (reason, entry, err e, (s, h), refl, (λ q. cc), (λ q. cc), refl))
  answered-Ends t reason entry (ok stop) s h = (reason, entry, (s, h), refl)
  answered-Ends t reason entry (ok (free_text x)) s h =
      inr (inr (reason, entry, ok (free_text x), (s, h), refl, (λ q. cc), (λ q. cc), refl))
  answered-Ends t reason entry (ok (chose id)) s h = elim (Bool-cases (str_eq id "skip")) [
    | inl e ↦ rw e (
        inr
          (reason, entry, (s, h ∙ ap (λ x. ok (chose x)) ((str_eq_iff id "skip").0 e)), refl, refl))
    | inr e ↦
        rw e
          (inr (inr (reason, entry, ok (chose id), (s, h), refl, (λ q. cc), not_skip id e, refl)))
  ]

  stuck-Ends :
      (t : TaskId) (reason : String) (entry : CallLog)
      → Impasse t reason entry
      → Ends (handle_blocked texts world profile agent t title reason (logged t entry))
  unfolding handle_blocked
  stuck-Ends t reason entry s = answered-Ends t reason entry _ s refl

  parsed-Ends :
      (t : TaskId) (resp : GenerationResponse) (entry : CallLog) (p : Bool × String)
      → Answered t resp entry
      → parsed texts world profile agent (parse_llm_output texts (full_text resp)) ≡ p
      → Ends (verified texts world profile agent t title p (logged t entry))
  unfolding verified
  parsed-Ends t resp entry (true, reason) a h = stuck-Ends t reason entry (inl (resp, a, h))
  parsed-Ends t resp entry (false, result) a h = inl (resp, entry, a, h, refl)

  generated-Ends :
      (t : TaskId) (r : Result ProviderError GenerationResponse)
      → Brought t 4
      → world.generates (upto t 4) ≡ r
      → Ends (generated texts world profile agent t title r (asked t))
  unfolding generated verified
  generated-Ends t (ok resp) b h = parsed-Ends t resp _ _ (b, h, refl) refl
  generated-Ends t (err e) b h =
      stuck-Ends t (texts.show_provider_error e) _ (inr (e, (b, h, refl), refl))

  -- A call of the four that is refused.
  refused-Ends :
      (t : TaskId) (k : ℕ) (e : KanbanError) (reason : String)
      → k < 4
      → Brought t k
      → answer t k ≡ some e
      → Ends (record_blocked texts world profile agent t reason (upto t (suc k)))
  unfolding record_blocked
  refused-Ends t k e reason h b a = inr (inl (k, e, h, b, a, refl))

  started-Ends :
      (t : TaskId) (o : Option KanbanError)
      → Brought t 3
      → answer t 3 ≡ o
      → Ends (started texts world profile agent t title user_prompt o (upto t 4))
  unfolding started execute
  started-Ends t (some e) b h = refused-Ends t 3 e _ (omega arith) b h
  started-Ends t none b h = generated-Ends t _ (b, h) refl

  claimed-Ends :
      (t : TaskId) (o : Option KanbanError)
      → Brought t 2
      → answer t 2 ≡ o
      → Ends (claimed texts world profile agent t title user_prompt o (upto t 3))
  unfolding claimed
  claimed-Ends t (some e) b h = refused-Ends t 2 e _ (omega arith) b h
  claimed-Ends t none b h = started-Ends t _ (b, h) refl

  made_ready-Ends :
      (t : TaskId) (o : Option KanbanError)
      → Brought t 1
      → answer t 1 ≡ o
      → Ends (made_ready texts world profile agent t title user_prompt o (upto t 2))
  unfolding made_ready
  made_ready-Ends t (some e) b h = refused-Ends t 1 e _ (omega arith) b h
  made_ready-Ends t none b h = claimed-Ends t _ (b, h) refl

  planned-Ends :
      (t : TaskId) (o : Option KanbanError)
      → Brought t 0
      → answer t 0 ≡ o
      → Ends (planned texts world profile agent t title user_prompt o (upto t 1))
  unfolding planned
  planned-Ends t (some e) b h = refused-Ends t 0 e _ (omega arith) b h
  planned-Ends t none b h = made_ready-Ends t _ (b, h) refl

  created-Ends :
      (r : Result KanbanError TaskId)
      → world.creates before ≡ r
      → Ends (created texts world profile agent title user_prompt r (upto 0 0))
  unfolding created
  created-Ends (err e) h = inl (e, h, refl, refl)
  created-Ends (ok t) h = planned-Ends t _ h refl

  -- Whatever the board, the model, the log and the person answer: the model is asked at most once, and
  -- only after the task was made, moved to todo and ready, claimed and moved to running, each with
  -- success; its answer is logged once. The run ends finished with what the model says is done, or
  -- where a person who was asked, since the model was blocked or could not be read or reached, chose
  -- to skip; it ends stopped where that person stopped it; and it ends blocked where the task could
  -- not be made, where one of the four calls was refused, or where the person answered otherwise or
  -- could not be asked, and then the last call blocks the task, if it was made.
  pub run-Ends_session : Ends (run texts world profile agent title user_prompt before)
  unfolding run
  run-Ends_session = created-Ends _ refl
