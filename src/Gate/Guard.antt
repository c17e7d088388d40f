-- ===== src/Gate/Guard.antt =====
-- The outcomes of `guarded_transition`.
use wyrtloom.Base.{
  String, ◌≡◌, ◌≢◌, ◌↔◌, ◌⊎◌, inl, inr, refl, ap, arith, true, ◌==◌, ==_iff, Option, none, some,
  str_eq_iff, Bool-cases, Option-cases, &&-true,
}
use wyrtloom.Kanban.{
  TaskId, ActorId, Timestamp, TaskState, Task, KanbanError, Result, ok, err, state_eq,
}
use wyrtloom.Kanban.Paths.{state_eq_iff}
use wyrtloom.Security.Audit.{Crypto, SecurityModule, is_valid}
use wyrtloom.Gate.{
  GateToken, GateError, CallOutcome, completed, failed, no_token, bad_hmac, request_mismatch,
  lookup_failed, wrong_stage, board_rejected, invalid_token, token_required, stage_mismatch, kanban,
  KanbanBoard, CallLogger, message, validate, entry_of, audit, conclude, matches_request, perform,
  redeem, guarded_transition,
}

Result-cases {ℓ} :
    {A : Type ℓ} (r : Result A) → ((a : A) × (r ≡ ok a)) ⊎ ((e : KanbanError) × (r ≡ err e))
Result-cases (ok a) = inl (a, refl)
Result-cases (err e) = inr (e, refl)

module _ {B L : Type 0} (c : Crypto) (m : SecurityModule) (board : KanbanBoard B)
    (logger : CallLogger L) (task : TaskId) (to : TaskState) (actor : ActorId)
    (reason : Option String) (at : Timestamp) (b : B) (l : L) where
  abbrev Done : Type 0
  Done = Option GateError × B × L

  -- What was done is one audited outcome, a completed one exactly when the answer is `Ok(())`.
  abbrev pub Audited : Done → Type 0
  Audited r =
      (outcome : CallOutcome) × (answer : Option GateError) × (after : B) × ((answer ≡ none)
        ↔ (outcome ≡ completed))
      × (r ≡ conclude c m board logger task outcome answer at after l)

  conclude-some :
      (outcome : CallOutcome) (e : GateError) (after : B)
      → (conclude c m board logger task outcome (some e) at after l).0 ≢ none
  unfolding conclude
  conclude-some outcome e after h =
      elim (Option-cases (audit c m board logger task outcome at l).0) [
        | inl fine ↦ ground (arith, fine, h)
        | inr (x, bad) ↦ ground (arith, bad, h)
      ]

  conclude-none :
      (outcome : CallOutcome) (after after' : B) (l' : L)
      → conclude c m board logger task outcome none at after l ≡ (none, after', l')
      → (after ≡ after') × (logger.record_call l (entry_of task outcome at) ≡ (none, l'))
  unfolding conclude audit
  conclude-none outcome after after' l' h =
      elim (Option-cases (logger.record_call l (entry_of task outcome at)).0) [
        | inl fine ↦ ground (arith, fine, h)
        | inr (x, bad) ↦ absurd (ground (arith, bad, h))
      ]

  -- What a successful guarded transition has found and done.
  pub record Passed (o : Option GateToken) (after : B) (l' : L) : Type 0 where
    pub token : GateToken
    pub presented : o ≡ some token
    pub for_task : token.task ≡ task
    pub for_target : token.to ≡ to
    pub for_actor : token.actor ≡ actor
    pub genuine :
        is_valid c m token.stamp
          (message token.task token.from token.to token.actor token.blame token.digest_summary)
        ≡ true
    pub found : Task
    pub between : B
    pub looked_up : board.get task b ≡ (ok found, between)
    pub stage : found.state ≡ token.from
    pub moved : board.transition task to actor reason between ≡ (ok tt, after)
    pub logged : logger.record_call l (entry_of task completed at) ≡ (none, l')

  perform-none :
      (b₁ after : B) (l' : L)
      → perform c m board logger task to actor reason at b₁ l ≡ (none, after, l')
      → (board.transition task to actor reason b₁ ≡ (ok tt, after))
        × (logger.record_call l (entry_of task completed at) ≡ (none, l'))
  unfolding perform
  perform-none b₁ after l' h = elim (Result-cases (board.transition task to actor reason b₁).0) [
    | inl (u, e) ↦
        let k : conclude c m board logger task completed none at
              (board.transition task to actor reason b₁).1 l
            ≡ (none, after, l') =
          ground (arith, e, h) in
        let (p, q) = conclude-none completed _ after l' k in (ground (arith, e, p), q)
    | inr (x, e) ↦ absurd (
        conclude-some (failed (board_rejected to x)) (kanban x)
          (board.transition task to actor reason b₁).1 (ground (arith, e, h)))
  ]

  redeem-none :
      (token : GateToken) (after : B) (l' : L)
      → redeem c m board logger token task to actor reason at b l ≡ (none, after, l')
      → (t : Task) × (board.get task b ≡ (ok t, (board.get task b).1))
        × (t.state ≡ token.from)
        × (perform c m board logger task to actor reason at (board.get task b).1 l
            ≡ (none, after, l'))
  unfolding redeem
  redeem-none token after l' h = elim (Result-cases (board.get task b).0) [
    | inl (t, e) ↦ elim (Bool-cases (state_eq t.state token.from)) [
      | inl same ↦ (t, ground (arith, e), (state_eq_iff _ _).0 same, ground (arith, e, same, h))
      | inr other ↦ absurd (
          conclude-some (failed (wrong_stage t.state token.from))
            (stage_mismatch t.state token.from) (board.get task b).1 (ground (arith, e, other, h)))
    ]
    | inr (x, e) ↦ absurd (
        conclude-some (failed (lookup_failed x)) (kanban x) (board.get task b).1
          (ground (arith, e, h)))
  ]

  matches_request_lem :
      (token : GateToken)
      → matches_request token task to actor ≡ true
      → (token.task ≡ task) × (token.to ≡ to) × (token.actor ≡ actor)
  unfolding matches_request
  matches_request_lem token h =
      let (p, q) = &&-true (state_eq token.to to) _ h in
      let (r, s) = &&-true (token.task == task) _ q in
      ((==_iff _ _).0 r, (state_eq_iff _ _).0 p, (str_eq_iff _ _).0 s)

  validate_lem :
      (token : GateToken)
      → validate c m token ≡ none
      → is_valid c m token.stamp
          (message token.task token.from token.to token.actor token.blame token.digest_summary)
        ≡ true
  unfolding validate
  validate_lem token h = ground (arith, h)

  -- A guarded transition that answers `Ok(())` was given a token for this task, target and actor whose
  -- stamp is valid for all that the token says; the board held the task in the state that the token
  -- names and carried out the transition; and the logger took the entry that says completed.
  pub guarded_transition-Passed :
      (o : Option GateToken) (after : B) (l' : L)
      → guarded_transition c m board logger o task to actor reason at b l ≡ (none, after, l')
      → Passed o after l'
  unfolding guarded_transition
  guarded_transition-Passed none after l' h =
      absurd (conclude-some (failed no_token) token_required b (ap (λ r. r.0) h))
  guarded_transition-Passed (some token) after l' h =
      elim (Bool-cases (matches_request token task to actor)) [
        | inl match ↦ elim (Option-cases (validate c m token)) [
          | inl valid ↦
              let k : redeem c m board logger token task to actor reason at b l
                  ≡ (none, after, l') =
                ground (arith, match, valid, h) in
              let (t, e, f, g) = redeem-none token after l' k in
              let (p, q) = perform-none (board.get task b).1 after l' g in
              let (x, y, z) = matches_request_lem token match in
              record {
                token = token;
                presented = refl;
                for_task = x;
                for_target = y;
                for_actor = z;
                genuine = validate_lem token valid;
                found = t;
                between = (board.get task b).1;
                looked_up = e;
                stage = f;
                moved = p;
                logged = q;
              }
          | inr (e, bad) ↦
              absurd (conclude-some (failed bad_hmac) e b (ground (arith, match, bad, h)))
        ]
        | inr other ↦ absurd (
            conclude-some (failed (request_mismatch token to actor)) invalid_token b
              (ground (arith, other, h)))
      ]

  -- Where the token is for this task, target and actor, its stamp is valid for all that it says, the
  -- board holds the task in the state that it names and carries out the transition, and the logger
  -- takes the entry that says completed, the guarded transition answers `Ok(())`.
  pub Passed-guarded_transition :
      (o : Option GateToken) (after : B) (l' : L)
      → Passed o after l'
      → guarded_transition c m board logger o task to actor reason at b l ≡ (none, after, l')
  unfolding guarded_transition redeem perform conclude audit validate matches_request
  Passed-guarded_transition o after l' h =
      let token = h.token in
      let same = (state_eq_iff h.found.state token.from).1 h.stage in
      let target = (state_eq_iff token.to to).1 h.for_target in
      let id = (==_iff token.task task).1 h.for_task in
      let who = (str_eq_iff token.actor actor).1 h.for_actor in
      rw (h.presented)
        (ground (arith, same, target, id, who, h.genuine, h.looked_up, h.moved, h.logged))
