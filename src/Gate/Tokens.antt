-- ===== src/Gate/Tokens.antt =====
-- Issued tokens: what an issued token says, and for how long it validates.
use wyrtloom.Base.{
  String, ◌≡◌, inl, inr, refl, subst, arith, true, false, ◌||◌, none, some, List, any,
  if◌then◌else◌, Bool-cases, is_blank,
}
use wyrtloom.Kanban.{TaskId, ActorId, Timestamp, TaskState, is_legal_transition}
use wyrtloom.Security.Audit.{Crypto, SecurityModule, stamp_eq, stamp}
use wyrtloom.Security.Chain.{Call, calls}
use wyrtloom.Security.Stamps.{revokes, stamp-is_valid}
use wyrtloom.Gate.{
  BlameNotice, GateToken, invalid_token, issued, message, issue_token_with_blame, validate,
}

-- The token says what was asked for, of a legal move and with a digest that is not blank.
pub record Asked (task : TaskId) (from to : TaskState) (actor : ActorId) (digest_summary : String)
    (blame : BlameNotice) (token : GateToken) : Type 0 where
  pub legal : is_legal_transition from to ≡ true
  pub digest : is_blank digest_summary ≡ false
  pub said_task : token.task ≡ task
  pub said_from : token.from ≡ from
  pub said_to : token.to ≡ to
  pub said_actor : token.actor ≡ actor
  pub said_blame : token.blame ≡ blame
  pub said_digest : token.digest_summary ≡ digest_summary

module _ (c : Crypto) (m : SecurityModule) (at : Timestamp) (task : TaskId) (from to : TaskState)
    (actor : ActorId) (digest_summary : String) (blame : BlameNotice) where
  abbrev pub minted : GateToken
  minted = record {
    task = task;
    from = from;
    to = to;
    actor = actor;
    blame = blame;
    digest_summary = digest_summary;
    stamp = (stamp c m at (message task from to actor blame digest_summary)).0;
  }

  issue-minted :
      (token : GateToken) (m' : SecurityModule)
      → issue_token_with_blame c m at task from to actor digest_summary blame ≡ (issued token, m')
      → (is_blank digest_summary ≡ false)
        × (is_legal_transition from to ≡ true)
        × (minted ≡ token)
        × ((stamp c m at (message task from to actor blame digest_summary)).1 ≡ m')
  unfolding issue_token_with_blame
  issue-minted token m' h = elim (Bool-cases (is_blank digest_summary)) [
    | inl blank ↦ absurd (ground (arith, blank, h))
    | inr shown ↦ elim (Bool-cases (is_legal_transition from to)) [
      | inl legal ↦ ground (arith, shown, legal, h)
      | inr illegal ↦ absurd (ground (arith, shown, illegal, h))
    ]
  ]

  -- A token that was issued says what was asked for; the digest was not blank and the move is legal;
  -- and after any calls on the security module it validates, unless its stamp was revoked before it
  -- was issued or one of the calls revoked it.
  pub issue_token_with_blame-validate :
      (token : GateToken) (m' : SecurityModule) (os : List Call)
      → issue_token_with_blame c m at task from to actor digest_summary blame ≡ (issued token, m')
      → Asked task from to actor digest_summary blame token
        × (validate c (calls c m' os) token ≡ (
            if any (stamp_eq token.stamp) m.invalidated || any (revokes token.stamp) os
            then some invalid_token
            else none))
  unfolding validate
  issue_token_with_blame-validate token m' os h =
      let (shown, legal, e, f) = issue-minted token m' h in
      let k = stamp-is_valid c m at (message task from to actor blame digest_summary) os in
      let asked : Asked task from to actor digest_summary blame minted = record {
        legal = legal;
        digest = shown;
        said_task = refl;
        said_from = refl;
        said_to = refl;
        said_actor = refl;
        said_blame = refl;
        said_digest = refl;
      } in
      let valid : validate c
            (calls c (stamp c m at (message task from to actor blame digest_summary)).1 os) minted
          ≡ (if any (stamp_eq minted.stamp) m.invalidated || any (revokes minted.stamp) os
              then some invalid_token
              else none) =
        ground (arith, k) in
      (
        subst (Asked task from to actor digest_summary blame) e asked,
        subst
            (λ n. validate c (calls c n os) token ≡ (
              if any (stamp_eq token.stamp) m.invalidated || any (revokes token.stamp) os
              then some invalid_token
              else none))
            f
            (subst
              (λ t.
                validate c
                  (calls c (stamp c m at (message task from to actor blame digest_summary)).1 os) t
                ≡ (if any (stamp_eq t.stamp) m.invalidated || any (revokes t.stamp) os
                    then some invalid_token
                    else none))
              e valid),
      )
