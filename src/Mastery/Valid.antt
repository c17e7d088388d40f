-- ===== src/Mastery/Valid.antt =====
-- Which documents load as mastery policies.
use wyrtloom.Base.{
  ◌≡◌, ◌↔◌, refl, sym, ap, ◌∙◌, subst, arith, Bool, true, false, not, ◌&&◌, String, Option, none,
  some, is_blank, ◌==◌, Bool-cases, inl, inr, if◌then◌else◌,
}
use mathlib.Core.Path.{ap₂}
use wyrtloom.F64.{F64}
use wyrtloom.Mastery.{
  PolicyError, Mode, strict, hybrid, sampled, Assignment, single, divided, redundant, MasteryPolicy,
  LedgerGovernance, quota_bad, check_mode, check_counts, check_assignment, validate, deserialize,
  Loaded, loaded, rejected, judged, locked, malformed, with_governance, from_json,
}

abbrev pub mode_counts : Mode → Bool
mode_counts (sampled k) = not (k == 0)
mode_counts strict = true
mode_counts hybrid = true

abbrev pub one_owner : Assignment → Bool
one_owner (redundant r) = false
one_owner single = true
one_owner divided = true

module _ (f : F64) where
  -- A finite quota from 0 to 1, the closed lock, an owner who is not blank, an assignment of the first
  -- phase, and counts that are not 0.
  abbrev pub valid : MasteryPolicy f → Bool
  valid p =
      (f.is_finite p.reserved_rung_quota
        && (not (f.lt p.reserved_rung_quota (f.lit 0 0))
            && not (f.lt (f.lit 1 0) p.reserved_rung_quota)))
      && (p.ledger_governance.aggregate_only_team_views
          && (not (is_blank p.owner)
              && (one_owner p.assignment
                  && (not (p.hunt.max_ladder_depth == 0)
                      && (not (p.rotation.cadence_days == 0) && mode_counts p.mode)))))

  abbrev accepted : Option PolicyError → Bool
  accepted none = true
  accepted (some e) = false

  check_mode-counts : (m : Mode) → accepted (check_mode m) ≡ mode_counts m
  unfolding check_mode
  check_mode-counts (sampled k) = ground arith
  check_mode-counts strict = refl
  check_mode-counts hybrid = refl

  check_assignment-one :
      (a : Assignment) (rest : Option PolicyError)
      → accepted (check_assignment a rest) ≡ (one_owner a && accepted rest)
  unfolding check_assignment
  check_assignment-one (redundant r) rest = refl
  check_assignment-one single rest = refl
  check_assignment-one divided rest = refl

  check_counts-not_zero :
      (p : MasteryPolicy f)
      → accepted (check_counts f p) ≡ (
          not (p.hunt.max_ladder_depth == 0)
          && (not (p.rotation.cadence_days == 0) && mode_counts p.mode))
  unfolding check_counts
  check_counts-not_zero p = ground (arith, check_mode-counts p.mode)

  three_tests :
      (a b c : Bool) (d e g : PolicyError) (rest : Option PolicyError)
      → accepted (if a then some d else if not b then some e else if c then some g else rest)
        ≡ (not a && (b && (not c && accepted rest)))
  three_tests a b c d e g rest = ground arith

  quota_bad-not :
      (q : f.Num)
      → not (quota_bad f q)
        ≡ (f.is_finite q && (not (f.lt q (f.lit 0 0)) && not (f.lt (f.lit 1 0) q)))
  unfolding quota_bad
  quota_bad-not q = ground arith

  validate-valid : (p : MasteryPolicy f) → accepted (validate f p) ≡ valid p
  unfolding validate
  validate-valid p =
      three_tests (quota_bad f p.reserved_rung_quota) p.ledger_governance.aggregate_only_team_views
        (is_blank p.owner) _ _ _ (check_assignment p.assignment (check_counts f p))
      ∙ ap₂
          (λ a b.
            a && (p.ledger_governance.aggregate_only_team_views && (not (is_blank p.owner) && b)))
          (quota_bad-not p.reserved_rung_quota)
          (check_assignment-one p.assignment (check_counts f p)
            ∙ ap (λ b. one_owner p.assignment && b) (check_counts-not_zero p))

  same : {w p : MasteryPolicy f} → loaded w ≡ loaded p → w ≡ p
  same e = cc

  inside : {w p : MasteryPolicy f} → some w ≡ some p → w ≡ p
  inside e = cc

  contradiction : false ≡ true → ⊥
  contradiction e = cc

  valid-open :
      (w : MasteryPolicy f)
      → w.ledger_governance.aggregate_only_team_views ≡ false
      → valid w ≡ false
  valid-open w h = ground (arith, h)

  deserialize-closed :
      (g : LedgerGovernance) → g.aggregate_only_team_views ≡ true → deserialize g ≡ some g
  unfolding deserialize
  deserialize-closed g h = rw h refl

  deserialize-open :
      (g : LedgerGovernance) → g.aggregate_only_team_views ≡ false → deserialize g ≡ none
  unfolding deserialize
  deserialize-open g h = rw h refl

  -- A policy whose lock is closed, once its governance has been read.
  closed :
      (w : MasteryPolicy f)
      → w.ledger_governance.aggregate_only_team_views ≡ true
      → with_governance f w (deserialize w.ledger_governance) ≡ judged f w (validate f w)
  unfolding with_governance
  closed w h = ap (with_governance f w) (deserialize-closed w.ledger_governance h)

  Loads : (p : MasteryPolicy f) → Loaded f → Option (MasteryPolicy f) → Type 0
  Loads p l o = (l ≡ loaded p) ↔ ((o ≡ some p) × (valid p ≡ true))

  judged-Loads :
      (w p : MasteryPolicy f) (v : Option PolicyError)
      → accepted v ≡ valid w
      → Loads p (judged f w v) (some w)
  unfolding Loads
  judged-Loads w p none h =
      ((λ e. (ap some (same e), sym (h ∙ ap valid (same e)))), λ k. ap loaded (inside k.0))
  judged-Loads w p (some d) h =
      ((λ e. cc), λ k. absurd (contradiction (h ∙ ap valid (inside k.0) ∙ k.1)))

  open-Loads :
      (w p : MasteryPolicy f) (e : PolicyError) → valid w ≡ false → Loads p (rejected e) (some w)
  unfolding Loads
  open-Loads w p e h =
      ((λ q. cc), λ k. absurd (contradiction (sym h ∙ ap valid (inside k.0) ∙ k.1)))

  parsed-Loads :
      (p w : MasteryPolicy f)
      → Loads p (with_governance f w (deserialize w.ledger_governance)) (some w)
  unfolding with_governance
  parsed-Loads p w = elim (Bool-cases w.ledger_governance.aggregate_only_team_views) [
    | inl h ↦
        subst (λ l. Loads p l (some w)) (sym (closed w h))
          (judged-Loads w p (validate f w) (validate-valid w))
    | inr h ↦
        subst (λ l. Loads p l (some w))
          (sym (ap (with_governance f w) (deserialize-open w.ledger_governance h)))
          (open-Loads w p locked (valid-open w h))
  ]

  read-Loads :
      (p : MasteryPolicy f) (o : Option (MasteryPolicy f))
      → Loads p
          (elim o [
            | none ↦ rejected malformed
            | some w ↦ with_governance f w (deserialize w.ledger_governance)
          ])
          o
  unfolding Loads
  read-Loads p none = ((λ q. cc), λ k. cc)
  read-Loads p (some w) = parsed-Loads p w

  -- A document loads as a policy exactly when it parses as that policy, and the policy is valid.
  pub from_json-valid :
      (parse : String → Option (MasteryPolicy f)) (json : String) (p : MasteryPolicy f)
      → (from_json f parse json ≡ loaded p) ↔ ((parse json ≡ some p) × (valid p ≡ true))
  unfolding from_json Loads
  from_json-valid parse json p = read-Loads p (parse json)
