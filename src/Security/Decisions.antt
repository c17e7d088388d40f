-- ===== src/Security/Decisions.antt =====
-- The decisions on manifests, and what a recorded decision's text may hold.
use wyrtloom.Base.{
  ℕ, zero, suc, ◌≤◌, ◌≡◌, ◌↔◌, inl, inr, refl, sym, ap, ◌∙◌, arith, true, false, not, ◌&&◌, Option,
  none, some, List, [], ◌∷◌, ◌++◌, All, keep, take, Bool-cases, Option-cases, length, length-take,
  subst,
}
use wyrtloom.Kanban.{Timestamp}
use wyrtloom.Security.Policy.{Capability, PluginManifest, SecurityPolicy, is_allowed}
use wyrtloom.Security.Audit.{
  Crypto, SecurityModule, SecurityDecision, SecurityError, DecisionKind, grant, denial,
  safe_plugin_violation, capability_denied, audit, verify, first_denied, is_safe, is_empty,
  is_clean, sanitize_detail,
}
use wyrtloom.Security.Detail.{Chars, declared_capabilities, requested_denied, verified}

-- The policy accepts the manifest: a safe plugin declares nothing, and each capability is allowed.
pub record Accepted (p : SecurityPolicy) (manifest : PluginManifest) : Type 0 where
  pub nothing_if_safe : (is_safe manifest.class && not (is_empty manifest.capabilities)) ≡ false
  pub all_allowed : All (λ cap. is_allowed p cap ≡ true) manifest.capabilities

first_denied_iff :
    (p : SecurityPolicy) (caps : List Capability)
    → (first_denied p caps ≡ none) ↔ All (λ cap. is_allowed p cap ≡ true) caps
unfolding first_denied
first_denied_iff p [] = ((λ h. tt), λ h. refl)
first_denied_iff p (cap ∷ caps) =
    let ih = first_denied_iff p caps in
    elim (Bool-cases (is_allowed p cap)) [
      | inl good ↦ ground (arith, ih, good)
      | inr bad ↦ ground (arith, bad)
    ]

-- One entry more in the log, of the kind.
abbrev Logs : SecurityModule → SecurityModule → DecisionKind → Type 0
Logs m n kind =
    (entry : SecurityDecision) × (n.audit_log ≡ m.audit_log ++ entry ∷ []) × (entry.kind ≡ kind)

abbrev kind_of : Option SecurityError → DecisionKind
kind_of none = grant
kind_of (some e) = denial

abbrev pub Decided :
    SecurityModule → PluginManifest → Option SecurityError × SecurityModule → Type 0
Decided m manifest r = ((r.0 ≡ none) ↔ Accepted m.policy manifest) × Logs m r.1 (kind_of r.0)

-- A manifest is verified exactly when the policy accepts it, and either way the log gains one entry,
-- a grant or a denial accordingly.
pub verify_lem :
    (c : Crypto) (m : SecurityModule) (at : Timestamp) (manifest : PluginManifest)
    → Decided m manifest (verify c m at manifest)
unfolding verify audit
verify_lem c m at manifest =
    let k = first_denied_iff m.policy manifest.capabilities in
    elim (Bool-cases (is_safe manifest.class && not (is_empty manifest.capabilities))) [
      | inl bad ↦
          let d = declared_capabilities manifest.name manifest.capabilities in
          let e : verify c m at manifest ≡ (some safe_plugin_violation, audit c m at denial d) =
            ground (arith, bad) in
          subst (Decided m manifest) (sym e)
            (((λ h. cc), λ a. cc (bad, a.nothing_if_safe)), (_, refl, refl))
      | inr fine ↦ elim (Option-cases (first_denied m.policy manifest.capabilities)) [
        | inl free ↦
            let d = verified manifest.name manifest.version manifest.class in
            let e : verify c m at manifest ≡ (none, audit c m at grant d) =
              ground (arith, fine, free) in
            subst (Decided m manifest) (sym e) (
              ((λ h. record { nothing_if_safe = fine; all_allowed = k.0 free }), λ a. refl),
              (_, refl, refl),
            )
        | inr (cap, denied) ↦
            let d = requested_denied manifest.name cap in
            let e : verify c m at manifest ≡ (some (capability_denied cap), audit c m at denial d) =
              ground (arith, fine, denied) in
            subst (Decided m manifest) (sym e)
              (((λ h. cc), λ a. cc (denied, k.1 a.all_allowed)), (_, refl, refl))
      ]
    ]

keep-clean : (s : Chars) → All (λ ch. is_clean ch ≡ true) (keep is_clean s)
keep-clean [] = tt
keep-clean (ch ∷ s) = elim (Bool-cases (is_clean ch)) [
  | inl good ↦ ground (arith, good, keep-clean s)
  | inr bad ↦ ground (arith, bad, keep-clean s)
]

take-All :
    (n : ℕ) (s : Chars)
    → All (λ ch. is_clean ch ≡ true) s
    → All (λ ch. is_clean ch ≡ true) (take n s)
take-All zero s h = tt
take-All (suc n) [] h = tt
take-All (suc n) (ch ∷ s) h = (h.0, take-All n s h.1)

keep-All : (s : Chars) → All (λ ch. is_clean ch ≡ true) s → keep is_clean s ≡ s
keep-All [] h = refl
keep-All (ch ∷ s) h = ground (arith, h.0, keep-All s h.1)

take-take : (n : ℕ) (s : Chars) → take n (take n s) ≡ take n s
take-take zero s = refl
take-take (suc n) [] = refl
take-take (suc n) (ch ∷ s) = ap (λ t. ch ∷ t) (take-take n s)

-- The text that a decision records has at most 512 characters, none of them a control, bidirectional
-- or format character, and cleaning it again changes nothing.
pub sanitize_detail_lem :
    (s : Chars)
    → (length (sanitize_detail s) ≤ 512)
      × All (λ ch. is_clean ch ≡ true) (sanitize_detail s)
      × (sanitize_detail (sanitize_detail s) ≡ sanitize_detail s)
unfolding sanitize_detail
sanitize_detail_lem s =
    let clean = take-All 512 (keep is_clean s) (keep-clean s) in
    (
      omega (arith, length-take 512 (keep is_clean s)),
      clean,
      ap (take 512) (keep-All _ clean) ∙ take-take 512 _,
    )
