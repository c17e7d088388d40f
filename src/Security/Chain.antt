-- ===== src/Security/Chain.antt =====
-- The audit log under the module's methods, and the check of its chain.
use wyrtloom.Base.{
  ℕ, suc, ◌≡◌, inl, inr, refl, sym, ◌∙◌, arith, Bool, not, none, List, [], ◌∷◌, ◌++◌, Bool-cases,
  Option-cases, ◌&&◌, subst, if◌then◌else◌,
}
use wyrtloom.Kanban.{Timestamp}
use wyrtloom.Canon.{Bytes}
use wyrtloom.Security.Policy.{PluginManifest, SecurityPolicy, bytes_eq}
use wyrtloom.Security.Policy.Paths.{bytes_eq_iff}
use wyrtloom.Security.Audit.{
  Stamp, Crypto, SecurityModule, SecurityDecision, DecisionKind, hex, chain_tag, chain_link,
  chain_loop, verify_chain, audit, verify, stamp, invalidate, record_decision, with_key,
  first_denied, is_safe, compute_mac, stamp_ref, stamp_issued, stamp_invalidated, sanitize_detail,
  is_empty, grant, denial,
}
use wyrtloom.Security.Detail.{
  issued_ref, invalidated_ref, recorded, Chars, Detail, declared_capabilities, requested_denied,
  verified,
}

-- A call of a method that changes the module, with the time it is made at.
pub data Call : Type 0 where
  call_verify : Timestamp → PluginManifest → Call
  call_stamp : Timestamp → Bytes → Call
  call_invalidate : Timestamp → Stamp → Call
  call_record : Timestamp → Bool → Chars → Call

module _ (c : Crypto) where
  unfoldable pub call : SecurityModule → Call → SecurityModule
  call m (call_verify at manifest) = (verify c m at manifest).1
  call m (call_stamp at content) = (stamp c m at content).1
  call m (call_invalidate at s) = invalidate c m at s
  call m (call_record at granted detail) = record_decision c m at granted detail

  unfoldable pub calls : SecurityModule → List Call → SecurityModule
  calls m [] = m
  calls m (o ∷ os) = calls (call m o) os

  abbrev pub link : Bytes → Bytes → Bytes
  link key serialized = hex (c.mac_with key (chain_tag ++ serialized))

  -- Each entry holds the link of the one before it, from the first hash to the last.
  abbrev pub Linked : Bytes → Bytes → List SecurityDecision → Bytes → Type 0
  Linked key first [] last = first ≡ last
  Linked key first (entry ∷ log) last =
      (entry.prev_hash ≡ first) × Linked key (link key (c.to_json entry)) log last

  pub chain_loop→Linked :
      (m : SecurityModule) (i : ℕ) (first : Bytes) (log : List SecurityDecision)
      → chain_loop c m i first log ≡ none
      → (last : Bytes) × Linked m.k_audit first log last
  unfolding chain_loop chain_link
  chain_loop→Linked m i first [] h = (first, refl)
  chain_loop→Linked m i first (entry ∷ log) h = elim (Bool-cases (bytes_eq entry.prev_hash first)) [
    | inl same ↦
        let (last, l) = chain_loop→Linked m (suc i) _ log (ground (arith, h, same)) in
        (last, ((bytes_eq_iff _ _).0 same, l))
    | inr other ↦ absurd (ground (arith, h, other))
  ]

  pub Linked→chain_loop :
      (m : SecurityModule) (i : ℕ) (first last : Bytes) (log : List SecurityDecision)
      → Linked m.k_audit first log last
      → chain_loop c m i first log ≡ none
  unfolding chain_loop chain_link
  Linked→chain_loop m i first last [] h = refl
  Linked→chain_loop m i first last (entry ∷ log) h =
      let same = (bytes_eq_iff _ _).1 h.0 in
      let ih = Linked→chain_loop m (suc i) _ last log h.1 in ground (arith, same, ih)

  pub Linked-snoc :
      (key first last : Bytes) (log : List SecurityDecision) (entry : SecurityDecision)
      → Linked key first log last
      → entry.prev_hash ≡ last
      → Linked key first (log ++ entry ∷ []) (link key (c.to_json entry))
  Linked-snoc key first last [] entry h e = (e ∙ sym h, refl)
  Linked-snoc key first last (d ∷ log) entry h e =
      (h.0, Linked-snoc key (link key (c.to_json d)) last log entry h.1 e)

  pub Linked-prefix :
      (key first last : Bytes) (xs zs : List SecurityDecision) (entry : SecurityDecision)
      → Linked key first (xs ++ entry ∷ zs) last
      → Linked key first xs entry.prev_hash
  Linked-prefix key first last [] zs entry h = sym h.0
  Linked-prefix key first last (d ∷ xs) zs entry h =
      (h.0, Linked-prefix key (link key (c.to_json d)) last xs zs entry h.1)

  abbrev pub IsChained : SecurityModule → Type 0
  IsChained m = Linked m.k_audit [] m.audit_log m.last_hash

  pub audit-IsChained :
      (m : SecurityModule) (at : Timestamp) (kind : DecisionKind) (detail : Detail)
      → IsChained m
      → IsChained (audit c m at kind detail)
  unfolding audit chain_link
  audit-IsChained m at kind detail h = Linked-snoc m.k_audit [] m.last_hash m.audit_log _ h refl

  pub verify-audit :
      (m : SecurityModule) (at : Timestamp) (manifest : PluginManifest)
      → (kind : DecisionKind) × (detail : Detail) × ((verify c m at manifest).1
          ≡ audit c m at kind detail)
  unfolding verify
  verify-audit m at manifest =
      elim (Bool-cases (is_safe manifest.class && not (is_empty manifest.capabilities))) [
        | inl bad ↦
            (denial, declared_capabilities manifest.name manifest.capabilities, ground (arith, bad))
        | inr fine ↦ elim (Option-cases (first_denied m.policy manifest.capabilities)) [
          | inl free ↦ (
            grant,
            verified manifest.name manifest.version manifest.class,
            ground (arith, fine, free),
          )
          | inr (cap, denied) ↦
              (denial, requested_denied manifest.name cap, ground (arith, fine, denied))
        ]
      ]

  -- What each audited decision keeps, and no revocation touches, the calls keep.
  module _ (P : SecurityModule → Type 0)
      (audited : (m : SecurityModule) (at : Timestamp) (kind : DecisionKind) (detail : Detail)
        → P m
        → P (audit c m at kind detail))
      (revoked : (m : SecurityModule) (l : List Stamp)
        → P m
        → P (record m { invalidated = l })) where
    call-keeps : (m : SecurityModule) (o : Call) → P m → P (call m o)
    unfolding call stamp invalidate record_decision
    call-keeps m (call_verify at manifest) h =
        let (kind, detail, e) = verify-audit m at manifest in
        subst P (sym e) (audited m at kind detail h)
    call-keeps m (call_stamp at content) h =
        audited m at stamp_issued (issued_ref (stamp_ref c (compute_mac c m content))) h
    call-keeps m (call_invalidate at s) h =
        revoked (audit c m at stamp_invalidated (invalidated_ref (stamp_ref c s.mac))) _
          (audited m at stamp_invalidated (invalidated_ref (stamp_ref c s.mac)) h)
    call-keeps m (call_record at granted detail) h =
        audited m at (if granted then grant else denial) (recorded (sanitize_detail detail)) h

    pub calls-keeps : (m : SecurityModule) (os : List Call) → P m → P (calls m os)
    unfolding calls
    calls-keeps m [] h = h
    calls-keeps m (o ∷ os) h = calls-keeps (call m o) os (call-keeps m o h)

  pub calls-IsChained : (m : SecurityModule) (os : List Call) → IsChained m → IsChained (calls m os)
  calls-IsChained = calls-keeps IsChained audit-IsChained (λ m l h. h)

  -- Whatever is called on a new module, one call after the other and in whatever order, its audit chain
  -- then verifies.
  pub calls-verify_chain :
      (key : Bytes) (policy : SecurityPolicy) (os : List Call)
      → verify_chain c (calls (with_key c key policy) os) ≡ none
  unfolding verify_chain with_key
  calls-verify_chain key policy os =
      let m = with_key c key policy in
      Linked→chain_loop (calls m os) 0 [] _ _ (calls-IsChained m os refl)
