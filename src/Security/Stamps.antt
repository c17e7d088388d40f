-- ===== src/Security/Stamps.antt =====
-- Stamps: what a stamp is valid for, and for how long.
use wyrtloom.Base.{
  ◌≡◌, inl, inr, refl, sym, ap, ◌∙◌, arith, Bool, true, false, not, ◌&&◌, ◌||◌, List, [], ◌∷◌, any,
  Bool-cases, length,
}
use wyrtloom.Kanban.{Timestamp}
use wyrtloom.Canon.{Bytes}
use wyrtloom.Security.Policy.{bytes_eq}
use wyrtloom.Security.Policy.Paths.{bytes_eq_iff}
use wyrtloom.Security.Audit.{
  Stamp, Crypto, SecurityModule, stamp_eq, compute_mac, audit, stamp, is_valid, invalidate,
  record_decision,
}
use wyrtloom.Security.Chain.{
  Call, call_verify, call_stamp, call_invalidate, call_record, call, calls, verify-audit,
}
use wyrtloom.Security.Compare.{constant_time_eq_iff}

-- The call revokes the stamp.
unfoldable pub revokes : Stamp → Call → Bool
revokes s (call_invalidate at t) = stamp_eq s t
revokes s _ = false

module _ (c : Crypto) where
  call-k_session : (m : SecurityModule) (o : Call) → (call c m o).k_session ≡ m.k_session
  unfolding call stamp invalidate record_decision audit
  call-k_session m (call_verify at manifest) =
      let (kind, detail, e) = verify-audit c m at manifest in ap (λ n. n.k_session) e
  call-k_session m (call_stamp at content) = refl
  call-k_session m (call_invalidate at s) = refl
  call-k_session m (call_record at granted detail) = refl

  invalidate_lem :
      (m : SecurityModule) (at : Timestamp) (s t : Stamp)
      → any (stamp_eq s) (invalidate c m at t).invalidated
        ≡ (any (stamp_eq s) m.invalidated || stamp_eq s t)
  unfolding invalidate audit stamp_eq
  invalidate_lem m at s t = elim (Bool-cases (any (stamp_eq t) m.invalidated)) [
    | inl known ↦ elim (Bool-cases (stamp_eq s t)) [
      | inl same ↦
          let e : s ≡ t = ap (λ b. record { mac = b }) ((bytes_eq_iff s.mac t.mac).0 same) in
          let k : any (stamp_eq s) m.invalidated ≡ true =
            ap (λ u. any (stamp_eq u) m.invalidated) e ∙ known in
          ground (arith, known, same, k)
      | inr other ↦ ground (arith, known, other)
    ]
    | inr fresh ↦ ground (arith, fresh)
  ]

  call-invalidated :
      (m : SecurityModule) (o : Call) (s : Stamp)
      → any (stamp_eq s) (call c m o).invalidated ≡ (any (stamp_eq s) m.invalidated || revokes s o)
  unfolding call revokes stamp record_decision audit
  call-invalidated m (call_verify at manifest) s =
      let (kind, detail, e) = verify-audit c m at manifest in
      let k = ap (λ n. any (stamp_eq s) n.invalidated) e in ground (arith, k)
  call-invalidated m (call_stamp at content) s = ground arith
  call-invalidated m (call_invalidate at t) s = invalidate_lem m at s t
  call-invalidated m (call_record at granted detail) s = ground arith

  -- After any calls, a stamp of 32 bytes is valid for a content exactly when it is the MAC of the
  -- content under the module's session key and neither the module had it revoked before nor one of
  -- the calls revoked it.
  pub is_valid-calls :
      (m : SecurityModule) (os : List Call) (s : Stamp) (content : Bytes)
      → length s.mac ≡ 32
      → is_valid c (calls c m os) s content ≡ (
          bytes_eq s.mac (compute_mac c m content)
          && not (any (stamp_eq s) m.invalidated || any (revokes s) os))
  unfolding calls is_valid compute_mac
  is_valid-calls m [] s content l =
      let k =
        constant_time_eq_iff s.mac (c.mac_with m.k_session content)
          (l ∙ sym (c.length-mac m.k_session content)) in
      let b = bytes_eq_iff s.mac (c.mac_with m.k_session content) in ground (arith, k, b)
  is_valid-calls m (o ∷ os) s content l =
      let ih = is_valid-calls (call c m o) os s content l in
      let k = ap (λ key. bytes_eq s.mac (c.mac_with key content)) (call-k_session m o) in
      let b = call-invalidated m o s in ih ∙ ground (arith, k, b)

  -- A stamp that was just issued for a content stays valid for it over any calls until one of them
  -- revokes it, and from then on it is invalid, unless it was revoked before it was issued.
  pub stamp-is_valid :
      (m : SecurityModule) (at : Timestamp) (content : Bytes) (os : List Call)
      → is_valid c (calls c (stamp c m at content).1 os) (stamp c m at content).0 content
        ≡ not (
            any (stamp_eq (stamp c m at content).0) m.invalidated
            || any (revokes (stamp c m at content).0) os)
  unfolding stamp audit compute_mac
  stamp-is_valid m at content os =
      let s = (stamp c m at content).0 in
      let e = is_valid-calls (stamp c m at content).1 os s content (c.length-mac _ _) in
      let same = (bytes_eq_iff s.mac s.mac).1 refl in e ∙ ground (arith, same)
