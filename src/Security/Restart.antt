-- ===== src/Security/Restart.antt =====
-- An audit file that a module has written, opened again by a new module with the same key.
mod Lines
use mathlib.Core.List.{append_assoc, append-nil}
use wyrtloom.Base.{
  ℕ, ◌+◌, ◌≤◌, ◌≡◌, refl, sym, ap, ◌∙◌, subst, arith, true, false, some, List, [], ◌∷◌, ◌++◌, All,
  map, take, length, length-take, ltb, ◌==◌, Bool-cases, inl, inr, zero, suc,
}
use wyrtloom.Kanban.{Timestamp}
use wyrtloom.Canon.{Bytes}
use wyrtloom.Db.{ok}
use wyrtloom.Db.Laws.{inside, err≢ok}
use wyrtloom.Security.Policy.{SecurityPolicy}
use wyrtloom.Security.Audit.{
  Crypto, LogFile, SecurityModule, next_entry, advanced, written, pushed, write_line,
  SecurityDecision, DecisionKind, chain_link, verify_chain, audit, with_key, derive_subkey,
  audit_label,
}
use wyrtloom.Security.Detail.{Detail}
use wyrtloom.Security.Chain.{
  Call, calls, calls-keeps, audit-IsChained, IsChained, Linked, Linked→chain_loop, link,
}
use wyrtloom.Security.Reload.{
  whole, max_audit_file_bytes, contents, strip_cr, lines, Reader, load, checked, with_audit_file,
}
use wyrtloom.Security.Restart.Lines.{
  lines_of, last_link, Written, audit-Written, Linked-last, opens,
}

same_bytes : {f g : LogFile} → some f ≡ some g → f.bytes ≡ g.bytes
same_bytes {f} {g} e = let same : f ≡ g = cc in ap (λ (x : LogFile). x.bytes) same

not_ltb : (a b : ℕ) → ltb a b ≡ false → b ≤ a
not_ltb a b h = ground (arith, h)

module _ (c : Crypto) (r : Reader c) where
  -- A module with the key that has opened an empty file, or the file of such a module; and then any
  -- calls, of `verify`, `stamp`, `invalidate` and `record_decision`.
  pub data Running (key : Bytes) : SecurityModule → Type 0 where
    opened :
        (policy : SecurityPolicy) (m : SecurityModule)
        → with_audit_file c r (with_key c key policy) (contents (whole [])) ≡ ok m
        → Running key m
    called : (os : List Call) (m : SecurityModule) → Running key m → Running key (calls c m os)
    reopened :
        (policy : SecurityPolicy) (file : Bytes) (m n : SecurityModule)
        → Running key m
        → m.audit_file ≡ some (whole file)
        → with_audit_file c r (with_key c key policy) (contents (whole file)) ≡ ok n
        → Running key n

  -- The module's key, its file and the chain of its log.
  record Sound (key : Bytes) (m : SecurityModule) : Type 0 where
    chain_key : m.k_audit ≡ derive_subkey c key audit_label
    file : Written c m
    chained : IsChained c m

  audit-Sound :
      (key : Bytes) (m : SecurityModule) (at : Timestamp) (kind : DecisionKind) (detail : Detail)
      → Sound key m
      → Sound key (audit c m at kind detail)
  unfolding audit
  audit-Sound key m at kind detail h = record {
    chain_key = h.chain_key;
    file = audit-Written c m at kind detail h.file;
    chained = audit-IsChained c m at kind detail h.chained;
  }

  -- What the opening of a sound module's file gives.
  Sound-opens :
      (key : Bytes) (policy : SecurityPolicy) (m : SecurityModule)
      → Sound key m
      → length (lines_of c m.audit_log) ≤ max_audit_file_bytes
      → with_audit_file c r (with_key c key policy) (contents (whole (lines_of c m.audit_log)))
        ≡ ok (record (with_key c key policy) {
          audit_log = m.audit_log;
          last_hash = m.last_hash;
          audit_file = some (whole (lines_of c m.audit_log));
        })
  unfolding with_key
  Sound-opens key policy m s h =
      let l = rw s.chain_key at s.chained in
      let last = Linked-last c _ [] m.last_hash m.audit_log l in
      opens c r key policy m.audit_log h (rw last l)
      ∙ ap
          (λ (b : Bytes). ok (record (with_key c key policy) {
            audit_log = m.audit_log;
            last_hash = b;
            audit_file = some (whole (lines_of c m.audit_log));
          }))
          last

  -- A file that has been opened is not too large.
  opened_small :
      (m n : SecurityModule) (file : Bytes)
      → with_audit_file c r m (contents (whole file)) ≡ ok n
      → length file ≤ max_audit_file_bytes
  unfolding with_audit_file
  opened_small m n file e =
      elim (Bool-cases (ltb max_audit_file_bytes (length (take (max_audit_file_bytes + 1) file)))) [
        | inl h ↦ absurd (err≢ok (rw h at e))
        | inr h ↦
            let k = not_ltb _ _ h in omega (arith, k, length-take (max_audit_file_bytes + 1) file)
      ]

  resumed-Sound :
      (key : Bytes) (policy : SecurityPolicy) (m n : SecurityModule) (file : Bytes)
      → Sound key m
      → m.audit_file ≡ some (whole file)
      → with_audit_file c r (with_key c key policy) (contents (whole file)) ≡ ok n
      → Sound key n
  unfolding with_key
  resumed-Sound key policy m n file s f e =
      let same = same_bytes (sym f ∙ s.file) in
      let small = opened_small (with_key c key policy) n file e in
      let again =
        Sound-opens key policy m s (subst (λ b. length b ≤ max_audit_file_bytes) same small) in
      let e' =
        subst (λ b. with_audit_file c r (with_key c key policy) (contents (whole b)) ≡ ok n) same
          e in
      subst (Sound key) (inside (sym again ∙ e'))
        (record { chain_key = refl; file = refl; chained = rw s.chain_key at s.chained })

  Running-Sound : (key : Bytes) (m : SecurityModule) → Running key m → Sound key m
  unfolding with_key
  Running-Sound key m (Running.opened policy n e) =
      subst (Sound key) (inside (sym (opens c r key policy [] (omega arith) refl) ∙ e))
        (record { chain_key = refl; file = refl; chained = refl })
  Running-Sound key m (Running.called os n h) =
      calls-keeps c (Sound key) (audit-Sound key)
        (λ m l s. record { chain_key = s.chain_key; file = s.file; chained = s.chained }) n os
        (Running-Sound key n h)
  Running-Sound key m (Running.reopened policy file k n h f e) =
      resumed-Sound key policy k n file (Running-Sound key k h) f e

  -- After any calls, one after the other, and restarts with one key from an empty audit file, where
  -- every line reaches the file as a whole: a new module with the key opens the file, if it has at
  -- most 64 MiB, and resumes the same log with the same last hash, under its own policy; and what was
  -- revoked is not there.
  pub Running-reopens :
      (key : Bytes) (policy : SecurityPolicy) (m : SecurityModule) (file : Bytes)
      → Running key m
      → m.audit_file ≡ some (whole file)
      → length file ≤ max_audit_file_bytes
      → with_audit_file c r (with_key c key policy) (contents (whole file))
        ≡ ok (record (with_key c key policy) {
          audit_log = m.audit_log;
          last_hash = m.last_hash;
          audit_file = some (whole file);
        })
  Running-reopens key policy m file h f small =
      let s = Running-Sound key m h in
      let same = same_bytes (sym f ∙ s.file) in
      subst
        (λ (b : Bytes).
          with_audit_file c r (with_key c key policy) (contents (whole b))
          ≡ ok (record (with_key c key policy) {
            audit_log = m.audit_log;
            last_hash = m.last_hash;
            audit_file = some (whole b);
          }))
        (sym same)
        (Sound-opens key policy m s (subst (λ b. length b ≤ max_audit_file_bytes) same small))
