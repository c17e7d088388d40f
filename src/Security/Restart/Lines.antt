-- ===== src/Security/Restart/Lines.antt =====
-- The lines that audited decisions leave in a file, and their reading.
use mathlib.Core.List.{append_assoc, append-nil}
use wyrtloom.Base.{
  ℕ, ◌+◌, ◌≤◌, ◌≡◌, refl, sym, ap, ◌∙◌, arith, true, false, some, List, [], ◌∷◌, ◌++◌, All, map,
  take, length, ltb, ◌==◌, zero, suc,
}
use wyrtloom.Kanban.{Timestamp}
use wyrtloom.Canon.{Bytes}
use wyrtloom.Db.{ok}
use wyrtloom.Security.Policy.{SecurityPolicy}
use wyrtloom.Security.Audit.{
  Crypto, SecurityModule, next_entry, advanced, written, pushed, write_line, SecurityDecision,
  DecisionKind, chain_link, verify_chain, audit, with_key,
}
use wyrtloom.Security.Detail.{Detail}
use wyrtloom.Security.Chain.{Linked, Linked→chain_loop, link}
use wyrtloom.Security.Reload.{
  whole, max_audit_file_bytes, contents, strip_cr, lines, Reader, load, checked, with_audit_file,
}

module _ (c : Crypto) where
  -- The lines of a log.
  abbrev pub lines_of : List SecurityDecision → Bytes
  lines_of [] = []
  lines_of (d ∷ log) = c.to_json d ++ 10 ∷ lines_of log

  lines_of-snoc :
      (log : List SecurityDecision) (d : SecurityDecision)
      → lines_of (log ++ d ∷ []) ≡ lines_of log ++ c.to_json d ++ 10 ∷ []
  lines_of-snoc [] d = refl
  lines_of-snoc (e ∷ log) d =
      ap (λ l. c.to_json e ++ 10 ∷ l) (lines_of-snoc log d)
      ∙ sym (append_assoc (c.to_json e) (10 ∷ lines_of log ++ c.to_json d) (10 ∷ []))
      ∙ ap (λ l. l ++ 10 ∷ []) (sym (append_assoc (c.to_json e) (10 ∷ lines_of log) (c.to_json d)))

  -- The file holds the lines of the log.
  abbrev pub Written : SecurityModule → Type 0
  Written m = m.audit_file ≡ some (whole (lines_of m.audit_log))

  pub audit-Written :
      (m : SecurityModule) (at : Timestamp) (kind : DecisionKind) (detail : Detail)
      → Written m
      → Written (audit c m at kind detail)
  unfolding audit advanced written pushed write_line
  audit-Written m at kind detail h =
      let e = next_entry c m at kind detail in
      rw h (
        ap (λ b. some (whole b))
          (sym (append_assoc (lines_of m.audit_log) (c.to_json e) (10 ∷ []))
            ∙ sym (lines_of-snoc m.audit_log e)))

  -- The last link of a log.
  abbrev pub last_link : Bytes → Bytes → List SecurityDecision → Bytes
  last_link key first [] = first
  last_link key first (d ∷ log) = last_link key (link c key (c.to_json d)) log

  pub Linked-last :
      (key first last : Bytes) (log : List SecurityDecision)
      → Linked c key first log last
      → last_link key first log ≡ last
  Linked-last key first last [] h = h
  Linked-last key first last (d ∷ log) h = Linked-last key (link c key (c.to_json d)) last log h.1

  module _ (r : Reader c) where
    lines-byte :
        (part : Bytes) (b : ℕ) (s : Bytes)
        → (b == 10) ≡ false
        → lines part (b ∷ s) ≡ lines (part ++ b ∷ []) s
    unfolding lines
    lines-byte part b s h = rw (h, lines) refl

    -- A line without a line feed, and the feed.
    lines-line :
        (part s rest : Bytes)
        → All (λ b. (b == 10) ≡ false) s
        → lines part (s ++ 10 ∷ rest) ≡ strip_cr (part ++ s) ∷ lines [] rest
    unfolding lines
    lines-line part [] rest h = rw (append-nil part) refl
    lines-line part (b ∷ s) rest h =
        lines-byte part b (s ++ 10 ∷ rest) h.0
        ∙ lines-line (part ++ b ∷ []) s rest h.1
        ∙ ap (λ l. strip_cr l ∷ lines [] rest) (append_assoc part (b ∷ []) s)

    lines-lines_of : (log : List SecurityDecision) → lines [] (lines_of log) ≡ map c.to_json log
    unfolding lines
    lines-lines_of [] = refl
    lines-lines_of (d ∷ log) =
        lines-line [] (c.to_json d) (lines_of log) (r.to_json-one_line d)
        ∙ ap (λ l. l ∷ lines [] (lines_of log)) (r.to_json-no_cr d)
        ∙ ap (λ l. c.to_json d ∷ l) (lines-lines_of log)

    is_utf8-lines_of : (log : List SecurityDecision) → r.is_utf8 (lines_of log) ≡ true
    is_utf8-lines_of [] = r.is_utf8-nil
    is_utf8-lines_of (d ∷ log) = r.is_utf8-line d (lines_of log) (is_utf8-lines_of log)

    load-lines :
        (m : SecurityModule) (log : List SecurityDecision)
        → load c r m (map c.to_json log)
          ≡ ok (record m {
            last_hash = last_link m.k_audit m.last_hash log;
            audit_log = m.audit_log ++ log;
          })
    unfolding load chain_link
    load-lines m [] =
        ap (λ (l : List SecurityDecision). ok (record m { audit_log = l }))
          (sym (append-nil m.audit_log))
    load-lines m (d ∷ log) = rw (r.to_json-not_blank d) (
        rw (r.from_json-to_json d) (
          load-lines
            (record m {
              last_hash = chain_link c m (c.to_json d);
              audit_log = m.audit_log ++ d ∷ [];
            })
            log
          ∙ ap
              (λ (l : List SecurityDecision). ok (record m {
                last_hash = last_link m.k_audit (link c m.k_audit (c.to_json d)) log;
                audit_log = l;
              }))
              (append_assoc m.audit_log (d ∷ []) log)))

    take-all : (n : ℕ) (xs : Bytes) → length xs ≤ n → take n xs ≡ xs
    take-all zero [] h = refl
    take-all zero (x ∷ xs) h = absurd (omega (arith, h))
    take-all (suc n) [] h = refl
    take-all (suc n) (x ∷ xs) h = ap (λ l. x ∷ l) (take-all n xs (omega (arith, h)))

    -- The module that opens the lines of a log.
    abbrev resumed : SecurityModule → List SecurityDecision → SecurityModule
    resumed m log = record m {
      audit_log = log;
      last_hash = last_link m.k_audit [] log;
      audit_file = some (whole (lines_of log));
    }

    small : (n m : ℕ) → n ≤ m → ltb m n ≡ false
    small n m h = ground (arith, h)

    pub opens :
        (key : Bytes) (policy : SecurityPolicy) (log : List SecurityDecision)
        → length (lines_of log) ≤ max_audit_file_bytes
        → Linked c
            (with_key c key policy).k_audit
            []
            log
            (last_link (with_key c key policy).k_audit [] log)
        → with_audit_file c r (with_key c key policy) (contents (whole (lines_of log)))
          ≡ ok (resumed (with_key c key policy) log)
    unfolding with_audit_file checked verify_chain with_key
    opens key policy log h l =
        let m = with_key c key policy in
        let full = take-all (max_audit_file_bytes + 1) (lines_of log) (omega (arith, h)) in
        rw full (
          rw (small (length (lines_of log)) max_audit_file_bytes h) (
            rw (is_utf8-lines_of log) (
              rw (lines-lines_of log) (
                rw (load-lines m log) (
                  rw (Linked→chain_loop c (resumed m log) 0 [] (last_link m.k_audit [] log) log l)
                    refl)))))
