-- ===== src/Security/Interleaved.antt =====
-- Callers of `audit` that run at once: crates/core/src/security.rs lets go of the lock of the last hash
-- before it takes the file's, and of that before the log's, so that the parts of different calls come
-- in any order, each call's own in theirs.
use mathlib.Core.List.{append_assoc, append-nil, Perm}
use mathlib.Core.List.Perm
use wyrtloom.Base.{
  Option, ◌≡◌, refl, sym, ap, ◌∙◌, subst, none, Bool, true, false, List, [], ◌∷◌, ◌++◌, map,
}
use wyrtloom.Kanban.{Timestamp}
use wyrtloom.Canon.{Bytes}
use wyrtloom.Security.Policy.{SecurityPolicy}
use wyrtloom.Security.Detail.{Detail}
use wyrtloom.Security.Audit.{
  LogFile, Stamp, Crypto, SecurityModule, SecurityDecision, DecisionKind, next_entry, advanced,
  written, pushed, audit, chain_link, with_key, verify_chain,
}
use wyrtloom.Security.Chain.{Linked, Linked-snoc, Linked→chain_loop}

-- A call between its parts: its entry, and whether its line has been written.
pub record Flight : Type 0 where
  pub entry : SecurityDecision
  pub wrote : Bool

abbrev pub flight : Bool → SecurityDecision → Flight
flight b e = record { entry = e; wrote = b }

abbrev pub decision_of : Flight → SecurityDecision
decision_of f = f.entry

module _ (c : Crypto) where
  -- One part of some call; or a stamp is revoked, after the part of `invalidate` that audits.
  pub data Step : SecurityModule → List Flight → SecurityModule → List Flight → Type 0 where
    links :
        (m : SecurityModule) (fs : List Flight) (at : Timestamp) (kind : DecisionKind)
        (detail : Detail)
        → Step m fs
            (advanced c m (next_entry c m at kind detail))
            (fs ++ flight false (next_entry c m at kind detail) ∷ [])
    writes :
        (m : SecurityModule) (fs gs : List Flight) (e : SecurityDecision)
        → Step m (fs ++ flight false e ∷ gs) (written c m e) (fs ++ flight true e ∷ gs)
    logs :
        (m : SecurityModule) (fs gs : List Flight) (e : SecurityDecision)
        → Step m (fs ++ flight true e ∷ gs) (pushed c m e) (fs ++ gs)
    revokes :
        (m : SecurityModule) (fs : List Flight) (l : List Stamp)
        → Step m fs (record m { invalidated = l }) fs

  pub data Steps (m : SecurityModule) (fs : List Flight)
      : SecurityModule → List Flight → Type 0 where
    here : Steps m fs m fs
    then :
        {n o : SecurityModule} {gs hs : List Flight}
        → Steps m fs n gs
        → Step n gs o hs
        → Steps m fs o hs

  -- The entries that the steps linked, in the order of their links.
  abbrev linked :
      {m n : SecurityModule} {fs gs : List Flight} → Step m fs n gs → List SecurityDecision
  linked (links m fs at kind detail) = next_entry c m at kind detail ∷ []
  linked (writes m fs gs e) = []
  linked (logs m fs gs e) = []
  linked (revokes m fs l) = []

  abbrev pub all_linked :
      {m : SecurityModule} {fs : List Flight} {n : SecurityModule} {gs : List Flight}
      → Steps m fs n gs
      → List SecurityDecision
  all_linked here = []
  all_linked (then s t) = all_linked s ++ linked t

  -- The chain's entries are those of the log and of the calls between their parts.
  abbrev pub IsAccounted : List SecurityDecision → SecurityModule → List Flight → Type 0
  IsAccounted chain m fs =
      Linked c m.k_audit [] chain m.last_hash × Perm (m.audit_log ++ map decision_of fs) chain

  middle :
      (b : Bool) (fs gs : List Flight) (e : SecurityDecision)
      → Perm (e ∷ map decision_of (fs ++ gs)) (map decision_of (fs ++ flight b e ∷ gs))
  middle b [] gs e = Perm.refl (e ∷ map decision_of gs)
  middle b (f ∷ fs) gs e =
      Perm.trans (Perm.swap f.entry e (map decision_of (fs ++ gs)))
        (Perm.cons f.entry (middle b fs gs e))

  map-snoc :
      (fs : List Flight) (f : Flight)
      → map decision_of (fs ++ f ∷ []) ≡ map decision_of fs ++ f.entry ∷ []
  map-snoc [] f = refl
  map-snoc (g ∷ fs) f = ap (λ l. g.entry ∷ l) (map-snoc fs f)

  -- A call's entry moves from the calls between their parts to the log.
  one_out :
      (log : List SecurityDecision) (b : Bool) (fs gs : List Flight) (e : SecurityDecision)
      → Perm
          (log ++ e ∷ [] ++ map decision_of (fs ++ gs))
          (log ++ map decision_of (fs ++ flight b e ∷ gs))
  one_out log b fs gs e =
      subst (λ x. Perm x (log ++ map decision_of (fs ++ flight b e ∷ gs)))
        (sym (append_assoc log (e ∷ []) (map decision_of (fs ++ gs))))
        (Perm.append_left log (middle b fs gs e))

  same_entries :
      (fs gs : List Flight) (e : SecurityDecision)
      → map decision_of (fs ++ flight true e ∷ gs) ≡ map decision_of (fs ++ flight false e ∷ gs)
  same_entries [] gs e = refl
  same_entries (f ∷ fs) gs e = ap (λ l. f.entry ∷ l) (same_entries fs gs e)

  Step-IsAccounted :
      {m n : SecurityModule} {fs gs : List Flight} (chain : List SecurityDecision)
      (t : Step m fs n gs)
      → IsAccounted chain m fs
      → IsAccounted (chain ++ linked t) n gs
  unfolding next_entry advanced written pushed chain_link
  Step-IsAccounted chain (links m fs at kind detail) (l, p) =
      let e = next_entry c m at kind detail in
      (
        Linked-snoc c m.k_audit [] m.last_hash chain e l refl,
        subst (λ x. Perm x (chain ++ e ∷ []))
            (append_assoc m.audit_log (map decision_of fs) (e ∷ [])
              ∙ ap (λ x. m.audit_log ++ x) (sym (map-snoc fs (flight false e))))
            (Perm.append_right (e ∷ []) p),
      )
  Step-IsAccounted chain (writes m fs gs e) (l, p) =
      rw (append-nil chain)
        (l, subst (λ x. Perm (m.audit_log ++ x) chain) (sym (same_entries fs gs e)) p)
  Step-IsAccounted chain (logs m fs gs e) (l, p) =
      rw (append-nil chain) (l, Perm.trans (one_out m.audit_log true fs gs e) p)
  Step-IsAccounted chain (revokes m fs x) h = rw (append-nil chain) h

  Steps-IsAccounted :
      {m : SecurityModule} {fs : List Flight} {n : SecurityModule} {gs : List Flight}
      (s : Steps m fs n gs)
      → IsAccounted [] m fs
      → IsAccounted (all_linked s) n gs
  Steps-IsAccounted here h = h
  Steps-IsAccounted (then s t) h = Step-IsAccounted (all_linked s) t (Steps-IsAccounted s h)

  -- A call that no other interrupts is its three parts.
  pub audit-Steps :
      (m : SecurityModule) (at : Timestamp) (kind : DecisionKind) (detail : Detail)
      → Steps m [] (audit c m at kind detail) []
  unfolding audit
  audit-Steps m at kind detail =
      let e = next_entry c m at kind detail in
      then (then (then here (links m [] at kind detail)) (writes (advanced c m e) [] [] e))
        (logs (written c (advanced c m e) e) [] [] e)

  -- However the parts of any calls on a new module come one after the other, and however much of each
  -- line reaches its file, if it has one: the decisions of the log, with those of the calls that are
  -- still between their parts, are the decisions that the calls have linked, each as often, but maybe in
  -- another order; and in the order of their links they are a chain, which ends in the module's last
  -- hash and which `verify_chain` accepts as a log.
  pub Steps-verify_chain :
      (key : Bytes) (policy : SecurityPolicy) (file : Option LogFile) (m : SecurityModule)
      (fs : List Flight) (s : Steps (record (with_key c key policy) { audit_file = file }) [] m fs)
      → Perm (m.audit_log ++ map decision_of fs) (all_linked s)
        × Linked c m.k_audit [] (all_linked s) m.last_hash
        × (verify_chain c (record m { audit_log = all_linked s }) ≡ none)
  unfolding verify_chain with_key
  Steps-verify_chain key policy file m fs s =
      let (l, p) = Steps-IsAccounted s (refl, Perm.refl []) in
      (
        p,
        l,
        Linked→chain_loop c (record m { audit_log = all_linked s }) 0 [] m.last_hash (all_linked s)
            l,
      )
