-- ===== src/Security/Races.antt =====
-- Two callers whose parts of `audit` interleave: the second logs its entry first.
use mathlib.Core.List.{Perm}
use wyrtloom.Base.{Option, ◌≡◌, refl, true, false, none, some, [], ◌∷◌, ◌++◌, map}
use wyrtloom.Security.Policy.{deny_all, bytes_eq}
use wyrtloom.Security.Detail.{recorded}
use wyrtloom.Security.Audit.{
  LogFile, SecurityModule, SecurityDecision, grant, denial, integrity_failure, next_entry, advanced,
  written, pushed, with_key, verify_chain, chain_loop, chain_link,
}
use wyrtloom.Security.Chain.{Linked}
use wyrtloom.Security.Interleaved.{
  Steps, here, then, links, writes, logs, flight, decision_of, all_linked, Steps-verify_chain,
}
use wyrtloom.Security.Examples.{crypto, root_key}

-- A file that loses the first line that is written.
abbrev disk : Option LogFile
disk = some (record { bytes = []; short_writes = 0 ∷ [] })

abbrev start : SecurityModule
start = record (with_key crypto root_key deny_all) { audit_file = disk }

abbrev first : SecurityDecision
first = next_entry crypto start 1 grant (recorded [])

abbrev one_linked : SecurityModule
one_linked = advanced crypto start first

abbrev second : SecurityDecision
second = next_entry crypto one_linked 2 denial (recorded [])

abbrev two_written : SecurityModule
two_written = written crypto (written crypto (advanced crypto one_linked second) second) first

abbrev ended : SecurityModule
ended = pushed crypto (pushed crypto two_written second) first

race : Steps crypto start [] ended []
race =
    let s₁ = then here (links start [] 1 grant (recorded [])) in
    let s₂ = then s₁ (links one_linked (flight false first ∷ []) 2 denial (recorded [])) in
    let s₃ =
      then s₂ (writes (advanced crypto one_linked second) (flight false first ∷ []) [] second) in
    let s₄ = then s₃ (
      writes (written crypto (advanced crypto one_linked second) second) []
        (flight true second ∷ []) first) in
    let s₅ = then s₄ (logs two_written (flight true first ∷ []) [] second) in
    then s₅ (logs (pushed crypto two_written second) [] [] first)

Steps-verify_chain_example :
    Perm (ended.audit_log ++ map decision_of []) (all_linked crypto race)
    × Linked crypto ended.k_audit [] (all_linked crypto race) ended.last_hash
    × (verify_chain crypto (record ended { audit_log = all_linked crypto race }) ≡ none)
Steps-verify_chain_example = Steps-verify_chain crypto root_key deny_all disk ended [] race

-- The check of the chain then reports the first entry of a log that nobody has changed.
reported : verify_chain crypto ended ≡ some (integrity_failure 0)
unfolding verify_chain chain_loop chain_link bytes_eq with_key next_entry advanced written pushed
reported = refl
