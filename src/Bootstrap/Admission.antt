-- ===== src/Bootstrap/Admission.antt =====
-- Which plugins the start-up sequence admits, and what it leaves.
use mathlib.Core.List.{append_assoc, append-nil}
use wyrtloom.Base.{
  ℕ, suc, ◌≤◌, ◌≡◌, ◌↔◌, refl, sym, ap, ◌∙◌, subst, arith, Bool, true, false, not, ◌&&◌, Option,
  none, some, List, [], ◌∷◌, ◌++◌, All, all, length, ◌==◌, Bool-cases, Option-cases, inl, inr,
  if◌then◌else◌,
}
use wyrtloom.Kanban.{Timestamp}
use wyrtloom.Canon.{Bytes}
use wyrtloom.Db.{Result, ok, err}
use wyrtloom.Security.Policy.{
  SemVer, PluginManifest, SecurityPolicy, NameError, is_name_char, validate_name,
  is_compatible_with, permissive,
}
use wyrtloom.Security.Audit.{
  Crypto, SecurityModule, SecurityError, SecurityDecision, grant, self_check, audit, verify,
  new_module, with_key, verify_chain, is_safe, is_empty,
}
use wyrtloom.Security.Chain.{Call, call_verify, call, calls, verify-audit, calls-verify_chain}
use wyrtloom.Security.Decisions.{Accepted, Decided, verify_lem}
use wyrtloom.Plugins.{
  LoadError, safe_plugin_requested_capability, PluginRegistry, manifests, CoreContractVersions,
  v0_1, provided, is_compatible,
}
use wyrtloom.Bootstrap.{
  Channel, BootstrapError, security_init, plugin_load, BootstrappedSystem, publish, new_bus,
  check_contracts, check_manifest, and_load, name_fault, admit_one, admit_all, verified_by,
  then_admit, started, run,
}

-- From 1 to 64 characters, each a lower-case letter, a digit, - or _.
abbrev pub IsName : Bytes → Type 0
IsName name = (1 ≤ length name) × (length name ≤ 64) × All (λ b. is_name_char b ≡ true) name

-- The core provides the contract in the same major version, and a minor one that is no higher.
abbrev pub Provides : CoreContractVersions → Bytes × SemVer → Type 0
Provides versions (contract, v) =
    (core : SemVer) × (provided versions contract ≡ some core)
    × (v.major ≡ core.major)
    × (core.minor ≤ v.minor)

pub record Admissible (versions : CoreContractVersions) (policy : SecurityPolicy)
    (manifest : PluginManifest) : Type 0 where
  pub named : IsName manifest.name
  pub provides : All (Provides versions) manifest.implements
  pub accepted : Accepted policy manifest

all-All : {A : Type 0} (p : A → Bool) (xs : List A) → (all p xs ≡ true) ↔ All (λ x. p x ≡ true) xs
all-All p [] = ((λ e. tt), λ h. refl)
all-All p (x ∷ xs) = ground (arith, all-All p xs)

validate_name-IsName : (name : Bytes) → (validate_name name ≡ none) ↔ IsName name
unfolding validate_name
validate_name-IsName name = ground (arith, all-All is_name_char name)

is_compatible_with_lem :
    (v core : SemVer)
    → (is_compatible_with v core ≡ true) ↔ ((v.major ≡ core.major) × (core.minor ≤ v.minor))
unfolding is_compatible_with
is_compatible_with_lem v core = ground arith

same_version : {v w : SemVer} → some v ≡ some w → v ≡ w
same_version e = cc

is_compatible-Provides :
    (versions : CoreContractVersions) (contract : Bytes) (v : SemVer)
    → (is_compatible versions contract v ≡ true) ↔ Provides versions (contract, v)
unfolding is_compatible
is_compatible-Provides versions contract v = elim (Option-cases (provided versions contract)) [
  | inl e ↦
      let shut : is_compatible versions contract v ≡ false = rw (e, is_compatible) refl in
      ((λ h. cc), λ k. let found = k.1 in cc)
  | inr (core, e) ↦
      let open_ : is_compatible versions contract v ≡ is_compatible_with v core =
        rw (e, is_compatible) refl in
      let test = is_compatible_with_lem v core in
      (
        (λ h. let k = test.0 (sym open_ ∙ h) in (core, e, k.0, k.1)),
        λ k.
            let same = same_version (sym e ∙ k.1) in
            open_
            ∙ test.1 (
                subst (λ (w : SemVer). (v.major ≡ w.major) × (w.minor ≤ v.minor)) (sym same)
                  (k.2, k.3)),
      )
]

fault_found : {e : LoadError} → some e ≡ none → ⊥
fault_found h = cc

check_contracts-Provides :
    (versions : CoreContractVersions) (l : List (Bytes × SemVer))
    → (check_contracts versions l ≡ none) ↔ All (Provides versions) l
unfolding check_contracts
check_contracts-Provides versions [] = ((λ e. tt), λ h. refl)
check_contracts-Provides versions ((contract, v) ∷ l) =
    let one = is_compatible-Provides versions contract v in
    let rest = check_contracts-Provides versions l in
    elim (Bool-cases (is_compatible versions contract v)) [
      | inl e ↦
          let step : check_contracts versions ((contract, v) ∷ l) ≡ check_contracts versions l =
            rw (e, check_contracts) refl in
          ((λ h. (one.0 e, rest.0 (sym step ∙ h))), λ k. step ∙ rest.1 k.1)
      | inr e ↦ (
        (λ h. absurd (fault_found (rw (e, check_contracts) at h))),
        λ k. let good = one.1 k.0 in cc,
      )
    ]

abbrev quiet : PluginManifest → Bool
quiet m = is_safe m.class && not (is_empty m.capabilities)

and_load-none : (a b : Option LoadError) → (and_load a b ≡ none) ↔ ((a ≡ none) × (b ≡ none))
and_load-none a b = ground arith

name_fault-none : (o : Option NameError) → (name_fault o ≡ none) ↔ (o ≡ none)
name_fault-none o = ground arith

when-none : (b : Bool) (e : LoadError) → ((if b then some e else none) ≡ none) ↔ (b ≡ false)
when-none b e = ground arith

check_manifest-none :
    (versions : CoreContractVersions) (manifest : PluginManifest)
    → (check_manifest versions manifest ≡ none) ↔ (
        IsName manifest.name
        × All (Provides versions) manifest.implements
        × (quiet manifest ≡ false))
unfolding check_manifest
check_manifest-none versions manifest =
    let name = validate_name-IsName manifest.name in
    let fault = name_fault-none (validate_name manifest.name) in
    let contracts = check_contracts-Provides versions manifest.implements in
    let last = when-none (quiet manifest) safe_plugin_requested_capability in
    let inner =
      and_load-none (check_contracts versions manifest.implements)
        (if quiet manifest then some safe_plugin_requested_capability else none) in
    let outer = and_load-none (name_fault (validate_name manifest.name)) (
      and_load (check_contracts versions manifest.implements)
        (if quiet manifest then some safe_plugin_requested_capability else none)) in
    (
      (λ e.
          let (a, rest) = outer.0 e in
          let (b, d) = inner.0 rest in (name.0 (fault.0 a), contracts.0 b, last.0 d)),
      λ k. outer.1 (fault.1 (name.1 k.0), inner.1 (contracts.1 k.1, last.1 k.2)),
    )

-- One more entry of a grant.
abbrev Granted : SecurityModule → SecurityModule → Type 0
Granted m n =
    (entry : SecurityDecision) × (n.audit_log ≡ m.audit_log ++ entry ∷ []) × (entry.kind ≡ grant)

module _ (c : Crypto) where
  verify-policy :
      (m : SecurityModule) (at : Timestamp) (manifest : PluginManifest)
      → (verify c m at manifest).1.policy ≡ m.policy
  unfolding audit
  verify-policy m at manifest =
      let (kind, detail, e) = verify-audit c m at manifest in ap (λ n. n.policy) e

  module _ (clock : ℕ → Timestamp) (versions : CoreContractVersions) where
    -- The verifications of a list of manifests, as calls of the security module.
    abbrev verifications : ℕ → List PluginManifest → List Call
    verifications i [] = []
    verifications i (manifest ∷ rest) = call_verify (clock i) manifest ∷ verifications (suc i) rest

    abbrev One : ℕ → SecurityModule → PluginManifest → Result LoadError SecurityModule → Type 0
    One i m manifest (err e) = ¬ Admissible versions m.policy manifest
    One i m manifest (ok n) =
        Admissible versions m.policy manifest
        × (n ≡ call c m (call_verify (clock i) manifest))
        × (n.policy ≡ m.policy)
        × Granted m n

    verified-One :
        (i : ℕ) (m : SecurityModule) (manifest : PluginManifest)
        (v : Option SecurityError × SecurityModule)
        → verify c m (clock i) manifest ≡ v
        → check_manifest versions manifest ≡ none
        → One i m manifest (verified_by c clock v)
    unfolding call
    verified-One i m manifest (none, n) e h =
        let decided = subst (Decided m manifest) e (verify_lem c m (clock i) manifest) in
        let (name, provides, fine) = (check_manifest-none versions manifest).0 h in
        (
          record { named = name; provides = provides; accepted = decided.0.0 refl },
          ap (λ x. x.1) (sym e),
          ap (λ x. x.1.policy) (sym e) ∙ verify-policy m (clock i) manifest,
          decided.1,
        )
    verified-One i m manifest (some d, n) e h =
        let decided = subst (Decided m manifest) e (verify_lem c m (clock i) manifest) in
        λ a. let k = decided.0.1 a.accepted in cc

    checked-One :
        (i : ℕ) (m : SecurityModule) (manifest : PluginManifest) (o : Option LoadError)
        → check_manifest versions manifest ≡ o
        → One i m manifest
            (elim o [ some e ↦ err e | none ↦ verified_by c clock (verify c m (clock i) manifest) ])
    checked-One i m manifest none h = verified-One i m manifest _ refl h
    checked-One i m manifest (some d) h = λ a.
        let k =
          (check_manifest-none versions manifest).1
            (a.named, a.provides, a.accepted.nothing_if_safe) in
        cc

    admit_one-One :
        (i : ℕ) (m : SecurityModule) (manifest : PluginManifest)
        → One i m manifest (admit_one c clock versions i m manifest)
    unfolding admit_one
    admit_one-One i m manifest = checked-One i m manifest (check_manifest versions manifest) refl

    abbrev Grants : List SecurityDecision → Type 0
    Grants entries = All (λ (d : SecurityDecision). d.kind ≡ grant) entries

    -- What the loop leaves of a module: on an error some manifest is not admissible. Otherwise each
    -- is, and the log has gained one grant for each.
    abbrev AllIn :
        ℕ → SecurityModule → List PluginManifest → Result LoadError SecurityModule → Type 0
    AllIn i m ms (err e) = ¬ All (Admissible versions m.policy) ms
    AllIn i m ms (ok n) =
        All (Admissible versions m.policy) ms
        × (n ≡ calls c m (verifications i ms))
        × ((entries : List SecurityDecision) × (n.audit_log ≡ m.audit_log ++ entries)
            × (length entries ≡ length ms)
            × Grants entries)

    later-AllIn :
        (i : ℕ) (m n : SecurityModule) (manifest : PluginManifest) (ms : List PluginManifest)
        (r : Result LoadError SecurityModule)
        → One i m manifest (ok n)
        → AllIn (suc i) n ms r
        → AllIn i m (manifest ∷ ms) r
    unfolding calls
    later-AllIn i m n manifest ms (err e) one h =
        λ k. h (subst (λ p. All (Admissible versions p) ms) (sym one.2) k.1)
    later-AllIn i m n manifest ms (ok o) (admissible, same, policy, (entry, grown, kind))
          (all_in, run_, (entries, log, count, grants)) =
        (
          (admissible, subst (λ p. All (Admissible versions p) ms) policy all_in),
          run_ ∙ ap (λ x. calls c x (verifications (suc i) ms)) same,
          (
            entry ∷ entries,
            log ∙ ap (λ l. l ++ entries) grown ∙ append_assoc m.audit_log (entry ∷ []) entries,
            ap suc count,
            (kind, grants),
          ),
        )

    then-AllIn :
        (i : ℕ) (m : SecurityModule) (manifest : PluginManifest) (ms : List PluginManifest)
        (r : Result LoadError SecurityModule) (k : SecurityModule → Result LoadError SecurityModule)
        → One i m manifest r
        → ((n : SecurityModule) → AllIn (suc i) n ms (k n))
        → AllIn i m (manifest ∷ ms) (then_admit c clock r k)
    then-AllIn i m manifest ms (err e) k one later = λ all_in. one all_in.0
    then-AllIn i m manifest ms (ok n) k one later =
        later-AllIn i m n manifest ms (k n) one (later n)

    admit_all-AllIn :
        (i : ℕ) (m : SecurityModule) (ms : List PluginManifest)
        → AllIn i m ms (admit_all c clock versions i m ms)
    unfolding admit_all calls
    admit_all-AllIn i m [] = (tt, refl, ([], sym (append-nil m.audit_log), refl, tt))
    admit_all-AllIn i m (manifest ∷ ms) =
        then-AllIn i m manifest ms (admit_one c clock versions i m manifest) _
          (admit_one-One i m manifest) (λ n. admit_all-AllIn (suc i) n ms)

  module _ (clock : ℕ → Timestamp) {B : Type 0} (ch : Channel B) where
    -- What the sequence ends with, from the key and the manifests of the registry.
    abbrev pub Ends :
        Bytes → List PluginManifest → Result BootstrapError (BootstrappedSystem B) → Type 0
    Ends key ms (err (security_init e)) = all (λ b. b == 0) key ≡ true
    Ends key ms (err (plugin_load e)) =
        (all (λ b. b == 0) key ≡ false) × ¬ All (Admissible v0_1 permissive) ms
    Ends key ms (ok sys) =
        (all (λ b. b == 0) key ≡ false)
        × All (Admissible v0_1 permissive) ms
        × (length sys.security.audit_log ≡ length ms)
        × All (λ (d : SecurityDecision). d.kind ≡ grant) sys.security.audit_log
        × (verify_chain c sys.security ≡ none)
        × (sys.bus
            ≡ ch.send
                (record {
                  topic = "wyrtloom.boot";
                  payload = record { stage = "complete"; plugins = length ms };
                })
                (ch.channel 256))

    started-Ends :
        (key : Bytes) (ms : List PluginManifest) (r : Result LoadError SecurityModule)
        → all (λ b. b == 0) key ≡ false
        → AllIn clock v0_1 0 (new_module c key) ms r
        → Ends key ms (started c clock ch (length ms) r)
    unfolding new_module with_key publish new_bus
    started-Ends key ms (err e) h k = (h, k)
    started-Ends key ms (ok m) h (all_in, run_, (entries, log, count, grants)) = (
      h,
      all_in,
      ap length log ∙ count,
      subst (All (λ (d : SecurityDecision). d.kind ≡ grant)) (sym log) grants,
      ap (verify_chain c) run_
          ∙ calls-verify_chain c key permissive (verifications clock v0_1 0 ms),
      refl,
    )

    -- The sequence fails in its first stage exactly on a key of zeros. Otherwise it ends with a system
    -- exactly when the plugins' names, contract versions and capabilities are all admissible; then the
    -- audit log is one grant for each plugin, its chain verifies, and the completed boot has been
    -- published, with the number of plugins, to a new bus.
    pub run-Ends :
        {F : Type 0} (key : Bytes) (registry : PluginRegistry F)
        → Ends key (manifests registry) (run c clock ch key registry)
    unfolding run self_check new_module with_key
    run-Ends key registry = elim (Bool-cases (all (λ b. b == 0) key)) [
      | inl e ↦ rw e e
      | inr e ↦ rw e (
          started-Ends key (manifests registry) _ e
            (admit_all-AllIn clock v0_1 0 (new_module c key) (manifests registry)))
    ]
