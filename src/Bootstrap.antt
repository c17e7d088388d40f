-- ===== src/Bootstrap.antt =====
-- The start-up sequence, crates/core/src/bootstrap.rs, and the bus that it starts with,
-- crates/core/src/bus.rs. The key that the security module draws and the clock are arguments, tokio's
-- broadcast channel is the parameter `Channel`; the text of an error is the error.
pub mod Admission
mod Examples
use wyrtloom.Base.{
  ℕ, suc, String, Bool, true, false, not, ◌&&◌, Option, none, some, List, [], ◌∷◌, length,
  if◌then◌else◌,
}
use wyrtloom.Kanban.{Timestamp}
use wyrtloom.Canon.{Bytes}
use wyrtloom.Db.{Result, ok, err}
use wyrtloom.Security.Policy.{SemVer, PluginManifest, NameError, validate_name}
use wyrtloom.Security.Audit.{
  Crypto, SecurityModule, SecurityError, self_check, verify, new_module, is_safe, is_empty,
}
use wyrtloom.Plugins.{
  LoadError, manifest_invalid, incompatible_contract_version, security_rejected,
  safe_plugin_requested_capability, PluginRegistry, new_registry, register, manifests,
  CoreContractVersions, v0_1, provided, is_compatible,
}

-- The payload that the sequence publishes: the stage, and the number of plugins.
pub record Payload : Type 0 where
  pub stage : String
  pub plugins : ℕ

pub record Event : Type 0 where
  pub topic : String
  pub payload : Payload

-- `tokio::sync::broadcast`: a channel of a capacity, and what sending makes of it.
pub record Channel (B : Type 0) : Type 0 where
  pub channel : ℕ → B
  pub send : Event → B → B

unfoldable pub new_bus : {B : Type 0} → Channel B → B
new_bus ch = ch.channel 256

-- It always answers `Ok(())`.
unfoldable pub publish : {B : Type 0} → Channel B → Event → B → B
publish ch e b = ch.send e b

pub data BootstrapError : Type 0 where
  security_init : SecurityError → BootstrapError
  plugin_load : LoadError → BootstrapError

pub record BootstrappedSystem (B : Type 0) : Type 0 where
  pub security : SecurityModule
  pub bus : B
  pub contract_versions : CoreContractVersions

-- The loop over what a manifest implements; none: it has run to its end.
unfoldable pub check_contracts : CoreContractVersions → List (Bytes × SemVer) → Option LoadError
unfolding is_compatible
check_contracts versions [] = none
check_contracts versions ((contract, required) ∷ rest) =
    elim (is_compatible versions contract required) [
      | true ↦ check_contracts versions rest
      | false ↦ some (
          incompatible_contract_version contract required (elim (provided versions contract) [
            | some v ↦ v
            | none ↦ record { major = 0; minor = 0; patch = 0 }
          ]))
    ]

abbrev and_load : Option LoadError → Option LoadError → Option LoadError
and_load none later = later
and_load (some e) later = some e

abbrev name_fault : Option NameError → Option LoadError
name_fault none = none
name_fault (some e) = some (manifest_invalid e)

-- The checks before the security module's.
unfoldable pub check_manifest : CoreContractVersions → PluginManifest → Option LoadError
unfolding validate_name check_contracts
check_manifest versions manifest = and_load (name_fault (validate_name manifest.name)) (
    and_load (check_contracts versions manifest.implements) (
      if is_safe manifest.class && not (is_empty manifest.capabilities)
      then some safe_plugin_requested_capability
      else none))

module _ (c : Crypto) (clock : ℕ → Timestamp) where
  abbrev verified_by : Option SecurityError × SecurityModule → Result LoadError SecurityModule
  verified_by (none, m) = ok m
  verified_by (some e, m) = err (security_rejected e)

  -- One round of the loop over the manifests.
  unfoldable pub admit_one :
      CoreContractVersions → ℕ → SecurityModule → PluginManifest → Result LoadError SecurityModule
  unfolding check_manifest verify
  admit_one versions i m manifest = elim (check_manifest versions manifest) [
    | some e ↦ err e
    | none ↦ verified_by (verify c m (clock i) manifest)
  ]

  abbrev then_admit :
      Result LoadError SecurityModule
      → (SecurityModule → Result LoadError SecurityModule)
      → Result LoadError SecurityModule
  then_admit (ok m) k = k m
  then_admit (err e) k = err e

  unfoldable pub admit_all :
      CoreContractVersions
      → ℕ
      → SecurityModule
      → List PluginManifest
      → Result LoadError SecurityModule
  unfolding admit_one
  admit_all versions i m [] = ok m
  admit_all versions i m (manifest ∷ rest) =
      then_admit (admit_one versions i m manifest) λ m'. admit_all versions (suc i) m' rest

  module _ {B : Type 0} (ch : Channel B) where
    -- The end of the sequence.
    abbrev started :
        ℕ → Result LoadError SecurityModule → Result BootstrapError (BootstrappedSystem B)
    started n (err e) = err (plugin_load e)
    started n (ok m) = ok (record {
      security = m;
      bus =
          publish ch
            (record {
              topic = "wyrtloom.boot";
              payload = record { stage = "complete"; plugins = n };
            })
            (new_bus ch);
      contract_versions = v0_1;
    })

    unfoldable pub run :
        {F : Type 0} → Bytes → PluginRegistry F → Result BootstrapError (BootstrappedSystem B)
    unfolding self_check new_module admit_all manifests
    run key registry = elim (self_check (new_module c key)) [
      | some e ↦ err (security_init e)
      | none ↦
          started (length (manifests registry))
            (admit_all v0_1 0 (new_module c key) (manifests registry))
    ]

-- A `Bootstrapper` is its registry.
unfoldable pub register_plugin :
    {F : Type 0} → PluginRegistry F → PluginManifest → F → PluginRegistry F
unfolding register
register_plugin r manifest factory = register r manifest factory
