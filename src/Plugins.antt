-- ===== src/Plugins.antt =====
-- The plugin registry and the contract versions that the core provides, crates/core/src/plugin.rs; the
-- manifests are in Security.Policy. A plugin's factory is a value that nothing here looks into.
use wyrtloom.Base.{
  Bool, false, Option, none, some, List, [], ◌∷◌, ◌++◌, map, as_bytes, if◌then◌else◌,
}
use wyrtloom.Canon.{Bytes}
use wyrtloom.Security.Policy.{SemVer, PluginManifest, NameError, is_compatible_with, bytes_eq}
use wyrtloom.Security.Audit.{SecurityError}

pub data LoadError : Type 0 where
  manifest_invalid : NameError → LoadError
  -- the contract, the version required and the version provided
  incompatible_contract_version : Bytes → SemVer → SemVer → LoadError
  security_rejected : SecurityError → LoadError
  safe_plugin_requested_capability : LoadError

pub record PluginRegistry (F : Type 0) : Type 0 where
  pub entries : List (PluginManifest × F)

module _ {F : Type 0} where
  unfoldable pub new_registry : PluginRegistry F
  new_registry = record { entries = [] }

  unfoldable pub register : PluginRegistry F → PluginManifest → F → PluginRegistry F
  register r manifest factory = record { entries = r.entries ++ (manifest, factory) ∷ [] }

  unfoldable pub manifests : PluginRegistry F → List PluginManifest
  manifests r = map (λ e. e.0) r.entries

  -- The entries, and the registry that is left.
  unfoldable pub take_factories : PluginRegistry F → List (PluginManifest × F) × PluginRegistry F
  unfolding new_registry
  take_factories r = (r.entries, new_registry)

-- A map from contracts to versions, with no key twice.
abbrev pub CoreContractVersions : Type 0
CoreContractVersions = List (Bytes × SemVer)

unfoldable pub version : SemVer
version = record { major = 0; minor = 1; patch = 0 }

unfoldable pub v0_1 : CoreContractVersions
unfolding version
v0_1 =
    (as_bytes "wyrtloom.kanban", version)
    ∷ (as_bytes "wyrtloom.provider", version)
    ∷ (as_bytes "wyrtloom.sandbox", version)
    ∷ (as_bytes "wyrtloom.logger", version)
    ∷ (as_bytes "wyrtloom.escalation", version)
    ∷ (as_bytes "wyrtloom.bus", version)
    ∷ (as_bytes "wyrtloom.persistence", version)
    ∷ (as_bytes "wyrtloom.users", version)
    ∷ (as_bytes "wyrtloom.client_auth", version)
    ∷ []

-- `HashMap::get`
unfoldable pub provided : CoreContractVersions → Bytes → Option SemVer
provided [] contract = none
provided ((key, v) ∷ rest) contract =
    if bytes_eq key contract then some v else provided rest contract

unfoldable pub is_compatible : CoreContractVersions → Bytes → SemVer → Bool
unfolding provided is_compatible_with
is_compatible versions contract plugin_version = elim (provided versions contract) [
  | some core_ver ↦ is_compatible_with plugin_version core_ver
  | none ↦ false
]
