-- ===== src/Bootstrap/Examples.antt =====
-- A start-up with one plugin, and one that a contract's version stops.
use wyrtloom.Base.{ℕ, ◌≡◌, refl, List, [], ◌∷◌, ◌++◌, as_bytes}
use wyrtloom.Db.{err}
use wyrtloom.Security.Policy.{safe, PluginManifest, validate_name, is_compatible_with, bytes_eq}
use wyrtloom.Security.Audit.{new_module, with_key, self_check}
use wyrtloom.Security.Examples.{crypto, root_key}
use wyrtloom.Plugins.{
  PluginRegistry, new_registry, register, manifests, version, v0_1, provided, is_compatible,
  incompatible_contract_version,
}
use wyrtloom.Bootstrap.{
  Channel, Event, plugin_load, register_plugin, check_contracts, check_manifest, admit_one,
  admit_all, run,
}
use wyrtloom.Bootstrap.Admission.{Ends, run-Ends}

-- A channel that holds all that was sent.
abbrev ch : Channel (List Event)
ch = record { channel = λ n. []; send = λ e b. b ++ e ∷ [] }

abbrev board : PluginManifest
board = record {
  name = as_bytes "kanban-sqlite";
  version = record { major = 0; minor = 1; patch = 0 };
  class = safe;
  capabilities = [];
  implements = (as_bytes "wyrtloom.kanban", record { major = 0; minor = 2; patch = 0 }) ∷ [];
}

abbrev ahead : PluginManifest
ahead = record board {
  implements = (as_bytes "wyrtloom.bus", record { major = 1; minor = 0; patch = 0 }) ∷ [];
}

abbrev registry : PluginRegistry ℕ
registry = register_plugin new_registry board 0

run-Ends_example :
    Ends crypto (λ i. i) ch root_key (manifests registry) (run crypto (λ i. i) ch root_key registry)
run-Ends_example = run-Ends crypto (λ i. i) ch root_key registry

-- The major version of the bus is another.
too_new :
    run crypto (λ i. i) ch root_key (register_plugin registry ahead 1)
    ≡ err (
        plugin_load (
          incompatible_contract_version
            (as_bytes "wyrtloom.bus")
            (record { major = 1; minor = 0; patch = 0 })
            version))
unfolding run register_plugin register new_registry manifests self_check new_module with_key
    admit_all admit_one check_manifest check_contracts is_compatible is_compatible_with provided
    v0_1 version as_bytes bytes_eq validate_name
too_new = refl
