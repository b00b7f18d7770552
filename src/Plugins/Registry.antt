-- ===== src/Plugins/Registry.antt =====
-- src/codegenie/plugins/registry.py and the parts of a plugin (protocols.py, manifest.py) that the
-- registry and the resolver read. Names are compared as whole strings.
pub mod Register
use codewizard_sherpa.Prelude.{ℕ, String, Bool, Option, none, some, List, [], ◌∷◌, ◌++◌}
use codewizard_sherpa.Prelude.Dict
use codewizard_sherpa.Prelude.Dict.{Dict}
use codewizard_sherpa.Prelude.Int.{ℤ}
use codewizard_sherpa.Prelude.Texts.{Text}
use codewizard_sherpa.Prelude.Outcome.{Outcome, ok, err}

-- `str | list[str]`
pub data OneOrMany : Type 0 where
  one : Text → OneOrMany
  many : List Text → OneOrMany

pub record ManifestScope : Type 0 where
  pub task_class : OneOrMany
  pub languages : OneOrMany
  pub build_systems : OneOrMany

-- The fields of `PluginManifest` that resolution reads.
pub record PluginManifest : Type 0 where
  pub name : String
  pub scope : ManifestScope
  pub extends : List String
  pub precedence : ℤ

pub record ComposedTccm : Type 0 where
  pub provides : Dict (Dict String)
  pub requires : Dict (List String)

-- An adapter, by the class that implements it.
pub record Adapter : Type 0 where
  pub primitive : String
  pub implementation : String

-- `origin` is the module and name of the class; `tccm` is the attribute `_composed_tccm`, if the
-- plugin has it.
pub record Plugin : Type 0 where
  pub manifest : PluginManifest
  pub adapters : Dict Adapter
  pub tccm : Option ComposedTccm
  pub origin : String

pub record PluginRegistry : Type 0 where
  pub plugins : Dict Plugin
  pub origins : Dict String

abbrev pub empty_registry : PluginRegistry
empty_registry = record { plugins = []; origins = [] }

-- The message names both origins; `key_error` is an origin that is missing.
pub data RegistryError : Type 0 where
  plugin_already_registered : (name existing_origin new_origin : String) → RegistryError
  key_error : RegistryError
  plugin_not_registered : (name : String) → RegistryError

unfoldable pub register : Plugin → PluginRegistry → Outcome RegistryError Plugin × PluginRegistry
register plugin r = elim (Dict.get plugin.manifest.name r.plugins) [
  | some _ ↦ elim (Dict.get plugin.manifest.name r.origins) [
    | some existing ↦
        (err (plugin_already_registered plugin.manifest.name existing plugin.origin), r)
    | none ↦ (err key_error, r)
  ]
  | none ↦ (
    ok plugin,
    record {
      plugins = Dict.put plugin.manifest.name plugin r.plugins;
      origins = Dict.put plugin.manifest.name plugin.origin r.origins;
    },
  )
]

unfoldable pub get : String → PluginRegistry → Outcome RegistryError Plugin
get name r = elim (Dict.get name r.plugins) [
  | some p ↦ ok p
  | none ↦ err (plugin_not_registered name)
]

-- `tuple(self._plugins.values())`
unfoldable pub all : PluginRegistry → List Plugin
all r = Dict.values r.plugins
