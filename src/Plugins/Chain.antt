-- ===== src/Plugins/Chain.antt =====
-- src/codegenie/plugins/resolver.py: the walk of a plugin's `extends` chain and what it composes.
-- The variables that the walk changes (`chain_tuple`, `composed_tccm`, `composed_adapters`) are a
-- record that it takes and returns.
pub mod Lifting
pub mod Depth
pub mod Overrides
pub mod Induction
pub mod Order
pub mod Ranked
use codewizard_sherpa.Prelude.{
  ℕ, zero, suc, String, Bool, true, false, Option, none, some, List, [], ◌∷◌, ◌++◌, length, leb,
}
use codewizard_sherpa.Prelude.Dict
use codewizard_sherpa.Prelude.Dict.{Dict}
use codewizard_sherpa.Prelude.Outcome.{Outcome, ok, err, ◌>>=◌}
use codewizard_sherpa.Prelude.Texts.{Text, codes, text_eq}
use codewizard_sherpa.Plugins.Scope.{ScopeDim, wildcard, concrete, PluginScope}
use codewizard_sherpa.Plugins.Registry
use codewizard_sherpa.Plugins.Registry.{
  OneOrMany, one, many, ManifestScope, ComposedTccm, Adapter, Plugin, PluginRegistry, RegistryError,
}

-- `out_of_fuel` is the model's own; `index_error` is the first scope of a manifest that has none.
pub data ResolveError : Type 0 where
  plugin_extends_cycle : (chain : List String) → ResolveError
  plugin_extends_depth_exceeded : (chain : List String) → ResolveError
  from_registry : RegistryError → ResolveError
  registry_corrupted : (reason : String) → ResolveError
  index_error : ResolveError
  out_of_fuel : ResolveError

abbrev pub max_extends_depth : ℕ
max_extends_depth = 4

unfoldable pub lift_dim : Text → ScopeDim
lift_dim raw = elim (text_eq raw (codes "*")) [ true ↦ wildcard | false ↦ concrete raw ]

abbrev pub as_list : OneOrMany → List Text
as_list (one value) = value ∷ []
as_list (many values) = values

-- The innermost loop of `lift_manifest_scope`, and the one around it.
abbrev lift_builds : (task language : Text) → List Text → List PluginScope
lift_builds task language [] = []
lift_builds task language (build ∷ builds) =
    record {
      task_class = lift_dim task;
      language = lift_dim language;
      build_system = lift_dim build;
    }
    ∷ lift_builds task language builds

abbrev lift_languages : (task : Text) → (languages builds : List Text) → List PluginScope
lift_languages task [] builds = []
lift_languages task (language ∷ languages) builds =
    lift_builds task language builds ++ lift_languages task languages builds

abbrev lift_tasks : (tasks languages builds : List Text) → List PluginScope
lift_tasks [] languages builds = []
lift_tasks (task ∷ tasks) languages builds =
    lift_languages task languages builds ++ lift_tasks tasks languages builds

unfoldable pub lift_manifest_scope : ManifestScope → List PluginScope
lift_manifest_scope s =
    lift_tasks (as_list s.task_class) (as_list s.languages) (as_list s.build_systems)

abbrev pub empty_tccm : ComposedTccm
empty_tccm = record { provides = []; requires = [] }

unfoldable pub plugin_tccm : Plugin → ComposedTccm
plugin_tccm plugin = elim plugin.tccm [ some raw ↦ raw | none ↦ empty_tccm ]

-- The loop over `right.provides.items()`.
unfoldable pub merge_provides : Dict (Dict String) → Dict (Dict String) → Dict (Dict String)
merge_provides merged [] = merged
merge_provides merged ((outer_key, inner) ∷ right) =
    let value : Dict String = elim (Dict.get outer_key merged) [
      | some current ↦ Dict.merge current inner
      | none ↦ inner
    ] in
    merge_provides (Dict.put outer_key value merged) right

unfoldable pub merge_tccm : ComposedTccm → ComposedTccm → ComposedTccm
unfolding merge_provides
merge_tccm left right = record {
  provides = merge_provides left.provides right.provides;
  requires = Dict.merge left.requires right.requires;
}

unfoldable pub merge_adapters : Dict Adapter → Dict Adapter → Dict Adapter
merge_adapters left right = Dict.merge left right

pub record Composed : Type 0 where
  pub chain : List Plugin
  pub tccm : ComposedTccm
  pub adapters : Dict Adapter

abbrev pub nothing_composed : Composed
nothing_composed = record { chain = []; tccm = empty_tccm; adapters = [] }

-- The end of a call of `walk`: the plugin itself, behind those it extends.
unfoldable pub compose : Plugin → Composed → Composed
unfolding merge_tccm merge_adapters plugin_tccm
compose current w = record {
  chain = w.chain ++ (current ∷ []);
  tccm = merge_tccm w.tccm (plugin_tccm current);
  adapters = merge_adapters w.adapters current.adapters;
}

unfoldable pub lookup : String → PluginRegistry → Outcome ResolveError Plugin
unfolding Registry.get
lookup name r = elim (Registry.get name r) [ ok p ↦ ok p | err e ↦ err (from_registry e) ]

-- The loop of `walk` over `extends`, with the call of `walk` as an argument.
unfoldable pub walk_all :
    (Plugin → Composed → Outcome ResolveError Composed)
    → PluginRegistry
    → List String
    → Composed
    → Outcome ResolveError Composed
walk_all go r [] w = ok w
walk_all go r (extends_id ∷ rest) w = do
  p ← lookup extends_id r
  after ← go p w
  walk_all go r rest after

unfoldable pub walk :
    PluginRegistry
    → (max_depth fuel : ℕ) → (visited visited_path : List String) → Plugin
    → Composed
    → Outcome ResolveError Composed
unfolding walk_all
walk r max_depth zero visited path current w = err out_of_fuel
walk r max_depth (suc fuel) visited path current w =
    let name = current.manifest.name in
    let new_path = path ++ (name ∷ []) in
    elim (Dict.mem name visited) [
      | true ↦ err (plugin_extends_cycle new_path)
      | false ↦ elim (leb max_depth (length visited)) [
        | true ↦ err (plugin_extends_depth_exceeded new_path)
        | false ↦
            walk_all (walk r max_depth fuel (Dict.add name visited) new_path) r
              current.manifest.extends w
            >>= (λ after. ok (compose current after))
      ]
    ]

pub record ConcreteResolution : Type 0 where
  pub plugin : Plugin
  pub extends_chain : List Plugin
  pub matched_scope : PluginScope
  pub composed_tccm : ComposedTccm
  pub composed_adapters : Dict Adapter

-- What the chain composed, with `lift_manifest_scope(...)[0]` as the scope.
unfoldable pub placeholder :
    Plugin → List PluginScope → Composed → Outcome ResolveError ConcreteResolution
placeholder plugin [] w = err index_error
placeholder plugin (scope ∷ scopes) w = ok (record {
  plugin = plugin;
  extends_chain = w.chain;
  matched_scope = scope;
  composed_tccm = w.tccm;
  composed_adapters = w.adapters;
})

-- A call may go `max_depth` deep and one more, which is refused.
unfoldable pub compose_extends_chain :
    Plugin → PluginRegistry → (max_depth : ℕ) → Outcome ResolveError ConcreteResolution
unfolding walk placeholder lift_manifest_scope
compose_extends_chain plugin r max_depth =
    walk r max_depth (suc max_depth) [] [] plugin nothing_composed
    >>= placeholder plugin (lift_manifest_scope plugin.manifest.scope)
