-- ===== src/Plugins/ResolverTests.antt =====
-- Runs of the resolver on concrete plugins.
use codewizard_sherpa.Prelude.{◌≡◌, ◌≢◌, ◌⊎◌, refl, String, true, List, [], ◌∷◌, arith}
use codewizard_sherpa.Prelude.Dict
use codewizard_sherpa.Prelude.Dict.{Dict, IsDict}
use codewizard_sherpa.Prelude.Outcome.{ok}
use codewizard_sherpa.Prelude.Sorting.{sorted, insert}
use codewizard_sherpa.Prelude.Texts.{text_leb}
use codewizard_sherpa.Plugins.Scope.{PluginScope, specificity, matches}
use codewizard_sherpa.Plugins.Registry
use codewizard_sherpa.Plugins.Registry.{
  OneOrMany, one, many, Adapter, Plugin, PluginRegistry, empty_registry, register,
  plugin_already_registered,
}
use codewizard_sherpa.Plugins.Chain.{
  compose_extends_chain, lift_manifest_scope, lift_dim, placeholder, walk, walk_all, lookup,
  compose, plugin_tccm, merge_tccm, merge_provides, merge_adapters,
}
use codewizard_sherpa.Plugins.Resolver.Matching.{IsMatch, IsBest}
use codewizard_sherpa.Plugins.Resolver.Best.{
  IsComposition, IsListing, resolve_concrete, resolve_fallback,
}
use codewizard_sherpa.Plugins.Resolver.Total.{resolve_total}
use codewizard_sherpa.Plugins.Resolver.{
  resolve, resolve_matches, admits, key_leb, PluginResolution, concrete_resolution,
  universal_fallback, universal_registered, lift_candidates, filter_matches, universal_fallback_id,
  candidates_considered,
}
use codewizard_sherpa.Plugins.Samples.{
  any_scope, asked, node_chain, node_plugin, plugins, plugins-AreRanked, rank,
}

node-resolves : resolve plugins asked ≡ ok (concrete_resolution node_chain)
unfolding compose_extends_chain placeholder walk walk_all lookup compose plugin_tccm merge_tccm
    merge_provides merge_adapters lift_manifest_scope lift_dim Registry.get Dict.get Dict.mem
    Dict.add Dict.merge Dict.put resolve resolve_matches filter_matches lift_candidates admits
    matches key_leb specificity candidates_considered universal_registered Registry.all sorted
    insert text_leb
node-resolves = refl

abbrev both_names : List String
both_names = "base" ∷ "node" ∷ []

any-falls_back : resolve plugins any_scope ≡ ok (universal_fallback both_names)
unfolding compose_extends_chain placeholder walk walk_all lookup compose plugin_tccm merge_tccm
    merge_provides merge_adapters lift_manifest_scope lift_dim Registry.get Dict.get Dict.mem
    Dict.add Dict.merge Dict.put resolve resolve_matches filter_matches lift_candidates admits
    matches key_leb specificity candidates_considered universal_registered Registry.all sorted
    insert text_leb
any-falls_back = refl

resolve_concrete_example :
    IsBest plugins asked node_plugin node_chain.matched_scope
    × ("node" ≢ universal_fallback_id)
    × IsComposition plugins node_plugin node_chain
resolve_concrete_example = resolve_concrete plugins asked node_chain node-resolves

resolve_fallback_example :
    (((p : Plugin) (s : PluginScope) → ¬ IsMatch plugins any_scope p s)
      × (universal_registered plugins ≡ true)
      × (both_names ≡ []))
    ⊎ ((p : Plugin) × (s : PluginScope) × IsBest plugins any_scope p s
        × (p.manifest.name ≡ universal_fallback_id)
        × IsListing plugins both_names)
resolve_fallback_example = resolve_fallback plugins any_scope both_names any-falls_back

resolve_total_example : (res : PluginResolution) × (resolve plugins asked ≡ ok res)
unfolding universal_registered Dict.get
resolve_total_example =
    resolve_total plugins (refl, (refl, (refl, tt))) refl rank plugins-AreRanked
      (λ name p h. ground arith) asked
