-- ===== src/Plugins/Tests.antt =====
-- Runs of the scopes, the registry and the chains on concrete plugins.
use codewizard_sherpa.Prelude.{◌≡◌, ◌↔◌, refl, String, List, [], ◌∷◌, ◌++◌, arith, eq_iff}
use codewizard_sherpa.Prelude.Dict
use codewizard_sherpa.Prelude.Dict.{Dict, IsDict}
use codewizard_sherpa.Prelude.Outcome.{ok}
use codewizard_sherpa.Plugins.Scope.{parse, to_str, matches}
use codewizard_sherpa.Plugins.Scope.RoundTrip.{IsWritable, parse-to_str_iff}
use codewizard_sherpa.Plugins.Scope.Specificity.{Covers}
use codewizard_sherpa.Plugins.Registry
use codewizard_sherpa.Plugins.Registry.{
  OneOrMany, one, many, Adapter, Plugin, PluginRegistry, empty_registry, register,
  plugin_already_registered,
}
use codewizard_sherpa.Plugins.Registry.Register.{IsRegistry}
use codewizard_sherpa.Plugins.Chain.{
  compose_extends_chain, lift_manifest_scope, max_extends_depth, lift_dim, placeholder, walk,
  walk_all, lookup, compose, plugin_tccm, merge_tccm, merge_provides, merge_adapters,
}
use codewizard_sherpa.Plugins.Chain.Overrides.{
  ArePlugins, IsPlugin, later_wins, adapter_for, requires_for, provides_for, get_inner,
  composed_later_wins,
}
use codewizard_sherpa.Plugins.Chain.Order.{
  AreNamed, IsBasesFirst, compose_extends_chain-IsBasesFirst,
}
use codewizard_sherpa.Plugins.Resolver.{universal_fallback_id}
use codewizard_sherpa.Plugins.Samples.{
  any_scope, base_plugin, node_chain, node_plugin, plugins, vuln_node,
}

parse-to_str_iff_example : (parse (to_str vuln_node) ≡ ok vuln_node) ↔ IsWritable vuln_node
parse-to_str_iff_example = parse-to_str_iff vuln_node

any-Covers : Covers any_scope vuln_node
unfolding matches
any-Covers t l b h = refl

empty-IsRegistry : IsRegistry empty_registry
unfolding Dict.get
empty-IsRegistry = (tt, tt, λ name p h. absurd (ground arith), λ name. (λ h. refl, λ h. refl))

plugins-ArePlugins : ArePlugins plugins
unfolding Dict.get plugin_tccm
plugins-ArePlugins name p h =
    Dict.get-All IsPlugin plugins.plugins
      (((refl, tt), (tt, (tt, tt))), (((refl, tt), (tt, (tt, tt))), ((tt, (tt, (tt, tt))), tt)))
      name p h

plugins-AreNamed : AreNamed plugins
unfolding Dict.get
plugins-AreNamed name p h =
    ground (arith, eq_iff "base" name, eq_iff "node" name, eq_iff universal_fallback_id name)

node-composes : compose_extends_chain node_plugin plugins max_extends_depth ≡ ok node_chain
unfolding compose_extends_chain placeholder walk walk_all lookup compose plugin_tccm merge_tccm
    merge_provides merge_adapters lift_manifest_scope lift_dim Registry.get Dict.get Dict.mem
    Dict.add Dict.merge Dict.put
node-composes = refl

compose_extends_chain-IsBasesFirst_example :
    IsBasesFirst [] (base_plugin ∷ node_plugin ∷ [])
    × ((bases : List Plugin) × (base_plugin ∷ node_plugin ∷ [] ≡ bases ++ (node_plugin ∷ [])))
compose_extends_chain-IsBasesFirst_example =
    compose_extends_chain-IsBasesFirst plugins plugins-AreNamed node_plugin max_extends_depth
      node_chain node-composes

composed_later_wins_example :
    ((k : String)
      → Dict.get k node_chain.composed_adapters
        ≡ later_wins (adapter_for k) node_chain.extends_chain)
    × (((k : String)
          → Dict.get k node_chain.composed_tccm.requires
            ≡ later_wins (requires_for k) node_chain.extends_chain)
        × ((outer inner : String)
            → get_inner outer inner node_chain.composed_tccm.provides
              ≡ later_wins (provides_for outer inner) node_chain.extends_chain))
unfolding Dict.get plugin_tccm
composed_later_wins_example =
    composed_later_wins plugins plugins-ArePlugins node_plugin ((refl, tt), (tt, (tt, tt)))
      max_extends_depth node_chain node-composes
