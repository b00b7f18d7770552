-- ===== src/Plugins/Samples.antt =====
-- Plugins, a registry and scopes for the tests.
use codewizard_sherpa.Prelude.{ℕ, refl, String, none, List, [], ◌∷◌, arith, str_eq, if◌then◌else◌}
use codewizard_sherpa.Prelude.Dict
use codewizard_sherpa.Prelude.Dict.{Dict, IsDict}
use codewizard_sherpa.Prelude.Int.{pos}
use codewizard_sherpa.Prelude.Texts.{codes}
use codewizard_sherpa.Plugins.Scope.{wildcard, concrete, PluginScope}
use codewizard_sherpa.Plugins.Registry.{OneOrMany, one, many, Adapter, Plugin, PluginRegistry}
use codewizard_sherpa.Plugins.Chain.{ConcreteResolution}
use codewizard_sherpa.Plugins.Chain.Ranked.{AreRanked, IsRanked}
use codewizard_sherpa.Plugins.Chain.Lifting.{lifted}
use codewizard_sherpa.Plugins.Resolver.{universal_fallback_id}

abbrev pub vuln_node : PluginScope
vuln_node = record {
  task_class = concrete (codes "vuln");
  language = concrete (codes "node");
  build_system = wildcard;
}

abbrev pub any_scope : PluginScope
any_scope = record { task_class = wildcard; language = wildcard; build_system = wildcard }

abbrev pub plugin_named : String → OneOrMany → OneOrMany → List String → Dict Adapter → Plugin
plugin_named name task languages extends adapters = record {
  manifest = record {
    name = name;
    scope = record { task_class = task; languages = languages; build_systems = one (codes "*") };
    extends = extends;
    precedence = pos 0;
  };
  adapters = adapters;
  tccm = none;
  origin = "plugins.api";
}

abbrev pub adapter_of : String → Adapter
adapter_of name = record { primitive = "dep_graph"; implementation = name }

abbrev pub base_plugin : Plugin
base_plugin =
    plugin_named "base" (one (codes "vuln")) (one (codes "*")) []
      (("dep_graph", adapter_of "Base") ∷ [])

abbrev pub node_plugin : Plugin
node_plugin =
    plugin_named "node" (one (codes "vuln")) (many (codes "node" ∷ codes "deno" ∷ [])) ("base" ∷ [])
      (("dep_graph", adapter_of "Node") ∷ [])

abbrev pub universal_plugin : Plugin
universal_plugin = plugin_named universal_fallback_id (one (codes "*")) (one (codes "*")) [] []

abbrev pub plugins : PluginRegistry
plugins = record {
  plugins =
      ("base", base_plugin)
      ∷ ("node", node_plugin)
      ∷ (universal_fallback_id, universal_plugin)
      ∷ [];
  origins =
      ("base", "plugins.api")
      ∷ ("node", "plugins.api")
      ∷ (universal_fallback_id, "plugins.api")
      ∷ [];
}

abbrev pub rank : String → ℕ
rank name = if str_eq name "node" then 1 else 0

pub plugins-AreRanked : AreRanked rank plugins
unfolding Dict.get
plugins-AreRanked name p h =
    Dict.get-All (IsRanked rank plugins) plugins.plugins
      (tt, (((base_plugin, refl, omega arith), tt), (tt, tt))) name p h

-- What the chain of the node plugin composes.
abbrev pub node_chain : ConcreteResolution
node_chain = record {
  plugin = node_plugin;
  extends_chain = base_plugin ∷ node_plugin ∷ [];
  matched_scope = lifted (codes "vuln") (codes "node") (codes "*");
  composed_tccm = record { provides = []; requires = [] };
  composed_adapters = ("dep_graph", adapter_of "Node") ∷ [];
}

abbrev pub asked : PluginScope
asked = record {
  task_class = concrete (codes "vuln");
  language = concrete (codes "node");
  build_system = concrete (codes "npm");
}
