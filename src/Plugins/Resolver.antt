-- ===== src/Plugins/Resolver.antt =====
-- src/codegenie/plugins/resolver.py: from a scope to the plugin that handles it. The walk of the
-- head's `extends` chain is in Chain.
pub mod Candidates
pub mod Matching
pub mod Best
pub mod Total
pub mod Unspecified
use codewizard_sherpa.Prelude.{
  ℕ, String, Bool, true, false, not, List, [], ◌∷◌, ◌++◌, map, ltb, if◌then◌else◌, str_eq,
}
use codewizard_sherpa.Prelude.Int.{int_ltb}
use codewizard_sherpa.Prelude.Outcome.{Outcome, ok, err, ◌>>=◌}
use codewizard_sherpa.Prelude.Sorting.{sorted}
use codewizard_sherpa.Prelude.Texts.{Text, codes, text_leb}
use codewizard_sherpa.Plugins.Scope.{
  ScopeDim, wildcard, concrete, PluginScope, matches, specificity,
}
use codewizard_sherpa.Plugins.Registry.{Plugin, PluginRegistry, RegistryError}
use codewizard_sherpa.Plugins.Registry
use codewizard_sherpa.Plugins.Chain.{
  ResolveError, registry_corrupted, max_extends_depth, lift_manifest_scope, ConcreteResolution,
  compose_extends_chain,
}

abbrev pub universal_fallback_id : String
universal_fallback_id = "universal--*--*"

pub record ScopedCandidate : Type 0 where
  pub plugin : Plugin
  pub lifted_scope : PluginScope

-- The `reason` of a fallback has one value only and is left out.
pub data PluginResolution : Type 0 where
  concrete_resolution : ConcreteResolution → PluginResolution
  universal_fallback : (candidates_considered : List String) → PluginResolution

abbrev pub candidate_of : Plugin → PluginScope → ScopedCandidate
candidate_of plugin scope = record { plugin = plugin; lifted_scope = scope }

unfoldable pub lift_candidates : List Plugin → List ScopedCandidate
lift_candidates [] = []
lift_candidates (plugin ∷ plugins) =
    map (candidate_of plugin) (lift_manifest_scope plugin.manifest.scope) ++ lift_candidates plugins

abbrev pub unpack : ScopeDim → Text
unpack wildcard = codes "*"
unpack (concrete v) = v

-- The test of `_filter_matches`.
unfoldable pub admits : PluginScope → ScopedCandidate → Bool
admits scope c =
    matches c.lifted_scope (unpack scope.task_class) (unpack scope.language)
      (unpack scope.build_system)

unfoldable pub filter_matches : List ScopedCandidate → PluginScope → List ScopedCandidate
filter_matches [] scope = []
filter_matches (c ∷ cs) scope =
    let rest = filter_matches cs scope in if admits scope c then c ∷ rest else rest

-- `_sort_key(a) <= _sort_key(b)`, on tuples from the left.
unfoldable pub key_leb : ScopedCandidate → ScopedCandidate → Bool
key_leb a b =
    if ltb (specificity b.lifted_scope) (specificity a.lifted_scope)
    then true
    else if ltb (specificity a.lifted_scope) (specificity b.lifted_scope)
    then false
    else if int_ltb b.plugin.manifest.precedence a.plugin.manifest.precedence
    then true
    else if int_ltb a.plugin.manifest.precedence b.plugin.manifest.precedence
    then false
    else text_leb (codes a.plugin.manifest.name) (codes b.plugin.manifest.name)

abbrev pub concrete_names : List Plugin → List String
concrete_names [] = []
concrete_names (p ∷ plugins) =
    let rest = concrete_names plugins in
    if not (str_eq p.manifest.name universal_fallback_id) then p.manifest.name ∷ rest else rest

abbrev pub name_leb : String → String → Bool
name_leb a b = text_leb (codes a) (codes b)

unfoldable pub candidates_considered : PluginRegistry → List String
unfolding Registry.all
candidates_considered r = sorted name_leb (concrete_names (Registry.all r))

unfoldable pub universal_registered : PluginRegistry → Bool
unfolding Registry.get
universal_registered r = elim (Registry.get universal_fallback_id r) [ ok _ ↦ true | err _ ↦ false ]

-- The end of `resolve`, from the sorted matches on.
unfoldable pub resolve_matches :
    PluginRegistry → List ScopedCandidate → Outcome ResolveError PluginResolution
unfolding universal_registered
resolve_matches r [] =
    if universal_registered r
    then ok (universal_fallback [])
    else err (registry_corrupted "missing_universal")
resolve_matches r (head ∷ rest) =
    if str_eq head.plugin.manifest.name universal_fallback_id
    then ok (universal_fallback (candidates_considered r))
    else compose_extends_chain head.plugin r max_extends_depth >>= (λ composed. ok (
        concrete_resolution (record {
          plugin = composed.plugin;
          extends_chain = composed.extends_chain;
          matched_scope = head.lifted_scope;
          composed_tccm = composed.composed_tccm;
          composed_adapters = composed.composed_adapters;
        })))

abbrev is_nil {ℓ} : {A : Type ℓ} → List A → Bool
is_nil [] = true
is_nil (x ∷ xs) = false

unfoldable pub resolve : PluginRegistry → PluginScope → Outcome ResolveError PluginResolution
unfolding resolve_matches Registry.all
resolve r scope =
    if is_nil (Registry.all r)
    then err (registry_corrupted "empty_registry")
    else resolve_matches r
        (sorted key_leb (filter_matches (lift_candidates (Registry.all r)) scope))
