-- ===== src/Plugins/Resolver/Total.antt =====
-- resolver.py: a registry on which `resolve` does not raise.
use codewizard_sherpa.Prelude.{
  ℕ, ◌≡◌, ◌<◌, String, true, some, [], ◌∷◌, arith, Bool-cases, Option-cases, List-cases, inl, inr,
  str_eq, eq_iff, suc,
}
use mathlib.Core.List.{Memᴰ}
use mathlib.Core.List.Memᴰ.{head, tail}
use codewizard_sherpa.Prelude.Dict
use codewizard_sherpa.Prelude.Dict.{Dict, IsDict}
use codewizard_sherpa.Prelude.Outcome.{ok}
use codewizard_sherpa.Plugins.Scope.{PluginScope}
use codewizard_sherpa.Plugins.Registry
use codewizard_sherpa.Plugins.Registry.{Plugin, PluginRegistry}
use codewizard_sherpa.Plugins.Chain.{
  ConcreteResolution, compose_extends_chain, max_extends_depth, lift_manifest_scope, placeholder,
  nothing_composed,
}
use codewizard_sherpa.Plugins.Chain.Ranked.{AreRanked, IsRanked, walk_ranked}
use codewizard_sherpa.Plugins.Resolver.Matching.{matches-cases}
use codewizard_sherpa.Plugins.Resolver.{
  universal_fallback_id, PluginResolution, concrete_resolution, universal_fallback, resolve,
  resolve_matches, candidates_considered, universal_registered,
}

get-Mem {ℓ} :
    {V : Type ℓ} (k : String) (v : V) (m : Dict V) → Dict.get k m ≡ some v → Memᴰ v (Dict.values m)
unfolding Dict.get
get-Mem k v [] h = absurd (ground arith)
get-Mem k v ((j, w) ∷ m) h = elim (Bool-cases (str_eq j k)) [
  | inl e ↦ head (ground arith)
  | inr e ↦ tail (get-Mem k v m (ground arith))
]

Mem-get {ℓ} :
    {V : Type ℓ} (v : V) (m : Dict V)
    → IsDict m
    → Memᴰ v (Dict.values m)
    → (k : String) × (Dict.get k m ≡ some v)
unfolding Dict.get
Mem-get v [] h i = elim i [ ]
Mem-get v ((j, w) ∷ m) h (head e) = (j, ground (arith, eq_iff j j))
Mem-get v ((j, w) ∷ m) h (tail i) =
    let (k, e) = Mem-get v m h.1 i in (k, ground (arith, eq_iff j k))

-- A plugin that lifts a scope composes, if ranks go down along `extends` from it and from every
-- registered plugin, to plugins that are registered, and its own rank is below the limit of depth.
pub compose_extends_chain_succeeds :
    (r : PluginRegistry) (rank : String → ℕ)
    → AreRanked rank r
    → (p : Plugin) → IsRanked rank r p
    → (s : PluginScope) → Memᴰ s (lift_manifest_scope p.manifest.scope)
    → (max : ℕ) → rank p.manifest.name < max
    → (res : ConcreteResolution) × (compose_extends_chain p r max ≡ ok res)
unfolding compose_extends_chain placeholder
compose_extends_chain_succeeds r rank ranked p h s m max k =
    let (w, walked) =
      walk_ranked r rank ranked max (suc max) [] [] p nothing_composed h tt (omega (arith, k))
        (omega arith) in
    elim (List-cases (lift_manifest_scope p.manifest.scope)) [
      | inl e ↦ elim (rw e at m) [ ]
      | inr (t, ts, e) ↦ (
        record {
          plugin = p;
          extends_chain = w.chain;
          matched_scope = t;
          composed_tccm = w.tccm;
          composed_adapters = w.adapters;
        },
        ground arith,
      )
    ]

-- `resolve` returns for every scope, if the registry keeps each name once, has the universal
-- plugin, and has ranks below the limit of depth that go down along `extends`, to plugins that
-- are registered.
pub resolve_total :
    (r : PluginRegistry)
    → IsDict r.plugins
    → universal_registered r ≡ true
    → (rank : String → ℕ) → AreRanked rank r
    → ((name : String) (p : Plugin)
        → Dict.get name r.plugins ≡ some p
        → rank p.manifest.name < max_extends_depth)
    → (scope : PluginScope) → (res : PluginResolution) × (resolve r scope ≡ ok res)
unfolding resolve resolve_matches universal_registered Registry.get Registry.all
resolve_total r dict universal rank ranked shallow scope =
    elim (List-cases (Dict.values r.plugins)) [
      | inl e ↦ elim (Option-cases (Dict.get universal_fallback_id r.plugins)) [
        | inl k ↦ absurd (ground arith)
        | inr (u, k) ↦ elim (rw e at (get-Mem universal_fallback_id u r.plugins k)) [ ]
      ]
      | inr (q, qs, e) ↦ elim (matches-cases r scope) [
        | inl (_, k) ↦ (universal_fallback [], ground arith)
        | inr (c, rest, best, k) ↦
            elim (Bool-cases (str_eq c.plugin.manifest.name universal_fallback_id)) [
              | inl i ↦ (universal_fallback (candidates_considered r), ground arith)
              | inr i ↦
                  let (name, found) = Mem-get c.plugin r.plugins dict best.0.0 in
                  let (d, composed) =
                    compose_extends_chain_succeeds r rank ranked c.plugin
                      (ranked name c.plugin found) c.lifted_scope best.0.1 max_extends_depth
                      (shallow name c.plugin found) in
                  (
                    concrete_resolution (record {
                      plugin = d.plugin;
                      extends_chain = d.extends_chain;
                      matched_scope = c.lifted_scope;
                      composed_tccm = d.composed_tccm;
                      composed_adapters = d.composed_adapters;
                    }),
                    ground arith,
                  )
            ]
      ]
    ]
