-- ===== src/Plugins/Resolver/Best.antt =====
-- resolver.py: `resolve` takes the best of the scopes that match.
use codewizard_sherpa.Prelude.{
  ◌≡◌, ◌≢◌, ◌⊎◌, ◌↔◌, All, Bool, String, true, List, [], ◌∷◌, arith, Bool-cases, inl, inr, str_eq,
  eq_iff,
}
use codewizard_sherpa.Prelude.Outcome.{ok, Outcome-cases}
use codewizard_sherpa.Prelude.Sorting.{IsSorted, sorted-IsSorted, sorted-All, All-sorted}
use codewizard_sherpa.Prelude.Texts.{codes, text_leb_total, text_leb_trans}
use codewizard_sherpa.Plugins.Registry
use codewizard_sherpa.Plugins.Scope.{PluginScope}
use codewizard_sherpa.Plugins.Registry.{Plugin, PluginRegistry}
use codewizard_sherpa.Plugins.Chain.{ConcreteResolution, compose_extends_chain, max_extends_depth}
use codewizard_sherpa.Plugins.Chain.Induction.{compose_extends_chain-ok}
use codewizard_sherpa.Plugins.Resolver.{
  ScopedCandidate, universal_fallback_id, concrete_resolution, universal_fallback, resolve,
  resolve_matches, candidates_considered, universal_registered, concrete_names, name_leb,
}
use codewizard_sherpa.Plugins.Resolver.Matching.{IsMatch, IsBest, matches-cases}

-- The chain of `p` composes to what the resolution holds.
abbrev pub IsComposition : PluginRegistry → Plugin → ConcreteResolution → Type 0
IsComposition r p res =
    (c : ConcreteResolution) × (compose_extends_chain p r max_extends_depth ≡ ok c)
    × (res.extends_chain ≡ c.extends_chain)
    × (res.composed_tccm ≡ c.composed_tccm)
    × (res.composed_adapters ≡ c.composed_adapters)

-- Resolving from a best match on: the match names the universal plugin, or its chain is composed.
resolve_matches-concrete :
    (r : PluginRegistry) (c : ScopedCandidate) (rest : List ScopedCandidate)
    (res : ConcreteResolution)
    → resolve_matches r (c ∷ rest) ≡ ok (concrete_resolution res)
    → (c.plugin.manifest.name ≢ universal_fallback_id)
      × (res.plugin ≡ c.plugin)
      × (res.matched_scope ≡ c.lifted_scope)
      × IsComposition r c.plugin res
unfolding resolve_matches
resolve_matches-concrete r c rest res h =
    elim (Bool-cases (str_eq c.plugin.manifest.name universal_fallback_id)) [
      | inl e ↦ absurd (ground arith)
      | inr e ↦ elim (Outcome-cases (compose_extends_chain c.plugin r max_extends_depth)) [
        | inl (x, i) ↦ absurd (ground arith)
        | inr (d, i) ↦
            let (_, _, plugin, _, _, _) =
              compose_extends_chain-ok c.plugin r max_extends_depth d i in
            (
              λ k. ground (arith, eq_iff c.plugin.manifest.name universal_fallback_id),
              ground arith,
              ground arith,
              (d, i, ground arith, ground arith, ground arith),
            )
      ]
    ]

-- A concrete resolution is of a registered plugin other than the universal one, for a scope that
-- its manifest lifts and that admits the scope asked for; no other such pair comes before it; and
-- its chain is the one that the plugin composes.
pub resolve_concrete :
    (r : PluginRegistry) (scope : PluginScope) (res : ConcreteResolution)
    → resolve r scope ≡ ok (concrete_resolution res)
    → IsBest r scope res.plugin res.matched_scope
      × (res.plugin.manifest.name ≢ universal_fallback_id)
      × IsComposition r res.plugin res
unfolding resolve resolve_matches
resolve_concrete r scope res h = elim (matches-cases r scope) [
  | inl (_, e) ↦ absurd (ground arith)
  | inr (c, rest, best, e) ↦
      let (other, plugin, matched, composed) =
        resolve_matches-concrete r c rest res (ground arith) in
      (rw (plugin, matched) best, rw plugin other, rw plugin composed)
]

-- The names are in alphabetical order, and they are those of the registered plugins other than the
-- universal one: a test holds of every name if it holds of the name of every such plugin, and only
-- then.
pub record IsListing (r : PluginRegistry) (names : List String) : Type 0 where
  pub in_order : IsSorted name_leb names
  pub of_concrete :
      (test : String → Bool)
      → All (λ n. test n ≡ true) names
        ↔ All
            (λ p. p.manifest.name ≢ universal_fallback_id → test p.manifest.name ≡ true)
            (Registry.all r)

concrete_names-All :
    (test : String → Bool) (ps : List Plugin)
    → All (λ n. test n ≡ true) (concrete_names ps)
      ↔ All (λ p. p.manifest.name ≢ universal_fallback_id → test p.manifest.name ≡ true) ps
concrete_names-All test [] = (λ _. tt, λ _. tt)
concrete_names-All test (p ∷ ps) =
    let rest = concrete_names-All test ps in
    let same = eq_iff p.manifest.name universal_fallback_id in
    elim (Bool-cases (str_eq p.manifest.name universal_fallback_id)) [
      | inl u ↦ rw u ((λ h. ((λ apart. absurd (apart (same.0 u))), rest.0 h)), λ h. rest.1 h.1)
      | inr u ↦
          let apart : p.manifest.name ≢ universal_fallback_id = λ e. ground (arith, u, same.1 e) in
          rw u ((λ h. ((λ _. h.0), rest.0 h.1)), λ h. (h.0 apart, rest.1 h.1))
    ]

candidates_considered-IsListing : (r : PluginRegistry) → IsListing r (candidates_considered r)
unfolding candidates_considered
candidates_considered-IsListing r =
    let names = concrete_names (Registry.all r) in
    record {
      in_order =
          sorted-IsSorted name_leb (λ x y. text_leb_total (codes x) (codes y))
            (λ x y z. text_leb_trans (codes x) (codes y) (codes z)) names;
      of_concrete = λ test.
          let of_names = concrete_names-All test (Registry.all r) in
          (
            λ h. of_names.0 (All-sorted name_leb (λ n. test n ≡ true) names h),
            λ h. sorted-All name_leb (λ n. test n ≡ true) names (of_names.1 h),
          );
    }

-- A fallback says that nothing matches and the universal plugin is registered, with no names, or
-- that the best match is of the universal plugin, with the names of the registered plugins other
-- than the universal one in alphabetical order.
pub resolve_fallback :
    (r : PluginRegistry) (scope : PluginScope) (names : List String)
    → resolve r scope ≡ ok (universal_fallback names)
    → (((p : Plugin) (s : PluginScope) → ¬ IsMatch r scope p s)
        × (universal_registered r ≡ true)
        × (names ≡ []))
      ⊎ ((p : Plugin) × (s : PluginScope) × IsBest r scope p s
          × (p.manifest.name ≡ universal_fallback_id)
          × IsListing r names)
unfolding resolve resolve_matches
resolve_fallback r scope names h = elim (matches-cases r scope) [
  | inl (unmatched, e) ↦ inl (unmatched, ground arith, ground arith)
  | inr (c, rest, best, e) ↦
      elim (Bool-cases (str_eq c.plugin.manifest.name universal_fallback_id)) [
        | inl k ↦ inr (
          c.plugin,
          c.lifted_scope,
          best,
          ground (arith, eq_iff c.plugin.manifest.name universal_fallback_id),
          let same : names ≡ candidates_considered r = ground arith in
              rw same (candidates_considered-IsListing r),
        )
        | inr k ↦ elim (Outcome-cases (compose_extends_chain c.plugin r max_extends_depth)) [
          | inl (x, i) ↦ absurd (ground arith)
          | inr (d, i) ↦ absurd (ground arith)
        ]
      ]
]
