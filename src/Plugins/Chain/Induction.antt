-- ===== src/Plugins/Chain/Induction.antt =====
-- resolver.py: induction on the walk of a chain, for what every step of it keeps.
use codewizard_sherpa.Prelude.{
  ℕ, zero, suc, ◌≡◌, String, some, List, [], ◌∷◌, ◌++◌, length, leb, arith, Bool-cases,
  Option-cases, inl, inr,
}
use codewizard_sherpa.Prelude.Dict
use codewizard_sherpa.Prelude.Outcome.{Outcome, ok, Outcome-cases, >>=-eq-ok}
use codewizard_sherpa.Plugins.Scope.{PluginScope}
use codewizard_sherpa.Plugins.Registry
use codewizard_sherpa.Plugins.Registry.{Plugin, PluginRegistry}
use codewizard_sherpa.Plugins.Chain.{
  ResolveError, Composed, compose, walk_all, walk, lookup, placeholder, lift_manifest_scope,
  nothing_composed, ConcreteResolution, compose_extends_chain,
}

-- A loop that goes through has looked the plugin up and made the call.
pub walk_all-cons :
    (go : Plugin → Composed → Outcome ResolveError Composed) (r : PluginRegistry) (id : String)
    (ids : List String) (w after : Composed)
    → walk_all go r (id ∷ ids) w ≡ ok after
    → (q : Plugin) × (v : Composed) × (Dict.get id r.plugins ≡ some q)
      × (go q w ≡ ok v)
      × (walk_all go r ids v ≡ ok after)
unfolding walk_all lookup Registry.get
walk_all-cons go r id ids w after h = elim (Option-cases (Dict.get id r.plugins)) [
  | inl k ↦ absurd (ground arith)
  | inr (q, k) ↦ elim (Outcome-cases (go q w)) [
    | inl (e, i) ↦ absurd (ground arith)
    | inr (v, i) ↦ (q, v, k, i, ground arith)
  ]
]

-- A call that goes through went through the loop.
pub walk-suc :
    (r : PluginRegistry) (max n : ℕ) (visited path : List String) (p : Plugin) (w after : Composed)
    → walk r max (suc n) visited path p w ≡ ok after
    → (v : Composed) × (walk_all
          (walk r max n (Dict.add p.manifest.name visited) (path ++ (p.manifest.name ∷ [])))
          r
          p.manifest.extends
          w
        ≡ ok v)
      × (after ≡ compose p v)
unfolding walk
walk-suc r max n visited path p w after h = elim (Bool-cases (Dict.mem p.manifest.name visited)) [
  | inl m ↦ absurd (ground arith)
  | inr m ↦ elim (Bool-cases (leb max (length visited))) [
    | inl l ↦ absurd (ground arith)
    | inr l ↦
        let go = walk r max n (Dict.add p.manifest.name visited) (path ++ (p.manifest.name ∷ [])) in
        elim (Outcome-cases (walk_all go r p.manifest.extends w)) [
          | inl (x, i) ↦ absurd (ground arith)
          | inr (v, i) ↦ (v, i, ground arith)
        ]
  ]
]

placeholder-ok :
    (p : Plugin) (scopes : List PluginScope) (w : Composed) (res : ConcreteResolution)
    → placeholder p scopes w ≡ ok res
    → (res.plugin ≡ p)
      × (res.extends_chain ≡ w.chain)
      × (res.composed_tccm ≡ w.tccm)
      × (res.composed_adapters ≡ w.adapters)
unfolding placeholder
placeholder-ok p [] w res h = absurd (ground arith)
placeholder-ok p (s ∷ scopes) w res h = ground arith

-- A composition that returns holds what the walk composed.
pub compose_extends_chain-ok :
    (p : Plugin) (r : PluginRegistry) (max : ℕ) (res : ConcreteResolution)
    → compose_extends_chain p r max ≡ ok res
    → (w : Composed) × (walk r max (suc max) [] [] p nothing_composed ≡ ok w)
      × (res.plugin ≡ p)
      × (res.extends_chain ≡ w.chain)
      × (res.composed_tccm ≡ w.tccm)
      × (res.composed_adapters ≡ w.adapters)
unfolding compose_extends_chain
compose_extends_chain-ok p r max res h =
    let (w, walked, placed) =
      >>=-eq-ok (walk r max (suc max) [] [] p nothing_composed)
        (placeholder p (lift_manifest_scope p.manifest.scope)) h in
    let (plugin, chain, tccm, adapters) =
      placeholder-ok p (lift_manifest_scope p.manifest.scope) w res placed in
    (w, walked, plugin, chain, tccm, adapters)

-- `Holds` is kept by composing a plugin that is `Good`, as every registered one is.
module _ {ℓ κ} (Good : Plugin → Type κ) (Holds : Composed → Type ℓ)
    (compose-Holds : (p : Plugin) (w : Composed) → Good p → Holds w → Holds (compose p w))
    (r : PluginRegistry)
    (all : (name : String) (p : Plugin) → Dict.get name r.plugins ≡ some p → Good p) where
  walk_all-Holds :
      (go : Plugin → Composed → Outcome ResolveError Composed)
      → ((p : Plugin) (w after : Composed) → Good p → Holds w → go p w ≡ ok after → Holds after)
      → (ids : List String) (w after : Composed) → walk_all go r ids w ≡ ok after
      → Holds w
      → Holds after
  unfolding walk_all
  walk_all-Holds go step [] w after h k = let e : w ≡ after = ground arith in rw⁻¹ e k
  walk_all-Holds go step (id ∷ ids) w after h k =
      let (q, v, found, called, rest) = walk_all-cons go r id ids w after h in
      walk_all-Holds go step ids v after rest (step q w v (all id q found) k called)

  pub walk-Holds :
      (max fuel : ℕ) (visited path : List String) (p : Plugin) (w after : Composed)
      → Good p
      → Holds w
      → walk r max fuel visited path p w ≡ ok after
      → Holds after
  unfolding walk
  walk-Holds max zero visited path p w after g k h = absurd (ground arith)
  walk-Holds max (suc n) visited path p w after g k h =
      let (v, looped, e) = walk-suc r max n visited path p w after h in
      rw e (
        compose-Holds p v g (
          walk_all-Holds
            (walk r max n (Dict.add p.manifest.name visited) (path ++ (p.manifest.name ∷ [])))
            (λ q u x good holds called.
              walk-Holds max n (Dict.add p.manifest.name visited) (path ++ (p.manifest.name ∷ [])) q
                u x good holds called)
            p.manifest.extends w v looped k))
