-- ===== src/Plugins/Chain/Depth.antt =====
-- resolver.py: the walk of an `extends` chain comes to an end, and when it succeeds.
use codewizard_sherpa.Prelude.{
  ℕ, zero, suc, ◌+◌, ◌<◌, ◌≤◌, ◌≡◌, refl, ◌≢◌, String, false, List, [], ◌∷◌, ◌++◌, length, leb,
  arith, Bool-cases, Option-cases, inl, inr,
}
use codewizard_sherpa.Prelude.Dict
use codewizard_sherpa.Prelude.Dict.{Dict}
use codewizard_sherpa.Prelude.Outcome.{Outcome, err, Outcome-cases}
use codewizard_sherpa.Plugins.Scope.{PluginScope}
use codewizard_sherpa.Plugins.Registry
use codewizard_sherpa.Plugins.Registry.{Plugin, PluginRegistry, RegistryError}
use codewizard_sherpa.Plugins.Chain.{
  ResolveError, out_of_fuel, Composed, walk_all, walk, lookup, lift_manifest_scope,
  compose_extends_chain, nothing_composed, placeholder,
}

length-add :
    (k : String) (s : List String) → Dict.mem k s ≡ false → length (Dict.add k s) ≡ suc (length s)
unfolding Dict.add
length-add k s h = rw h refl

-- The loop runs out of fuel only if a call of `walk` does.
walk_all_in_fuel :
    (go : Plugin → Composed → Outcome ResolveError Composed) (r : PluginRegistry)
    → ((p : Plugin) (w : Composed) → go p w ≢ err out_of_fuel)
    → (ids : List String) (w : Composed) → walk_all go r ids w ≢ err out_of_fuel
unfolding walk_all lookup Registry.get
walk_all_in_fuel go r h [] w e = absurd (ground arith)
walk_all_in_fuel go r h (id ∷ ids) w e = elim (Option-cases (Dict.get id r.plugins)) [
  | inl k ↦ absurd (ground arith)
  | inr (p, k) ↦ elim (Outcome-cases (go p w)) [
    | inl (x, i) ↦ h p w (ground arith)
    | inr (v, i) ↦ walk_all_in_fuel go r h ids v (ground arith)
  ]
]

walk_in_fuel :
    (r : PluginRegistry) (max fuel : ℕ) (visited path : List String) (p : Plugin) (w : Composed)
    → max < length visited + fuel
    → length visited ≤ max
    → walk r max fuel visited path p w ≢ err out_of_fuel
unfolding walk
walk_in_fuel r max zero visited path p w h k e = absurd (omega arith)
walk_in_fuel r max (suc n) visited path p w h k e =
    elim (Bool-cases (Dict.mem p.manifest.name visited)) [
      | inl m ↦ absurd (ground arith)
      | inr m ↦ elim (Bool-cases (leb max (length visited))) [
        | inl l ↦ absurd (ground arith)
        | inr l ↦
            let go =
              walk r max n (Dict.add p.manifest.name visited) (path ++ (p.manifest.name ∷ [])) in
            elim (Outcome-cases (walk_all go r p.manifest.extends w)) [
              | inl (x, i) ↦
                  walk_all_in_fuel go r
                    (λ q v.
                      walk_in_fuel r max n (Dict.add p.manifest.name visited)
                        (path ++ (p.manifest.name ∷ [])) q v
                        (ground (arith, length-add p.manifest.name visited))
                        (ground (arith, length-add p.manifest.name visited)))
                    p.manifest.extends w (ground arith)
              | inr (v, i) ↦ absurd (ground arith)
            ]
      ]
    ]

placeholder-in_fuel :
    (p : Plugin) (scopes : List PluginScope) (w : Composed)
    → placeholder p scopes w ≢ err out_of_fuel
unfolding placeholder
placeholder-in_fuel p [] w e = absurd (ground arith)
placeholder-in_fuel p (s ∷ scopes) w e = absurd (ground arith)

-- Composing a chain comes to an end, whatever plugins are registered and whatever they extend: the
-- model never runs out of fuel.
pub compose_extends_chain_in_fuel :
    (p : Plugin) (r : PluginRegistry) (max : ℕ) → compose_extends_chain p r max ≢ err out_of_fuel
unfolding compose_extends_chain
compose_extends_chain_in_fuel p r max e =
    elim (Outcome-cases (walk r max (suc max) [] [] p nothing_composed)) [
      | inl (x, i) ↦
          walk_in_fuel r max (suc max) [] [] p nothing_composed (omega arith) (omega arith)
            (ground arith)
      | inr (v, i) ↦ placeholder-in_fuel p (lift_manifest_scope p.manifest.scope) v (rw i at e)
    ]
