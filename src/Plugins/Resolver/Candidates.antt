-- ===== src/Plugins/Resolver/Candidates.antt =====
-- resolver.py: the candidates, as the plugins and the scopes that they lift.
use codewizard_sherpa.Prelude.{◌≡◌, ap, true, List, [], ◌∷◌, map, Bool-cases, inl, inr}
use mathlib.Core.List.{Memᴰ}
use mathlib.Core.List.Memᴰ.{head, tail, append_left, append_right, append_cases, cases_cons}
use codewizard_sherpa.Plugins.Scope.{PluginScope}
use codewizard_sherpa.Plugins.Registry.{Plugin}
use codewizard_sherpa.Plugins.Chain.{lift_manifest_scope}
use codewizard_sherpa.Plugins.Resolver.{
  ScopedCandidate, candidate_of, lift_candidates, filter_matches, admits,
}

map-Mem :
    (p : Plugin) (c : ScopedCandidate) (ss : List PluginScope)
    → Memᴰ c (map (candidate_of p) ss)
    → (c.plugin ≡ p) × Memᴰ c.lifted_scope ss
map-Mem p c [] h = elim h [ ]
map-Mem p c (s ∷ ss) (head e) = (ap (λ x. x.plugin) e, head (ap (λ x. x.lifted_scope) e))
map-Mem p c (s ∷ ss) (tail m) = let (i, j) = map-Mem p c ss m in (i, tail j)

Mem-map :
    (p : Plugin) (s : PluginScope) (ss : List PluginScope)
    → Memᴰ s ss
    → Memᴰ (candidate_of p s) (map (candidate_of p) ss)
Mem-map p s [] h = elim h [ ]
Mem-map p s (u ∷ ss) (head e) = head (ap (candidate_of p) e)
Mem-map p s (u ∷ ss) (tail m) = tail (Mem-map p s ss m)

-- A candidate is a plugin of the list with a scope that it lifts.
pub lift_candidates-Mem :
    (c : ScopedCandidate) (ps : List Plugin)
    → Memᴰ c (lift_candidates ps)
    → Memᴰ c.plugin ps × Memᴰ c.lifted_scope (lift_manifest_scope c.plugin.manifest.scope)
unfolding lift_candidates
lift_candidates-Mem c [] h = elim h [ ]
lift_candidates-Mem c (p ∷ ps) h =
    elim (append_cases (map (candidate_of p) (lift_manifest_scope p.manifest.scope)) h) [
      | inl m ↦
          let (e, k) = map-Mem p c (lift_manifest_scope p.manifest.scope) m in (head e, rw e k)
      | inr m ↦ let (i, k) = lift_candidates-Mem c ps m in (tail i, k)
    ]

pub Mem-lift_candidates :
    (p : Plugin) (s : PluginScope) (ps : List Plugin)
    → Memᴰ p ps
    → Memᴰ s (lift_manifest_scope p.manifest.scope)
    → Memᴰ (candidate_of p s) (lift_candidates ps)
unfolding lift_candidates
Mem-lift_candidates p s [] h k = elim h [ ]
Mem-lift_candidates p s (q ∷ ps) (head e) k =
    append_left (lift_candidates ps) (rw⁻¹ e (Mem-map p s (lift_manifest_scope p.manifest.scope) k))
Mem-lift_candidates p s (q ∷ ps) (tail m) k =
    append_right (map (candidate_of q) (lift_manifest_scope q.manifest.scope))
      (Mem-lift_candidates p s ps m k)

pub filter_matches-Mem :
    (c : ScopedCandidate) (cs : List ScopedCandidate) (scope : PluginScope)
    → Memᴰ c (filter_matches cs scope)
    → Memᴰ c cs × (admits scope c ≡ true)
unfolding filter_matches
filter_matches-Mem c [] scope h = elim h [ ]
filter_matches-Mem c (d ∷ cs) scope h = elim (Bool-cases (admits scope d)) [
  | inr e ↦ let (i, k) = filter_matches-Mem c cs scope (rw e at h) in (tail i, k)
  | inl e ↦ elim (cases_cons (rw e at h)) [
    | inl i ↦ (head i, rw i e)
    | inr m ↦ let (i, k) = filter_matches-Mem c cs scope m in (tail i, k)
  ]
]

pub Mem-filter_matches :
    (c : ScopedCandidate) (cs : List ScopedCandidate) (scope : PluginScope)
    → Memᴰ c cs
    → admits scope c ≡ true
    → Memᴰ c (filter_matches cs scope)
unfolding filter_matches
Mem-filter_matches c [] scope h k = elim h [ ]
Mem-filter_matches c (d ∷ cs) scope (head i) h =
    let k : admits scope d ≡ true = rw⁻¹ i h in rw k (head i)
Mem-filter_matches c (d ∷ cs) scope (tail m) h = elim (Bool-cases (admits scope d)) [
  | inl e ↦ rw e (tail (Mem-filter_matches c cs scope m h))
  | inr e ↦ rw e (Mem-filter_matches c cs scope m h)
]
