-- ===== src/Plugins/Chain/Ranked.antt =====
-- resolver.py: a registry in which every chain composes.
use codewizard_sherpa.Prelude.{
  ℕ, zero, suc, ◌+◌, ◌<◌, ◌≤◌, ◌≡◌, refl, String, false, some, List, [], ◌∷◌, ◌++◌, length, leb,
  eq_iff, arith, ◌∙◌, Bool-cases, All, inl, inr,
}
use codewizard_sherpa.Prelude.Dict
use codewizard_sherpa.Prelude.Dict.{Dict}
use codewizard_sherpa.Prelude.Outcome.{Outcome, ok}
use codewizard_sherpa.Plugins.Registry
use codewizard_sherpa.Plugins.Registry.{Plugin, PluginRegistry, RegistryError}
use codewizard_sherpa.Plugins.Chain.{ResolveError, Composed, compose, walk_all, walk, lookup}

-- The plugins that `p` extends are registered, and each has a lower rank than `p`.
abbrev pub IsRanked : (String → ℕ) → PluginRegistry → Plugin → Type 0
IsRanked rank r p =
    All
      (λ id.
        (q : Plugin) × (Dict.get id r.plugins ≡ some q)
        × (rank q.manifest.name < rank p.manifest.name))
      p.manifest.extends

-- Every registered plugin has a chain that does not turn back to it.
abbrev pub AreRanked : (String → ℕ) → PluginRegistry → Type 0
AreRanked rank r =
    (name : String) (p : Plugin) → Dict.get name r.plugins ≡ some p → IsRanked rank r p

mem-above :
    (rank : String → ℕ) (n : ℕ) (name : String) (visited : List String)
    → All (λ v. n < rank v) visited
    → rank name ≤ n
    → Dict.mem name visited ≡ false
unfolding Dict.mem
mem-above rank n name [] h k = refl
mem-above rank n name (v ∷ visited) h k =
    ground (arith, mem-above rank n name visited h.1 k, eq_iff v name)

add-above :
    (rank : String → ℕ) (n : ℕ) (name : String) (visited : List String)
    → All (λ v. rank name < rank v) visited
    → n < rank name
    → All (λ v. n < rank v) (Dict.add name visited)
unfolding Dict.add
add-above rank n name visited h k = elim (Bool-cases (Dict.mem name visited)) [
  | inl m ↦ rw m (all visited h)
  | inr m ↦ rw m (k, all visited h)
]
  where
    all : (vs : List String) → All (λ v. rank name < rank v) vs → All (λ v. n < rank v) vs
    all [] hs = tt
    all (v ∷ vs) hs = (omega (arith, hs.0), all vs hs.1)

add-le : (k : String) (s : List String) → length (Dict.add k s) ≤ suc (length s)
unfolding Dict.add
add-le k s = ground arith

le-add : (k : String) (s : List String) → Dict.mem k s ≡ false → length s < length (Dict.add k s)
unfolding Dict.add
le-add k s h = ground arith

walk_all-ok :
    (go : Plugin → Composed → Outcome ResolveError Composed) (r : PluginRegistry) (id : String)
    (ids : List String) (q : Plugin) (w v : Composed)
    → Dict.get id r.plugins ≡ some q
    → go q w ≡ ok v
    → walk_all go r (id ∷ ids) w ≡ walk_all go r ids v
unfolding walk_all lookup Registry.get
walk_all-ok go r id ids q w v h k = ground arith

walk-ok :
    (r : PluginRegistry) (max n : ℕ) (visited path : List String) (p : Plugin) (w v : Composed)
    → Dict.mem p.manifest.name visited ≡ false
    → leb max (length visited) ≡ false
    → walk_all
        (walk r max n (Dict.add p.manifest.name visited) (path ++ (p.manifest.name ∷ [])))
        r
        p.manifest.extends
        w
      ≡ ok v
    → walk r max (suc n) visited path p w ≡ ok (compose p v)
unfolding walk
walk-ok r max n visited path p w v fresh shallow h = ground arith

-- The loop goes through if the calls for the plugins of lower rank do.
walk_all_ranked :
    (go : Plugin → Composed → Outcome ResolveError Composed) (r : PluginRegistry)
    (rank : String → ℕ) (n : ℕ)
    → ((q : Plugin) (name : String) (w : Composed)
        → Dict.get name r.plugins ≡ some q
        → rank q.manifest.name < n
        → (after : Composed) × (go q w ≡ ok after))
    → (ids : List String) (w : Composed)
    → All (λ id. (q : Plugin) × (Dict.get id r.plugins ≡ some q) × (rank q.manifest.name < n)) ids
    → (after : Composed) × (walk_all go r ids w ≡ ok after)
unfolding walk_all
walk_all_ranked go r rank n h [] w k = (w, refl)
walk_all_ranked go r rank n h (id ∷ ids) w k =
    let (q, get, lower) = k.0 in
    let (v, called) = h q id w get lower in
    let (after, rest) = walk_all_ranked go r rank n h ids v k.1 in
    (after, walk_all-ok go r id ids q w v get called ∙ rest)

pub walk_ranked :
    (r : PluginRegistry) (rank : String → ℕ)
    → AreRanked rank r
    → (max fuel : ℕ) (visited path : List String) (p : Plugin) (w : Composed) → IsRanked rank r p
    → All (λ v. rank p.manifest.name < rank v) visited
    → rank p.manifest.name + length visited < max
    → max < length visited + fuel
    → (after : Composed) × (walk r max fuel visited path p w ≡ ok after)
walk_ranked r rank ranked max zero visited path p w hp above room fuel = absurd (omega arith)
walk_ranked r rank ranked max (suc n) visited path p w hp above room fuel =
    let name = p.manifest.name in
    let fresh : Dict.mem name visited ≡ false =
      mem-above rank (rank name) name visited above (omega arith) in
    let shallow : leb max (length visited) ≡ false = ground arith in
    let (v, composed) =
      walk_all_ranked (walk r max n (Dict.add name visited) (path ++ (name ∷ []))) r rank
        (rank name)
        (λ q id w get lower.
          walk_ranked r rank ranked max n (Dict.add name visited) (path ++ (name ∷ [])) q w
            (ranked id q get) (add-above rank (rank q.manifest.name) name visited above lower)
            (omega (arith, add-le name visited)) (omega (arith, le-add name visited fresh)))
        p.manifest.extends w hp in
    (compose p v, walk-ok r max n visited path p w v fresh shallow composed)
