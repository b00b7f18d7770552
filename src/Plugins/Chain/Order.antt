-- ===== src/Plugins/Chain/Order.antt =====
-- resolver.py: the order of the chain that the walk returns.
use codewizard_sherpa.Prelude.{
  ℕ, zero, suc, ◌≡◌, sym, String, Bool, true, false, ◌||◌, some, List, [], ◌∷◌, ◌++◌, arith, All,
  str_eq, eq_iff,
}
use codewizard_sherpa.Prelude.Dict
use codewizard_sherpa.Prelude.Dict.{Dict}
use codewizard_sherpa.Prelude.Outcome.{Outcome, ok}
use codewizard_sherpa.Plugins.Registry.{Plugin, PluginRegistry}
use codewizard_sherpa.Plugins.Chain.Induction.{walk_all-cons, walk-suc, compose_extends_chain-ok}
use codewizard_sherpa.Plugins.Chain.{
  ResolveError, Composed, compose, walk_all, walk, ConcreteResolution, compose_extends_chain,
  nothing_composed,
}

-- A plugin of that name is in the list.
unfoldable pub has_name : String → List Plugin → Bool
has_name name [] = false
has_name name (p ∷ chain) = str_eq p.manifest.name name || has_name name chain

-- Each plugin of the chain stands behind all that it extends.
abbrev pub IsBasesFirst : (before chain : List Plugin) → Type 0
IsBasesFirst before [] = Unit
IsBasesFirst before (p ∷ chain) =
    All (λ id. has_name id before ≡ true) p.manifest.extends × IsBasesFirst (p ∷ before) chain

-- A registry keeps each plugin under its own name.
abbrev pub AreNamed : PluginRegistry → Type 0
AreNamed r =
    (name : String) (p : Plugin) → Dict.get name r.plugins ≡ some p → p.manifest.name ≡ name

All-mono {ℓ κ μ} :
    {A : Type ℓ} (P : A → Type κ) (Q : A → Type μ)
    → ((a : A) → P a → Q a)
    → (xs : List A) → All P xs
    → All Q xs
All-mono P Q f [] h = tt
All-mono P Q f (x ∷ xs) h = (f x h.0, All-mono P Q f xs h.1)

append-IsBasesFirst :
    (before chain : List Plugin) (p : Plugin)
    → IsBasesFirst before chain
    → All (λ id. (has_name id before || has_name id chain) ≡ true) p.manifest.extends
    → IsBasesFirst before (chain ++ (p ∷ []))
unfolding has_name
append-IsBasesFirst before [] p h k = (
  All-mono (λ id. (has_name id before || false) ≡ true) (λ id. has_name id before ≡ true)
      (λ id e. ground arith) p.manifest.extends k,
  tt,
)
append-IsBasesFirst before (q ∷ chain) p h k = (
  h.0,
  append-IsBasesFirst (q ∷ before) chain p h.1 (
      All-mono
        (λ id. (has_name id before || (str_eq q.manifest.name id || has_name id chain)) ≡ true)
        (λ id. ((str_eq q.manifest.name id || has_name id before) || has_name id chain) ≡ true)
        (λ id e. ground arith) p.manifest.extends k),
)

has_name-append :
    (name : String) (chain : List Plugin) (p : Plugin)
    → has_name name (chain ++ (p ∷ [])) ≡ (has_name name chain || str_eq p.manifest.name name)
unfolding has_name
has_name-append name [] p = ground arith
has_name-append name (q ∷ chain) p = ground (arith, has_name-append name chain p)

-- From `w` to `after` the chain keeps the names it has.
abbrev Grows : Composed → Composed → Type 0
Grows w after = (id : String) → has_name id w.chain ≡ true → has_name id after.chain ≡ true

abbrev IsOrdered : Composed → Type 0
IsOrdered w = IsBasesFirst [] w.chain

module _ (r : PluginRegistry) (named : AreNamed r) where
  walk_all-IsOrdered :
      (go : Plugin → Composed → Outcome ResolveError Composed)
      → ((p : Plugin) (w after : Composed)
          → IsOrdered w
          → go p w ≡ ok after
          → IsOrdered after × Grows w after × (has_name p.manifest.name after.chain ≡ true))
      → (ids : List String) (w after : Composed) → walk_all go r ids w ≡ ok after
      → IsOrdered w
      → IsOrdered after × Grows w after × All (λ id. has_name id after.chain ≡ true) ids
  unfolding walk_all
  walk_all-IsOrdered go step [] w after h k =
      let e : w ≡ after = ground arith in rw⁻¹ e (k, λ id i. i, tt)
  walk_all-IsOrdered go step (id ∷ ids) w after h k =
      let (q, v, found, called, rest) = walk_all-cons go r id ids w after h in
      let (ordered, grows, there) = step q w v k called in
      let (all_ordered, more, all_there) = walk_all-IsOrdered go step ids v after rest ordered in
      (
        all_ordered,
        λ i e. more i (grows i e),
        (more id (rw (sym (named id q found)) there), all_there),
      )

  walk-IsOrdered :
      (max fuel : ℕ) (visited path : List String) (p : Plugin) (w after : Composed)
      → IsOrdered w
      → walk r max fuel visited path p w ≡ ok after
      → IsOrdered after × Grows w after × (has_name p.manifest.name after.chain ≡ true)
  unfolding walk compose has_name
  walk-IsOrdered max zero visited path p w after k h = absurd (ground arith)
  walk-IsOrdered max (suc n) visited path p w after k h =
      let (v, looped, e) = walk-suc r max n visited path p w after h in
      let (ordered, grows, there) =
        walk_all-IsOrdered
          (walk r max n (Dict.add p.manifest.name visited) (path ++ (p.manifest.name ∷ [])))
          (λ q u x i called.
            walk-IsOrdered max n (Dict.add p.manifest.name visited) (path ++ (p.manifest.name ∷ []))
              q u x i called)
          p.manifest.extends w v looped k in
      rw e (
        append-IsBasesFirst [] v.chain p ordered there,
        λ id i. ground (arith, has_name-append id v.chain p, grows id i),
        ground (
          arith,
          has_name-append p.manifest.name v.chain p,
          eq_iff p.manifest.name p.manifest.name,
        ),
      )

  -- The chain of a composed resolution ends with the plugin itself, and each plugin in it stands
  -- behind all that it extends, if the registry keeps each plugin under its own name.
  pub compose_extends_chain-IsBasesFirst :
      (p : Plugin) (max : ℕ) (res : ConcreteResolution)
      → compose_extends_chain p r max ≡ ok res
      → IsBasesFirst [] res.extends_chain
        × ((bases : List Plugin) × (res.extends_chain ≡ bases ++ (p ∷ [])))
  unfolding compose
  compose_extends_chain-IsBasesFirst p max res h =
      let (w, walked, _, chain, _, _) = compose_extends_chain-ok p r max res h in
      let (v, looped, e) = walk-suc r max max [] [] p nothing_composed w walked in
      let (ordered, _, _) = walk-IsOrdered max (suc max) [] [] p nothing_composed w tt walked in
      (rw chain ordered, (v.chain, ground arith))
