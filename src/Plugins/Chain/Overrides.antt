-- ===== src/Plugins/Chain/Overrides.antt =====
-- resolver.py: what a chain composes, read back key by key.
use codewizard_sherpa.Prelude.{
  ℕ, suc, ◌≡◌, refl, String, true, false, Option, none, some, List, [], ◌∷◌, ◌++◌, eq_iff, arith,
  Option-cases, inl, inr, str_eq,
}
use codewizard_sherpa.Prelude.Dict
use codewizard_sherpa.Prelude.Dict.{Dict, IsDict}
use codewizard_sherpa.Prelude.Outcome.{ok}
use codewizard_sherpa.Plugins.Registry.{Adapter, Plugin, PluginRegistry}
use codewizard_sherpa.Plugins.Chain.Induction.{walk-Holds, compose_extends_chain-ok}
use codewizard_sherpa.Plugins.Chain.{
  Composed, compose, ConcreteResolution, compose_extends_chain, nothing_composed, merge_provides,
  merge_tccm, merge_adapters, plugin_tccm,
}

-- The value under two keys.
abbrev pub get_inner : (outer inner : String) → Dict (Dict String) → Option String
get_inner outer inner m = elim (Dict.get outer m) [ none ↦ none | some d ↦ Dict.get inner d ]

abbrev AreDicts : Dict (Dict String) → Type 0
AreDicts [] = Unit
AreDicts ((k, d) ∷ m) = IsDict d × AreDicts m

-- The dicts of a plugin have each key once.
abbrev pub IsPlugin : Plugin → Type 0
IsPlugin p =
    IsDict p.adapters
    × (IsDict (plugin_tccm p).requires
        × (IsDict (plugin_tccm p).provides × AreDicts (plugin_tccm p).provides))

abbrev or_else {ℓ} : {A : Type ℓ} → Option A → Option A → Option A
or_else (some a) other = some a
or_else none other = other

get_inner-put :
    (outer inner k : String) (d : Dict String) (m : Dict (Dict String))
    → get_inner outer inner (Dict.put k d m)
      ≡ elim (str_eq k outer) [ true ↦ Dict.get inner d | false ↦ get_inner outer inner m ]
get_inner-put outer inner k d m = ground (arith, Dict.get-put k outer d m)

get_inner-merge_provides :
    (outer inner : String) (left right : Dict (Dict String))
    → IsDict right
    → AreDicts right
    → get_inner outer inner (merge_provides left right)
      ≡ or_else (get_inner outer inner right) (get_inner outer inner left)
unfolding merge_provides Dict.get
get_inner-merge_provides outer inner left [] h k = refl
get_inner-merge_provides outer inner left ((j, d) ∷ right) h k =
    elim (Option-cases (Dict.get j left)) [
      | inl e ↦ ground (
        arith,
        get_inner-merge_provides outer inner (Dict.put j d left) right h.1 k.1,
        get_inner-put outer inner j d left,
        eq_iff j outer,
      )
      | inr (c, e) ↦ ground (
        arith,
        get_inner-merge_provides outer inner (Dict.put j (Dict.merge c d) left) right h.1 k.1,
        get_inner-put outer inner j (Dict.merge c d) left,
        Dict.get-merge inner c d k.0,
        eq_iff j outer,
      )
    ]

-- The value that the last plugin of the chain gives that gives one.
abbrev pub later_wins {ℓ} : {A : Type ℓ} → (Plugin → Option A) → List Plugin → Option A
later_wins f [] = none
later_wins f (p ∷ chain) = or_else (later_wins f chain) (f p)

later_wins-append {ℓ} :
    {A : Type ℓ} (f : Plugin → Option A) (chain : List Plugin) (p : Plugin)
    → later_wins f (chain ++ (p ∷ [])) ≡ or_else (f p) (later_wins f chain)
later_wins-append f [] p = ground arith
later_wins-append f (q ∷ chain) p = ground (arith, later_wins-append f chain p)

abbrev pub adapter_for : String → Plugin → Option Adapter
adapter_for k p = Dict.get k p.adapters

abbrev pub requires_for : String → Plugin → Option (List String)
requires_for k p = Dict.get k (plugin_tccm p).requires

abbrev pub provides_for : (outer inner : String) → Plugin → Option String
provides_for outer inner p = get_inner outer inner (plugin_tccm p).provides

-- What is composed agrees with the chain, under every key.
abbrev IsComposed : Composed → Type 0
IsComposed w =
    ((k : String) → Dict.get k w.adapters ≡ later_wins (adapter_for k) w.chain)
    × (((k : String) → Dict.get k w.tccm.requires ≡ later_wins (requires_for k) w.chain)
        × ((outer inner : String)
            → get_inner outer inner w.tccm.provides
              ≡ later_wins (provides_for outer inner) w.chain))

compose-IsComposed :
    (p : Plugin) (w : Composed) → IsPlugin p → IsComposed w → IsComposed (compose p w)
unfolding compose merge_tccm merge_adapters
compose-IsComposed p w h (adapters, (requires, provides)) = (
  λ k. ground (
    arith,
    Dict.get-merge k w.adapters p.adapters h.0,
    later_wins-append (adapter_for k) w.chain p,
    adapters k,
  ),
  (
    λ k. ground (
      arith,
      Dict.get-merge k w.tccm.requires (plugin_tccm p).requires h.1.0,
      later_wins-append (requires_for k) w.chain p,
      requires k,
    ),
    λ outer inner. ground (
      arith,
      get_inner-merge_provides outer inner w.tccm.provides (plugin_tccm p).provides h.1.1.0 h.1.1.1,
      later_wins-append (provides_for outer inner) w.chain p,
      provides outer inner,
    ),
  ),
)

-- The plugins of the registry have dicts with each key once.
abbrev pub ArePlugins : PluginRegistry → Type 0
ArePlugins r = (name : String) (p : Plugin) → Dict.get name r.plugins ≡ some p → IsPlugin p

-- In a composed resolution the adapter of a primitive, what a capability requires, and what is
-- provided under two keys, are each those of the last plugin in the chain that gives any: a plugin
-- overrides those it extends.
pub composed_later_wins :
    (r : PluginRegistry)
    → ArePlugins r
    → (p : Plugin) → IsPlugin p
    → (max : ℕ) (res : ConcreteResolution) → compose_extends_chain p r max ≡ ok res
    → ((k : String)
        → Dict.get k res.composed_adapters ≡ later_wins (adapter_for k) res.extends_chain)
      × (((k : String)
            → Dict.get k res.composed_tccm.requires ≡ later_wins (requires_for k) res.extends_chain)
          × ((outer inner : String)
              → get_inner outer inner res.composed_tccm.provides
                ≡ later_wins (provides_for outer inner) res.extends_chain))
unfolding Dict.get
composed_later_wins r all p h max res e =
    let (w, walked, _, chain, tccm, adapters) = compose_extends_chain-ok p r max res e in
    let start : IsComposed nothing_composed = (λ k. refl, (λ k. refl, λ outer inner. refl)) in
    rw (chain, tccm, adapters)
      (walk-Holds IsPlugin IsComposed compose-IsComposed r all max (suc max) [] [] p
        nothing_composed w h start walked)
