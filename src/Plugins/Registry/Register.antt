-- ===== src/Plugins/Registry/Register.antt =====
-- registry.py: registering keeps a registry in order, and refuses a name that is taken.
use codewizard_sherpa.Prelude.{
  ◌≡◌, ◌↔◌, refl, String, true, false, none, some, [], ◌∷◌, ◌++◌, arith, Option-cases, ◌⊎◌, inl,
  inr, str_eq, eq_iff,
}
use codewizard_sherpa.Prelude.Dict
use codewizard_sherpa.Prelude.Dict.{Dict, IsDict}
use codewizard_sherpa.Prelude.Outcome.{ok, err}
use codewizard_sherpa.Plugins.Registry.{
  Plugin, PluginRegistry, plugin_already_registered, register, get, all,
}

-- Each name is there once, with its own plugin, and has an origin if and only if it has a plugin.
abbrev pub IsRegistry : PluginRegistry → Type 0
IsRegistry r =
    IsDict r.plugins
    × IsDict r.origins
    × ((name : String) (p : Plugin) → Dict.get name r.plugins ≡ some p → p.manifest.name ≡ name)
    × ((name : String) → (Dict.get name r.plugins ≡ none) ↔ (Dict.get name r.origins ≡ none))

values-put {ℓ} :
    {V : Type ℓ} (k : String) (v : V) (m : Dict V)
    → Dict.get k m ≡ none
    → Dict.values (Dict.put k v m) ≡ Dict.values m ++ (v ∷ [])
unfolding Dict.get Dict.put
values-put k v [] h = refl
values-put k v ((j, w) ∷ m) h = ground (arith, values-put k v m)

abbrev added : Plugin → PluginRegistry → PluginRegistry
added p r = record {
  plugins = Dict.put p.manifest.name p r.plugins;
  origins = Dict.put p.manifest.name p.origin r.origins;
}

register-new :
    (p : Plugin) (r : PluginRegistry)
    → Dict.get p.manifest.name r.plugins ≡ none
    → register p r ≡ (ok p, added p r)
unfolding register
register-new p r h = ground arith

register-taken :
    (p q : Plugin) (r : PluginRegistry) (origin : String)
    → Dict.get p.manifest.name r.plugins ≡ some q
    → Dict.get p.manifest.name r.origins ≡ some origin
    → register p r ≡ (err (plugin_already_registered p.manifest.name origin p.origin), r)
unfolding register
register-taken p q r origin h k = ground arith

added-IsRegistry : (p : Plugin) (r : PluginRegistry) → IsRegistry r → IsRegistry (added p r)
added-IsRegistry p r (plugins, origins, named, both) = (
  Dict.put-IsDict p.manifest.name p r.plugins plugins,
  Dict.put-IsDict p.manifest.name p.origin r.origins origins,
  λ name q h. ground (
    arith,
    Dict.get-put p.manifest.name name p r.plugins,
    named name q,
    eq_iff p.manifest.name name,
  ),
  λ name.
      let (there, back) = both name in
      (
        λ h. ground (
          arith,
          Dict.get-put p.manifest.name name p r.plugins,
          Dict.get-put p.manifest.name name p.origin r.origins,
          there,
        ),
        λ h. ground (
          arith,
          Dict.get-put p.manifest.name name p r.plugins,
          Dict.get-put p.manifest.name name p.origin r.origins,
          back,
        ),
      ),
)

-- `after` is `r` with `p` behind the plugins that it has.
abbrev pub Adds : Plugin → PluginRegistry → (after : PluginRegistry) → Type 0
Adds p r after =
    (all after ≡ all r ++ (p ∷ []))
    × ((name : String)
        → get name after ≡ elim (str_eq p.manifest.name name) [ true ↦ ok p | false ↦ get name r ])

added-Adds :
    (p : Plugin) (r : PluginRegistry)
    → Dict.get p.manifest.name r.plugins ≡ none
    → Adds p r (added p r)
unfolding get all
added-Adds p r h = (
  values-put p.manifest.name p r.plugins h,
  λ name. ground (arith, Dict.get-put p.manifest.name name p r.plugins),
)

-- A plugin of a new name is registered: it comes last, its name gives it, and the other names give
-- what they gave. A plugin whose name is taken is refused with both origins and the registry is
-- left as it was. Either way each name stays there once, with its own plugin and an origin.
pub register_lem :
    (p : Plugin) (r : PluginRegistry)
    → IsRegistry r
    → IsRegistry (register p r).1
      × (((Dict.get p.manifest.name r.plugins ≡ none)
            × ((register p r).0 ≡ ok p)
            × Adds p r (register p r).1)
          ⊎ ((q : Plugin) × (origin : String) × (Dict.get p.manifest.name r.plugins ≡ some q)
              × (Dict.get p.manifest.name r.origins ≡ some origin)
              × ((register p r).0 ≡ err (plugin_already_registered p.manifest.name origin p.origin))
              × ((register p r).1 ≡ r)))
register_lem p r h = elim (Option-cases (Dict.get p.manifest.name r.plugins)) [
  | inl e ↦ rw (register-new p r e) (added-IsRegistry p r h, inl (e, refl, added-Adds p r e))
  | inr (q, e) ↦ elim (Option-cases (Dict.get p.manifest.name r.origins)) [
    | inl k ↦ let (_, _, _, both) = h in absurd (ground (arith, (both p.manifest.name).1))
    | inr (origin, k) ↦ rw (register-taken p q r origin e k) (h, inr (q, origin, e, k, refl, refl))
  ]
]
