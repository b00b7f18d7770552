-- ===== src/Plugins/Resolver/Unspecified.antt =====
-- resolver.py: what a scope with a wildcard is matched against.
use codewizard_sherpa.Prelude.{◌≡◌, true, List, arith, Bool-cases, inl, inr}
use mathlib.Core.List.{Memᴰ}
use codewizard_sherpa.Prelude.Texts.{Text, codes, text_eq}
use codewizard_sherpa.Plugins.Scope.{ScopeDim, wildcard, concrete, PluginScope, matches, dim_admits}
use codewizard_sherpa.Plugins.Registry.{Plugin}
use codewizard_sherpa.Plugins.Chain.{lift_dim}
use codewizard_sherpa.Plugins.Chain.Lifting.{lift_manifest_scope_iff}
use codewizard_sherpa.Plugins.Resolver.Candidates.{lift_candidates-Mem, filter_matches-Mem}
use codewizard_sherpa.Plugins.Resolver.{
  ScopedCandidate, lift_candidates, filter_matches, admits, unpack,
}

-- A dim that is the wildcard whenever the other one is.
abbrev pub FollowsWildcard : (asked given : ScopeDim) → Type 0
FollowsWildcard asked given = elim asked [ wildcard ↦ given ≡ wildcard | concrete v ↦ Unit ]

lift_dim-FollowsWildcard :
    (asked : ScopeDim) (raw : Text)
    → dim_admits (lift_dim raw) (unpack asked) ≡ true
    → FollowsWildcard asked (lift_dim raw)
unfolding lift_dim
lift_dim-FollowsWildcard (concrete v) raw h = tt
lift_dim-FollowsWildcard wildcard raw h = elim (Bool-cases (text_eq raw (codes "*"))) [
  | inl e ↦ ground arith
  | inr e ↦ absurd (ground arith)
]

-- A candidate that is kept has the wildcard wherever the scope asked for has it: a wildcard that is
-- asked for does not admit a plugin with a concrete dim.
filter_matches_wildcards :
    (ps : List Plugin) (scope : PluginScope) (c : ScopedCandidate)
    → Memᴰ c (filter_matches (lift_candidates ps) scope)
    → FollowsWildcard scope.task_class c.lifted_scope.task_class
      × FollowsWildcard scope.language c.lifted_scope.language
      × FollowsWildcard scope.build_system c.lifted_scope.build_system
unfolding admits matches
filter_matches_wildcards ps scope c m =
    let (i, admitted) = filter_matches-Mem c (lift_candidates ps) scope m in
    let (_, k) = lift_candidates-Mem c ps i in
    let (t, l, b, _, _, _, e) =
      (lift_manifest_scope_iff c.plugin.manifest.scope c.lifted_scope).0 k in
    rw e (
      lift_dim-FollowsWildcard scope.task_class t (ground arith),
      lift_dim-FollowsWildcard scope.language l (ground arith),
      lift_dim-FollowsWildcard scope.build_system b (ground arith),
    )
