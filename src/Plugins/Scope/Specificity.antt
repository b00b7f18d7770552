-- ===== src/Plugins/Scope/Specificity.antt =====
-- scope.py: the order of scopes by specificity agrees with what they match.
use codewizard_sherpa.Prelude.{ℕ, ◌≤◌, ◌≡◌, refl, true, false, [], ◌∷◌, arith}
use codewizard_sherpa.Prelude.Texts.{Text, text_eq, text_eq_iff}
use codewizard_sherpa.Plugins.Scope.{
  ScopeDim, wildcard, concrete, PluginScope, dim_admits, is_concrete, matches, specificity,
}

-- `q` matches whatever `p` matches.
abbrev pub Covers : PluginScope → PluginScope → Type 0
Covers q p =
    (task language build : Text)
    → matches p task language build ≡ true
    → matches q task language build ≡ true

-- A text that the dim admits, other than `v` if the dim is a wildcard.
abbrev sample : ScopeDim → Text → Text
sample wildcard v = 0 ∷ v
sample (concrete u) v = u

dim_admits-sample : (d : ScopeDim) (v : Text) → dim_admits d (sample d v) ≡ true
dim_admits-sample wildcard v = refl
dim_admits-sample (concrete u) v = (text_eq_iff u u).1 refl

text_eq-cons : (c : ℕ) (v : Text) → text_eq v (c ∷ v) ≡ false
text_eq-cons c [] = refl
text_eq-cons c (d ∷ v) = ground (arith, text_eq-cons d v)

value_of : ScopeDim → Text
value_of wildcard = []
value_of (concrete v) = v

is_concrete-le :
    (p q : ScopeDim) → dim_admits q (sample p (value_of q)) ≡ true → is_concrete q ≤ is_concrete p
unfolding value_of
is_concrete-le (concrete u) wildcard h = omega arith
is_concrete-le (concrete u) (concrete v) h = omega arith
is_concrete-le wildcard wildcard h = omega arith
is_concrete-le wildcard (concrete v) h = absurd (ground (arith, text_eq-cons 0 v))

-- Of two scopes of which one matches whatever the other does, it is not the more specific; and
-- no scope has more than three concrete dims.
pub specificity_order :
    (p q : PluginScope) → Covers q p → (specificity q ≤ specificity p) × (specificity p ≤ 3)
unfolding specificity matches
specificity_order p q h =
    let t = sample p.task_class (value_of q.task_class) in
    let l = sample p.language (value_of q.language) in
    let b = sample p.build_system (value_of q.build_system) in
    let all = h t l b (
      ground (
        arith,
        dim_admits-sample p.task_class (value_of q.task_class),
        dim_admits-sample p.language (value_of q.language),
        dim_admits-sample p.build_system (value_of q.build_system),
      )) in
    ground (
      arith,
      is_concrete-le p.task_class q.task_class,
      is_concrete-le p.language q.language,
      is_concrete-le p.build_system q.build_system,
    )
