-- ===== src/Plugins/Resolver/Matching.antt =====
-- resolver.py: the matches, and the one that comes before the others.
use codewizard_sherpa.Prelude.{
  ◌+◌, ◌<◌, ◌≡◌, refl, ◌⊎◌, true, false, List, [], ◌∷◌, arith, Bool-cases, List-cases, All, inl,
  inr,
}
use mathlib.Core.List.{Memᴰ}
use mathlib.Core.List.Memᴰ.{head, tail}
use codewizard_sherpa.Prelude.Int.{pos_part, neg_part}
use codewizard_sherpa.Prelude.Sorting.{sorted, sorted-All, All-sorted, sorted-IsSorted}
use codewizard_sherpa.Prelude.Texts.{codes, text_leb, text_leb_total, text_leb_trans}
use codewizard_sherpa.Plugins.Scope.{PluginScope, specificity}
use codewizard_sherpa.Plugins.Registry
use codewizard_sherpa.Plugins.Registry.{Plugin, PluginRegistry}
use codewizard_sherpa.Plugins.Chain.{lift_manifest_scope}
use codewizard_sherpa.Plugins.Resolver.Candidates.{
  lift_candidates-Mem, Mem-lift_candidates, filter_matches-Mem, Mem-filter_matches,
}
use codewizard_sherpa.Plugins.Resolver.{
  ScopedCandidate, candidate_of, lift_candidates, filter_matches, admits, key_leb,
}

key_leb_total : (a b : ScopedCandidate) → key_leb a b ≡ false → key_leb b a ≡ true
unfolding key_leb
key_leb_total a b h =
    ground (arith, text_leb_total (codes a.plugin.manifest.name) (codes b.plugin.manifest.name))

key_leb_trans :
    (a b c : ScopedCandidate) → key_leb a b ≡ true → key_leb b c ≡ true → key_leb a c ≡ true
unfolding key_leb
key_leb_trans a b c h k = ground (
  arith,
  text_leb_trans (codes a.plugin.manifest.name) (codes b.plugin.manifest.name)
      (codes c.plugin.manifest.name),
)

key_leb_refl : (a : ScopedCandidate) → key_leb a a ≡ true
key_leb_refl a = elim (Bool-cases (key_leb a a)) [ inl h ↦ h | inr h ↦ key_leb_total a a h ]

All-Mem {ℓ κ} : {A : Type ℓ} (P : A → Type κ) (xs : List A) → ((a : A) → Memᴰ a xs → P a) → All P xs
All-Mem P [] f = tt
All-Mem P (x ∷ xs) f = (f x (head refl), All-Mem P xs (λ a m. f a (tail m)))

Mem-All {ℓ κ} : {A : Type ℓ} (P : A → Type κ) (xs : List A) → All P xs → (a : A) → Memᴰ a xs → P a
Mem-All P [] h a m = elim m [ ]
Mem-All P (x ∷ xs) h a (head e) = rw e h.0
Mem-All P (x ∷ xs) h a (tail m) = Mem-All P xs h.1 a m

-- `s` is a scope of the registered plugin `p`, and it admits `scope`.
abbrev pub IsMatch : PluginRegistry → (scope : PluginScope) → Plugin → (s : PluginScope) → Type 0
IsMatch r scope p s =
    Memᴰ p (Registry.all r)
    × Memᴰ s (lift_manifest_scope p.manifest.scope)
    × (admits scope (candidate_of p s) ≡ true)

-- More concrete dims come first, then a higher precedence, then a name that is earlier in the
-- alphabet or the same.
abbrev pub ComesBefore : (p : Plugin) (s : PluginScope) (q : Plugin) (t : PluginScope) → Type 0
ComesBefore p s q t =
    let higher = p.manifest.precedence in
    let lower = q.manifest.precedence in
    (specificity t < specificity s)
    ⊎ ((specificity t ≡ specificity s)
        × ((pos_part lower + neg_part higher < pos_part higher + neg_part lower)
            ⊎ ((pos_part lower + neg_part higher ≡ pos_part higher + neg_part lower)
                × (text_leb (codes p.manifest.name) (codes q.manifest.name) ≡ true))))

key_leb-ComesBefore :
    (p : Plugin) (s : PluginScope) (q : Plugin) (t : PluginScope)
    → key_leb (candidate_of p s) (candidate_of q t) ≡ true
    → ComesBefore p s q t
unfolding key_leb
key_leb-ComesBefore p s q t h = ground arith

-- A match that comes before every match.
abbrev pub IsBest : PluginRegistry → (scope : PluginScope) → Plugin → (s : PluginScope) → Type 0
IsBest r scope p s =
    IsMatch r scope p s
    × ((q : Plugin) (t : PluginScope) → IsMatch r scope q t → ComesBefore p s q t)

abbrev pub matches_of : PluginRegistry → PluginScope → List ScopedCandidate
matches_of r scope = filter_matches (lift_candidates (Registry.all r)) scope

Mem-IsMatch :
    (r : PluginRegistry) (scope : PluginScope) (c : ScopedCandidate)
    → Memᴰ c (matches_of r scope)
    → IsMatch r scope c.plugin c.lifted_scope
Mem-IsMatch r scope c m =
    let (i, k) = filter_matches-Mem c (lift_candidates (Registry.all r)) scope m in
    let (p, s) = lift_candidates-Mem c (Registry.all r) i in (p, s, k)

IsMatch-Mem :
    (r : PluginRegistry) (scope : PluginScope) (p : Plugin) (s : PluginScope)
    → IsMatch r scope p s
    → Memᴰ (candidate_of p s) (matches_of r scope)
IsMatch-Mem r scope p s (i, j, k) =
    Mem-filter_matches (candidate_of p s) (lift_candidates (Registry.all r)) scope
      (Mem-lift_candidates p s (Registry.all r) i j) k

sorted-IsBest :
    (r : PluginRegistry) (scope : PluginScope) (c : ScopedCandidate) (rest : List ScopedCandidate)
    → sorted key_leb (matches_of r scope) ≡ c ∷ rest
    → IsBest r scope c.plugin c.lifted_scope
sorted-IsBest r scope c rest e =
    let ms = matches_of r scope in
    let there = sorted-All key_leb (λ d. Memᴰ d ms) ms (All-Mem (λ d. Memᴰ d ms) ms (λ d m. m)) in
    let ordered = sorted-IsSorted key_leb key_leb_total key_leb_trans ms in
    let first : Memᴰ c ms = (rw e at there).0 in
    let lower : All (λ d. key_leb c d ≡ true) (c ∷ rest) = (key_leb_refl c, (rw e at ordered).0) in
    let least = All-sorted key_leb (λ d. key_leb c d ≡ true) ms (rw e lower) in
    (
      Mem-IsMatch r scope c first,
      λ q t h. key_leb-ComesBefore c.plugin c.lifted_scope q t (
          Mem-All (λ d. key_leb c d ≡ true) ms least (candidate_of q t)
            (IsMatch-Mem r scope q t h)),
    )

sorted-none :
    (r : PluginRegistry) (scope : PluginScope)
    → sorted key_leb (matches_of r scope) ≡ []
    → (p : Plugin) (s : PluginScope) → ¬ IsMatch r scope p s
sorted-none r scope e p s h =
    let ms = matches_of r scope in
    let there = sorted-All key_leb (λ d. Memᴰ d ms) ms (All-Mem (λ d. Memᴰ d ms) ms (λ d m. m)) in
    let none_left = All-sorted key_leb (λ d. ⊥) ms (rw e tt) in
    Mem-All (λ d. ⊥) ms none_left (candidate_of p s) (IsMatch-Mem r scope p s h)

-- The matches of a registry that resolves: none, or a best one.
pub matches-cases :
    (r : PluginRegistry) (scope : PluginScope)
    → ((p : Plugin) (s : PluginScope) → ¬ IsMatch r scope p s)
        × (sorted key_leb (matches_of r scope) ≡ [])
      ⊎ ((c : ScopedCandidate) × (rest : List ScopedCandidate) × IsBest r scope c.plugin
            c.lifted_scope
          × (sorted key_leb (matches_of r scope) ≡ c ∷ rest))
matches-cases r scope = elim (List-cases (sorted key_leb (matches_of r scope))) [
  | inl e ↦ inl (sorted-none r scope e, e)
  | inr (c, rest, e) ↦ inr (c, rest, sorted-IsBest r scope c rest e, e)
]
