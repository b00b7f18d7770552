-- ===== src/Parsers/Depth/Capped.antt =====
-- `assert_max_depth` of _depth.py: what its return and its error show of the nesting.
use mathlib.Core.List.Memᴰ.{head}
use codewizard_sherpa.Prelude.{
  ℕ, zero, suc, ◌+◌, ◌≤◌, ◌≡◌, ◌↔◌, refl, sym, true, false, List, [], ◌∷◌, arith, inl, inr,
  Bool-cases, ltb,
}
use codewizard_sherpa.Prelude.Outcome.{Outcome, ok, err, Outcome-cases, >>=-eq-ok}
use codewizard_sherpa.Parsers.Depth.{
  Value, scalar, container, Heap, DepthError, depth_cap_exceeded, is_in, walk_values, walk,
  assert_max_depth,
}
use codewizard_sherpa.Parsers.Depth.Walked.{At, top, inside, Sees, Walked, walk-Walked, walk-err}

-- No id stands twice.
abbrev pub AreUnique : List ℕ → Type 0
AreUnique [] = Unit
AreUnique (i ∷ seen) = (is_in i seen ≡ false) × AreUnique seen

walk_values-AreUnique :
    (visit : Value → List ℕ → Outcome DepthError (List ℕ)) (values : List Value)
    → ((v : Value) (before after : List ℕ)
        → visit v before ≡ ok after
        → AreUnique before
        → AreUnique after)
    → (before after : List ℕ) → walk_values visit values before ≡ ok after
    → AreUnique before
    → AreUnique after
unfolding walk_values
walk_values-AreUnique visit [] each before after h u =
    let e : before ≡ after = ground (arith, h) in rw⁻¹ e u
walk_values-AreUnique visit (v ∷ values) each before after h u =
    let (mid, first, rest) = >>=-eq-ok (visit v before) (walk_values visit values) h in
    walk_values-AreUnique visit values each mid after rest (each v before mid first u)

walk-AreUnique :
    (fuel : ℕ) (heap : Heap) (max_depth current : ℕ) (v : Value) (before after : List ℕ)
    → walk fuel heap max_depth current v before ≡ ok after
    → AreUnique before
    → AreUnique after
unfolding walk
walk-AreUnique fuel heap max_depth current scalar before after h u =
    let e : before ≡ after = ground (arith, h) in rw⁻¹ e u
walk-AreUnique zero heap max_depth current (container id) before after h u =
    absurd (ground (arith, h))
walk-AreUnique (suc fuel) heap max_depth current (container id) before after h u =
    elim (Bool-cases (ltb max_depth current)) [
      | inl deep ↦ absurd (ground (arith, h, deep))
      | inr shallow ↦ elim (Bool-cases (is_in id before)) [
        | inl seen ↦ let e : before ≡ after = ground (arith, h, shallow, seen) in rw⁻¹ e u
        | inr new ↦
            let k : walk_values (walk fuel heap max_depth (suc current)) (heap id) (id ∷ before)
                ≡ ok after =
              ground (arith, h) in
            walk_values-AreUnique (walk fuel heap max_depth (suc current)) (heap id)
              (λ v b a. walk-AreUnique fuel heap max_depth (suc current) v b a) (id ∷ before) after
              k (new, u)
      ]
    ]

module _ (heap : Heap) (max_depth : ℕ) (root : Value) where
  -- What a return shows: the containers seen are those that stand below the root, each was
  -- descended once, and each stands within the cap on some way down.
  pub record Accepts (seen : List ℕ) : Type 0 where
    pub once : AreUnique seen
    pub reached : (d i : ℕ) → At heap max_depth root d (container i) → is_in i seen ≡ true
    pub within :
        (i : ℕ)
        → is_in i seen ≡ true
        → (d : ℕ) × (d ≤ max_depth) × At heap max_depth root d (container i)

  all_reached :
      (seen : List ℕ)
      → Walked heap max_depth root [] seen
      → Sees heap max_depth root seen (root ∷ [])
      → {d : ℕ} {v : Value} (i : ℕ) → At heap max_depth root d v
      → v ≡ container i
      → is_in i seen ≡ true
  unfolding is_in
  all_reached seen w s i top e = s i (head (sym e))
  all_reached seen w s i (inside id v at m) e =
      elim (w.descends id (all_reached seen w s id at refl)) [
        | inl k ↦ absurd (ground (arith, k))
        | inr below ↦ below i (rw e at m)
      ]

  pub assert_max_depth-Accepts :
      (seen : List ℕ) → assert_max_depth heap max_depth root ≡ ok seen → Accepts seen
  unfolding assert_max_depth is_in
  assert_max_depth-Accepts seen h =
      let (w, s) = walk-Walked heap max_depth root (max_depth + 2) 0 root [] seen top h in
      record {
        once = walk-AreUnique (max_depth + 2) heap max_depth 0 root [] seen h tt;
        reached = λ d i at. all_reached seen w s i at refl;
        within = λ i k. elim (w.origin i k) [ inl e ↦ absurd (ground (arith, e)) | inr p ↦ p ];
      }

  -- The error of the cap shows a container one level below it, and no other error comes: the walk
  -- ends on every heap, also where containers hold each other.
  pub assert_max_depth-err :
      (e : DepthError)
      → assert_max_depth heap max_depth root ≡ err e
      → (e ≡ depth_cap_exceeded) × ((i : ℕ) × At heap max_depth root (suc max_depth) (container i))
  unfolding assert_max_depth
  assert_max_depth-err e h =
      walk-err heap max_depth root (max_depth + 2) 0 root [] e top (omega arith) (omega arith) h

  -- Where each container stands at one depth, as in a value that JSON gives, the walk returns
  -- exactly if no container is deeper than the cap.
  pub assert_max_depth-tree_iff :
      ((i d d' : ℕ)
        → At heap max_depth root d (container i)
        → At heap max_depth root d' (container i)
        → d ≡ d')
      → ((seen : List ℕ) × (assert_max_depth heap max_depth root ≡ ok seen))
        ↔ ((i d : ℕ) → At heap max_depth root d (container i) → d ≤ max_depth)
  assert_max_depth-tree_iff single = (
    λ (seen, h). (λ i d at.
        let a = assert_max_depth-Accepts seen h in
        let (d', bound, at') = a.within i (a.reached d i at) in
        omega (arith, single i d d' at at', bound)),
    λ bounded. elim (Outcome-cases (assert_max_depth heap max_depth root)) [
      | inl (e, h) ↦
          let (same, (i, at)) = assert_max_depth-err e h in
          absurd (omega (arith, bounded i (suc max_depth) at))
      | inr (seen, h) ↦ (seen, h)
    ],
  )
