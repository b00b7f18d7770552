-- ===== src/Parsers/Depth/Walked.antt =====
-- What the walk of _depth.py sees, on any heap, with shared and with cyclic containers.
use mathlib.Core.List.{Memᴰ}
use mathlib.Core.List.Memᴰ.{head, tail}
use codewizard_sherpa.Prelude.{
  ℕ, zero, suc, ◌+◌, ◌≤◌, ◌≡◌, refl, true, List, [], ◌∷◌, arith, ◌⊎◌, inl, inr, Bool-cases, ◌==◌,
  ltb,
}
use codewizard_sherpa.Prelude.Outcome.{Outcome, ok, err, Outcome-cases, >>=-eq-ok}
use codewizard_sherpa.Parsers.Depth.{
  Value, scalar, container, Heap, DepthError, depth_cap_exceeded, is_in, walk_values, walk,
}

module _ (heap : Heap) (max_depth : ℕ) (root : Value) where
  -- The value stands `d` containers deep on some way down from the root.
  pub data At : ℕ → Value → Type 0 where
    top : At 0 root
    inside : {d : ℕ} (id : ℕ) (v : Value) → At d (container id) → Memᴰ v (heap id) → At (suc d) v

  -- The containers of a list of values are seen.
  abbrev pub Sees : List ℕ → List Value → Type 0
  Sees seen values = (i : ℕ) → Memᴰ (container i) values → is_in i seen ≡ true

  -- What a walk adds to the ids seen.
  pub record Walked (before after : List ℕ) : Type 0 where
    pub grows : (i : ℕ) → is_in i before ≡ true → is_in i after ≡ true
    pub origin :
        (i : ℕ)
        → is_in i after ≡ true
        → (is_in i before ≡ true) ⊎ ((d : ℕ) × (d ≤ max_depth) × At d (container i))
    pub descends : (i : ℕ) → is_in i after ≡ true → (is_in i before ≡ true) ⊎ Sees after (heap i)

  Walked-refl : (seen : List ℕ) → Walked seen seen
  Walked-refl seen = record { grows = λ i h. h; origin = λ i h. inl h; descends = λ i h. inl h }

  Walked-trans : (a b c : List ℕ) → Walked a b → Walked b c → Walked a c
  Walked-trans a b c p q = record {
    grows = λ i h. q.grows i (p.grows i h);
    origin = λ i h. elim (q.origin i h) [ inl k ↦ p.origin i k | inr k ↦ inr k ];
    descends = λ i h. elim (q.descends i h) [
      | inl k ↦ elim (p.descends i k) [ inl l ↦ inl l | inr l ↦ inr (λ j m. q.grows j (l j m)) ]
      | inr k ↦ inr k
    ];
  }

  -- What a visit of each value of a list does, all of them do.
  pub walk_values-Walked :
      (visit : Value → List ℕ → Outcome DepthError (List ℕ)) (values : List Value)
      → ((v : Value)
          → Memᴰ v values
          → (before after : List ℕ) → visit v before ≡ ok after
          → Walked before after × Sees after (v ∷ []))
      → (before after : List ℕ) → walk_values visit values before ≡ ok after
      → Walked before after × Sees after values
  unfolding walk_values
  walk_values-Walked visit [] each before after h =
      let e : before ≡ after = ground (arith, h) in rw⁻¹ e (Walked-refl before, λ i m. elim m [ ])
  walk_values-Walked visit (v ∷ values) each before after h =
      let (mid, first, rest) = >>=-eq-ok (visit v before) (walk_values visit values) h in
      let (w, s) = each v (head refl) before mid first in
      let (w', s') = walk_values-Walked visit values (λ u m. each u (tail m)) mid after rest in
      (
        Walked-trans before mid after w w',
        λ i m. elim m [ head e ↦ w'.grows i (s i (head e)) | tail k ↦ s' i k ],
      )

  -- A container that was not seen, once its values are walked.
  Walked-new :
      (current id : ℕ) (before after : List ℕ)
      → At current (container id)
      → current ≤ max_depth
      → Walked (id ∷ before) after × Sees after (heap id)
      → Walked before after × Sees after (container id ∷ [])
  unfolding is_in
  Walked-new current id before after at level (w, s) = (
    record {
      grows = λ i h. w.grows i (ground (arith, h));
      origin = λ i h. elim (w.origin i h) [
        | inl k ↦ elim (Bool-cases (i == id)) [
          | inl e ↦ let p : i ≡ id = ground (arith, e) in rw p (inr (current, level, at))
          | inr e ↦ inl (ground (arith, k, e))
        ]
        | inr k ↦ inr k
      ];
      descends = λ i h. elim (w.descends i h) [
        | inl k ↦ elim (Bool-cases (i == id)) [
          | inl e ↦ let p : i ≡ id = ground (arith, e) in rw p (inr s)
          | inr e ↦ inl (ground (arith, k, e))
        ]
        | inr k ↦ inr k
      ];
    },
    λ i m. elim m [ head e ↦ w.grows i (ground (arith, e)) | tail k ↦ elim k [ ] ],
  )

  pub walk-Walked :
      (fuel current : ℕ) (v : Value) (before after : List ℕ)
      → At current v
      → walk fuel heap max_depth current v before ≡ ok after
      → Walked before after × Sees after (v ∷ [])
  unfolding walk
  walk-Walked fuel current scalar before after at h =
      let e : before ≡ after = ground (arith, h) in
      rw⁻¹ e (
        Walked-refl before,
        λ i m. elim m [ head e ↦ absurd (ground (arith, e)) | tail k ↦ elim k [ ] ],
      )
  walk-Walked zero current (container id) before after at h = cc
  walk-Walked (suc fuel) current (container id) before after at h =
      elim (Bool-cases (ltb max_depth current)) [
        | inl deep ↦ absurd (ground arith)
        | inr level ↦ elim (Bool-cases (is_in id before)) [
          | inl seen ↦
              let e : before ≡ after = ground (arith, h) in
              rw⁻¹ e (
                Walked-refl before,
                λ i m. elim m [ head e ↦ ground (arith, e, seen) | tail k ↦ elim k [ ] ],
              )
          | inr new ↦
              let k : walk_values (walk fuel heap max_depth (suc current)) (heap id) (id ∷ before)
                  ≡ ok after =
                ground (arith, h) in
              Walked-new current id before after at (ground (arith, level)) (
                walk_values-Walked (walk fuel heap max_depth (suc current)) (heap id)
                  (λ v m b a. walk-Walked fuel (suc current) v b a (inside id v at m)) (id ∷ before)
                  after k)
        ]
      ]

  -- A walk that raises has met a container below the cap; it does not run out of fuel.
  walk_values-err :
      (visit : Value → List ℕ → Outcome DepthError (List ℕ)) (values : List Value) (e : DepthError)
      {R : Type 0}
      → ((v : Value) → Memᴰ v values → (before : List ℕ) → visit v before ≡ err e → R)
      → (before : List ℕ) → walk_values visit values before ≡ err e
      → R
  unfolding walk_values
  walk_values-err visit [] e each before h = cc
  walk_values-err visit (v ∷ values) e each before h = elim (Outcome-cases (visit v before)) [
    | inl (x, p) ↦ each v (head refl) before (ground (arith, p, h))
    | inr (mid, p) ↦
        walk_values-err visit values e (λ u m. each u (tail m)) mid (ground (arith, p, h))
  ]

  pub walk-err :
      (fuel current : ℕ) (v : Value) (before : List ℕ) (e : DepthError)
      → At current v
      → max_depth + 2 ≤ fuel + current
      → current ≤ suc max_depth
      → walk fuel heap max_depth current v before ≡ err e
      → (e ≡ depth_cap_exceeded) × ((i : ℕ) × At (suc max_depth) (container i))
  unfolding walk
  walk-err fuel current scalar before e at enough level h = absurd (ground (arith, h))
  walk-err zero current (container id) before e at enough level h = absurd (omega arith)
  walk-err (suc fuel) current (container id) before e at enough level h =
      elim (Bool-cases (ltb max_depth current)) [
        | inl deep ↦
            let p : suc max_depth ≡ current = ground (arith, deep) in
            (ground (arith, h, deep), (id, rw p at))
        | inr shallow ↦ elim (Bool-cases (is_in id before)) [
          | inl seen ↦ absurd (ground (arith, h, shallow, seen))
          | inr new ↦
              let k : walk_values (walk fuel heap max_depth (suc current)) (heap id) (id ∷ before)
                  ≡ err e =
                ground (arith, h) in
              walk_values-err (walk fuel heap max_depth (suc current)) (heap id) e
                (λ v m b.
                  walk-err fuel (suc current) v b e (inside id v at m) (omega arith)
                    (ground (arith, shallow)))
                (id ∷ before) k
        ]
      ]
