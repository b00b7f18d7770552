-- ===== src/Gc/Swept.antt =====
-- The walk against a relation between the children that it meets, those it removes and those left.
use codewizard_sherpa.Prelude.{
  ℕ, ◌+◌, ◌*◌, ◌<◌, ◌≡◌, refl, true, false, ◌&&◌, ◌↔◌, ◌⊎◌, inl, inr, none, List, [], ◌∷◌, length,
  sum_by, arith, Bool-cases, ◌≢◌, All,
}
use codewizard_sherpa.Gc.Walking.{
  second, is_evictable, is_hex_name, is_bundle, Fate, stays, gone_before_stat, gone_before_unlink,
  locked, Child, Walk, keep, unlink, skip, sweep,
}

-- A plain file with the name of a bundle whose age is above the lifetime.
abbrev pub IsStale : ℕ → ℕ → Child → Type 0
IsStale now ttl c =
    (c.is_symlink ≡ false)
    × (c.is_file ≡ true)
    × (is_hex_name c.name ≡ true)
    × (c.mtime + ttl * second < now)

-- The children met, those removed, and those in the directory behind the walk.
pub data Swept (now ttl : ℕ) : List Child → List Child → List Child → Type 0 where
  done : Swept now ttl [] [] []
  evicts :
      {c : Child} {cs rs ls : List Child}
      → c.fate ≡ stays
      → IsStale now ttl c
      → Swept now ttl cs rs ls
      → Swept now ttl (c ∷ cs) (c ∷ rs) ls
  vanishes :
      {c : Child} {cs rs ls : List Child}
      → (c.fate ≡ gone_before_stat) ⊎ (c.fate ≡ gone_before_unlink)
      → Swept now ttl cs rs ls
      → Swept now ttl (c ∷ cs) rs ls
  keeps :
      {c : Child} {cs rs ls : List Child}
      → (c.fate ≡ stays) ⊎ (c.fate ≡ locked)
      → ¬ IsStale now ttl c
      → Swept now ttl cs rs ls
      → Swept now ttl (c ∷ cs) rs (c ∷ ls)

pub IsStale-iff :
    (now ttl : ℕ) (c : Child)
    → ((is_bundle c && is_evictable now c.mtime ttl) ≡ true) ↔ IsStale now ttl c
unfolding is_bundle is_evictable
IsStale-iff now ttl c = ground arith

-- What the walk's record is to hold for the children removed.
abbrev pub Counts : Walk → List Child → Type 0
Counts walk rs =
    (walk.entries_evicted ≡ length rs) × (walk.bytes_reclaimed ≡ sum_by (λ c. c.size) rs)

module _ (now ttl : ℕ) where
  abbrev pub Result : List Child → Walk → Type 0
  Result cs walk = (rs : List Child) × Swept now ttl cs rs walk.left × Counts walk rs

  unlink-Swept :
      (f : Fate) (c : Child) (cs : List Child) (walk : Walk)
      → c.fate ≡ f
      → IsStale now ttl c
      → (unlink c cs walk).raised ≡ none
      → (walk.raised ≡ none → Result cs walk)
      → Result (c ∷ cs) (unlink c cs walk)
  unfolding unlink
  unlink-Swept stays c cs walk f s h rest =
      let r = rest (rw f at h) in
      rw f (
        record c { fate = stays } ∷ r.0,
        evicts refl s r.1,
        (omega (arith, r.2.0), omega (arith, r.2.1)),
      )
  unlink-Swept gone_before_stat c cs walk f s h rest =
      let r = rest (rw f at h) in rw f (r.0, vanishes (inl refl) r.1, r.2)
  unlink-Swept gone_before_unlink c cs walk f s h rest =
      let r = rest (rw f at h) in rw f (r.0, vanishes (inr refl) r.1, r.2)
  unlink-Swept locked c cs walk f s h rest = ground (arith, f, h)

  skip-Swept :
      (f : Fate) (c : Child) (cs : List Child) (walk : Walk)
      → c.fate ≡ f
      → ¬ IsStale now ttl c
      → Result cs walk
      → Result (c ∷ cs) (skip c walk)
  unfolding skip keep
  skip-Swept stays c cs walk f s r = rw f (r.0, keeps (inl refl) s r.1, r.2)
  skip-Swept gone_before_stat c cs walk f s r = rw f (r.0, vanishes (inl refl) r.1, r.2)
  skip-Swept gone_before_unlink c cs walk f s r = rw f (r.0, vanishes (inr refl) r.1, r.2)
  skip-Swept locked c cs walk f s r = rw f (r.0, keeps (inr refl) s r.1, r.2)

  skip_raised :
      (f : Fate) (c : Child) (walk : Walk) → c.fate ≡ f → (skip c walk).raised ≡ walk.raised
  unfolding skip keep
  skip_raised stays c walk f = rw f refl
  skip_raised gone_before_stat c walk f = rw f refl
  skip_raised gone_before_unlink c walk f = rw f refl
  skip_raised locked c walk f = rw f refl

  -- A walk that nothing ends early has removed the stale bundles that stay, and counted them.
  pub sweep-Swept :
      (cs : List Child) → (sweep now ttl cs).raised ≡ none → Result cs (sweep now ttl cs)
  unfolding sweep
  sweep-Swept [] h = ([], done, (refl, refl))
  sweep-Swept (c ∷ cs) h =
      let rest = sweep-Swept cs in
      elim (Bool-cases (is_bundle c && is_evictable now c.mtime ttl)) [
        | inl t ↦ rw t (
            unlink-Swept c.fate c cs (sweep now ttl cs) refl ((IsStale-iff now ttl c).0 t)
              (rw t at h) rest)
        | inr t ↦
            let kept = rw (t, skip_raised c.fate c (sweep now ttl cs) refl) at h in
            rw t (
              skip-Swept c.fate c cs (sweep now ttl cs) refl
                (λ s. ground (arith, t, (IsStale-iff now ttl c).1 s)) (rest kept))
      ]

  fresh : (c : Child) → ¬ IsStale now ttl c → (is_bundle c && is_evictable now c.mtime ttl) ≡ false
  fresh c s =
      ground
        (arith, s, IsStale-iff now ttl c, Bool-cases (is_bundle c && is_evictable now c.mtime ttl))

  kept :
      (c : Child) (ls : List Child)
      → (c.fate ≡ stays) ⊎ (c.fate ≡ locked)
      → skip c (record { entries_evicted = 0; bytes_reclaimed = 0; left = ls; raised = none })
        ≡ record { entries_evicted = 0; bytes_reclaimed = 0; left = c ∷ ls; raised = none }
  unfolding skip keep
  kept c ls (inl f) = rw f refl
  kept c ls (inr f) = rw f refl

  -- A second walk over what the first left, at the same time, finds nothing to remove.
  left_sweep :
      {cs rs ls : List Child}
      → Swept now ttl cs rs ls
      → sweep now ttl ls
        ≡ record { entries_evicted = 0; bytes_reclaimed = 0; left = ls; raised = none }
  unfolding sweep
  left_sweep done = refl
  left_sweep (evicts f s w) = left_sweep w
  left_sweep (vanishes f w) = left_sweep w
  left_sweep (keeps {c = c} f s w) = rw (fresh c s, left_sweep w) (kept c _ f)

  unlink_unraised :
      (f : Fate) (c : Child) (cs : List Child) (walk : Walk)
      → c.fate ≡ f
      → c.fate ≢ locked
      → walk.raised ≡ none
      → (unlink c cs walk).raised ≡ none
  unfolding unlink
  unlink_unraised stays c cs walk f h r = rw f r
  unlink_unraised gone_before_stat c cs walk f h r = rw f r
  unlink_unraised gone_before_unlink c cs walk f h r = rw f r
  unlink_unraised locked c cs walk f h r = absurd (h f)

  -- Nothing ends a walk early that finds no stale bundle which may not be unlinked.
  pub sweep_unraised :
      (cs : List Child)
      → All (λ c. IsStale now ttl c → c.fate ≢ locked) cs
      → (sweep now ttl cs).raised ≡ none
  unfolding sweep
  sweep_unraised [] h = refl
  sweep_unraised (c ∷ cs) h =
      let rest = sweep_unraised cs h.1 in
      elim (Bool-cases (is_bundle c && is_evictable now c.mtime ttl)) [
        | inl t ↦ rw t (
            unlink_unraised c.fate c cs (sweep now ttl cs) refl (h.0 ((IsStale-iff now ttl c).0 t))
              rest)
        | inr t ↦ rw (t, skip_raised c.fate c (sweep now ttl cs) refl) rest
      ]

  -- So a walk that nothing ended early leaves nothing for a second one.
  sweep_again :
      (cs : List Child)
      → (sweep now ttl cs).raised ≡ none
      → sweep now ttl (sweep now ttl cs).left ≡ record {
        entries_evicted = 0;
        bytes_reclaimed = 0;
        left = (sweep now ttl cs).left;
        raised = none;
      }
  sweep_again cs h = left_sweep (sweep-Swept cs h).1
