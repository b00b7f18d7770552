-- ===== src/Coordinator/Gather/Sequence.antt =====
-- coordinator.py: the dispatches of a wave one after the other are turns that the wave may take.
use codewizard_sherpa.Prelude.{
  ℕ, ◌<◌, ◌≡◌, refl, sym, ◌⊎◌, inl, inr, Option, List, [], ◌∷◌, ◌++◌, String, map, arith,
  sum_by-append,
}
use codewizard_sherpa.Prelude.Int.{ℤ}
use codewizard_sherpa.Prelude.Outcome.{ok, Outcome-cases}
use codewizard_sherpa.Coordinator.{
  Probe, RepoSnapshot, Environment, ProbeExecution, Interrupt, RunResult, Begun, over, started,
  broken, begin, finish, dispatch_with, dispatch_one,
}
use codewizard_sherpa.Coordinator.Interleaving.{
  Slot, waiting, done, wave_of, running_count, is_running, begins, ends, Reached, called, turned,
  waiting_for,
}
use codewizard_sherpa.Coordinator.Waves.{none_running, done_slot}
use codewizard_sherpa.Coordinator.Gather.{dispatch_wave}

none_done : (xs : List (Probe × ProbeExecution)) → running_count (map done_slot xs) ≡ 0
unfolding running_count
none_done [] = refl
none_done (x ∷ xs) = omega (arith, none_done xs)

Begun-cases :
    (b : Begun)
    → ((e : ProbeExecution) × (b ≡ over e))
      ⊎ (((key : String) × (b ≡ started key)) ⊎ ((i : Interrupt) × (b ≡ broken i)))
Begun-cases (over e) = inl (e, refl)
Begun-cases (started key) = inr (inl (key, refl))
Begun-cases (broken i) = inr (inr (i, refl))

-- The slots with one more dispatch over.
done-append :
    (xs : List (Probe × ProbeExecution)) (p : Probe) (e : ProbeExecution)
    (post : List (Probe × Slot))
    → map done_slot xs ++ ((p, done e) ∷ post) ≡ map done_slot (xs ++ ((p, e) ∷ [])) ++ post
done-append [] p e post = refl
done-append (x ∷ xs) p e post = ground (arith, done-append xs p e post)

done-concat :
    (xs : List (Probe × ProbeExecution)) (p : Probe) (e : ProbeExecution)
    (ys : List (Probe × ProbeExecution))
    → map done_slot (xs ++ ((p, e) ∷ [])) ++ map done_slot ys
      ≡ map done_slot xs ++ map done_slot ((p, e) ∷ ys)
done-concat xs p e ys = sym (done-append xs p e (map done_slot ys))

module _ {Cache : Type 0} (env : Environment Cache) (s : RepoSnapshot) (bound : ℕ)
    (places : 0 < bound) (probes : List Probe) (first : Cache) where
  -- Each run comes to what the probe's fields say.
  abbrev pub own : Probe → RunResult × ℕ
  own p = (p.run s, p.elapsed_ms s)

  abbrev Comes : Cache → List (Probe × Slot) → Type 0
  Comes c slots = Reached env s own bound probes first (wave_of c slots)

  one-Comes :
      (xs : List (Probe × ProbeExecution)) (p : Probe) (ps : List Probe) (c after : Cache)
      (e : ProbeExecution)
      → Comes c (map done_slot xs ++ ((p, waiting) ∷ map waiting_for ps))
      → dispatch_one env p s c ≡ ok (e, after)
      → Comes after (map done_slot xs ++ ((p, done e) ∷ map waiting_for ps))
  unfolding dispatch_one dispatch_with running_count
  one-Comes xs p ps c after e reached h =
      let pre = map done_slot xs in
      let post = map waiting_for ps in
      let begun = turned reached (
        begins c pre post p (
          omega (
            arith,
            sum_by-append is_running pre ((p, waiting) ∷ post),
            none_done xs,
            none_running ps,
          ))) in
      elim (Begun-cases (begin env p s c)) [
        | inl (x, i) ↦
            let same : x ≡ e = ground arith in
            let kept : c ≡ after = ground arith in rw⁻¹ (same, kept) (rw i at begun)
        | inr (inr (x, i)) ↦ absurd (ground arith)
        | inr (inl (key, i)) ↦
            let f : finish env p (p.run s) (p.elapsed_ms s) key c ≡ ok (e, after) = ground arith in
            turned (rw i at begun) (ends c after pre post p key e f)
      ]

  wave-Comes :
      (int_of_string : String → Option ℤ) (xs : List (Probe × ProbeExecution)) (ps : List Probe)
      (c after : Cache) (ys : List (Probe × ProbeExecution))
      → Comes c (map done_slot xs ++ map waiting_for ps)
      → dispatch_wave int_of_string env ps s c ≡ ok (ys, after)
      → Comes after (map done_slot xs ++ map done_slot ys)
  unfolding dispatch_wave
  wave-Comes g xs [] c after ys reached h =
      let e : [] ≡ ys = ground arith in
      let kept : c ≡ after = ground arith in rw⁻¹ (e, kept) reached
  wave-Comes g xs (p ∷ ps) c after ys reached h = elim (Outcome-cases (dispatch_one env p s c)) [
    | inl (i, k) ↦ absurd (ground arith)
    | inr ((e, d), k) ↦ elim (Outcome-cases (dispatch_wave g env ps s d)) [
      | inl (i, l) ↦ absurd (ground arith)
      | inr ((zs, x), l) ↦
          let one = one-Comes xs p ps c d e reached k in
          let rest =
            wave-Comes g (xs ++ ((p, e) ∷ [])) ps d x zs
              (rw (done-append xs p e (map waiting_for ps)) at one) l in
          let all : (p, e) ∷ zs ≡ ys = ground arith in
          let kept : x ≡ after = ground arith in
          rw⁻¹ (all, kept) (rw (done-concat xs p e zs) at rest)
    ]
  ]

  -- The dispatches of a wave one after the other, as `gather` is written with them here, are one of
  -- the orders of turns, for a semaphore with a place: its end is one that the wave can come to.
  pub dispatch_wave-Reached :
      (int_of_string : String → Option ℤ) (after : Cache) (results : List (Probe × ProbeExecution))
      → dispatch_wave int_of_string env probes s first ≡ ok (results, after)
      → Reached env s own bound probes first (wave_of after (map done_slot results))
  dispatch_wave-Reached g after results h = wave-Comes g [] probes first after results called h
