-- ===== src/Coordinator/Waves.antt =====
-- coordinator.py: the probes of a wave and how many of them run at a time.
use codewizard_sherpa.Prelude.{ℕ, ◌≤◌, ◌≡◌, refl, List, [], ◌∷◌, ◌++◌, map, arith, sum_by-append}
use codewizard_sherpa.Coordinator.{
  Environment, Probe, RepoSnapshot, RunResult, ProbeExecution, Begun, over, started, broken, begin,
}
use codewizard_sherpa.Coordinator.Interleaving.{
  Slot, waiting, running, done, Wave, wave_of, running_count, is_running, slot_of, begins, ends,
  Reached, called, turned, waiting_for,
}

pub none_running : (probes : List Probe) → running_count (map waiting_for probes) ≡ 0
unfolding running_count
none_running [] = refl
none_running (p ∷ probes) = omega (arith, none_running probes)

is_running-le : (p : Probe) (b : Begun) → is_running (p, slot_of b) ≤ 1
is_running-le p (over e) = omega arith
is_running-le p (started key) = omega arith
is_running-le p (broken i) = omega arith

-- Whatever turns are taken, no more probes run at a time than the semaphore has places.
pub concurrency_bounded :
    {Cache : Type 0} (env : Environment Cache) (s : RepoSnapshot) (outcome : Probe → RunResult × ℕ)
    (bound : ℕ) (probes : List Probe) (c : Cache) (w : Wave Cache)
    → Reached env s outcome bound probes c w
    → running_count w.slots ≤ bound
unfolding running_count
concurrency_bounded env s outcome bound probes c w called = omega (arith, none_running probes)
concurrency_bounded env s outcome bound probes c w (turned reached (begins d pre post p free)) =
    omega (
      arith,
      sum_by-append is_running pre ((p, waiting) ∷ post),
      sum_by-append is_running pre ((p, slot_of (begin env p s d)) ∷ post),
      is_running-le p (begin env p s d),
    )
concurrency_bounded env s outcome bound probes c w
      (turned reached (ends d after pre post p key e h)) =
    omega (
      arith,
      concurrency_bounded env s outcome bound probes c
          (wave_of d (pre ++ ((p, running key) ∷ post))) reached,
      sum_by-append is_running pre ((p, running key) ∷ post),
      sum_by-append is_running pre ((p, done e) ∷ post),
    )

abbrev pub done_slot : Probe × ProbeExecution → Probe × Slot
done_slot r = (r.0, done r.1)

abbrev pub probe_of {ℓ} : {A : Type ℓ} → Probe × A → Probe
probe_of r = r.0

pub map-append :
    (xs ys : List (Probe × Slot)) → map probe_of (xs ++ ys) ≡ map probe_of xs ++ map probe_of ys
map-append [] ys = refl
map-append (x ∷ xs) ys = ground (arith, map-append xs ys)

pub map-waiting : (probes : List Probe) → map probe_of (map waiting_for probes) ≡ probes
map-waiting [] = refl
map-waiting (p ∷ probes) = ground (arith, map-waiting probes)

pub map-done :
    (results : List (Probe × ProbeExecution))
    → map probe_of (map done_slot results) ≡ map probe_of results
map-done [] = refl
map-done (r ∷ results) = ground (arith, map-done results)

pub Reached-probes :
    {Cache : Type 0} (env : Environment Cache) (s : RepoSnapshot) (outcome : Probe → RunResult × ℕ)
    (bound : ℕ) (probes : List Probe) (c : Cache) (w : Wave Cache)
    → Reached env s outcome bound probes c w
    → map probe_of w.slots ≡ probes
Reached-probes env s outcome bound probes c w called = map-waiting probes
Reached-probes env s outcome bound probes c w (turned reached (begins d pre post p free)) =
    let before =
      Reached-probes env s outcome bound probes c (wave_of d (pre ++ ((p, waiting) ∷ post)))
        reached in
    ground (
      arith,
      map-append pre ((p, waiting) ∷ post),
      map-append pre ((p, slot_of (begin env p s d)) ∷ post),
    )
Reached-probes env s outcome bound probes c w (turned reached (ends d after pre post p key e h)) =
    let before =
      Reached-probes env s outcome bound probes c (wave_of d (pre ++ ((p, running key) ∷ post)))
        reached in
    ground (arith, map-append pre ((p, running key) ∷ post), map-append pre ((p, done e) ∷ post))
