-- ===== src/Coordinator/Gather/Warm.antt =====
-- coordinator.py: a call of `gather` whose prelude is answered from the cache.
use codewizard_sherpa.Prelude.{
  ◌≡◌, refl, inl, inr, true, Option, some, List, [], ◌∷◌, String, arith, All,
}
use codewizard_sherpa.Prelude.Int.{ℤ}
use codewizard_sherpa.Prelude.Outcome.{ok, Outcome-cases}
use codewizard_sherpa.Coordinator.{
  Probe, ProbeOutput, RepoSnapshot, Environment, ProbeExecution, cache_hit, begin, dispatch_with,
  dispatch_one,
}
use codewizard_sherpa.Coordinator.Gather.{
  GatherResult, empty_result, in_prelude, in_rest, in_tail, select, with_languages, record_results,
  merged_counts, merge_counts, dispatch_wave, gather,
}

module _ (int_of_string : String → Option ℤ) {Cache : Type 0} (env : Environment Cache)
    (s : RepoSnapshot) (c : Cache) where
  -- The probe applies, and the cache has its output.
  abbrev pub IsCached : Probe → Type 0
  IsCached p =
      (p.applies s ≡ true) × ((o : ProbeOutput) × (env.cache_get (env.key_for p s) c ≡ some o))

  hit :
      (p : Probe)
      → IsCached p
      → (e : ProbeExecution) × (dispatch_one env p s c ≡ ok (e, c))
        × (merge_counts int_of_string e [] ≡ ok [])
  unfolding dispatch_one dispatch_with begin merge_counts
  hit p (applies, (o, h)) = (cache_hit o (env.key_for p s), ground arith, refl)

  hits :
      (probes : List Probe)
      → All IsCached probes
      → (xs : List (Probe × ProbeExecution)) × (dispatch_wave int_of_string env probes s c
          ≡ ok (xs, c))
        × (merged_counts int_of_string xs [] ≡ ok [])
  unfolding dispatch_wave merged_counts
  hits [] h = ([], refl, refl)
  hits (p ∷ probes) h =
      let (e, dispatched, counted) = hit p h.0 in
      let (xs, wave, counts) = hits probes h.1 in ((p, e) ∷ xs, ground arith, ground arith)

  -- If every probe of the prelude is answered from the cache, `gather` leaves the cache to the other
  -- waves as it was and dispatches them on the snapshot without any languages, whatever counts of
  -- languages the cached outputs hold.
  pub cached_prelude_forgets :
      (probes : List Probe) (runs_last : List String) (r : GatherResult) (after : Cache)
      → All IsCached (select (in_prelude runs_last) probes)
      → gather int_of_string env probes runs_last s c ≡ ok (r, after)
      → (xs : List (Probe × ProbeExecution)) × (ys : List (Probe × ProbeExecution)) × (zs : List
          (Probe × ProbeExecution))
        × (d : Cache) × (dispatch_wave int_of_string env (select (in_prelude runs_last) probes) s c
            ≡ ok (xs, c))
        × (dispatch_wave int_of_string env
              (select (in_rest runs_last) probes)
              (with_languages [] s)
              c
            ≡ ok (ys, d))
        × (dispatch_wave int_of_string env
              (select (in_tail runs_last) probes)
              (with_languages [] s)
              d
            ≡ ok (zs, after))
        × (r ≡ record_results zs (record_results ys (record_results xs empty_result)))
  unfolding gather select dispatch_wave record_results
  cached_prelude_forgets [] runs_last r after h k =
      ([], [], [], c, refl, refl, ground arith, ground arith)
  cached_prelude_forgets (q ∷ qs) runs_last r after h k =
      let t = with_languages [] s in
      let (xs, wave, counts) = hits (select (in_prelude runs_last) (q ∷ qs)) h in
      elim (Outcome-cases
        (dispatch_wave int_of_string env (select (in_rest runs_last) (q ∷ qs)) t c)) [
          | inl (x, i) ↦ absurd (ground arith)
          | inr ((ys, d), i) ↦
              elim (Outcome-cases
                (dispatch_wave int_of_string env (select (in_tail runs_last) (q ∷ qs)) t d)) [
                  | inl (x, j) ↦ absurd (ground arith)
                  | inr ((zs, e), j) ↦ (xs, ys, zs, d, wave, i, ground arith, ground arith)
                ]
        ]
