-- ===== src/Coordinator/Gather/Complete.antt =====
-- coordinator.py: what a call of `gather` that returns holds, and what its second wave sees.
use codewizard_sherpa.Prelude.{
  ◌≡◌, refl, ◌⊎◌, inl, inr, true, Option, List, [], ◌∷◌, String, map, arith, Bool-cases, str_eq,
}
use mathlib.Core.List.{Memᴰ}
use codewizard_sherpa.Prelude.Dict
use codewizard_sherpa.Prelude.Dict.{Dict}
use codewizard_sherpa.Prelude.Int.{ℤ}
use codewizard_sherpa.Prelude.Outcome.{ok, >>=-eq-ok}
use codewizard_sherpa.Coordinator.{Probe, RepoSnapshot, Environment, ProbeExecution}
use codewizard_sherpa.Coordinator.Waves.{probe_of}
use codewizard_sherpa.Coordinator.Gather.{
  GatherResult, empty_result, in_prelude, in_rest, in_tail, select, with_languages, record_results,
  merged_counts, dispatch_wave, gather,
}
use codewizard_sherpa.Coordinator.Gather.Results.{
  HasExecution, record_results-HasExecution, Mem-HasExecution, dispatch_wave-probes, Mem-select,
}

-- The three tests leave no probe out.
tests-cases :
    (runs_last : List String) (p : Probe)
    → (in_prelude runs_last p ≡ true)
      ⊎ ((in_rest runs_last p ≡ true) ⊎ (in_tail runs_last p ≡ true))
tests-cases runs_last p = elim (Bool-cases (Dict.mem p.name runs_last)) [
  | inl last ↦ inr (inr last)
  | inr early ↦ elim (Bool-cases (str_eq p.tier "base")) [
    | inl base ↦ inl (ground arith)
    | inr other ↦ inr (inl (ground arith))
  ]
]

module _ (int_of_string : String → Option ℤ) {Cache : Type 0} (env : Environment Cache) where
  -- The three waves of a call that returns, and what it records of them.
  record Waves (probes : List Probe) (runs_last : List String) (s : RepoSnapshot) (c : Cache)
      (r : GatherResult) : Type 0 where
    counts : Dict ℤ
    prelude : List (Probe × ProbeExecution)
    rest : List (Probe × ProbeExecution)
    last : List (Probe × ProbeExecution)
    prelude_probes : map probe_of prelude ≡ select (in_prelude runs_last) probes
    rest_probes : map probe_of rest ≡ select (in_rest runs_last) probes
    last_probes : map probe_of last ≡ select (in_tail runs_last) probes
    recorded : r ≡ record_results last (record_results rest (record_results prelude empty_result))

  gather-Waves :
      (q : Probe) (qs : List Probe) (runs_last : List String) (s : RepoSnapshot) (c after : Cache)
      (r : GatherResult)
      → gather int_of_string env (q ∷ qs) runs_last s c ≡ ok (r, after)
      → Waves (q ∷ qs) runs_last s c r
  unfolding gather
  gather-Waves q qs runs_last s c after r h =
      let base = select (in_prelude runs_last) (q ∷ qs) in
      let others = select (in_rest runs_last) (q ∷ qs) in
      let tail_probes = select (in_tail runs_last) (q ∷ qs) in
      let ((xs, d), i, h1) = >>=-eq-ok (dispatch_wave int_of_string env base s c) _ h in
      let (counts, j, h2) = >>=-eq-ok (merged_counts int_of_string xs []) _ h1 in
      let t = with_languages counts s in
      let ((ys, e), k, h3) = >>=-eq-ok (dispatch_wave int_of_string env others t d) _ h2 in
      let ((zs, f), l, h4) = >>=-eq-ok (dispatch_wave int_of_string env tail_probes t e) _ h3 in
      record {
        counts = counts;
        prelude = xs;
        rest = ys;
        last = zs;
        prelude_probes = dispatch_wave-probes int_of_string env base s c xs d i;
        rest_probes = dispatch_wave-probes int_of_string env others t d ys e k;
        last_probes = dispatch_wave-probes int_of_string env tail_probes t e zs f l;
        recorded = ground arith;
      }

  -- A call of `gather` that returns has an execution for each of its probes.
  pub every_probe_executed :
      (probes : List Probe) (runs_last : List String) (s : RepoSnapshot) (c after : Cache)
      (r : GatherResult)
      → gather int_of_string env probes runs_last s c ≡ ok (r, after)
      → (p : Probe) → Memᴰ p probes
      → HasExecution p.name r
  every_probe_executed [] runs_last s c after r h p m = elim m [ ]
  every_probe_executed (q ∷ qs) runs_last s c after r h p m =
      let w = gather-Waves q qs runs_last s c after r h in
      let first = record_results w.prelude empty_result in
      let second = record_results w.rest first in
      rw w.recorded (elim (tests-cases runs_last p) [
        | inl i ↦ record_results-HasExecution p.name w.last second (
            record_results-HasExecution p.name w.rest first (
              Mem-HasExecution p w.prelude empty_result
                (rw w.prelude_probes (Mem-select (in_prelude runs_last) p (q ∷ qs) m i))))
        | inr (inl i) ↦ record_results-HasExecution p.name w.last second (
            Mem-HasExecution p w.rest first
              (rw w.rest_probes (Mem-select (in_rest runs_last) p (q ∷ qs) m i)))
        | inr (inr i) ↦
            Mem-HasExecution p w.last second
              (rw w.last_probes (Mem-select (in_tail runs_last) p (q ∷ qs) m i))
      ])

  -- If no probe of the call is in the prelude, the languages of the snapshot of the call have no
  -- effect on what it returns.
  languages_forgotten :
      (probes : List Probe) (runs_last : List String)
      → select (in_prelude runs_last) probes ≡ []
      → (s : RepoSnapshot) (languages : Dict ℤ) (c : Cache)
      → gather int_of_string env probes runs_last s c
        ≡ gather int_of_string env probes runs_last (with_languages languages s) c
  unfolding gather dispatch_wave merged_counts
  languages_forgotten [] runs_last h s languages c = refl
  languages_forgotten (q ∷ qs) runs_last h s languages c = rw h refl
