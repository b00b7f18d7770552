-- ===== src/Coordinator/GatherTests.antt =====
-- Runs of `gather` on concrete probes.
use codewizard_sherpa.Prelude.{◌≡◌, refl, List, [], ◌∷◌}
use mathlib.Core.List.{Memᴰ}
use mathlib.Core.List.Memᴰ.{head, tail}
use codewizard_sherpa.Prelude.Dict
use codewizard_sherpa.Prelude.Dict.{Dict}
use codewizard_sherpa.Prelude.Outcome.{ok}
use codewizard_sherpa.Coordinator.{
  Probe, ProbeOutput, ProbeExecution, begin, finish, dispatch_with, dispatch_one, ran, cache_hit,
  timed, run_probe_with_isolation, timeout_of, checked_output, build_failure_output, store_clean,
}
use codewizard_sherpa.Coordinator.Gather.{
  in_rest, in_tail, empty_result, gather, GatherResult, dispatch_wave, select, in_prelude, in_rest,
  in_tail, with_languages, merged_counts, merge_counts, record_results, record_result,
  extract_language_counts, stack_counts,
}
use codewizard_sherpa.Coordinator.Gather.Results.{HasExecution}
use codewizard_sherpa.Coordinator.Gather.Complete.{every_probe_executed}
use codewizard_sherpa.Coordinator.Gather.Warm.{cached_prelude_forgets}
use codewizard_sherpa.Coordinator.Samples.{
  both, cached, env, facts, no_number, slow_probe, snapshot, timeout_output,
}

abbrev both_gathered : GatherResult
both_gathered = record {
  outputs = ("languages", timed 7 facts) ∷ ("slow", timeout_output) ∷ [];
  executions =
      ("languages", ran (timed 7 facts) "languages") ∷ ("slow", ran timeout_output "slow") ∷ [];
}

both-gathered : gather no_number env both [] snapshot [] ≡ ok (both_gathered, cached)
unfolding gather select dispatch_wave dispatch_one dispatch_with begin finish
    run_probe_with_isolation checked_output store_clean build_failure_output timeout_of
    merged_counts merge_counts extract_language_counts stack_counts record_results record_result
    Dict.get Dict.put Dict.mem
both-gathered = refl

every_probe_executed_example : HasExecution "slow" both_gathered
every_probe_executed_example =
    every_probe_executed no_number env both [] snapshot [] cached both_gathered both-gathered
      slow_probe (tail (head refl))

abbrev warm_gathered : GatherResult
warm_gathered = record {
  outputs = ("languages", timed 7 facts) ∷ ("slow", timeout_output) ∷ [];
  executions =
      ("languages", cache_hit (timed 7 facts) "languages")
      ∷ ("slow", ran timeout_output "slow")
      ∷ [];
}

warm-gathered : gather no_number env both [] snapshot cached ≡ ok (warm_gathered, cached)
unfolding gather select dispatch_wave dispatch_one dispatch_with begin finish
    run_probe_with_isolation checked_output store_clean build_failure_output timeout_of
    merged_counts merge_counts extract_language_counts stack_counts record_results record_result
    Dict.get Dict.put Dict.mem
warm-gathered = refl

cached_prelude_forgets_example :
    (xs : List (Probe × ProbeExecution)) × (ys : List (Probe × ProbeExecution)) × (zs : List
      (Probe × ProbeExecution))
    × (d : Dict ProbeOutput) × (dispatch_wave no_number env
          (select (in_prelude []) both)
          snapshot
          cached
        ≡ ok (xs, cached))
    × (dispatch_wave no_number env (select (in_rest []) both) (with_languages [] snapshot) cached
        ≡ ok (ys, d))
    × (dispatch_wave no_number env (select (in_tail []) both) (with_languages [] snapshot) d
        ≡ ok (zs, cached))
    × (warm_gathered ≡ record_results zs (record_results ys (record_results xs empty_result)))
unfolding select Dict.get Dict.mem
cached_prelude_forgets_example =
    cached_prelude_forgets no_number env snapshot cached both [] warm_gathered cached
      ((refl, (timed 7 facts, refl)), tt) warm-gathered
