-- ===== src/Coordinator/Tests.antt =====
-- Runs of single dispatches, of one wave and of the byte count on concrete probes.
use codewizard_sherpa.Prelude.{
  ℕ, ◌≡◌, ◌≢◌, ◌↔◌, refl, ◌⊎◌, [], ◌∷◌, String, map, arith, All, eq_iff,
}
use codewizard_sherpa.Prelude.Dict
use codewizard_sherpa.Prelude.Dict.{Dict}
use codewizard_sherpa.Prelude.Outcome.{ok, err}
use codewizard_sherpa.Coordinator.{
  ProbeOutput, Probe, RunResult, begin, finish, dispatch_with, dispatch_one, ran, timed,
  run_probe_with_isolation, timeout_of, checked_output, build_failure_output, store_clean,
}
use codewizard_sherpa.Coordinator.Limits.{BudgetingContext}
use codewizard_sherpa.Coordinator.Isolation.{
  IsRun, Raises, IsClean, dispatch_one-err_iff, dispatch_one-IsClean,
}
use codewizard_sherpa.Coordinator.Interleaving.{
  Wave, wave_of, begins, ends, Reached, called, turned, running_count, done, waiting, running,
}
use codewizard_sherpa.Coordinator.Waves.{probe_of}
use codewizard_sherpa.Coordinator.Agreement.{Executes, turns_agree}
use codewizard_sherpa.Coordinator.Gather.{dispatch_wave}
use codewizard_sherpa.Coordinator.Samples.{
  both, both_results, cached, env, facts, languages_probe, no_number, slow_probe, snapshot,
  stopped_probe, timeout_output,
}

dispatch_one-err_iff_example :
    (dispatch_one env stopped_probe snapshot [] ≡ err (record { type_name = "KeyboardInterrupt" }))
    ↔ (IsRun env stopped_probe snapshot []
        × Raises env stopped_probe snapshot (record { type_name = "KeyboardInterrupt" }))
dispatch_one-err_iff_example =
    dispatch_one-err_iff env stopped_probe snapshot [] (record { type_name = "KeyboardInterrupt" })

languages-dispatched :
    dispatch_one env languages_probe snapshot [] ≡ ok (ran (timed 7 facts) "languages", cached)
unfolding dispatch_one dispatch_with begin finish run_probe_with_isolation checked_output
    store_clean Dict.get Dict.put
languages-dispatched = refl

dispatch_one-IsClean_example :
    (cached ≡ [])
    ⊎ ((o : ProbeOutput) × IsRun env languages_probe snapshot []
        × (ran (timed 7 facts) "languages" ≡ ran o "languages")
        × IsClean env languages_probe snapshot o
        × (cached ≡ env.cache_put "languages" o []))
dispatch_one-IsClean_example =
    dispatch_one-IsClean env (λ po o h. ground (arith, h)) languages_probe snapshot [] cached
      (ran (timed 7 facts) "languages") languages-dispatched

both-dispatched : dispatch_wave no_number env both snapshot [] ≡ ok (both_results, cached)
unfolding dispatch_wave dispatch_one dispatch_with begin finish run_probe_with_isolation
    checked_output store_clean build_failure_output timeout_of Dict.get Dict.put
both-dispatched = refl

-- The second probe is begun, and ends, before the first one ends.
abbrev mixed : Wave (Dict ProbeOutput)
mixed = wave_of cached (
    (languages_probe, done (ran (timed 7 facts) "languages"))
    ∷ (slow_probe, done (ran timeout_output "slow"))
    ∷ [])

abbrev outcome : Probe → RunResult × ℕ
outcome p = (p.run snapshot, p.elapsed_ms snapshot)

mixed-Reached : Reached env snapshot outcome 2 both [] mixed
unfolding running_count begin finish run_probe_with_isolation checked_output store_clean
    build_failure_output timeout_of Dict.get Dict.put
mixed-Reached =
    let first =
      turned called (begins [] [] ((slow_probe, waiting) ∷ []) languages_probe (omega arith)) in
    let second =
      turned first
        (begins [] ((languages_probe, running "languages") ∷ []) [] slow_probe (omega arith)) in
    let third = turned second (
      ends [] [] ((languages_probe, running "languages") ∷ []) [] slow_probe "slow"
        (ran timeout_output "slow") refl) in
    turned third (
      ends [] cached [] ((slow_probe, done (ran timeout_output "slow")) ∷ []) languages_probe
        "languages" (ran (timed 7 facts) "languages") refl)

get-put_other :
    (j k : String) (o : ProbeOutput) (c : Dict ProbeOutput)
    → k ≢ j
    → Dict.get k (Dict.put j o c) ≡ Dict.get k c
get-put_other j k o c h = ground (arith, Dict.get-put j k o c, eq_iff j k, h)

turns_agree_example :
    (map probe_of both_results ≡ both)
    × All (λ r. Executes env snapshot outcome [] r.0 r.1) both_results
turns_agree_example =
    turns_agree env snapshot outcome get-put_other 2 both [] mixed
      ((λ e. absurd (ground (arith, (eq_iff "slow" "languages").1 e)), tt), (tt, tt)) mixed-Reached
      both_results refl

abbrev fresh_context : BudgetingContext
fresh_context = record { raw_artifact_mb = 1; bytes_written = 0 }
