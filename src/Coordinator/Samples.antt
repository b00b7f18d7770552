-- ===== src/Coordinator/Samples.antt =====
-- Probes, an environment with an association list as the cache, and outputs for the tests.
use codewizard_sherpa.Prelude.{true, Option, none, List, [], ◌∷◌, String}
use codewizard_sherpa.Prelude.Dict
use codewizard_sherpa.Prelude.Dict.{Dict}
use codewizard_sherpa.Prelude.Int.{ℤ}
use codewizard_sherpa.Prelude.Outcome.{ok}
use codewizard_sherpa.Coordinator.{
  no_fields, Probe, ProbeOutput, RepoSnapshot, RunResult, returned, timed_out, interrupted,
  Environment, ProbeExecution, ran, timed, timeout,
}

abbrev pub snapshot : RepoSnapshot
snapshot = record { root = "/repo"; detected_languages = []; config = [] }

abbrev pub facts : ProbeOutput
facts = record {
  schema_slice = no_fields;
  raw_artifacts = [];
  confidence = "high";
  duration_ms = 0;
  warnings = [];
  errors = [];
}

abbrev pub probe_of_run : String → String → RunResult → Probe
probe_of_run name tier result = record {
  name = name;
  version = "1";
  tier = tier;
  timeout_seconds = 60;
  wall_clock_s = 30;
  applies = λ s. true;
  run = λ s. result;
  elapsed_ms = λ s. 7;
}

abbrev pub languages_probe : Probe
languages_probe = probe_of_run "languages" "base" (returned facts)

abbrev pub slow_probe : Probe
slow_probe = probe_of_run "slow" "task_specific" timed_out

abbrev pub stopped_probe : Probe
stopped_probe = probe_of_run "stopped" "task_specific" (interrupted "KeyboardInterrupt")

abbrev pub env : Environment (Dict ProbeOutput)
env = record {
  key_for = λ p s. p.name;
  cache_get = λ k c. Dict.get k c;
  cache_put = λ k o c. Dict.put k o c;
  input_snapshot = λ p root. none;
  validate = λ o confidence. ok none;
  scrub = λ o. ok o;
}

abbrev pub cached : Dict ProbeOutput
cached = ("languages", timed 7 facts) ∷ []

abbrev pub no_number : String → Option ℤ
no_number t = none

abbrev pub both : List Probe
both = languages_probe ∷ slow_probe ∷ []

abbrev pub timeout_output : ProbeOutput
timeout_output = record {
  schema_slice = no_fields;
  raw_artifacts = [];
  confidence = "low";
  duration_ms = 7;
  warnings = [];
  errors = timeout 30 ∷ [];
}

abbrev pub both_results : List (Probe × ProbeExecution)
both_results =
    (languages_probe, ran (timed 7 facts) "languages")
    ∷ (slow_probe, ran timeout_output "slow")
    ∷ []
