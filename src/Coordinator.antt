-- ===== src/Coordinator.antt =====
-- src/codegenie/coordinator/coordinator.py: the dispatch of one probe. What a probe does, the cache
-- store, the validator and the sanitizer are fields of the environment that it runs in. A text that
-- the code formats is a constructor with what the text shows. Log lines and the sampled memory use,
-- which only a log line reads, are left out, and so are exceptions out of `applies` and the cache. On
-- a timeout the code kills the subprocesses of all dispatches, so what a run comes to and how long
-- it takes are arguments of `finish`: Interleaving takes any, `dispatch_one` those of the probe.
pub mod Limits
pub mod Gather
pub mod Isolation
pub mod Interleaving
pub mod Waves
pub mod Agreement
mod Samples
mod Tests
mod GatherTests
use codewizard_sherpa.Prelude.{
  ℕ, String, Bool, true, false, Option, none, some, List, [], ◌∷◌, ltb, if◌then◌else◌,
}
use codewizard_sherpa.Prelude.Dict.{Dict}
use codewizard_sherpa.Prelude.Int.{ℤ}
use codewizard_sherpa.Prelude.Outcome.{Outcome, ok, err, ◌>>=◌}

-- `JSONValue`; a float is held by what `int` makes of it, if it is finite.
mutual
  pub data Json : Type 0 where
    json_null : Json
    json_bool : Bool → Json
    json_int : ℤ → Json
    json_float : (truncated : Option ℤ) → Json
    json_string : String → Json
    json_list : JsonList → Json
    json_object : JsonObject → Json

  pub data JsonList : Type 0 where
    no_items : JsonList
    item : Json → JsonList → JsonList

  pub data JsonObject : Type 0 where
    no_fields : JsonObject
    field : String → Json → JsonObject → JsonObject

-- An entry of `errors`: the probe's own, or one that the coordinator formats.
pub data ErrorText : Type 0 where
  reported : String → ErrorText
  timeout : (seconds : ℕ) → ErrorText
  raw_artifact_mb_exceeded : (message : String) → ErrorText
  raised_error : (type_name message : String) → ErrorText
  secret_likely_field_name : (key path : String) → ErrorText

pub record ProbeOutput : Type 0 where
  pub schema_slice : JsonObject
  pub raw_artifacts : List String
  pub confidence : String
  pub duration_ms : ℕ
  pub warnings : List String
  pub errors : List ErrorText

pub record RepoSnapshot : Type 0 where
  pub root : String
  pub detected_languages : Dict ℤ
  pub config : Dict String

-- How `await asyncio.wait_for(probe.run(...))` ends: `TimeoutError`, `ProbeBudgetExceeded`, one of
-- `CancelledError`, `KeyboardInterrupt` and `SystemExit`, or another exception.
pub data RunResult : Type 0 where
  returned : ProbeOutput → RunResult
  timed_out : RunResult
  budget_exceeded : (message : String) → RunResult
  interrupted : (type_name : String) → RunResult
  raised : (type_name message : String) → RunResult

-- An exception that leaves a dispatch.
pub record Interrupt : Type 0 where
  pub type_name : String

-- The defaults of `tier` and of the budget are those of the two calls of `getattr`.
pub record Probe : Type 0 where
  pub name : String
  pub version : String
  pub tier : String
  pub timeout_seconds : ℕ
  pub wall_clock_s : ℕ
  pub applies : RepoSnapshot → Bool
  pub run : RepoSnapshot → RunResult
  pub elapsed_ms : RepoSnapshot → ℕ

-- `input_snapshot` is the exception that `compute_input_snapshot` lets out, if any. The validator
-- accepts, gives the error of a `ValidationError`, or raises another exception.
pub record Environment (Cache : Type 0) : Type 0 where
  pub key_for : Probe → RepoSnapshot → String
  pub cache_get : String → Cache → Option ProbeOutput
  pub cache_put : String → ProbeOutput → Cache → Cache
  pub input_snapshot : Probe → (root : String) → Option Interrupt
  pub validate : JsonObject → (confidence : String) → Outcome Interrupt (Option ErrorText)
  pub scrub : ProbeOutput → Outcome Interrupt ProbeOutput

pub data ProbeExecution : Type 0 where
  ran : (output : ProbeOutput) (key : String) → ProbeExecution
  cache_hit : (output : ProbeOutput) (key : String) → ProbeExecution
  skipped : ProbeExecution

unfoldable pub build_failure_output : ErrorText → (duration_ms : ℕ) → ProbeOutput
build_failure_output error duration_ms = record {
  schema_slice = no_fields;
  raw_artifacts = [];
  confidence = "low";
  duration_ms = duration_ms;
  warnings = [];
  errors = error ∷ [];
}

-- `min(probe.timeout_seconds, budget.wall_clock_s)`
unfoldable pub timeout_of : Probe → ℕ
timeout_of probe =
    if ltb probe.wall_clock_s probe.timeout_seconds
    then probe.wall_clock_s
    else probe.timeout_seconds

-- `_run_probe_with_isolation`: an output, or the error of a failure that is handled.
pub data Isolated : Type 0 where
  output : ProbeOutput → Isolated
  failure : ErrorText → Isolated

unfoldable pub run_probe_with_isolation : (seconds : ℕ) → RunResult → Outcome Interrupt Isolated
run_probe_with_isolation seconds (returned po) = ok (output po)
run_probe_with_isolation seconds timed_out = ok (failure (timeout seconds))
run_probe_with_isolation seconds (budget_exceeded message) =
    ok (failure (raw_artifact_mb_exceeded message))
run_probe_with_isolation seconds (interrupted type_name) = err (record { type_name = type_name })
run_probe_with_isolation seconds (raised type_name message) =
    ok (failure (raised_error type_name message))

abbrev pub timed : ℕ → ProbeOutput → ProbeOutput
timed duration_ms po = record {
  schema_slice = po.schema_slice;
  raw_artifacts = po.raw_artifacts;
  confidence = po.confidence;
  duration_ms = duration_ms;
  warnings = po.warnings;
  errors = po.errors;
}

abbrev pub has_errors : ProbeOutput → Bool
has_errors po = elim po.errors [ [] ↦ false | _ ∷ _ ↦ true ]

-- A call of `_dispatch_one` up to its first `await`: it is over, the probe is started with the key of
-- this dispatch, or the snapshot of its inputs raised.
pub data Begun : Type 0 where
  over : ProbeExecution → Begun
  started : (key : String) → Begun
  broken : Interrupt → Begun

module _ {Cache : Type 0} (env : Environment Cache) where
  -- The output that goes to the sanitizer.
  unfoldable pub checked_output : (duration_ms : ℕ) → Isolated → Outcome Interrupt ProbeOutput
  unfolding build_failure_output
  checked_output duration_ms (failure error) = ok (build_failure_output error duration_ms)
  checked_output duration_ms (output po) = elim (env.validate po.schema_slice po.confidence) [
    | err i ↦ err i
    | ok found ↦ elim found [
      | none ↦ ok (timed duration_ms po)
      | some error ↦ ok (build_failure_output error duration_ms)
    ]
  ]

  unfoldable pub store_clean : String → ProbeOutput → Cache → Cache
  store_clean key sanitized cache =
      if has_errors sanitized then cache else env.cache_put key sanitized cache

  unfoldable pub begin : Probe → RepoSnapshot → Cache → Begun
  begin probe snapshot cache =
      let key = env.key_for probe snapshot in
      elim (probe.applies snapshot) [
        | false ↦ over skipped
        | true ↦ elim (env.cache_get key cache) [
          | some cached ↦ over (cache_hit cached key)
          | none ↦ elim (env.input_snapshot probe snapshot.root) [
            | some i ↦ broken i
            | none ↦ started key
          ]
        ]
      ]

  -- The call from the end of the probe's run on, with what the run came to and how long it took.
  unfoldable pub finish :
      Probe
      → RunResult
      → (duration_ms : ℕ) → (key : String) → Cache
      → Outcome Interrupt (ProbeExecution × Cache)
  unfolding checked_output store_clean run_probe_with_isolation timeout_of
  finish probe result duration_ms key cache = do
    isolated ← run_probe_with_isolation (timeout_of probe) result
    checked ← checked_output duration_ms isolated
    sanitized ← env.scrub checked
    ok (ran sanitized key, store_clean key sanitized cache)

  -- `_dispatch_one` without another dispatch in between, if its run is started and comes to `result`.
  unfoldable pub dispatch_with :
      Probe
      → RepoSnapshot
      → RunResult
      → (duration_ms : ℕ) → Cache
      → Outcome Interrupt (ProbeExecution × Cache)
  unfolding begin finish
  dispatch_with probe snapshot result duration_ms cache = elim (begin probe snapshot cache) [
    | over execution ↦ ok (execution, cache)
    | started key ↦ finish probe result duration_ms key cache
    | broken i ↦ err i
  ]

  -- The same, where the run comes to what the probe's field says.
  unfoldable pub dispatch_one :
      Probe → RepoSnapshot → Cache → Outcome Interrupt (ProbeExecution × Cache)
  unfolding dispatch_with
  dispatch_one probe snapshot cache =
      dispatch_with probe snapshot (probe.run snapshot) (probe.elapsed_ms snapshot) cache

-- The second component of what `_dispatch_one` returns.
abbrev pub output_of : ProbeExecution → Option ProbeOutput
output_of (ran po key) = some po
output_of (cache_hit po key) = some po
output_of skipped = none
