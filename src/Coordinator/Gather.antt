-- ===== src/Coordinator/Gather.antt =====
-- src/codegenie/coordinator/coordinator.py: `gather`, with the dispatches of each wave one after the
-- other: the turns that they may take instead are in Interleaving. What each run comes to, with what
-- a timeout elsewhere does to it, is the field of its probe.
pub mod Partition
pub mod Results
pub mod Total
pub mod Complete
pub mod Sequence
pub mod Warm
use codewizard_sherpa.Prelude.{
  String, Bool, true, false, not, ◌&&◌, Option, none, some, List, [], ◌∷◌, str_eq, if◌then◌else◌,
}
use codewizard_sherpa.Prelude.Dict
use codewizard_sherpa.Prelude.Dict.{Dict}
use codewizard_sherpa.Prelude.Int.{ℤ, pos}
use codewizard_sherpa.Prelude.Outcome.{Outcome, ok, err, ◌>>=◌}
use codewizard_sherpa.Coordinator.{
  Json, json_null, json_bool, json_int, json_float, json_string, json_list, json_object, JsonObject,
  no_fields, field, Probe, ProbeOutput, RepoSnapshot, Environment, ProbeExecution, ran, cache_hit,
  skipped, output_of, Interrupt, dispatch_one, has_errors,
}

-- `int` of what is no finite number, or an exception that a dispatch does not isolate.
pub data GatherError : Type 0 where
  not_a_number : GatherError
  interrupt : Interrupt → GatherError

pub record GatherResult : Type 0 where
  pub outputs : Dict ProbeOutput
  pub executions : Dict ProbeExecution

abbrev pub empty_result : GatherResult
empty_result = record { outputs = []; executions = [] }

-- `d.get(k)`
abbrev pub json_get : String → JsonObject → Option Json
json_get k no_fields = none
json_get k (field j v o) = if str_eq j k then some v else json_get k o

-- The three tests of the partition.
abbrev pub in_prelude : List String → Probe → Bool
in_prelude runs_last p = str_eq p.tier "base" && not (Dict.mem p.name runs_last)

abbrev pub in_rest : List String → Probe → Bool
in_rest runs_last p = not (str_eq p.tier "base") && not (Dict.mem p.name runs_last)

abbrev pub in_tail : List String → Probe → Bool
in_tail runs_last p = Dict.mem p.name runs_last

-- `[p for p in probes if test(p)]`
unfoldable pub select : (Probe → Bool) → List Probe → List Probe
select test [] = []
select test (p ∷ probes) = let rest = select test probes in if test p then p ∷ rest else rest

abbrev pub with_languages : Dict ℤ → RepoSnapshot → RepoSnapshot
with_languages counts s = record { root = s.root; detected_languages = counts; config = s.config }

-- The body of the loops over the results: `executions[name] = exe`, and the output if there is one.
unfoldable pub record_result : Probe × ProbeExecution → GatherResult → GatherResult
record_result (p, e) r = record {
  outputs = elim (output_of e) [ some o ↦ Dict.put p.name o r.outputs | none ↦ r.outputs ];
  executions = Dict.put p.name e r.executions;
}

unfoldable pub record_results : List (Probe × ProbeExecution) → GatherResult → GatherResult
record_results [] r = r
record_results (x ∷ results) r = record_results results (record_result x r)

-- `int_of_string` is the language's reading of a text as a number.
module _ (int_of_string : String → Option ℤ) where
  -- `int(v)`
  unfoldable pub int_of : Json → Outcome GatherError ℤ
  int_of (json_bool b) = ok (pos (if b then 1 else 0))
  int_of (json_int n) = ok n
  int_of (json_float truncated) = elim truncated [ some n ↦ ok n | none ↦ err not_a_number ]
  int_of (json_string t) = elim (int_of_string t) [ some n ↦ ok n | none ↦ err not_a_number ]
  int_of _ = err not_a_number

  unfoldable pub int_values : JsonObject → Outcome GatherError (Dict ℤ)
  unfolding int_of
  int_values no_fields = ok []
  int_values (field k v o) = do n ← int_of v; rest ← int_values o; ok ((k, n) ∷ rest)

  -- From `counts` on.
  unfoldable pub number_counts : Option Json → Outcome GatherError (Option (Dict ℤ))
  unfolding int_values
  number_counts (some (json_object (field k v o))) = int_values (field k v o) >>= (λ d. ok (some d))
  number_counts _ = ok none

  -- From `lang_stack` on: what is absent is the empty dict, which has no counts.
  unfoldable pub stack_counts : Option Json → Outcome GatherError (Option (Dict ℤ))
  unfolding number_counts
  stack_counts (some (json_object lang_stack)) = number_counts (json_get "counts" lang_stack)
  stack_counts _ = ok none

  unfoldable pub extract_language_counts : JsonObject → Outcome GatherError (Option (Dict ℤ))
  unfolding stack_counts
  extract_language_counts schema_slice = stack_counts (json_get "language_stack" schema_slice)

  -- What one result of the prelude adds to the counts: only a probe that ran without errors does.
  unfoldable pub merge_counts : ProbeExecution → Dict ℤ → Outcome GatherError (Dict ℤ)
  unfolding extract_language_counts
  merge_counts (ran o key) merged = elim (has_errors o) [
    | true ↦ ok merged
    | false ↦
        extract_language_counts o.schema_slice
        >>= (λ found. elim found [ none ↦ ok merged | some counts ↦ ok (Dict.merge merged counts) ])
  ]
  merge_counts _ merged = ok merged

  unfoldable pub merged_counts :
      List (Probe × ProbeExecution) → Dict ℤ → Outcome GatherError (Dict ℤ)
  unfolding merge_counts
  merged_counts [] merged = ok merged
  merged_counts ((p, e) ∷ results) merged = do
    more ← merge_counts e merged
    merged_counts results more

  module _ {Cache : Type 0} (env : Environment Cache) where
    -- One wave.
    unfoldable pub dispatch_wave :
        List Probe
        → RepoSnapshot
        → Cache
        → Outcome GatherError (List (Probe × ProbeExecution) × Cache)
    dispatch_wave [] s c = ok ([], c)
    dispatch_wave (p ∷ probes) s c = elim (dispatch_one env p s c) [
      | err i ↦ err (interrupt i)
      | ok (e, after) ↦ do rest ← dispatch_wave probes s after; ok ((p, e) ∷ rest.0, rest.1)
    ]

    unfoldable pub gather :
        (probes : List Probe) (runs_last_names : List String)
        → RepoSnapshot
        → Cache
        → Outcome GatherError (GatherResult × Cache)
    unfolding dispatch_wave merged_counts
    gather [] runs_last s c = ok (empty_result, c)
    gather (p ∷ ps) runs_last s c = do
      prelude ← dispatch_wave (select (in_prelude runs_last) (p ∷ ps)) s c
      counts ← merged_counts prelude.0 []
      rest ← dispatch_wave (select (in_rest runs_last) (p ∷ ps)) (with_languages counts s) prelude.1
      last ← dispatch_wave (select (in_tail runs_last) (p ∷ ps)) (with_languages counts s) rest.1
      ok (
        record_results last.0 (record_results rest.0 (record_results prelude.0 empty_result)),
        last.1,
      )
