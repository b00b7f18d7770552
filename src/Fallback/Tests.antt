-- ===== src/Fallback/Tests.antt =====
-- A store of ids, outcomes with and without trust, and the theorems of the modules beside this one
-- at inputs that meet their hypotheses.
use codewizard_sherpa.Prelude.{
  String, ◌≡◌, ◌↔◌, refl, true, false, none, some, List, [], ◌∷◌, arith,
}
use codewizard_sherpa.Prelude.Dict.{mem, add, mem-add_self}
use codewizard_sherpa.Prelude.Outcome.{ok}
use codewizard_sherpa.Fallback.Trust.{
  TrustSignal, TrustOutcome, high, degraded, score, unregistered, compute_strict_and, failing_of,
  is_empty, validated, has_adapter_degraded, AllPassed,
}
use codewizard_sherpa.Fallback.Anchors.{
  AttemptAnchor, dep_bump, applied_from_llm, validate, in_literal, word_of, attach_trust_outcome,
  degraded_word,
}
use codewizard_sherpa.Fallback.{
  PlanOutcome, llm, gate_passes, Context, Library, validated_outcome_from, Tier, emit,
  harvest_skipped, already_harvested, solved_example_harvested, harvest, on_validated,
}
use codewizard_sherpa.Fallback.Harvest.{
  Dispatches, on_validated-Dispatches, Keeps, on_validated_twice, harvested_after_score,
}
use codewizard_sherpa.Fallback.Attaching.{attached-valid_iff}

abbrev signals : List TrustSignal
signals = record { kind = "build"; passed = true } ∷ []

abbrev trusted : TrustOutcome
trusted = record { passed = true; failing = []; signals = signals; confidence = high }

abbrev doubted : TrustOutcome
doubted = record { passed = true; failing = []; signals = signals; confidence = degraded }

abbrev context : Context
context = record {
  query_text = "q";
  plan_proposal = "p";
  transform_digest = "t";
  trust_outcome_digest = "o";
  task_class = "vuln";
  language = "js";
  build_system = "npm";
  cve_id = "c";
  advisory_digest = "a";
  chain_head = "h";
  workflow_id = "w";
}

-- A store of ids, under which an example is kept by its query.
abbrev ids : Library (List String)
ids = record {
  solved_example_id_for = λ v. v.query_text;
  contains = mem;
  ingest_solved_example = λ v s. (ok v.query_text, add v.query_text s);
}

abbrev plan : PlanOutcome
plan = PlanOutcome.applied_from_llm "d" none "r"

abbrev fresh : Tier (List String)
fresh = record { events = []; pending_anchors = []; written = []; store = [] }

abbrev harvested : Tier (List String)
harvested = record {
  events = solved_example_harvested "q" "h" ∷ [];
  pending_anchors = [];
  written = [];
  store = "q" ∷ [];
}

plan_run : on_validated ids plan trusted context fresh ≡ (none, harvested)
unfolding on_validated gate_passes harvest validated_outcome_from mem add
plan_run = refl

on_validated-Dispatches_example :
    Dispatches ids plan trusted context fresh (on_validated ids plan trusted context fresh)
on_validated-Dispatches_example = on_validated-Dispatches ids plan trusted context fresh

ids-Keeps : Keeps ids
ids-Keeps v before after sid h =
    let same : add v.query_text before ≡ after = ground (arith, h) in
    rw⁻¹ same (mem-add_self v.query_text before)

trusted_passes : gate_passes trusted ≡ true
unfolding gate_passes
trusted_passes = refl

nothing_there : mem "q" [] ≡ false
unfolding mem
nothing_there = refl

on_validated_twice_example :
    on_validated ids plan trusted context harvested
    ≡ (none, emit (harvest_skipped already_harvested llm) harvested)
unfolding validated_outcome_from
on_validated_twice_example =
    on_validated_twice ids ids-Keeps "d" none "r" trusted context fresh harvested trusted_passes
      nothing_there plan_run

scored_run : score ("build" ∷ []) "w" [] signals ≡ ok trusted
unfolding score unregistered compute_strict_and failing_of is_empty validated has_adapter_degraded
    mem
scored_run = refl

harvested_after_score_example : AllPassed signals × (has_adapter_degraded "w" [] ≡ false)
harvested_after_score_example =
    harvested_after_score ids ("build" ∷ []) "w" [] signals trusted plan context fresh harvested
      scored_run plan_run (λ e. ground (arith, e))

abbrev anchor : AttemptAnchor
anchor = record {
  attempt_id = "i";
  workflow_id = "w";
  cve_id = "c";
  timestamp_utc = 5;
  attempt_index = 0;
  plan_proposal_kind = dep_bump;
  validator_outcome = applied_from_llm;
  refusal_reason = none;
  trust_outcome = none;
}

abbrev doubted_anchor : AttemptAnchor
doubted_anchor = record {
  attempt_id = "i";
  workflow_id = "w";
  cve_id = "c";
  timestamp_utc = 5;
  attempt_index = 0;
  plan_proposal_kind = dep_bump;
  validator_outcome = applied_from_llm;
  refusal_reason = none;
  trust_outcome = some (true, degraded_word);
}

anchor_valid : validate anchor ≡ ok anchor
unfolding validate in_literal
anchor_valid = refl

doubted_run : attach_trust_outcome doubted anchor ≡ ok doubted_anchor
unfolding attach_trust_outcome word_of
doubted_run = refl

attached-valid_iff_example :
    (validate doubted_anchor ≡ ok doubted_anchor) ↔ (doubted.confidence ≡ high)
attached-valid_iff_example =
    attached-valid_iff doubted anchor doubted_anchor anchor_valid doubted_run
