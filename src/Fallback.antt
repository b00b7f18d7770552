-- ===== src/Fallback.antt =====
-- src/codegenie/fallback/tier.py and confidence_gate.py: the fallback tier, which refuses today
-- after its audit trail is written, and the harvest of validated plans into the example store.
pub mod Trust
pub mod Anchors
pub mod Harvest
pub mod Attaching
mod Tests
use codewizard_sherpa.Prelude.{
  ℕ, String, Bool, true, false, ◌&&◌, Option, none, some, List, [], ◌∷◌, ◌++◌, length,
  if◌then◌else◌,
}
use codewizard_sherpa.Prelude.Dict
use codewizard_sherpa.Prelude.Dict.{Dict}
use codewizard_sherpa.Prelude.Outcome.{Outcome, ok, err}
use codewizard_sherpa.Fallback.Trust.{SignalKind, TrustOutcome, high, degraded}
use codewizard_sherpa.Fallback.Anchors.{
  AttemptAnchor, AnchorError, RefusalReason, provenance_not_app_layer, refuse, refused,
  attach_trust_outcome,
}

-- `PlanOutcome`
pub data PlanOutcome : Type 0 where
  applied_from_recipe : (recipe_outcome_digest : String) → PlanOutcome
  applied_from_llm :
      (recipe_outcome_digest : String) (few_shot_ref : Option String) (response_id : String)
      → PlanOutcome
  rag_only_applicable : (few_shot_ref : String) → PlanOutcome
  refused_for : (reason : RefusalReason) → PlanOutcome

pub data OutcomeKind : Type 0 where
  recipe llm rag_only refused_kind : OutcomeKind

unfoldable pub kind_of : PlanOutcome → OutcomeKind
kind_of (applied_from_recipe d) = recipe
kind_of (applied_from_llm d f r) = llm
kind_of (rag_only_applicable f) = rag_only
kind_of (refused_for r) = refused_kind

unfoldable pub harvest_eligibility : PlanOutcome → Bool
harvest_eligibility (applied_from_llm d f r) = true
harvest_eligibility outcome = false

-- `ConfidenceGate.passes`
unfoldable pub gate_passes : TrustOutcome → Bool
gate_passes trust = trust.passed && elim trust.confidence [ high ↦ true | degraded ↦ false ]

pub data SkipReason : Type 0 where
  low_confidence trust_failed outcome_not_harvestable already_harvested : SkipReason

unfoldable pub skip_reason_for : TrustOutcome → SkipReason
skip_reason_for trust = if trust.passed then low_confidence else trust_failed

-- `AttemptSummary` by what the tier reads.
pub record AttemptSummary : Type 0 where
  pub attempt : ℕ
  pub failing_signals : List SignalKind

-- `PostValidationContext`
pub record Context : Type 0 where
  pub query_text : String
  pub plan_proposal : String
  pub transform_digest : String
  pub trust_outcome_digest : String
  pub task_class : String
  pub language : String
  pub build_system : String
  pub cve_id : String
  pub advisory_digest : String
  pub chain_head : String
  pub workflow_id : String

pub record ValidatedPlanOutcome : Type 0 where
  pub query_text : String
  pub plan_proposal : String
  pub transform_digest : String
  pub trust_outcome_digest : String
  pub task_class : String
  pub language : String
  pub build_system : String
  pub cve_id : String
  pub advisory_digest : String
  pub response_id : String
  pub chain_head : String

-- `_validated_outcome_from`
unfoldable pub validated_outcome_from : Context → (response_id : String) → ValidatedPlanOutcome
validated_outcome_from context response_id = record {
  query_text = context.query_text;
  plan_proposal = context.plan_proposal;
  transform_digest = context.transform_digest;
  trust_outcome_digest = context.trust_outcome_digest;
  task_class = context.task_class;
  language = context.language;
  build_system = context.build_system;
  cve_id = context.cve_id;
  advisory_digest = context.advisory_digest;
  response_id = response_id;
  chain_head = context.chain_head;
}

-- The events that the tier emits, without their envelope.
pub data TierEvent : Type 0 where
  rag_skipped_on_retry :
      (attempt_count last_attempt_number : ℕ) (last_failing_signals : List SignalKind) → TierEvent
  plan_outcome_emitted : PlanOutcome → TierEvent
  attempt_anchor_recorded : AttemptAnchor → TierEvent
  harvest_skipped : SkipReason → OutcomeKind → TierEvent
  solved_example_harvested : (solved_example_id chain_head : String) → TierEvent

-- What ingestion raises.
pub data IngestError : Type 0 where
  ingest_error : String → IngestError

-- The example store, and the writer of rag/ingest.py with its deterministic id. A write that raises
-- may have changed the store: the example is on disk, and its id in memory, before the manifest is.
pub record Library (Store : Type 0) : Type 0 where
  pub solved_example_id_for : ValidatedPlanOutcome → String
  pub contains : String → Store → Bool
  pub ingest_solved_example : ValidatedPlanOutcome → Store → Outcome IngestError String × Store

-- The state that the tier changes: the event log, the parked anchors, the lines of the anchor
-- files, and the store.
pub record Tier (Store : Type 0) : Type 0 where
  pub events : List TierEvent
  pub pending_anchors : Dict AttemptAnchor
  pub written : List AttemptAnchor
  pub store : Store

-- `select_retry_summary`, `none` for an empty list, at which its assertion fails.
unfoldable pub select_retry_summary : List AttemptSummary → Option AttemptSummary
select_retry_summary [] = none
select_retry_summary (a ∷ []) = some a
select_retry_summary (a ∷ b ∷ attempts) = select_retry_summary (b ∷ attempts)

unfoldable pub build_refusal_anchor :
    (attempt_id workflow_id cve_id : String) (now : ℕ) → RefusalReason → ℕ → AttemptAnchor
build_refusal_anchor attempt_id workflow_id cve_id now reason attempt_index = record {
  attempt_id = attempt_id;
  workflow_id = workflow_id;
  cve_id = cve_id;
  timestamp_utc = now;
  attempt_index = attempt_index;
  plan_proposal_kind = refuse;
  validator_outcome = refused;
  refusal_reason = some reason;
  trust_outcome = none;
}

module _ {Store : Type 0} where
  abbrev pub emit : TierEvent → Tier Store → Tier Store
  emit e t = record {
    events = t.events ++ e ∷ [];
    pending_anchors = t.pending_anchors;
    written = t.written;
    store = t.store;
  }

  -- `anchor_writer.write`
  abbrev pub write : AttemptAnchor → Tier Store → Tier Store
  write a t = record {
    events = t.events;
    pending_anchors = t.pending_anchors;
    written = t.written ++ a ∷ [];
    store = t.store;
  }

  unfoldable pub emit_rag_skipped_on_retry : List AttemptSummary → Tier Store → Tier Store
  emit_rag_skipped_on_retry prior_attempts t = elim (select_retry_summary prior_attempts) [
    | none ↦ t
    | some latest ↦
        emit (rag_skipped_on_retry (length prior_attempts) latest.attempt latest.failing_signals) t
  ]

  -- `run` with the fresh id of the attempt and the time of the clock.
  unfoldable pub run :
      (attempt_id workflow_id cve_id : String) (now : ℕ) (prior_attempts : List AttemptSummary)
      → Tier Store
      → PlanOutcome × Tier Store
  run attempt_id workflow_id cve_id now prior_attempts t =
      let told : Tier Store = elim prior_attempts [
        | [] ↦ t
        | a ∷ more ↦ emit_rag_skipped_on_retry (a ∷ more) t
      ] in
      let outcome = refused_for provenance_not_app_layer in
      let anchor =
        build_refusal_anchor attempt_id workflow_id cve_id now provenance_not_app_layer
          (length prior_attempts) in
      (
        outcome,
        write anchor
            (emit (attempt_anchor_recorded anchor) (emit (plan_outcome_emitted outcome) told)),
      )

  -- `finalize_success_anchor`, with what it raises; the entry is popped also where attaching raises.
  unfoldable pub finalize_success_anchor :
      (attempt_id : String) → TrustOutcome → Tier Store → Option AnchorError × Tier Store
  finalize_success_anchor attempt_id trust t = elim (Dict.get attempt_id t.pending_anchors) [
    | none ↦ (none, t)
    | some anchor ↦
        let popped : Tier Store = record {
          events = t.events;
          pending_anchors = Dict.remove attempt_id t.pending_anchors;
          written = t.written;
          store = t.store;
        } in
        elim (attach_trust_outcome trust anchor) [
          | err e ↦ (some e, popped)
          | ok attached ↦ (none, write attached popped)
        ]
  ]

  module _ (library : Library Store) where
    open library use {solved_example_id_for, contains, ingest_solved_example}

    -- The steps of `on_validated`, which raises nothing of its own, behind the two gates.
    unfoldable pub harvest :
        ValidatedPlanOutcome → OutcomeKind → Tier Store → Option IngestError × Tier Store
    harvest validated kind t =
        if contains (solved_example_id_for validated) t.store
        then (none, emit (harvest_skipped already_harvested kind) t)
        else let (ingested, store) = ingest_solved_example validated t.store in
          let with_store : Tier Store = record {
            events = t.events;
            pending_anchors = t.pending_anchors;
            written = t.written;
            store = store;
          } in
          elim ingested [
            | err e ↦ (some e, with_store)
            | ok actual_sid ↦
                (none, emit (solved_example_harvested actual_sid validated.chain_head) with_store)
          ]

    unfoldable pub on_validated :
        PlanOutcome → TrustOutcome → Context → Tier Store → Option IngestError × Tier Store
    on_validated (applied_from_llm d f response_id) trust context t =
        if gate_passes trust
        then harvest (validated_outcome_from context response_id) llm t
        else (none, emit (harvest_skipped (skip_reason_for trust) llm) t)
    on_validated outcome trust context t =
        (none, emit (harvest_skipped outcome_not_harvestable (kind_of outcome)) t)
