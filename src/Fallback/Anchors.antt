-- ===== src/Fallback/Anchors.antt =====
-- src/codegenie/fallback/attempt_anchor.py: the audit record of one attempt and what it validates.
use codewizard_sherpa.Prelude.{ℕ, String, Bool, true, false, Option, none, some, if◌then◌else◌}
use codewizard_sherpa.Prelude.Outcome.{Outcome, ok, err}
use codewizard_sherpa.Fallback.Trust.{TrustOutcome, Confidence, high, degraded}

pub data PlanProposalKind : Type 0 where
  dep_bump override callsite_rewrite refuse : PlanProposalKind

pub data ValidatorOutcome : Type 0 where
  applied_from_recipe applied_from_llm rag_only_applicable refused : ValidatorOutcome

pub data RefusalReason : Type 0 where
  provenance_not_app_layer budget_exceeded leaf_refused leaf_schema_violation : RefusalReason

-- The words of `trust_outcome_confidence`, and the one that a `TrustOutcome` may bring along.
pub data ConfidenceWord : Type 0 where
  low medium high_word degraded_word : ConfidenceWord

-- `trust_outcome_passed` and `trust_outcome_confidence`, which are set together.
pub record AttemptAnchor : Type 0 where
  pub attempt_id : String
  pub workflow_id : String
  pub cve_id : String
  pub timestamp_utc : ℕ
  pub attempt_index : ℕ
  pub plan_proposal_kind : PlanProposalKind
  pub validator_outcome : ValidatorOutcome
  pub refusal_reason : Option RefusalReason
  pub trust_outcome : Option (Bool × ConfidenceWord)

pub data AnchorError : Type 0 where
  already_attached attached_to_refused reason_missing reason_unexpected literal_error : AnchorError

-- The literal type of the confidence.
unfoldable pub in_literal : Option (Bool × ConfidenceWord) → Bool
in_literal none = true
in_literal (some (passed, low)) = true
in_literal (some (passed, medium)) = true
in_literal (some (passed, high_word)) = true
in_literal (some (passed, degraded_word)) = false

-- What construction from fields, or from a line of JSON, validates.
unfoldable pub validate : AttemptAnchor → Outcome AnchorError AttemptAnchor
validate a =
    if in_literal a.trust_outcome
    then elim a.validator_outcome [
      | refused ↦ elim a.refusal_reason [ none ↦ err reason_missing | some r ↦ ok a ]
      | _ ↦ elim a.refusal_reason [ none ↦ ok a | some r ↦ err reason_unexpected ]
    ]
    else err literal_error

unfoldable pub word_of : Confidence → ConfidenceWord
word_of high = high_word
word_of degraded = degraded_word

-- `model_copy(update=...)`, which validates nothing.
abbrev with_trust : Bool × ConfidenceWord → AttemptAnchor → AttemptAnchor
with_trust o a = record {
  attempt_id = a.attempt_id;
  workflow_id = a.workflow_id;
  cve_id = a.cve_id;
  timestamp_utc = a.timestamp_utc;
  attempt_index = a.attempt_index;
  plan_proposal_kind = a.plan_proposal_kind;
  validator_outcome = a.validator_outcome;
  refusal_reason = a.refusal_reason;
  trust_outcome = some o;
}

unfoldable pub attach_trust_outcome :
    TrustOutcome → AttemptAnchor → Outcome AnchorError AttemptAnchor
attach_trust_outcome trust a = elim a.trust_outcome [
  | some o ↦ err already_attached
  | none ↦ elim a.validator_outcome [
    | refused ↦ err attached_to_refused
    | _ ↦ ok (with_trust (trust.passed, word_of trust.confidence) a)
  ]
]
