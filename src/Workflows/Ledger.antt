-- ===== src/Workflows/Ledger.antt =====
-- src/codegenie/workflows/vuln_ledger.py: the states of a run and the legal transitions.
pub mod Paths
use codewizard_sherpa.Prelude.{
  ℕ, String, Bool, true, false, ◌&&◌, ◌||◌, Option, List, [], ◌∷◌, ltb, length, ◌==◌, if◌then◌else◌,
}
use codewizard_sherpa.Prelude.Texts.{Text}
use codewizard_sherpa.Prelude.Outcome.{Outcome, ok, err}

pub data LedgerStateKind : Type 0 where
  needs_plan plan_ready patch_applied gate_failed_retryable : LedgerStateKind
  awaiting_human_review completed failed_unrecoverable : LedgerStateKind

pub data HumanReviewReason : Type 0 where
  no_concrete_match trust_outcome_failed policy_violation_unrecoverable multi_package_cve :
      HumanReviewReason

pub data FailedUnrecoverableReason : Type 0 where
  checkpoint_integrity subgraph_aborted manifest_rejected policy_violation :
      FailedUnrecoverableReason
  internal_invariant_violated : FailedUnrecoverableReason

-- The error payload of `RemediationError`, without its free-form details.
pub record RemediationError : Type 0 where
  pub error_id : String
  pub message : Text

-- The constructor of each variant is named for its `kind`.
pub data VulnLedgerState : Type 0 where
  needs_plan : VulnLedgerState
  plan_ready : (plan_summary : Text) → VulnLedgerState
  patch_applied : (patch_digest : String) → VulnLedgerState
  gate_failed_retryable : (failing_signals : List String) (attempt_number : ℕ) → VulnLedgerState
  awaiting_human_review :
      (review_reason : HumanReviewReason) (handoff_path : Option String) → VulnLedgerState
  completed : (report_path : Option String) → VulnLedgerState
  failed_unrecoverable :
      (reason : FailedUnrecoverableReason) (error : Option RemediationError) → VulnLedgerState

-- The number of a kind, by which kinds are compared.
abbrev pub number : LedgerStateKind → ℕ
number LedgerStateKind.needs_plan = 0
number LedgerStateKind.plan_ready = 1
number LedgerStateKind.patch_applied = 2
number LedgerStateKind.gate_failed_retryable = 3
number LedgerStateKind.awaiting_human_review = 4
number LedgerStateKind.completed = 5
number LedgerStateKind.failed_unrecoverable = 6

abbrev pub kind_eq : LedgerStateKind → LedgerStateKind → Bool
kind_eq a b = number a == number b

-- `kind in kinds`
abbrev pub kind_in : LedgerStateKind → List LedgerStateKind → Bool
kind_in k [] = false
kind_in k (x ∷ xs) = kind_eq k x || kind_in k xs

abbrev pub non_terminal_ledger_kinds : List LedgerStateKind
non_terminal_ledger_kinds =
    LedgerStateKind.needs_plan ∷ LedgerStateKind.plan_ready ∷ LedgerStateKind.patch_applied
    ∷ LedgerStateKind.gate_failed_retryable ∷ []

abbrev pub terminal_ledger_kinds : List LedgerStateKind
terminal_ledger_kinds =
    LedgerStateKind.awaiting_human_review ∷ LedgerStateKind.completed
    ∷ LedgerStateKind.failed_unrecoverable ∷ []

-- The table `_LEGAL_TRANSITIONS`, row by row.
abbrev pub legal_transitions : List (LedgerStateKind × LedgerStateKind)
legal_transitions =
    (LedgerStateKind.needs_plan, LedgerStateKind.plan_ready)
    ∷ (LedgerStateKind.plan_ready, LedgerStateKind.patch_applied)
    ∷ (LedgerStateKind.plan_ready, LedgerStateKind.awaiting_human_review)
    ∷ (LedgerStateKind.plan_ready, LedgerStateKind.failed_unrecoverable)
    ∷ (LedgerStateKind.patch_applied, LedgerStateKind.completed)
    ∷ (LedgerStateKind.patch_applied, LedgerStateKind.gate_failed_retryable)
    ∷ (LedgerStateKind.patch_applied, LedgerStateKind.awaiting_human_review)
    ∷ (LedgerStateKind.patch_applied, LedgerStateKind.failed_unrecoverable)
    ∷ (LedgerStateKind.gate_failed_retryable, LedgerStateKind.needs_plan)
    ∷ (LedgerStateKind.gate_failed_retryable, LedgerStateKind.awaiting_human_review)
    ∷ (LedgerStateKind.gate_failed_retryable, LedgerStateKind.failed_unrecoverable)
    ∷ (LedgerStateKind.awaiting_human_review, LedgerStateKind.plan_ready)
    ∷ (LedgerStateKind.awaiting_human_review, LedgerStateKind.completed)
    ∷ (LedgerStateKind.awaiting_human_review, LedgerStateKind.failed_unrecoverable)
    ∷ []

-- `pair in pairs`
abbrev pair_in : LedgerStateKind → LedgerStateKind → List (LedgerStateKind × LedgerStateKind) → Bool
pair_in a b [] = false
pair_in a b ((x, y) ∷ l) = kind_eq a x && kind_eq b y || pair_in a b l

unfoldable pub legal : LedgerStateKind → LedgerStateKind → Bool
legal prior next = pair_in prior next legal_transitions

-- A JSON value, as the outcome that triggered a transition is kept.
mutual
  pub data Json : Type 0 where
    null : Json
    bool : Bool → Json
    int : ℕ → Json
    negative_int : (absolute : ℕ) → Json
    float : (repr : Text) → Json
    str : Text → Json
    arr : Items → Json
    obj : Fields → Json

  pub data Items : Type 0 where
    nil : Items
    cons : Json → Items → Items

  pub data Fields : Type 0 where
    end : Fields
    field : Text → Json → Fields → Fields

pub record TransitionEvent : Type 0 where
  pub transition_id : String
  pub prior_state_id : LedgerStateKind
  pub next_state_id : LedgerStateKind
  pub triggering_outcome : Json
  pub evidence_digest : String
  pub chain_head : Text
  pub workflow_id : String

-- The two validators of the module that raise `ValueError`.
pub data Invalid : Type 0 where
  illegal_transition : (prior next : LedgerStateKind) → Invalid
  plan_summary_too_long : Invalid

-- `TransitionEvent._enforce_legal_transition`, run on every construction.
unfoldable pub enforce_legal_transition : TransitionEvent → Outcome Invalid TransitionEvent
unfolding legal
enforce_legal_transition e =
    if legal e.prior_state_id e.next_state_id
    then ok e
    else err (illegal_transition e.prior_state_id e.next_state_id)

-- `PlanReady._plan_summary_length`
unfoldable pub make_plan_ready : Text → Outcome Invalid VulnLedgerState
make_plan_ready v =
    if ltb 4096 (length v) then err plan_summary_too_long else ok (VulnLedgerState.plan_ready v)
