-- ===== src/Workflows/Replay.antt =====
-- src/codegenie/workflows/replay.py: the verifier that walks a persisted chain from its seed, and
-- the gate that hands out its events only if every head is the recomputed one.
pub mod Chained
mod Verdicts
pub mod Hydration
pub mod Tampering
use codewizard_sherpa.Prelude.{
  ℕ, ◌+◌, String, Option, none, some, List, [], ◌∷◌, ◌++◌, if◌then◌else◌, ltb, length,
}
use codewizard_sherpa.Prelude.Texts.{Text, codes, text_eq}
use codewizard_sherpa.Workflows.Ledger.{
  LedgerStateKind, TransitionEvent, FailedUnrecoverableReason, checkpoint_integrity,
  VulnLedgerState, RemediationError,
}
use codewizard_sherpa.Workflows.Checkpoints.{
  Substrate, Row, Store, genesis_chain_head, rows_of, tail_chain_head, replay_fold,
}

pub data TornReason : Type 0 where
  unparseable_event null_event_bytes duplicate_chain_link : TornReason

pub data ReplayVerdict : Type 0 where
  verified : (tail_chain_head : Text) (events : List TransitionEvent) → ReplayVerdict
  chain_mismatch :
      (persisted_tail recomputed_tail : Text) (divergence_index : ℕ)
      (offending_transition_id : String)
      → ReplayVerdict
  torn_write : (reason : TornReason) (offending_sequence : ℕ) → ReplayVerdict
  empty_workflow : (genesis : Text) → ReplayVerdict

-- The last event of a run; `d` where there is none.
abbrev pub latest : LedgerStateKind → List TransitionEvent → LedgerStateKind
latest d [] = d
latest d (e ∷ es) = latest e.next_state_id es

-- What the call returns, or the `ValidationError` that it raises on a message that is too long.
pub data HydrationResult : Type 0 where
  hydrated : (events : List TransitionEvent) (latest_state_kind : LedgerStateKind) → HydrationResult
  failed : VulnLedgerState → HydrationResult
  message_refused : HydrationResult

-- The language's `str` of a number and `repr` of a string.
pub record Formatting : Type 0 where
  pub str : ℕ → Text
  pub repr : Text → Text

reason_text : TornReason → Text
reason_text unparseable_event = codes "unparseable_event"
reason_text null_event_bytes = codes "null_event_bytes"
reason_text duplicate_chain_link = codes "duplicate_chain_link"

-- It is called for a mismatch or a torn write only.
unfoldable pub format_integrity_message : Formatting → ReplayVerdict → Text
unfolding reason_text
format_integrity_message f (chain_mismatch persisted recomputed index transition) =
    codes "Checkpoint integrity violation: chain_mismatch at divergence_index="
    ++ (f.str index
        ++ (codes "; offending_transition_id="
            ++ (f.repr (codes transition)
                ++ (codes "; persisted_tail="
                    ++ (f.repr persisted
                        ++ (codes "; recomputed_tail="
                            ++ (f.repr recomputed
                                ++ codes ". ADR-0003: tamper or partial writes fail closed.")))))))
format_integrity_message f (torn_write reason sequence) =
    codes "Checkpoint integrity violation: torn_write (reason="
    ++ (f.repr (reason_text reason)
        ++ (codes ") at offending_sequence="
            ++ (f.str sequence ++ codes ". ADR-0003: tamper or partial writes fail closed.")))
format_integrity_message f (verified t es) = []
format_integrity_message f (empty_workflow g) = []

-- `_MESSAGE_MAX_LEN` of transforms/outcomes.py
abbrev pub message_max_len : ℕ
message_max_len = 4096

-- The terminal state that a broken chain is turned into; the validator of the error refuses a
-- message that is too long.
unfoldable pub integrity_failure : Text → HydrationResult
integrity_failure message =
    if ltb message_max_len (length message)
    then message_refused
    else failed (
        VulnLedgerState.failed_unrecoverable checkpoint_integrity (
          some
            (record { error_id = "workflows.checkpoint_integrity_violation"; message = message })))

module _ (c : Substrate) where
  open c use {model_validate_json}

  unfoldable pub fold_one : Text → TransitionEvent → Text
  unfolding replay_fold
  fold_one prior event = replay_fold c prior (event ∷ [])

  -- The loop of `ReplayVerifier.verify`: the variables of the method, then the rows to come.
  unfoldable pub verify_from :
      (persisted_tail running_head : Text) (events : List TransitionEvent) (sequence_count : ℕ)
      → List Row
      → ReplayVerdict
  verify_from tail running events count [] = elim events [
    | [] ↦ empty_workflow genesis_chain_head
    | e ∷ es ↦ verified running (e ∷ es)
  ]
  verify_from tail running events count (row ∷ rows) = elim (model_validate_json row.stored) [
    | none ↦ torn_write unparseable_event count
    | some e ↦
        let head = fold_one running e in
        let rest = verify_from tail head (events ++ e ∷ []) (count + 1) rows in
        if text_eq head row.head then rest else chain_mismatch tail head count e.transition_id
  ]

  unfoldable pub verify : String → Store → ReplayVerdict
  unfolding verify_from rows_of
  verify workflow_id s =
      verify_from (tail_chain_head workflow_id s) genesis_chain_head [] 0 (rows_of workflow_id s)

  module _ (f : Formatting) where
    unfoldable pub dispatch_verdict : ReplayVerdict → HydrationResult
    unfolding format_integrity_message
    dispatch_verdict (verified tail events) =
        hydrated events (latest LedgerStateKind.needs_plan events)
    dispatch_verdict (empty_workflow g) = hydrated [] LedgerStateKind.needs_plan
    dispatch_verdict v = integrity_failure (format_integrity_message f v)

    unfoldable pub hydrate_or_fail : Store → String → HydrationResult
    unfolding dispatch_verdict
    hydrate_or_fail s workflow_id = dispatch_verdict (verify workflow_id s)
