-- ===== src/Workflows/Checkpoints.antt =====
-- src/codegenie/workflows/checkpoints.py, _chain.py and in_memory_checkpoints.py: the append-only
-- chain of transitions of each workflow. A `str` that is encoded as UTF-8 here is a chain head, 64
-- hexadecimal digits, so its bytes are its code points.
pub mod Append
use mathlib.Core.List.{foldl}
use codewizard_sherpa.Prelude.{
  ℕ, String, Bool, Option, none, some, List, [], ◌∷◌, ◌++◌, length, replicate, ltb, if◌then◌else◌,
}
use codewizard_sherpa.Prelude.Dict
use codewizard_sherpa.Prelude.Dict.{Dict}
use codewizard_sherpa.Prelude.Texts.{Text, codes, remove_prefix}
use codewizard_sherpa.Prelude.Outcome.{Outcome, ok, err}
use codewizard_sherpa.Workflows.Ledger.{
  LedgerStateKind, plan_ready, patch_applied, gate_failed_retryable, awaiting_human_review,
  completed, failed_unrecoverable, kind_in, TransitionEvent,
}

-- What the chain takes from elsewhere: pydantic's JSON writer and reader of an event, where `none`
-- is a `ValidationError`, the digest of the `blake3` package, and the redaction of secrets.
pub record Substrate : Type 0 where
  pub model_dump_json : TransitionEvent → Text
  pub model_validate_json : Text → Option TransitionEvent
  pub blake3_hexdigest : Text → Text
  pub sanitize_for_persistence : Text → Text

abbrev pub semantic_boundary_kinds : List LedgerStateKind
semantic_boundary_kinds =
    plan_ready ∷ patch_applied ∷ gate_failed_retryable ∷ awaiting_human_review ∷ completed
    ∷ failed_unrecoverable ∷ []

abbrev pub max_event_bytes : ℕ
max_event_bytes = 65536

abbrev pub genesis_chain_head : Text
genesis_chain_head = replicate 64 b'0'

pub data StoreError : Type 0 where
  boundary_violation : (next_state_id : LedgerStateKind) → StoreError
  payload_too_large validation_error : StoreError

-- A persisted row: the head after it and the stored bytes of its event.
pub record Row : Type 0 where
  pub head : Text
  pub stored : Text

-- `InMemoryCheckpointStore._log`
abbrev pub Store : Type 0
Store = Dict (List Row)

unfoldable pub assert_boundary : TransitionEvent → Bool
assert_boundary e = kind_in e.next_state_id semantic_boundary_kinds

unfoldable pub rows_of : String → Store → List Row
rows_of w s = elim (Dict.get w s) [ none ↦ [] | some rows ↦ rows ]

-- `rows[-1][0]`, or the seed of an empty chain.
unfoldable pub last_head : Text → List Row → Text
last_head seed [] = seed
last_head seed (row ∷ rows) = last_head row.head rows

unfoldable pub tail_chain_head : String → Store → Text
unfolding rows_of last_head
tail_chain_head w s = last_head genesis_chain_head (rows_of w s)

module _ (c : Substrate) where
  open c use {model_dump_json, model_validate_json, blake3_hexdigest, sanitize_for_persistence}

  -- `content_hash_bytes` of hashing.py
  unfoldable pub content_hash_bytes : Text → Text
  content_hash_bytes b = codes "blake3:" ++ blake3_hexdigest b

  unfoldable pub compute_chain_head : Text → TransitionEvent → Text
  unfolding content_hash_bytes
  compute_chain_head prior_head event =
      remove_prefix (codes "blake3:")
        (content_hash_bytes (prior_head ++ (0x1e ∷ model_dump_json event)))

  -- `append` of the in-memory store; a call that raises leaves the store as it was.
  unfoldable pub append : TransitionEvent → Store → Outcome StoreError Text × Store
  unfolding assert_boundary rows_of
  append event s =
      let payload = model_dump_json event in
      let stored = sanitize_for_persistence payload in
      let prior = tail_chain_head event.workflow_id s in
      if assert_boundary event
      then (if ltb max_event_bytes (length payload)
          then (err payload_too_large, s)
          else elim (model_validate_json stored) [
            | none ↦ (err validation_error, s)
            | some chain_input_event ↦
                let next_head = compute_chain_head prior chain_input_event in
                let row : Row = record { head = next_head; stored = stored } in
                (
                  ok next_head,
                  Dict.put event.workflow_id (rows_of event.workflow_id s ++ row ∷ []) s,
                )
          ])
      else (err (boundary_violation event.next_state_id), s)

  -- `read_all_for_workflow`: the events of the rows, until one does not parse.
  unfoldable pub read_rows : List Row → Outcome StoreError (List TransitionEvent)
  read_rows [] = ok []
  read_rows (row ∷ rows) =
      let rest = read_rows rows in
      elim (model_validate_json row.stored) [
        | none ↦ err validation_error
        | some e ↦ elim rest [ ok es ↦ ok (e ∷ es) | err x ↦ err x ]
      ]

  -- `_replay_fold` of _replay.py
  unfoldable pub replay_fold : Text → List TransitionEvent → Text
  replay_fold genesis events = foldl compute_chain_head genesis events
