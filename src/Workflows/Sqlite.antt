-- ===== src/Workflows/Sqlite.antt =====
-- src/codegenie/workflows/sqlite_checkpoints.py: the store that keeps the rows of each workflow in
-- a table of its own file. What SQLite promises of the table is written out: an `INSERT` that
-- repeats a unique column raises `IntegrityError`, and `sequence` is the order of insertion.
pub mod Refinement
mod Tests
use codewizard_sherpa.Prelude.{
  String, Bool, true, false, ◌||◌, none, some, List, [], ◌∷◌, ◌++◌, map, length, ltb, str_eq,
  if◌then◌else◌,
}
use codewizard_sherpa.Prelude.Dict
use codewizard_sherpa.Prelude.Dict.{Dict}
use codewizard_sherpa.Prelude.Texts.{Text, text_eq}
use codewizard_sherpa.Prelude.Outcome.{Outcome, ok, err, ◌>>=◌}
use codewizard_sherpa.Workflows.Ledger.{TransitionEvent}
use codewizard_sherpa.Workflows.Checkpoints.{
  Substrate, Row, StoreError, boundary_violation, payload_too_large, validation_error,
  max_event_bytes, genesis_chain_head, assert_boundary, compute_chain_head,
}

-- A row of `checkpoint_chain`.
pub record SqlRow : Type 0 where
  pub transition_id : String
  pub prior_head : Text
  pub next_head : Text
  pub event_bytes : Text
  pub written_at : Text

-- The table of each workflow, in the order of `sequence`.
abbrev pub SqliteStore : Type 0
SqliteStore = Dict (List SqlRow)

pub data SqliteError : Type 0 where
  store_error : StoreError → SqliteError
  integrity_error : SqliteError

unfoldable pub table_of : String → SqliteStore → List SqlRow
table_of w s = elim (Dict.get w s) [ none ↦ [] | some rows ↦ rows ]

-- The constraints on `transition_id` and `next_head`.
unfoldable pub conflicts : String → Text → List SqlRow → Bool
conflicts transition_id next_head [] = false
conflicts transition_id next_head (row ∷ rows) =
    str_eq row.transition_id transition_id
    || (text_eq row.next_head next_head || conflicts transition_id next_head rows)

unfoldable pub insert : SqlRow → List SqlRow → Outcome SqliteError (List SqlRow)
insert row rows =
    if conflicts row.transition_id row.next_head rows
    then err integrity_error
    else ok (rows ++ row ∷ [])

-- `SELECT next_head ... ORDER BY sequence DESC LIMIT 1`, or the seed.
unfoldable pub tail_of : Text → List SqlRow → Text
tail_of seed [] = seed
tail_of seed (row ∷ rows) = tail_of row.next_head rows

unfoldable pub sqlite_tail_chain_head : String → SqliteStore → Text
sqlite_tail_chain_head w s = tail_of genesis_chain_head (table_of w s)

module _ (c : Substrate) where
  open c use {model_dump_json, model_validate_json, sanitize_for_persistence}

  -- The checks before the lock is taken: the stored bytes, and the event they hold.
  unfoldable pub prepare : TransitionEvent → Outcome SqliteError (Text × TransitionEvent)
  prepare event =
      let payload = model_dump_json event in
      let stored = sanitize_for_persistence payload in
      if assert_boundary event
      then (if ltb max_event_bytes (length payload)
          then err (store_error payload_too_large)
          else elim (model_validate_json stored) [
            | none ↦ err (store_error validation_error)
            | some chain_input_event ↦ ok (stored, chain_input_event)
          ])
      else err (store_error (boundary_violation event.next_state_id))

  -- `append` with the time of the clock; a call that raises leaves the tables as they were.
  unfoldable pub sqlite_append :
      (now : Text) → TransitionEvent → SqliteStore → Outcome SqliteError Text × SqliteStore
  sqlite_append now event s = elim (prepare event) [
    | err x ↦ (err x, s)
    | ok (stored, chain_input_event) ↦
        let prior = sqlite_tail_chain_head event.workflow_id s in
        let next_head = compute_chain_head c prior chain_input_event in
        let row : SqlRow = record {
          transition_id = event.transition_id;
          prior_head = prior;
          next_head = next_head;
          event_bytes = stored;
          written_at = now;
        } in
        elim (insert row (table_of event.workflow_id s)) [
          | err x ↦ (err x, s)
          | ok rows ↦ (ok next_head, Dict.put event.workflow_id rows s)
        ]
  ]

-- The rows that `iter_persisted_chain` gives, as those of the in-memory store.
abbrev pub row_of : SqlRow → Row
row_of row = record { head = row.next_head; stored = row.event_bytes }
