-- ===== src/Workflows/Checkpoints/Append.antt =====
-- in_memory_checkpoints.py: what `append` accepts, and what it leaves alone.
use text.Mathlib.TextPositions.{eq_refl}
use codewizard_sherpa.Prelude.{
  ◌≤◌, ◌<◌, ◌≡◌, ◌≢◌, String, true, none, some, List, [], ◌∷◌, ◌++◌, arith, length, eq_iff, str_eq,
  Option-cases, inl, inr, if◌then◌else◌,
}
use codewizard_sherpa.Prelude.Dict
use codewizard_sherpa.Prelude.Texts.{Text}
use codewizard_sherpa.Prelude.Outcome.{ok, err}
use codewizard_sherpa.Workflows.Ledger.{TransitionEvent, needs_plan}
use codewizard_sherpa.Workflows.Checkpoints.{
  Substrate, Row, Store, StoreError, boundary_violation, payload_too_large, validation_error,
  max_event_bytes, assert_boundary, rows_of, tail_chain_head, compute_chain_head, append,
}

rows_of-put :
    (w v : String) (rows : List Row) (s : Store)
    → rows_of v (Dict.put w rows s) ≡ (if str_eq w v then rows else rows_of v s)
unfolding rows_of
rows_of-put w v rows s = ground (arith, Dict.get-put w v rows s)

module _ (c : Substrate) (e : TransitionEvent) (s : Store) where
  open c use {model_dump_json, model_validate_json, sanitize_for_persistence}

  abbrev pub new_row : Text → Row
  new_row head = record { head = head; stored = sanitize_for_persistence (model_dump_json e) }

  -- The facts that a return of `append` shows.
  record Accepted (head : Text) : Type 0 where
    boundary : assert_boundary e ≡ true
    size : length (model_dump_json e) ≤ max_event_bytes
    event : TransitionEvent
    parses : model_validate_json (sanitize_for_persistence (model_dump_json e)) ≡ some event
    computed : head ≡ compute_chain_head c (tail_chain_head e.workflow_id s) event
    after :
        (append c e s).1 ≡ Dict.put e.workflow_id (rows_of e.workflow_id s ++ new_row head ∷ []) s

  append-Accepted : (head : Text) → (append c e s).0 ≡ ok head → Accepted head
  unfolding append
  append-Accepted head h =
      elim (Option-cases (model_validate_json (sanitize_for_persistence (model_dump_json e)))) [
        | inl p ↦ absurd (ground arith)
        | inr (event, p) ↦ record {
          boundary = ground arith;
          size = ground arith;
          event = event;
          parses = p;
          computed = ground arith;
          after = ground arith;
        }
      ]

  -- What an accepted event adds.
  pub record Persists (head : Text) : Type 0 where
    pub boundary : e.next_state_id ≢ needs_plan
    pub size : length (model_dump_json e) ≤ max_event_bytes
    pub event : TransitionEvent
    pub parses : model_validate_json (sanitize_for_persistence (model_dump_json e)) ≡ some event
    pub computed : head ≡ compute_chain_head c (tail_chain_head e.workflow_id s) event
    pub own : rows_of e.workflow_id (append c e s).1 ≡ rows_of e.workflow_id s ++ new_row head ∷ []
    pub others : (v : String) → v ≢ e.workflow_id → rows_of v (append c e s).1 ≡ rows_of v s

  -- An accepted append is of a boundary state and within the size cap; it adds one row to its
  -- own workflow, whose head is computed from the last head and the event as stored, and it
  -- leaves the rows of every other workflow as they were.
  pub append-Persists : (head : Text) → (append c e s).0 ≡ ok head → Persists head
  unfolding assert_boundary
  append-Persists head h =
      let a = append-Accepted head h in
      let rows = rows_of e.workflow_id s ++ new_row head ∷ [] in
      record {
        boundary = λ p. ground (arith, a.boundary);
        size = a.size;
        event = a.event;
        parses = a.parses;
        computed = a.computed;
        own =
            rw a.after (
              ground
                (arith, rows_of-put e.workflow_id e.workflow_id rows s, eq_refl e.workflow_id));
        others = λ v other.
            rw a.after (ground (arith, rows_of-put e.workflow_id v rows s, eq_iff e.workflow_id v));
      }

  -- What a rejected append shows of its event, by its error.
  abbrev pub Rejects : StoreError → Type 0
  Rejects (boundary_violation k) = (e.next_state_id ≡ needs_plan) × (k ≡ needs_plan)
  Rejects payload_too_large = max_event_bytes < length (model_dump_json e)
  Rejects validation_error =
      model_validate_json (sanitize_for_persistence (model_dump_json e)) ≡ none

  -- A rejected append leaves the store as it was, and it is rejected for a state that is no
  -- boundary, for a payload over the size cap, or for a stored payload that does not parse.
  pub append-Rejects :
      (x : StoreError) → (append c e s).0 ≡ err x → ((append c e s).1 ≡ s) × Rejects x
  unfolding append assert_boundary
  append-Rejects (boundary_violation k) h = ground arith
  append-Rejects payload_too_large h = ground arith
  append-Rejects validation_error h = ground arith
