-- ===== src/Workflows/Sqlite/Refinement.antt =====
-- The SQLite store of sqlite_checkpoints.py against the in-memory store.
use mathlib.Core.List.{map-append}
use codewizard_sherpa.Prelude.{
  String, ◌≡◌, refl, sym, ap, ◌∙◌, true, false, List, [], ◌∷◌, ◌++◌, map, arith, inl, inr,
  Bool-cases, Option-cases, length, ltb,
}
use codewizard_sherpa.Prelude.Dict
use codewizard_sherpa.Prelude.Texts.{Text}
use codewizard_sherpa.Prelude.Outcome.{Outcome, ok, err, Outcome-cases}
use codewizard_sherpa.Workflows.Ledger.{TransitionEvent}
use codewizard_sherpa.Workflows.Checkpoints.{
  Substrate, Store, StoreError, boundary_violation, payload_too_large, validation_error,
  max_event_bytes, genesis_chain_head, assert_boundary, compute_chain_head, rows_of, last_head,
  tail_chain_head, append,
}
use codewizard_sherpa.Workflows.Replay.{Formatting}
use codewizard_sherpa.Workflows.Replay.Hydration.{append_all, Hydrates, append_all-Hydrates}
use codewizard_sherpa.Workflows.Sqlite.{
  SqlRow, SqliteStore, SqliteError, store_error, integrity_error, table_of, conflicts, insert,
  tail_of, sqlite_tail_chain_head, prepare, sqlite_append, row_of,
}

-- The tables as rows of the in-memory store.
abbrev pub view : SqliteStore → Store
view s = Dict.map_values (map row_of) s

rows_of-view : (w : String) (s : SqliteStore) → rows_of w (view s) ≡ map row_of (table_of w s)
unfolding rows_of table_of
rows_of-view w s = elim (Option-cases (Dict.get w s)) [
  | inl h ↦ rw (Dict.get-map_values (map row_of) w s, h, rows_of, table_of) refl
  | inr (rows, h) ↦ rw (Dict.get-map_values (map row_of) w s, h, rows_of, table_of) refl
]

last_head-map :
    (seed : Text) (rows : List SqlRow) → last_head seed (map row_of rows) ≡ tail_of seed rows
unfolding last_head tail_of
last_head-map seed [] = refl
last_head-map seed (row ∷ rows) = last_head-map row.next_head rows

tail-view : (w : String) (s : SqliteStore) → tail_chain_head w (view s) ≡ sqlite_tail_chain_head w s
unfolding tail_chain_head sqlite_tail_chain_head
tail-view w s = rw (rows_of-view w s) (last_head-map genesis_chain_head (table_of w s))

module _ (c : Substrate) where
  open c use {model_dump_json, model_validate_json, sanitize_for_persistence}

  -- What a call of the SQLite store is for the in-memory store, by its result.
  abbrev pub Refines :
      (now : Text) (e : TransitionEvent) (s : SqliteStore) → Outcome SqliteError Text → Type 0
  Refines now e s (ok head) =
      ((append c e (view s)).0 ≡ ok head)
      × ((append c e (view s)).1 ≡ view (sqlite_append c now e s).1)
  Refines now e s (err (store_error x)) =
      ((append c e (view s)).0 ≡ err x) × ((sqlite_append c now e s).1 ≡ s)
  Refines now e s (err integrity_error) =
      ((head : Text) × ((append c e (view s)).0 ≡ ok head)
        × (conflicts e.transition_id head (table_of e.workflow_id s) ≡ true))
      × ((sqlite_append c now e s).1 ≡ s)

  prepare-err :
      (e : TransitionEvent) (s : Store) (x : SqliteError)
      → prepare c e ≡ err x
      → (y : StoreError) × (x ≡ store_error y) × ((append c e s).0 ≡ err y)
  unfolding prepare append
  prepare-err e s x h = elim (Bool-cases (assert_boundary e)) [
    | inr b ↦ (boundary_violation e.next_state_id, ground (arith, h, b), ground (arith, h, b))
    | inl b ↦ elim (Bool-cases (ltb max_event_bytes (length (model_dump_json e)))) [
      | inl l ↦ (payload_too_large, ground (arith, h, b, l), ground (arith, h, b, l))
      | inr l ↦
          elim (Option-cases (model_validate_json (sanitize_for_persistence (model_dump_json e)))) [
            | inl p ↦ (validation_error, ground (arith, h, b, l, p), ground (arith, h, b, l, p))
            | inr (event, p) ↦ absurd (ground (arith, h, b, l, p))
          ]
    ]
  ]

  prepare-ok :
      (e : TransitionEvent) (s : Store) (stored : Text) (event : TransitionEvent)
      → prepare c e ≡ ok (stored, event)
      → append c e s ≡ (
        ok (compute_chain_head c (tail_chain_head e.workflow_id s) event),
        Dict.put e.workflow_id
            (rows_of e.workflow_id s
              ++ record {
                head = compute_chain_head c (tail_chain_head e.workflow_id s) event;
                stored = stored;
              }
                ∷ [])
            s,
      )
  unfolding prepare append
  prepare-ok e s stored event h = elim (Bool-cases (assert_boundary e)) [
    | inr b ↦ absurd (ground (arith, h, b))
    | inl b ↦ elim (Bool-cases (ltb max_event_bytes (length (model_dump_json e)))) [
      | inl l ↦ absurd (ground (arith, h, b, l))
      | inr l ↦
          elim (Option-cases (model_validate_json (sanitize_for_persistence (model_dump_json e)))) [
            | inl p ↦ absurd (ground (arith, h, b, l, p))
            | inr (parsed, p) ↦
                let q : sanitize_for_persistence (model_dump_json e) ≡ stored =
                  ground (arith, h, b, l, p) in
                let r : parsed ≡ event = ground (arith, h, b, l, p) in
                rw (b, l, p, append, q, r) refl
          ]
    ]
  ]

  raises :
      (now : Text) (e : TransitionEvent) (s : SqliteStore) (x : SqliteError)
      → prepare c e ≡ err x
      → sqlite_append c now e s ≡ (err x, s)
  unfolding sqlite_append
  raises now e s x h = rw (h, sqlite_append) refl

  module _ (now : Text) (e : TransitionEvent) (s : SqliteStore) (stored : Text)
      (event : TransitionEvent) (h : prepare c e ≡ ok (stored, event)) where
    abbrev next : Text
    next = compute_chain_head c (sqlite_tail_chain_head e.workflow_id s) event

    abbrev new_row : SqlRow
    new_row = record {
      transition_id = e.transition_id;
      prior_head = sqlite_tail_chain_head e.workflow_id s;
      next_head = next;
      event_bytes = stored;
      written_at = now;
    }

    repeats :
        conflicts e.transition_id next (table_of e.workflow_id s) ≡ true
        → sqlite_append c now e s ≡ (err integrity_error, s)
    unfolding sqlite_append insert
    repeats k = rw (h, sqlite_append, k, insert) refl

    inserts :
        conflicts e.transition_id next (table_of e.workflow_id s) ≡ false
        → sqlite_append c now e s
          ≡ (ok next, Dict.put e.workflow_id (table_of e.workflow_id s ++ new_row ∷ []) s)
    unfolding sqlite_append insert
    inserts k = rw (h, sqlite_append, k, insert) refl

    -- The in-memory store on the same event.
    remembers :
        append c e (view s)
        ≡ (ok next, view (Dict.put e.workflow_id (table_of e.workflow_id s ++ new_row ∷ []) s))
    remembers =
        let rows = table_of e.workflow_id s in
        rw
          (
            prepare-ok e (view s) stored event h,
            tail-view e.workflow_id s,
            rows_of-view e.workflow_id s,
            sym (Dict.put-map_values (map row_of) e.workflow_id (rows ++ new_row ∷ []) s),
            map-append row_of rows (new_row ∷ []),
          )
          refl

  -- The SQLite store refines the in-memory store: a call that returns does there what it does
  -- here, a call that raises leaves the tables as they were, with the same error except for a
  -- repeated transition or head, which the table refuses and the in-memory store accepts.
  pub sqlite_append-Refines :
      (now : Text) (e : TransitionEvent) (s : SqliteStore)
      → Refines now e s (sqlite_append c now e s).0
  sqlite_append-Refines now e s = elim (Outcome-cases (prepare c e)) [
    | inl (x, h) ↦
        let (y, p, q) = prepare-err e (view s) x h in
        let run : sqlite_append c now e s ≡ (err (store_error y), s) =
          rw p at (raises now e s x h) in
        rw (ap (λ r. r.0) run) (q, ap (λ r. r.1) run)
    | inr ((stored, event), h) ↦
        let head = next now e s stored event h in
        let seen = remembers now e s stored event h in
        elim (Bool-cases (conflicts e.transition_id head (table_of e.workflow_id s))) [
          | inl k ↦
              let run = repeats now e s stored event h k in
              rw (ap (λ r. r.0) run) ((head, ap (λ r. r.0) seen, k), ap (λ r. r.1) run)
          | inr k ↦
              let run = inserts now e s stored event h k in
              rw (ap (λ r. r.0) run)
                (ap (λ r. r.0) seen, ap (λ r. r.1) seen ∙ sym (ap (λ r. view r.1) run))
        ]
  ]

module _ (c : Substrate) (f : Formatting) where
  -- The tables after a list of appends, each with the time of the clock.
  unfoldable pub sqlite_append_all : List (Text × TransitionEvent) → SqliteStore → SqliteStore
  sqlite_append_all [] s = s
  sqlite_append_all ((now, e) ∷ es) s = sqlite_append_all es (sqlite_append c now e s).1

  -- The events that the tables have taken can be offered to the in-memory store alone.
  taken :
      (es : List (Text × TransitionEvent)) (s : SqliteStore)
      → (fs : List TransitionEvent) × (view (sqlite_append_all es s) ≡ append_all c fs (view s))
  unfolding sqlite_append_all append_all
  taken [] s = ([], refl)
  taken ((now, e) ∷ es) s =
      let after = (sqlite_append c now e s).1 in
      let (fs, same) = taken es after in
      let refines = sqlite_append-Refines c now e s in
      elim (Outcome-cases (sqlite_append c now e s).0) [
        | inr (head, h) ↦
            let (p, q) = rw h at refines in (e ∷ fs, same ∙ ap (append_all c fs) (sym q))
        | inl (store_error x, h) ↦
            let (p, q) = rw h at refines in (fs, same ∙ ap (λ t. append_all c fs (view t)) q)
        | inl (integrity_error, h) ↦
            let (p, q) = rw h at refines in (fs, same ∙ ap (λ t. append_all c fs (view t)) q)
      ]

  -- After any events have been appended to new tables, accepted or not, each workflow hydrates
  -- from them as from the in-memory store.
  pub sqlite_append_all-Hydrates :
      (es : List (Text × TransitionEvent)) (w : String)
      → Hydrates c f w (view (sqlite_append_all es []))
  sqlite_append_all-Hydrates es w =
      let (fs, same) = taken es [] in rw same (append_all-Hydrates c f fs w)
