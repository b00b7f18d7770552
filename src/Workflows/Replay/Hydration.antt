-- ===== src/Workflows/Replay/Hydration.antt =====
-- replay.py: hydration succeeds exactly on a chained list of rows, and so on every list of rows
-- that calls of `append` build.
use mathlib.Core.List.{append-nil}
use codewizard_sherpa.Prelude.{
  ◌+◌, ◌≡◌, ◌↔◌, refl, ap, sym, inl, inr, String, List, [], ◌∷◌, ◌++◌, arith, length, ltb, str_eq,
  Bool-cases, eq_iff,
}
use codewizard_sherpa.Prelude.Dict
use codewizard_sherpa.Prelude.Texts.{Text}
use codewizard_sherpa.Prelude.Outcome.{Outcome, ok, err}
use codewizard_sherpa.Workflows.Ledger.{needs_plan, LedgerStateKind, TransitionEvent}
use codewizard_sherpa.Workflows.Checkpoints.{
  Substrate, Row, Store, StoreError, genesis_chain_head, rows_of, tail_chain_head, last_head,
  append, read_rows,
}
use codewizard_sherpa.Workflows.Checkpoints.Append.{new_row, append-Persists, append-Rejects}
use codewizard_sherpa.Workflows.Replay.{
  ReplayVerdict, verified, chain_mismatch, torn_write, empty_workflow, verify_from, verify, latest,
  hydrated, integrity_failure, message_max_len, Formatting, dispatch_verdict, hydrate_or_fail,
}
use codewizard_sherpa.Workflows.Replay.Chained.{
  Chained, done, link, verify_from-Chained, Chained-append,
}
use codewizard_sherpa.Workflows.Replay.Verdicts.{verify_from-verified, verify_from-empty}

never_hydrated :
    (message : Text) (es : List TransitionEvent) (k : LedgerStateKind)
    → ¬ (integrity_failure message ≡ hydrated es k)
unfolding integrity_failure
never_hydrated message es k h = elim (Bool-cases (ltb message_max_len (length message))) [
  | inl b ↦ ground (arith, h, b)
  | inr b ↦ ground (arith, h, b)
]

module _ (c : Substrate) (f : Formatting) where
  verify-Chained :
      (w : String) (s : Store) {es : List TransitionEvent}
      → Chained c genesis_chain_head (rows_of w s) es
      → verify c w s
        ≡ verify_from c
            (tail_chain_head w s)
            (last_head genesis_chain_head (rows_of w s))
            es
            (0 + length (rows_of w s))
            []
  unfolding verify
  verify-Chained w s chained =
      rw (append-nil) at (verify_from-Chained c (tail_chain_head w s) [] 0 [] chained)

  hydrate-Chained :
      (w : String) (s : Store) (es : List TransitionEvent)
      → Chained c genesis_chain_head (rows_of w s) es
      → hydrate_or_fail c f s w ≡ hydrated es (latest needs_plan es)
  unfolding hydrate_or_fail verify_from
  hydrate-Chained w s [] chained = ap (dispatch_verdict c f) (verify-Chained w s chained)
  hydrate-Chained w s (e ∷ es) chained = ap (dispatch_verdict c f) (verify-Chained w s chained)

  Chained-verdict :
      (w : String) (s : Store) (v : ReplayVerdict) (es : List TransitionEvent) (k : LedgerStateKind)
      → verify c w s ≡ v
      → dispatch_verdict c f v ≡ hydrated es k
      → Chained c genesis_chain_head (rows_of w s) es × (k ≡ latest needs_plan es)
  unfolding verify dispatch_verdict
  Chained-verdict w s (verified t fs) es k e h =
      let (gs, split, chained) =
        verify_from-verified c (tail_chain_head w s) genesis_chain_head [] 0 (rows_of w s) e in
      let same : es ≡ fs = cc h in
      let rest : es ≡ gs = cc split in
      let last : k ≡ latest needs_plan fs = cc h in (rw rest chained, rw same last)
  Chained-verdict w s (empty_workflow g) es k e h =
      let (_, nothing) =
        verify_from-empty c (tail_chain_head w s) genesis_chain_head [] 0 (rows_of w s) e in
      let same : es ≡ [] = cc h in
      let last : k ≡ needs_plan = cc h in (rw (nothing, same) done, rw same last)
  Chained-verdict w s (chain_mismatch p r i t) es k e h = absurd (never_hydrated _ es k h)
  Chained-verdict w s (torn_write r n) es k e h = absurd (never_hydrated _ es k h)

  -- Hydration hands out a list of events exactly when every row of the workflow parses to its
  -- event and carries the head recomputed from the seed; the state handed out is the one that the
  -- last event enters, or `needs_plan` if there is none. On any other list of rows it hands out
  -- none.
  pub hydrate_iff :
      (w : String) (s : Store) (es : List TransitionEvent) (k : LedgerStateKind)
      → (hydrate_or_fail c f s w ≡ hydrated es k)
        ↔ (Chained c genesis_chain_head (rows_of w s) es × (k ≡ latest needs_plan es))
  unfolding hydrate_or_fail
  hydrate_iff w s es k = (
    λ h. Chained-verdict w s (verify c w s) es k refl h,
    λ (chained, last). rw last (hydrate-Chained w s es chained),
  )

module _ (c : Substrate) where
  -- The store after a list of appends, of which some may be rejected.
  unfoldable pub append_all : List TransitionEvent → Store → Store
  append_all [] s = s
  append_all (e ∷ es) s = append_all es (append c e s).1

  abbrev IsSound : Store → Type 0
  IsSound s =
      (w : String) → (es : List TransitionEvent) × Chained c genesis_chain_head (rows_of w s) es

  append-own :
      (e : TransitionEvent) (s : Store) (head : Text)
      → (append c e s).0 ≡ ok head
      → IsSound s
      → (es : List TransitionEvent) × Chained c genesis_chain_head
          (rows_of e.workflow_id (append c e s).1)
          es
  unfolding tail_chain_head
  append-own e s head h sound =
      let p = append-Persists c e s head h in
      let (es, chained) = sound e.workflow_id in
      (
        es ++ p.event ∷ [],
        rw p.own (
            Chained-append c chained
              (link (new_row c e s head) p.event p.parses (sym p.computed) done)),
      )

  append-IsSound : (e : TransitionEvent) (s : Store) → IsSound s → IsSound (append c e s).1
  append-IsSound e s sound = go (append c e s).0 refl
    where
      go : (r : Outcome StoreError Text) → (append c e s).0 ≡ r → IsSound (append c e s).1
      go (err x) h w = rw (append-Rejects c e s x h).0 (sound w)
      go (ok head) h w = elim (Bool-cases (str_eq w e.workflow_id)) [
        | inl same ↦
            let own : w ≡ e.workflow_id = (eq_iff w e.workflow_id).0 same in
            rw own (append-own e s head h sound)
        | inr other ↦
            let kept =
              (append-Persists c e s head h).others w
                (λ q. ground (arith, eq_iff w e.workflow_id)) in
            rw kept (sound w)
      ]

  append_all-IsSound :
      (es : List TransitionEvent) (s : Store) → IsSound s → IsSound (append_all es s)
  unfolding append_all
  append_all-IsSound [] s h = h
  append_all-IsSound (e ∷ es) s h = append_all-IsSound es (append c e s).1 (append-IsSound e s h)

  read-Chained :
      {prior : Text} {rows : List Row} {es : List TransitionEvent}
      → Chained c prior rows es
      → read_rows c rows ≡ ok es
  unfolding read_rows
  read-Chained done = refl
  read-Chained (link row e parses head rest) = ground (arith, read-Chained rest)

module _ (c : Substrate) (f : Formatting) where
  -- What a reader of the store sees of a workflow.
  pub record Hydrates (w : String) (s : Store) : Type 0 where
    pub events : List TransitionEvent
    pub read : read_rows c (rows_of w s) ≡ ok events
    pub result : hydrate_or_fail c f s w ≡ hydrated events (latest needs_plan events)

  -- After any events have been offered to an empty store, accepted or not, each workflow
  -- hydrates: the events handed out are those that a plain read of its rows returns, and the
  -- state is the one that the last of them enters.
  pub append_all-Hydrates :
      (es : List TransitionEvent) (w : String) → Hydrates w (append_all c es [])
  unfolding rows_of Dict.get
  append_all-Hydrates es w =
      let (seen, chained) = append_all-IsSound c es [] (λ v. ([], done)) w in
      record {
        events = seen;
        read = read-Chained c chained;
        result = hydrate-Chained c f w (append_all c es []) seen chained;
      }
