-- ===== src/Workflows/Replay/Tampering.antt =====
-- replay.py: where the verifier reports a row whose stored bytes were changed.
use mathlib.Core.List.{append_cancel_left}
use codewizard_sherpa.Prelude.{
  ◌+◌, ◌≡◌, ◌≢◌, ap, sym, ◌∙◌, String, none, some, List, [], ◌∷◌, ◌++◌, arith, length,
}
use codewizard_sherpa.Prelude.Texts.{Text, codes, text_eq_iff, remove_prefix-append}
use codewizard_sherpa.Workflows.Ledger.{TransitionEvent}
use codewizard_sherpa.Workflows.Checkpoints.{
  Substrate, Row, Store, genesis_chain_head, rows_of, tail_chain_head, last_head,
  compute_chain_head, replay_fold,
}
use codewizard_sherpa.Workflows.Replay.{
  chain_mismatch, torn_write, unparseable_event, fold_one, verify_from, verify,
}
use codewizard_sherpa.Workflows.Replay.Chained.{Chained, done, link, verify_from-Chained}

-- What is assumed of the libraries: an event that was read is read back after it is written, and
-- the digest does not give two inputs one value.
pub record IsFaithful (c : Substrate) : Type 0 where
  pub reads_back :
      (b : Text) (e : TransitionEvent)
      → c.model_validate_json b ≡ some e
      → c.model_validate_json (c.model_dump_json e) ≡ some e
  pub no_collision : (a b : Text) → c.blake3_hexdigest a ≡ c.blake3_hexdigest b → a ≡ b

module _ (c : Substrate) where
  open c use {model_dump_json, model_validate_json, blake3_hexdigest}

  compute-hexdigest :
      (prior : Text) (e : TransitionEvent)
      → compute_chain_head c prior e ≡ blake3_hexdigest (prior ++ 0x1e ∷ model_dump_json e)
  unfolding compute_chain_head
  compute-hexdigest prior e = remove_prefix-append (codes "blake3:") _

  -- Behind one prior head, two events have one next head only if they are the same.
  compute_injective :
      IsFaithful c
      → (prior b b' : Text) (e e' : TransitionEvent) → model_validate_json b ≡ some e
      → model_validate_json b' ≡ some e'
      → compute_chain_head c prior e ≡ compute_chain_head c prior e'
      → e ≡ e'
  compute_injective h prior b b' e e' parses parses' same =
      let x = prior ++ 0x1e ∷ model_dump_json e in
      let y = prior ++ 0x1e ∷ model_dump_json e' in
      let digests : blake3_hexdigest x ≡ blake3_hexdigest y =
        sym (compute-hexdigest prior e) ∙ (same ∙ compute-hexdigest prior e') in
      let tails = append_cancel_left prior _ _ (h.no_collision x y digests) in
      let bytes : model_dump_json e ≡ model_dump_json e' = cc tails in
      cc (h.reads_back b e parses, h.reads_back b' e' parses', ap model_validate_json bytes)

  -- A chained list of rows, taken apart at a row.
  record Split (prior : Text) (before : List Row) (row : Row) : Type 0 where
    events : List TransitionEvent
    event : TransitionEvent
    chained : Chained c prior before events
    parses : model_validate_json row.stored ≡ some event
    head : compute_chain_head c (last_head prior before) event ≡ row.head

  Split-at :
      (prior : Text) (before : List Row) (row : Row) (after : List Row) {es : List TransitionEvent}
      → Chained c prior (before ++ row ∷ after) es
      → Split prior before row
  unfolding last_head
  Split-at prior [] row after (link _ e parses head rest) = record {
    events = [];
    event = e;
    chained = done;
    parses = parses;
    head = head;
  }
  Split-at prior (r ∷ before) row after (link _ e parses head rest) =
      let s = Split-at r.head before row after rest in
      record {
        events = e ∷ s.events;
        event = s.event;
        chained = link r e parses head s.chained;
        parses = s.parses;
        head = s.head;
      }

  verify-before :
      (w : String) (s : Store) (before rows : List Row) {es : List TransitionEvent}
      → rows_of w s ≡ before ++ rows
      → Chained c genesis_chain_head before es
      → verify c w s
        ≡ verify_from c
            (tail_chain_head w s)
            (last_head genesis_chain_head before)
            es
            (0 + length before)
            rows
  unfolding verify
  verify-before w s before rows e chained =
      ap (λ l. verify_from c (tail_chain_head w s) genesis_chain_head [] 0 l) e
      ∙ verify_from-Chained c (tail_chain_head w s) [] 0 rows chained

  module _ (w : String) (s s' : Store) (before after after' : List Row) (row row' : Row)
      {es : List TransitionEvent} where
    -- The rows of a workflow form a chain. If the stored bytes of one row are changed to another
    -- event, its head kept, then the verifier reports a mismatch with the number of that row and
    -- the id of the event found there, whatever stands behind it.
    pub changed_row_mismatch :
        (e' : TransitionEvent)
        → IsFaithful c
        → Chained c genesis_chain_head (before ++ row ∷ after) es
        → rows_of w s' ≡ before ++ row' ∷ after'
        → row'.head ≡ row.head
        → model_validate_json row'.stored ≡ some e'
        → model_validate_json row.stored ≢ some e'
        → (recomputed : Text) × (verify c w s'
            ≡ chain_mismatch (tail_chain_head w s') recomputed (length before) e'.transition_id)
    unfolding verify_from fold_one replay_fold
    changed_row_mismatch e' h chained rows head' parses' changed =
        let p = Split-at genesis_chain_head before row after chained in
        let last = last_head genesis_chain_head before in
        let differs : compute_chain_head c last e' ≢ row'.head = λ same. changed (
          cc (
            p.parses,
            compute_injective h last row.stored row'.stored p.event e' p.parses parses'
                (p.head ∙ (sym head' ∙ sym same)),
          )) in
        let count : 0 + length before ≡ length before = omega arith in
        (
          compute_chain_head c last e',
          verify-before w s' before (row' ∷ after') rows p.chained
              ∙ ground (arith, text_eq_iff (compute_chain_head c last e') row'.head),
        )

    -- If the changed bytes are no event, the verifier reports a torn write at that row.
    pub unparseable_row_torn :
        Chained c genesis_chain_head (before ++ row ∷ after) es
        → rows_of w s' ≡ before ++ row' ∷ after'
        → model_validate_json row'.stored ≡ none
        → verify c w s' ≡ torn_write unparseable_event (length before)
    unfolding verify_from
    unparseable_row_torn chained rows broken =
        let p = Split-at genesis_chain_head before row after chained in
        let count : 0 + length before ≡ length before = omega arith in
        verify-before w s' before (row' ∷ after') rows p.chained ∙ ground arith
