-- ===== src/Workflows/Replay/Chained.antt =====
-- Chains in which each row parses and carries the head recomputed from the rows before it, and
-- what the verifier's loop does on them.
use mathlib.Core.List.{append-nil, append_assoc}
use mathlib.Core.Path.{ap₂}
use codewizard_sherpa.Prelude.{
  ℕ, suc, ◌+◌, ◌≡◌, refl, some, List, [], ◌∷◌, ◌++◌, ap, sym, ◌∙◌, arith, length,
}
use codewizard_sherpa.Prelude.Texts.{Text, text_eq_iff}
use codewizard_sherpa.Workflows.Ledger.{TransitionEvent}
use codewizard_sherpa.Workflows.Checkpoints.{
  Substrate, Row, compute_chain_head, last_head, replay_fold,
}
use codewizard_sherpa.Workflows.Replay.{fold_one, verify_from}

module _ (c : Substrate) where
  open c use {model_validate_json}

  -- The rows hold the events, in order, and each head is the recomputed one.
  pub data Chained : Text → List Row → List TransitionEvent → Type 0 where
    done : {prior : Text} → Chained prior [] []
    link :
        {prior : Text} {rows : List Row} {es : List TransitionEvent} (row : Row)
        (e : TransitionEvent)
        → model_validate_json row.stored ≡ some e
        → compute_chain_head c prior e ≡ row.head
        → Chained row.head rows es
        → Chained prior (row ∷ rows) (e ∷ es)

  verify_from-link :
      (tail running : Text) (seen : List TransitionEvent) (n : ℕ) (row : Row) (rows : List Row)
      (e : TransitionEvent)
      → model_validate_json row.stored ≡ some e
      → compute_chain_head c running e ≡ row.head
      → verify_from c tail running seen n (row ∷ rows)
        ≡ verify_from c tail row.head (seen ++ e ∷ []) (n + 1) rows
  unfolding verify_from fold_one
  verify_from-link tail running seen n row rows e parses head =
      ground (arith, text_eq_iff (compute_chain_head c running e) row.head)

  -- The loop passes a chained start of the rows and goes on from its end.
  pub verify_from-Chained :
      (tail : Text) {running : Text} {before : List Row} {es : List TransitionEvent}
      (seen : List TransitionEvent) (n : ℕ) (rows : List Row)
      → Chained running before es
      → verify_from c tail running seen n (before ++ rows)
        ≡ verify_from c tail (last_head running before) (seen ++ es) (n + length before) rows
  unfolding last_head
  verify_from-Chained tail {running} seen n rows done =
      let same : n + 0 ≡ n = omega arith in rw (append-nil, same)
  verify_from-Chained tail {running} seen n rows
        (link {rows = more} {es = es} row e parses head rest) =
      let moved : n + 1 + length more ≡ n + suc (length more) = omega arith in
      verify_from-link tail running seen n row (more ++ rows) e parses head
      ∙ (verify_from-Chained tail (seen ++ e ∷ []) (n + 1) rows rest
          ∙ ap₂
              (λ (l : List TransitionEvent) (k : ℕ).
                verify_from c tail (last_head row.head more) l k rows)
              (append_assoc seen (e ∷ []) es) moved)

  -- The head of a chained list of rows is the fold of its events.
  pub last_head-Chained :
      {running : Text} {rows : List Row} {es : List TransitionEvent}
      → Chained running rows es
      → last_head running rows ≡ replay_fold c running es
  unfolding last_head replay_fold
  last_head-Chained done = refl
  last_head-Chained {running} (link {es = es} row e parses head rest) =
      last_head-Chained rest ∙ ap (λ h. replay_fold c h es) (sym head)

  pub Chained-append :
      {running : Text} {before after : List Row} {es fs : List TransitionEvent}
      → Chained running before es
      → Chained (last_head running before) after fs
      → Chained running (before ++ after) (es ++ fs)
  unfolding last_head
  Chained-append done k = k
  Chained-append (link row e parses head rest) k = link row e parses head (Chained-append rest k)
