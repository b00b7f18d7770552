-- ===== src/Workflows/Replay/Verdicts.antt =====
-- replay.py: which chains hydrate, and where a changed row is reported.
use mathlib.Core.List.{append-nil, append_assoc}
use codewizard_sherpa.Prelude.{
  ℕ, ◌+◌, ◌≡◌, ◌≢◌, refl, ◌∙◌, inl, inr, some, List, [], ◌∷◌, ◌++◌, arith, Option-cases, Bool-cases,
}
use codewizard_sherpa.Prelude.Texts.{Text, text_eq, text_eq_iff}
use codewizard_sherpa.Workflows.Ledger.{TransitionEvent}
use codewizard_sherpa.Workflows.Checkpoints.{Substrate, Row, compute_chain_head, replay_fold}
use codewizard_sherpa.Workflows.Replay.{
  ReplayVerdict, verified, chain_mismatch, torn_write, empty_workflow, fold_one, verify_from,
}
use codewizard_sherpa.Workflows.Replay.Chained.{Chained, done, link}

append_single : (seen : List TransitionEvent) (e : TransitionEvent) → seen ++ e ∷ [] ≢ []
append_single [] e h = cc
append_single (x ∷ xs) e h = cc

module _ (c : Substrate) where
  open c use {model_dump_json, model_validate_json, blake3_hexdigest}

  -- The first row parses and carries the recomputed head, and the loop goes on to `v`.
  record Passes (tail running : Text) (seen : List TransitionEvent) (n : ℕ) (row : Row)
      (rows : List Row) (v : ReplayVerdict) : Type 0 where
    event : TransitionEvent
    parses : model_validate_json row.stored ≡ some event
    head : compute_chain_head c running event ≡ row.head
    rest : verify_from c tail row.head (seen ++ event ∷ []) (n + 1) rows ≡ v

  -- A verdict that reports no fault.
  abbrev IsClean : ReplayVerdict → Type 0
  IsClean (verified h es) = Unit
  IsClean (empty_workflow g) = Unit
  IsClean (chain_mismatch p r i t) = ⊥
  IsClean (torn_write r n) = ⊥

  module _ (tail running : Text) (seen : List TransitionEvent) (n : ℕ) (row : Row)
      (rows : List Row) where
    verify_from-Passes :
        (v : ReplayVerdict)
        → IsClean v
        → verify_from c tail running seen n (row ∷ rows) ≡ v
        → Passes tail running seen n row rows v
    unfolding verify_from fold_one replay_fold
    verify_from-Passes v clean e = elim (Option-cases (model_validate_json row.stored)) [
      | inl p ↦ absurd (ground arith)
      | inr (event, p) ↦ elim (Bool-cases (text_eq (fold_one c running event) row.head)) [
        | inl same ↦
            let head : compute_chain_head c running event ≡ row.head =
              (text_eq_iff (compute_chain_head c running event) row.head).0 same in
            record { event = event; parses = p; head = head; rest = ground arith }
        | inr other ↦ absurd (ground arith)
      ]
    ]

  -- A verdict with its events comes from a chained list of rows.
  pub verify_from-verified :
      (tail running : Text) (seen : List TransitionEvent) (n : ℕ) (rows : List Row) {h : Text}
      {es : List TransitionEvent}
      → verify_from c tail running seen n rows ≡ verified h es
      → (fs : List TransitionEvent) × (es ≡ seen ++ fs) × Chained c running rows fs
  unfolding verify_from
  verify_from-verified tail running [] n [] e = cc
  verify_from-verified tail running (x ∷ xs) n [] e =
      ([], ground (arith, append-nil (x ∷ xs)), done)
  verify_from-verified tail running seen n (row ∷ rows) {h} {es} e =
      let s = verify_from-Passes tail running seen n row rows (verified h es) tt e in
      let (fs, split, chained) =
        verify_from-verified tail row.head (seen ++ s.event ∷ []) (n + 1) rows s.rest in
      (
        s.event ∷ fs,
        split ∙ append_assoc seen (s.event ∷ []) fs,
        link row s.event s.parses s.head chained,
      )

  pub verify_from-empty :
      (tail running : Text) (seen : List TransitionEvent) (n : ℕ) (rows : List Row) {g : Text}
      → verify_from c tail running seen n rows ≡ empty_workflow g
      → (seen ≡ []) × (rows ≡ [])
  unfolding verify_from
  verify_from-empty tail running [] n [] e = (refl, refl)
  verify_from-empty tail running (x ∷ xs) n [] e = cc
  verify_from-empty tail running seen n (row ∷ rows) {g} e =
      let s = verify_from-Passes tail running seen n row rows (empty_workflow g) tt e in
      let (nothing, _) =
        verify_from-empty tail row.head (seen ++ s.event ∷ []) (n + 1) rows s.rest in
      absurd (append_single seen s.event nothing)
