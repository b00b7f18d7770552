-- ===== src/Fallback/Attaching.antt =====
-- `attach_trust_outcome` of attempt_anchor.py and `finalize_success_anchor` of tier.py.
use text.Mathlib.TextPositions.{eq_refl}
use codewizard_sherpa.Prelude.{String, ◌≡◌, ◌↔◌, refl, none, arith, inl, inr, Option-cases}
use codewizard_sherpa.Prelude.Dict
use codewizard_sherpa.Prelude.Dict.{IsDict}
use codewizard_sherpa.Prelude.Outcome.{ok, Outcome-cases}
use codewizard_sherpa.Fallback.Trust.{TrustOutcome, high}
use codewizard_sherpa.Fallback.Anchors.{
  AttemptAnchor, validate, in_literal, word_of, attach_trust_outcome,
}
use codewizard_sherpa.Fallback.{Tier, finalize_success_anchor}

-- A valid anchor that takes a trust outcome is valid again, so that a line written of it can be
-- read back, exactly if the confidence is high: the word for a degraded one is not of the
-- anchor's type, and attaching does not check it.
pub attached-valid_iff :
    (trust : TrustOutcome) (a b : AttemptAnchor)
    → validate a ≡ ok a
    → attach_trust_outcome trust a ≡ ok b
    → (validate b ≡ ok b) ↔ (trust.confidence ≡ high)
unfolding attach_trust_outcome validate in_literal word_of
attached-valid_iff trust a b valid attached = ground arith

module _ {Store : Type 0} where
  finalize_none :
      (attempt_id : String) (trust : TrustOutcome) (t : Tier Store)
      → Dict.get attempt_id t.pending_anchors ≡ none
      → finalize_success_anchor attempt_id trust t ≡ (none, t)
  unfolding finalize_success_anchor
  finalize_none attempt_id trust t h = rw (h, finalize_success_anchor) refl

  finalize_pops :
      (attempt_id : String) (trust : TrustOutcome) (t : Tier Store)
      → IsDict t.pending_anchors
      → Dict.get attempt_id (finalize_success_anchor attempt_id trust t).1.pending_anchors ≡ none
  unfolding finalize_success_anchor
  finalize_pops attempt_id trust t dict =
      let gone = Dict.get-remove attempt_id attempt_id t.pending_anchors dict in
      let popped : Dict.get attempt_id (Dict.remove attempt_id t.pending_anchors) ≡ none =
        ground (arith, gone, eq_refl attempt_id) in
      elim (Option-cases (Dict.get attempt_id t.pending_anchors)) [
        | inl h ↦ rw (h, finalize_success_anchor) h
        | inr (a, h) ↦ elim (Outcome-cases (attach_trust_outcome trust a)) [
          | inl (e, p) ↦ rw (h, finalize_success_anchor, p) popped
          | inr (b, p) ↦ rw (h, finalize_success_anchor, p) popped
        ]
      ]

  -- A parked anchor is written at most once: a second call for the same attempt changes nothing.
  pub finalize_twice :
      (attempt_id : String) (first second : TrustOutcome) (t : Tier Store)
      → IsDict t.pending_anchors
      → finalize_success_anchor attempt_id second (finalize_success_anchor attempt_id first t).1
        ≡ (none, (finalize_success_anchor attempt_id first t).1)
  finalize_twice attempt_id first second t dict =
      finalize_none attempt_id second (finalize_success_anchor attempt_id first t).1
        (finalize_pops attempt_id first t dict)
