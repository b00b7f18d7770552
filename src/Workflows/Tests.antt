-- ===== src/Workflows/Tests.antt =====
-- The checkpoint chain on a substrate with two events, and the theorems of the modules beside
-- this one at inputs that meet their hypotheses.
use codewizard_sherpa.Prelude.{
  String, ◌≡◌, refl, ◌↔◌, true, ◌||◌, Option, some, none, [], ◌∷◌, ◌++◌, arith, inl, inr,
  Bool-cases, if◌then◌else◌,
}
use codewizard_sherpa.Prelude.Dict
use codewizard_sherpa.Prelude.Texts.{Text, codes, text_eq, remove_prefix}
use codewizard_sherpa.Prelude.Outcome.{ok, err}
use codewizard_sherpa.Workflows.Ledger.{
  LedgerStateKind, needs_plan, plan_ready, patch_applied, completed, kind_in,
  enforce_legal_transition, TransitionEvent, null,
}
use codewizard_sherpa.Workflows.Ledger.Paths.{LedgerRun, start, step, visits, completed_after_plan}
use codewizard_sherpa.Workflows.Checkpoints.{
  Substrate, Row, Store, boundary_violation, rows_of, tail_chain_head, genesis_chain_head,
  compute_chain_head, append,
}
use codewizard_sherpa.Workflows.Checkpoints.Append.{
  Persists, append-Persists, Rejects, append-Rejects,
}
use codewizard_sherpa.Workflows.Replay.{
  Formatting, verify, chain_mismatch, hydrate_or_fail, hydrated, latest,
}
use codewizard_sherpa.Workflows.Replay.Chained.{Chained, done, link}
use codewizard_sherpa.Workflows.Replay.Hydration.{
  append_all, Hydrates, hydrate_iff, append_all-Hydrates,
}
use codewizard_sherpa.Workflows.Replay.Tampering.{IsFaithful, changed_row_mismatch}

abbrev event : String → LedgerStateKind → LedgerStateKind → TransitionEvent
event id prior next = record {
  transition_id = id;
  prior_state_id = prior;
  next_state_id = next;
  triggering_outcome = null;
  evidence_digest = "d";
  chain_head = [];
  workflow_id = "w";
}

abbrev planned : TransitionEvent
planned = event "p" needs_plan plan_ready

abbrev patched : TransitionEvent
patched = event "q" plan_ready patch_applied

abbrev finished : TransitionEvent
finished = event "r" patch_applied completed

abbrev replanned : TransitionEvent
replanned = event "s" LedgerStateKind.gate_failed_retryable needs_plan

-- Events are written as their ids, and two of them are read back.
abbrev read : Text → Option TransitionEvent
read b =
    if text_eq b (codes "p")
    then some planned
    else if text_eq b (codes "q")
    then some patched
    else none

abbrev small : Substrate
small = record {
  model_dump_json = λ e. codes e.transition_id;
  model_validate_json = read;
  blake3_hexdigest = λ b. b;
  sanitize_for_persistence = λ b. b;
}

abbrev plain : Formatting
plain = record { str = λ n. n ∷ []; repr = λ s. s }

read_back :
    (b : Text) (e : TransitionEvent) → read b ≡ some e → read (codes e.transition_id) ≡ some e
read_back b e h = elim (Bool-cases (text_eq b (codes "p"))) [
  | inl is_p ↦ let same : e ≡ planned = ground arith in rw same
  | inr not_p ↦ elim (Bool-cases (text_eq b (codes "q"))) [
    | inl is_q ↦ let same : e ≡ patched = ground arith in rw same
    | inr not_q ↦ absurd (ground arith)
  ]
]

small-IsFaithful : IsFaithful small
small-IsFaithful = record { reads_back = read_back; no_collision = λ a b h. h }

path : LedgerRun needs_plan completed
unfolding enforce_legal_transition
path =
    step finished (step patched (step planned start refl refl refl) refl refl refl) refl refl refl

completed_after_plan_example :
    (kind_in plan_ready (visits path) ≡ true)
    × ((kind_in patch_applied (visits path)
          || kind_in LedgerStateKind.awaiting_human_review (visits path))
        ≡ true)
completed_after_plan_example = completed_after_plan path

abbrev head_p : Text
head_p = genesis_chain_head ++ 0x1e ∷ codes "p"

abbrev row_p : Row
row_p = record { head = head_p; stored = codes "p" }

abbrev row_q : Row
row_q = record { head = head_p ++ 0x1e ∷ codes "q"; stored = codes "q" }

abbrev good : Store
good = ("w", row_p ∷ row_q ∷ []) ∷ []

good-Chained : Chained small genesis_chain_head (row_p ∷ row_q ∷ []) (planned ∷ patched ∷ [])
unfolding compute_chain_head remove_prefix
good-Chained =
    link {prior = genesis_chain_head} row_p planned refl refl
      (link {prior = head_p} row_q patched refl refl done)

append-planned : (append small planned []).0 ≡ ok head_p
unfolding append compute_chain_head tail_chain_head remove_prefix Dict.get
append-planned = refl

append-Persists_example : Persists small planned [] head_p
append-Persists_example = append-Persists small planned [] head_p append-planned

append-replanned : (append small replanned []).0 ≡ err (boundary_violation needs_plan)
unfolding append
append-replanned = refl

append-Rejects_example :
    ((append small replanned []).1 ≡ [])
    × Rejects small replanned [] (boundary_violation needs_plan)
append-Rejects_example =
    append-Rejects small replanned [] (boundary_violation needs_plan) append-replanned

hydrate_iff_example :
    (hydrate_or_fail small plain good "w" ≡ hydrated (planned ∷ patched ∷ []) patch_applied) ↔ (
      Chained small genesis_chain_head (rows_of "w" good) (planned ∷ patched ∷ [])
      × (patch_applied ≡ latest needs_plan (planned ∷ patched ∷ [])))
hydrate_iff_example = hydrate_iff small plain "w" good (planned ∷ patched ∷ []) patch_applied

append_all-Hydrates_example :
    Hydrates small plain "w" (append_all small (planned ∷ replanned ∷ patched ∷ []) [])
append_all-Hydrates_example =
    append_all-Hydrates small plain (planned ∷ replanned ∷ patched ∷ []) "w"

abbrev changed : Store
changed = ("w", record { head = head_p; stored = codes "q" } ∷ row_q ∷ []) ∷ []

changed_row_mismatch_example :
    (recomputed : Text) × (verify small "w" changed
      ≡ chain_mismatch (tail_chain_head "w" changed) recomputed 0 "q")
unfolding rows_of Dict.get
changed_row_mismatch_example =
    changed_row_mismatch small "w" good changed [] (row_q ∷ []) (row_q ∷ []) row_p
      (record { head = head_p; stored = codes "q" }) patched small-IsFaithful good-Chained refl refl
      refl (λ e. cc e)

abbrev torn : Store
torn = ("w", row_p ∷ record { head = []; stored = codes "zz" } ∷ []) ∷ []
