-- ===== src/Workflows/Ledger/Paths.antt =====
-- vuln_ledger.py: which states a run passes on its way.
use codewizard_sherpa.Prelude.{◌≡◌, ◌↔◌, refl, Bool, true, false, ◌&&◌, ◌||◌, List, [], ◌∷◌, arith}
use codewizard_sherpa.Workflows.Ledger.{
  LedgerStateKind, needs_plan, completed, gate_failed_retryable, plan_ready, patch_applied,
  failed_unrecoverable, awaiting_human_review, legal, kind_eq, kind_in, TransitionEvent,
  enforce_legal_transition,
}
use codewizard_sherpa.Prelude.Outcome.{ok}

-- The states of accepted transitions, each from where the one before it ended.
pub data LedgerRun (a : LedgerStateKind) : LedgerStateKind → Type 0 where
  start : LedgerRun a a
  step :
      {b : LedgerStateKind} (e : TransitionEvent)
      → LedgerRun a b
      → e.prior_state_id ≡ b
      → enforce_legal_transition e ≡ ok e
      → {c : LedgerStateKind} → e.next_state_id ≡ c
      → LedgerRun a c

pub visits : {a b : LedgerStateKind} → LedgerRun a b → List LedgerStateKind
visits {a} start = a ∷ []
visits (step e p _ _ {c} _) = c ∷ visits p

-- `planned` and `looked_at` say what the run has passed so far.
abbrev fits : LedgerStateKind → Bool → Bool → Bool
fits b planned looked_at =
    (kind_eq b needs_plan || planned)
    && (kind_in b (needs_plan ∷ plan_ready ∷ failed_unrecoverable ∷ []) || looked_at)

abbrev is_looked_at : LedgerStateKind → Bool
is_looked_at b = kind_eq patch_applied b || kind_eq awaiting_human_review b

fits-step :
    (a b : LedgerStateKind) (planned looked_at : Bool)
    → legal a b ≡ true
    → fits a planned looked_at ≡ true
    → fits b (kind_eq plan_ready b || planned) (is_looked_at b || looked_at) ≡ true
unfolding legal
fits-step a b planned looked_at h k = ground arith

accepted-legal :
    (e : TransitionEvent)
    → enforce_legal_transition e ≡ ok e
    → legal e.prior_state_id e.next_state_id ≡ true
unfolding enforce_legal_transition
accepted-legal e h = ground arith

Path-fits :
    {b : LedgerStateKind} (p : LedgerRun needs_plan b)
    → fits b
        (kind_in plan_ready (visits p))
        (kind_in patch_applied (visits p) || kind_in awaiting_human_review (visits p))
      ≡ true
unfolding visits
Path-fits start = refl
Path-fits (step {b = a} e p from_a made {c = b} to_b) =
    let edge : legal a b ≡ true = rw (← from_a, ← to_b) (accepted-legal e made) in
    let planned = kind_in plan_ready (visits p) in
    let patched = kind_in patch_applied (visits p) in
    let reviewed = kind_in awaiting_human_review (visits p) in
    ground (arith, fits-step a b planned (patched || reviewed) edge (Path-fits p))

-- A run that starts at `needs_plan` and is completed, by transitions that `TransitionEvent`
-- accepts, passed `plan_ready`, and passed `patch_applied` or `awaiting_human_review`.
pub completed_after_plan :
    (p : LedgerRun needs_plan completed)
    → (kind_in plan_ready (visits p) ≡ true)
      × ((kind_in patch_applied (visits p) || kind_in awaiting_human_review (visits p)) ≡ true)
completed_after_plan p = ground (arith, Path-fits p)

-- A state has an accepted transition out of it exactly if it is neither `completed` nor
-- `failed_unrecoverable`: `awaiting_human_review`, listed as terminal, has some too.
exit_iff :
    (a : LedgerStateKind)
    → (((b : LedgerStateKind) → legal a b ≡ false)
        ↔ (kind_in a (completed ∷ failed_unrecoverable ∷ []) ≡ true))
unfolding legal
exit_iff needs_plan = ((λ h. cc (h plan_ready)), λ h. cc)
exit_iff plan_ready = ((λ h. cc (h patch_applied)), λ h. cc)
exit_iff patch_applied = ((λ h. cc (h completed)), λ h. cc)
exit_iff gate_failed_retryable = ((λ h. cc (h needs_plan)), λ h. cc)
exit_iff awaiting_human_review = ((λ h. cc (h completed)), λ h. cc)
exit_iff completed = ((λ h. refl), λ h b. ground arith)
exit_iff failed_unrecoverable = ((λ h. refl), λ h b. ground arith)
