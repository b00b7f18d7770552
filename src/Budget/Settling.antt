-- ===== src/Budget/Settling.antt =====
-- budget.py: `reconcile` counts a token once, refuses a token that was never minted, and may
-- leave a guard whose running total cannot be read.
use codewizard_sherpa.Prelude.{ℕ, ◌+◌, ◌<◌, ◌≡◌, false, none, some, arith}
use codewizard_sherpa.Prelude.Dict
use codewizard_sherpa.Prelude.Int.{pos}
use codewizard_sherpa.Prelude.Outcome.{ok, err}
use codewizard_sherpa.Budget.{
  LlmInvocationGuard, reconcile_unknown_token, snapshot_invalid, workflow_max_tokens_exceeded,
  unknown_token_reconcile, BudgetToken, reconcile, settle, outstanding_tokens, running_total,
}
use codewizard_sherpa.Budget.Admission.{logged}

-- A token that is neither open nor settled is refused: one event is logged before the raise, and
-- nothing else changes.
pub reconcile_unknown :
    (token : BudgetToken) (i o d : ℕ) (g : LlmInvocationGuard)
    → Dict.get token.id g.outstanding ≡ none
    → Dict.mem token.id g.reconciled_ids ≡ false
    → reconcile token (pos i) (pos o) (pos d) g
      ≡ (err (reconcile_unknown_token token.id), logged (unknown_token_reconcile token.id) g)
unfolding reconcile settle
reconcile_unknown token i o d g h k = ground arith

-- Settling an open token for more than its reservation and the room that is left makes
-- `running_total` raise, although `reconcile` itself returns.
pub running_total_overrun :
    (token t : BudgetToken) (i o d : ℕ) (g : LlmInvocationGuard)
    → Dict.get token.id g.outstanding ≡ some t
    → g.max_tokens + t.precharged_tokens < g.consumed_tokens + outstanding_tokens g + i + o
    → ((reconcile token (pos i) (pos o) (pos d) g).0 ≡ ok tt)
      × (running_total (reconcile token (pos i) (pos o) (pos d) g).1
          ≡ err (snapshot_invalid workflow_max_tokens_exceeded))
unfolding reconcile settle running_total
running_total_overrun token t i o d g open_token over = ground (
  arith,
  Dict.sum_values-remove (λ (t : BudgetToken). t.precharged_tokens) token.id t g.outstanding
      open_token,
  Dict.sum_values-map_values (λ (t : BudgetToken). t.precharged_tokens)
      (Dict.remove token.id g.outstanding),
)
