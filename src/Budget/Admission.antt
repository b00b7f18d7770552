-- ===== src/Budget/Admission.antt =====
-- budget.py: which requests `precharge` admits, and what a refused one leaves behind.
use codewizard_sherpa.Prelude.{ℕ, ◌+◌, ◌*◌, ◌≤◌, ◌<◌, String, ◌≡◌, ◌↔◌, none, [], ◌∷◌, ◌++◌, arith}
use codewizard_sherpa.Prelude.Dict
use codewizard_sherpa.Prelude.Int.{pos}
use codewizard_sherpa.Prelude.Outcome.{ok, err}
use codewizard_sherpa.Budget.{
  LlmInvocationGuard, budget_exceeded, CapReason, per_call_max_exceeded,
  workflow_max_tokens_exceeded, workflow_max_dollars_exceeded, Event, cap_exceeded, BudgetToken,
  new_token, precharge, precharge_positive, outstanding_tokens, outstanding_dollars, running_total,
}

-- The request fits every cap.
pub record IsAdmissible (n : ℕ) (g : LlmInvocationGuard) : Type 0 where
  pub asks : 0 < n
  pub call : n ≤ g.per_call_max_tokens
  pub tokens : g.consumed_tokens + outstanding_tokens g + n ≤ g.max_tokens
  pub dollars : g.consumed_dollars + outstanding_dollars g + g.dollars_per_token * n ≤ g.max_dollars

module _ (id : String) (now n : ℕ) (g : LlmInvocationGuard) where
  abbrev minted : BudgetToken
  minted = new_token id now n (g.dollars_per_token * n)

  admitted : IsAdmissible n g → (precharge id now (pos n) g).0 ≡ ok minted
  unfolding precharge precharge_positive
  admitted h = ground arith

  admitted_only : (precharge id now (pos n) g).0 ≡ ok minted → IsAdmissible n g
  unfolding precharge precharge_positive
  admitted_only h = ground arith

  -- A positive request is admitted exactly when it fits the cap of one call and the caps on
  -- tokens and dollars of the workflow, open reservations counted; the token carries the request.
  pub precharge-ok_iff : ((precharge id now (pos n) g).0 ≡ ok minted) ↔ IsAdmissible n g
  precharge-ok_iff = (admitted_only, admitted)

  -- What the guard is after a request that is admitted.
  pub record Reserves (h : LlmInvocationGuard) : Type 0 where
    pub tokens : outstanding_tokens h ≡ n + outstanding_tokens g
    pub dollars : outstanding_dollars h ≡ g.dollars_per_token * n + outstanding_dollars g
    pub consumed_tokens : h.consumed_tokens ≡ g.consumed_tokens
    pub consumed_dollars : h.consumed_dollars ≡ g.consumed_dollars
    pub settled : h.reconciled_ids ≡ g.reconciled_ids

  -- A request that fits every cap, with an id that is not in use, reserves just its tokens and their
  -- price, and neither consumption nor the settled ids change.
  pub precharge-Reserves :
      IsAdmissible n g → Dict.get id g.outstanding ≡ none → Reserves (precharge id now (pos n) g).1
  unfolding precharge precharge_positive
  precharge-Reserves h new =
      let token = minted in
      ground (
        arith,
        Dict.sum_values-put_new (λ (t : BudgetToken). t.precharged_tokens) id token g.outstanding
            new,
        Dict.sum_values-put_new (λ (t : BudgetToken). t.precharged_dollars) id token g.outstanding
            new,
      )

-- `r` is the first cap that the request breaks, in the order call, tokens, dollars.
abbrev pub IsFirstBroken : CapReason → ℕ → LlmInvocationGuard → Type 0
IsFirstBroken per_call_max_exceeded n g = g.per_call_max_tokens < n
IsFirstBroken workflow_max_tokens_exceeded n g =
    (n ≤ g.per_call_max_tokens) × (g.max_tokens < g.consumed_tokens + outstanding_tokens g + n)
IsFirstBroken workflow_max_dollars_exceeded n g =
    (n ≤ g.per_call_max_tokens)
    × (g.consumed_tokens + outstanding_tokens g + n ≤ g.max_tokens)
    × (g.max_dollars < g.consumed_dollars + outstanding_dollars g + g.dollars_per_token * n)

-- A guard that differs by one more event.
abbrev pub logged : Event → LlmInvocationGuard → LlmInvocationGuard
logged e g = record g { event_log = g.event_log ++ e ∷ [] }

-- What a refused request does: the error shows how far the cap is passed, the log has one event
-- with the reason, and the running total is the one before the call.
pub record Refuses (id : String) (now n : ℕ) (r : CapReason) (g : LlmInvocationGuard) : Type 0 where
  pub projected : ℕ
  pub max : ℕ
  pub passed : max < projected
  pub call :
      precharge id now (pos n) g
      ≡ (err (budget_exceeded r projected max), logged (cap_exceeded r) g)
  pub total : running_total (precharge id now (pos n) g).1 ≡ running_total g

-- A positive request that breaks a cap is refused for the first cap that it breaks, with one
-- event logged and nothing else changed.
pub precharge-Refuses :
    (id : String) (now n : ℕ) (r : CapReason) (g : LlmInvocationGuard)
    → 0 < n
    → IsFirstBroken r n g
    → Refuses id now n r g
unfolding precharge precharge_positive running_total
precharge-Refuses id now n per_call_max_exceeded g asks h = record {
  projected = n;
  max = g.per_call_max_tokens;
  passed = h;
  call = ground arith;
  total = ground arith;
}
precharge-Refuses id now n workflow_max_tokens_exceeded g asks h = record {
  projected = g.consumed_tokens + outstanding_tokens g + n;
  max = g.max_tokens;
  passed = h.1;
  call = ground arith;
  total = ground arith;
}
precharge-Refuses id now n workflow_max_dollars_exceeded g asks h = record {
  projected = g.consumed_dollars + outstanding_dollars g + g.dollars_per_token * n;
  max = g.max_dollars;
  passed = h.2;
  call = ground arith;
  total = ground arith;
}
