-- ===== src/Budget.antt =====
-- src/codegenie/fallback/budget.py and budget_token.py: the circuit breaker for LLM spend.
-- A method takes the guard and returns its result with the new guard, also where it raises.
-- `uuid4` and the clock are arguments; dollars are whole numbers of one unit small enough that
-- every price is a multiple of it, so that the `Decimal` sums are exact.
mod State
mod Tests
pub mod Caps
pub mod Admission
pub mod Settling
unfoldable pub use State.*
use codewizard_sherpa.Prelude.{
  ℕ, ◌+◌, ◌-◌, ◌*◌, String, Option, none, some, ltb, ◌==◌, if◌then◌else◌,
}
use codewizard_sherpa.Prelude.Dict
use codewizard_sherpa.Prelude.Dict.{Dict}
use codewizard_sherpa.Prelude.Int.{ℤ}
use codewizard_sherpa.Prelude.Outcome.{Outcome, ok, err, ◌>>=◌}

abbrev pub outstanding_tokens : LlmInvocationGuard → ℕ
outstanding_tokens g = Dict.sum_values (λ t. t.precharged_tokens) g.outstanding

abbrev pub outstanding_dollars : LlmInvocationGuard → ℕ
outstanding_dollars g = Dict.sum_values (λ t. t.precharged_dollars) g.outstanding

-- `_emit_cap_exceeded`, and the raise that follows each call of it.
unfoldable pub refuse :
    CapReason
    → (projected max : ℕ) → LlmInvocationGuard
    → Outcome Error BudgetToken × LlmInvocationGuard
unfolding emit
refuse reason projected max g =
    (err (budget_exceeded reason projected max), emit (cap_exceeded reason) g)

abbrev pub new_token : (id : String) (now tokens dollars : ℕ) → BudgetToken
new_token id now tokens dollars = record {
  id = id;
  precharged_tokens = tokens;
  precharged_dollars = dollars;
  issued_at = now;
}

-- The part of `precharge` after its last check.
unfoldable pub mint :
    (id : String) (now tokens dollars : ℕ)
    → LlmInvocationGuard
    → Outcome Error BudgetToken × LlmInvocationGuard
unfolding emit
mint id now tokens dollars g =
    let token = new_token id now tokens dollars in
    (
      ok token,
      emit (precharged id tokens dollars)
          (record g { outstanding = Dict.put id token g.outstanding }),
    )

-- The checks of `precharge` once the request is known to be positive.
unfoldable pub precharge_positive :
    (id : String) (now requested : ℕ)
    → LlmInvocationGuard
    → Outcome Error BudgetToken × LlmInvocationGuard
unfolding refuse mint
precharge_positive id now requested g =
    let projected_tokens = g.consumed_tokens + outstanding_tokens g + requested in
    let dollars = g.dollars_per_token * requested in
    let projected_dollars = g.consumed_dollars + outstanding_dollars g + dollars in
    if ltb g.per_call_max_tokens requested
    then refuse per_call_max_exceeded requested g.per_call_max_tokens g
    else if ltb g.max_tokens projected_tokens
    then refuse workflow_max_tokens_exceeded projected_tokens g.max_tokens g
    else if ltb g.max_dollars projected_dollars
    then refuse workflow_max_dollars_exceeded projected_dollars g.max_dollars g
    else mint id now requested dollars g

unfoldable pub precharge :
    (id : String) (now : ℕ)
    → ℤ
    → LlmInvocationGuard
    → Outcome Error BudgetToken × LlmInvocationGuard
unfolding positive
precharge id now requested g = elim (positive requested_tokens requested) [
  | ok n ↦ precharge_positive id now n g
  | err e ↦ (err e, g)
]

-- The three branches of `reconcile`, once its arguments are known not to be negative.
unfoldable pub settle :
    (id : String) (tokens_in tokens_out dollars : ℕ)
    → LlmInvocationGuard
    → Outcome Error (Unit {0}) × LlmInvocationGuard
unfolding emit
settle id tokens_in tokens_out dollars g = elim (Dict.get id g.outstanding) [
  | some token ↦ (
    ok tt,
    emit (reconciled id tokens_in tokens_out dollars) (record g {
      outstanding = Dict.remove id g.outstanding;
      consumed_tokens = g.consumed_tokens + (tokens_in + tokens_out);
      consumed_dollars = g.consumed_dollars + dollars;
      reconciled_ids = Dict.add id g.reconciled_ids;
    }),
  )
  | none ↦
      if Dict.mem id g.reconciled_ids
      then (ok tt, emit (reconciled_duplicate id) g)
      else (err (reconcile_unknown_token id), emit (unknown_token_reconcile id) g)
]

-- The actual usage that a caller reports.
pub record Usage : Type 0 where
  pub tokens_in : ℕ
  pub tokens_out : ℕ
  pub dollars : ℕ

unfoldable pub checked_usage : (tokens_in tokens_out dollars : ℤ) → Outcome Error Usage
unfolding non_negative
checked_usage tokens_in tokens_out dollars = do
  i ← non_negative actual_in tokens_in
  o ← non_negative actual_out tokens_out
  d ← non_negative actual_dollars dollars
  ok (record { tokens_in = i; tokens_out = o; dollars = d })

unfoldable pub reconcile :
    BudgetToken
    → (tokens_in tokens_out dollars : ℤ) → LlmInvocationGuard
    → Outcome Error (Unit {0}) × LlmInvocationGuard
unfolding checked_usage
reconcile token tokens_in tokens_out dollars g = elim (checked_usage tokens_in tokens_out dollars) [
  | ok u ↦ settle token.id u.tokens_in u.tokens_out u.dollars g
  | err e ↦ (err e, g)
]

pub record BudgetSnapshot : Type 0 where
  pub consumed_tokens : ℕ
  pub consumed_dollars : ℕ
  pub max_tokens : ℕ
  pub max_dollars : ℕ
  pub outstanding_tokens : Dict ℕ
  pub outstanding_dollars : ℕ

abbrev pub outstanding_sum : BudgetSnapshot → ℕ
outstanding_sum s = Dict.sum_values (λ n. n) s.outstanding_tokens

-- Exact: the validator has checked that the subtraction does not go below 0.
unfoldable pub remaining_tokens : BudgetSnapshot → ℕ
remaining_tokens s = s.max_tokens - s.consumed_tokens - outstanding_sum s

unfoldable pub remaining_dollars : BudgetSnapshot → ℕ
remaining_dollars s = s.max_dollars - s.consumed_dollars - s.outstanding_dollars

-- `BudgetSnapshot._invariants`; the two tests for a negative value never fail here.
unfoldable pub validated : BudgetSnapshot → Outcome Error BudgetSnapshot
validated s =
    if ltb s.max_tokens (s.consumed_tokens + outstanding_sum s)
    then err (snapshot_invalid workflow_max_tokens_exceeded)
    else if ltb s.max_dollars (s.consumed_dollars + s.outstanding_dollars)
    then err (snapshot_invalid workflow_max_dollars_exceeded)
    else ok s

unfoldable pub token_view : Dict BudgetToken → Dict ℕ
token_view m = Dict.map_values (λ t. t.precharged_tokens) m

unfoldable pub running_total : LlmInvocationGuard → Outcome Error BudgetSnapshot
unfolding validated token_view
running_total g = validated (record {
  consumed_tokens = g.consumed_tokens;
  consumed_dollars = g.consumed_dollars;
  max_tokens = g.max_tokens;
  max_dollars = g.max_dollars;
  outstanding_tokens = token_view g.outstanding;
  outstanding_dollars = outstanding_dollars g;
})
