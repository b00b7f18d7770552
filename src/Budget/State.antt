-- ===== src/Budget/State.antt =====
-- The state of the guard, its errors and events, and its constructor.
use codewizard_sherpa.Prelude.{ℕ, String, List, [], ◌==◌, if◌then◌else◌, ◌∷◌, ◌++◌}
use codewizard_sherpa.Prelude.Dict.{Dict}
use codewizard_sherpa.Prelude.Int.{ℤ, pos, negsuc}
use codewizard_sherpa.Prelude.Outcome.{Outcome, ok, err, ◌>>=◌}

pub data CapReason : Type 0 where
  per_call_max_exceeded workflow_max_tokens_exceeded workflow_max_dollars_exceeded : CapReason

-- The argument that a `ValueError` names.
pub data Argument : Type 0 where
  max_tokens max_dollars per_call_max_tokens dollars_per_token : Argument
  requested_tokens actual_in actual_out actual_dollars : Argument

-- `snapshot_invalid` is the model validator of `BudgetSnapshot`.
pub data Error : Type 0 where
  value_error : Argument → Error
  budget_exceeded : CapReason → (projected max : ℕ) → Error
  reconcile_unknown_token : String → Error
  snapshot_invalid : CapReason → Error

-- The payloads of the events; their ids and time stamps are filled in by the log.
pub data Event : Type 0 where
  cap_exceeded : CapReason → Event
  precharged : (token_id : String) (tokens dollars : ℕ) → Event
  reconciled : (token_id : String) (tokens_in tokens_out dollars : ℕ) → Event
  reconciled_duplicate : (token_id : String) → Event
  unknown_token_reconcile : (token_id : String) → Event

pub record BudgetToken : Type 0 where
  pub id : String
  pub precharged_tokens : ℕ
  pub precharged_dollars : ℕ
  pub issued_at : ℕ

pub record LlmInvocationGuard : Type 0 where
  pub max_tokens : ℕ
  pub max_dollars : ℕ
  pub per_call_max_tokens : ℕ
  pub dollars_per_token : ℕ
  pub consumed_tokens : ℕ
  pub consumed_dollars : ℕ
  pub outstanding : Dict BudgetToken
  pub reconciled_ids : List String
  pub event_log : List Event

unfoldable pub non_negative : Argument → ℤ → Outcome Error ℕ
non_negative a (pos n) = ok n
non_negative a (negsuc n) = err (value_error a)

unfoldable pub positive : Argument → ℤ → Outcome Error ℕ
positive a (pos n) = if n == 0 then err (value_error a) else ok n
positive a (negsuc n) = err (value_error a)

-- `LlmInvocationGuard.__init__`
unfoldable pub create : (tokens dollars per_call price : ℤ) → Outcome Error LlmInvocationGuard
unfolding non_negative positive
create tokens dollars per_call price = do
  t ← non_negative max_tokens tokens
  d ← non_negative max_dollars dollars
  c ← positive per_call_max_tokens per_call
  p ← non_negative dollars_per_token price
  ok (record {
    max_tokens = t;
    max_dollars = d;
    per_call_max_tokens = c;
    dollars_per_token = p;
    consumed_tokens = 0;
    consumed_dollars = 0;
    outstanding = [];
    reconciled_ids = [];
    event_log = [];
  })

-- `EventLog.emit_internal`
unfoldable pub emit : Event → LlmInvocationGuard → LlmInvocationGuard
emit e g = record g { event_log = g.event_log ++ e ∷ [] }
