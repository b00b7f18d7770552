-- ===== src/Budget/Caps.antt =====
-- budget.py: what a workflow has spent and reserved stays below its caps.
use codewizard_sherpa.Prelude.{
  ℕ, ◌+◌, ◌*◌, inl, inr, ◌≤◌, String, ◌≡◌, refl, Option, some, none, arith, Option-cases,
}
use codewizard_sherpa.Prelude.Dict
use codewizard_sherpa.Prelude.Int.{ℤ, pos, negsuc}
use codewizard_sherpa.Prelude.Outcome.{Outcome, ok, err}
use codewizard_sherpa.Budget.{
  LlmInvocationGuard, Error, BudgetToken, new_token, BudgetSnapshot, Usage, create,
  precharge_positive, precharge, checked_usage, settle, reconcile, outstanding_tokens,
  outstanding_dollars, running_total, outstanding_sum, remaining_tokens, remaining_dollars,
  token_view,
}

pub record IsWithin (g : LlmInvocationGuard) : Type 0 where
  pub tokens : g.consumed_tokens + outstanding_tokens g ≤ g.max_tokens
  pub dollars : g.consumed_dollars + outstanding_dollars g ≤ g.max_dollars

-- The caller reports at most what the token reserved.
abbrev pub IsCovered : Option BudgetToken → Usage → Type 0
IsCovered none u = Unit
IsCovered (some t) u =
    (u.tokens_in + u.tokens_out ≤ t.precharged_tokens) × (u.dollars ≤ t.precharged_dollars)

create-IsWithin :
    (tokens dollars per_call price : ℤ) {g : LlmInvocationGuard}
    → create tokens dollars per_call price ≡ ok g
    → IsWithin g
unfolding create
create-IsWithin tokens dollars per_call price h = ground arith

precharge_positive-IsWithin :
    (id : String) (now n : ℕ) {g : LlmInvocationGuard}
    → IsWithin g
    → IsWithin (precharge_positive id now n g).1
unfolding precharge_positive
precharge_positive-IsWithin id now n {g} h =
    let token = new_token id now n (g.dollars_per_token * n) in
    ground (
      arith,
      Dict.sum_values-put-le (λ (t : BudgetToken). t.precharged_tokens) id token g.outstanding,
      Dict.sum_values-put-le (λ (t : BudgetToken). t.precharged_dollars) id token g.outstanding,
    )

settle-IsWithin :
    (id : String) (u : Usage) {g : LlmInvocationGuard}
    → IsCovered (Dict.get id g.outstanding) u
    → IsWithin g
    → IsWithin (settle id u.tokens_in u.tokens_out u.dollars g).1
unfolding settle
settle-IsWithin id u {g} c h = elim (Option-cases (Dict.get id g.outstanding)) [
  | inl e ↦ rw (e, settle) (ground arith)
  | inr (t, e) ↦
      let covered = rw e at c in
      rw (e, settle)
        (ground (
          arith,
          Dict.sum_values-remove (λ (t : BudgetToken). t.precharged_tokens) id t g.outstanding e,
          Dict.sum_values-remove (λ (t : BudgetToken). t.precharged_dollars) id t g.outstanding e,
        ))
]

precharge-IsWithin :
    (id : String) (now : ℕ) (n : ℤ) {g : LlmInvocationGuard}
    → IsWithin g
    → IsWithin (precharge id now n g).1
unfolding precharge
precharge-IsWithin id now (pos n) {g} h =
    ground (arith, precharge_positive-IsWithin id now n {g = g} h)
precharge-IsWithin id now (negsuc n) h = h

-- One call on the guard, by a caller whose reported usage each reserved token covers.
pub data Step (g : LlmInvocationGuard) : LlmInvocationGuard → Type 0 where
  precharges : (id : String) (now : ℕ) (n : ℤ) → Step g (precharge id now n g).1
  reconciles :
      (token : BudgetToken) (tokens_in tokens_out dollars : ℤ)
      → ((u : Usage)
          → checked_usage tokens_in tokens_out dollars ≡ ok u
          → IsCovered (Dict.get token.id g.outstanding) u)
      → Step g (reconcile token tokens_in tokens_out dollars g).1

pub data Reach (g : LlmInvocationGuard) : LlmInvocationGuard → Type 0 where
  here : Reach g g
  next : {h k : LlmInvocationGuard} → Reach g h → Step h k → Reach g k

reconcile-IsWithin :
    (token : BudgetToken) (i o d : ℤ) {g : LlmInvocationGuard}
    → ((u : Usage) → checked_usage i o d ≡ ok u → IsCovered (Dict.get token.id g.outstanding) u)
    → IsWithin g
    → IsWithin (reconcile token i o d g).1
unfolding reconcile
reconcile-IsWithin token i o d {g} covered h = go (checked_usage i o d) refl
  where
    go : (r : Outcome Error Usage) → checked_usage i o d ≡ r → IsWithin (reconcile token i o d g).1
    go (ok u) e = rw (e, reconcile) (settle-IsWithin token.id u (covered u e) h)
    go (err x) e = rw (e, reconcile) h

Step-IsWithin : {g h : LlmInvocationGuard} → Step g h → IsWithin g → IsWithin h
Step-IsWithin (precharges id now n) w = precharge-IsWithin id now n w
Step-IsWithin (reconciles token i o d c) w = reconcile-IsWithin token i o d c w

Reach-IsWithin : {g h : LlmInvocationGuard} → Reach g h → IsWithin g → IsWithin h
Reach-IsWithin here w = w
Reach-IsWithin (next r s) w = Step-IsWithin s (Reach-IsWithin r w)

-- What the snapshot of a guard within its caps shows.
pub record IsExact (g : LlmInvocationGuard) (s : BudgetSnapshot) : Type 0 where
  pub tokens : s.consumed_tokens + outstanding_sum s + remaining_tokens s ≡ g.max_tokens
  pub dollars : s.consumed_dollars + s.outstanding_dollars + remaining_dollars s ≡ g.max_dollars
  pub consumed : s.consumed_tokens ≡ g.consumed_tokens
  pub reserved : outstanding_sum s ≡ outstanding_tokens g

abbrev snapshot : LlmInvocationGuard → BudgetSnapshot
snapshot g = record {
  consumed_tokens = g.consumed_tokens;
  consumed_dollars = g.consumed_dollars;
  max_tokens = g.max_tokens;
  max_dollars = g.max_dollars;
  outstanding_tokens = token_view g.outstanding;
  outstanding_dollars = outstanding_dollars g;
}

running_total-IsExact :
    (g : LlmInvocationGuard)
    → IsWithin g
    → (s : BudgetSnapshot) × (running_total g ≡ ok s) × IsExact g s
unfolding running_total remaining_tokens remaining_dollars
running_total-IsExact g w =
    let same =
      Dict.sum_values-map_values (λ (t : BudgetToken). t.precharged_tokens) g.outstanding in
    (snapshot g, ground (arith, same), ground (arith, same))

-- Any sequence of calls on a fresh guard, refused calls included, keeps consumption and open
-- reservations within both caps, as long as each settled token covers the usage reported for it.
-- Then `running_total` returns, and consumed, reserved and remaining add up to the cap.
pub reachable-IsWithin_caps :
    (tokens dollars per_call price : ℤ) {g h : LlmInvocationGuard}
    → create tokens dollars per_call price ≡ ok g
    → Reach g h
    → IsWithin h × ((s : BudgetSnapshot) × (running_total h ≡ ok s) × IsExact h s)
reachable-IsWithin_caps tokens dollars per_call price {g} {h} made r =
    let w = Reach-IsWithin r (create-IsWithin tokens dollars per_call price made) in
    (w, running_total-IsExact h w)
