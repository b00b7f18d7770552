-- ===== src/Budget/Tests.antt =====
-- The budget guard on small inputs, and its theorems at inputs that meet their hypotheses.
use codewizard_sherpa.Prelude.{◌≡◌, ◌≢◌, refl, ◌↔◌, some, [], arith}
use codewizard_sherpa.Prelude.Dict
use codewizard_sherpa.Prelude.Int.{pos, negsuc}
use codewizard_sherpa.Prelude.Outcome.{Outcome, ok, err}
use codewizard_sherpa.Budget.{
  LlmInvocationGuard, snapshot_invalid, workflow_max_tokens_exceeded, BudgetToken, new_token,
  create, precharge, precharge_positive, reconcile, running_total, BudgetSnapshot,
}
use codewizard_sherpa.Budget.Caps.{
  IsWithin, IsExact, Reach, here, next, precharges, reachable-IsWithin_caps,
}
use codewizard_sherpa.Budget.Admission.{IsAdmissible, precharge-ok_iff}
use codewizard_sherpa.Budget.Settling.{running_total_overrun}

abbrev fresh : LlmInvocationGuard
fresh = record {
  max_tokens = 100;
  max_dollars = 1000;
  per_call_max_tokens = 60;
  dollars_per_token = 3;
  consumed_tokens = 0;
  consumed_dollars = 0;
  outstanding = [];
  reconciled_ids = [];
  event_log = [];
}

abbrev first : BudgetToken
first = new_token "a" 7 40 120

abbrev busy : LlmInvocationGuard
busy = (precharge "a" 7 (pos 40) fresh).1

create-fresh : create (pos 100) (pos 1000) (pos 60) (pos 3) ≡ ok fresh
unfolding create
create-fresh = refl

create_negative : Outcome.ok fresh ≢ create (pos 100) (negsuc 0) (pos 60) (pos 3)
unfolding create
create_negative = cc

busy-reached : Reach fresh busy
busy-reached = next here (precharges "a" 7 (pos 40))

open_token : Dict.get "a" busy.outstanding ≡ some first
unfolding precharge precharge_positive Dict.get Dict.put
open_token = refl

reachable-IsWithin_caps_example :
    IsWithin busy × ((s : BudgetSnapshot) × (running_total busy ≡ ok s) × IsExact busy s)
reachable-IsWithin_caps_example =
    reachable-IsWithin_caps (pos 100) (pos 1000) (pos 60) (pos 3) create-fresh busy-reached

precharge-ok_iff_example : ((precharge "a" 7 (pos 40) fresh).0 ≡ ok first) ↔ IsAdmissible 40 fresh
precharge-ok_iff_example = precharge-ok_iff "a" 7 40 fresh

running_total_overrun_example :
    ((reconcile first (pos 90) (pos 70) (pos 1) busy).0 ≡ ok tt)
    × (running_total (reconcile first (pos 90) (pos 70) (pos 1) busy).1
        ≡ err (snapshot_invalid workflow_max_tokens_exceeded))
unfolding precharge precharge_positive Dict.put
running_total_overrun_example =
    running_total_overrun first first 90 70 1 busy open_token (omega arith)
