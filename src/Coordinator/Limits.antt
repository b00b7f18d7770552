-- ===== src/Coordinator/Limits.antt =====
-- src/codegenie/coordinator/budget.py: the budget of a probe, and the count of the bytes it writes.
-- `bytes_written / (1024 * 1024) > raw_artifact_mb` is a comparison of the product: the division by
-- a power of two is exact.
use codewizard_sherpa.Prelude.{
  ℕ, ◌+◌, ◌*◌, ◌≤◌, ◌≡◌, ◌↔◌, List, [], ◌∷◌, arith, ltb, if◌then◌else◌, sum_by, Bool-cases, inl,
  inr,
}
use codewizard_sherpa.Prelude.Outcome.{Outcome, ok, err}

pub record ResourceBudget : Type 0 where
  pub rss_mb : ℕ
  pub raw_artifact_mb : ℕ
  pub wall_clock_s : ℕ
  pub raw_artifact_truncate_mb : ℕ

pub data BudgetError : Type 0 where
  value_error : (raw_artifact_truncate_mb raw_artifact_mb : ℕ) → BudgetError
  probe_budget_exceeded : (raw_artifact_mb bytes_written : ℕ) → BudgetError

-- A budget as its constructor leaves it: `__post_init__` raises or keeps it.
unfoldable pub post_init : ResourceBudget → Outcome BudgetError ResourceBudget
post_init b =
    if ltb b.raw_artifact_mb b.raw_artifact_truncate_mb
    then err (value_error b.raw_artifact_truncate_mb b.raw_artifact_mb)
    else ok b

pub record BudgetingContext : Type 0 where
  pub raw_artifact_mb : ℕ
  pub bytes_written : ℕ

abbrev pub bytes_per_mb : ℕ
bytes_per_mb = 1048576

-- The bytes are added also when the call raises.
unfoldable pub report_bytes :
    ℕ → BudgetingContext → Outcome BudgetError (Unit {0}) × BudgetingContext
report_bytes n ctx =
    let written = ctx.bytes_written + n in
    (
      if ltb (ctx.raw_artifact_mb * bytes_per_mb) written
          then err (probe_budget_exceeded ctx.raw_artifact_mb written)
          else ok tt,
      record { raw_artifact_mb = ctx.raw_artifact_mb; bytes_written = written },
    )

-- The reports of a probe that stops at the first one that raises.
unfoldable pub report_all :
    List ℕ → BudgetingContext → Outcome BudgetError (Unit {0}) × BudgetingContext
unfolding report_bytes
report_all [] ctx = (ok tt, ctx)
report_all (n ∷ ns) ctx =
    let (result, after) = report_bytes n ctx in
    let rest = report_all ns after in elim result [ ok _ ↦ rest | err e ↦ (err e, after) ]

abbrev total : List ℕ → ℕ
total = sum_by (λ n. n)

-- A probe within its limit raises nothing while it reports its bytes exactly if the sum of all that
-- it reports is at most the limit, the limit itself included; and then all of them are counted.
pub report_all_iff :
    (ns : List ℕ) (ctx : BudgetingContext)
    → ctx.bytes_written ≤ ctx.raw_artifact_mb * bytes_per_mb
    → (report_all ns ctx ≡ (
      ok tt,
      record {
        raw_artifact_mb = ctx.raw_artifact_mb;
        bytes_written = ctx.bytes_written + total ns;
      },
    ))
      ↔ (ctx.bytes_written + total ns ≤ ctx.raw_artifact_mb * bytes_per_mb)
unfolding report_all report_bytes
report_all_iff [] ctx h = ground arith
report_all_iff (n ∷ ns) ctx h =
    elim (Bool-cases (ltb (ctx.raw_artifact_mb * bytes_per_mb) (ctx.bytes_written + n))) [
      | inl over ↦ ground arith
      | inr within ↦
          let after : BudgetingContext = record {
            raw_artifact_mb = ctx.raw_artifact_mb;
            bytes_written = ctx.bytes_written + n;
          } in
          let (there, back) = report_all_iff ns after (ground arith) in ground (arith, there, back)
    ]
