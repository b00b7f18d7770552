-- ===== src/Coordinator/Gather/Results.antt =====
-- coordinator.py: what `gather` returns and raises.
use codewizard_sherpa.Prelude.{
  ◌≡◌, refl, ap, inl, inr, Bool, true, Option, some, List, [], ◌∷◌, String, map, arith, Bool-cases,
  str_eq,
}
use mathlib.Core.List.{Memᴰ}
use mathlib.Core.List.Memᴰ.{head, tail}
use mathlib.Core.List.Memᴰ
use codewizard_sherpa.Prelude.Dict
use codewizard_sherpa.Prelude.Dict.{Dict}
use codewizard_sherpa.Prelude.Int.{ℤ}
use codewizard_sherpa.Prelude.Outcome.{ok, err, Outcome-cases}
use codewizard_sherpa.Coordinator.{
  Probe, RepoSnapshot, Environment, ProbeExecution, Interrupt, dispatch_one,
}
use codewizard_sherpa.Coordinator.Isolation.{Raises, dispatch_one-err_iff}
use codewizard_sherpa.Coordinator.Waves.{probe_of}
use codewizard_sherpa.Coordinator.Gather.{
  GatherError, interrupt, GatherResult, select, record_result, record_results, dispatch_wave,
}

pub select-Mem :
    (test : Probe → Bool) (p : Probe) (probes : List Probe)
    → Memᴰ p (select test probes)
    → Memᴰ p probes
unfolding select
select-Mem test p [] m = m
select-Mem test p (q ∷ probes) m = elim (Bool-cases (test q)) [
  | inr e ↦ tail (select-Mem test p probes (rw e at m))
  | inl e ↦ elim (Memᴰ.cases_cons (rw e at m)) [
    | inl i ↦ head i
    | inr k ↦ tail (select-Mem test p probes k)
  ]
]

pub Mem-select :
    (test : Probe → Bool) (p : Probe) (probes : List Probe)
    → Memᴰ p probes
    → test p ≡ true
    → Memᴰ p (select test probes)
unfolding select
Mem-select test p [] m h = m
Mem-select test p (q ∷ probes) (head i) h = let e : test q ≡ true = rw⁻¹ i h in rw e (head i)
Mem-select test p (q ∷ probes) (tail m) h = elim (Bool-cases (test q)) [
  | inl e ↦ rw e (tail (Mem-select test p probes m h))
  | inr e ↦ rw e (Mem-select test p probes m h)
]

-- The execution is there under the name.
abbrev pub HasExecution : String → GatherResult → Type 0
HasExecution name r = (e : ProbeExecution) × (Dict.get name r.executions ≡ some e)

record_result-HasExecution :
    (name : String) (x : Probe × ProbeExecution) (r : GatherResult)
    → HasExecution name r
    → HasExecution name (record_result x r)
unfolding record_result
record_result-HasExecution name (p, e) r (d, h) = elim (Bool-cases (str_eq p.name name)) [
  | inl i ↦ (e, ground (arith, Dict.get-put p.name name e r.executions))
  | inr i ↦ (d, ground (arith, Dict.get-put p.name name e r.executions))
]

pub record_results-HasExecution :
    (name : String) (xs : List (Probe × ProbeExecution)) (r : GatherResult)
    → HasExecution name r
    → HasExecution name (record_results xs r)
unfolding record_results
record_results-HasExecution name [] r h = h
record_results-HasExecution name (x ∷ xs) r h =
    record_results-HasExecution name xs (record_result x r) (record_result-HasExecution name x r h)

pub Mem-HasExecution :
    (p : Probe) (xs : List (Probe × ProbeExecution)) (r : GatherResult)
    → Memᴰ p (map probe_of xs)
    → HasExecution p.name (record_results xs r)
unfolding record_results record_result
Mem-HasExecution p [] r m = elim m [ ]
Mem-HasExecution p ((q, e) ∷ xs) r (head i) = rw i (
    record_results-HasExecution q.name xs (record_result (q, e) r)
      (e, Dict.get-put_self q.name e r.executions))
Mem-HasExecution p (x ∷ xs) r (tail m) = Mem-HasExecution p xs (record_result x r) m

module _ (int_of_string : String → Option ℤ) {Cache : Type 0} (env : Environment Cache) where
  pub dispatch_wave-probes :
      (probes : List Probe) (s : RepoSnapshot) (c : Cache) (xs : List (Probe × ProbeExecution))
      (after : Cache)
      → dispatch_wave int_of_string env probes s c ≡ ok (xs, after)
      → map probe_of xs ≡ probes
  unfolding dispatch_wave
  dispatch_wave-probes [] s c xs after h = let e : [] ≡ xs = ground arith in rw⁻¹ e refl
  dispatch_wave-probes (p ∷ probes) s c xs after h = elim (Outcome-cases (dispatch_one env p s c)) [
    | inl (i, e) ↦ absurd (ground arith)
    | inr ((x, d), e) ↦ elim (Outcome-cases (dispatch_wave int_of_string env probes s d)) [
      | inl (i, k) ↦ absurd (ground arith)
      | inr ((ys, f), k) ↦
          let below = dispatch_wave-probes probes s d ys f k in
          let all : (p, x) ∷ ys ≡ xs = ground arith in rw⁻¹ all (ap (λ l. p ∷ l) below)
    ]
  ]

  pub dispatch_wave-interrupt :
      (probes : List Probe) (s : RepoSnapshot) (c : Cache) (g : GatherError)
      → dispatch_wave int_of_string env probes s c ≡ err g
      → (p : Probe) × (i : Interrupt) × Memᴰ p probes × (g ≡ interrupt i) × Raises env p s i
  unfolding dispatch_wave
  dispatch_wave-interrupt [] s c g h = absurd (ground arith)
  dispatch_wave-interrupt (p ∷ probes) s c g h = elim (Outcome-cases (dispatch_one env p s c)) [
    | inl (i, e) ↦ (p, i, head refl, ground arith, ((dispatch_one-err_iff env p s c i).0 e).1)
    | inr ((x, d), e) ↦ elim (Outcome-cases (dispatch_wave int_of_string env probes s d)) [
      | inl (f, k) ↦
          let (q, j, m, l, run) = dispatch_wave-interrupt probes s d f k in
          (q, j, tail m, ground arith, run)
      | inr ((ys, f), k) ↦ absurd (ground arith)
    ]
  ]
