-- ===== src/Coordinator/Isolation.antt =====
-- coordinator.py: what a dispatch does to its caller and to the cache.
use codewizard_sherpa.Prelude.{
  ℕ, String, ◌≡◌, refl, ◌↔◌, ◌⊎◌, inl, inr, true, false, none, some, arith, Bool-cases,
  Option-cases,
}
use codewizard_sherpa.Prelude.Outcome.{ok, err, Outcome-cases, ◌>>=◌}
use codewizard_sherpa.Coordinator.{
  Environment, Probe, ProbeOutput, RepoSnapshot, RunResult, returned, timed_out, budget_exceeded,
  interrupted, raised, ProbeExecution, ran, cache_hit, Interrupt, Isolated, output, failure,
  run_probe_with_isolation, timeout_of, checked_output, build_failure_output, store_clean, begin,
  finish, dispatch_with, dispatch_one, has_errors, timed, timeout, raw_artifact_mb_exceeded,
  raised_error, ErrorText,
}

-- A run is interrupted, returns, or fails with an error, whatever its timeout.
RunResult-cases :
    (r : RunResult)
    → ((t : String) × (r ≡ interrupted t))
      ⊎ (((po : ProbeOutput) × (r ≡ returned po))
          ⊎ ((x : ℕ → ErrorText) × ((n : ℕ) → run_probe_with_isolation n r ≡ ok (failure (x n)))))
unfolding run_probe_with_isolation
RunResult-cases (returned po) = inr (inl (po, refl))
RunResult-cases timed_out = inr (inr (timeout, λ n. refl))
RunResult-cases (budget_exceeded m) = inr (inr (λ n. raw_artifact_mb_exceeded m, λ n. refl))
RunResult-cases (interrupted t) = inl (t, refl)
RunResult-cases (raised t m) = inr (inr (λ n. raised_error t m, λ n. refl))

isolation-err :
    (n : ℕ) (r : RunResult) (i : Interrupt)
    → run_probe_with_isolation n r ≡ err i
    → r ≡ interrupted i.type_name
unfolding run_probe_with_isolation
isolation-err n (returned po) i h = absurd (ground arith)
isolation-err n timed_out i h = absurd (ground arith)
isolation-err n (budget_exceeded m) i h = absurd (ground arith)
isolation-err n (interrupted t) i h = ground arith
isolation-err n (raised t m) i h = absurd (ground arith)

isolation-output :
    (n : ℕ) (r : RunResult) (po : ProbeOutput)
    → run_probe_with_isolation n r ≡ ok (output po)
    → r ≡ returned po
unfolding run_probe_with_isolation
isolation-output n (returned po) i h = ground arith
isolation-output n timed_out i h = absurd (ground arith)
isolation-output n (budget_exceeded m) i h = absurd (ground arith)
isolation-output n (interrupted t) i h = absurd (ground arith)
isolation-output n (raised t m) i h = absurd (ground arith)

module _ {Cache : Type 0} (env : Environment Cache) where
  -- The probe applies and the cache has nothing for it.
  abbrev pub IsRun : Probe → RepoSnapshot → Cache → Type 0
  IsRun p s c = (p.applies s ≡ true) × (env.cache_get (env.key_for p s) c ≡ none)

  -- The output that goes to the sanitizer.
  abbrev pub IsChecked : Probe → RepoSnapshot → ProbeOutput → Type 0
  IsChecked p s o =
      (isolated : Isolated) × (run_probe_with_isolation (timeout_of p) (p.run s) ≡ ok isolated)
      × (checked_output env (p.elapsed_ms s) isolated ≡ ok o)

  -- What lets an exception out of a dispatch that runs its probe: the snapshot of the inputs, or else
  -- a run that is cancelled or interrupted, the validator on what the run returned, or the sanitizer.
  abbrev pub Raises : Probe → RepoSnapshot → Interrupt → Type 0
  Raises p s i =
      (env.input_snapshot p s.root ≡ some i)
      ⊎ ((env.input_snapshot p s.root ≡ none)
          × ((p.run s ≡ interrupted i.type_name)
              ⊎ (((po : ProbeOutput) × (p.run s ≡ returned po)
                    × (env.validate po.schema_slice po.confidence ≡ err i))
                  ⊎ ((o : ProbeOutput) × IsChecked p s o × (env.scrub o ≡ err i)))))

  checked_output-err :
      (n : ℕ) (isolated : Isolated) (i : Interrupt)
      → checked_output env n isolated ≡ err i
      → (po : ProbeOutput) × (isolated ≡ output po)
        × (env.validate po.schema_slice po.confidence ≡ err i)
  unfolding checked_output
  checked_output-err n (failure error) i h = absurd (ground arith)
  checked_output-err n (output po) i h =
      elim (Outcome-cases (env.validate po.schema_slice po.confidence)) [
        | inl (j, v) ↦ (po, refl, ground arith)
        | inr (found, v) ↦ elim (Option-cases found) [
          | inl f ↦ absurd (ground arith)
          | inr (error, f) ↦ absurd (ground arith)
        ]
      ]

  finish-Raises :
      (p : Probe) (s : RepoSnapshot) (k : String) (c : Cache) (i : Interrupt)
      → env.input_snapshot p s.root ≡ none
      → finish env p (p.run s) (p.elapsed_ms s) k c ≡ err i
      → Raises p s i
  unfolding finish
  finish-Raises p s k c i n h =
      elim (Outcome-cases (run_probe_with_isolation (timeout_of p) (p.run s))) [
        | inl (j, e) ↦ inr (n, inl (isolation-err (timeout_of p) (p.run s) i (ground arith)))
        | inr (isolated, e) ↦ elim (Outcome-cases (checked_output env (p.elapsed_ms s) isolated)) [
          | inl (j, v) ↦
              let (po, same, refused) =
                checked_output-err (p.elapsed_ms s) isolated i (ground arith) in
              inr (
                n,
                inr (
                    inl (po, isolation-output (timeout_of p) (p.run s) po (ground arith), refused)),
              )
          | inr (o, v) ↦ elim (Outcome-cases (env.scrub o)) [
            | inl (j, x) ↦ inr (n, inr (inr (o, (isolated, e, v), ground arith)))
            | inr (clean, x) ↦ absurd (ground arith)
          ]
        ]
      ]

  Raises-finish :
      (p : Probe) (s : RepoSnapshot) (k : String) (c : Cache) (i : Interrupt)
      → env.input_snapshot p s.root ≡ none
      → Raises p s i
      → finish env p (p.run s) (p.elapsed_ms s) k c ≡ err i
  unfolding finish run_probe_with_isolation checked_output
  Raises-finish p s k c i n (inl r) = absurd (ground arith)
  Raises-finish p s k c i n (inr (_, inl r)) = ground arith
  Raises-finish p s k c i n (inr (_, inr (inl (po, r, v)))) = ground arith
  Raises-finish p s k c i n (inr (_, inr (inr (o, (isolated, e, v), x)))) = rw (e, v, x) refl

  -- A dispatch raises exactly if it runs its probe, since the probe applies and the cache has nothing
  -- for it, and the snapshot of the inputs raises, or the run is cancelled or interrupted, or the
  -- validator raises another exception than a `ValidationError`, or the sanitizer raises; a timeout,
  -- a broken budget and any other exception of the run stay inside it. Exceptions out of `applies`
  -- and the cache are left out.
  pub dispatch_one-err_iff :
      (p : Probe) (s : RepoSnapshot) (c : Cache) (i : Interrupt)
      → (dispatch_one env p s c ≡ err i) ↔ (IsRun p s c × Raises p s i)
  unfolding dispatch_one dispatch_with begin
  dispatch_one-err_iff p s c i = (
    λ h. elim (Bool-cases (p.applies s)) [
      | inr a ↦ absurd (ground arith)
      | inl a ↦ elim (Option-cases (env.cache_get (env.key_for p s) c)) [
        | inr (o, k) ↦ absurd (ground arith)
        | inl k ↦ elim (Option-cases (env.input_snapshot p s.root)) [
          | inr (j, n) ↦ ((a, k), inl (ground arith))
          | inl n ↦ ((a, k), finish-Raises p s (env.key_for p s) c i n (ground arith))
        ]
      ]
    ],
    λ ((a, k), r). elim (Option-cases (env.input_snapshot p s.root)) [
      | inr (j, n) ↦ elim r [ inl m ↦ ground arith | inr m ↦ absurd (ground (arith, m.0)) ]
      | inl n ↦ ground (arith, Raises-finish p s (env.key_for p s) c i n r)
    ],
  )

  -- The outputs that the cache is given: clean, from a run that returned one without errors which
  -- the validator accepts.
  abbrev pub IsClean : Probe → RepoSnapshot → ProbeOutput → Type 0
  IsClean p s o =
      (has_errors o ≡ false)
      × ((po : ProbeOutput) × (p.run s ≡ returned po)
          × (has_errors po ≡ false)
          × (env.validate po.schema_slice po.confidence ≡ ok none)
          × (env.scrub (timed (p.elapsed_ms s) po) ≡ ok o))

  module _
      (scrub-errors : (po o : ProbeOutput)
        → env.scrub po ≡ ok o
        → has_errors o ≡ has_errors po) where
    -- The execution is of the sanitized output `o`, which the cache is given if it is clean.
    abbrev Finishes :
        Probe
        → RepoSnapshot
        → (k : String) → (c after : Cache) → ProbeExecution
        → ProbeOutput
        → Type 0
    Finishes p s k c after e o =
        (e ≡ ran o k)
        × (((has_errors o ≡ true) × (after ≡ c)) ⊎ (IsClean p s o × (after ≡ env.cache_put k o c)))

    finish-Finishes :
        (p : Probe) (s : RepoSnapshot) (c after : Cache) (k : String) (e : ProbeExecution)
        → finish env p (p.run s) (p.elapsed_ms s) k c ≡ ok (e, after)
        → (o : ProbeOutput) × Finishes p s k c after e o
    unfolding finish store_clean checked_output build_failure_output run_probe_with_isolation
    finish-Finishes p s c after k e h =
        let d = p.elapsed_ms s in
        elim (RunResult-cases (p.run s)) [
          | inl (t, i) ↦ absurd (ground arith)
          | inr (inr (x, i)) ↦
              dirty_end (build_failure_output (x (timeout_of p)) d) refl
                (ground (arith, i (timeout_of p)))
          | inr (inl (po, i)) ↦ elim (Outcome-cases (env.validate po.schema_slice po.confidence)) [
            | inl (j, v) ↦ absurd (ground arith)
            | inr (found, v) ↦ elim (Option-cases found) [
              | inr (error, f) ↦ dirty_end (build_failure_output error d) refl (ground arith)
              | inl f ↦ elim (Outcome-cases (env.scrub (timed d po))) [
                | inl (j, x) ↦ absurd (ground arith)
                | inr (o, x) ↦
                    let kept : has_errors o ≡ has_errors po = scrub-errors (timed d po) o x in
                    elim (Bool-cases (has_errors o)) [
                      | inl dirty ↦ (o, (ground arith, inl (dirty, ground arith)))
                      | inr clean ↦ (
                        o,
                        (
                          ground arith,
                          inr ((clean, (po, i, ground arith, ground arith, x)), ground arith),
                        ),
                      )
                    ]
              ]
            ]
          ]
        ]
      where
        dirty_end :
            (po : ProbeOutput)
            → has_errors po ≡ true
            → (◌>>=◌ {B = ProbeExecution × Cache}
                (env.scrub po)
                (λ o. ok (ran o k, store_clean env k o c)))
              ≡ ok (e, after)
            → (o : ProbeOutput) × Finishes p s k c after e o
        dirty_end po d ends = elim (Outcome-cases (env.scrub po)) [
          | inl (j, x) ↦ absurd (ground arith)
          | inr (o, x) ↦
              let dirty : has_errors o ≡ true = ground (arith, scrub-errors po o x) in
              (o, (ground arith, inl (dirty, ground arith)))
        ]

    dispatch-cases :
        (p : Probe) (s : RepoSnapshot) (c after : Cache) (e : ProbeExecution)
        → dispatch_one env p s c ≡ ok (e, after)
        → (after ≡ c)
          ⊎ (IsRun p s c
              × (finish env p (p.run s) (p.elapsed_ms s) (env.key_for p s) c ≡ ok (e, after)))
    unfolding dispatch_one dispatch_with begin
    dispatch-cases p s c after e h = elim (Bool-cases (p.applies s)) [
      | inr a ↦ inl (ground arith)
      | inl a ↦ elim (Option-cases (env.cache_get (env.key_for p s) c)) [
        | inr (o, k) ↦ inl (ground arith)
        | inl k ↦ elim (Option-cases (env.input_snapshot p s.root)) [
          | inl n ↦ inr ((a, k), ground arith)
          | inr (i, n) ↦ absurd (ground arith)
        ]
      ]
    ]

    -- If the sanitizer keeps whether there are errors, a dispatch leaves the cache as it was, or it
    -- ran the probe, for which the cache had nothing, and puts in its output, which has no errors:
    -- the sanitized form of what the run returned and the validator accepted.
    pub dispatch_one-IsClean :
        (p : Probe) (s : RepoSnapshot) (c after : Cache) (e : ProbeExecution)
        → dispatch_one env p s c ≡ ok (e, after)
        → (after ≡ c)
          ⊎ ((o : ProbeOutput) × IsRun p s c
              × (e ≡ ran o (env.key_for p s))
              × IsClean p s o
              × (after ≡ env.cache_put (env.key_for p s) o c))
    dispatch_one-IsClean p s c after e h = elim (dispatch-cases p s c after e h) [
      | inl same ↦ inl same
      | inr (run, f) ↦
          let (o, (i, stored)) = finish-Finishes p s c after (env.key_for p s) e f in
          elim stored [ inl (_, same) ↦ inl same | inr (clean, put) ↦ inr (o, run, i, clean, put) ]
    ]

    -- A probe that was run and gave an output without errors is answered from the cache with that
    -- output when it is dispatched again, and the cache then stays as it is; if the cache gives
    -- back what it was given.
    pub redispatch_hits :
        ((k : String) (o : ProbeOutput) (c : Cache)
          → env.cache_get k (env.cache_put k o c) ≡ some o)
        → (p : Probe) (s : RepoSnapshot) (c after : Cache) (o : ProbeOutput) → IsRun p s c
        → has_errors o ≡ false
        → dispatch_one env p s c ≡ ok (ran o (env.key_for p s), after)
        → dispatch_one env p s after ≡ ok (cache_hit o (env.key_for p s), after)
    unfolding dispatch_one dispatch_with begin
    redispatch_hits get_put p s c after o (applies, miss) clean h =
        let f : finish env p (p.run s) (p.elapsed_ms s) (env.key_for p s) c
            ≡ ok (ran o (env.key_for p s), after) =
          ground arith in
        let (x, (i, stored)) =
          finish-Finishes p s c after (env.key_for p s) (ran o (env.key_for p s)) f in
        elim stored [
          | inl (dirty, _) ↦ absurd (ground arith)
          | inr (_, put) ↦ ground (arith, get_put (env.key_for p s) o c)
        ]
