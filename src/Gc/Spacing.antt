-- ===== src/Gc/Spacing.antt =====
-- When the amortised run runs, and how often it does as the clock goes on.
use Prim.Native.Nat.{◌≤◌}
use codewizard_sherpa.Prelude.{
  ℕ, ◌+◌, ◌*◌, ◌<◌, ◌≡◌, refl, ◌↔◌, ◌⊎◌, inl, inr, true, false, Option, none, some, Option-cases,
  ap, List, [], ◌∷◌, arith, Bool-cases,
}
use codewizard_sherpa.Prelude.Outcome.{Outcome, ok, err, Outcome-cases}
use codewizard_sherpa.Gc.Ttl.{GcError}
use codewizard_sherpa.Gc.Walking.{second, Child, Walk}
use codewizard_sherpa.Gc.Collector.{
  amortization_seconds, Reading, at, nan, infinite, should_run_amortized, Clock, CacheGcResult,
  Stamp, holds, CacheDir, BundleCacheGc, Ran, run, emit, finish, run_with, resolved_ttl_seconds,
  read_stamp, write_stamp, run_amortized,
}

abbrev pub day : ℕ
day = amortization_seconds * second

-- The run is not due: the last one is no later than now and less than a day ago, or the stamp reads
-- as `nan`.
abbrev pub IsFresh : ℕ → Reading → Type 0
IsFresh now (at t) = (t ≤ now) × (now < t + day)
IsFresh now nan = Unit
IsFresh now infinite = true ≡ false

IsFresh-iff :
    (now : ℕ) (reading : Reading)
    → (should_run_amortized now reading amortization_seconds ≡ false) ↔ IsFresh now reading
unfolding should_run_amortized
IsFresh-iff now (at t) = ground arith
IsFresh-iff now nan = (λ _. tt, λ _. refl)
IsFresh-iff now infinite = (λ h. h, λ h. h)

module _ (gc : BundleCacheGc) where
  emit_dir : (result : CacheGcResult) (dir : CacheDir) → (emit gc result dir).dir ≡ dir
  unfolding emit
  emit_dir result dir = elim (Option-cases gc.event_emitter) [
    | inl n ↦ rw n refl
    | inr (e, p) ↦ rw p refl
  ]

  finish_dir :
      (clock : Clock) (ttl : ℕ) (dir : CacheDir) (walk : Walk)
      → (finish gc clock ttl dir walk).dir ≡ dir
  unfolding finish
  finish_dir clock ttl dir walk = elim (Option-cases walk.raised) [
    | inl n ↦ rw n (emit_dir _ dir)
    | inr (e, p) ↦ rw p refl
  ]

  run_with_stamp :
      (clock : Clock) (ttl : ℕ) (bundles : Option (List Child)) (s : Stamp)
      → (run_with gc clock ttl (record { bundles = bundles; stamp = s })).dir.stamp ≡ s
  unfolding run_with
  run_with_stamp clock ttl none s = ap (λ d. d.stamp) (finish_dir clock ttl _ _)
  run_with_stamp clock ttl (some children) s = ap (λ d. d.stamp) (finish_dir clock ttl _ _)

  run_stamp : (clock : Clock) (dir : CacheDir) → (run gc clock dir).dir.stamp ≡ dir.stamp
  unfolding run
  run_stamp clock dir = elim (Outcome-cases (resolved_ttl_seconds gc)) [
    | inl (e, p) ↦ rw (p, run) refl
    | inr (ttl, p) ↦ rw (p, run) (run_with_stamp clock ttl dir.bundles dir.stamp)
  ]

  written :
      (now : ℕ) (ran : Ran CacheGcResult)
      → ((r : CacheGcResult) × ((write_stamp now ran).outcome ≡ ok (some r))
          × ((write_stamp now ran).dir.stamp ≡ holds (at now)))
        ⊎ ((e : GcError) × ((write_stamp now ran).outcome ≡ err e)
            × ((write_stamp now ran).dir ≡ ran.dir))
  unfolding write_stamp
  written now ran = elim (Outcome-cases ran.outcome) [
    | inl (e, p) ↦ rw p (inr (e, refl, refl))
    | inr (r, p) ↦ rw p (inl (r, refl, refl))
  ]

  call_cases :
      (clock : Clock) (dir : CacheDir)
      → ((e : GcError) × (read_stamp dir.stamp ≡ err e)
          × (run_amortized gc clock dir ≡ record { outcome = err e; dir = dir; emitted = [] }))
        ⊎ ((reading : Reading) × (read_stamp dir.stamp ≡ ok reading)
            × ((IsFresh clock.decided reading
                  × (run_amortized gc clock dir
                      ≡ record { outcome = ok none; dir = dir; emitted = [] }))
                ⊎ ((¬ IsFresh clock.decided reading)
                    × (run_amortized gc clock dir ≡ write_stamp clock.stamped (run gc clock dir)))))
  unfolding run_amortized
  call_cases clock dir = elim (Outcome-cases (read_stamp dir.stamp)) [
    | inl (e, p) ↦ inl (e, p, rw (p, run_amortized) refl)
    | inr (reading, p) ↦ inr (
      reading,
      p,
      elim (Bool-cases (should_run_amortized clock.decided reading amortization_seconds)) [
        | inl due ↦ inr (
          (λ f. ground (arith, due, (IsFresh-iff clock.decided reading).1 f)),
          rw (run_amortized, p, due) refl,
        )
        | inr late ↦
            inl ((IsFresh-iff clock.decided reading).0 late, rw (run_amortized, p, late) refl)
      ],
    )
  ]

  due_unlike :
      (stamp : Stamp) {now : ℕ} {reading : Reading}
      → read_stamp stamp ≡ ok reading
      → ¬ IsFresh now reading
      → ¬ ((other : Reading) × (read_stamp stamp ≡ ok other) × IsFresh now other)
  due_unlike stamp {reading = reading} p s (other, k, f) =
      let same : reading ≡ other = ground (arith, p, k) in s (rw same f)

  overdue :
      {now last : ℕ} {reading : Reading}
      → read_stamp (holds (at last)) ≡ ok reading
      → ¬ IsFresh now reading
      → last ≤ now
      → last + day ≤ now
  unfolding read_stamp
  overdue {now = now} {last = last} p s l =
      let late : ¬ IsFresh now (at last) =
        λ f. due_unlike (holds (at last)) p s (at last, refl, f) in
      ground (arith, late, l)

  -- The amortised run does nothing exactly if the stamp can be read and is fresh: it is of a time
  -- no later than now and less than a day ago, or it reads as `nan`. The directory and its stamp
  -- are left as they were then, and no event is emitted.
  pub run_amortized-none_iff :
      (clock : Clock) (dir : CacheDir)
      → let ran = run_amortized gc clock dir in
        ((ran.outcome ≡ ok none) ↔ (
          (reading : Reading) × (read_stamp dir.stamp ≡ ok reading)
          × IsFresh clock.decided reading))
        × (ran.outcome ≡ ok none → (ran.dir ≡ dir) × (ran.emitted ≡ []))
  run_amortized-none_iff clock dir = elim (call_cases clock dir) [
    | inl (e, p, q) ↦
        rw q (
          (λ h. ground (arith, h), λ (reading, o, f). ground (arith, p, o)),
          λ h. ground (arith, h),
        )
    | inr (reading, p, inl (f, q)) ↦ rw q ((λ _. (reading, p, f), λ _. refl), λ _. (refl, refl))
    | inr (reading, p, inr (s, q)) ↦ elim (written clock.stamped (run gc clock dir)) [
      | inl (r, o, d) ↦
          rw (q, o)
            (
              (λ h. ground (arith, h), λ g. absurd (due_unlike dir.stamp p s g)),
              λ h. ground (arith, h),
            )
      | inr (e, o, d) ↦
          rw (q, o)
            (
              (λ h. ground (arith, h), λ g. absurd (due_unlike dir.stamp p s g)),
              λ h. ground (arith, h),
            )
    ]
  ]

-- A call: its clock, and the directory of bundles that it finds.
abbrev pub Visit : Type 0
Visit = Clock × Option (List Child)

abbrev pub runs_of : Outcome GcError (Option CacheGcResult) → ℕ
runs_of (ok (some r)) = 1
runs_of (ok none) = 0
runs_of (err e) = 0

-- How many of the calls run and return, not counting a run that raises, where each call finds the stamp that the one before left.
abbrev pub runs : BundleCacheGc → Stamp → List Visit → ℕ
runs gc s [] = 0
runs gc s ((clock, bundles) ∷ visits) =
    let ran = run_amortized gc clock (record { bundles = bundles; stamp = s }) in
    runs_of ran.outcome + runs gc ran.dir.stamp visits

-- From one time to another the clock does not go back, in a call or between calls.
abbrev pub AreOrdered : ℕ → List Visit → ℕ → Type 0
AreOrdered begin [] end = begin ≤ end
AreOrdered begin ((clock, bundles) ∷ visits) end =
    (begin ≤ clock.decided) × (clock.decided ≤ clock.stamped) × AreOrdered clock.stamped visits end

module _ (gc : BundleCacheGc) where
  -- What one call does to the count and to a stamp of a time.
  visit_step :
      (clock : Clock) (bundles : Option (List Child)) (last : ℕ)
      → last ≤ clock.decided
      → let ran = run_amortized gc clock (record { bundles = bundles; stamp = holds (at last) }) in
        ((runs_of ran.outcome ≡ 1)
          × (ran.dir.stamp ≡ holds (at clock.stamped))
          × (last + day ≤ clock.decided))
        ⊎ ((runs_of ran.outcome ≡ 0) × (ran.dir.stamp ≡ holds (at last)))
  unfolding read_stamp
  visit_step clock bundles last l =
      let dir : CacheDir = record { bundles = bundles; stamp = holds (at last) } in
      elim (call_cases gc clock dir) [
        | inl (e, p, q) ↦ rw q (inr (refl, refl))
        | inr (reading, p, inl (f, q)) ↦ rw q (inr (refl, refl))
        | inr (reading, p, inr (s, q)) ↦ elim (written gc clock.stamped (run gc clock dir)) [
          | inl (r, o, d) ↦ rw (q, o, d) (inl (refl, refl, overdue gc p s l))
          | inr (e, o, d) ↦ rw (q, o, d, run_stamp gc clock dir) (inr (refl, refl))
        ]
      ]

  spaced_from :
      (visits : List Visit) (last begin end : ℕ)
      → last ≤ begin
      → AreOrdered begin visits end
      → last + runs gc (holds (at last)) visits * day ≤ end
  spaced_from [] last begin end l o = ground (arith, l, o)
  spaced_from ((clock, bundles) ∷ visits) last begin end l (o, i, rest) =
      elim (visit_step clock bundles last (ground (arith, l, o))) [
        | inl (one, s, due) ↦
            rw (one, s)
              (ground (
                arith,
                due,
                i,
                spaced_from visits clock.stamped clock.stamped end (ground arith) rest,
              ))
        | inr (idle, s) ↦
            rw (idle, s)
              (ground
                (arith, spaced_from visits last clock.stamped end (ground (arith, l, o, i)) rest))
      ]

-- If the clock does not go back, then however often the amortised run is called after a stamp was
-- written, and whatever bundles each call finds, it completes a run at most once a day: the runs
-- that return take a day each between the time of the stamp and the end. A run that raises, as its
-- emitter may, writes no stamp and is not counted.
pub runs_spaced :
    (gc : BundleCacheGc) (visits : List Visit) (begin end : ℕ)
    → AreOrdered begin visits end
    → begin + runs gc (holds (at begin)) visits * day ≤ end
runs_spaced gc visits begin end = spaced_from gc visits begin begin end (ground arith)
