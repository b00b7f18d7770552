-- ===== src/Gc/Runs.antt =====
-- A run of the collector from its lifetime to its event.
use Prim.Native.Nat.{◌/◌}
use codewizard_sherpa.Prelude.{
  ◌-◌, ℕ, ◌≡◌, ◌≢◌, refl, ◌∙◌, Option, none, some, Option-cases, inl, inr, List, [], ◌∷◌, length,
  sum_by, All, arith,
}
use codewizard_sherpa.Prelude.Texts.{Text}
use codewizard_sherpa.Prelude.Outcome.{ok}
use codewizard_sherpa.Gc.Walking.{Child, Walk, locked, sweep}
use codewizard_sherpa.Gc.Collector.{
  CacheGcResult, CacheGcCompletedEvent, amortized, from_result, Clock, CacheDir, BundleCacheGc, Ran,
  resolved_ttl_seconds, emit, finish, run_with, run,
}
use codewizard_sherpa.Gc.Swept.{IsStale, Swept, sweep-Swept, sweep_unraised}

-- No emitter, or one that returns for every event.
abbrev pub EmitterReturns : BundleCacheGc → Type 0
EmitterReturns gc =
    (emitter : CacheGcCompletedEvent → Option Text)
    → gc.event_emitter ≡ some emitter
    → (event : CacheGcCompletedEvent) → emitter event ≡ none

-- One event for the result, if there is an emitter.
abbrev pub EmitsOnce : BundleCacheGc → CacheGcResult → List CacheGcCompletedEvent → Type 0
EmitsOnce gc result emitted =
    (gc.event_emitter ≡ none → emitted ≡ [])
    × ((emitter : CacheGcCompletedEvent → Option Text)
        → gc.event_emitter ≡ some emitter
        → emitted ≡ from_result result amortized ∷ [])

-- What a run that returns has done.
pub record Collects (gc : BundleCacheGc) (now ttl : ℕ) (children : List Child) (dir : CacheDir)
    (ran : Ran CacheGcResult) : Type 0 where
  pub result : CacheGcResult
  pub removed : List Child
  pub left : List Child
  pub returned : ran.outcome ≡ ok result
  pub swept : Swept now ttl children removed left
  pub counted : result.entries_evicted ≡ length removed
  pub reclaimed : result.bytes_reclaimed ≡ sum_by (λ c. c.size) removed
  pub behind : ran.dir ≡ record { bundles = some left; stamp = dir.stamp }
  pub event : EmitsOnce gc result ran.emitted

module _ (gc : BundleCacheGc) (returns : EmitterReturns gc) where
  emit-Emits :
      (result : CacheGcResult) (dir : CacheDir)
      → ((emit gc result dir).outcome ≡ ok result)
        × ((emit gc result dir).dir ≡ dir)
        × EmitsOnce gc result (emit gc result dir).emitted
  unfolding emit
  emit-Emits result dir = elim (Option-cases gc.event_emitter) [
    | inl n ↦ rw n (refl, refl, (λ _. refl, λ e p. ground (arith, p)))
    | inr (e, p) ↦
        rw (p, returns e p (from_result result amortized))
          (refl, refl, ((λ q. ground (arith, q)), λ _ _. refl))
  ]

  finish-Emits :
      (clock : Clock) (ttl : ℕ) (dir : CacheDir) (walk : Walk)
      → walk.raised ≡ none
      → let ran = finish gc clock ttl dir walk in
        (result : CacheGcResult) × (ran.outcome ≡ ok result)
        × (result.entries_evicted ≡ walk.entries_evicted)
        × (result.bytes_reclaimed ≡ walk.bytes_reclaimed)
        × (ran.dir ≡ dir)
        × EmitsOnce gc result ran.emitted
  unfolding finish
  finish-Emits clock ttl dir walk r =
      let (o, d, e) =
        emit-Emits
          (record {
            entries_evicted = walk.entries_evicted;
            bytes_reclaimed = walk.bytes_reclaimed;
            cache_dir = gc.cache_dir;
            ttl_days = ttl / 86400;
            duration_ms = (clock.end_ns - clock.start_ns) / 1000000;
            wall_clock_iso = clock.wall_clock_iso;
          })
          dir in
      rw r (_, o, refl, refl, d, e)

  -- On a directory of bundles, with a lifetime that can be read, an emitter that does not raise and
  -- no stale bundle that may not be unlinked, a run returns. It has removed the stale bundles that
  -- no other process removed first, and nothing else; its result has their number and their bytes;
  -- and it gives the emitter, if there is one, one event with that result.
  pub run-Collects :
      (clock : Clock) (dir : CacheDir) (children : List Child) (ttl : ℕ)
      → dir.bundles ≡ some children
      → resolved_ttl_seconds gc ≡ ok ttl
      → All (λ c. IsStale clock.walked ttl c → c.fate ≢ locked) children
      → Collects gc clock.walked ttl children dir (run gc clock dir)
  unfolding run run_with
  run-Collects clock dir children ttl d t free =
      let runs : run gc clock dir
          ≡ finish gc clock ttl
              (record { bundles = some (sweep clock.walked ttl children).left; stamp = dir.stamp })
              (sweep clock.walked ttl children) =
        rw (run, t, d) refl in
      let raised = sweep_unraised clock.walked ttl children free in
      let (rs, s, (n, b)) = sweep-Swept clock.walked ttl children raised in
      let walk = sweep clock.walked ttl children in
      let (result, o, i, j, k, e) =
        finish-Emits clock ttl (record { bundles = some walk.left; stamp = dir.stamp }) walk
          raised in
      rw runs (record {
        result = result;
        removed = rs;
        left = walk.left;
        returned = o;
        swept = s;
        counted = i ∙ n;
        reclaimed = j ∙ b;
        behind = k;
        event = e;
      })
