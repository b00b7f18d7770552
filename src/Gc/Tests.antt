-- ===== src/Gc/Tests.antt =====
-- A directory of five children and a week's lifetime, and the theorems of the modules beside this
-- one on them.
use Prim.Native.Nat.{◌≤◌}
use codewizard_sherpa.Prelude.{
  ℕ, ◌+◌, ◌*◌, ◌≡◌, ◌↔◌, ◌≢◌, refl, sym, ap, true, false, Option, none, some, List, [], ◌∷◌, ◌++◌,
  replicate, arith, All,
}
use codewizard_sherpa.Prelude.Texts.{Text, codes}
use codewizard_sherpa.Prelude.Outcome.{ok, err}
use codewizard_sherpa.Gc.Ttl.{
  is_space, left_strip, strip, is_digit, all_digits, is_decimal_int, int_from, int, configured,
  parse_ttl_seconds, invalid_ttl_env,
}
use codewizard_sherpa.Gc.Walking.{
  is_evictable, is_hex, hex_then, is_hex_name, Fate, stays, gone_before_unlink, locked, Child,
  is_bundle, sweep, unlink, skip, keep,
}
use codewizard_sherpa.Gc.Collector.{
  Reading, at, CacheGcCompletedEvent, holds, Clock, CacheDir, BundleCacheGc, resolved_ttl_seconds,
  run, run_amortized, read_stamp,
}
use codewizard_sherpa.Gc.Swept.{IsStale}
use codewizard_sherpa.Gc.Runs.{EmitterReturns, Collects, run-Collects}
use codewizard_sherpa.Gc.Spacing.{day, IsFresh, Visit, runs, runs_spaced, run_amortized-none_iff}

default_ttl : parse_ttl_seconds none ≡ ok 604800
unfolding parse_ttl_seconds configured is_decimal_int all_digits is_digit int int_from strip
    left_strip is_space
default_ttl = refl

spaced_ttl : parse_ttl_seconds (some (codes " 14\t")) ≡ ok 1209600
unfolding parse_ttl_seconds configured is_decimal_int all_digits is_digit int int_from strip
    left_strip is_space
spaced_ttl = refl

signed_ttl : parse_ttl_seconds (some (codes "+7")) ≡ err (invalid_ttl_env (codes "+7"))
unfolding parse_ttl_seconds configured is_decimal_int all_digits is_digit int int_from strip
    left_strip is_space
signed_ttl = refl

abbrev blob : Text
blob = replicate 64 97 ++ codes ".json"

abbrev child : Text → ℕ → ℕ → Fate → Child
child name mtime size fate = record {
  name = name;
  is_symlink = false;
  is_file = true;
  mtime = mtime;
  size = size;
  fate = fate;
}

-- A bundle of just the lifetime, an older one, one that another process removes, a file of another
-- name that may not be unlinked, and a fresh bundle.
abbrev children : List Child
children =
    child blob (3 * day) 10 stays
    ∷ child blob (2 * day) 20 stays
    ∷ child blob day 30 gone_before_unlink
    ∷ child (codes "notes.txt") 0 40 locked
    ∷ child blob (9 * day) 50 stays
    ∷ []

abbrev gc : BundleCacheGc
gc = record {
  cache_dir = "cache";
  ttl_seconds_override = none;
  environ = none;
  event_emitter = some (λ event. none);
}

abbrev clock_at : ℕ → Clock
clock_at now = record {
  start_ns = 5000000;
  end_ns = 7000000;
  decided = now;
  walked = now;
  stamped = now + 1;
  wall_clock_iso = "1970-01-11T00:00:00.000Z";
}

abbrev dir : CacheDir
dir = record { bundles = some children; stamp = holds (at (9 * day + 1)) }

lifetime : resolved_ttl_seconds gc ≡ ok 604800
unfolding resolved_ttl_seconds
lifetime = default_ttl

not_bundle : is_hex_name (codes "notes.txt") ≡ false
unfolding is_hex_name hex_then is_hex is_digit
not_bundle = refl

gc_returns : EmitterReturns gc
gc_returns emitter p event = sym (
    ap
      (λ (o : Option (CacheGcCompletedEvent → Option Text)). elim o [
        | none ↦ none
        | some f ↦ f event
      ])
      p)

free : All (λ c. IsStale (10 * day) 604800 c → c.fate ≢ locked) children
free = (
  (λ _. ground arith),
  (
    (λ _. ground arith),
    (
      (λ _. ground arith),
      ((λ (l, f, named, old). ground (arith, named, not_bundle)), ((λ _. ground arith), tt)),
    ),
  ),
)

run-Collects_example : Collects gc (10 * day) 604800 children dir (run gc (clock_at (10 * day)) dir)
run-Collects_example =
    run-Collects gc gc_returns (clock_at (10 * day)) dir children 604800 refl lifetime free

-- The walk leaves all but the second and the third child.
walk_run : sweep (10 * day) 604800 children ≡ record {
  entries_evicted = 1;
  bytes_reclaimed = 20;
  left =
      child blob (3 * day) 10 stays
      ∷ child (codes "notes.txt") 0 40 locked
      ∷ child blob (9 * day) 50 stays
      ∷ [];
  raised = none;
}
unfolding sweep unlink skip keep is_bundle is_evictable is_hex_name hex_then is_hex is_digit
walk_run = refl

abbrev visits : List Visit
visits =
    (clock_at (9 * day + 7), some children)
    ∷ (clock_at (10 * day + 1), some [])
    ∷ (clock_at (11 * day), none)
    ∷ []

runs_spaced_example : (9 * day + 1) + runs gc (holds (at (9 * day + 1))) visits * day ≤ 12 * day
runs_spaced_example = runs_spaced gc visits (9 * day + 1) (12 * day) (
  ground arith,
  ground arith,
  (ground arith, ground arith, (ground arith, ground arith, ground arith)),
)

run_amortized-none_iff_example :
    (((run_amortized gc (clock_at (9 * day + 7)) dir).outcome ≡ ok none)
      ↔ ((reading : Reading) × (read_stamp dir.stamp ≡ ok reading) × IsFresh (9 * day + 7) reading))
    × ((run_amortized gc (clock_at (9 * day + 7)) dir).outcome ≡ ok none
        → ((run_amortized gc (clock_at (9 * day + 7)) dir).dir ≡ dir)
          × ((run_amortized gc (clock_at (9 * day + 7)) dir).emitted ≡ []))
run_amortized-none_iff_example = run_amortized-none_iff gc (clock_at (9 * day + 7)) dir
