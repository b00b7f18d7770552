-- ===== src/Gc/Collector.antt =====
-- The collector object: a run, and the run that happens once a day.
use Prim.Native.Nat.{◌/◌}
use codewizard_sherpa.Prelude.{
  ℕ, zero, suc, ◌-◌, ◌*◌, Bool, true, false, Option, none, some, List, [], ◌∷◌, ltb, leb,
  if◌then◌else◌, String,
}
use codewizard_sherpa.Prelude.Texts.{Text}
use codewizard_sherpa.Prelude.Outcome.{Outcome, ok, err}
use codewizard_sherpa.Gc.Ttl.{
  GcError, corrupt_gc_stamp, unicode_decode_error, emitter_error, parse_ttl_seconds,
}
use codewizard_sherpa.Gc.Walking.{second, Child, Walk, sweep}

abbrev pub amortization_seconds : ℕ
amortization_seconds = 86400

-- What `float` reads from a stamp: a time, or no number at all.
pub data Reading : Type 0 where
  at : (time : ℕ) → Reading
  nan infinite : Reading

-- Every comparison with `nan` is false.
unfoldable pub should_run_amortized : ℕ → Reading → ℕ → Bool
should_run_amortized now (at last_stamp) interval =
    if ltb now last_stamp then true else leb (interval * second) (now - last_stamp)
should_run_amortized now nan interval = false
should_run_amortized now infinite interval = true

-- The first code points of a text.
unfoldable pub take : ℕ → Text → Text
take zero s = []
take (suc n) [] = []
take (suc n) (c ∷ s) = c ∷ take n s

-- The readings of the clock: `time.monotonic_ns` around a run, `time.time` where the amortised run
-- decides, where the walk begins and where the stamp is written, and the wall clock's text.
pub record Clock : Type 0 where
  pub start_ns : ℕ
  pub end_ns : ℕ
  pub decided : ℕ
  pub walked : ℕ
  pub stamped : ℕ
  pub wall_clock_iso : String

pub record CacheGcResult : Type 0 where
  pub entries_evicted : ℕ
  pub bytes_reclaimed : ℕ
  pub cache_dir : String
  pub ttl_days : ℕ
  pub duration_ms : ℕ
  pub wall_clock_iso : String

pub data Trigger : Type 0 where
  amortized operator_cli : Trigger

pub record CacheGcCompletedEvent : Type 0 where
  pub cache_dir : String
  pub entries_evicted : ℕ
  pub bytes_reclaimed : ℕ
  pub ttl_days : ℕ
  pub duration_ms : ℕ
  pub wall_clock_iso : String
  pub trigger : Trigger

unfoldable pub from_result : CacheGcResult → Trigger → CacheGcCompletedEvent
from_result result trigger = record {
  cache_dir = result.cache_dir;
  entries_evicted = result.entries_evicted;
  bytes_reclaimed = result.bytes_reclaimed;
  ttl_days = result.ttl_days;
  duration_ms = result.duration_ms;
  wall_clock_iso = result.wall_clock_iso;
  trigger = trigger;
}

-- The file `.gc-stamp`: absent, no UTF-8, a text that `float` refuses, or one that it reads.
pub data Stamp : Type 0 where
  absent undecodable : Stamp
  unreadable : (content : Text) → Stamp
  holds : (reading : Reading) → Stamp

-- The cache directory: `bundles` is none if there is no such directory.
pub record CacheDir : Type 0 where
  pub bundles : Option (List Child)
  pub stamp : Stamp

-- The object, with the environment that it reads. An emitter returns none or raises.
pub record BundleCacheGc : Type 0 where
  pub cache_dir : String
  pub ttl_seconds_override : Option ℕ
  pub environ : Option Text
  pub event_emitter : Option (CacheGcCompletedEvent → Option Text)

-- What a call returns or raises, the directory behind it, and the events given to the emitter.
pub record Ran (A : Type 0) : Type 0 where
  pub outcome : Outcome GcError A
  pub dir : CacheDir
  pub emitted : List CacheGcCompletedEvent

unfoldable pub resolved_ttl_seconds : BundleCacheGc → Outcome GcError ℕ
resolved_ttl_seconds gc = elim gc.ttl_seconds_override [
  | none ↦ parse_ttl_seconds gc.environ
  | some ttl ↦ ok ttl
]

unfoldable pub emit : BundleCacheGc → CacheGcResult → CacheDir → Ran CacheGcResult
emit gc result dir = elim gc.event_emitter [
  | none ↦ record { outcome = ok result; dir = dir; emitted = [] }
  | some emitter ↦
      let event = from_result result amortized in
      record {
        outcome = elim (emitter event) [
          | none ↦ ok result
          | some raised ↦ err (emitter_error raised)
        ];
        dir = dir;
        emitted = event ∷ [];
      }
]

-- `run` behind the walk.
unfoldable pub finish : BundleCacheGc → Clock → ℕ → CacheDir → Walk → Ran CacheGcResult
finish gc clock ttl dir walk = elim walk.raised [
  | some e ↦ record { outcome = err e; dir = dir; emitted = [] }
  | none ↦
      emit gc
        (record {
          entries_evicted = walk.entries_evicted;
          bytes_reclaimed = walk.bytes_reclaimed;
          cache_dir = gc.cache_dir;
          ttl_days = ttl / 86400;
          duration_ms = (clock.end_ns - clock.start_ns) / 1000000;
          wall_clock_iso = clock.wall_clock_iso;
        })
        dir
]

unfoldable pub run_with : BundleCacheGc → Clock → ℕ → CacheDir → Ran CacheGcResult
run_with gc clock ttl dir = elim dir.bundles [
  | none ↦ finish gc clock ttl dir (sweep clock.walked ttl [])
  | some children ↦
      let walk = sweep clock.walked ttl children in
      finish gc clock ttl (record { bundles = some walk.left; stamp = dir.stamp }) walk
]

unfoldable pub run : BundleCacheGc → Clock → CacheDir → Ran CacheGcResult
run gc clock dir = elim (resolved_ttl_seconds gc) [
  | err e ↦ record { outcome = err e; dir = dir; emitted = [] }
  | ok ttl ↦ run_with gc clock ttl dir
]

unfoldable pub read_stamp : Stamp → Outcome GcError Reading
read_stamp absent = ok (at 0)
read_stamp undecodable = err unicode_decode_error
read_stamp (unreadable content) = err (corrupt_gc_stamp (take 32 content))
read_stamp (holds reading) = ok reading

-- The stamp of a run that returned.
unfoldable pub write_stamp : ℕ → Ran CacheGcResult → Ran (Option CacheGcResult)
write_stamp now ran = elim ran.outcome [
  | err e ↦ record { outcome = err e; dir = ran.dir; emitted = ran.emitted }
  | ok result ↦ record {
    outcome = ok (some result);
    dir = record { bundles = ran.dir.bundles; stamp = holds (at now) };
    emitted = ran.emitted;
  }
]

unfoldable pub run_amortized : BundleCacheGc → Clock → CacheDir → Ran (Option CacheGcResult)
run_amortized gc clock dir = elim (read_stamp dir.stamp) [
  | err e ↦ record { outcome = err e; dir = dir; emitted = [] }
  | ok last_stamp ↦
      if should_run_amortized clock.decided last_stamp amortization_seconds
      then write_stamp clock.stamped (run gc clock dir)
      else record { outcome = ok none; dir = dir; emitted = [] }
]
