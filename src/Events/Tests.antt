-- ===== src/Events/Tests.antt =====
-- A codec for events of one letter, logs and processes that use it, and the theorems of the modules
-- beside this one at inputs that meet their hypotheses.
use mathlib.Core.List.{Perm}
use codewizard_sherpa.Prelude.{
  ℕ, ◌≡◌, ◌≢◌, refl, ap, Option, none, some, List, [], ◌∷◌, ◌++◌, map, arith, All, inl, inr, true,
  false,
}
use codewizard_sherpa.Prelude.Dict
use codewizard_sherpa.Prelude.Texts.{Text, codes, remove_prefix}
use codewizard_sherpa.Prelude.Outcome.{ok, err}
use codewizard_sherpa.Workflows.Checkpoints.{content_hash_bytes}
use codewizard_sherpa.Events.{
  EventLog, dumped, canonical_json_bytes, chain_step, tail_from, tail_chain_head, read_spanning,
  payload_of, emit_spanning, replay,
}
use codewizard_sherpa.Events.Records.{
  EventClass, internal, spanning, Event, str_field, Object, Loaded, json_decode_error, object,
  Codec, EventError, genesis_chain_head, prev_hash_key, as_str, is_internal, is_spanning, stamp,
}
use codewizard_sherpa.Events.Sinks.{
  whole, truncated, memory, file, done, rstrip, read_frames, lines_of, read_all, append,
}
use codewizard_sherpa.Events.Chained.{Link, Chained, ends}
use codewizard_sherpa.Events.Emitting.{Persists, Hexadecimal, written}
use codewizard_sherpa.Events.Replaying.{
  Call, PersistsInternal, Writes, emit_all, Replays, emit_all-Replays, forget,
}
use codewizard_sherpa.Events.Locking.{
  outside, appended, Writer, System, at, system, Turns, start, more, acquire, read, write,
  remaining,
}
use codewizard_sherpa.Events.Locking.Exclusive.{interleaved_emits}
use codewizard_sherpa.Events.Tampering.{digest, emit_spanning_torn}

abbrev event : EventClass → ℕ → Option Text → Event
event c letter prev = record {
  event_class = c;
  event_id = some (letter ∷ []);
  timestamp = some 5;
  wall_clock = none;
  prev_hash = prev;
  content = letter ∷ [];
}

-- The text less its last byte.
abbrev but_last : Text → Text
but_last [] = []
but_last (c ∷ []) = []
but_last (c ∷ d ∷ s) = c ∷ but_last (d ∷ s)

-- A record is its letter, and where it has a `prev_hash` a colon, that and a brace.
abbrev sample_dumps : Object → Text
sample_dumps o =
    elim (as_str (Dict.get "content" o)) [ some s ↦ s | none ↦ [] ]
    ++ elim (as_str (Dict.get prev_hash_key o)) [ some h ↦ b':' ∷ (h ++ b'}' ∷ []) | none ↦ [] ]

abbrev sample_loads : Text → Loaded
sample_loads [] = json_decode_error
sample_loads (letter ∷ []) = object (("content", str_field (letter ∷ [])) ∷ [])
sample_loads (letter ∷ colon ∷ s) =
    object (("content", str_field (letter ∷ [])) ∷ (prev_hash_key, str_field (but_last s)) ∷ [])

abbrev sample_validate : EventClass → Object → Option Event
sample_validate c o = elim (as_str (Dict.get "content" o)) [
  | none ↦ none
  | some s ↦ elim s [
    | [] ↦ none
    | letter ∷ t ↦ some (event c letter (as_str (Dict.get prev_hash_key o)))
  ]
]

abbrev codec : Codec
codec = record {
  model_dump = λ e. ("content", str_field e.content) ∷ [];
  dumps = sample_dumps;
  loads = sample_loads;
  validate_internal = sample_validate internal;
  validate_spanning = sample_validate spanning;
  fromhex = λ h. some h;
  substrate = record {
    model_dump_json = λ e. [];
    model_validate_json = λ b. none;
    blake3_hexdigest = λ b. b;
    sanitize_for_persistence = λ b. b;
  };
}

but_last-brace : (h : Text) → but_last (h ++ b'}' ∷ []) ≡ h
but_last-brace [] = refl
but_last-brace (c ∷ []) = refl
but_last-brace (c ∷ d ∷ h) = ap (λ t. c ∷ t) (but_last-brace (d ∷ h))

rstrip-brace : (h : Text) → rstrip (h ++ b'}' ∷ []) ≡ h ++ b'}' ∷ []
unfolding rstrip
rstrip-brace [] = refl
rstrip-brace (c ∷ []) = refl
rstrip-brace (c ∷ d ∷ h) = rw (rstrip-brace (d ∷ h), rstrip) refl

codec-Hexadecimal : Hexadecimal codec
codec-Hexadecimal = record {
  genesis = (genesis_chain_head, refl);
  digest = λ b. (remove_prefix (codes "blake3:") (content_hash_bytes codec.substrate b), refl);
}

letter-Persists : (letter : ℕ) → Persists codec (event spanning letter none)
unfolding dumped as_str payload_of Dict.get Dict.put Dict.remove
letter-Persists letter = record {
  is_line = λ h. (rstrip-brace (letter ∷ b':' ∷ h), λ e. ground (arith, e));
  reads = λ h. (
    ("content", str_field (letter ∷ []))
        ∷ (prev_hash_key, str_field (but_last (h ++ b'}' ∷ [])))
        ∷ [],
    refl,
    ap some (but_last-brace h),
    refl,
    ap (λ s. some (event spanning letter (some s))) (but_last-brace h),
  );
}

letter-PersistsInternal :
    (letter : ℕ) → letter ≢ 10 → PersistsInternal codec (event internal letter none)
unfolding canonical_json_bytes dumped rstrip as_str Dict.get Dict.remove
letter-PersistsInternal letter apart = record {
  is_line = (ground (arith, apart), λ e. ground (arith, e));
  o = ("content", str_field (letter ∷ [])) ∷ [];
  parses = refl;
  validates = refl;
}

abbrev calls : List Call
calls =
    (5, event spanning b'a' none)
    ∷ (5, event internal b'b' none)
    ∷ (5, event spanning b'c' none)
    ∷ []

abbrev new_log : EventLog
new_log = record {
  internal_sink = memory [];
  spanning_sink = file [];
  chain_head = genesis_chain_head;
}

calls-Writes : All (Writes codec) calls
unfolding is_internal is_spanning stamp
calls-Writes = (
  inr (refl, refl, letter-Persists b'a'),
  (
    inl (refl, letter-PersistsInternal b'b' (λ e. ground (arith, e))),
    (inr (refl, refl, letter-Persists b'c'), tt),
  ),
)

new_log_empty : (read_all new_log.internal_sink ≡ done) × (read_all new_log.spanning_sink ≡ done)
unfolding read_all lines_of read_frames
new_log_empty = (refl, refl)

emit_all-Replays_example :
    (es : List Event) × (replay codec (emit_all codec calls new_log) ≡ ok es)
    × Replays codec calls es
emit_all-Replays_example =
    emit_all-Replays codec codec-Hexadecimal calls new_log calls-Writes new_log_empty.0
      new_log_empty.1

-- Two processes with an event each; the second has the lock, has read the tail and has appended.
abbrev writers : List Writer
writers =
    at outside (event spanning b'a' none ∷ []) ∷ at outside (event spanning b'c' none ∷ []) ∷ []

abbrev first_head : Text
first_head = genesis_chain_head ++ codes "c"

abbrev after_write : System
after_write =
    system (append (written codec first_head (event spanning b'c' none)) (file [])) true
      (at outside (event spanning b'a' none ∷ []) ∷ at appended [] ∷ [])

empty_tail : tail_chain_head codec (file []) ≡ ok genesis_chain_head
unfolding tail_chain_head read_all read_frames tail_from
empty_tail = refl

first_step :
    chain_step codec genesis_chain_head (codec.dumps (dumped codec (event spanning b'c' none)))
    ≡ ok first_head
unfolding chain_step dumped as_str content_hash_bytes remove_prefix Dict.get Dict.remove
first_step = refl

second_writes : Turns codec (system (file []) false writers) after_write
second_writes =
    let a = event spanning b'a' none in
    let c = event spanning b'c' none in
    let one = at outside (a ∷ []) ∷ [] in
    more
      (more (more start (acquire (file []) one [] c []))
        (read (file []) true one [] c [] genesis_chain_head empty_tail))
      (write (file []) true one [] c [] genesis_chain_head first_head first_step)

empty-Chained : Chained codec genesis_chain_head (read_all (file [])) [] genesis_chain_head
unfolding read_all read_frames
empty-Chained = ends

interleaved_emits_example :
    (fs : List Event) × (read_spanning codec 1 genesis_chain_head (read_all after_write.sink)
      ≡ ok fs)
    × Perm (map forget fs ++ remaining after_write.writers) (remaining writers)
interleaved_emits_example =
    interleaved_emits codec (file []) writers after_write [] genesis_chain_head empty-Chained
      (refl, (refl, tt)) ((letter-Persists b'a', tt), ((letter-Persists b'c', tt), tt))
      second_writes

-- The first record says `c`, and its `prev_hash` is that of an `a`.
abbrev forged : Object
forged =
    ("content", str_field (codes "c"))
    ∷ (prev_hash_key, str_field (genesis_chain_head ++ codes "a"))
    ∷ []

-- The record that the emitter writes for an `a` behind the first head.
abbrev a_head : Text
a_head = genesis_chain_head ++ codes "a"

abbrev a_line : Text
a_line = codes "a:" ++ a_head ++ codes "}"

a_link : Link codec genesis_chain_head a_line (event spanning b'a' (some a_head)) a_head
unfolding chain_step as_str content_hash_bytes remove_prefix payload_of Dict.get Dict.remove
a_link = record {
  o = ("content", str_field (codes "a")) ∷ (prev_hash_key, str_field a_head) ∷ [];
  parses = refl;
  on_disk = refl;
  computed = refl;
  validates = refl;
}

abbrev torn_log : EventLog
torn_log = record {
  internal_sink = memory [];
  spanning_sink = file (whole (codes "a") ∷ truncated ∷ []);
  chain_head = genesis_chain_head;
}

emit_spanning_torn_example :
    (x : EventError) × ((emit_spanning codec 5 (event spanning b'a' none) torn_log).0 ≡ err x)
    × ((emit_spanning codec 5 (event spanning b'a' none) torn_log).1 ≡ torn_log)
emit_spanning_torn_example =
    emit_spanning_torn codec 5 (event spanning b'a' none) (whole (codes "a") ∷ []) [] torn_log refl
