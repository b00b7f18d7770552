-- ===== src/Events/Records.antt =====
-- The events of plugins/events.py by what the log reads of them, and what pydantic, `json` and the
-- digest do with them.
use codewizard_sherpa.Prelude.{
  ℕ, String, Bool, true, false, Option, none, some, [], replicate, ltb, if◌then◌else◌,
}
use codewizard_sherpa.Prelude.Dict.{Dict}
use codewizard_sherpa.Prelude.Texts.{Text, text_leb}
use codewizard_sherpa.Workflows.Checkpoints.{Substrate}

-- The classes of `_INTERNAL_CLASSES`, of `_SPANNING_CLASSES`, and all others.
pub data EventClass : Type 0 where
  internal spanning cache_gc_completed foreign : EventClass

-- An event by the fields that the log reads: `none` where its class has no such field. A time is
-- its instant; `wall_clock` is what `wall_clock_iso` parses to, `none` if it does not.
pub record Event : Type 0 where
  pub event_class : EventClass
  pub event_id : Option Text
  pub timestamp : Option ℕ
  pub wall_clock : Option ℕ
  pub prev_hash : Option Text
  pub content : Text

-- A value of a dumped record: a `str`, or another value by its JSON.
pub data Field : Type 0 where
  str_field other_field : Text → Field

abbrev pub Object : Type 0
Object = Dict Field

-- What `json.loads` makes of a line.
pub data Loaded : Type 0 where
  json_decode_error non_object : Loaded
  object : Object → Loaded

-- pydantic's dump and validation, where `none` is a `ValueError`, the JSON of the language with
-- sorted keys, `bytes.fromhex`, and the digest that `content_hash_bytes` takes from `substrate`.
pub record Codec : Type 0 where
  pub model_dump : Event → Object
  pub dumps : Object → Text
  pub loads : Text → Loaded
  pub validate_internal : Object → Option Event
  pub validate_spanning : Object → Option Event
  pub fromhex : Text → Option Text
  pub substrate : Substrate

pub data StreamPath : Type 0 where
  internal_path spanning_path : StreamPath

pub data CorruptedReason : Type 0 where
  malformed_json non_object_record schema_violation truncated_frame : CorruptedReason

pub data EventError : Type 0 where
  type_error value_error json_error attribute_error : EventError
  event_log_corrupted : StreamPath → (line_number : ℕ) → CorruptedReason → EventError
  chain_tamper_detected : (expected_prev : Option Text) → (computed_prev : Text) → EventError

abbrev pub genesis_chain_head : Text
genesis_chain_head = replicate 64 b'0'

abbrev pub prev_hash_key : String
prev_hash_key = "prev_hash"

-- `value if isinstance(value, str) else None`
unfoldable pub as_str : Option Field → Option Text
as_str (some (str_field s)) = some s
as_str f = none

unfoldable pub is_internal : Event → Bool
is_internal e = elim e.event_class [ internal ↦ true | _ ↦ false ]

unfoldable pub is_spanning : Event → Bool
is_spanning e = elim e.event_class [ spanning ↦ true | cache_gc_completed ↦ true | _ ↦ false ]

-- `_stamp` with the time of the clock.
unfoldable pub stamp : ℕ → Event → Event
stamp now e = elim e.timestamp [
  | none ↦ e
  | some t ↦ record {
    event_class = e.event_class;
    event_id = e.event_id;
    timestamp = some now;
    wall_clock = e.wall_clock;
    prev_hash = e.prev_hash;
    content = e.content;
  }
]

-- `str(getattr(event, "event_id", ""))`
abbrev pub id_text : Event → Text
id_text e = elim e.event_id [ some i ↦ i | none ↦ [] ]

-- `_replay_sort_key`, where `datetime.min` is the instant 0.
unfoldable pub replay_sort_key : Event → ℕ × Text
replay_sort_key e = elim e.timestamp [
  | some t ↦ (t, id_text e)
  | none ↦ elim e.wall_clock [ some t ↦ (t, id_text e) | none ↦ (0, id_text e) ]
]

-- The order of the keys as tuples. The `TypeError` of a time without a zone beside one with a zone is
-- left out.
unfoldable pub key_leb : Event → Event → Bool
unfolding replay_sort_key
key_leb a b =
    let (s, i) = replay_sort_key a in
    let (t, j) = replay_sort_key b in
    if ltb s t then true else if ltb t s then false else text_leb i j
