-- ===== src/Events.antt =====
-- src/codegenie/plugins/events.py: the log of events in two streams, one of a workflow and one
-- that all share, whose records are chained by their hashes. A `str` that is encoded here is
-- ASCII, so its bytes are its code points.
pub mod Records
pub mod Sinks
pub mod Chained
pub mod Emitting
pub mod Replaying
pub mod Locking
pub mod Tampering
mod Tests
use codewizard_sherpa.Prelude.{
  ℕ, suc, String, Bool, true, false, ◌&&◌, Option, none, some, List, [], ◌∷◌, ◌++◌, replicate, ltb,
  not, if◌then◌else◌,
}
use codewizard_sherpa.Prelude.Dict
use codewizard_sherpa.Prelude.Dict.{Dict}
use codewizard_sherpa.Prelude.Texts.{Text, codes, text_eq, text_leb, remove_prefix}
use codewizard_sherpa.Prelude.Outcome.{Outcome, ok, err, ◌>>=◌}
use codewizard_sherpa.Prelude.Sorting.{sorted}
use codewizard_sherpa.Workflows.Checkpoints.{Substrate, content_hash_bytes}
use codewizard_sherpa.Events.Sinks.{Sink, Lines, done, torn, line, read_all, append}
use codewizard_sherpa.Events.Records.{
  EventClass, internal, spanning, cache_gc_completed, foreign, Event, Field, str_field, other_field,
  Object, Loaded, json_decode_error, non_object, object, Codec, StreamPath, internal_path,
  spanning_path, CorruptedReason, malformed_json, non_object_record, schema_violation,
  truncated_frame, EventError, type_error, value_error, json_error, attribute_error,
  event_log_corrupted, chain_tamper_detected, genesis_chain_head, prev_hash_key, as_str,
  is_internal, is_spanning, stamp, replay_sort_key, key_leb,
}

-- `EventLog` with its two sinks.
pub record EventLog : Type 0 where
  pub internal_sink : Sink
  pub spanning_sink : Sink
  pub chain_head : Text

module _ (codec : Codec) where
  open codec use {
    model_dump, dumps, loads, validate_internal, validate_spanning, fromhex, substrate,
  }

  -- The dump less its `prev_hash`.
  unfoldable pub dumped : Event → Object
  dumped e = Dict.remove prev_hash_key (model_dump e)

  unfoldable pub canonical_json_bytes : Event → Text
  unfolding dumped
  canonical_json_bytes e = dumps (dumped e)

  -- `_chain_step`; `bytes.fromhex` refuses a head that is not hexadecimal.
  unfoldable pub chain_step : Text → Text → Outcome EventError Text
  chain_step prior_head event_bytes = elim (fromhex prior_head) [
    | none ↦ err value_error
    | some bytes ↦
        ok (remove_prefix (codes "blake3:") (content_hash_bytes substrate (bytes ++ event_bytes)))
  ]

  -- The loop of `_tail_chain_head` with its head.
  unfoldable pub tail_from : Text → Lines → Outcome EventError Text
  unfolding as_str
  tail_from head done = ok head
  tail_from head (torn n) = err (event_log_corrupted spanning_path n truncated_frame)
  tail_from head (line l rest) = elim (loads l) [
    | json_decode_error ↦ err json_error
    | non_object ↦ err attribute_error
    | object o ↦
        tail_from (elim (as_str (Dict.get prev_hash_key o)) [ some h ↦ h | none ↦ head ]) rest
  ]

  unfoldable pub tail_chain_head : Sink → Outcome EventError Text
  tail_chain_head sink = tail_from genesis_chain_head (read_all sink)

  -- The part of `emit_spanning` under the lock: the new head, and the sink behind the append.
  unfoldable pub append_chained : Object → Sink → Outcome EventError (Text × Sink)
  append_chained record_dump sink = tail_chain_head sink >>= (λ prior.
      chain_step prior (dumps record_dump) >>= (λ new_head.
        ok (
          new_head,
          append (dumps (Dict.put prev_hash_key (str_field new_head) record_dump)) sink,
        )))

  -- `emit_internal` with the time of the clock; it returns the id.
  unfoldable pub emit_internal : ℕ → Event → EventLog → Outcome EventError Text × EventLog
  emit_internal now event log =
      let stamped = stamp now event in
      if is_internal event
      then (
        ok (elim stamped.event_id [ some i ↦ i | none ↦ [] ]),
        record {
          internal_sink = append (canonical_json_bytes stamped) log.internal_sink;
          spanning_sink = log.spanning_sink;
          chain_head = log.chain_head;
        },
      )
      else (err type_error, log)

  unfoldable pub emit_spanning : ℕ → Event → EventLog → Outcome EventError Text × EventLog
  emit_spanning now event log =
      let stamped = stamp now event in
      if is_spanning event
      then (elim (append_chained (dumped stamped) log.spanning_sink) [
        | err e ↦ (err e, log)
        | ok (new_head, sink) ↦ (
          ok (elim stamped.event_id [ some i ↦ i | none ↦ new_head ]),
          record { internal_sink = log.internal_sink; spanning_sink = sink; chain_head = new_head },
        )
      ])
      else (err type_error, log)

  -- `_loads`
  unfoldable pub load_object : StreamPath → ℕ → Text → Outcome EventError Object
  load_object path n l = elim (loads l) [
    | json_decode_error ↦ err (event_log_corrupted path n malformed_json)
    | non_object ↦ err (event_log_corrupted path n non_object_record)
    | object o ↦ ok o
  ]

  unfoldable pub decode_internal : ℕ → Text → Outcome EventError Event
  decode_internal n l = load_object internal_path n l >>= (λ o. elim (validate_internal o) [
    | none ↦ err (event_log_corrupted internal_path n schema_violation)
    | some e ↦ ok e
  ])

  -- The object that is validated: a record of the garbage collection less its `prev_hash`.
  unfoldable pub payload_of : Object → Object
  payload_of o = elim (as_str (Dict.get "event_type" o)) [
    | none ↦ o
    | some t ↦ if text_eq t (codes "cache_gc_completed") then Dict.remove prev_hash_key o else o
  ]

  unfoldable pub decode_spanning : ℕ → Object → Outcome EventError Event
  decode_spanning n o = elim (validate_spanning (payload_of o)) [
    | none ↦ err (event_log_corrupted spanning_path n schema_violation)
    | some e ↦ ok e
  ]

  -- The first loop of `replay`, from a line number on.
  unfoldable pub read_internal : ℕ → Lines → Outcome EventError (List Event)
  read_internal n done = ok []
  read_internal n (torn k) = err (event_log_corrupted internal_path k truncated_frame)
  read_internal n (line l rest) =
      let more = read_internal (suc n) rest in
      decode_internal n l >>= (λ e. more >>= (λ es. ok (e ∷ es)))

  -- One record against the head before it: the head behind it, and its event.
  unfoldable pub verify_record : ℕ → Text → Text → Outcome EventError (Text × Event)
  verify_record n head l = load_object spanning_path n l >>= (λ o.
      chain_step head (dumps (Dict.remove prev_hash_key o)) >>= (λ computed.
        let on_disk_prev = as_str (Dict.get prev_hash_key o) in
        if elim on_disk_prev [ some h ↦ text_eq h computed | none ↦ false ]
        then decode_spanning n o >>= (λ e. ok (computed, e))
        else err (chain_tamper_detected on_disk_prev computed)))

  -- The second loop, with its head.
  unfoldable pub read_spanning : ℕ → Text → Lines → Outcome EventError (List Event)
  read_spanning n head done = ok []
  read_spanning n head (torn k) = err (event_log_corrupted spanning_path k truncated_frame)
  read_spanning n head (line l rest) =
      verify_record n head l
      >>= (λ (computed, e). read_spanning (suc n) computed rest >>= (λ es. ok (e ∷ es)))

  unfoldable pub replay : EventLog → Outcome EventError (List Event)
  replay log = read_internal 1 (read_all log.internal_sink) >>= (λ own.
      read_spanning 1 genesis_chain_head (read_all log.spanning_sink)
      >>= (λ shared. ok (sorted key_leb (own ++ shared))))
