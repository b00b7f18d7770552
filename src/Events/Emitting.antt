-- ===== src/Events/Emitting.antt =====
-- `emit_spanning` and `emit_internal` of events.py: what a call adds to a log whose spanning
-- stream is chained.
use codewizard_sherpa.Prelude.{◌≡◌, refl, some, List, [], ◌∷◌, ◌++◌, arith, inl, inr, Option-cases}
use codewizard_sherpa.Prelude.Dict
use codewizard_sherpa.Prelude.Texts.{Text, codes, remove_prefix}
use codewizard_sherpa.Prelude.Outcome.{ok}
use codewizard_sherpa.Workflows.Checkpoints.{content_hash_bytes}
use codewizard_sherpa.Events.{dumped, chain_step, tail_chain_head, append_chained, payload_of}
use codewizard_sherpa.Events.Records.{
  spanning, Event, Object, str_field, object, Codec, prev_hash_key, as_str, genesis_chain_head,
}
use codewizard_sherpa.Events.Sinks.{Sink, read_all, append, IsLine, read_all-append}
use codewizard_sherpa.Events.Chained.{Link, Chained, ends, links, tail_from-Chained, Chained-snoc}

-- The event as a replay gives it back: a chained class carries its `prev_hash`.
abbrev pub recorded : Text → Event → Event
recorded head e = record {
  event_class = e.event_class;
  event_id = e.event_id;
  timestamp = e.timestamp;
  wall_clock = e.wall_clock;
  prev_hash = elim e.event_class [ spanning ↦ some head | _ ↦ e.prev_hash ];
  content = e.content;
}

module _ (codec : Codec) where
  open codec use {dumps, loads, validate_internal, validate_spanning, fromhex, substrate}

  abbrev pub written : Text → Event → Text
  written head e = dumps (Dict.put prev_hash_key (str_field head) (dumped codec e))

  -- What JSON and pydantic do with an event of the spanning stream: its record is one line, which
  -- is read back with its `prev_hash`, with the same bytes without it, and as the event.
  pub record Persists (e : Event) : Type 0 where
    pub is_line : (head : Text) → IsLine (written head e)
    pub reads :
        (head : Text)
        → (o : Object) × (loads (written head e) ≡ object o)
          × (as_str (Dict.get prev_hash_key o) ≡ some head)
          × (dumps (Dict.remove prev_hash_key o) ≡ dumps (dumped codec e))
          × (validate_spanning (payload_of codec o) ≡ some (recorded head e))

  -- The record of an event that is appended behind the tail of a chain.
  pub write-Chained :
      (e : Event) (sink : Sink) {es : List Event} {tail next : Text}
      → Persists e
      → Chained codec genesis_chain_head (read_all sink) es tail
      → chain_step codec tail (dumps (dumped codec e)) ≡ ok next
      → Chained codec genesis_chain_head
          (read_all (append (written next e) sink))
          (es ++ recorded next e ∷ [])
          next
  write-Chained e sink {tail = tail} {next = next} p c step =
      let (o, parses, on_disk, body, validates) = p.reads next in
      let link : Link codec tail (written next e) (recorded next e) next = record {
        o = o;
        parses = parses;
        on_disk = on_disk;
        computed = rw body step;
        validates = validates;
      } in
      rw (read_all-append (written next e) (p.is_line next) sink) (Chained-snoc codec c link)

  abbrev pub IsHex : Text → Type 0
  IsHex head = (bytes : Text) × (fromhex head ≡ some bytes)

  -- The first head is hexadecimal and so is each digest behind its prefix.
  pub record Hexadecimal : Type 0 where
    pub genesis : IsHex genesis_chain_head
    pub digest :
        (b : Text) → IsHex (remove_prefix (codes "blake3:") (content_hash_bytes substrate b))

  module _ (hex : Hexadecimal) where
    step_ok :
        (head body : Text)
        → IsHex head
        → (next : Text) × (chain_step codec head body ≡ ok next) × IsHex next
    unfolding chain_step
    step_ok head body (bytes, p) = (
      remove_prefix (codes "blake3:") (content_hash_bytes substrate (bytes ++ body)),
      rw (p, chain_step) refl,
      hex.digest (bytes ++ body),
    )

    step-IsHex : (head body next : Text) → chain_step codec head body ≡ ok next → IsHex next
    unfolding chain_step
    step-IsHex head body next h = elim (Option-cases (fromhex head)) [
      | inl p ↦ absurd (ground (arith, h, p))
      | inr (bytes, p) ↦
          let e : remove_prefix (codes "blake3:") (content_hash_bytes substrate (bytes ++ body))
              ≡ next =
            ground (arith, h, p) in
          rw⁻¹ e (hex.digest (bytes ++ body))
    ]

    pub tail-IsHex :
        {head tail : Text} {lines : _} {es : List Event}
        → IsHex head
        → Chained codec head lines es tail
        → IsHex tail
    tail-IsHex h ends = h
    tail-IsHex {head = head} h (links {next = next} k more) =
        tail-IsHex (step-IsHex head (dumps (Dict.remove prev_hash_key k.o)) next k.computed) more

    -- An append under the lock to a chained sink writes the next link.
    pub append_chained-Chained :
        (e : Event) (sink : Sink) {es : List Event} {tail : Text}
        → Persists e
        → Chained codec genesis_chain_head (read_all sink) es tail
        → (next : Text) × (after : Sink) × (append_chained codec (dumped codec e) sink
            ≡ ok (next, after))
          × (chain_step codec tail (dumps (dumped codec e)) ≡ ok next)
          × Chained codec genesis_chain_head (read_all after) (es ++ recorded next e ∷ []) next
    unfolding append_chained tail_chain_head
    append_chained-Chained e sink {es = es} {tail = tail} p c =
        let (next, step, hexes) =
          step_ok tail (dumps (dumped codec e)) (tail-IsHex hex.genesis c) in
        (
          next,
          append (written next e) sink,
          rw (tail_from-Chained codec c, step) refl,
          step,
          write-Chained e sink p c step,
        )
