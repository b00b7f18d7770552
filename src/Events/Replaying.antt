-- ===== src/Events/Replaying.antt =====
-- `emit_internal`, `emit_spanning` and `replay` of events.py together: what was emitted is
-- replayed.
use mathlib.Core.List.{Perm, append_assoc, append-nil}
use codewizard_sherpa.Prelude.{
  ℕ, suc, ◌≡◌, refl, ap, Bool, true, false, none, some, List, [], ◌∷◌, ◌++◌, map, arith, All, ◌⊎◌,
  inl, inr, if◌then◌else◌,
}
use codewizard_sherpa.Prelude.Texts.{Text, text_leb_total, text_leb_trans}
use codewizard_sherpa.Prelude.Outcome.{ok, ◌>>=◌, >>=-eq-ok}
use codewizard_sherpa.Prelude.Sorting.{sorted, sorted-perm, IsSorted, sorted-IsSorted}
use codewizard_sherpa.Events.{
  canonical_json_bytes, load_object, decode_internal, read_internal, EventLog, emit_internal,
  emit_spanning, replay,
}
use codewizard_sherpa.Events.Records.{
  Event, Object, object, Codec, genesis_chain_head, is_internal, is_spanning, stamp,
  replay_sort_key, key_leb,
}
use codewizard_sherpa.Events.Sinks.{
  Lines, done, torn, line, read_all, IsLine, snoc, read_all-append,
}
use codewizard_sherpa.Events.Chained.{Chained, ends, read_spanning-ok_iff}
use codewizard_sherpa.Events.Emitting.{recorded, Persists, Hexadecimal, append_chained-Chained}

pub key_leb_total : (a b : Event) → key_leb a b ≡ false → key_leb b a ≡ true
unfolding key_leb
key_leb_total a b h =
    let (s, i) = replay_sort_key a in
    let (t, j) = replay_sort_key b in ground (arith, h, text_leb_total i j)

pub key_leb_trans : (a b c : Event) → key_leb a b ≡ true → key_leb b c ≡ true → key_leb a c ≡ true
unfolding key_leb
key_leb_trans a b c h k =
    let (s, i) = replay_sort_key a in
    let (t, j) = replay_sort_key b in
    let (u, l) = replay_sort_key c in ground (arith, h, k, text_leb_trans i j l)

-- The event less its `prev_hash`, which the chain sets.
abbrev pub forget : Event → Event
forget e = record {
  event_class = e.event_class;
  event_id = e.event_id;
  timestamp = e.timestamp;
  wall_clock = e.wall_clock;
  prev_hash = none;
  content = e.content;
}

-- A call by the time of the clock and the event.
abbrev pub Call : Type 0
Call = ℕ × Event

-- The events of the calls, as stamped, of one of the two streams.
abbrev pub stamped : (Event → Bool) → List Call → List Event
stamped of_stream [] = []
stamped of_stream ((now, e) ∷ calls) =
    if of_stream e then stamp now e ∷ stamped of_stream calls else stamped of_stream calls

internal-not_spanning : (e : Event) → is_internal e ≡ true → is_spanning e ≡ false
unfolding is_internal is_spanning
internal-not_spanning e h = ground (arith, h)

module _ (codec : Codec) where
  open codec use {dumps, loads, validate_internal}

  -- A call of the emitter for the stream of the event, and a list of them.
  abbrev pub emit : Call → EventLog → EventLog
  emit (now, e) log =
      if is_internal e then (emit_internal codec now e log).1 else (emit_spanning codec now e log).1

  abbrev pub emit_all : List Call → EventLog → EventLog
  emit_all [] log = log
  emit_all (c ∷ calls) log = emit_all calls (emit c log)

  -- The record of an event of a workflow is one line, which is read back as the event.
  pub record PersistsInternal (e : Event) : Type 0 where
    pub is_line : IsLine (canonical_json_bytes codec e)
    pub o : Object
    pub parses : loads (canonical_json_bytes codec e) ≡ object o
    pub validates : validate_internal o ≡ some e

  -- The event is of one of the streams, and its record persists there.
  abbrev pub Writes : Call → Type 0
  Writes (now, e) =
      ((is_internal e ≡ true) × PersistsInternal (stamp now e))
      ⊎ ((is_internal e ≡ false) × (is_spanning e ≡ true) × Persists codec (stamp now e))

  -- The log holds the events: those of the workflow parse, the others are chained.
  pub record Holds (log : EventLog) (own shared : List Event) : Type 0 where
    pub tail : Text
    pub decodes : (n : ℕ) → read_internal codec n (read_all log.internal_sink) ≡ ok own
    pub chained : Chained codec genesis_chain_head (read_all log.spanning_sink) shared tail

  decode_internal-ok :
      (n : ℕ) (e : Event)
      → PersistsInternal e
      → decode_internal codec n (canonical_json_bytes codec e) ≡ ok e
  unfolding decode_internal load_object
  decode_internal-ok n e p = ground (arith, p.parses, p.validates)

  read_internal-snoc :
      (e : Event)
      → PersistsInternal e
      → (lines : Lines) (n : ℕ) (own : List Event) → read_internal codec n lines ≡ ok own
      → read_internal codec n (snoc (canonical_json_bytes codec e) lines) ≡ ok (own ++ e ∷ [])
  unfolding read_internal
  read_internal-snoc e p done n own h =
      let e' : [] ≡ own = ground (arith, h) in rw⁻¹ e' (rw (decode_internal-ok n e p) refl)
  read_internal-snoc e p (torn k) n own h = cc
  read_internal-snoc e p (line l rest) n own h =
      let (x, q, r) =
        >>=-eq-ok (decode_internal codec n l)
          (λ e. read_internal codec (suc n) rest >>= (λ es. ok (e ∷ es))) h in
      let (more, s, u) = >>=-eq-ok (read_internal codec (suc n) rest) (λ es. ok (x ∷ es)) r in
      let same : x ∷ more ≡ own = ground (arith, u) in
      rw⁻¹ same (rw (q, read_internal-snoc e p rest (suc n) more s) refl)

  -- An event of the workflow.
  emit_internal-Holds :
      (now : ℕ) (e : Event) (log : EventLog) (own shared : List Event)
      → is_internal e ≡ true
      → PersistsInternal (stamp now e)
      → Holds log own shared
      → Holds (emit_internal codec now e log).1 (own ++ stamp now e ∷ []) shared
  unfolding emit_internal
  emit_internal-Holds now e log own shared i p h =
      rw (i, emit_internal)
        (record {
          tail = h.tail;
          decodes = λ n.
              rw
                (read_all-append (canonical_json_bytes codec (stamp now e)) p.is_line
                  log.internal_sink)
                (read_internal-snoc (stamp now e) p (read_all log.internal_sink) n own
                  (h.decodes n));
          chained = h.chained;
        })

  -- An event of the shared stream, with the head it is recorded with.
  emit_spanning-Holds :
      Hexadecimal codec
      → (now : ℕ) (e : Event) (log : EventLog) (own shared : List Event) → is_spanning e ≡ true
      → Persists codec (stamp now e)
      → Holds log own shared
      → (next : Text) × Holds
          (emit_spanning codec now e log).1
          own
          (shared ++ recorded next (stamp now e) ∷ [])
  unfolding emit_spanning
  emit_spanning-Holds hex now e log own shared i p h =
      let (next, after, ran, step, c) =
        append_chained-Chained codec hex (stamp now e) log.spanning_sink p h.chained in
      (next, rw (i, emit_spanning, ran) (record { tail = next; decodes = h.decodes; chained = c }))

  emit_all-Holds :
      Hexadecimal codec
      → (calls : List Call) → All Writes calls
      → (log : EventLog) (own shared : List Event) → Holds log own shared
      → (more : List Event) × Holds
          (emit_all calls log)
          (own ++ stamped is_internal calls)
          (shared ++ more)
        × (map forget more ≡ map forget (stamped is_spanning calls))
  emit_all-Holds hex [] ws log own shared h =
      ([], rw (append-nil {A = Event}, append-nil {A = Event}) h, refl)
  emit_all-Holds hex ((now, e) ∷ calls) ws log own shared h = elim ws.0 [
    | inl (i, p) ↦
        let step = emit_internal-Holds now e log own shared i p h in
        let (more, h', f) =
          emit_all-Holds hex calls ws.1 (emit_internal codec now e log).1 (own ++ stamp now e ∷ [])
            shared step in
        let other = internal-not_spanning e i in
        rw (i, other)
          (more, rw⁻¹ (append_assoc own (stamp now e ∷ []) (stamped is_internal calls)) h', f)
    | inr (o, i, p) ↦
        let (next, step) = emit_spanning-Holds hex now e log own shared i p h in
        let (more, h', f) =
          emit_all-Holds hex calls ws.1 (emit_spanning codec now e log).1 own
            (shared ++ recorded next (stamp now e) ∷ []) step in
        rw (o, i)
          (
            recorded next (stamp now e) ∷ more,
            rw⁻¹ (append_assoc shared (recorded next (stamp now e) ∷ []) more) h',
            ap (λ l. forget (stamp now e) ∷ l) f,
          )
  ]

  replay-Holds :
      (log : EventLog) (own shared : List Event)
      → Holds log own shared
      → replay codec log ≡ ok (sorted key_leb (own ++ shared))
  unfolding replay
  replay-Holds log own shared h =
      rw
        (
          h.decodes 1,
          (read_spanning-ok_iff codec 1 genesis_chain_head (read_all log.spanning_sink) shared).1
              (h.tail, h.chained),
        )
        refl

  -- What a replay gives back of the calls, in the order of time and id.
  pub record Replays (calls : List Call) (es : List Event) : Type 0 where
    pub own : List Event
    pub shared : List Event
    pub complete : Perm es (own ++ shared)
    pub in_order : IsSorted key_leb es
    pub as_stamped : own ≡ stamped is_internal calls
    pub as_chained : map forget shared ≡ map forget (stamped is_spanning calls)

  -- On a new log, of either kind of sink, any calls of the two emitters whose records JSON and
  -- pydantic give back are replayed without an error: all of them and nothing else, as stamped,
  -- those of the shared stream with the heads of their chain, sorted by time and id.
  pub emit_all-Replays :
      Hexadecimal codec
      → (calls : List Call) (log : EventLog) → All Writes calls
      → read_all log.internal_sink ≡ done
      → read_all log.spanning_sink ≡ done
      → (es : List Event) × (replay codec (emit_all calls log) ≡ ok es) × Replays calls es
  unfolding read_internal
  emit_all-Replays hex calls log ws own_empty shared_empty =
      let start : Holds log [] [] = record {
        tail = genesis_chain_head;
        decodes = λ n. rw own_empty refl;
        chained = rw shared_empty ends;
      } in
      let (more, h, f) = emit_all-Holds hex calls ws log [] [] start in
      let all = stamped is_internal calls ++ more in
      (
        sorted key_leb all,
        replay-Holds (emit_all calls log) (stamped is_internal calls) more h,
        record {
          own = stamped is_internal calls;
          shared = more;
          complete = sorted-perm key_leb all;
          in_order = sorted-IsSorted key_leb key_leb_total key_leb_trans all;
          as_stamped = refl;
          as_chained = f;
        },
      )
