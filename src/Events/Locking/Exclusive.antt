-- ===== src/Events/Locking/Exclusive.antt =====
-- The chain under any order of turns: one process at a time is past the lock, and what it read is
-- the tail.
use mathlib.Core.List.{Perm, perm_middle, append_assoc, map-append}
use mathlib.Core.List.Perm
use codewizard_sherpa.Prelude.{
  ℕ, ◌+◌, ◌≡◌, refl, sym, ap, ◌∙◌, Bool, true, false, List, [], ◌∷◌, ◌++◌, map, arith, All,
  All-append, All-left, All-right, sum_by, sum_by-append, if◌then◌else◌,
}
use codewizard_sherpa.Prelude.Texts.{Text}
use codewizard_sherpa.Prelude.Outcome.{ok}
use codewizard_sherpa.Events.{dumped, chain_step, tail_chain_head, read_spanning}
use codewizard_sherpa.Events.Records.{Event, Codec, genesis_chain_head}
use codewizard_sherpa.Events.Sinks.{Sink, read_all, append}
use codewizard_sherpa.Events.Chained.{Chained, tail_from-Chained, read_spanning-ok_iff}
use codewizard_sherpa.Events.Emitting.{recorded, written, Persists, write-Chained}
use codewizard_sherpa.Events.Replaying.{forget}
use codewizard_sherpa.Events.Locking.{
  Phase, outside, locked, appended, knows, Writer, System, at, system, Turn, acquire, read, raise,
  write, release, Turns, start, more, remaining,
}

-- One where a process is past the lock.
abbrev holds : Phase → ℕ
holds outside = 0
holds p = 1

abbrev holders : List Writer → ℕ
holders ws = sum_by (λ w. holds w.phase) ws

remaining-append : (ws vs : List Writer) → remaining (ws ++ vs) ≡ remaining ws ++ remaining vs
remaining-append [] vs = refl
remaining-append (w ∷ ws) vs =
    ap (λ r. map forget w.pending ++ r) (remaining-append ws vs)
    ∙ sym (append_assoc (map forget w.pending) (remaining ws) (remaining vs))

-- A head that a process has read is the tail.
abbrev Knows : Text → Phase → Type 0
Knows tail (knows prior) = prior ≡ tail
Knows tail p = Unit

outside-Knows : (tail : Text) (p : Phase) → holds p ≡ 0 → Knows tail p
outside-Knows tail outside h = tt
outside-Knows tail locked h = tt
outside-Knows tail appended h = tt
outside-Knows tail (knows prior) h = cc

all_outside-Knows :
    (tail : Text) (ws : List Writer) → holders ws ≡ 0 → All (λ w. Knows tail w.phase) ws
all_outside-Knows tail [] h = tt
all_outside-Knows tail (w ∷ ws) h =
    (outside-Knows tail w.phase (omega arith), all_outside-Knows tail ws (omega arith))

holders-middle :
    (pre : List Writer) (w : Writer) (post : List Writer)
    → holders (pre ++ w ∷ post) ≡ holds w.phase + (holders pre + holders post)
holders-middle pre w post = omega (arith, sum_by-append (λ w. holds w.phase) pre (w ∷ post))

-- One event goes over from those to come to those recorded.
recorded-perm :
    (es before : List Event) (e : Event) (after : List Event)
    → Perm ((es ++ e ∷ []) ++ (before ++ after)) (es ++ (before ++ e ∷ after))
recorded-perm es before e after =
    rw (append_assoc es (e ∷ []) (before ++ after))
      (Perm.append_left es (Perm.symm (perm_middle before after)))

all_idle : (ws : List Writer) → All (λ w. w.phase ≡ outside) ws → holders ws ≡ 0
all_idle [] h = refl
all_idle (w ∷ ws) h = ground (arith, h.0, all_idle ws h.1)

module _ (codec : Codec) (goal : List Event) where
  -- The file is chained, at most one process is past the lock, a head that was read is the tail,
  -- and what is recorded and what is to come is all there was.
  pub record IsConsistent (s : System) : Type 0 where
    pub events : List Event
    pub tail : Text
    pub chained : Chained codec genesis_chain_head (read_all s.sink) events tail
    pub exclusive : holders s.writers ≡ (if s.held then 1 else 0)
    pub fresh : All (λ w. Knows tail w.phase) s.writers
    pub persists : All (λ w. All (Persists codec) w.pending) s.writers
    pub kept : Perm (map forget events ++ remaining s.writers) goal

  -- A process changes its phase, its events stay.
  IsConsistent-moves :
      (sink : Sink) (held held' : Bool) (pre post : List Writer) (p q : Phase) (es : List Event)
      → (i : IsConsistent (system sink held (pre ++ at p es ∷ post)))
      → (if held then 1 else 0) + holds q ≡ (if held' then 1 else 0) + holds p
      → Knows i.tail q
      → IsConsistent (system sink held' (pre ++ at q es ∷ post))
  IsConsistent-moves sink held held' pre post p q es i count k = record {
    events = i.events;
    tail = i.tail;
    chained = i.chained;
    exclusive = omega (
      arith,
      holders-middle pre (at p es) post,
      holders-middle pre (at q es) post,
      i.exclusive,
      count,
    );
    fresh =
        All-append (λ w. Knows i.tail w.phase) pre (at q es ∷ post)
          (All-left (λ w. Knows i.tail w.phase) pre (at p es ∷ post) i.fresh)
          (k, (All-right (λ w. Knows i.tail w.phase) pre (at p es ∷ post) i.fresh).1);
    persists =
        All-append (λ w. All (Persists codec) w.pending) pre (at q es ∷ post)
          (All-left (λ w. All (Persists codec) w.pending) pre (at p es ∷ post) i.persists)
          (All-right (λ w. All (Persists codec) w.pending) pre (at p es ∷ post) i.persists);
    kept =
        rw (remaining-append pre (at q es ∷ post))
          (rw (remaining-append pre (at p es ∷ post)) at i.kept);
  }

  -- The process that appends behind the tail records its event.
  IsConsistent-writes :
      (sink : Sink) (held : Bool) (pre post : List Writer) (e : Event) (es : List Event)
      (prior next : Text)
      → chain_step codec prior (codec.dumps (dumped codec e)) ≡ ok next
      → IsConsistent (system sink held (pre ++ at (knows prior) (e ∷ es) ∷ post))
      → IsConsistent
          (system (append (written codec next e) sink) held (pre ++ at appended es ∷ post))
  IsConsistent-writes sink held pre post e es prior next step i =
      let w = at (knows prior) (e ∷ es) in
      let v = at appended es in
      let P : Writer → Type 0 = λ w. All (Persists codec) w.pending in
      let own = (All-right (λ w. Knows i.tail w.phase) pre (w ∷ post) i.fresh).0 in
      let behind = All-right P pre (w ∷ post) i.persists in
      let others : holders pre + holders post ≡ 0 =
        ground (arith, holders-middle pre w post, i.exclusive) in
      record {
        events = i.events ++ recorded next e ∷ [];
        tail = next;
        chained = write-Chained codec e sink behind.0.0 i.chained (rw own at step);
        exclusive =
            omega (arith, holders-middle pre w post, holders-middle pre v post, i.exclusive);
        fresh =
            All-append (λ w. Knows next w.phase) pre (v ∷ post)
              (all_outside-Knows next pre (omega arith))
              (tt, all_outside-Knows next post (omega arith));
        persists =
            All-append P pre (v ∷ post) (All-left P pre (w ∷ post) i.persists)
              (behind.0.1, behind.1);
        kept =
            rw (map-append forget i.events (recorded next e ∷ []), remaining-append pre (v ∷ post))
              (Perm.trans
                (recorded-perm (map forget i.events) (remaining pre) (forget e)
                  (map forget es ++ remaining post))
                (rw (remaining-append pre (w ∷ post)) at i.kept));
      }

  found :
      {es : List Event} {tail : Text} (sink : Sink)
      → Chained codec genesis_chain_head (read_all sink) es tail
      → tail_chain_head codec sink ≡ ok tail
  unfolding tail_chain_head
  found sink c = tail_from-Chained codec c

  Turn-IsConsistent : (s t : System) → Turn codec s t → IsConsistent s → IsConsistent t
  Turn-IsConsistent s t (acquire sink pre post e es) i =
      IsConsistent-moves sink false true pre post outside locked (e ∷ es) i (omega arith) tt
  Turn-IsConsistent s t (read sink held pre post e es prior h) i =
      IsConsistent-moves sink held held pre post locked (knows prior) (e ∷ es) i (omega arith)
        (ground (arith, h, found sink i.chained))
  Turn-IsConsistent s t (raise sink held pre post e es x h) i =
      absurd (ground (arith, h, found sink i.chained))
  Turn-IsConsistent s t (write sink held pre post e es prior next h) i =
      IsConsistent-writes sink held pre post e es prior next h i
  Turn-IsConsistent s t (release sink held pre post es) i =
      IsConsistent-moves sink held false pre post appended outside es i
        (ground (arith, holders-middle pre (at appended es) post, i.exclusive)) tt

  Turns-IsConsistent : {s t : System} → Turns codec s t → IsConsistent s → IsConsistent t
  Turns-IsConsistent start i = i
  Turns-IsConsistent (more {t = t} {u = u} turns turn) i =
      Turn-IsConsistent t u turn (Turns-IsConsistent turns i)

-- Several processes emit to one file, which starts out chained and with no process past the lock.
-- In whatever order they take their turns, the file stays chained: a replay returns its events,
-- and these and the events to come are those there were at the start, none lost and none twice.
pub interleaved_emits :
    (codec : Codec) (sink : Sink) (writers : List Writer) (t : System) (es : List Event)
    (tail : Text)
    → Chained codec genesis_chain_head (read_all sink) es tail
    → All (λ w. w.phase ≡ outside) writers
    → All (λ w. All (Persists codec) w.pending) writers
    → Turns codec (system sink false writers) t
    → (fs : List Event) × (read_spanning codec 1 genesis_chain_head (read_all t.sink) ≡ ok fs)
      × Perm (map forget fs ++ remaining t.writers) (map forget es ++ remaining writers)
interleaved_emits codec sink writers t es tail chained idle persists turns =
    let none : holders writers ≡ 0 = all_idle writers idle in
    let begin : IsConsistent codec (map forget es ++ remaining writers)
        (system sink false writers) =
      record {
        events = es;
        tail = tail;
        chained = chained;
        exclusive = none;
        fresh = all_outside-Knows tail writers none;
        persists = persists;
        kept = Perm.refl (map forget es ++ remaining writers);
      } in
    let i = Turns-IsConsistent codec (map forget es ++ remaining writers) turns begin in
    (
      i.events,
      (read_spanning-ok_iff codec 1 genesis_chain_head (read_all t.sink) i.events).1
          (i.tail, i.chained),
      i.kept,
    )
