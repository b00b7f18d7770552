-- ===== src/Events/Locking.antt =====
-- `emit_spanning` of events.py by several processes on one file: the turns that the lock allows,
-- one for the lock, the read of the tail, the append and the release.
pub mod Exclusive
use mathlib.Core.List.{Perm, perm_middle, append_assoc, map-append}
use mathlib.Core.List.Perm
use codewizard_sherpa.Prelude.{
  ℕ, zero, suc, ◌+◌, ◌≡◌, refl, sym, ap, ◌∙◌, Bool, true, false, List, [], ◌∷◌, ◌++◌, map, arith,
  All, All-append, All-left, All-right, sum_by, sum_by-append, if◌then◌else◌,
}
use codewizard_sherpa.Prelude.Texts.{Text}
use codewizard_sherpa.Prelude.Outcome.{ok, err}
use codewizard_sherpa.Events.{dumped, chain_step, tail_chain_head, read_spanning}
use codewizard_sherpa.Events.Records.{Event, EventError, Codec, genesis_chain_head}
use codewizard_sherpa.Events.Sinks.{Sink, read_all, append}
use codewizard_sherpa.Events.Chained.{Chained, tail_from-Chained, read_spanning-ok_iff}
use codewizard_sherpa.Events.Emitting.{recorded, written, Persists, Hexadecimal, write-Chained}
use codewizard_sherpa.Events.Replaying.{forget}

-- Where a process is in the method.
pub data Phase : Type 0 where
  outside locked appended : Phase
  knows : (prior_head : Text) → Phase

-- A process, with the stamped events that it has not emitted.
pub record Writer : Type 0 where
  pub phase : Phase
  pub pending : List Event

-- The file, whether its lock is held, and the processes.
pub record System : Type 0 where
  pub sink : Sink
  pub held : Bool
  pub writers : List Writer

abbrev pub at : Phase → List Event → Writer
at phase pending = record { phase = phase; pending = pending }

abbrev pub system : Sink → Bool → List Writer → System
system sink held writers = record { sink = sink; held = held; writers = writers }

module _ (codec : Codec) where
  open codec use {dumps}

  pub data Turn : System → System → Type 0 where
    acquire :
        (sink : Sink) (pre post : List Writer) (e : Event) (es : List Event)
        → Turn
            (system sink false (pre ++ at outside (e ∷ es) ∷ post))
            (system sink true (pre ++ at locked (e ∷ es) ∷ post))
    read :
        (sink : Sink) (held : Bool) (pre post : List Writer) (e : Event) (es : List Event)
        (prior : Text)
        → tail_chain_head codec sink ≡ ok prior
        → Turn
            (system sink held (pre ++ at locked (e ∷ es) ∷ post))
            (system sink held (pre ++ at (knows prior) (e ∷ es) ∷ post))
    raise :
        (sink : Sink) (held : Bool) (pre post : List Writer) (e : Event) (es : List Event)
        (x : EventError)
        → tail_chain_head codec sink ≡ err x
        → Turn
            (system sink held (pre ++ at locked (e ∷ es) ∷ post))
            (system sink false (pre ++ at outside es ∷ post))
    write :
        (sink : Sink) (held : Bool) (pre post : List Writer) (e : Event) (es : List Event)
        (prior next : Text)
        → chain_step codec prior (dumps (dumped codec e)) ≡ ok next
        → Turn
            (system sink held (pre ++ at (knows prior) (e ∷ es) ∷ post))
            (system (append (written codec next e) sink) held (pre ++ at appended es ∷ post))
    release :
        (sink : Sink) (held : Bool) (pre post : List Writer) (es : List Event)
        → Turn
            (system sink held (pre ++ at appended es ∷ post))
            (system sink false (pre ++ at outside es ∷ post))

  pub data Turns : System → System → Type 0 where
    start : {s : System} → Turns s s
    more : {s t u : System} → Turns s t → Turn t u → Turns s u

-- The events to come, less their `prev_hash`.
abbrev pub remaining : List Writer → List Event
remaining [] = []
remaining (w ∷ ws) = map forget w.pending ++ remaining ws
