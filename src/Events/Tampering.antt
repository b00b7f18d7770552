-- ===== src/Events/Tampering.antt =====
-- events.py on a spanning stream that someone changed, or whose last frame was cut off.
use codewizard_sherpa.Prelude.{
  ℕ, suc, ◌≡◌, ◌≢◌, refl, ◌⊎◌, none, some, List, [], ◌∷◌, ◌++◌, arith, inl, inr, Bool-cases,
  List-cases,
}
use codewizard_sherpa.Prelude.Dict
use codewizard_sherpa.Prelude.Texts.{Text, codes, remove_prefix}
use codewizard_sherpa.Prelude.Outcome.{err}
use codewizard_sherpa.Workflows.Checkpoints.{content_hash_bytes}
use codewizard_sherpa.Events.{tail_from, tail_chain_head, append_chained, EventLog, emit_spanning}
use codewizard_sherpa.Events.Records.{
  Event, Object, Codec, EventError, prev_hash_key, as_str, genesis_chain_head, is_spanning,
}
use codewizard_sherpa.Events.Sinks.{
  Frame, whole, truncated, file, Lines, done, torn, line, read_frames, read_all, rstrip,
}
use codewizard_sherpa.Events.Chained.{Loaded-cases, Chained}

-- The lines of the one, then those of the other.
abbrev pub followed_by : Lines → Lines → Lines
followed_by done rest = rest
followed_by (torn n) rest = torn n
followed_by (line l more) rest = line l (followed_by more rest)

module _ (codec : Codec) where
  open codec use {dumps, loads, fromhex, substrate}

  -- The digest of a chain step.
  abbrev pub digest : Text → Text
  digest bytes = remove_prefix (codes "blake3:") (content_hash_bytes substrate bytes)

  -- What the digest of a record is taken of, behind a head of these bytes.
  abbrev pub digested : Text → Object → Text
  digested bytes o = bytes ++ dumps (Dict.remove prev_hash_key o)

  -- The record `o'` behind `bytes'`, beside one whose `prev_hash` is `next`, with the object `o`,
  -- behind `bytes`: another `prev_hash` over the same digest input, or the same `prev_hash` over
  -- another head or another body.
  abbrev pub IsChanged : (bytes bytes' next : Text) → (o o' : Object) → Type 0
  IsChanged bytes bytes' next o o' =
      ((as_str (Dict.get prev_hash_key o') ≢ some next) × (digested bytes' o' ≡ digested bytes o))
      ⊎ ((as_str (Dict.get prev_hash_key o') ≡ some next)
          × ((bytes' ≢ bytes)
              ⊎ (dumps (Dict.remove prev_hash_key o') ≢ dumps (Dict.remove prev_hash_key o))))

  -- The error that the tail of a file with a cut off frame raises.
  tail_torn :
      (n : ℕ) (head : Text) (frames after : List Frame)
      → (x : EventError) × (tail_from codec head (read_frames n (frames ++ truncated ∷ after))
          ≡ err x)
  unfolding read_frames tail_from
  tail_torn n head [] after = (_, refl)
  tail_torn n head (truncated ∷ frames) after = (_, refl)
  tail_torn n head (whole content ∷ frames) after = elim (List-cases (rstrip content)) [
    | inl e ↦ rw (e, read_frames) (tail_torn (suc n) head frames after)
    | inr (c, r, e) ↦ elim (Loaded-cases (loads (c ∷ r))) [
      | inl p ↦ rw (e, read_frames, p, tail_from) (_, refl)
      | inr (inl p) ↦ rw (e, read_frames, p, tail_from) (_, refl)
      | inr (inr (o, p)) ↦
          rw (e, read_frames, p, tail_from)
            (tail_torn (suc n)
              (elim (as_str (Dict.get prev_hash_key o)) [ some h ↦ h | none ↦ head ]) frames after)
    ]
  ]

  -- Behind a frame that was cut off no event is chained: the emitter raises and leaves the log as
  -- it was, so that the records in front of the frame stay as they are.
  pub emit_spanning_torn :
      (now : ℕ) (e : Event) (frames after : List Frame) (log : EventLog)
      → log.spanning_sink ≡ file (frames ++ truncated ∷ after)
      → (x : EventError) × ((emit_spanning codec now e log).0 ≡ err x)
        × ((emit_spanning codec now e log).1 ≡ log)
  unfolding emit_spanning append_chained tail_chain_head read_all
  emit_spanning_torn now e frames after log h =
      let (x, p) = tail_torn 0 genesis_chain_head frames after in
      elim (Bool-cases (is_spanning e)) [
        | inl i ↦ (x, ground (arith, h, p, i), ground (arith, h, p, i))
        | inr i ↦ rw (i, emit_spanning) (_, refl, refl)
      ]
