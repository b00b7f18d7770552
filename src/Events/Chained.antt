-- ===== src/Events/Chained.antt =====
-- Spanning streams in which every record is the next link, against the loops of events.py.
use codewizard_sherpa.Prelude.{
  ℕ, suc, ◌≡◌, ◌↔◌, refl, some, List, [], ◌∷◌, ◌++◌, arith, ◌⊎◌, inl, inr, Bool-cases, Option-cases,
}
use codewizard_sherpa.Prelude.Dict
use codewizard_sherpa.Prelude.Texts.{Text, text_eq, text_eq_iff}
use codewizard_sherpa.Prelude.Outcome.{ok, ◌>>=◌, Outcome-cases, >>=-eq-ok}
use codewizard_sherpa.Events.{
  chain_step, tail_from, load_object, payload_of, decode_spanning, verify_record, read_spanning,
}
use codewizard_sherpa.Events.Records.{
  Event, Object, Loaded, json_decode_error, non_object, object, Codec, prev_hash_key, as_str,
}
use codewizard_sherpa.Events.Sinks.{Lines, done, torn, line, snoc}

pub Loaded-cases :
    (r : Loaded) → (r ≡ json_decode_error) ⊎ ((r ≡ non_object) ⊎ ((o : Object) × (r ≡ object o)))
Loaded-cases json_decode_error = inl refl
Loaded-cases non_object = inr (inl refl)
Loaded-cases (object o) = inr (inr (o, refl))

module _ (codec : Codec) where
  open codec use {dumps, loads, validate_spanning}

  -- The record is the link behind `head`: it holds its event, and as `prev_hash` the head `next`
  -- that the rest of it gives.
  pub record Link (head : Text) (l : Text) (e : Event) (next : Text) : Type 0 where
    pub o : Object
    pub parses : loads l ≡ object o
    pub on_disk : as_str (Dict.get prev_hash_key o) ≡ some next
    pub computed : chain_step codec head (dumps (Dict.remove prev_hash_key o)) ≡ ok next
    pub validates : validate_spanning (payload_of codec o) ≡ some e

  -- `Chained head lines es tail`: all lines are links, from `head` to `tail`.
  pub data Chained : Text → Lines → List Event → Text → Type 0 where
    ends : {head : Text} → Chained head done [] head
    links :
        {head l next tail : Text} {rest : Lines} {e : Event} {es : List Event}
        → Link head l e next
        → Chained next rest es tail
        → Chained head (line l rest) (e ∷ es) tail

  pub verify_record-ok :
      (n : ℕ) (head l next : Text) (e : Event)
      → Link head l e next
      → verify_record codec n head l ≡ ok (next, e)
  unfolding verify_record load_object decode_spanning
  verify_record-ok n head l next e k =
      ground (arith, k.parses, k.on_disk, k.computed, k.validates, text_eq_iff next next)

  verify_record-Link :
      (n : ℕ) (head l next : Text) (e : Event)
      → verify_record codec n head l ≡ ok (next, e)
      → Link head l e next
  unfolding verify_record load_object decode_spanning
  verify_record-Link n head l next e h = elim (Loaded-cases (loads l)) [
    | inl p ↦ absurd (ground (arith, h, p))
    | inr (inl p) ↦ absurd (ground (arith, h, p))
    | inr (inr (o, p)) ↦
        elim (Outcome-cases (chain_step codec head (dumps (Dict.remove prev_hash_key o)))) [
          | inl (x, q) ↦ absurd (ground (arith, h, p, q))
          | inr (computed, q) ↦ elim (Option-cases (as_str (Dict.get prev_hash_key o))) [
            | inl r ↦ absurd (ground (arith, h, p, q, r))
            | inr (found, r) ↦ elim (Bool-cases (text_eq found computed)) [
              | inr s ↦ absurd (ground (arith, h, p, q, r, s))
              | inl s ↦ elim (Option-cases (validate_spanning (payload_of codec o))) [
                | inl v ↦ absurd (ground (arith, h, p, q, r, s, v))
                | inr (f, v) ↦ record {
                  o = o;
                  parses = p;
                  on_disk = ground (arith, h, p, q, r, s, v, text_eq_iff found computed);
                  computed = ground (arith, h, p, q, r, s, v);
                  validates = ground (arith, h, p, q, r, s, v);
                }
              ]
            ]
          ]
        ]
  ]

  pub tail_from-Chained :
      {head tail : Text} {lines : Lines} {es : List Event}
      → Chained head lines es tail
      → tail_from codec head lines ≡ ok tail
  unfolding tail_from
  tail_from-Chained ends = refl
  tail_from-Chained {head = head} (links {rest = rest} k more) =
      rw (k.parses, tail_from, k.on_disk) (tail_from-Chained more)

  pub Chained-snoc :
      {head tail l next : Text} {lines : Lines} {e : Event} {es : List Event}
      → Chained head lines es tail
      → Link tail l e next
      → Chained head (snoc l lines) (es ++ e ∷ []) next
  Chained-snoc ends k = links k ends
  Chained-snoc (links j more) k = links j (Chained-snoc more k)

  Chained-read :
      (n : ℕ) {head tail : Text} {lines : Lines} {es : List Event}
      → Chained head lines es tail
      → read_spanning codec n head lines ≡ ok es
  unfolding read_spanning
  Chained-read n ends = refl
  Chained-read n {head = head} (links {l = l} {next = next} {e = e} k more) =
      rw (verify_record-ok n head l next e k, Chained-read (suc n) more) refl

  read-Chained :
      (n : ℕ) (head : Text) (lines : Lines) (es : List Event)
      → read_spanning codec n head lines ≡ ok es
      → (tail : Text) × Chained head lines es tail
  unfolding read_spanning
  read-Chained n head done es h = let e : [] ≡ es = ground (arith, h) in (head, rw⁻¹ e ends)
  read-Chained n head (torn k) es h = cc
  read-Chained n head (line l rest) es h =
      let ((next, e), p, q) =
        >>=-eq-ok (verify_record codec n head l)
          (λ (computed, e). read_spanning codec (suc n) computed rest >>= (λ es. ok (e ∷ es))) h in
      let (more, r, s) = >>=-eq-ok (read_spanning codec (suc n) next rest) (λ es. ok (e ∷ es)) q in
      let (tail, chained) = read-Chained (suc n) next rest more r in
      let same : e ∷ more ≡ es = ground (arith, s) in
      (tail, rw⁻¹ same (links (verify_record-Link n head l next e p) chained))

  -- The second loop of `replay` returns events exactly on a stream in which every record parses,
  -- is a link to the record before it and holds its event.
  pub read_spanning-ok_iff :
      (n : ℕ) (head : Text) (lines : Lines) (es : List Event)
      → (read_spanning codec n head lines ≡ ok es) ↔ ((tail : Text) × Chained head lines es tail)
  read_spanning-ok_iff n head lines es =
      (read-Chained n head lines es, λ (tail, chained). Chained-read n chained)
