-- ===== src/Coordinator/Agreement.antt =====
-- coordinator.py: whatever turns a wave takes, its executions are those of single dispatches.
use codewizard_sherpa.Prelude.{
  ℕ, String, ◌≡◌, ◌≢◌, refl, sym, ◌∙◌, ◌⊎◌, inl, inr, List, [], ◌∷◌, ◌++◌, map, arith, Bool-cases,
  Option-cases, All, All-append, All-left, All-right,
}
use codewizard_sherpa.Prelude.Distinct.{AreDistinct, AreDistinct-middle, AreDistinct-replace}
use codewizard_sherpa.Prelude.Outcome.{ok, Outcome-cases}
use codewizard_sherpa.Coordinator.{
  Environment, Probe, ProbeOutput, RepoSnapshot, ProbeExecution, RunResult, Begun, over, started,
  broken, store_clean, begin, finish, dispatch_with, has_errors, run_probe_with_isolation,
  checked_output, timeout_of,
}
use codewizard_sherpa.Coordinator.Interleaving.{
  Slot, waiting, running, done, failed, Wave, wave_of, slot_of, begins, ends, Reached, called,
  turned, waiting_for,
}
use codewizard_sherpa.Coordinator.Waves.{done_slot, probe_of, map-done, Reached-probes}

module _ {Cache : Type 0} (env : Environment Cache) (s : RepoSnapshot)
    (outcome : Probe → RunResult × ℕ) where
  -- The execution that a dispatch gives on the cache `c`, if its probe's run comes to its outcome.
  abbrev pub Executes : Cache → Probe → ProbeExecution → Type 0
  Executes c p e =
      (after : Cache) × (dispatch_with env p s (outcome p).0 (outcome p).1 c ≡ ok (e, after))

  abbrev key_of : Probe → String
  key_of p = env.key_for p s

  -- The slot agrees with a dispatch on the first cache, `first`.
  abbrev Agrees : (first c : Cache) → Probe × Slot → Type 0
  Agrees first c (p, waiting) = env.cache_get (key_of p) c ≡ env.cache_get (key_of p) first
  Agrees first c (p, running key) = begin env p s first ≡ started key
  Agrees first c (p, done e) = Executes first p e
  Agrees first c (p, failed i) = begin env p s first ≡ broken i

  begin-same :
      (p : Probe) (c first : Cache)
      → env.cache_get (key_of p) c ≡ env.cache_get (key_of p) first
      → begin env p s c ≡ begin env p s first
  unfolding begin
  begin-same p c first h = ground arith

  begin-Agrees :
      (p : Probe) (c first : Cache)
      → Agrees first c (p, waiting)
      → Agrees first c (p, slot_of (begin env p s c))
  unfolding dispatch_with
  begin-Agrees p c first h = go (begin env p s c) (sym (begin-same p c first h))
    where
      go : (b : Begun) → begin env p s first ≡ b → Agrees first c (p, slot_of b)
      go (over e) i = (first, ground arith)
      go (started key) i = i
      go (broken x) i = i

  begin-key :
      (p : Probe) (c : Cache) (key : String) → begin env p s c ≡ started key → key ≡ key_of p
  unfolding begin
  begin-key p c key h = elim (Bool-cases (p.applies s)) [
    | inr a ↦ absurd (ground arith)
    | inl a ↦ elim (Option-cases (env.cache_get (key_of p) c)) [
      | inr (o, k) ↦ absurd (ground arith)
      | inl k ↦ elim (Option-cases (env.input_snapshot p s.root)) [
        | inl n ↦ ground arith
        | inr (i, n) ↦ absurd (ground arith)
      ]
    ]
  ]

  -- The end of a dispatch puts at most its own key, and its execution does not depend on the cache.
  finish-any :
      (p : Probe) (key : String) (c first after : Cache) (e : ProbeExecution)
      → finish env p (outcome p).0 (outcome p).1 key c ≡ ok (e, after)
      → ((after ≡ c) ⊎ ((o : ProbeOutput) × (after ≡ env.cache_put key o c)))
        × ((x : Cache) × (finish env p (outcome p).0 (outcome p).1 key first ≡ ok (e, x)))
  unfolding finish store_clean
  finish-any p key c first after e h =
      elim (Outcome-cases (run_probe_with_isolation (timeout_of p) (outcome p).0)) [
        | inl (i, k) ↦ absurd (ground arith)
        | inr (isolated, k) ↦ elim (Outcome-cases (checked_output env (outcome p).1 isolated)) [
          | inl (i, l) ↦ absurd (ground arith)
          | inr (po, l) ↦ elim (Outcome-cases (env.scrub po)) [
            | inl (i, m) ↦ absurd (ground arith)
            | inr (o, m) ↦ elim (Bool-cases (has_errors o)) [
              | inl d ↦ (inl (ground arith), (first, ground arith))
              | inr d ↦ (inr (o, ground arith), (env.cache_put key o first, ground arith))
            ]
          ]
        ]
      ]

  abbrev slot_key : Probe × Slot → String
  slot_key e = key_of e.0

  module _
      (get_put_other : (j k : String) (o : ProbeOutput) (c : Cache)
        → k ≢ j
        → env.cache_get k (env.cache_put j o c) ≡ env.cache_get k c) where
    put-Agrees :
        (key : String) (o : ProbeOutput) (first c : Cache) (slots : List (Probe × Slot))
        → All (λ e. slot_key e ≢ key) slots
        → All (Agrees first c) slots
        → All (Agrees first (env.cache_put key o c)) slots
    put-Agrees key o first c [] apart h = tt
    put-Agrees key o first c ((p, waiting) ∷ slots) apart h =
        (get_put_other key (key_of p) o c apart.0 ∙ h.0, put-Agrees key o first c slots apart.1 h.1)
    put-Agrees key o first c ((p, running k) ∷ slots) apart h =
        (h.0, put-Agrees key o first c slots apart.1 h.1)
    put-Agrees key o first c ((p, failed i) ∷ slots) apart h =
        (h.0, put-Agrees key o first c slots apart.1 h.1)
    put-Agrees key o first c ((p, done e) ∷ slots) apart h =
        (h.0, put-Agrees key o first c slots apart.1 h.1)

    start-Agrees :
        (first : Cache) (probes : List Probe) → All (Agrees first first) (map waiting_for probes)
    start-Agrees first [] = tt
    start-Agrees first (p ∷ probes) = (refl, start-Agrees first probes)

    start-AreDistinct :
        (probes : List Probe)
        → AreDistinct key_of probes
        → AreDistinct slot_key (map waiting_for probes)
    start-AreDistinct [] h = tt
    start-AreDistinct (p ∷ probes) h = (all probes h.0, start-AreDistinct probes h.1)
      where
        all :
            (qs : List Probe)
            → All (λ q. key_of q ≢ key_of p) qs
            → All (λ e. slot_key e ≢ key_of p) (map waiting_for qs)
        all [] i = tt
        all (q ∷ qs) i = (i.0, all qs i.1)

    -- The end of one dispatch leaves the other slots in agreement.
    ends-Agrees :
        (first c after : Cache) (p : Probe) (key : String) (e : ProbeExecution)
        → begin env p s first ≡ started key
        → finish env p (outcome p).0 (outcome p).1 key c ≡ ok (e, after)
        → (slots : List (Probe × Slot)) → All (λ x. slot_key x ≢ key_of p) slots
        → All (Agrees first c) slots
        → All (Agrees first after) slots
    ends-Agrees first c after p key e begun ended slots apart h =
        let (stored, _) = finish-any p key c first after e ended in
        elim stored [
          | inl i ↦ rw i h
          | inr (o, i) ↦
              rw i (put-Agrees key o first c slots (rw (begin-key p first key begun) apart) h)
        ]

    Reached-Agrees :
        (bound : ℕ) (probes : List Probe) (first : Cache) (w : Wave Cache)
        → AreDistinct key_of probes
        → Reached env s outcome bound probes first w
        → All (Agrees first w.cache) w.slots × AreDistinct slot_key w.slots
    unfolding dispatch_with
    Reached-Agrees bound probes first w distinct called =
        (start-Agrees first probes, start-AreDistinct probes distinct)
    Reached-Agrees bound probes first w distinct (turned reached (begins c pre post p free)) =
        let (agrees, apart) =
          Reached-Agrees bound probes first (wave_of c (pre ++ ((p, waiting) ∷ post))) distinct
            reached in
        let behind = All-right (Agrees first c) pre ((p, waiting) ∷ post) agrees in
        (
          All-append (Agrees first c) pre ((p, slot_of (begin env p s c)) ∷ post)
              (All-left (Agrees first c) pre ((p, waiting) ∷ post) agrees)
              (begin-Agrees p c first behind.0, behind.1),
          AreDistinct-replace slot_key pre (p, waiting) (p, slot_of (begin env p s c)) post refl
              apart,
        )
    Reached-Agrees bound probes first w distinct
          (turned reached (ends c after pre post p key e h)) =
        let (agrees, apart) =
          Reached-Agrees bound probes first (wave_of c (pre ++ ((p, running key) ∷ post))) distinct
            reached in
        let before = All-left (Agrees first c) pre ((p, running key) ∷ post) agrees in
        let behind = All-right (Agrees first c) pre ((p, running key) ∷ post) agrees in
        let (others_before, others_behind) =
          AreDistinct-middle slot_key pre (p, running key) post apart in
        let (_, (x, ended)) = finish-any p key c first after e h in
        let executes : Executes first p e = (x, ground arith) in
        (
          All-append (Agrees first after) pre ((p, done e) ∷ post)
              (ends-Agrees first c after p key e behind.0 h pre others_before before)
              (executes, ends-Agrees first c after p key e behind.0 h post others_behind behind.1),
          AreDistinct-replace slot_key pre (p, running key) (p, done e) post refl apart,
        )

    results-All :
        (first c : Cache) (results : List (Probe × ProbeExecution))
        → All (Agrees first c) (map done_slot results)
        → All (λ r. Executes first r.0 r.1) results
    results-All first c [] h = tt
    results-All first c (r ∷ results) h = (h.0, results-All first c results h.1)

    -- If the keys of the probes are all different and a put changes its own key only, then whatever
    -- the runs of the probes come to, in whatever time, and whatever turns a wave takes to its end,
    -- its probes are those of the call in their order, and each execution is the one that the
    -- probe's dispatch gives on the cache of the call, if its run comes to the same there.
    pub turns_agree :
        (bound : ℕ) (probes : List Probe) (first : Cache) (w : Wave Cache)
        → AreDistinct key_of probes
        → Reached env s outcome bound probes first w
        → (results : List (Probe × ProbeExecution)) → w.slots ≡ map done_slot results
        → (map probe_of results ≡ probes) × All (λ r. Executes first r.0 r.1) results
    turns_agree bound probes first w distinct reached results h =
        let (agrees, _) = Reached-Agrees bound probes first w distinct reached in
        let kept = Reached-probes env s outcome bound probes first w reached in
        (sym (map-done results) ∙ rw h at kept, results-All first w.cache results (rw h at agrees))
