-- ===== src/Fallback/Harvest.antt =====
-- `on_validated` of tier.py: which outcomes reach the example store, and what is logged of each.
use codewizard_sherpa.Prelude.{
  String, ◌≡◌, ◌≢◌, ◌↔◌, refl, ap, true, false, Option, none, some, List, [], ◌∷◌, ◌++◌, arith, ◌⊎◌,
  inl, inr, Bool-cases,
}
use codewizard_sherpa.Prelude.Outcome.{Outcome, ok, err, Outcome-cases}
use codewizard_sherpa.Fallback.Trust.{
  TrustOutcome, TrustSignal, SignalKind, LogEvent, high, score, AllPassed, has_adapter_degraded,
  score-Scores,
}
use codewizard_sherpa.Fallback.{
  PlanOutcome, applied_from_recipe, applied_from_llm, rag_only_applicable, refused_for, llm,
  kind_of, gate_passes, skip_reason_for, SkipReason, already_harvested, trust_failed,
  low_confidence, outcome_not_harvestable, Context, ValidatedPlanOutcome, validated_outcome_from,
  harvest_skipped, solved_example_harvested, IngestError, Library, Tier, emit, harvest,
  on_validated,
}

gate_passes_iff :
    (trust : TrustOutcome)
    → (gate_passes trust ≡ true) ↔ ((trust.passed ≡ true) × (trust.confidence ≡ high))
unfolding gate_passes
gate_passes_iff trust = ground arith

module _ {Store : Type 0} (library : Library Store) where
  open library use {solved_example_id_for, contains, ingest_solved_example}

  -- A language model's plan was applied, its trust passed with high confidence, and the store has not
  -- got its example, so that the writer is called.
  pub record Writes (outcome : PlanOutcome) (trust : TrustOutcome) (context : Context)
      (t after : Tier Store) (result : Outcome IngestError String) : Type 0 where
    pub response_id : String
    pub from_llm : (d : String) × (f : Option String) × (outcome ≡ applied_from_llm d f response_id)
    pub trusted : (trust.passed ≡ true) × (trust.confidence ≡ high)
    pub new :
        contains (solved_example_id_for (validated_outcome_from context response_id)) t.store
        ≡ false
    pub ingested :
        ingest_solved_example (validated_outcome_from context response_id) t.store
        ≡ (result, after.store)
    pub kept : (after.pending_anchors ≡ t.pending_anchors) × (after.written ≡ t.written)

  -- The reason that is logged: what was applied is not a language model's plan, its trust did not
  -- pass, or passed with less than high confidence, or the store has got its example.
  abbrev pub IsReason : PlanOutcome → TrustOutcome → Context → Tier Store → SkipReason → Type 0
  IsReason outcome trust context t reason =
      ((kind_of outcome ≢ llm) × (reason ≡ outcome_not_harvestable))
      ⊎ (((kind_of outcome ≡ llm) × (trust.passed ≡ false) × (reason ≡ trust_failed))
          ⊎ (((kind_of outcome ≡ llm)
                × (trust.passed ≡ true)
                × (trust.confidence ≢ high)
                × (reason ≡ low_confidence))
              ⊎ ((r : String) × (d : String) × (f : Option String) × (outcome
                    ≡ applied_from_llm d f r)
                  × (contains (solved_example_id_for (validated_outcome_from context r)) t.store
                      ≡ true)
                  × (reason ≡ already_harvested))))

  -- Nothing but an event with that reason.
  pub record Skipped (outcome : PlanOutcome) (trust : TrustOutcome) (context : Context)
      (t after : Tier Store) : Type 0 where
    pub reason : SkipReason
    pub is_reason : IsReason outcome trust context t reason
    pub only_logged : after ≡ emit (harvest_skipped reason (kind_of outcome)) t

  -- What a call makes of the tier, by whether it raised.
  abbrev pub Dispatches :
      PlanOutcome → TrustOutcome → Context → Tier Store → Option IngestError × Tier Store → Type 0
  Dispatches outcome trust context t (none, after) =
      ((sid : String) × Writes outcome trust context t after (ok sid)
        × (after.events ≡ t.events ++ solved_example_harvested sid context.chain_head ∷ []))
      ⊎ Skipped outcome trust context t after
  Dispatches outcome trust context t (some e, after) =
      Writes outcome trust context t after (err e) × (after.events ≡ t.events)

  harvest-Dispatches :
      (d : String) (f : Option String) (r : String) (trust : TrustOutcome) (context : Context)
      (t : Tier Store)
      → gate_passes trust ≡ true
      → Dispatches
          (applied_from_llm d f r)
          trust
          context
          t
          (harvest library (validated_outcome_from context r) llm t)
  unfolding harvest kind_of validated_outcome_from
  harvest-Dispatches d f r trust context t passes =
      let v = validated_outcome_from context r in
      elim (Bool-cases (contains (solved_example_id_for v) t.store)) [
        | inl k ↦
            rw (k, harvest)
              (inr (record {
                reason = already_harvested;
                is_reason = inr (inr (inr (r, d, f, refl, k, refl)));
                only_logged = refl;
              }))
        | inr k ↦
            let written : (result : Outcome IngestError String)
                → (ingest_solved_example v t.store).0 ≡ result
                → (after : Tier Store) → after.store ≡ (ingest_solved_example v t.store).1
                → (after.pending_anchors ≡ t.pending_anchors) × (after.written ≡ t.written)
                → Writes (applied_from_llm d f r) trust context t after result =
              λ result p after s same. record {
                response_id = r;
                from_llm = (d, f, refl);
                trusted = (gate_passes_iff trust).0 passes;
                new = k;
                ingested = ground (arith, p, s);
                kept = same;
              } in
            elim (Outcome-cases (ingest_solved_example v t.store).0) [
              | inl (e, p) ↦ rw (k, harvest, p) (written (err e) p _ refl (refl, refl), refl)
              | inr (sid, p) ↦
                  rw (k, harvest, p) (inl (sid, written (ok sid) p _ refl (refl, refl), refl))
            ]
      ]

  skip_reason_lem :
      (outcome : PlanOutcome) (trust : TrustOutcome) (context : Context) (t : Tier Store)
      → kind_of outcome ≡ llm
      → gate_passes trust ≡ false
      → IsReason outcome trust context t (skip_reason_for trust)
  unfolding skip_reason_for gate_passes
  skip_reason_lem outcome trust context t k fails = elim (Bool-cases trust.passed) [
    | inl p ↦ inr (inr (inl (k, p, (λ h. ground (arith, p, h, fails)), rw p refl)))
    | inr p ↦ inr (inl (k, p, rw p refl))
  ]

  -- Each validated outcome that does not raise is either harvested or skipped, and logged once, when
  -- skipped with its reason. The writer is called only if a language model's plan was applied, its
  -- trust passed with high confidence, and the store has not got it yet; only the writer changes
  -- the store, and only it raises, in which case nothing is logged.
  pub on_validated-Dispatches :
      (outcome : PlanOutcome) (trust : TrustOutcome) (context : Context) (t : Tier Store)
      → Dispatches outcome trust context t (on_validated library outcome trust context t)
  unfolding on_validated kind_of
  on_validated-Dispatches (applied_from_llm d f r) trust context t =
      elim (Bool-cases (gate_passes trust)) [
        | inl k ↦ rw (k, on_validated) (harvest-Dispatches d f r trust context t k)
        | inr k ↦
            rw (k, on_validated)
              (inr (record {
                reason = skip_reason_for trust;
                is_reason = skip_reason_lem (applied_from_llm d f r) trust context t refl k;
                only_logged = refl;
              }))
      ]
  on_validated-Dispatches (applied_from_recipe d) trust context t = inr (record {
    reason = outcome_not_harvestable;
    is_reason = inl ((λ e. ground (arith, e)), refl);
    only_logged = refl;
  })
  on_validated-Dispatches (rag_only_applicable f) trust context t = inr (record {
    reason = outcome_not_harvestable;
    is_reason = inl ((λ e. ground (arith, e)), refl);
    only_logged = refl;
  })
  on_validated-Dispatches (refused_for r) trust context t = inr (record {
    reason = outcome_not_harvestable;
    is_reason = inl ((λ e. ground (arith, e)), refl);
    only_logged = refl;
  })

  -- The writer keeps an example under the id that was computed for it.
  abbrev pub Keeps : Type 0
  Keeps =
      (v : ValidatedPlanOutcome) (before after : Store) (sid : String)
      → ingest_solved_example v before ≡ (ok sid, after)
      → contains (solved_example_id_for v) after ≡ true

  -- A plan that was harvested is not harvested a second time: the call logs that it was there and
  -- the store stays as it is.
  pub on_validated_twice :
      Keeps
      → (d : String) (f : Option String) (r : String) (trust : TrustOutcome) (context : Context)
        (t after : Tier Store)
      → gate_passes trust ≡ true
      → contains (solved_example_id_for (validated_outcome_from context r)) t.store ≡ false
      → on_validated library (applied_from_llm d f r) trust context t ≡ (none, after)
      → on_validated library (applied_from_llm d f r) trust context after
        ≡ (none, emit (harvest_skipped already_harvested llm) after)
  unfolding on_validated harvest validated_outcome_from
  on_validated_twice keeps d f r trust context t after passes new ran =
      let v = validated_outcome_from context r in
      elim (Outcome-cases (ingest_solved_example v t.store).0) [
        | inl (e, p) ↦ absurd (ground (arith, ran, passes, new, p))
        | inr (sid, p) ↦
            let same : after.store ≡ (ingest_solved_example v t.store).1 =
              ground (arith, ran, passes, new, p) in
            let there =
              keeps v t.store (ingest_solved_example v t.store).1 sid (ground (arith, p)) in
            ground (arith, passes, same, there)
      ]

  -- A plan whose signals were scored is harvested only if every signal passed and no adapter of
  -- the workflow was degraded in the log.
  pub harvested_after_score :
      (registry : List SignalKind) (w : String) (log : List LogEvent) (signals : List TrustSignal)
      (trust : TrustOutcome) (outcome : PlanOutcome) (context : Context) (t after : Tier Store)
      → score registry w log signals ≡ ok trust
      → on_validated library outcome trust context t ≡ (none, after)
      → after.store ≢ t.store
      → AllPassed signals × (has_adapter_degraded w log ≡ false)
  harvested_after_score registry w log signals trust outcome context t after scored ran changed =
      let s = (score-Scores registry w log signals).0 trust scored in
      let d = rw ran at (on_validated-Dispatches outcome trust context t) in
      elim d [
        | inl (sid, h, _) ↦ (s.passes.0 h.trusted.0, s.confident.0 h.trusted.1)
        | inr k ↦ absurd (changed (ap (λ a. a.store) k.only_logged))
      ]
