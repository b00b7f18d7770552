-- ===== src/Fallback/Trust.antt =====
-- src/codegenie/transforms/trust_scorer.py and `TrustOutcome` of outcomes.py: the strict conjunction
-- of the signals, and the confidence by the events of the workflow.
use codewizard_sherpa.Prelude.{
  String, ◌≡◌, ◌≢◌, refl, Bool, true, false, ◌&&◌, ◌||◌, ◌↔◌, Option, none, some, List, [], ◌∷◌,
  arith, All, inl, inr, Bool-cases, Option-cases, if◌then◌else◌, str_eq,
}
use codewizard_sherpa.Prelude.Dict.{mem}
use codewizard_sherpa.Prelude.Outcome.{Outcome, ok, err}

abbrev pub SignalKind : Type 0
SignalKind = String

pub record TrustSignal : Type 0 where
  pub kind : SignalKind
  pub passed : Bool

pub data Confidence : Type 0 where
  high degraded : Confidence

pub record TrustOutcome : Type 0 where
  pub passed : Bool
  pub failing : List SignalKind
  pub signals : List TrustSignal
  pub confidence : Confidence

pub data ScoreError : Type 0 where
  empty_signals validation_error : ScoreError
  unregistered_signal_kind : (kind : SignalKind) → ScoreError

-- An event of a replay by what the scorer reads: whether it is an `AdapterDegraded`, and its
-- workflow.
pub record LogEvent : Type 0 where
  pub adapter_degraded : Bool
  pub workflow_id : String

-- `not xs`
unfoldable pub is_empty : List SignalKind → Bool
is_empty [] = true
is_empty (k ∷ ks) = false

-- `[s.kind for s in signals if not s.passed]`
unfoldable pub failing_of : List TrustSignal → List SignalKind
failing_of [] = []
failing_of (s ∷ signals) = let rest = failing_of signals in if s.passed then rest else s.kind ∷ rest

unfoldable pub compute_strict_and : List TrustSignal → Bool × List SignalKind
compute_strict_and signals = let failing = failing_of signals in (is_empty failing, failing)

unfoldable pub has_adapter_degraded : (workflow_id : String) → List LogEvent → Bool
has_adapter_degraded w [] = false
has_adapter_degraded w (e ∷ events) =
    e.adapter_degraded && str_eq e.workflow_id w || has_adapter_degraded w events

-- The first signal whose kind is not registered.
unfoldable pub unregistered : List SignalKind → List TrustSignal → Option SignalKind
unregistered registry [] = none
unregistered registry (s ∷ signals) =
    let rest = unregistered registry signals in if mem s.kind registry then rest else some s.kind

-- The validator of `TrustOutcome`.
unfoldable pub validated : TrustOutcome → Outcome ScoreError TrustOutcome
validated o = elim o.passed [
  | true ↦ if is_empty o.failing then ok o else err validation_error
  | false ↦ if is_empty o.failing then err validation_error else ok o
]

-- `TrustScorer.score` with the events that the log replays.
unfoldable pub score :
    (registry : List SignalKind) (workflow_id : String)
    → List LogEvent
    → List TrustSignal
    → Outcome ScoreError TrustOutcome
score registry w events [] = err empty_signals
score registry w events (s ∷ signals) = elim (unregistered registry (s ∷ signals)) [
  | some k ↦ err (unregistered_signal_kind k)
  | none ↦
      let (passed, failing) = compute_strict_and (s ∷ signals) in
      validated (record {
        passed = passed;
        failing = failing;
        signals = s ∷ signals;
        confidence = if has_adapter_degraded w events then degraded else high;
      })
]

-- The signals all passed, and the kinds that the registry has.
abbrev pub AllPassed : List TrustSignal → Type 0
AllPassed signals = All (λ s. s.passed ≡ true) signals

failing_of_iff :
    (signals : List TrustSignal) → (is_empty (failing_of signals) ≡ true) ↔ AllPassed signals
unfolding is_empty failing_of
failing_of_iff [] = (λ h. tt, λ h. refl)
failing_of_iff (s ∷ signals) = elim (Bool-cases s.passed) [
  | inl p ↦ (
    λ h. (p, (failing_of_iff signals).0 (ground (arith, h, p))),
    λ h. ground (arith, p, (failing_of_iff signals).1 h.1),
  )
  | inr p ↦ (λ h. absurd (ground (arith, h, p)), λ h. absurd (ground (arith, h.0, p)))
]

abbrev outcome_of : List TrustSignal → Confidence → TrustOutcome
outcome_of signals c = record {
  passed = is_empty (failing_of signals);
  failing = failing_of signals;
  signals = signals;
  confidence = c;
}

validated-outcome_of :
    (signals : List TrustSignal) (c : Confidence)
    → validated (outcome_of signals c) ≡ ok (outcome_of signals c)
unfolding validated
validated-outcome_of signals c = elim (Bool-cases (is_empty (failing_of signals))) [
  | inl p ↦ ground (arith, p)
  | inr p ↦ ground (arith, p)
]

abbrev confidence_of : Bool → Confidence
confidence_of b = if b then degraded else high

score_run :
    (registry : List SignalKind) (w : String) (events : List LogEvent) (s : TrustSignal)
    (signals : List TrustSignal)
    → unregistered registry (s ∷ signals) ≡ none
    → score registry w events (s ∷ signals)
      ≡ ok (outcome_of (s ∷ signals) (confidence_of (has_adapter_degraded w events)))
unfolding score compute_strict_and
score_run registry w events s signals k =
    rw (k, score)
      (validated-outcome_of (s ∷ signals) (confidence_of (has_adapter_degraded w events)))

score_known :
    (registry : List SignalKind) (w : String) (events : List LogEvent) (s : TrustSignal)
    (signals : List TrustSignal) (o : TrustOutcome)
    → score registry w events (s ∷ signals) ≡ ok o
    → unregistered registry (s ∷ signals) ≡ none
unfolding score
score_known registry w events s signals o h =
    elim (Option-cases (unregistered registry (s ∷ signals))) [
      | inl k ↦ k
      | inr (u, k) ↦ absurd (ground (arith, h, k))
    ]

-- What a score shows of its signals and of the log.
pub record Scores (registry : List SignalKind) (w : String) (events : List LogEvent)
    (signals : List TrustSignal) (o : TrustOutcome) : Type 0 where
  pub some_signal : signals ≢ []
  pub known : unregistered registry signals ≡ none
  pub passes : (o.passed ≡ true) ↔ AllPassed signals
  pub fails : o.failing ≡ failing_of signals
  pub confident : (o.confidence ≡ high) ↔ (has_adapter_degraded w events ≡ false)

-- A score is returned exactly for signals that are not none and of registered kinds: its own
-- validation never fails. It passes if all signals passed, names the kinds of the others in their
-- order, and is of high confidence if no adapter of the workflow was degraded.
pub score-Scores :
    (registry : List SignalKind) (w : String) (events : List LogEvent) (signals : List TrustSignal)
    → ((o : TrustOutcome)
        → score registry w events signals ≡ ok o
        → Scores registry w events signals o)
      × (signals ≢ []
          → unregistered registry signals ≡ none
          → (o : TrustOutcome) × (score registry w events signals ≡ ok o))
unfolding score
score-Scores registry w events [] = (λ o h. absurd (ground (arith, h)), λ h k. absurd (h refl))
score-Scores registry w events (s ∷ signals) =
    let made = outcome_of (s ∷ signals) (confidence_of (has_adapter_degraded w events)) in
    (
      λ o h.
          (let k = score_known registry w events s signals o h in
            let run = score_run registry w events s signals k in
            let same : made ≡ o = ground (arith, h, run) in
            rw⁻¹ same (record {
              some_signal = λ e. ground (arith, e);
              known = k;
              passes = failing_of_iff (s ∷ signals);
              fails = refl;
              confident = ground arith;
            })),
      λ h k. (made, score_run registry w events s signals k),
    )
