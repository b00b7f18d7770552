-- ===== src/Coordinator/Interleaving.antt =====
-- coordinator.py: the dispatches of one wave, which `asyncio.gather` lets run in turns. A dispatch
-- waits for the semaphore, then is begun, and its probe runs while others are begun or end. A run
-- may come to anything in any time, which is the argument `outcome`: a timeout of one dispatch kills
-- the subprocesses of the others too.
use codewizard_sherpa.Prelude.{ℕ, ◌<◌, String, ◌≡◌, List, ◌∷◌, ◌++◌, map, sum_by}
use codewizard_sherpa.Prelude.Outcome.{ok}
use codewizard_sherpa.Coordinator.{
  Environment, Probe, RepoSnapshot, RunResult, ProbeExecution, Interrupt, Begun, over, started,
  broken, begin, finish,
}

pub data Slot : Type 0 where
  waiting : Slot
  running : (key : String) → Slot
  done : ProbeExecution → Slot
  failed : Interrupt → Slot

-- The cache, and the dispatches in the order of the call.
pub record Wave (Cache : Type 0) : Type 0 where
  pub cache : Cache
  pub slots : List (Probe × Slot)

abbrev pub is_running : Probe × Slot → ℕ
is_running (p, running key) = 1
is_running (p, _) = 0

unfoldable pub running_count : List (Probe × Slot) → ℕ
running_count = sum_by is_running

abbrev pub slot_of : Begun → Slot
slot_of (over e) = done e
slot_of (started key) = running key
slot_of (broken i) = failed i

abbrev pub wave_of : {Cache : Type 0} → Cache → List (Probe × Slot) → Wave Cache
wave_of c slots = record { cache = c; slots = slots }

-- One turn, for a semaphore of `bound` places.
pub data Turn {Cache : Type 0} (env : Environment Cache) (s : RepoSnapshot)
    (outcome : Probe → RunResult × ℕ) (bound : ℕ) : Wave Cache → Wave Cache → Type 0 where
  begins :
      (c : Cache) (pre post : List (Probe × Slot)) (p : Probe)
      → running_count (pre ++ ((p, waiting) ∷ post)) < bound
      → Turn env s outcome bound
          (wave_of c (pre ++ ((p, waiting) ∷ post)))
          (wave_of c (pre ++ ((p, slot_of (begin env p s c)) ∷ post)))
  ends :
      (c after : Cache) (pre post : List (Probe × Slot)) (p : Probe) (key : String)
      (e : ProbeExecution)
      → finish env p (outcome p).0 (outcome p).1 key c ≡ ok (e, after)
      → Turn env s outcome bound
          (wave_of c (pre ++ ((p, running key) ∷ post)))
          (wave_of after (pre ++ ((p, done e) ∷ post)))

abbrev pub waiting_for : Probe → Probe × Slot
waiting_for p = (p, waiting)

-- The waves that a call with these probes comes to.
pub data Reached {Cache : Type 0} (env : Environment Cache) (s : RepoSnapshot)
    (outcome : Probe → RunResult × ℕ) (bound : ℕ) (probes : List Probe) (c : Cache)
    : Wave Cache → Type 0 where
  called : Reached env s outcome bound probes c (wave_of c (map waiting_for probes))
  turned :
      {w after : Wave Cache}
      → Reached env s outcome bound probes c w
      → Turn env s outcome bound w after
      → Reached env s outcome bound probes c after
