-- ===== src/Coordinator/Gather/Partition.antt =====
-- coordinator.py: the partition of the probes into prelude, rest and tail.
use codewizard_sherpa.Prelude.{sym, List, [], ◌∷◌, ◌++◌, String, Bool-cases, inl, inr, str_eq}
use mathlib.Core.List.{Perm, perm_middle, append_assoc}
use mathlib.Core.List.Perm
use codewizard_sherpa.Prelude.Dict
use codewizard_sherpa.Coordinator.{Probe}
use codewizard_sherpa.Coordinator.Gather.{in_prelude, in_rest, in_tail, select}

tail-middle : (p : Probe) (a b c : List Probe) → Perm (a ++ (b ++ (p ∷ c))) (p ∷ (a ++ (b ++ c)))
tail-middle p a b c =
    rw (sym (append_assoc a b (p ∷ c)), sym (append_assoc a b c)) (perm_middle (a ++ b) c)

-- The waves dispatch each probe of the call once: together they are a reordering of the probes.
pub waves_perm :
    (runs_last : List String) (probes : List Probe)
    → Perm
        (select (in_prelude runs_last) probes
          ++ (select (in_rest runs_last) probes ++ select (in_tail runs_last) probes))
        probes
unfolding select
waves_perm runs_last [] = Perm.refl []
waves_perm runs_last (p ∷ probes) =
    let below = waves_perm runs_last probes in
    let a = select (in_prelude runs_last) probes in
    let b = select (in_rest runs_last) probes in
    let c = select (in_tail runs_last) probes in
    elim (Bool-cases (Dict.mem p.name runs_last)) [
      | inl last ↦ elim (Bool-cases (str_eq p.tier "base")) [
        | inl base ↦ rw (last, base) (Perm.trans (tail-middle p a b c) (Perm.cons p below))
        | inr other ↦ rw (last, other) (Perm.trans (tail-middle p a b c) (Perm.cons p below))
      ]
      | inr early ↦ elim (Bool-cases (str_eq p.tier "base")) [
        | inl base ↦ rw (early, base) (Perm.cons p below)
        | inr other ↦ rw (early, other) (Perm.trans (perm_middle a (b ++ c)) (Perm.cons p below))
      ]
    ]
