-- ===== src/Probes/Registered.antt =====
-- The registries of probes/registry.py that calls of `register` make.
use mathlib.Core.List.{map-append}
use codewizard_sherpa.Prelude.{
  ℕ, suc, ◌+◌, ◌≡◌, ◌≢◌, refl, String, Bool, true, false, List, [], ◌∷◌, ◌++◌, length,
  length-append, arith, All, All-append, inl, inr, Bool-cases, eq_iff, ◌⊎◌,
}
use codewizard_sherpa.Prelude.Distinct.{AreDistinct}
use codewizard_sherpa.Prelude.Outcome.{ok, err}
use codewizard_sherpa.Probes.{
  Heaviness, ProbeClass, ProbeRegEntry, duplicate_probe_name, Registry, has_name, register,
  all_probes,
}

-- The indices count up from a number.
abbrev pub AreNumbered : ℕ → List ProbeRegEntry → Type 0
AreNumbered n [] = Unit
AreNumbered n (e ∷ es) = (e.registration_index ≡ n) × AreNumbered (suc n) es

-- No name stands twice, and an entry's index is its place.
pub record IsValid (r : Registry) : Type 0 where
  pub names : AreDistinct (λ e. e.cls.name) r.entries
  pub numbered : AreNumbered 0 r.entries
  pub counts : r.counter ≡ length r.entries

AreNumbered-append :
    (n : ℕ) (es : List ProbeRegEntry) (e : ProbeRegEntry)
    → AreNumbered n es
    → e.registration_index ≡ n + length es
    → AreNumbered n (es ++ e ∷ [])
AreNumbered-append n [] e h i = (ground (arith, i), tt)
AreNumbered-append n (x ∷ es) e h i = (h.0, AreNumbered-append (suc n) es e h.1 (ground (arith, i)))

other_names :
    (name : String) (es : List ProbeRegEntry)
    → has_name name es ≡ false
    → All (λ e. name ≢ e.cls.name) es
unfolding has_name
other_names name [] h = tt
other_names name (e ∷ es) h =
    (λ p. ground (arith, p, h, eq_iff e.cls.name name), other_names name es (ground (arith, h)))

AreDistinct-append :
    (es : List ProbeRegEntry) (e : ProbeRegEntry)
    → AreDistinct (λ x. x.cls.name) es
    → All (λ x. e.cls.name ≢ x.cls.name) es
    → AreDistinct (λ x. x.cls.name) (es ++ e ∷ [])
AreDistinct-append [] e h k = (tt, tt)
AreDistinct-append (x ∷ es) e h k = (
  All-append (λ y. y.cls.name ≢ x.cls.name) es (e ∷ []) h.0 (k.0, tt),
  AreDistinct-append es e h.1 k.1,
)

-- A call of `register` on a valid registry leaves it valid. If no entry has the name, the class is
-- returned and is the last of the classes then; otherwise it raises the duplicate's name, and the
-- registry stays as it was.
pub register-IsValid :
    (cls : ProbeClass) (h : Heaviness) (runs_last : Bool) (r : Registry)
    → IsValid r
    → IsValid (register cls h runs_last r).1
      × (((has_name cls.name r.entries ≡ false)
            × ((register cls h runs_last r).0 ≡ ok cls)
            × (all_probes (register cls h runs_last r).1 ≡ all_probes r ++ cls ∷ []))
          ⊎ ((has_name cls.name r.entries ≡ true)
              × ((register cls h runs_last r).0 ≡ err (duplicate_probe_name cls.name))
              × ((register cls h runs_last r).1 ≡ r)))
unfolding register all_probes
register-IsValid cls h runs_last r v = elim (Bool-cases (has_name cls.name r.entries)) [
  | inl k ↦ rw (k, register) (v, inr (refl, refl, refl))
  | inr k ↦
      let e : ProbeRegEntry = record {
        cls = cls;
        heaviness = h;
        runs_last = runs_last;
        registration_index = r.counter;
      } in
      rw (k, register)
        (
          record {
            names = AreDistinct-append r.entries e v.names (other_names cls.name r.entries k);
            numbered = AreNumbered-append 0 r.entries e v.numbered (ground (arith, v.counts));
            counts = omega (arith, v.counts, length-append r.entries (e ∷ []));
          },
          inl (refl, refl, map-append (λ e. e.cls) r.entries (e ∷ [])),
        )
]
