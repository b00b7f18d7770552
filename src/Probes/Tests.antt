-- ===== src/Probes/Tests.antt =====
-- A registry of three probes, and the theorems of the modules beside this one on it.
use codewizard_sherpa.Prelude.{ℕ, ◌≡◌, refl, true, false, [], ◌∷◌, List, String, Bool}
use codewizard_sherpa.Prelude.Sorting.{sorted, insert}
use codewizard_sherpa.Probes.{
  heavy, medium, light, Heaviness, ProbeClass, ProbeRegEntry, new_registry, heaviness_rank, select,
  key_leb, sort_entries,
}
use codewizard_sherpa.Probes.Ordering.{single_key_leb, sort_entries_single_key}
use codewizard_sherpa.Probes.Registered.{IsValid}

abbrev probe : ℕ → String → List String → ProbeClass
probe identity name languages = record {
  identity = identity;
  name = name;
  applies_to_tasks = "*" ∷ [];
  applies_to_languages = languages;
}

abbrev entry : ProbeClass → Heaviness → Bool → ℕ → ProbeRegEntry
entry cls h last index = record {
  cls = cls;
  heaviness = h;
  runs_last = last;
  registration_index = index;
}

abbrev three : List ProbeRegEntry
three =
    entry (probe 1 "a" ("*" ∷ [])) heavy true 0
    ∷ entry (probe 2 "b" ("python" ∷ [])) light false 1
    ∷ entry (probe 3 "c" ("*" ∷ [])) medium false 2
    ∷ []

three_run :
    sort_entries three
    ≡ entry (probe 3 "c" ("*" ∷ [])) medium false 2
      ∷ entry (probe 2 "b" ("python" ∷ [])) light false 1
      ∷ entry (probe 1 "a" ("*" ∷ [])) heavy true 0
      ∷ []
unfolding sort_entries select sorted insert key_leb heaviness_rank
three_run = refl

sort_entries_single_key_example : sort_entries three ≡ sorted single_key_leb three
sort_entries_single_key_example = sort_entries_single_key three

new_registry-IsValid : IsValid new_registry
new_registry-IsValid = record { names = tt; numbered = tt; counts = refl }
