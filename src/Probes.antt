-- ===== src/Probes.antt =====
-- src/codegenie/probes/registry.py: the registry of probe classes, its filter by task and language
-- and the order in which the coordinator is to dispatch them.
pub mod Ordering
pub mod Registered
mod Tests
use mathlib.Core.List.{filter}
use codewizard_sherpa.Prelude.{
  ℕ, suc, ◌+◌, String, Bool, true, false, not, ◌&&◌, ◌||◌, List, [], ◌∷◌, ◌++◌, map, ltb, leb, ◌==◌,
  str_eq, if◌then◌else◌,
}
use codewizard_sherpa.Prelude.Dict.{mem}
use codewizard_sherpa.Prelude.Outcome.{Outcome, ok, err}
use codewizard_sherpa.Prelude.Sorting.{sorted}

pub data Heaviness : Type 0 where
  heavy medium light : Heaviness

-- A class by the attributes that the registry reads; `identity` is that of the object.
pub record ProbeClass : Type 0 where
  pub identity : ℕ
  pub name : String
  pub applies_to_tasks : List String
  pub applies_to_languages : List String

pub record ProbeRegEntry : Type 0 where
  pub cls : ProbeClass
  pub heaviness : Heaviness
  pub runs_last : Bool
  pub registration_index : ℕ

-- `ProbeError`
pub data ProbeError : Type 0 where
  duplicate_probe_name : (name : String) → ProbeError

pub record Registry : Type 0 where
  pub entries : List ProbeRegEntry
  pub counter : ℕ

unfoldable pub heaviness_rank : Heaviness → ℕ
heaviness_rank heavy = 0
heaviness_rank medium = 1
heaviness_rank light = 2

abbrev pub new_registry : Registry
new_registry = record { entries = []; counter = 0 }

-- The entries that pass a test.
unfoldable pub select {ℓ} : {A : Type ℓ} → (A → Bool) → List A → List A
select p [] = []
select p (x ∷ xs) = let rest = select p xs in if p x then x ∷ rest else rest

-- `set(a) & b`
unfoldable pub intersects : List String → List String → Bool
intersects [] b = false
intersects (x ∷ a) b = mem x b || intersects a b

-- The tests of `_filter` on one class.
unfoldable pub admits : String → List String → ProbeClass → Bool
admits task languages cls =
    (mem "*" cls.applies_to_tasks || mem task cls.applies_to_tasks)
    && (mem "*" cls.applies_to_languages || intersects cls.applies_to_languages languages)

unfoldable pub filter_probes : List ProbeClass → String → List String → List ProbeClass
filter_probes probes task languages = select (admits task languages) probes

-- The order of the keys `(_HEAVINESS_RANK[e.heaviness], e.registration_index)`.
unfoldable pub key_leb : ProbeRegEntry → ProbeRegEntry → Bool
key_leb a b =
    if ltb (heaviness_rank a.heaviness) (heaviness_rank b.heaviness)
    then true
    else if ltb (heaviness_rank b.heaviness) (heaviness_rank a.heaviness)
    then false
    else leb a.registration_index b.registration_index

unfoldable pub sort_entries : List ProbeRegEntry → List ProbeRegEntry
sort_entries entries =
    let non_last = sorted key_leb (select (λ e. not e.runs_last) entries) in
    let last = sorted key_leb (select (λ e. e.runs_last) entries) in non_last ++ last

-- The test of the loop of `register`.
unfoldable pub has_name : String → List ProbeRegEntry → Bool
has_name name [] = false
has_name name (existing ∷ entries) = str_eq existing.cls.name name || has_name name entries

-- It returns the class, and the registry as it is then.
unfoldable pub register :
    ProbeClass
    → Heaviness
    → (runs_last : Bool) → Registry
    → Outcome ProbeError ProbeClass × Registry
register cls heaviness runs_last r =
    if has_name cls.name r.entries
    then (err (duplicate_probe_name cls.name), r)
    else let entry : ProbeRegEntry = record {
      cls = cls;
      heaviness = heaviness;
      runs_last = runs_last;
      registration_index = r.counter;
    } in
      (ok cls, record { entries = r.entries ++ entry ∷ []; counter = r.counter + 1 })

unfoldable pub all_probes : Registry → List ProbeClass
all_probes r = map (λ e. e.cls) r.entries

unfoldable pub for_task : String → List String → Registry → List ProbeClass
for_task task languages r = filter_probes (all_probes r) task languages

unfoldable pub sorted_for_dispatch : Registry → List ProbeRegEntry
sorted_for_dispatch r = sort_entries r.entries

-- `cls in cls_set`
unfoldable pub in_classes : ProbeClass → List ProbeClass → Bool
in_classes cls [] = false
in_classes cls (c ∷ classes) = c.identity == cls.identity || in_classes cls classes

unfoldable pub sorted_for_task : String → List String → Registry → List ProbeRegEntry
sorted_for_task task languages r =
    let cls_set = filter_probes (all_probes r) task languages in
    sort_entries (select (λ e. in_classes e.cls cls_set) r.entries)
