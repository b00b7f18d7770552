-- ===== src/Plugins/Chain/Lifting.antt =====
-- resolver.py: the scopes that a manifest lifts.
use codewizard_sherpa.Prelude.{◌≡◌, refl, ap, ◌↔◌, List, [], ◌∷◌, inl, inr}
use mathlib.Core.List.{Memᴰ}
use mathlib.Core.List.Memᴰ.{head, tail, append_left, append_right, append_cases}
use codewizard_sherpa.Prelude.Texts.{Text}
use codewizard_sherpa.Plugins.Scope.{PluginScope}
use codewizard_sherpa.Plugins.Registry.{ManifestScope}
use codewizard_sherpa.Plugins.Chain.{
  lift_manifest_scope, lift_dim, as_list, lift_builds, lift_languages, lift_tasks,
}

abbrev pub lifted : Text → Text → Text → PluginScope
lifted task language build = record {
  task_class = lift_dim task;
  language = lift_dim language;
  build_system = lift_dim build;
}

builds-Mem :
    (s : PluginScope) (t l : Text) (bs : List Text)
    → Memᴰ s (lift_builds t l bs)
    → (b : Text) × Memᴰ b bs × (s ≡ lifted t l b)
builds-Mem s t l [] h = elim h [ ]
builds-Mem s t l (b ∷ bs) (head e) = (b, head refl, e)
builds-Mem s t l (b ∷ bs) (tail m) = let (c, k, e) = builds-Mem s t l bs m in (c, tail k, e)

Mem-builds : (t l b : Text) (bs : List Text) → Memᴰ b bs → Memᴰ (lifted t l b) (lift_builds t l bs)
Mem-builds t l b [] h = elim h [ ]
Mem-builds t l b (c ∷ bs) (head e) = head (ap (lifted t l) e)
Mem-builds t l b (c ∷ bs) (tail m) = tail (Mem-builds t l b bs m)

languages-Mem :
    (s : PluginScope) (t : Text) (ls bs : List Text)
    → Memᴰ s (lift_languages t ls bs)
    → (l : Text) × (b : Text) × Memᴰ l ls × Memᴰ b bs × (s ≡ lifted t l b)
languages-Mem s t [] bs h = elim h [ ]
languages-Mem s t (l ∷ ls) bs h = elim (append_cases (lift_builds t l bs) h) [
  | inl m ↦ let (b, k, e) = builds-Mem s t l bs m in (l, b, head refl, k, e)
  | inr m ↦ let (j, b, i, k, e) = languages-Mem s t ls bs m in (j, b, tail i, k, e)
]

Mem-languages :
    (t l b : Text) (ls bs : List Text)
    → Memᴰ l ls
    → Memᴰ b bs
    → Memᴰ (lifted t l b) (lift_languages t ls bs)
Mem-languages t l b [] bs h k = elim h [ ]
Mem-languages t l b (j ∷ ls) bs (head e) k =
    append_left (lift_languages t ls bs) (rw⁻¹ e (Mem-builds t l b bs k))
Mem-languages t l b (j ∷ ls) bs (tail m) k =
    append_right (lift_builds t j bs) (Mem-languages t l b ls bs m k)

tasks-Mem :
    (s : PluginScope) (ts ls bs : List Text)
    → Memᴰ s (lift_tasks ts ls bs)
    → (t : Text) × (l : Text) × (b : Text) × Memᴰ t ts × Memᴰ l ls × Memᴰ b bs × (s ≡ lifted t l b)
tasks-Mem s [] ls bs h = elim h [ ]
tasks-Mem s (t ∷ ts) ls bs h = elim (append_cases (lift_languages t ls bs) h) [
  | inl m ↦ let (l, b, j, k, e) = languages-Mem s t ls bs m in (t, l, b, head refl, j, k, e)
  | inr m ↦ let (i, l, b, n, j, k, e) = tasks-Mem s ts ls bs m in (i, l, b, tail n, j, k, e)
]

Mem-tasks :
    (t l b : Text) (ts ls bs : List Text)
    → Memᴰ t ts
    → Memᴰ l ls
    → Memᴰ b bs
    → Memᴰ (lifted t l b) (lift_tasks ts ls bs)
Mem-tasks t l b [] ls bs h j k = elim h [ ]
Mem-tasks t l b (i ∷ ts) ls bs (head e) j k =
    append_left (lift_tasks ts ls bs) (rw⁻¹ e (Mem-languages t l b ls bs j k))
Mem-tasks t l b (i ∷ ts) ls bs (tail m) j k =
    append_right (lift_languages i ls bs) (Mem-tasks t l b ts ls bs m j k)

-- The scopes that a manifest lifts are those whose three dims are the lifts of a task class, of a
-- language and of a build system that it lists.
pub lift_manifest_scope_iff :
    (m : ManifestScope) (s : PluginScope)
    → Memᴰ s (lift_manifest_scope m) ↔ (
        (t : Text) × (l : Text) × (b : Text) × Memᴰ t (as_list m.task_class)
        × Memᴰ l (as_list m.languages)
        × Memᴰ b (as_list m.build_systems)
        × (s ≡ lifted t l b))
unfolding lift_manifest_scope
lift_manifest_scope_iff m s = (
  λ h. tasks-Mem s (as_list m.task_class) (as_list m.languages) (as_list m.build_systems) h,
  λ h.
      let (t, l, b, i, j, k, e) = h in
      rw e (
        Mem-tasks t l b (as_list m.task_class) (as_list m.languages) (as_list m.build_systems) i j
          k),
)
