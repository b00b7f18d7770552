-- ===== src/Prelude/Dict.antt =====
-- Python's `dict` and `set` with string keys, in insertion order, as the language keeps them.
use Prim.Native.Nat.{ℕ, ◌+◌, ◌≤◌}
use Prim.Native.String.{String}
use mathlib.Core.Path.{◌≡◌, refl, ap}
use mathlib.Core.Logic.{inl, inr}
use mathlib.Core.Bool.{Bool, true, false, ◌||◌}
use mathlib.Core.Option.{Option, none, some}
use mathlib.Core.List.{List, [], ◌∷◌}
use native.Mathlib.Omega.{arith}
use text.Mathlib.Text.{◌==◌}
use text.Mathlib.TextEquality.{eq_iff}
use text.Mathlib.TextPositions.{eq_refl}
use codewizard_sherpa.Prelude.Tests.{if◌then◌else◌, Bool-cases}
use codewizard_sherpa.Prelude.Lists.{sum_by, All}

abbrev pub Dict {ℓ} : Type ℓ → Type ℓ
Dict V = List (String × V)

module _ {ℓ} {V : Type ℓ} where
  -- `d.get(k)`
  unfoldable pub get : String → Dict V → Option V
  get k [] = none
  get k ((j, v) ∷ m) = if j == k then some v else get k m

  -- `d[k] = v` keeps the place of a key that is there.
  unfoldable pub put : String → V → Dict V → Dict V
  put k v [] = (k, v) ∷ []
  put k v ((j, w) ∷ m) = if j == k then (k, v) ∷ m else (j, w) ∷ put k v m

  -- `del d[k]`
  unfoldable pub remove : String → Dict V → Dict V
  remove k [] = []
  remove k ((j, w) ∷ m) = if j == k then m else (j, w) ∷ remove k m

  pub get-put :
      (k j : String) (v : V) (m : Dict V) → get j (put k v m) ≡ (if k == j then some v else get j m)
  unfolding get put
  get-put k j v [] = refl
  get-put k j v ((i, w) ∷ m) = ground (arith, eq_iff k j, eq_iff i k, eq_iff i j, get-put k j v m)

  pub get-put_self : (k : String) (v : V) (m : Dict V) → get k (put k v m) ≡ some v
  get-put_self k v m = ground (arith, get-put k k v m, eq_refl k)

  -- `d.values()`
  abbrev pub values : Dict V → List V
  values [] = []
  values ((k, v) ∷ m) = v ∷ values m

  -- `sum(f(v) for v in d.values())`
  abbrev pub sum_values : (V → ℕ) → Dict V → ℕ
  sum_values f = sum_by (λ e. f e.1)

  pub sum_values-put-le :
      (f : V → ℕ) (k : String) (v : V) (m : Dict V)
      → sum_values f (put k v m) ≤ f v + sum_values f m
  unfolding put
  sum_values-put-le f k v [] = omega arith
  sum_values-put-le f k v ((j, w) ∷ m) = ground (arith, sum_values-put-le f k v m)

  pub sum_values-put_new :
      (f : V → ℕ) (k : String) (v : V) (m : Dict V)
      → get k m ≡ none
      → sum_values f (put k v m) ≡ f v + sum_values f m
  unfolding put get
  sum_values-put_new f k v [] h = omega arith
  sum_values-put_new f k v ((j, w) ∷ m) h = ground (arith, sum_values-put_new f k v m)

  pub sum_values-remove :
      (f : V → ℕ) (k : String) (v : V) (m : Dict V)
      → get k m ≡ some v
      → f v + sum_values f (remove k m) ≡ sum_values f m
  unfolding remove get
  sum_values-remove f k v [] h = cc
  sum_values-remove f k v ((j, w) ∷ m) h = ground (arith, sum_values-remove f k v m)

-- `k in s` and `s.add(k)` for a set of strings.
unfoldable pub mem : String → List String → Bool
mem k [] = false
mem k (j ∷ s) = j == k || mem k s

unfoldable pub add : String → List String → List String
add k s = if mem k s then s else k ∷ s

pub mem-add_self : (k : String) (s : List String) → mem k (add k s) ≡ true
unfolding mem add
mem-add_self k s = ground (arith, eq_refl k)

-- `{k: f(v) for k, v in d.items()}`
abbrev pub map_values {ℓ κ} : {V : Type ℓ} {W : Type κ} → (V → W) → Dict V → Dict W
map_values f [] = []
map_values f ((k, v) ∷ m) = (k, f v) ∷ map_values f m

pub sum_values-map_values {ℓ} :
    {V : Type ℓ} (f : V → ℕ) (m : Dict V) → sum_values (λ n. n) (map_values f m) ≡ sum_values f m
sum_values-map_values f [] = refl
sum_values-map_values f ((k, v) ∷ m) = omega (arith, sum_values-map_values f m)

-- No key stands twice: so it is in every dict of the language.
abbrev pub IsDict {ℓ} : {V : Type ℓ} → Dict V → Type ℓ
IsDict [] = Unit
IsDict ((k, v) ∷ m) = (get k m ≡ none) × IsDict m

module _ {ℓ} {V : Type ℓ} where
  pub put-IsDict : (k : String) (v : V) (m : Dict V) → IsDict m → IsDict (put k v m)
  unfolding put get
  put-IsDict k v [] h = (refl, tt)
  put-IsDict k v ((j, w) ∷ m) h =
      ground (arith, put-IsDict k v m h.1, get-put k j v m, eq_iff k j, eq_iff j k)

  pub get-remove :
      (k j : String) (m : Dict V)
      → IsDict m
      → get j (remove k m) ≡ (if k == j then none else get j m)
  unfolding remove get
  get-remove k j [] h = ground arith
  get-remove k j ((i, w) ∷ m) h =
      ground (arith, get-remove k j m h.1, eq_iff i k, eq_iff i j, eq_iff k j)

  pub remove-IsDict : (k : String) (m : Dict V) → IsDict m → IsDict (remove k m)
  unfolding remove get
  remove-IsDict k [] h = tt
  remove-IsDict k ((j, w) ∷ m) h =
      ground (arith, remove-IsDict k m h.1, get-remove k j m h.1, eq_iff j k, eq_iff k j)

module _ {ℓ} {V : Type ℓ} where
  -- `{**left, **right}`
  unfoldable pub merge : Dict V → Dict V → Dict V
  merge left [] = left
  merge left ((k, v) ∷ right) = merge (put k v left) right

  -- The value on the right wins.
  pub get-merge :
      (j : String) (left right : Dict V)
      → IsDict right
      → get j (merge left right) ≡ elim (get j right) [ some v ↦ some v | none ↦ get j left ]
  unfolding merge get
  get-merge j left [] h = refl
  get-merge j left ((k, v) ∷ right) h =
      ground (arith, get-merge j (put k v left) right h.1, get-put k j v left, eq_iff k j)

-- What holds of every value holds of one that a key gives.
pub get-All {ℓ κ} :
    {V : Type ℓ} (P : V → Type κ) (m : Dict V)
    → All P (values m)
    → (k : String) (v : V) → get k m ≡ some v
    → P v
unfolding get
get-All P [] h k v e = absurd (ground arith)
get-All P ((j, w) ∷ m) h k v e = elim (Bool-cases (j == k)) [
  | inl i ↦ let same : w ≡ v = ground arith in rw⁻¹ same h.0
  | inr i ↦ get-All P m h.1 k v (ground arith)
]

module _ {ℓ κ} {V : Type ℓ} {W : Type κ} where
  pub get-map_values :
      (f : V → W) (k : String) (m : Dict V)
      → get k (map_values f m) ≡ elim (get k m) [ none ↦ none | some v ↦ some (f v) ]
  unfolding get
  get-map_values f k [] = refl
  get-map_values f k ((j, v) ∷ m) = elim (Bool-cases (j == k)) [
    | inl h ↦ rw (h, get) refl
    | inr h ↦ rw (h, get) (get-map_values f k m)
  ]

  pub put-map_values :
      (f : V → W) (k : String) (v : V) (m : Dict V)
      → put k (f v) (map_values f m) ≡ map_values f (put k v m)
  unfolding put
  put-map_values f k v [] = refl
  put-map_values f k v ((j, w) ∷ m) = elim (Bool-cases (j == k)) [
    | inl h ↦ rw (h, put) refl
    | inr h ↦ rw (h, put) (ap (λ r. (j, f w) ∷ r) (put-map_values f k v m))
  ]
