-- ===== src/Parsers/Depth.antt =====
-- src/codegenie/parsers/_depth.py: the walk that caps the nesting of a decoded value. Containers
-- are objects with an identity, which a YAML alias shares, so a value is looked up in a heap.
pub mod Walked
pub mod Capped
use codewizard_sherpa.Prelude.{ℕ, zero, suc, ◌+◌, Bool, true, false, ◌||◌, List, [], ◌∷◌, ◌==◌, ltb}
use codewizard_sherpa.Prelude.Outcome.{Outcome, ok, err, ◌>>=◌}

-- A decoded value: a scalar, or the `id` of a dict or a list.
pub data Value : Type 0 where
  scalar : Value
  container : (id : ℕ) → Value

-- The values of each dict and the items of each list.
abbrev pub Heap : Type 0
Heap = ℕ → List Value

-- `out_of_fuel` is no exception of the program.
pub data DepthError : Type 0 where
  depth_cap_exceeded out_of_fuel : DepthError

-- `obj_id in seen`
unfoldable pub is_in : ℕ → List ℕ → Bool
is_in i [] = false
is_in i (j ∷ seen) = i == j || is_in i seen

-- The loop over the values of one container.
unfoldable pub walk_values :
    (Value → List ℕ → Outcome DepthError (List ℕ))
    → List Value
    → List ℕ
    → Outcome DepthError (List ℕ)
walk_values visit [] seen = ok seen
walk_values visit (v ∷ values) seen = visit v seen >>= walk_values visit values

-- `_walk` on fuel; it returns the ids seen.
unfoldable pub walk :
    (fuel : ℕ) → Heap → (max_depth current : ℕ) → Value → List ℕ → Outcome DepthError (List ℕ)
unfolding walk_values is_in
walk fuel heap max_depth current scalar seen = ok seen
walk zero heap max_depth current (container id) seen = err out_of_fuel
walk (suc fuel) heap max_depth current (container id) seen = elim (ltb max_depth current) [
  | true ↦ err depth_cap_exceeded
  | false ↦ elim (is_in id seen) [
    | true ↦ ok seen
    | false ↦ walk_values (walk fuel heap max_depth (suc current)) (heap id) (id ∷ seen)
  ]
]

-- Each call is one level deeper, and the level above `max_depth` raises.
unfoldable pub assert_max_depth : Heap → (max_depth : ℕ) → Value → Outcome DepthError (List ℕ)
assert_max_depth heap max_depth obj = walk (max_depth + 2) heap max_depth 0 obj []
