-- ===== src/Prelude/Distinct.antt =====
-- Lists on which a function is injective.
use Prim.Native.String.{String}
use mathlib.Core.Path.{◌≡◌, sym, ◌∙◌}
use mathlib.Core.Logic.{◌≢◌}
use mathlib.Core.List.{List, [], ◌∷◌, ◌++◌}
use codewizard_sherpa.Prelude.Lists.{All, All-append, All-left, All-right}

-- The function has another value at each element.
abbrev pub AreDistinct : {A : Type 0} → (A → String) → List A → Type 0
AreDistinct f [] = Unit
AreDistinct f (x ∷ xs) = All (λ y. f y ≢ f x) xs × AreDistinct f xs

pub AreDistinct-middle :
    {A : Type 0} (f : A → String) (pre : List A) (x : A) (post : List A)
    → AreDistinct f (pre ++ (x ∷ post))
    → All (λ y. f y ≢ f x) pre × All (λ y. f y ≢ f x) post
AreDistinct-middle f [] x post h = (tt, h.0)
AreDistinct-middle f (y ∷ pre) x post h =
    let (before, behind) = AreDistinct-middle f pre x post h.1 in
    let apart = (All-right (λ z. f z ≢ f y) pre (x ∷ post) h.0).0 in
    ((λ e. apart (sym e), before), behind)

pub AreDistinct-replace :
    {A : Type 0} (f : A → String) (pre : List A) (x y : A) (post : List A)
    → f x ≡ f y
    → AreDistinct f (pre ++ (x ∷ post))
    → AreDistinct f (pre ++ (y ∷ post))
AreDistinct-replace f [] x y post e h = rw e at h
AreDistinct-replace f (z ∷ pre) x y post e h =
    let apart : f x ≢ f z = (All-right (λ a. f a ≢ f z) pre (x ∷ post) h.0).0 in
    (
      All-append (λ a. f a ≢ f z) pre (y ∷ post) (All-left (λ a. f a ≢ f z) pre (x ∷ post) h.0)
          (λ i. apart (e ∙ i), (All-right (λ a. f a ≢ f z) pre (x ∷ post) h.0).1),
      AreDistinct-replace f pre x y post e h.1,
    )
