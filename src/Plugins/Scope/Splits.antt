-- ===== src/Plugins/Scope/Splits.antt =====
-- scope.py: splitting a text at `--` and joining the parts.
use codewizard_sherpa.Prelude.{
  ℕ, ◌≡◌, refl, Bool, true, false, not, ◌&&◌, List, [], ◌∷◌, ◌++◌, arith, ◌==◌, inl, inr,
  Bool-cases,
}
use codewizard_sherpa.Prelude.Texts.{Text}
use codewizard_sherpa.Plugins.Scope.{push, split, join}

join-push : (c : ℕ) (ps : List Text) → join (push c ps) ≡ c ∷ join ps
unfolding join
join-push c [] = refl
join-push c (p ∷ []) = refl
join-push c (p ∷ q ∷ ps) = refl

-- The first part and the others.
record Parts (ps : List Text) : Type 0 where
  first : Text
  others : List Text
  split_up : ps ≡ first ∷ others

push-Parts : (c : ℕ) (ps : List Text) → Parts (push c ps)
push-Parts c [] = record { first = c ∷ []; others = []; split_up = refl }
push-Parts c (p ∷ ps) = record { first = c ∷ p; others = ps; split_up = refl }

abbrev is_sep : ℕ → ℕ → Bool
is_sep c d = c == b'-' && d == b'-'

split_sep : (c d : ℕ) (s : Text) → is_sep c d ≡ true → split (c ∷ d ∷ s) ≡ [] ∷ split s
unfolding split
split_sep c d s h = rw h

split-push : (c d : ℕ) (s : Text) → is_sep c d ≡ false → split (c ∷ d ∷ s) ≡ push c (split (d ∷ s))
unfolding split
split-push c d s h = rw h

split-Parts : (s : Text) → Parts (split s)
unfolding split
split-Parts [] = record { first = []; others = []; split_up = refl }
split-Parts (c ∷ []) = record { first = c ∷ []; others = []; split_up = refl }
split-Parts (c ∷ d ∷ s) = elim (Bool-cases (is_sep c d)) [
  | inl h ↦ rw h (record { first = []; others = split s; split_up = refl })
  | inr h ↦ rw h (push-Parts c (split (d ∷ s)))
]

join-nil_cons : (ps : List Text) → Parts ps → join ([] ∷ ps) ≡ b'-' ∷ b'-' ∷ join ps
unfolding join
join-nil_cons [] p = cc (p.split_up)
join-nil_cons (q ∷ ps) p = refl

pub join-split : (s : Text) → join (split s) ≡ s
unfolding split join
join-split [] = refl
join-split (c ∷ []) = refl
join-split (c ∷ d ∷ s) = elim (Bool-cases (is_sep c d)) [
  | inl h ↦
      let first : c ≡ b'-' = ground arith in
      let second : d ≡ b'-' = ground arith in
      rw h (cc (join-nil_cons (split s) (split-Parts s), join-split s))
  | inr h ↦ rw h (cc (join-push c (split (d ∷ s)), join-split (d ∷ s)))
]

-- No separator stands in the text.
abbrev pub no_sep : Text → Bool
no_sep [] = true
no_sep (c ∷ []) = true
no_sep (c ∷ d ∷ s) = not (is_sep c d) && no_sep (d ∷ s)

-- No separator begins in the text either, if one follows it.
abbrev pub no_dash_end : Text → Bool
no_dash_end [] = true
no_dash_end (c ∷ []) = not (c == b'-')
no_dash_end (c ∷ d ∷ s) = no_dash_end (d ∷ s)

pub split-no_sep : (v : Text) → no_sep v ≡ true → split v ≡ v ∷ []
unfolding split
split-no_sep [] h = refl
split-no_sep (c ∷ []) h = refl
split-no_sep (c ∷ d ∷ s) h =
    let rest : split (d ∷ s) ≡ (d ∷ s) ∷ [] = split-no_sep (d ∷ s) (ground arith) in
    let here : is_sep c d ≡ false = ground arith in rw (here, rest)

pub split-append :
    (v s : Text)
    → no_sep v ≡ true
    → no_dash_end v ≡ true
    → split (v ++ (b'-' ∷ b'-' ∷ s)) ≡ v ∷ split s
unfolding split
split-append [] s h k = refl
split-append (c ∷ []) s h k = let here : is_sep c b'-' ≡ false = ground arith in rw here
split-append (c ∷ d ∷ v) s h k =
    let rest = split-append (d ∷ v) s (ground arith) (ground arith) in
    let here : is_sep c d ≡ false = ground arith in rw (here, rest)

-- The parts of a split: none holds a separator, and only the last may end in a dash. If the text
-- goes on with `c` the first part begins with it, or is empty before a separator.
abbrev pub Split : List Text → Type 0
Split [] = Unit
Split (p ∷ []) = no_sep p ≡ true
Split (p ∷ q ∷ ps) = (no_sep p ≡ true) × (no_dash_end p ≡ true) × Split (q ∷ ps)

abbrev Begins : ℕ → List Text → Type 0
Begins c [] = ⊥
Begins c ([] ∷ ps) = c ≡ b'-'
Begins c ((d ∷ p) ∷ ps) = c ≡ d

Split-nil_cons : (ps : List Text) → Parts ps → Split ps → Split ([] ∷ ps)
Split-nil_cons [] p h = refl
Split-nil_cons (q ∷ ps) p h = (refl, refl, h)

Split-push :
    (c d : ℕ) (ps : List Text)
    → is_sep c d ≡ false
    → Begins d ps
    → Split ps
    → Split (push c ps) × Begins c (push c ps)
Split-push c d [] n b h = absurd b
Split-push c d ([] ∷ []) n b h = (refl, refl)
Split-push c d ((x ∷ p) ∷ []) n b h = ground arith
Split-push c d ([] ∷ q ∷ ps) n b h = ground arith
Split-push c d ((x ∷ p) ∷ q ∷ ps) n b h = ground arith

step-Split :
    (c d : ℕ) (s : Text)
    → Split (split s)
    → Split (split (d ∷ s)) × Begins d (split (d ∷ s))
    → Split (split (c ∷ d ∷ s)) × Begins c (split (c ∷ d ∷ s))
step-Split c d s after later = elim (Bool-cases (is_sep c d)) [
  | inl h ↦ rw (split_sep c d s h) (Split-nil_cons (split s) (split-Parts s) after, ground arith)
  | inr h ↦ rw (split-push c d s h) (Split-push c d (split (d ∷ s)) h later.1 later.0)
]

split-Split : (c : ℕ) (s : Text) → Split (split (c ∷ s)) × Begins c (split (c ∷ s))
unfolding split
split-Split c [] = (refl, refl)
split-Split c (d ∷ []) = step-Split c d [] refl (refl, refl)
split-Split c (d ∷ e ∷ s) = step-Split c d (e ∷ s) (split-Split e s).0 (split-Split d (e ∷ s))

pub Split-split : (s : Text) → Split (split s)
unfolding split
Split-split [] = refl
Split-split (c ∷ s) = (split-Split c s).0
