-- ===== src/Probes/Ordering.antt =====
-- `_sort_entries` of probes/registry.py: the two sorts are one, by a key of three parts.
use codewizard_sherpa.Prelude.{
  ◌≡◌, refl, sym, ap, ◌∙◌, Bool, true, false, not, List, [], ◌∷◌, ◌++◌, arith, All, inl, inr,
  Bool-cases, if◌then◌else◌, ltb, leb,
}
use codewizard_sherpa.Prelude.Sorting.{sorted, insert, sorted-All}
use codewizard_sherpa.Probes.{
  Heaviness, heavy, medium, light, heaviness_rank, ProbeRegEntry, select, key_leb, sort_entries,
}

-- Heavy stands before medium, and medium before light.
abbrev pub is_heavier : Heaviness → Heaviness → Bool
is_heavier heavy heavy = false
is_heavier heavy _ = true
is_heavier medium light = true
is_heavier _ _ = false

-- Of two entries the heavier is first, and of two of one weight the one registered first.
abbrev pub weight_leb : ProbeRegEntry → ProbeRegEntry → Bool
weight_leb a b =
    if is_heavier a.heaviness b.heaviness
    then true
    else if is_heavier b.heaviness a.heaviness
    then false
    else leb a.registration_index b.registration_index

-- An entry that runs last stands behind every one that does not.
unfoldable pub single_key_leb : ProbeRegEntry → ProbeRegEntry → Bool
single_key_leb a b =
    if a.runs_last
    then (if b.runs_last then weight_leb a b else false)
    else if b.runs_last
    then true
    else weight_leb a b

by_rank :
    (h k : Heaviness) (rest : Bool)
    → (if ltb (heaviness_rank h) (heaviness_rank k)
        then true
        else if ltb (heaviness_rank k) (heaviness_rank h)
        then false
        else rest)
      ≡ (if is_heavier h k then true else if is_heavier k h then false else rest)
unfolding heaviness_rank
by_rank heavy heavy rest = refl
by_rank heavy medium rest = refl
by_rank heavy light rest = refl
by_rank medium heavy rest = refl
by_rank medium medium rest = refl
by_rank medium light rest = refl
by_rank light heavy rest = refl
by_rank light medium rest = refl
by_rank light light rest = refl

key_leb-weight_leb : (a b : ProbeRegEntry) → key_leb a b ≡ weight_leb a b
unfolding key_leb
key_leb-weight_leb a b =
    by_rank a.heaviness b.heaviness (leb a.registration_index b.registration_index)

abbrev Runs : Bool → ProbeRegEntry → Type 0
Runs b e = e.runs_last ≡ b

select-All :
    (b : Bool) (p : ProbeRegEntry → Bool)
    → ((e : ProbeRegEntry) → p e ≡ true → Runs b e)
    → (es : List ProbeRegEntry) → All (Runs b) (select p es)
unfolding select
select-All b p h [] = tt
select-All b p h (e ∷ es) = elim (Bool-cases (p e)) [
  | inl k ↦ rw k (h e k, select-All b p h es)
  | inr k ↦ rw k (select-All b p h es)
]

same_part :
    (b : Bool) (x y : ProbeRegEntry) → Runs b x → Runs b y → single_key_leb x y ≡ key_leb x y
unfolding single_key_leb
same_part true x y hx hy = rw (key_leb-weight_leb x y) (ground (arith, hx, hy))
same_part false x y hx hy = rw (key_leb-weight_leb x y) (ground (arith, hx, hy))

first_before_last :
    (x y : ProbeRegEntry)
    → Runs false x
    → Runs true y
    → (single_key_leb x y ≡ true) × (single_key_leb y x ≡ false)
unfolding single_key_leb
first_before_last x y hx hy = ground (arith, hx, hy)

select-keeps :
    (p : ProbeRegEntry → Bool) (x : ProbeRegEntry) (xs : List ProbeRegEntry)
    → p x ≡ true
    → select p (x ∷ xs) ≡ x ∷ select p xs
unfolding select
select-keeps p x xs h = rw h refl

select-drops :
    (p : ProbeRegEntry → Bool) (x : ProbeRegEntry) (xs : List ProbeRegEntry)
    → p x ≡ false
    → select p (x ∷ xs) ≡ select p xs
unfolding select
select-drops p x xs h = rw h refl

-- An entry that does not run last goes into the first part.
insert-first :
    (x : ProbeRegEntry) (a b : List ProbeRegEntry)
    → Runs false x
    → All (Runs false) a
    → All (Runs true) b
    → insert single_key_leb x (a ++ b) ≡ insert key_leb x a ++ b
unfolding insert
insert-first x [] [] hx ha hb = refl
insert-first x [] (y ∷ b) hx ha hb = rw ((first_before_last x y hx hb.0).0) refl
insert-first x (y ∷ a) b hx ha hb = elim (Bool-cases (key_leb x y)) [
  | inl k ↦ rw (same_part false x y hx ha.0, k) refl
  | inr k ↦ rw (same_part false x y hx ha.0, k) (ap (λ l. y ∷ l) (insert-first x a b hx ha.1 hb))
]

insert-same :
    (x : ProbeRegEntry) (b : List ProbeRegEntry)
    → Runs true x
    → All (Runs true) b
    → insert single_key_leb x b ≡ insert key_leb x b
unfolding insert
insert-same x [] hx hb = refl
insert-same x (y ∷ b) hx hb = rw (same_part true x y hx hb.0, insert-same x b hx hb.1) refl

-- One that runs last goes behind it.
insert-last :
    (x : ProbeRegEntry) (a b : List ProbeRegEntry)
    → Runs true x
    → All (Runs false) a
    → All (Runs true) b
    → insert single_key_leb x (a ++ b) ≡ a ++ insert key_leb x b
unfolding insert
insert-last x [] b hx ha hb = insert-same x b hx hb
insert-last x (y ∷ a) b hx ha hb =
    rw ((first_before_last y x ha.0 hx).1) (ap (λ l. y ∷ l) (insert-last x a b hx ha.1 hb))

-- The two sorts, first of the entries that do not run last, then of those that do, are the sort by
-- one order: entries that do not run last before those that do, then heavy before medium before
-- light, then by registration.
pub sort_entries_single_key :
    (entries : List ProbeRegEntry) → sort_entries entries ≡ sorted single_key_leb entries
unfolding sort_entries sorted select
sort_entries_single_key [] = refl
sort_entries_single_key (x ∷ xs) =
    let p : ProbeRegEntry → Bool = λ e. not e.runs_last in
    let q : ProbeRegEntry → Bool = λ e. e.runs_last in
    let a = sorted key_leb (select p xs) in
    let b = sorted key_leb (select q xs) in
    let firsts =
      sorted-All key_leb (Runs false) (select p xs)
        (select-All false p (λ e h. ground (arith, h)) xs) in
    let lasts = sorted-All key_leb (Runs true) (select q xs) (select-All true q (λ e h. h) xs) in
    let before : a ++ b ≡ sorted single_key_leb xs = sort_entries_single_key xs in
    elim (Bool-cases x.runs_last) [
      | inl k ↦
          rw (select-drops p x xs (ground (arith, k)), select-keeps q x xs k)
            (sym (insert-last x a b k firsts lasts) ∙ ap (insert single_key_leb x) before)
      | inr k ↦
          rw (select-keeps p x xs (ground (arith, k)), select-drops q x xs k)
            (sym (insert-first x a b k firsts lasts) ∙ ap (insert single_key_leb x) before)
    ]
