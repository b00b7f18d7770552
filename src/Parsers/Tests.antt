-- ===== src/Parsers/Tests.antt =====
-- Texts with comments, a heap of two containers and files that hold them, and the theorems of the
-- modules beside this one at inputs that meet their hypotheses.
use mathlib.Core.List.{Memᴰ}
use mathlib.Core.List.Memᴰ.{head, tail}
use codewizard_sherpa.Prelude.{
  ℕ, ◌≤◌, ◌≡◌, ◌≢◌, ◌↔◌, refl, none, some, List, [], ◌∷◌, arith, ◌⊎◌, inl, inr, ap, ◌==◌,
  if◌then◌else◌,
}
use codewizard_sherpa.Prelude.Texts.{codes, text_eq}
use codewizard_sherpa.Prelude.Outcome.{ok, err}
use codewizard_sherpa.Parsers.Jsonc.{
  Bytes, strip_comments, scan, opens, after_code, after_string, turns, close, unterminated_string,
  unterminated_block_comment,
}
use codewizard_sherpa.Parsers.Jsonc.Grammar.{Strips}
use codewizard_sherpa.Parsers.Jsonc.Stripping.{strip_comments-ok_iff}
use codewizard_sherpa.Parsers.Jsonc.Again.{strip_comments_again}
use codewizard_sherpa.Parsers.Depth.{
  Value, scalar, container, Heap, assert_max_depth, walk, walk_values, is_in, depth_cap_exceeded,
}
use codewizard_sherpa.Parsers.Depth.Walked.{At, top, inside}
use codewizard_sherpa.Parsers.Depth.Capped.{assert_max_depth-tree_iff}
use codewizard_sherpa.Parsers.Loading.{
  Document, null_document, other_document, mapping, Decoder, translated, load_json, load_jsonc,
  malformed, not_a_mapping, document_error, handled, generate,
}
use codewizard_sherpa.Parsers.Loading.Accepted.{file_of, load_jsonc_stripped}

abbrev commented : Bytes
commented = codes "[\"/*\", /* a /* b */ */ 1] // c"

abbrev uncommented : Bytes
uncommented = codes "[\"/*\",  1] "

commented_run : strip_comments commented ≡ ok uncommented
unfolding strip_comments scan opens after_code after_string turns close
commented_run = refl

open_string_run : strip_comments (codes "[\"a\\\" // b") ≡ err unterminated_string
unfolding strip_comments scan opens after_code after_string turns close
open_string_run = refl

open_comment_run : strip_comments (codes "/* /* */ \"") ≡ err unterminated_block_comment
unfolding strip_comments scan opens after_code after_string turns close
open_comment_run = refl

strip_comments-ok_iff_example :
    (strip_comments commented ≡ ok uncommented) ↔ Strips commented uncommented
strip_comments-ok_iff_example = strip_comments-ok_iff commented uncommented

strip_comments_again_example : strip_comments uncommented ≡ ok uncommented
strip_comments_again_example = strip_comments_again commented uncommented commented_run

-- One container in another.
abbrev nested : Heap
nested i = if i == 0 then container 1 ∷ scalar ∷ [] else []

nested_run : assert_max_depth nested 1 (container 0) ≡ ok (1 ∷ 0 ∷ [])
unfolding assert_max_depth walk walk_values is_in
nested_run = refl

nested_deep : assert_max_depth nested 0 (container 0) ≡ err depth_cap_exceeded
unfolding assert_max_depth walk walk_values is_in
nested_deep = refl

-- A container that is first seen at depth 1 and stands at depth 3 too: the walk passes what lies
-- below it, at depth 4.
abbrev shared : Heap
shared i =
    if i == 0
    then container 3 ∷ container 1 ∷ []
    else if i == 1
    then container 2 ∷ []
    else if i == 2
    then container 3 ∷ []
    else if i == 3
    then container 4 ∷ []
    else []

shared_run : assert_max_depth shared 3 (container 0) ≡ ok (2 ∷ 1 ∷ 4 ∷ 3 ∷ 0 ∷ [])
unfolding assert_max_depth walk walk_values is_in
shared_run = refl

nested_depth :
    {d : ℕ} {v : Value}
    → At nested 1 (container 0) d v
    → ((d ≡ 0) × (v ≡ container 0)) ⊎ ((d ≡ 1) × (v ≢ container 0))
nested_depth top = inl (refl, refl)
nested_depth (inside id v at m) = elim (nested_depth at) [
  | inl (p, q) ↦
      let e : id ≡ 0 = ground (arith, q) in
      let m' : Memᴰ v (container 1 ∷ scalar ∷ []) = rw e at m in
      elim m' [
        | head i ↦ inr (ground (arith, p), λ j. ground (arith, i, j))
        | tail n ↦ elim n [
          | head i ↦ inr (ground (arith, p), λ j. ground (arith, i, j))
          | tail o ↦ elim o [ ]
        ]
      ]
  | inr (p, q) ↦
      let apart : id ≢ 0 = λ e. q (ap container e) in
      let empty : nested id ≡ [] = ground (arith, apart) in
      let m' : Memᴰ v [] = rw empty at m in elim m' [ ]
]

-- Each container of the heap stands at one depth.
nested_single :
    (i d d' : ℕ)
    → At nested 1 (container 0) d (container i)
    → At nested 1 (container 0) d' (container i)
    → d ≡ d'
nested_single i d d' p q = elim (nested_depth p) [
  | inl (a, b) ↦ elim (nested_depth q) [
    | inl (a', b') ↦ ground (arith, a, a')
    | inr (a', b') ↦ absurd (b' b)
  ]
  | inr (a, b) ↦ elim (nested_depth q) [
    | inl (a', b') ↦ absurd (b b')
    | inr (a', b') ↦ ground (arith, a, a')
  ]
]

assert_max_depth-tree_iff_example :
    ((seen : List ℕ) × (assert_max_depth nested 1 (container 0) ≡ ok seen))
    ↔ ((i d : ℕ) → At nested 1 (container 0) d (container i) → d ≤ 1)
assert_max_depth-tree_iff_example = assert_max_depth-tree_iff nested 1 (container 0) nested_single

-- Two texts decode, to the nested mapping and to a list.
abbrev decoder : Decoder
decoder bytes =
    if text_eq bytes (codes "{}")
    then ok (nested, mapping 0)
    else if text_eq bytes (codes "[]")
    then ok (nested, other_document)
    else err translated

with_comment_run : strip_comments (codes "{}//") ≡ ok (codes "{}")
unfolding strip_comments scan opens after_code after_string turns close
with_comment_run = refl

load_jsonc_stripped_example :
    load_jsonc decoder (ok (file_of (codes "{}//"))) 9 1
    ≡ load_json decoder (ok (file_of (codes "{}"))) 9 1
load_jsonc_stripped_example =
    load_jsonc_stripped decoder (file_of (codes "{}//")) (codes "{}") 9 1 (omega arith) refl
      with_comment_run

abbrev documents : List (Heap × Document)
documents = (nested, null_document) ∷ (nested, mapping 0) ∷ (nested, other_document) ∷ []

generate_run : generate 1 documents none ≡ record {
  yielded = (nested, null_document) ∷ (nested, mapping 0) ∷ [];
  raised = some (malformed not_a_mapping);
}
unfolding generate document_error handled assert_max_depth walk walk_values is_in
generate_run = refl
