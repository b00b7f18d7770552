-- ===== src/Plugins/Scope/RoundTrip.antt =====
-- scope.py: which scopes are read back from their text form.
use codewizard_sherpa.Prelude.{
  ◌≤◌, ◌≡◌, ◌↔◌, refl, ap, sym, ◌∙◌, true, false, List, [], ◌∷◌, ◌++◌, arith, length,
}
use codewizard_sherpa.Prelude.Texts.{Text, codes, text_eq_iff}
use codewizard_sherpa.Prelude.Outcome.{ok, >>=-eq-ok}
use codewizard_sherpa.Plugins.Scope.{
  ScopeDim, wildcard, concrete, PluginScope, dim_max_len, all_in_pattern, is_empty, split, join,
  parse_dim, parse_parts, parse, dim_to_str, to_str,
}
use codewizard_sherpa.Plugins.Scope.Splits.{
  Split, Split-split, join-split, no_dash_end, no_sep, split-append, split-no_sep,
}

-- The value of a dim that `parse` accepts.
abbrev pub IsDim : ScopeDim → Type 0
IsDim wildcard = Unit
IsDim (concrete v) =
    (is_empty v ≡ false) × (length v ≤ dim_max_len) × (all_in_pattern v ≡ true) × (no_sep v ≡ true)

abbrev pub IsOpen : ScopeDim → Type 0
IsOpen d = no_dash_end (dim_to_str d) ≡ true

-- The scopes with a text form that stands for them: every concrete value is a non-empty word of
-- the pattern, at most 64 long and without a double dash, and the first two do not end in a dash.
pub record IsWritable (p : PluginScope) : Type 0 where
  pub task : IsDim p.task_class
  pub language : IsDim p.language
  pub build : IsDim p.build_system
  pub task_end : IsOpen p.task_class
  pub language_end : IsOpen p.language

parse_dim-to_str : (part s : Text) (d : ScopeDim) → parse_dim part s ≡ ok d → dim_to_str d ≡ part
unfolding parse_dim
parse_dim-to_str part s d h = ground (arith, text_eq_iff part (codes "*"))

parse_dim-IsDim :
    (part s : Text) (d : ScopeDim) → no_sep part ≡ true → parse_dim part s ≡ ok d → IsDim d
unfolding parse_dim
parse_dim-IsDim part s d n h = ground arith

IsDim-parse_dim : (d : ScopeDim) (s : Text) → IsDim d → parse_dim (dim_to_str d) s ≡ ok d
unfolding parse_dim
IsDim-parse_dim wildcard s h = refl
IsDim-parse_dim (concrete v) s h = ground (arith, text_eq_iff v (codes "*"))

-- What a parse that returns shows of the parts and the dims.
record Parsed (s : Text) (parts : List Text) (p : PluginScope) : Type 0 where
  a : Text
  b : Text
  d : Text
  three : parts ≡ a ∷ b ∷ d ∷ []
  task : parse_dim a s ≡ ok p.task_class
  language : parse_dim b s ≡ ok p.language
  build : parse_dim d s ≡ ok p.build_system

parse_parts-Parsed :
    (s : Text) (parts : List Text) (p : PluginScope) → parse_parts s parts ≡ ok p → Parsed s parts p
unfolding parse_parts
parse_parts-Parsed s [] p h = cc
parse_parts-Parsed s (a ∷ []) p h = cc
parse_parts-Parsed s (a ∷ b ∷ []) p h = cc
parse_parts-Parsed s (a ∷ b ∷ c ∷ []) p h =
    let (x, hx, h₁) = >>=-eq-ok (parse_dim a s) _ h in
    let (y, hy, h₂) = >>=-eq-ok (parse_dim b s) _ h₁ in
    let (z, hz, h₃) = >>=-eq-ok (parse_dim c s) _ h₂ in
    record {
      a = a;
      b = b;
      d = c;
      three = refl;
      task = ground arith;
      language = ground arith;
      build = ground arith;
    }
parse_parts-Parsed s (a ∷ b ∷ c ∷ e ∷ ps) p h = cc

-- A text that parses is the text form of its scope, and that scope is writable.
pub to_str-parse : (s : Text) (p : PluginScope) → parse s ≡ ok p → (to_str p ≡ s) × IsWritable p
unfolding parse to_str
to_str-parse s p h =
    let q = parse_parts-Parsed s (split s) p h in
    let parts : Split (q.a ∷ q.b ∷ q.d ∷ []) = rw q.three at (Split-split s) in
    let task = parse_dim-to_str q.a s p.task_class q.task in
    let language = parse_dim-to_str q.b s p.language q.language in
    let build = parse_dim-to_str q.d s p.build_system q.build in
    (
      rw (task, language, build) (ap join (sym q.three) ∙ join-split s),
      record {
        task = parse_dim-IsDim q.a s p.task_class parts.0 q.task;
        language = parse_dim-IsDim q.b s p.language parts.2.0 q.language;
        build = parse_dim-IsDim q.d s p.build_system parts.2.2 q.build;
        task_end = rw task parts.1;
        language_end = rw language parts.2.1;
      },
    )

IsDim-no_sep : (d : ScopeDim) → IsDim d → no_sep (dim_to_str d) ≡ true
IsDim-no_sep wildcard h = refl
IsDim-no_sep (concrete v) h = h.3

split-to_str :
    (p : PluginScope)
    → IsWritable p
    → split (to_str p)
      ≡ dim_to_str p.task_class ∷ dim_to_str p.language ∷ dim_to_str p.build_system ∷ []
unfolding to_str
split-to_str p w =
    let task = dim_to_str p.task_class in
    let language = dim_to_str p.language in
    let build = dim_to_str p.build_system in
    split-append task (language ++ (b'-' ∷ b'-' ∷ build)) (IsDim-no_sep p.task_class w.task)
      w.task_end
    ∙ ap (λ (l : List Text). task ∷ l)
        (split-append language build (IsDim-no_sep p.language w.language) w.language_end
          ∙ ap (λ (l : List Text). language ∷ l)
              (split-no_sep build (IsDim-no_sep p.build_system w.build)))

-- A scope is read back from its text form exactly if it is writable.
pub parse-to_str_iff : (p : PluginScope) → (parse (to_str p) ≡ ok p) ↔ IsWritable p
unfolding parse
parse-to_str_iff p = (
  λ h. (to_str-parse (to_str p) p h).1,
  λ w.
      ap (parse_parts (to_str p)) (split-to_str p w)
      ∙ unfold parse_parts in
        rw (
          IsDim-parse_dim p.task_class (to_str p) w.task,
          IsDim-parse_dim p.language (to_str p) w.language,
          IsDim-parse_dim p.build_system (to_str p) w.build,
        ),
)
