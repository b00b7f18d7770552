-- ===== src/Plugins/Scope.antt =====
-- src/codegenie/plugins/scope.py: the scope of a plugin, its text form and its order.
pub mod Splits
pub mod RoundTrip
pub mod Specificity
use codewizard_sherpa.Prelude.{
  ℕ, ◌+◌, Bool, true, false, ◌&&◌, ◌||◌, List, [], ◌∷◌, ◌++◌, length, ltb, leb, ◌==◌, if◌then◌else◌,
}
use codewizard_sherpa.Prelude.Texts.{Text, codes, text_eq}
use codewizard_sherpa.Prelude.Outcome.{Outcome, ok, err, ◌>>=◌}

pub data ScopeDim : Type 0 where
  wildcard : ScopeDim
  concrete : (value : Text) → ScopeDim

pub record PluginScope : Type 0 where
  pub task_class : ScopeDim
  pub language : ScopeDim
  pub build_system : ScopeDim

pub data ParseMessage : Type 0 where
  expected_three_dims empty_dim dim_too_long dim_charset : ParseMessage

pub record ParseError : Type 0 where
  pub message : ParseMessage
  pub value : Text

abbrev pub dim_max_len : ℕ
dim_max_len = 64

-- `[a-z0-9_-]`
abbrev pub in_dim_pattern : ℕ → Bool
in_dim_pattern c =
    leb b'a' c && leb c b'z' || (leb b'0' c && leb c b'9' || (c == b'_' || c == b'-'))

abbrev pub all_in_pattern : Text → Bool
all_in_pattern [] = true
all_in_pattern (c ∷ s) = in_dim_pattern c && all_in_pattern s

abbrev pub is_empty : Text → Bool
is_empty [] = true
is_empty (c ∷ s) = false

-- A character in front of the first part.
abbrev pub push : ℕ → List Text → List Text
push c [] = (c ∷ []) ∷ []
push c (p ∷ ps) = (c ∷ p) ∷ ps

-- `s.split("--")`: separators are taken from the left and do not overlap.
unfoldable pub split : Text → List Text
split [] = [] ∷ []
split (c ∷ []) = (c ∷ []) ∷ []
split (c ∷ d ∷ s) =
    let after = split s in
    let later = push c (split (d ∷ s)) in if c == b'-' && d == b'-' then [] ∷ after else later

-- `"--".join(parts)`
unfoldable pub join : List Text → Text
join [] = []
join (p ∷ []) = p
join (p ∷ q ∷ ps) = p ++ (b'-' ∷ b'-' ∷ join (q ∷ ps))

unfoldable pub parse_dim : (part original : Text) → Outcome ParseError ScopeDim
parse_dim part original =
    if text_eq part (codes "*")
    then ok wildcard
    else if is_empty part
    then err (record { message = empty_dim; value = original })
    else if ltb dim_max_len (length part)
    then err (record { message = dim_too_long; value = original })
    else if all_in_pattern part
    then ok (concrete part)
    else err (record { message = dim_charset; value = original })

unfoldable pub parse_parts : Text → List Text → Outcome ParseError PluginScope
unfolding parse_dim
parse_parts s (a ∷ b ∷ c ∷ []) = do
  task ← parse_dim a s
  language ← parse_dim b s
  build ← parse_dim c s
  ok (record { task_class = task; language = language; build_system = build })
parse_parts s _ = err (record { message = expected_three_dims; value = s })

-- `PluginScope.parse`
unfoldable pub parse : Text → Outcome ParseError PluginScope
unfolding parse_parts split
parse s = parse_parts s (split s)

abbrev pub dim_admits : ScopeDim → Text → Bool
dim_admits wildcard candidate = true
dim_admits (concrete v) candidate = text_eq v candidate

unfoldable pub matches : PluginScope → (task language build : Text) → Bool
matches p task language build =
    dim_admits p.task_class task
    && (dim_admits p.language language && dim_admits p.build_system build)

abbrev pub is_concrete : ScopeDim → ℕ
is_concrete wildcard = 0
is_concrete (concrete v) = 1

unfoldable pub specificity : PluginScope → ℕ
specificity p = is_concrete p.task_class + is_concrete p.language + is_concrete p.build_system

abbrev pub dim_to_str : ScopeDim → Text
dim_to_str wildcard = codes "*"
dim_to_str (concrete v) = v

-- `PluginScope.__str__`
unfoldable pub to_str : PluginScope → Text
unfolding join
to_str p = join (dim_to_str p.task_class ∷ dim_to_str p.language ∷ dim_to_str p.build_system ∷ [])
