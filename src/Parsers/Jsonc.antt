-- ===== src/Parsers/Jsonc.antt =====
-- src/codegenie/parsers/jsonc.py: the stripper of comments, a machine of four states that reads
-- the bytes of a file once. Bytes are numbers.
pub mod Grammar
mod Reading
pub mod Stripping
pub mod Again
use codewizard_sherpa.Prelude.{
  ℕ, suc, ◌-◌, Bool, true, false, Option, none, some, List, [], ◌∷◌, length, ◌==◌, leb,
  if◌then◌else◌,
}
use codewizard_sherpa.Prelude.Outcome.{Outcome, ok, err}

abbrev pub Bytes : Type 0
Bytes = List ℕ

abbrev pub newline : ℕ
newline = 10

abbrev pub double_quote : ℕ
double_quote = 34

abbrev pub star : ℕ
star = 42

abbrev pub slash : ℕ
slash = 47

abbrev pub backslash : ℕ
backslash = 92

-- `state` with the variable that the state uses.
pub data Mode : Type 0 where
  code line_comment : Mode
  string : (escaped : Bool) → Mode
  block_comment : (block_depth : ℕ) → Mode

-- What the stripper raises, its assertion included.
pub data StripError : Type 0 where
  unterminated_string unterminated_block_comment assertion_error : StripError

-- The state behind the two bytes, if they open a comment in code.
unfoldable pub opens : ℕ → ℕ → Option Mode
opens b next =
    if b == slash
    then (if next == slash
        then some line_comment
        else if next == star
        then some (block_comment 1)
        else none)
    else none

-- The state behind a byte of code that is kept.
unfoldable pub after_code : ℕ → Mode
after_code b = if b == double_quote then string false else code

-- The state behind a byte of a string.
unfoldable pub after_string : Bool → ℕ → Mode
after_string escaped b =
    if escaped
    then string false
    else if b == backslash
    then string true
    else if b == double_quote
    then code
    else string false

-- The state behind two bytes that open or close a level of a block comment.
unfoldable pub turns : ℕ → ℕ → ℕ → Option Mode
turns depth b next =
    if b == slash
    then (if next == star then some (block_comment (suc depth)) else none)
    else if b == star
    then (if next == slash
        then some (if depth - 1 == 0 then code else block_comment (depth - 1))
        else none)
    else none

-- The loop of `_strip_comments` from a state on: the bytes it puts out, and its last state.
unfoldable pub scan : Mode → Bytes → Bytes × Mode
unfolding opens after_code after_string turns
scan state [] = ([], state)
scan code (b ∷ []) = (b ∷ [], after_code b)
scan code (b ∷ next ∷ bytes) = elim (opens b next) [
  | some state ↦ scan state bytes
  | none ↦ let (out, last) = scan (after_code b) (next ∷ bytes) in (b ∷ out, last)
]
scan (string escaped) (b ∷ bytes) =
    let (out, last) = scan (after_string escaped b) bytes in (b ∷ out, last)
scan line_comment (b ∷ bytes) = elim (b == newline) [
  | true ↦ let (out, last) = scan code bytes in (b ∷ out, last)
  | false ↦ scan line_comment bytes
]
scan (block_comment depth) (b ∷ []) = ([], block_comment depth)
scan (block_comment depth) (b ∷ next ∷ bytes) = elim (turns depth b next) [
  | some state ↦ scan state bytes
  | none ↦ scan (block_comment depth) (next ∷ bytes)
]

-- What `_strip_comments` makes of the last state.
unfoldable pub close : Bytes → Bytes → Mode → Outcome StripError Bytes
close bytes out (string escaped) = err unterminated_string
close bytes out (block_comment depth) = err unterminated_block_comment
close bytes out state = if leb (length out) (length bytes) then ok out else err assertion_error

unfoldable pub strip_comments : Bytes → Outcome StripError Bytes
unfolding scan close
strip_comments bytes = let (out, last) = scan code bytes in close bytes out last
