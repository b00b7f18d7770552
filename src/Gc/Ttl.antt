-- ===== src/Gc/Ttl.antt =====
-- The lifetime of an entry, as read from the environment, and what a call of the collector raises.
use mathlib.Core.List.{reverse}
use codewizard_sherpa.Prelude.{
  ℕ, ◌+◌, ◌-◌, ◌*◌, Bool, true, false, ◌&&◌, ◌||◌, Option, none, some, [], ◌∷◌, ltb, leb, length,
  if◌then◌else◌,
}
use codewizard_sherpa.Prelude.Texts.{Text, codes}
use codewizard_sherpa.Prelude.Outcome.{Outcome, ok, err}

-- The reasons that the collector gives a `BundleCacheRaise`, the `ValueError` of an `int` of too
-- many digits, the `UnicodeDecodeError` of a stamp that is no UTF-8, the error of a file that may not be unlinked, and whatever an emitter raises.
pub data GcError : Type 0 where
  invalid_ttl_env : (value : Text) → GcError
  corrupt_gc_stamp : (content : Text) → GcError
  value_error unicode_decode_error : GcError
  permission_error : (name : Text) → GcError
  emitter_error : (raised : Text) → GcError

-- `str.isspace` on one code point
unfoldable pub is_space : ℕ → Bool
is_space c =
    (leb 9 c && leb c 13)
    || (leb 28 c && leb c 32)
    || (leb 133 c && leb c 133)
    || (leb 160 c && leb c 160)
    || (leb 5760 c && leb c 5760)
    || (leb 8192 c && leb c 8202)
    || (leb 8232 c && leb c 8233)
    || (leb 8239 c && leb c 8239)
    || (leb 8287 c && leb c 8287)
    || (leb 12288 c && leb c 12288)

unfoldable pub left_strip : Text → Text
left_strip [] = []
left_strip (c ∷ s) = let rest = left_strip s in if is_space c then rest else c ∷ s

-- `s.strip()`
unfoldable pub strip : Text → Text
strip s = reverse (left_strip (reverse (left_strip s)))

unfoldable pub is_digit : ℕ → Bool
is_digit c = leb 48 c && leb c 57

unfoldable pub all_digits : Text → Bool
all_digits [] = true
all_digits (c ∷ s) = is_digit c && all_digits s

-- `_DECIMAL_INT_RE`
unfoldable pub is_decimal_int : Text → Bool
is_decimal_int [] = false
is_decimal_int (c ∷ s) = leb 49 c && leb c 57 && all_digits s

unfoldable pub int_from : ℕ → Text → ℕ
int_from n [] = n
int_from n (c ∷ s) = int_from (n * 10 + (c - 48)) s

-- `sys.int_info.default_max_str_digits`
abbrev pub max_str_digits : ℕ
max_str_digits = 4300

-- `int` of a text of digits
unfoldable pub int : Text → Outcome GcError ℕ
int s = if ltb max_str_digits (length s) then err value_error else ok (int_from 0 s)

-- `env.get(_TTL_ENV_VAR, "7")`
unfoldable pub configured : Option Text → Text
configured none = codes "7"
configured (some value) = value

-- The argument is the value of `CODEGENIE_BUNDLE_CACHE_TTL_DAYS`, if the variable is set.
unfoldable pub parse_ttl_seconds : Option Text → Outcome GcError ℕ
parse_ttl_seconds variable =
    let raw = configured variable in
    let stripped = strip raw in
    if is_decimal_int stripped
    then elim (int stripped) [ ok days ↦ ok (days * 86400) | err e ↦ err e ]
    else err (invalid_ttl_env raw)
